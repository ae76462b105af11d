-- ===== src/Tests/Escape.antt =====
-- The quoted form of a text with a quote, a newline and a character of two bytes.
use pgroonga.Base.{
  ℕ, ◌≡◌, ◌≢◌, refl, Bytes, codes, List, [], ◌∷◌, ◌++◌, some, inl, inr, arith, ◌<◌, ltb,
  if◌then◌else◌,
}
use pgroonga.Escape.{command_escape_value}
use pgroonga.Escape.Laws.{IsText, unquote, command_escape_value-unquote}

-- The first byte tells whether the character has one byte or two.
abbrev charlen : Bytes → ℕ
charlen [] = 0
charlen (b ∷ rest) = if ltb b 128 then 1 else 2

abbrev characters : List Bytes
characters = codes "a" ∷ (34 ∷ []) ∷ (10 ∷ []) ∷ (195 ∷ 169 ∷ []) ∷ []

characters-IsText : IsText charlen characters
characters-IsText = (
  refl,
  omega arith,
  inl refl,
  (
    refl,
    omega arith,
    inl refl,
    (
      refl,
      omega arith,
      inl refl,
      (refl, omega arith, inr (plain 195 (omega arith), (plain 169 (omega arith), tt)), tt),
    ),
  ),
)
  where
    plain : (b : ℕ) → 92 < b → (b ≢ 34) × (b ≢ 92)
    plain b lt = (omega arith, omega arith)

command_escape_value-unquote_example :
    (t : Bytes) × (command_escape_value charlen (97 ∷ 34 ∷ 10 ∷ 195 ∷ 169 ∷ []) ≡ some (34 ∷ t))
    × (unquote (t ++ codes " --x") ≡ some (97 ∷ 34 ∷ 10 ∷ 195 ∷ 169 ∷ [], codes " --x"))
command_escape_value-unquote_example =
    command_escape_value-unquote charlen characters (codes " --x") characters-IsText

escaped_bytes :
    command_escape_value charlen (97 ∷ 34 ∷ 10 ∷ []) ≡ some (34 ∷ 97 ∷ 92 ∷ 34 ∷ 92 ∷ 110 ∷ 34 ∷ [])
unfolding command_escape_value
escaped_bytes = refl
