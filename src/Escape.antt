-- ===== src/Escape.antt =====
-- The quoted form of a value in a Groonga command: `PGrnCommandEscapeValue` of
-- src/pgrn-command-escape-value.c. Groonga's `grn_charlen` (the bytes of the first character, 0 if there is
-- none) is the argument `charlen`.
pub mod Laws
use pgroonga.Base.{
  ℕ, zero, suc, Bytes, [], ◌∷◌, ◌++◌, length, take, drop, ◌==◌, if◌then◌else◌, Option, none, some,
}

-- A backslash or a quote is escaped by a backslash, a newline is written as `\n`.
unfoldable pub escape_one : ℕ → Bytes
escape_one b =
    if b == 92
    then 92 ∷ b ∷ []
    else if b == 34
    then 92 ∷ b ∷ []
    else if b == 10
    then 92 ∷ 110 ∷ []
    else b ∷ []

-- What a character of `n` bytes, at least one, is written as.
unfoldable pub escape_char : ℕ → ℕ → Bytes → Bytes
unfolding escape_one
escape_char n b rest = if n == 1 then escape_one b else take n (b ∷ rest)

abbrev pub prepend : Bytes → Option Bytes → Option Bytes
prepend bytes none = none
prepend bytes (some rest) = some (bytes ++ rest)

-- The loop; it stops where no character is found. `none`: the fuel ran out.
unfoldable pub escape_chars : (Bytes → ℕ) → ℕ → Bytes → Option Bytes
unfolding escape_char
escape_chars charlen fuel [] = some []
escape_chars charlen zero (b ∷ rest) = none
escape_chars charlen (suc fuel) (b ∷ rest) =
    let n = charlen (b ∷ rest) in
    let following = escape_chars charlen fuel (drop n (b ∷ rest)) in
    if n == 0 then some [] else prepend (escape_char n b rest) following

abbrev pub quoted : Option Bytes → Option Bytes
quoted none = none
quoted (some bytes) = some (34 ∷ bytes ++ 34 ∷ [])

unfoldable pub command_escape_value : (Bytes → ℕ) → Bytes → Option Bytes
unfolding escape_chars
command_escape_value charlen value = quoted (escape_chars charlen (length value) value)
