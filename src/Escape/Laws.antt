-- ===== src/Escape/Laws.antt =====
-- The quoted form of a value is read back as the value.
use pgroonga.Base.{
  ℕ, zero, suc, ◌≤◌, ◌≡◌, ◌≢◌, refl, ap, ◌∙◌, Bytes, List, All, [], ◌∷◌, ◌++◌, length,
  length-append, take-append, drop-append, append_assoc, ◌==◌, if◌then◌else◌, Option, none, some,
  ◌⊎◌, inl, inr, arith, not-suc-le-zero, Bool-cases, ==_iff, false,
}
use pgroonga.Escape.{escape_one, escape_char, escape_chars, quoted, command_escape_value}

abbrev pub joined : List Bytes → Bytes
joined [] = []
joined (c ∷ cs) = c ++ joined cs

abbrev pub add : ℕ → Option (Bytes × Bytes) → Option (Bytes × Bytes)
add b none = none
add b (some (value, rest)) = some (b ∷ value, rest)

-- A reader of quoted text, behind the quote that opens it: the text up to the quote that closes it,
-- and what follows. A backslash keeps the next byte as it is, but `\n` is a newline.
unfoldable pub unquote : Bytes → Option (Bytes × Bytes)
unquote [] = none
unquote (b ∷ []) = if b == 34 then some ([], []) else none
unquote (b ∷ c ∷ rest) =
    let plain = unquote (c ∷ rest) in
    let behind = unquote rest in
    if b == 34
    then some ([], c ∷ rest)
    else if b == 92
    then add (if c == 110 then 10 else c) behind
    else add b plain

-- Neither a quote nor a backslash.
abbrev pub IsPlain : ℕ → Type 0
IsPlain b = (b ≢ 34) × (b ≢ 92)

-- Characters in a text: `charlen` finds each, and those of several bytes hold neither a quote nor a backslash.
abbrev pub IsText : (Bytes → ℕ) → List Bytes → Type 0
IsText charlen [] = Unit
IsText charlen (c ∷ cs) =
    (charlen (c ++ joined cs) ≡ length c)
    × (1 ≤ length c)
    × ((length c ≡ 1) ⊎ All IsPlain c)
    × IsText charlen cs

unquote_plain : (b c : ℕ) (u : Bytes) → IsPlain b → unquote (b ∷ c ∷ u) ≡ add b (unquote (c ∷ u))
unfolding unquote
unquote_plain b c u (q, e) = ground arith

unquote-escape_one :
    (b c : ℕ) (u : Bytes) → unquote (escape_one b ++ c ∷ u) ≡ add b (unquote (c ∷ u))
unfolding unquote escape_one
unquote-escape_one b c u = elim (Bool-cases (b == 92)) [
  | inl e ↦ rw ((==_iff b 92).0 e) refl
  | inr n ↦ rw n (elim (Bool-cases (b == 34)) [
    | inl e ↦ rw ((==_iff b 34).0 e) refl
    | inr m ↦ rw m (elim (Bool-cases (b == 10)) [
      | inl e ↦ rw ((==_iff b 10).0 e) refl
      | inr l ↦ rw l (unquote_plain b c u (apart b 34 m, apart b 92 n))
    ])
  ])
]
  where
    apart : (a k : ℕ) → (a == k) ≡ false → a ≢ k
    apart a k h = ground arith

-- Plain bytes are read as they are.
unquote_all_plain :
    (bs u : Bytes) (value rest : Bytes)
    → All IsPlain bs
    → unquote u ≡ some (value, rest)
    → unquote (bs ++ u) ≡ some (bs ++ value, rest)
unfolding unquote
unquote_all_plain [] u value rest all e = e
unquote_all_plain (b ∷ bs) u value rest (plain, all) e =
    from (bs ++ u) (unquote_all_plain bs u value rest all e)
  where
    from :
        (v : Bytes)
        → unquote v ≡ some (bs ++ value, rest)
        → unquote (b ∷ v) ≡ some (b ∷ bs ++ value, rest)
    from [] h = cc
    from (c ∷ v) h = unquote_plain b c v plain ∙ ap (add b) h

-- A character that was written is read as its bytes.
unquote-escape_char :
    (b : ℕ) (c : Bytes) (more u value rest : Bytes)
    → (length (b ∷ c) ≡ 1) ⊎ All IsPlain (b ∷ c)
    → unquote u ≡ some (value, rest)
    → unquote (escape_char (length (b ∷ c)) b (c ++ more) ++ u) ≡ some ((b ∷ c) ++ value, rest)
unfolding escape_char unquote
unquote-escape_char b [] more [] value rest one e = cc
unquote-escape_char b [] more (x ∷ u) value rest one e = unquote-escape_one b x u ∙ ap (add b) e
unquote-escape_char b (x ∷ c) more u value rest (inl one) e = absurd (too_long (length c) one)
  where
    too_long : (n : ℕ) → suc (suc n) ≢ 1
    too_long n = omega arith
unquote-escape_char b (x ∷ c) more u value rest (inr all) e =
    rw (not_one (length c), take-append c more) (unquote_all_plain (b ∷ x ∷ c) u value rest all e)
  where
    not_one : (n : ℕ) → (suc (suc n) == 1) ≡ false
    not_one n = ground arith

nonzero : (n : ℕ) → (suc n == 0) ≡ false
nonzero n = ground arith

escape_chars_step :
    (charlen : Bytes → ℕ) (fuel b : ℕ) (c rest t : Bytes)
    → charlen (b ∷ c ++ rest) ≡ length (b ∷ c)
    → escape_chars charlen fuel rest ≡ some t
    → escape_chars charlen (suc fuel) (b ∷ c ++ rest)
      ≡ some (escape_char (length (b ∷ c)) b (c ++ rest) ++ t)
unfolding escape_chars
escape_chars_step charlen fuel b c rest t n e =
    rw (n, drop-append c rest, e, nonzero (length c)) refl

escape_chars-unquote :
    (charlen : Bytes → ℕ) (chars : List Bytes) (fuel : ℕ)
    → IsText charlen chars
    → length (joined chars) ≤ fuel
    → (t : Bytes) × (escape_chars charlen fuel (joined chars) ≡ some t)
      × ((after : Bytes) → unquote (t ++ 34 ∷ after) ≡ some (joined chars, after))
unfolding escape_chars unquote
escape_chars-unquote charlen [] fuel text le = ([], refl, λ after. closed after)
  where
    closed : (after : Bytes) → unquote (34 ∷ after) ≡ some ([], after)
    closed [] = refl
    closed (x ∷ after) = refl
escape_chars-unquote charlen ([] ∷ cs) fuel (n, some_bytes, one, text) le =
    absurd (not-suc-le-zero some_bytes)
escape_chars-unquote charlen ((b ∷ c) ∷ cs) zero (n, some_bytes, one, text) le =
    absurd (not-suc-le-zero le)
escape_chars-unquote charlen ((b ∷ c) ∷ cs) (suc fuel) (n, some_bytes, one, text) le =
    let (t, e, k) =
      escape_chars-unquote charlen cs fuel text (omega (arith, length-append c (joined cs))) in
    (
      escape_char (length (b ∷ c)) b (c ++ joined cs) ++ t,
      escape_chars_step charlen fuel b c (joined cs) t n e,
      λ after.
          ap unquote (append_assoc (escape_char (length (b ∷ c)) b (c ++ joined cs)) t (34 ∷ after))
          ∙ unquote-escape_char b c (joined cs) (t ++ 34 ∷ after) (joined cs) after one (k after),
    )

-- A text whose characters are found by `charlen`, none of several bytes with a quote or a backslash in it, has
-- a quoted form; it opens with a quote, and a reader of quoted text finds the text again behind it and
-- stops at its end, whatever follows.
pub command_escape_value-unquote :
    (charlen : Bytes → ℕ) (chars : List Bytes) (after : Bytes)
    → IsText charlen chars
    → (t : Bytes) × (command_escape_value charlen (joined chars) ≡ some (34 ∷ t))
      × (unquote (t ++ after) ≡ some (joined chars, after))
unfolding command_escape_value
command_escape_value-unquote charlen chars after text =
    let (t, e, k) = escape_chars-unquote charlen chars (length (joined chars)) text (omega arith) in
    (t ++ 34 ∷ [], ap quoted e, ap unquote (append_assoc t (34 ∷ []) after) ∙ k after)
