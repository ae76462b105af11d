-- ===== src/ColumnName/RoundTrip.antt =====
-- An encoded name of a column tells the characters of the name: a reader of it, which the sources do not have
-- (`PGrnColumnNameDecode` returns nothing yet), gives their code points back.
use pgroonga.Base.{
  ℕ, zero, suc, ◌+◌, ◌-◌, ◌*◌, ◌/◌, ◌%◌, ◌^◌, ◌<◌, ◌≤◌, ◌≡◌, ◌⊎◌, refl, sym, ap, ◌∙◌, subst, Bool,
  true, false, inl, inr, not, ◌&&◌, Bytes, List, [], ◌∷◌, ◌++◌, length, drop, drop-append,
  append-nil, leb, ltb, lt→ltb, ◌==◌, if◌then◌else◌, Option, none, some, arith,
}
use pgroonga.ColumnName.{
  Encoded, encoded, invalid_character, too_large, not_supported, starved, after,
  is_usable_character_ascii, hex_digit, five_first, encode_character, encode_one, encode_utf8,
  with_suffix, encode_with_size, column_name_encode,
}

abbrev hex_value : ℕ → ℕ
hex_value d = if ltb d 97 then d - 48 else d - 87

-- The reader; the fuel is the number of characters at least.
unfoldable pub decode : ℕ → Bytes → List ℕ
decode zero name = []
decode (suc fuel) [] = []
decode (suc fuel) (c ∷ a1 ∷ a2 ∷ a3 ∷ a4 ∷ a5 ∷ name) =
    let rest = decode fuel (if c == b'@' then name else a1 ∷ a2 ∷ a3 ∷ a4 ∷ a5 ∷ name) in
    (if c == b'@'
      then 65536 * hex_value a1
        + 4096 * hex_value a2
        + 256 * hex_value a3
        + 16 * hex_value a4
        + hex_value a5
      else c)
    ∷ rest
decode (suc fuel) (c ∷ name) = c ∷ decode fuel name

hex_value-hex_digit : (d : ℕ) → d < 16 → hex_value (hex_digit d) ≡ d
unfolding hex_digit
hex_value-hex_digit d lt = ground arith

five_digits :
    (n : ℕ)
    → n < 16 ^ 5
    → 65536 * ((n / 65536) % 16)
        + 4096 * ((n / 4096) % 16)
        + 256 * ((n / 256) % 16)
        + 16 * ((n / 16) % 16)
        + n % 16
      ≡ n
five_digits n lt = omega arith

decode-encode_character :
    (fuel u : ℕ) (name : Bytes)
    → u < 16 ^ 5
    → decode (suc fuel) (encode_character u ++ name) ≡ u ∷ decode fuel name
unfolding decode encode_character five_first
decode-encode_character fuel u name lt = rw (lt→ltb u (16 ^ 5) lt) (
    rw (digit (u / 65536), digit (u / 4096), digit (u / 256), digit (u / 16), digit u)
      (ap (λ n. n ∷ decode fuel name) (five_digits u lt)))
  where
    digit : (n : ℕ) → hex_value (hex_digit (n % 16)) ≡ n % 16
    digit n = hex_value-hex_digit (n % 16) (omega arith)

-- A usable character is read as it is.
decode-usable :
    (fuel c : ℕ) (name : Bytes)
    → is_usable_character_ascii c ≡ true
    → decode (suc fuel) (c ∷ name) ≡ c ∷ decode fuel name
unfolding decode is_usable_character_ascii
decode-usable fuel c [] h = refl
decode-usable fuel c (a1 ∷ []) h = refl
decode-usable fuel c (a1 ∷ a2 ∷ []) h = refl
decode-usable fuel c (a1 ∷ a2 ∷ a3 ∷ []) h = refl
decode-usable fuel c (a1 ∷ a2 ∷ a3 ∷ a4 ∷ []) h = refl
decode-usable fuel c (a1 ∷ a2 ∷ a3 ∷ a4 ∷ a5 ∷ name) h = rw (no_mark c h) refl
  where
    no_mark : (c : ℕ) → is_usable_character_ascii c ≡ true → (c == b'@') ≡ false
    no_mark c h = ground arith

pub after-encoded :
    (bs : Bytes) (r : Encoded) (e : Bytes)
    → after bs r ≡ encoded e
    → (e' : Bytes) × (r ≡ encoded e') × (e ≡ bs ++ e')
after-encoded bs (encoded e') e h = (e', refl, cc)
after-encoded bs (invalid_character at) e h = cc
after-encoded bs too_large e h = cc
after-encoded bs not_supported e h = cc
after-encoded bs starved e h = cc

decode-nil : (fuel : ℕ) → decode fuel [] ≡ []
unfolding decode
decode-nil zero = refl
decode-nil (suc fuel) = refl

module _ (charlen : Bytes → Option ℕ) (to_unicode : Bytes → ℕ) where
  -- The bytes are characters with these code points, each below 16 ^ 5; a character of one byte is its code
  -- point.
  pub data Spells : Bytes → List ℕ → Type 0 where
    no_characters : Spells [] []
    character :
        (b : ℕ) (bs rest : Bytes) (u : ℕ) (us : List ℕ)
        → charlen (b ∷ (bs ++ rest)) ≡ some (suc (length bs))
        → to_unicode (b ∷ (bs ++ rest)) ≡ u
        → (bs ≡ [] → b ≡ u)
        → u < 16 ^ 5
        → Spells rest us
        → Spells (b ∷ (bs ++ rest)) (u ∷ us)

  module _ (max_size : ℕ) where
    abbrev OneEncoded : ℕ → ℕ → Bytes → (ℕ → Encoded) → Bytes → Type 0
    OneEncoded len c name rest e =
        (size' : ℕ) × (e' : Bytes) × (rest size' ≡ encoded e')
        × (((len ≡ 1) × (is_usable_character_ascii c ≡ true) × (e ≡ c ∷ e'))
            ⊎ (e ≡ encode_character (to_unicode name) ++ e'))

    encode_one-encoded :
        (at_start : Bool) (size len c : ℕ) (name : Bytes) (rest : ℕ → Encoded) (e : Bytes)
        → encode_one charlen to_unicode max_size at_start size len c name rest ≡ encoded e
        → OneEncoded len c name rest e
    unfolding encode_one
    encode_one-encoded at_start size len c name rest e =
        by_kind ((len == 1) && (is_usable_character_ascii c && not ((c == b'_') && at_start))) refl
          (leb max_size (size + len + 1)) (leb max_size (size + 6 + 1))
      where
        usable : (len : ℕ) (a b : Bool) → ((len == 1) && (a && b)) ≡ true → (len ≡ 1) × (a ≡ true)
        usable len a b h = (ground arith, ground arith)

        by_kind :
            (plain : Bool)
            → ((len == 1) && (is_usable_character_ascii c && not ((c == b'_') && at_start))) ≡ plain
            → (large1 large6 : Bool)
            → (if plain
                then (if large1 then too_large else after (c ∷ []) (rest (size + 1)))
                else if large6
                then too_large
                else after (encode_character (to_unicode name)) (rest (size + 6)))
              ≡ encoded e
            → OneEncoded len c name rest e
        by_kind true p true large6 h = cc
        by_kind true p false large6 h =
            let (e', q, r) = after-encoded (c ∷ []) (rest (size + 1)) e h in
            let u = usable len _ _ p in (size + 1, e', q, inl (u.0, u.1, r))
        by_kind false p large1 true h = cc
        by_kind false p large1 false h =
            let (e', q, r) =
              after-encoded (encode_character (to_unicode name)) (rest (size + 6)) e h in
            (size + 6, e', q, inr r)

    -- An encoded name is read back as the code points of the name.
    decode-encode_utf8 :
        (fuel more : ℕ) (at_start : Bool) (size : ℕ) (name : Bytes) (us : List ℕ) (e : Bytes)
        → Spells name us
        → length us ≤ more
        → encode_utf8 charlen to_unicode max_size fuel at_start size name ≡ encoded e
        → decode more e ≡ us
    unfolding encode_utf8
    decode-encode_utf8 zero more at_start size name us e s enough h = cc
    decode-encode_utf8 (suc fuel) more at_start size _ _ e no_characters enough h =
        subst (λ x. decode more x ≡ []) empty (decode-nil more)
      where
        empty : [] ≡ e
        empty = cc
    decode-encode_utf8 (suc fuel) zero at_start size _ _ e
          (character b bs rest u us len_is code_is same small s) enough h =
        absurd (omega arith)
    decode-encode_utf8 (suc fuel) (suc more) at_start size _ _ e
          (character b bs rest u us len_is code_is same small s) enough h =
        let name = b ∷ (bs ++ rest) in
        let next : ℕ → ℕ → Encoded = λ len size'.
          encode_utf8 charlen to_unicode max_size fuel (at_start && (len == 0)) size'
            (drop len name) in
        let one : Option ℕ → Encoded = λ l. elim l [
          | none ↦ invalid_character name
          | some len ↦ encode_one charlen to_unicode max_size at_start size len b name (next len)
        ] in
        let (size', e', q, kind) =
          encode_one-encoded at_start size (suc (length bs)) b name (next (suc (length bs))) e
            (sym (ap one len_is) ∙ h) in
        let q' =
          subst
            (λ r.
              encode_utf8 charlen to_unicode max_size fuel (at_start && (suc (length bs) == 0))
                size' r
              ≡ encoded e')
            (drop-append bs rest) q in
        let ih =
          decode-encode_utf8 fuel more (at_start && (suc (length bs) == 0)) size' rest us e' s
            (omega (arith, enough)) q' in
        elim kind [
          | inl (is_one, usable, written) ↦
              ap (decode (suc more)) written
              ∙ decode-usable more b e' usable
              ∙ ap (λ c. c ∷ decode more e') (same (no_more bs is_one))
              ∙ ap (λ t. u ∷ t) ih
          | inr written ↦
              ap (decode (suc more)) written
              ∙ ap (λ n. decode (suc more) (encode_character n ++ e')) code_is
              ∙ decode-encode_character more u e' small
              ∙ ap (λ t. u ∷ t) ih
        ]
      where
        no_more : (bs : Bytes) → suc (length bs) ≡ 1 → bs ≡ []
        no_more [] h = refl
        no_more (b ∷ bs) h = absurd (omega (arith, h))

    pub without_suffix :
        (r : Encoded) (e : Bytes)
        → with_suffix charlen to_unicode max_size [] r ≡ encoded e
        → r ≡ encoded e
    without_suffix (encoded name) e h = ap encoded (sym (append-nil name)) ∙ h
    without_suffix (invalid_character at) e h = cc
    without_suffix too_large e h = cc
    without_suffix not_supported e h = cc
    without_suffix starved e h = cc

    decode_all :
        (fuel : ℕ) (name : Bytes) (us : List ℕ) (e : Bytes)
        → Spells name us
        → length us ≤ fuel
        → column_name_encode charlen to_unicode max_size true name ≡ encoded e
        → decode fuel e ≡ us
    unfolding column_name_encode encode_with_size
    decode_all fuel name us e s enough h =
        decode-encode_utf8 (suc max_size) fuel true 0 name us e s enough (without_suffix _ e h)

    -- The encoded name of a column, in UTF-8, is read back as the code points of the name, whatever fuel of at least
    -- their number the reader has, and two names with one encoded name have the same code points. All characters are
    -- below 16 ^ 5, and those of one byte are their code points.
    pub decode-column_name_encode :
        (fuel : ℕ) (name name' : Bytes) (us us' : List ℕ) (e : Bytes)
        → Spells name us
        → Spells name' us'
        → length us ≤ fuel
        → column_name_encode charlen to_unicode max_size true name ≡ encoded e
        → column_name_encode charlen to_unicode max_size true name' ≡ encoded e
        → (decode fuel e ≡ us) × (us ≡ us')
    decode-column_name_encode fuel name name' us us' e s s' enough h h' = (
      decode_all fuel name us e s enough h,
      sym (decode_all (length us + length us') name us e s (omega arith) h)
          ∙ decode_all (length us + length us') name' us' e s' (omega arith) h',
    )
