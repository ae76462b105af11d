-- ===== src/ColumnName/Plain.antt =====
-- An encoded name of a column is none of Groonga's pseudo columns, whose names start with `_`, and none of the keys with
-- which a record of the generic WAL may start.
use pgroonga.Base.{
  ℕ, zero, suc, ◌+◌, ◌≡◌, refl, subst, Bool, true, false, not, ◌&&◌, Bytes, [], ◌∷◌, drop, leb,
  ◌==◌, if◌then◌else◌, Option, none, some,
}
use pgroonga.Wal.Decode.Inserted.{IsPlain}
use pgroonga.ColumnName.{
  Encoded, encoded, invalid_character, too_large, not_supported, after, is_usable_character_ascii,
  encode_character, encode_one, encode_utf8, encode_single, encode_with_size, column_name_encode,
}
use pgroonga.ColumnName.RoundTrip.{after-encoded, without_suffix}

module _ (charlen : Bytes → Option ℕ) (to_unicode : Bytes → ℕ) where
  module _ (max_size : ℕ) where
    -- The first byte of what is written at the start of a name is no `_`.
    abbrev NoUnderscore : Bytes → Type 0
    NoUnderscore [] = Unit
    NoUnderscore (c ∷ e) = (c == b'_') ≡ false

    encode_one-NoUnderscore :
        (len c : ℕ) (name : Bytes) (rest : ℕ → Encoded) (e : Bytes)
        → encode_one charlen to_unicode max_size true 0 len c name rest ≡ encoded e
        → NoUnderscore e
    unfolding encode_one encode_character
    encode_one-NoUnderscore len c name rest e =
        by_kind ((len == 1) && (is_usable_character_ascii c && not ((c == b'_') && true))) refl
          (leb max_size (0 + len + 1)) (leb max_size (0 + 6 + 1))
      where
        no_underscore : (x a b : Bool) → (x && (a && not (b && true))) ≡ true → b ≡ false
        no_underscore true true true h = cc
        no_underscore true true false h = refl
        no_underscore true false b h = cc
        no_underscore false a b h = cc

        by_kind :
            (plain : Bool)
            → ((len == 1) && (is_usable_character_ascii c && not ((c == b'_') && true))) ≡ plain
            → (large1 large6 : Bool)
            → (if plain
                then (if large1 then too_large else after (c ∷ []) (rest (0 + 1)))
                else if large6
                then too_large
                else after (encode_character (to_unicode name)) (rest (0 + 6)))
              ≡ encoded e
            → NoUnderscore e
        by_kind true p true large6 h = cc
        by_kind true p false large6 h =
            let (e', q, r) = after-encoded (c ∷ []) (rest (0 + 1)) e h in
            rw r (no_underscore (len == 1) (is_usable_character_ascii c) (c == b'_') p)
        by_kind false p large1 true h = cc
        by_kind false p large1 false h =
            let (e', q, r) =
              after-encoded (encode_character (to_unicode name)) (rest (0 + 6)) e h in
            rw r refl

    NoUnderscore-IsPlain : (e : Bytes) → NoUnderscore e → IsPlain e
    NoUnderscore-IsPlain [] h = (refl, refl, refl)
    NoUnderscore-IsPlain (c ∷ e) h = rw h (refl, refl, refl)

    encode_utf8-NoUnderscore :
        (fuel : ℕ) (name e : Bytes)
        → encode_utf8 charlen to_unicode max_size fuel true 0 name ≡ encoded e
        → NoUnderscore e
    unfolding encode_utf8
    encode_utf8-NoUnderscore zero name e h = cc
    encode_utf8-NoUnderscore (suc fuel) [] e h = subst NoUnderscore (the_same e h) tt
      where
        the_same : (e : Bytes) → encoded [] ≡ encoded e → [] ≡ e
        the_same e h = cc
    encode_utf8-NoUnderscore (suc fuel) (c ∷ name) e h = by_length (charlen (c ∷ name)) h
      where
        by_length :
            (l : Option ℕ)
            → (elim l [
              | none ↦ invalid_character (c ∷ name)
              | some len ↦ encode_one charlen to_unicode max_size true 0 len c (c ∷ name) (λ size'.
                  encode_utf8 charlen to_unicode max_size fuel
                    (true && (len == 0))
                    size'
                    (drop len (c ∷ name)))
            ])
              ≡ encoded e
            → NoUnderscore e
        by_length none h = cc
        by_length (some len) h =
            encode_one-NoUnderscore len c (c ∷ name)
              (λ size'.
                encode_utf8 charlen to_unicode max_size fuel (true && (len == 0)) size'
                  (drop len (c ∷ name)))
              e h

    encode_single-NoUnderscore :
        (name e : Bytes)
        → encode_single charlen to_unicode max_size true 0 name ≡ encoded e
        → NoUnderscore e
    unfolding encode_single
    encode_single-NoUnderscore [] e h = subst NoUnderscore (the_same e h) tt
      where
        the_same : (e : Bytes) → encoded [] ≡ encoded e → [] ≡ e
        the_same e h = cc
    encode_single-NoUnderscore (c ∷ name) e h = by_length (charlen (c ∷ name)) h
      where
        by_test :
            (b : Bool) (r : Encoded)
            → (r ≡ encoded e → NoUnderscore e)
            → (if b then r else not_supported) ≡ encoded e
            → NoUnderscore e
        by_test true r k h = k h
        by_test false r k h = cc

        by_length :
            (l : Option ℕ)
            → (elim l [
              | none ↦ not_supported
              | some len ↦
                  let rest =
                    encode_one charlen to_unicode max_size true 0 len c
                      (c ∷ name)
                      (λ size'. encode_single charlen to_unicode max_size false size' name) in
                  if len == 1 then rest else not_supported
            ])
              ≡ encoded e
            → NoUnderscore e
        by_length none h = cc
        by_length (some len) h =
            let rest : ℕ → Encoded =
              λ size'. encode_single charlen to_unicode max_size false size' name in
            by_test (len == 1) (encode_one charlen to_unicode max_size true 0 len c (c ∷ name) rest)
              (encode_one-NoUnderscore len c (c ∷ name) rest e) h

    -- In every encoding and for every name, an encoded name is neither _action nor _table nor _key, so that
    -- the applier of the generic WAL takes the column for a column.
    pub column_name_encode-IsPlain :
        (is_utf8 : Bool) (name e : Bytes)
        → column_name_encode charlen to_unicode max_size is_utf8 name ≡ encoded e
        → IsPlain e
    unfolding column_name_encode encode_with_size
    column_name_encode-IsPlain true name e h = NoUnderscore-IsPlain e (
        encode_utf8-NoUnderscore (suc max_size) name e
          (without_suffix charlen to_unicode max_size _ e h))
    column_name_encode-IsPlain false name e h =
        NoUnderscore-IsPlain e
          (encode_single-NoUnderscore name e (without_suffix charlen to_unicode max_size _ e h))
