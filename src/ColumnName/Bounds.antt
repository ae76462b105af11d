-- ===== src/ColumnName/Bounds.antt =====
-- The encoding of a column's name ends, and its result fits into its buffer.
use pgroonga.Base.{
  ℕ, zero, suc, ◌+◌, ◌<◌, ◌≡◌, refl, Bool, true, false, Bool-cases, inl, inr, not, ◌&&◌, Bytes, [],
  ◌∷◌, length, length-append, drop, leb, ◌==◌, if◌then◌else◌, Option, none, some, arith,
}
use pgroonga.ColumnName.{
  Encoded, encoded, invalid_character, too_large, not_supported, starved, after,
  is_usable_character_ascii, encode_character, encode_one, encode_utf8, encode_single, with_suffix,
  encode_with_size,
}

module _ (charlen : Bytes → Option ℕ) (to_unicode : Bytes → ℕ) (max_size : ℕ) where
  -- What is written behind `size` bytes leaves room for `more` bytes and the final zero, and the loop has ended.
  abbrev pub Fits : ℕ → ℕ → Encoded → Type 0
  Fits more size (encoded name) = size + length name + 1 < max_size + more
  Fits more size starved = ⊥
  Fits more size _ = Unit

  after-Fits :
      (bs : Bytes) (size size' : ℕ) (r : Encoded)
      → size + length bs ≡ size'
      → Fits 0 size' r
      → Fits 0 size (after bs r)
  after-Fits bs size size' (encoded name) e h = omega (arith, length-append bs name)
  after-Fits bs size size' (invalid_character at) e h = h
  after-Fits bs size size' too_large e h = h
  after-Fits bs size size' not_supported e h = h
  after-Fits bs size size' starved e h = h

  encode_one-Fits :
      (at_start : Bool) (size len c : ℕ) (name : Bytes) (rest : ℕ → Encoded)
      → ((size' : ℕ) → size < size' → size' + 1 < max_size → Fits 0 size' (rest size'))
      → Fits 0 size (encode_one charlen to_unicode max_size at_start size len c name rest)
  unfolding encode_one encode_character
  encode_one-Fits at_start size len c name rest h =
      elim (Bool-cases
        ((len == 1) && (is_usable_character_ascii c && not ((c == b'_') && at_start)))) [
          | inl plain ↦ elim (Bool-cases (leb max_size (size + len + 1))) [
            | inl large ↦ rw (plain, large) tt
            | inr small ↦
                rw (plain, small)
                  (after-Fits (c ∷ []) size (size + 1) (rest (size + 1)) refl
                    (h (size + 1) (omega arith) (one_more size len (is_one len _ plain) small)))
          ]
          | inr other ↦ elim (Bool-cases (leb max_size (size + 6 + 1))) [
            | inl large ↦ rw (other, large) tt
            | inr small ↦
                rw (other, small)
                  (after-Fits (encode_character (to_unicode name)) size (size + 6) (rest (size + 6))
                    refl (h (size + 6) (omega arith) (below (size + 6 + 1) small)))
          ]
        ]
    where
      is_one : (len : ℕ) (b : Bool) → ((len == 1) && b) ≡ true → len ≡ 1
      is_one len b h = ground arith

      below : (n : ℕ) → leb max_size n ≡ false → n < max_size
      below n h = ground arith

      one_more :
          (size len : ℕ) → len ≡ 1 → leb max_size (size + len + 1) ≡ false → size + 1 + 1 < max_size
      one_more size len e h = ground arith

  encode_utf8-Fits :
      (fuel : ℕ) (at_start : Bool) (size : ℕ) (name : Bytes)
      → max_size < fuel + size
      → size + 1 < max_size
      → Fits 0 size (encode_utf8 charlen to_unicode max_size fuel at_start size name)
  unfolding encode_utf8
  encode_utf8-Fits zero at_start size name enough small = absurd (omega arith)
  encode_utf8-Fits (suc fuel) at_start size [] enough small = omega (arith, small)
  encode_utf8-Fits (suc fuel) at_start size (c ∷ name) enough small =
      by_length (charlen (c ∷ name)) (λ len size' more small'.
        encode_utf8-Fits fuel (at_start && (len == 0)) size' (drop len (c ∷ name))
          (omega (arith, enough, more)) small')
    where
      by_length :
          (l : Option ℕ)
          → ((len size' : ℕ)
              → size < size'
              → size' + 1 < max_size
              → Fits 0 size' (
                  encode_utf8 charlen to_unicode max_size fuel
                    (at_start && (len == 0))
                    size'
                    (drop len (c ∷ name))))
          → Fits 0 size (elim l [
            | none ↦ invalid_character (c ∷ name)
            | some len ↦
                encode_one charlen to_unicode max_size at_start size len c (c ∷ name) (λ size'.
                  encode_utf8 charlen to_unicode max_size fuel
                    (at_start && (len == 0))
                    size'
                    (drop len (c ∷ name)))
          ])
      by_length none h = tt
      by_length (some len) h = encode_one-Fits at_start size len c (c ∷ name) _ (h len)

  encode_single-Fits :
      (at_start : Bool) (size : ℕ) (name : Bytes)
      → size + 1 < max_size
      → Fits 0 size (encode_single charlen to_unicode max_size at_start size name)
  unfolding encode_single
  encode_single-Fits at_start size [] small = omega (arith, small)
  encode_single-Fits at_start size (c ∷ name) small =
      by_length (charlen (c ∷ name)) (λ size' small'. encode_single-Fits false size' name small')
    where
      by_test :
          (b : Bool) (r : Encoded) → Fits 0 size r → Fits 0 size (if b then r else not_supported)
      by_test true r h = h
      by_test false r h = tt

      by_length :
          (l : Option ℕ)
          → ((size' : ℕ)
              → size' + 1 < max_size
              → Fits 0 size' (encode_single charlen to_unicode max_size false size' name))
          → Fits 0 size (elim l [
            | none ↦ not_supported
            | some len ↦
                let rest =
                  encode_one charlen to_unicode max_size at_start size len c
                    (c ∷ name)
                    (λ size'. encode_single charlen to_unicode max_size false size' name) in
                if len == 1 then rest else not_supported
          ])
      by_length none h = tt
      by_length (some len) h =
          by_test (len == 1) _
            (encode_one-Fits at_start size len c (c ∷ name) _ (λ size' more small'. h size' small'))

  with_suffix-Fits :
      (suffix : Bytes) (r : Encoded)
      → Fits 0 0 r
      → Fits (length suffix) 0 (with_suffix charlen to_unicode max_size suffix r)
  with_suffix-Fits suffix (encoded name) h = omega (arith, h, length-append name suffix)
  with_suffix-Fits suffix (invalid_character at) h = h
  with_suffix-Fits suffix too_large h = h
  with_suffix-Fits suffix not_supported h = h
  with_suffix-Fits suffix starved h = h

  -- For every name and every length that characters are said to have, 0 and too large ones included, the
  -- encoding ends with a name or an error. A name with its final zero is smaller than the maximum where
  -- there is no suffix; with one it is smaller than the maximum and the suffix together, which can be more
  -- than the maximum. The maximum is at least 2.
  pub encode_with_size-Fits :
      (is_utf8 : Bool) (name suffix : Bytes)
      → 1 < max_size
      → Fits (length suffix) 0 (encode_with_size charlen to_unicode max_size is_utf8 name suffix)
  unfolding encode_with_size
  encode_with_size-Fits true name suffix pos =
      with_suffix-Fits suffix _
        (encode_utf8-Fits (suc max_size) true 0 name (omega arith) (omega (arith, pos)))
  encode_with_size-Fits false name suffix pos =
      with_suffix-Fits suffix _ (encode_single-Fits true 0 name (omega (arith, pos)))
