-- ===== src/ColumnName.antt =====
-- The names of columns in Groonga: src/pgrn-column-name.h. A character of ASCII letters, digits and `_` stands for
-- itself, but for a `_` at the start; any other is written by its code point. `charlen` stands for Groonga's
-- `grn_charlen`, with `none` for -1, `to_unicode` for PostgreSQL's `utf8_to_unicode`, and `max_size` for
-- `GRN_TABLE_MAX_KEY_SIZE`. The fuel is one more than `max_size`, since each round makes the name longer.
pub mod Bounds
pub mod RoundTrip
pub mod Plain
use pgroonga.Base.{
  ℕ, zero, suc, ◌+◌, ◌*◌, ◌/◌, ◌%◌, ◌^◌, Bool, true, false, not, ◌&&◌, ◌||◌, Bytes, codes, List, [],
  ◌∷◌, ◌++◌, length, drop, ltb, leb, ◌==◌, if◌then◌else◌, Option, none, some,
}

pub data Encoded : Type 0 where
  encoded : Bytes → Encoded
  invalid_character : Bytes → Encoded
  too_large : Encoded
  not_supported : Encoded
  starved : Encoded

-- What is written first.
abbrev pub after : Bytes → Encoded → Encoded
after bs (encoded rest) = encoded (bs ++ rest)
after bs (invalid_character at) = invalid_character at
after bs too_large = too_large
after bs not_supported = not_supported
after bs starved = starved

-- `PGrnColumnNameIsUsableCharacterASCII`
unfoldable pub is_usable_character_ascii : ℕ → Bool
is_usable_character_ascii c =
    (c == b'_')
    || ((leb b'0' c && leb c b'9') || ((leb b'A' c && leb c b'Z') || (leb b'a' c && leb c b'z')))

unfoldable pub hex_digit : ℕ → ℕ
hex_digit d = if ltb d 10 then 48 + d else 87 + d

-- The five first hexadecimal digits of a 32-bit number that is written with five at least.
unfoldable pub five_first : ℕ → ℕ
five_first n =
    if ltb n (16 ^ 5)
    then n
    else if ltb n (16 ^ 6)
    then n / 16
    else if ltb n (16 ^ 7)
    then n / 16 ^ 2
    else n / 16 ^ 3

-- `PGrnColumnNameEncodeCharacterUTF8`: "@%05x", cut off behind the sixth character.
unfoldable pub encode_character : ℕ → Bytes
unfolding hex_digit five_first
encode_character codepoint =
    let n = five_first codepoint in
    b'@'
    ∷ hex_digit ((n / 65536) % 16)
    ∷ hex_digit ((n / 4096) % 16)
    ∷ hex_digit ((n / 256) % 16)
    ∷ hex_digit ((n / 16) % 16)
    ∷ hex_digit (n % 16)
    ∷ []

module _ (charlen : Bytes → Option ℕ) (to_unicode : Bytes → ℕ) (max_size : ℕ) where
  -- One character of `size` bytes, whose first byte is `c`; `size` is what was written before, `rest` what is
  -- written behind a character, from the size that is then reached on.
  unfoldable pub encode_one : Bool → ℕ → ℕ → ℕ → Bytes → (ℕ → Encoded) → Encoded
  unfolding is_usable_character_ascii encode_character
  encode_one at_start size len c name rest =
      if (len == 1) && (is_usable_character_ascii c && not ((c == b'_') && at_start))
      then (if leb max_size (size + len + 1) then too_large else after (c ∷ []) (rest (size + 1)))
      else if leb max_size (size + 6 + 1)
      then too_large
      else after (encode_character (to_unicode name)) (rest (size + 6))

  -- The loop of `PGrnColumnNameEncodeUTF8WithSize`.
  unfoldable pub encode_utf8 : ℕ → Bool → ℕ → Bytes → Encoded
  unfolding encode_one
  encode_utf8 zero at_start size name = starved
  encode_utf8 (suc fuel) at_start size [] = encoded []
  encode_utf8 (suc fuel) at_start size (c ∷ name) = elim (charlen (c ∷ name)) [
    | none ↦ invalid_character (c ∷ name)
    | some len ↦
        encode_one at_start size len c (c ∷ name)
          (λ size'. encode_utf8 fuel (at_start && (len == 0)) size' (drop len (c ∷ name)))
  ]

  -- The loop of `PGrnColumnNameEncodeWithSize` for other encodings than UTF-8.
  unfoldable pub encode_single : Bool → ℕ → Bytes → Encoded
  unfolding encode_one
  encode_single at_start size [] = encoded []
  encode_single at_start size (c ∷ name) = elim (charlen (c ∷ name)) [
    | none ↦ not_supported
    | some len ↦
        let rest =
          encode_one at_start size len c (c ∷ name) (λ size'. encode_single false size' name) in
        if len == 1 then rest else not_supported
  ]

  -- The suffix is not counted by the checks of the size.
  abbrev pub with_suffix : Bytes → Encoded → Encoded
  with_suffix suffix (encoded name) = encoded (name ++ suffix)
  with_suffix suffix (invalid_character at) = invalid_character at
  with_suffix suffix too_large = too_large
  with_suffix suffix not_supported = not_supported
  with_suffix suffix starved = starved

  unfoldable pub encode_with_size : Bool → Bytes → Bytes → Encoded
  unfolding encode_utf8 encode_single
  encode_with_size is_utf8 name suffix =
      if is_utf8
      then with_suffix suffix (encode_utf8 (suc max_size) true 0 name)
      else with_suffix suffix (encode_single true 0 name)

  -- `PGrnColumnNameEncode`
  unfoldable pub column_name_encode : Bool → Bytes → Encoded
  unfolding encode_with_size
  column_name_encode is_utf8 name = encode_with_size is_utf8 name []

  -- `PGrnCodeColumnNameEncode`
  unfoldable pub code_column_name_encode : Bool → Bytes → Encoded
  unfolding encode_with_size
  code_column_name_encode is_utf8 name = encode_with_size is_utf8 name (codes "_code")
