-- ===== src/Tests/ColumnName.antt =====
-- Names of columns in ASCII and with a character of three bytes.
use pgroonga.Base.{
  ℕ, ◌-◌, ◌+◌, ◌*◌, ◌<◌, ◌≡◌, refl, Bytes, codes, List, [], ◌∷◌, ltb, if◌then◌else◌, Option, none,
  some, true, arith,
}
use pgroonga.ColumnName.{
  encoded, encode_character, encode_with_size, column_name_encode, code_column_name_encode,
}
use pgroonga.ColumnName.Bounds.{encode_with_size-Fits}
use pgroonga.ColumnName.RoundTrip.{
  decode, Spells, no_characters, character, decode-column_name_encode,
}
use pgroonga.ColumnName.Plain.{column_name_encode-IsPlain}
use pgroonga.Wal.Decode.Inserted.{IsPlain}

-- Characters of one byte, and of three bytes.
abbrev charlen : Bytes → Option ℕ
charlen [] = none
charlen (b ∷ bs) = if ltb b 128 then some 1 else some 3

abbrev to_unicode : Bytes → ℕ
to_unicode (a ∷ b ∷ c ∷ rest) =
    if ltb a 128 then a else (a - 224) * 4096 + (b - 128) * 64 + (c - 128)
to_unicode (a ∷ rest) = a
to_unicode [] = 0

-- An a, the letter of U+3042, and a blank.
abbrev a_and_kana : Bytes
a_and_kana = 97 ∷ 227 ∷ 129 ∷ 130 ∷ 32 ∷ []

kana_encoded :
    column_name_encode charlen to_unicode 4096 true a_and_kana ≡ encoded (codes "a@03042@00020")
unfolding column_name_encode
kana_encoded = refl

-- A name may have the suffix of another column, and a pair of large code points one encoding.
same_code_name :
    code_column_name_encode charlen to_unicode 4096 true (codes "a")
    ≡ column_name_encode charlen to_unicode 4096 true (codes "a_code")
unfolding code_column_name_encode column_name_encode
same_code_name = refl

same_large_character : encode_character 1114096 ≡ encode_character 1114111
unfolding encode_character
same_large_character = refl

a_and_kana-Spells : Spells charlen to_unicode a_and_kana (97 ∷ 12354 ∷ 32 ∷ [])
a_and_kana-Spells =
    character 97 [] (227 ∷ 129 ∷ 130 ∷ 32 ∷ []) 97 (12354 ∷ 32 ∷ []) refl refl (λ h. refl)
      (omega arith)
      (character 227 (129 ∷ 130 ∷ []) (32 ∷ []) 12354 (32 ∷ []) refl refl (λ h. cc) (omega arith)
        (character 32 [] [] 32 [] refl refl (λ h. refl) (omega arith) no_characters))

decode-column_name_encode_example :
    (decode 9 (codes "a@03042@00020") ≡ 97 ∷ 12354 ∷ 32 ∷ [])
    × (◌≡◌ {A = List ℕ} (97 ∷ 12354 ∷ 32 ∷ []) (97 ∷ 12354 ∷ 32 ∷ []))
unfolding column_name_encode
decode-column_name_encode_example =
    decode-column_name_encode charlen to_unicode 4096 9 a_and_kana a_and_kana (97 ∷ 12354 ∷ 32 ∷ [])
      (97 ∷ 12354 ∷ 32 ∷ []) (codes "a@03042@00020") a_and_kana-Spells a_and_kana-Spells
      (omega arith) refl refl

column_name_encode-IsPlain_example : IsPlain (codes "@0005fkey")
unfolding column_name_encode
column_name_encode-IsPlain_example =
    column_name_encode-IsPlain charlen to_unicode 4096 true (codes "_key") (codes "@0005fkey") refl

-- With a suffix, a name of six bytes is larger than a maximum of eight.
encode_with_size-Fits_example : 0 + 11 + 1 < 8 + 5
unfolding encode_with_size
encode_with_size-Fits_example =
    encode_with_size-Fits charlen to_unicode 8 true (codes "abcdef") (codes "_code") (omega arith)
