-- ===== src/Wal/Decode/Packed.antt =====
-- What the writer packs of a value of each built-in type, and what the applier makes of it.

use pgroonga.Base.{
  ℕ, ◌+◌, ◌-◌, ◌*◌, ◌^◌, ◌<◌, ◌≤◌, ◌≡◌, refl, sym, ap, ◌∙◌, subst, Bool, true, false, not, Bytes,
  All, [], ◌∷◌, length, take, take-ge, from_le, to_le, ltb, ◌==◌, if◌then◌else◌, Bool-cases, inl,
  inr, none, some, arith,
}
use pgroonga.Wal.Msgpack.{
  Call, positive_integer, pack_boolean, pack_positive, pack_negative, pack_float, pack_double,
  pack_str, calls,
}
use pgroonga.Wal.Value.{BuiltIn, Groonga, write_layout}
use pgroonga.Wal.Generic.{pack_raw, pack_signed}
use pgroonga.Wal.Decode.{ok, Standby}
use pgroonga.Wal.Decode.Insert.{
  Element, Stored, integer, negative_bits, element_width, apply_element, apply_value,
}
use pgroonga.Wal.Decode.Values.{
  scalar, HasWidth, IsSince1970, signed_stored, stored_of, element_of, power, from_le-width,
  to_le-width, to_le-power,
}

signed_calls : (width n : ℕ) → calls (scalar (pack_signed width n)) ≡ pack_signed width n ∷ []
unfolding calls pack_signed
signed_calls width n = by_sign (ltb n (2 ^ (8 * width - 1)))
  where
    by_sign :
        (b : Bool)
        → calls (scalar (if b then pack_positive n else pack_negative (2 ^ (8 * width) - 1 - n)))
          ≡ (if b then pack_positive n else pack_negative (2 ^ (8 * width) - 1 - n)) ∷ []
    by_sign true = refl
    by_sign false = refl

-- The bits of the negative integer that the packer was given.
negative_again : (p n : ℕ) → n < p → p ≤ 2 ^ 64 → negative_bits (p - 1 - n) ≡ 2 ^ 64 - p + n
negative_again p n lt le = omega arith

module _ (g : Groonga) where
  -- The element of a signed integer of `width` bytes, where the domain is as wide: its own bytes.
  signed_element :
      (domain width : ℕ) (v : Bytes) (q : ℕ)
      → element_width (g.built_in domain) ≡ some width
      → 2 ^ (8 * width) ≡ power width
      → 2 ^ 64 ≡ power width + power width * q
      → length v ≡ width
      → All (λ b. b < 256) v
      → apply_element g domain (scalar (pack_signed width (from_le v))) ≡ ok (integer v)
  unfolding apply_element pack_signed
  signed_element domain width v q wide e1 e2 size all =
      elim (Bool-cases (ltb (from_le v) (2 ^ (8 * width - 1)))) [
        | inl lt ↦ rw (lt, wide) (ap (λ t. ok (integer t)) (to_le-width width v size all))
        | inr ge ↦
            rw (ge, wide)
              (ap (λ t. ok (integer (to_le width t)))
                  (extended (from_le v) (power width) (2 ^ (8 * width)) e1
                    (from_le-width width v size all) e2)
                ∙ ap (λ t. ok (integer t))
                    (to_le-power width (from_le v) q ∙ to_le-width width v size all))
      ]
    where
      extended :
          (n p r : ℕ) → r ≡ p → n < p → 2 ^ 64 ≡ p + p * q → negative_bits (r - 1 - n) ≡ n + p * q
      extended n p r e1 lt e2 = omega arith

  unsigned_element :
      (domain width : ℕ) (v : Bytes)
      → element_width (g.built_in domain) ≡ some width
      → length v ≡ width
      → All (λ b. b < 256) v
      → apply_element g domain (positive_integer (from_le v)) ≡ ok (integer v)
  unfolding apply_element
  unsigned_element domain width v wide size all =
      rw wide (ap (λ t. ok (integer t)) (to_le-width width v size all))

  time_element :
      (domain : ℕ) (v : Bytes)
      → element_width (g.built_in domain) ≡ none
      → from_le v < 2 ^ 63
      → apply_element g domain (scalar (pack_signed 8 (from_le v))) ≡ ok (element_of BuiltIn.time v)
  unfolding apply_element pack_signed
  time_element domain v wide small = elim (Bool-cases (ltb (from_le v) (2 ^ 63))) [
    | inl lt ↦ rw (lt, wide, lt) refl
    | inr ge ↦ absurd (ltb-not-lt (from_le v) (2 ^ 63) ge small)
  ]
    where
      ltb-not-lt : (n m : ℕ) → ltb n m ≡ false → n < m → ⊥
      ltb-not-lt n m h lt = ground arith

  module _ {O C : Type 0} (s : Standby O C) where
    signed_value :
        (c : C) (width n : ℕ)
        → n < 2 ^ (8 * width)
        → 2 ^ (8 * width) ≤ 2 ^ 64
        → apply_value g s c (scalar (pack_signed width n)) ≡ ok (signed_stored width n)
    unfolding apply_value pack_signed
    signed_value c width n lt le = elim (Bool-cases (ltb n (2 ^ (8 * width - 1)))) [
      | inl small ↦ rw small refl
      | inr big ↦ rw big (ap (λ t. ok (Stored.int64 t)) (negative_again (2 ^ (8 * width)) n lt le))
    ]

    -- What a value that fits its type is packed as, and what the applier makes of the object.
    pub record Packed (b : BuiltIn) (v : Bytes) : Type 0 where
      pub call : Call
      pub packed : pack_raw b v ≡ some call
      pub alone : calls (scalar call) ≡ call ∷ []
      pub stored : (c : C) → apply_value g s c (scalar call) ≡ ok (stored_of b v)
      pub element :
          (domain : ℕ)
          → g.built_in domain ≡ b
          → IsSince1970 b v
          → apply_element g domain (scalar call) ≡ ok (element_of b v)

    signed_Packed :
        (b : BuiltIn) (width q : ℕ) (v : Bytes)
        → pack_raw b v ≡ some (pack_signed width (from_le v))
        → stored_of b v ≡ signed_stored width (from_le v)
        → element_of b v ≡ integer v
        → element_width b ≡ some width
        → 2 ^ (8 * width) ≡ power width
        → 2 ^ 64 ≡ power width + power width * q
        → (length v ≡ width) × All (λ x. x < 256) v
        → Packed b v
    signed_Packed b width q v packed stored element wide e1 e2 (size, all) = record {
      call = pack_signed width (from_le v);
      packed = packed;
      alone = signed_calls width (from_le v);
      stored = λ c.
          signed_value c width (from_le v)
            (subst (λ p. from_le v < p) (sym e1) (from_le-width width v size all))
            (below (power width) (2 ^ (8 * width)) e1 e2)
          ∙ ap ok (sym stored);
      element = λ domain is since.
          signed_element domain width v q (ap element_width is ∙ wide) e1 e2 size all
          ∙ ap ok (sym element);
    }
      where
        below : (p r : ℕ) → r ≡ p → 2 ^ 64 ≡ p + p * q → r ≤ 2 ^ 64
        below p r e1 e2 = omega arith

    unsigned_Packed :
        (b : BuiltIn) (width : ℕ) (v : Bytes)
        → pack_raw b v ≡ some (pack_positive (from_le v))
        → stored_of b v ≡ Stored.uint64 (from_le v)
        → element_of b v ≡ integer v
        → element_width b ≡ some width
        → (length v ≡ width) × All (λ x. x < 256) v
        → Packed b v
    unfolding calls apply_value
    unsigned_Packed b width v packed stored element wide (size, all) = record {
      call = pack_positive (from_le v);
      packed = packed;
      alone = refl;
      stored = λ c. ap ok (sym stored);
      element = λ domain is since.
          unsigned_element domain width v (ap element_width is ∙ wide) size all
          ∙ ap ok (sym element);
    }

    text_Packed :
        (b : BuiltIn) (v : Bytes)
        → pack_raw b v ≡ some (pack_str v)
        → stored_of b v ≡ Stored.text v
        → element_of b v ≡ Element.text v
        → Packed b v
    unfolding calls apply_value apply_element
    text_Packed b v packed stored element = record {
      call = pack_str v;
      packed = packed;
      alone = refl;
      stored = λ c. ap ok (sym stored);
      element = λ domain is since. ap ok (sym element);
    }

    whole : (width : ℕ) (v : Bytes) → length v ≡ width → take width v ≡ v
    whole width v size = take-ge width v (omega (arith, size))

    -- A value whose bytes fit its type is packed by one call, and the applier makes of it the value that its
    -- type wants.
    pub raw-Packed : (b : BuiltIn) (v : Bytes) → HasWidth (write_layout b) v → Packed b v
    unfolding pack_raw write_layout element_width calls apply_value apply_element
    raw-Packed BuiltIn.bool v (size, all) = record {
      call = pack_boolean (not (from_le v == 0));
      packed = ap (λ t. some (pack_boolean (not (from_le t == 0)))) (whole 1 v size);
      alone = refl;
      stored = λ c. refl;
      element = λ domain is since. refl;
    }
    raw-Packed BuiltIn.int8 v h =
        signed_Packed BuiltIn.int8 1 (2 ^ 56 - 1) v
          (ap (λ t. some (pack_signed 1 (from_le t))) (whole 1 v h.0)) refl refl refl refl refl h
    raw-Packed BuiltIn.int16 v h =
        signed_Packed BuiltIn.int16 2 (2 ^ 48 - 1) v
          (ap (λ t. some (pack_signed 2 (from_le t))) (whole 2 v h.0)) refl refl refl refl refl h
    raw-Packed BuiltIn.int32 v h =
        signed_Packed BuiltIn.int32 4 (2 ^ 32 - 1) v
          (ap (λ t. some (pack_signed 4 (from_le t))) (whole 4 v h.0)) refl refl refl refl refl h
    raw-Packed BuiltIn.int64 v h =
        signed_Packed BuiltIn.int64 8 0 v
          (ap (λ t. some (pack_signed 8 (from_le t))) (whole 8 v h.0)) refl refl refl refl refl h
    raw-Packed BuiltIn.uint8 v h =
        unsigned_Packed BuiltIn.uint8 1 v
          (ap (λ t. some (pack_positive (from_le t))) (whole 1 v h.0)) refl refl refl h
    raw-Packed BuiltIn.uint16 v h =
        unsigned_Packed BuiltIn.uint16 2 v
          (ap (λ t. some (pack_positive (from_le t))) (whole 2 v h.0)) refl refl refl h
    raw-Packed BuiltIn.uint32 v h =
        unsigned_Packed BuiltIn.uint32 4 v
          (ap (λ t. some (pack_positive (from_le t))) (whole 4 v h.0)) refl refl refl h
    raw-Packed BuiltIn.uint64 v h =
        unsigned_Packed BuiltIn.uint64 8 v
          (ap (λ t. some (pack_positive (from_le t))) (whole 8 v h.0)) refl refl refl h
    raw-Packed BuiltIn.float32 v (size, all) = record {
      call = pack_float (from_le v);
      packed = ap (λ t. some (pack_float (from_le t))) (whole 4 v size);
      alone = refl;
      stored = λ c. refl;
      element = λ domain is since. refl;
    }
    raw-Packed BuiltIn.float v (size, all) = record {
      call = pack_double (from_le v);
      packed = ap (λ t. some (pack_double (from_le t))) (whole 8 v size);
      alone = refl;
      stored = λ c. refl;
      element = λ domain is since. refl;
    }
    raw-Packed BuiltIn.time v (size, all) = record {
      call = pack_signed 8 (from_le v);
      packed = ap (λ t. some (pack_signed 8 (from_le t))) (whole 8 v size);
      alone = signed_calls 8 (from_le v);
      stored = λ c. signed_value c 8 (from_le v) (from_le-width 8 v size all) (omega arith);
      element = λ domain is since. time_element domain v (ap element_width is) since;
    }
    raw-Packed BuiltIn.short_text v h = text_Packed BuiltIn.short_text v refl refl refl
    raw-Packed BuiltIn.text v h = text_Packed BuiltIn.text v refl refl refl
    raw-Packed BuiltIn.long_text v h = text_Packed BuiltIn.long_text v refl refl refl
    raw-Packed BuiltIn.other v h = absurd h
