-- ===== src/Wal/Decode/Values.antt =====
-- The values of an inserted row: what the writer packs of a value, and what the applier makes of it.

use pgroonga.Base.{
  ℕ, zero, suc, ◌+◌, ◌-◌, ◌*◌, ◌/◌, ◌%◌, ◌^◌, ◌<◌, ◌≡◌, refl, ap, ◌∙◌, subst, not, Bytes, All, [],
  ◌∷◌, length, from_le, to_le, ltb, ◌==◌, if◌then◌else◌, arith,
}
use pgroonga.Wal.Msgpack.{
  Msg, Call, nil, positive_integer, negative_integer, str, bin, pack_nil, pack_boolean,
  pack_positive, pack_negative, pack_float, pack_double, pack_str, pack_bin, pack_ext, pack_array,
  pack_map,
}
use pgroonga.Wal.Value.{BuiltIn, Layout, fixed, sized, unsupported}
use pgroonga.Wal.Decode.Insert.{Element, Stored, integer, cast_number, cast_negative}

-- The object of a call that is one object by itself.
abbrev pub scalar : Call → Msg
scalar pack_nil = nil
scalar (pack_boolean b) = Msg.boolean b
scalar (pack_positive n) = positive_integer n
scalar (pack_negative n) = negative_integer n
scalar (pack_float n) = Msg.float32 n
scalar (pack_double n) = Msg.float64 n
scalar (pack_str s) = str s
scalar (pack_bin b) = bin b
scalar (pack_ext type b) = Msg.ext type b
scalar (pack_array n) = nil
scalar (pack_map n) = nil

-- The bytes of a value are as many as its type has.
abbrev pub HasWidth : Layout → Bytes → Type 0
HasWidth (fixed width) v = (length v ≡ width) × All (λ b. b < 256) v
HasWidth sized v = Unit
HasWidth unsupported v = ⊥

-- A signed integer of `width` bytes with the bits `n`, as 64 bits.
abbrev pub signed_bits : ℕ → ℕ → ℕ
signed_bits width n = if ltb n (2 ^ (8 * width - 1)) then n else 2 ^ 64 - 2 ^ (8 * width) + n

-- An unsigned or a non-negative integer is stored as UInt64, a negative one as Int64.
abbrev pub signed_stored : ℕ → ℕ → Stored
signed_stored width n =
    if ltb n (2 ^ (8 * width - 1))
    then Stored.uint64 n
    else Stored.int64 (2 ^ 64 - 2 ^ (8 * width) + n)

-- What a column is set to for a value of a built-in type.
abbrev pub stored_of : BuiltIn → Bytes → Stored
stored_of BuiltIn.bool v = Stored.boolean (not (from_le v == 0))
stored_of BuiltIn.int8 v = signed_stored 1 (from_le v)
stored_of BuiltIn.int16 v = signed_stored 2 (from_le v)
stored_of BuiltIn.int32 v = signed_stored 4 (from_le v)
stored_of BuiltIn.int64 v = signed_stored 8 (from_le v)
stored_of BuiltIn.time v = signed_stored 8 (from_le v)
stored_of BuiltIn.uint8 v = Stored.uint64 (from_le v)
stored_of BuiltIn.uint16 v = Stored.uint64 (from_le v)
stored_of BuiltIn.uint32 v = Stored.uint64 (from_le v)
stored_of BuiltIn.uint64 v = Stored.uint64 (from_le v)
stored_of BuiltIn.float32 v = Stored.float32 (from_le v)
stored_of BuiltIn.float v = Stored.float (from_le v)
stored_of BuiltIn.short_text v = Stored.text v
stored_of BuiltIn.text v = Stored.text v
stored_of BuiltIn.long_text v = Stored.text v
stored_of BuiltIn.other v = Stored.text v

-- What is put into a vector: an integer with the bytes that it had, but a time is cast from the number of
-- microseconds that its 64 bits are, which is signed.
abbrev pub element_of : BuiltIn → Bytes → Element
element_of BuiltIn.bool v = Element.boolean (not (from_le v == 0))
element_of BuiltIn.time v =
    if ltb (from_le v) (2 ^ 63)
    then cast_number (from_le v)
    else cast_negative (2 ^ 64 - 1 - from_le v)
element_of BuiltIn.float32 v = Element.float32 (from_le v)
element_of BuiltIn.float v = Element.float (from_le v)
element_of BuiltIn.short_text v = Element.text v
element_of BuiltIn.text v = Element.text v
element_of BuiltIn.long_text v = Element.text v
element_of _ v = integer v

-- A time is not before 1970.
abbrev pub IsSince1970 : BuiltIn → Bytes → Type 0
IsSince1970 BuiltIn.time v = from_le v < 2 ^ 63
IsSince1970 _ v = Unit

-- 256 to the power of `k`.
abbrev pub power : ℕ → ℕ
power zero = 1
power (suc k) = 256 * power k

from_le-power : (v : Bytes) → All (λ b. b < 256) v → from_le v < power (length v)
from_le-power [] all = omega arith
from_le-power (b ∷ v) (small, all) = omega (arith, from_le-power v all)

pub from_le-width : (k : ℕ) (v : Bytes) → length v ≡ k → All (λ b. b < 256) v → from_le v < power k
from_le-width k v e all = subst (λ n. from_le v < power n) e (from_le-power v all)

to_le-from_le : (v : Bytes) → All (λ b. b < 256) v → to_le (length v) (from_le v) ≡ v
to_le-from_le [] all = refl
to_le-from_le (b ∷ v) (small, all) =
    ap (λ x. x ∷ to_le (length v) ((b + 256 * from_le v) / 256)) (low b (from_le v) small)
    ∙ ap (λ x. b ∷ to_le (length v) x) (high b (from_le v) small)
    ∙ ap (λ t. b ∷ t) (to_le-from_le v all)
  where
    low : (b n : ℕ) → b < 256 → (b + 256 * n) % 256 ≡ b
    low b n small = omega arith

    high : (b n : ℕ) → b < 256 → (b + 256 * n) / 256 ≡ n
    high b n small = omega arith

pub to_le-width :
    (k : ℕ) (v : Bytes) → length v ≡ k → All (λ b. b < 256) v → to_le k (from_le v) ≡ v
to_le-width k v e all = subst (λ n. to_le n (from_le v) ≡ v) e (to_le-from_le v all)

-- A multiple of 256 ^ k does not change the `k` low bytes.
pub to_le-power : (k n m : ℕ) → to_le k (n + power k * m) ≡ to_le k n
to_le-power zero n m = refl
to_le-power (suc k) n m =
    ap (λ x. x % 256 ∷ to_le k (x / 256)) (regroup n (power k) m)
    ∙ ap (λ x. x ∷ to_le k ((n + 256 * (power k * m)) / 256)) (low n (power k * m))
    ∙ ap (λ x. n % 256 ∷ to_le k x) (high n (power k * m))
    ∙ ap (λ t. n % 256 ∷ t) (to_le-power k (n / 256) m)
  where
    regroup : (n p m : ℕ) → n + 256 * p * m ≡ n + 256 * (p * m)
    regroup n p m = grind arith

    low : (n q : ℕ) → (n + 256 * q) % 256 ≡ n % 256
    low n q = omega arith

    high : (n q : ℕ) → (n + 256 * q) / 256 ≡ n / 256 + q
    high n q = omega arith
