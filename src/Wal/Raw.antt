-- ===== src/Wal/Raw.antt =====
-- Reading and writing the raw bytes of a WAL record: `PGrnWALRecordRaw` and the primitives on it in
-- src/pgrn-wal-custom.h. A raw record is the list of the bytes not read yet, and its `size` is the
-- length of that list; `ereport(ERROR, ...)` ends the reading with an error value.
pub mod Parses
pub mod Extends
use pgroonga.Base.{ℕ, Bytes, [], ◌∷◌, length, take, drop, to_le, from_le, ltb, if◌then◌else◌}

pub data Error : Type 0 where
  small_data : ℕ → ℕ → Error
  garbage : ℕ → Error
  unsupported_type : ℕ → Error
  unknown_info : ℕ → Error

pub data Result {ℓ} (A : Type ℓ) : Type ℓ where
  ok : A → Result A
  err : Error → Result A

-- `struct PGrnWALRecordRaw`
abbrev pub Raw : Type 0
Raw = Bytes

abbrev pub Reader {ℓ} : Type ℓ → Type ℓ
Reader A = Raw → Result (A × Raw)

module _ {ℓ} {A : Type ℓ} where
  unfoldable pub pure : A → Reader A
  pure a raw = ok (a, raw)

  unfoldable pub fail : Error → Reader A
  fail e raw = err e

module _ {ℓ κ} {A : Type ℓ} {B : Type κ} where
  abbrev pub continue : (A → Reader B) → Result (A × Raw) → Result (B × Raw)
  continue f (ok (a, raw)) = f a raw
  continue f (err e) = err e

  infixl 5 ◌>>=◌
  unfoldable pub ◌>>=◌ : Reader A → (A → Reader B) → Reader B
  unfolding pure fail
  ◌>>=◌ m f raw = continue f (m raw)

infixl 5 ◌>>◌
abbrev pub ◌>>◌ {ℓ} : {B : Type ℓ} → Reader (Unit {0}) → Reader B → Reader B
m >> k = m >>= λ _. k

-- `PGrnWALRecordRawReadData`: a copy of the next `size` bytes.
unfoldable pub read_data : ℕ → Reader Bytes
read_data size raw =
    if ltb (length raw) size
    then err (small_data size (length raw))
    else ok (take size raw, drop size raw)

-- `PGrnWALRecordRawRefer`: a reference to the next `size` bytes.
unfoldable pub refer : ℕ → Reader Bytes
refer size raw =
    if ltb (length raw) size
    then err (small_data size (length raw))
    else ok (take size raw, drop size raw)

-- The value of four or eight bytes read into an integer variable.
unfoldable pub read_u32 : Reader ℕ
unfolding read_data ◌>>=◌
read_u32 = do bytes ← read_data 4; pure (from_le bytes)

unfoldable pub read_u64 : Reader ℕ
unfolding read_data ◌>>=◌
read_u64 = do bytes ← read_data 8; pure (from_le bytes)

-- The check that stands at the end of a record's reader.
unfoldable pub expect_end : Reader (Unit {0})
expect_end [] = ok (tt, [])
expect_end (b ∷ raw) = err (garbage (length (b ∷ raw)))

unfoldable pub u32 : ℕ → Bytes
u32 n = to_le 4 n

unfoldable pub u64 : ℕ → Bytes
u64 n = to_le 8 n
