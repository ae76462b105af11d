-- ===== src/Wal/Value.antt =====
-- The values of columns in the records of inserted rows (src/pgrn-wal-custom.h): the switch on the
-- domain of a value, for the writer and for the reader. What Groonga defines comes in `Groonga`: which
-- built-in type an id names, which types are texts, and the names and ids that the code mentions.
pub mod Laws
use pgroonga.Base.{
  ℕ, ◌+◌, ◌/◌, ◌%◌, ◌^◌, ◌≡◌, Bool, true, false, Bytes, List, [], ◌∷◌, ◌++◌, length, take, ◌==◌,
  if◌then◌else◌, Option, none, some,
}
use pgroonga.Wal.Raw.{
  Result, ok, err, unsupported_type, Reader, pure, ◌>>=◌, read_data, refer, read_u32, u32,
}

-- The labels of the switch: `GRN_DB_BOOL` and so on, and any other id.
pub data BuiltIn : Type 0 where
  bool int8 uint8 int16 uint16 int32 uint32 int64 uint64 float32 float time : BuiltIn
  short_text text long_text other : BuiltIn

pub record Groonga : Type 0 where
  pub built_in : ℕ → BuiltIn
  pub is_text_family : ℕ → Bool
  pub key_name : Bytes
  pub short_text_id : ℕ
  pub void_id : ℕ

-- How the bytes of a value are laid out: in a fixed number of bytes, behind their number, or not.
pub data Layout : Type 0 where
  fixed : ℕ → Layout
  sized unsupported : Layout

-- `PGrnWALRecordInsertWriteColumnValueRaw`: the size of the C type of each label.
unfoldable pub write_layout : BuiltIn → Layout
write_layout bool = fixed 1
write_layout int8 = fixed 1
write_layout uint8 = fixed 1
write_layout int16 = fixed 2
write_layout uint16 = fixed 2
write_layout int32 = fixed 4
write_layout uint32 = fixed 4
write_layout int64 = fixed 8
write_layout uint64 = fixed 8
write_layout float32 = fixed 4
write_layout float = fixed 8
write_layout time = fixed 8
write_layout short_text = sized
write_layout text = sized
write_layout long_text = sized
write_layout other = unsupported

-- `value_size` bytes are at `value`.
unfoldable pub write_laid_out : Layout → ℕ → Bytes → ℕ → Result Bytes
write_laid_out (fixed width) domain value value_size = ok (take width value)
write_laid_out sized domain value value_size = ok (u32 value_size ++ take value_size value)
write_laid_out unsupported domain value value_size = err (unsupported_type domain)

-- `PGrnWALRecordInsertReadColumnValueRaw`: the same switch in the reader.
unfoldable pub read_layout : BuiltIn → Layout
read_layout bool = fixed 1
read_layout int8 = fixed 1
read_layout uint8 = fixed 1
read_layout int16 = fixed 2
read_layout uint16 = fixed 2
read_layout int32 = fixed 4
read_layout uint32 = fixed 4
read_layout int64 = fixed 8
read_layout uint64 = fixed 8
read_layout float32 = fixed 4
read_layout float = fixed 8
read_layout time = fixed 8
read_layout short_text = sized
read_layout text = sized
read_layout long_text = sized
read_layout other = unsupported

-- `none` is the result `false`.
unfoldable pub read_laid_out : Layout → Reader (Option Bytes)
read_laid_out (fixed width) = do value ← read_data width; pure (some value)
read_laid_out sized = do value_size ← read_u32; value ← refer value_size; pure (some value)
read_laid_out unsupported = pure none

module _ (g : Groonga) where
  unfoldable pub write_value : ℕ → Bytes → ℕ → Result Bytes
  unfolding write_layout write_laid_out
  write_value domain value value_size =
      write_laid_out (write_layout (g.built_in domain)) domain value value_size

  unfoldable pub read_value : ℕ → Reader (Option Bytes)
  unfolding read_layout read_laid_out
  read_value domain = read_laid_out (read_layout (g.built_in domain))
