-- ===== src/Wal/Record.antt =====
-- What the WAL records of src/pgrn-wal-custom.h have in common: the leading fields of every record
-- structure (`PGrnWALRecordCommon`), which are copied as one block of memory up to the first field
-- that is a pointer, and the check for garbage at the end of a record.
pub mod Laws
pub mod RenameTable
pub mod Delete
pub mod RemoveObject
pub mod RegisterPlugin
pub mod CreateTable
pub mod CreateColumn
pub mod SetSources
pub mod Insert
pub mod BulkInsert
use pgroonga.Base.{ℕ, ◌^◌, ◌<◌, Bytes, ◌++◌, take, drop, from_le}
use pgroonga.Wal.Raw.{Reader, pure, ◌>>=◌, ◌>>◌, read_data, expect_end, u32}

pub record Common : Type 0 where
  pub db_id : ℕ
  pub db_encoding : ℕ
  pub db_table_space_id : ℕ

-- The twelve bytes that the three fields take in memory.
unfoldable pub common_bytes : Common → Bytes
unfolding u32
common_bytes c = u32 c.db_id ++ (u32 c.db_encoding ++ u32 c.db_table_space_id)

-- The 32-bit word at an offset of a block of memory.
abbrev pub word : ℕ → Bytes → ℕ
word offset block = from_le (take 4 (drop offset block))

abbrev pub common_of : Bytes → Common
common_of block = record {
  db_id = word 0 block;
  db_encoding = word 4 block;
  db_table_space_id = word 8 block;
}

-- A block whose only fields are the common ones, with `size - 12` bytes of padding behind them.
unfoldable pub read_common : ℕ → Reader Common
read_common size = do block ← read_data size; pure (common_of block)

-- A record's reader refuses what stands behind the record.
unfoldable pub until_end {ℓ} : {A : Type ℓ} → Reader A → Reader A
until_end fields = do r ← fields; expect_end; pure r

-- Every field is the value of a 32-bit variable.
pub record IsWords (c : Common) : Type 0 where
  pub db_id : c.db_id < 2 ^ 32
  pub db_encoding : c.db_encoding < 2 ^ 32
  pub db_table_space_id : c.db_table_space_id < 2 ^ 32
