-- ===== src/Wal/Record/Delete.antt =====
-- The record of a deleted row: `PGrnWALRecordDelete` of src/pgrn-wal-custom.h.
use pgroonga.Base.{ℕ, ◌^◌, ◌<◌, ◌≡◌, Bytes, ◌++◌, length, take}
use pgroonga.Wal.Raw.{Reader, pure, ◌>>=◌, refer, read_u32, u32}
use pgroonga.Wal.Raw.Parses.{Parses, Parses-bind, Parses-bind_pure, Parses-read_u32}
use pgroonga.Wal.Raw.Extends.{Extends, extends_rules, Extends-read_u32}
use pgroonga.Wal.Record.{Common, common_bytes, read_common, until_end, IsWords}
use pgroonga.Wal.Record.Laws.{Parses-read_common, Parses-taken, Extends-read_common}

pub record Delete : Type 0 where
  pub common : Common
  pub table_name : Bytes
  pub table_name_size : ℕ
  pub key : Bytes
  pub key_size : ℕ

unfoldable pub fill : Common → Bytes → ℕ → Bytes → ℕ → Delete
fill common table_name table_name_size key key_size = record {
  common = common;
  table_name = table_name;
  table_name_size = table_name_size;
  key = key;
  key_size = key_size;
}

-- `padding` is what lies in memory between the third field and the pointer.
unfoldable pub write : Delete → Bytes → Bytes
write r padding =
    (common_bytes r.common ++ padding)
    ++ (u32 r.table_name_size
        ++ (take r.table_name_size r.table_name ++ (u32 r.key_size ++ take r.key_size r.key)))

unfoldable pub fields : Reader Delete
fields = do
  common ← read_common 16
  table_name_size ← read_u32
  table_name ← refer table_name_size
  key_size ← read_u32
  key ← refer key_size
  pure (record {
    common = common;
    table_name = table_name;
    table_name_size = table_name_size;
    key = key;
    key_size = key_size;
  })

unfoldable pub read : Reader Delete
unfolding fields
read = until_end fields

-- The sizes are those of the texts, and every number fits its variable.
pub record IsFilled (r : Delete) (padding : Bytes) : Type 0 where
  pub words : IsWords r.common
  pub padded : length padding ≡ 4
  pub table_name_size : length r.table_name ≡ r.table_name_size
  pub table_name_fits : r.table_name_size < 2 ^ 32
  pub key_size : length r.key ≡ r.key_size
  pub key_fits : r.key_size < 2 ^ 32

pub Parses-fields :
    (r : Delete) (padding : Bytes) → IsFilled r padding → Parses fields (write r padding) r
unfolding fields write
Parses-fields r padding h = Parses-bind _ (Parses-read_common r.common padding h.words h.padded) (
    Parses-bind _ (Parses-read_u32 r.table_name_size h.table_name_fits) (
      Parses-bind _ (Parses-taken r.table_name_size r.table_name h.table_name_size) (
        Parses-bind _ (Parses-read_u32 r.key_size h.key_fits)
          (Parses-bind_pure _ (Parses-taken r.key_size r.key h.key_size)))))

pub Extends-fields : Extends fields
unfolding fields
Extends-fields = search (extends_rules, Extends-read_u32, Extends-read_common) depth 12
