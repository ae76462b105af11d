-- ===== src/Wal/Record/Insert.antt =====
-- The record of one inserted row: `PGrnWALRecordInsert` of src/pgrn-wal-custom.h. Its writer appends to
-- a buffer: the head, each column, and at the end the whole buffer is inserted into the WAL.
use pgroonga.Base.{ℕ, ◌^◌, ◌<◌, ◌≡◌, refl, ap, ◌∙◌, Bytes, List, ◌++◌, append_assoc, length, All}
use pgroonga.Wal.Raw.{Result, ok, Reader, pure, ◌>>=◌, refer, read_u32, u32}
use pgroonga.Wal.Raw.Parses.{Parses, Parses-bind, Parses-bind_pure, Parses-read_u32, Parses-refer}
use pgroonga.Wal.Raw.Extends.{Extends, extends_rules, Extends-read_u32}
use pgroonga.Wal.Record.{Common, until_end, IsWords}
use pgroonga.Wal.Value.{Groonga}
use pgroonga.Wal.Tuple.{Column, after, write_columns, Tuple, read_tuple}
use pgroonga.Wal.Tuple.RoundTrip.{
  IsColumn, columns_bytes, tuple_of, write_columns-eq-ok, Parses-tuple,
}
use pgroonga.Wal.Tuple.Prefix.{Extends-read_tuple}

pub record Insert : Type 0 where
  pub common : Common
  pub table_name : Bytes
  pub table_name_size : ℕ
  pub tuple : Tuple

-- The common fields one by one, and the name of the table (`grn_obj_name`).
unfoldable pub write_head : Common → Bytes → Bytes
write_head c table_name =
    u32 c.db_id
    ++ (u32 c.db_encoding ++ (u32 c.db_table_space_id ++ (u32 (length table_name) ++ table_name)))

unfoldable pub write_start : Common → Bytes → ℕ → Bytes
unfolding write_head
write_start c table_name n_columns = write_head c table_name ++ u32 n_columns

module _ (g : Groonga) where
  -- The buffer that `PGrnWALRecordInsertWriteFinish` inserts.
  unfoldable pub write : Common → Bytes → List Column → Result Bytes
  unfolding write_start
  write c table_name columns =
      after (write_start c table_name (length columns)) (write_columns g columns)

  unfoldable pub fields : Reader Insert
  fields = do
    db_id ← read_u32
    db_encoding ← read_u32
    db_table_space_id ← read_u32
    table_name_size ← read_u32
    table_name ← refer table_name_size
    tuple ← read_tuple g
    pure (record {
      common = record {
        db_id = db_id;
        db_encoding = db_encoding;
        db_table_space_id = db_table_space_id;
      };
      table_name = table_name;
      table_name_size = table_name_size;
      tuple = tuple;
    })

  unfoldable pub read : Reader Insert
  unfolding fields
  read = until_end fields

  pub record IsFilled (c : Common) (table_name : Bytes) (cs : List Column) : Type 0 where
    pub words : IsWords c
    pub name_fits : length table_name < 2 ^ 32
    pub count_fits : length cs < 2 ^ 32
    pub columns : All (IsColumn g) cs

  unfoldable pub as_read : Common → Bytes → List Column → Insert
  as_read c table_name columns = record {
    common = c;
    table_name = table_name;
    table_name_size = length table_name;
    tuple = tuple_of g columns;
  }

  -- The bytes of the record, with the parts in the order of the reader.
  abbrev pub record_bytes : Common → Bytes → List Column → Bytes
  record_bytes c table_name columns =
      u32 c.db_id
      ++ (u32 c.db_encoding
          ++ (u32 c.db_table_space_id
              ++ (u32 (length table_name)
                  ++ (table_name ++ (u32 (length columns) ++ columns_bytes g columns)))))

  pub write-eq-ok :
      (c : Common) (table_name : Bytes) (columns : List Column)
      → All (IsColumn g) columns
      → write c table_name columns ≡ ok (record_bytes c table_name columns)
  unfolding write
  write-eq-ok c table_name columns h =
      ap (after (write_start c table_name (length columns))) (write_columns-eq-ok g columns h)
      ∙ simp append_assoc

  pub Parses-fields :
      (c : Common) (table_name : Bytes) (columns : List Column)
      → IsFilled c table_name columns
      → Parses fields (record_bytes c table_name columns) (as_read c table_name columns)
  unfolding fields as_read
  Parses-fields c table_name columns h = Parses-bind _ (Parses-read_u32 c.db_id h.words.db_id) (
      Parses-bind _ (Parses-read_u32 c.db_encoding h.words.db_encoding) (
        Parses-bind _ (Parses-read_u32 c.db_table_space_id h.words.db_table_space_id) (
          Parses-bind _ (Parses-read_u32 (length table_name) h.name_fits) (
            Parses-bind _ (Parses-refer table_name refl)
              (Parses-bind_pure _ (Parses-tuple g columns h.count_fits h.columns))))))

  pub Extends-fields : Extends fields
  unfolding fields
  Extends-fields = search (extends_rules, Extends-read_u32, Extends-read_tuple) depth 18
