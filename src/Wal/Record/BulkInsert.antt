-- ===== src/Wal/Record/BulkInsert.antt =====
-- The record of several inserted rows: `PGrnWALRecordBulkInsert` of src/pgrn-wal-custom.h. The reader
-- of its rows goes on until no byte is left; each row takes four bytes at least, so that a fuel of one
-- more than the bytes left is enough (`Laws`).
pub mod Laws
use pgroonga.Base.{ℕ, zero, suc, ◌^◌, ◌<◌, Bytes, List, [], ◌∷◌, ◌++◌, length, Option, none, some}
use pgroonga.Wal.Raw.{Result, ok, Reader, pure, ◌>>=◌, refer, read_u32, u32}
use pgroonga.Wal.Record.{Common}
use pgroonga.Wal.Value.{Groonga}
use pgroonga.Wal.Tuple.{Column, after, both, write_columns, Tuple, empty_tuple, read_tuple_into}

-- The head of the record, shared by its rows.
pub record BulkInsert : Type 0 where
  pub common : Common
  pub table_name : Bytes
  pub table_name_size : ℕ

unfoldable pub write_start : Common → Bytes → Bytes
write_start c table_name =
    u32 c.db_id
    ++ (u32 c.db_encoding ++ (u32 c.db_table_space_id ++ (u32 (length table_name) ++ table_name)))

unfoldable pub write_record_start : ℕ → Bytes
write_record_start n_columns = u32 n_columns

unfoldable pub read : Reader BulkInsert
read = do
  db_id ← read_u32
  db_encoding ← read_u32
  db_table_space_id ← read_u32
  table_name_size ← read_u32
  table_name ← refer table_name_size
  pure (record {
    common = record {
      db_id = db_id;
      db_encoding = db_encoding;
      db_table_space_id = db_table_space_id;
    };
    table_name = table_name;
    table_name_size = table_name_size;
  })

module _ (g : Groonga) where
  -- What one row appends to the buffer.
  unfoldable pub write_row : List Column → Result Bytes
  unfolding write_record_start
  write_row columns = after (write_record_start (length columns)) (write_columns g columns)

  -- The rows, one `WriteRecordStart` with its columns for each.
  unfoldable pub write_rows : List (List Column) → Result Bytes
  unfolding write_row
  write_rows [] = ok []
  write_rows (columns ∷ rows) = both (write_row columns) (write_rows rows)

  -- The next row, read into the buffers of the tuple; `none` is the result `false`: no row is left.
  unfoldable pub read_next : Tuple → Reader (Option Tuple)
  unfolding read_tuple_into
  read_next t [] = ok (none, [])
  read_next t (b ∷ raw) = (do tuple ← read_tuple_into g t; pure (some tuple)) (b ∷ raw)

  -- What `pgrnwrm_redo_bulk_insert` does to the tuple behind each row: the names, the values and the vectors are
  -- emptied, for the next row is read into the same buffers.
  unfoldable pub rewind : Tuple → Tuple
  rewind t = record t { column_names = []; column_values = []; column_vector_values = [] }

  -- `while (PGrnWALRecordBulkInsertReadNext(...))`: the tuples as they are handed over, in their order; `none`
  -- means that the fuel ran out.
  unfoldable pub read_rows : ℕ → Tuple → List Tuple → Reader (Option (List Tuple))
  unfolding read_next rewind
  read_rows zero t rows = pure none
  read_rows (suc fuel) t rows = do
    next ← read_next t
    elim next [
      | none ↦ pure (some rows)
      | some tuple ↦ read_rows fuel (rewind tuple) (rows ++ tuple ∷ [])
    ]

  unfoldable pub read_all : Reader (BulkInsert × Option (List Tuple))
  unfolding read_rows read
  read_all = do
    head ← read
    rows ← λ raw. read_rows (suc (length raw)) (empty_tuple 0) [] raw
    pure (head, rows)
