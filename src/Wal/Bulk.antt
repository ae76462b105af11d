-- ===== src/Wal/Bulk.antt =====
-- A bulk insertion at the primary: `PGrnWALBulkInsertStart`, `PGrnWALInsertStart`, `PGrnWALInsertFinish` and
-- `PGrnWALBulkInsertFinish` of src/pgrn-wal.c for the custom WAL, which is enabled, with a table that is not
-- temporary. A record that has grown over a limit is emitted before the next row, and another one is started.
pub mod Laws
pub mod Bounds
use pgroonga.Base.{ℕ, ◌+◌, Bool, ◌&&◌, Bytes, List, [], ◌∷◌, ◌++◌, length, ltb, if◌then◌else◌}
use pgroonga.Wal.Raw.{Result, ok, err}
use pgroonga.Wal.Record.{Common}
use pgroonga.Wal.Value.{Groonga}
use pgroonga.Wal.Tuple.{Column, write_columns}
use pgroonga.Wal.Record.BulkInsert.{write_start, write_record_start}

-- `buffers->walRecord`, and the records that `XLogInsert` got.
pub record Bulk : Type 0 where
  pub buffer : Bytes
  pub records : List Bytes

abbrev pub and_then {ℓ κ} : {A : Type ℓ} {B : Type κ} → Result A → (A → Result B) → Result B
and_then (ok a) f = f a
and_then (err e) f = err e

-- `PGrnWALRecordBulkInsertWriteFinish`
unfoldable pub write_finish : Bulk → Bulk
write_finish b = record b { records = b.records ++ b.buffer ∷ [] }

module _ (max_size : ℕ) (c : Common) (table_name : Bytes) where
  -- `GRN_BULK_REWIND` and `PGrnWALRecordBulkInsertWriteStart`
  unfoldable pub bulk_insert_start : Bulk → Bulk
  bulk_insert_start b = record b { buffer = write_start c table_name }

  -- A limit of 0 is none.
  unfoldable pub split_if_large : Bulk → Bulk
  unfolding write_finish bulk_insert_start
  split_if_large b =
      if ltb 0 max_size && ltb max_size (length b.buffer)
      then bulk_insert_start (write_finish b)
      else b

  -- The branch of `PGrnWALInsertStartCustom` for a bulk insertion.
  unfoldable pub insert_start : ℕ → Bulk → Bulk
  unfolding split_if_large write_record_start
  insert_start n_columns b =
      let split = split_if_large b in
      record split { buffer = split.buffer ++ write_record_start n_columns }

  module _ (g : Groonga) where
    -- A row: its start, its columns, and `PGrnWALInsertFinishCustom`, which does nothing here.
    unfoldable pub insert_row : List Column → Bulk → Result Bulk
    unfolding insert_start write_columns
    insert_row columns b =
        let started = insert_start (length columns) b in
        and_then (write_columns g columns)
          (λ bs. ok (record started { buffer = started.buffer ++ bs }))

    unfoldable pub insert_rows : List (List Column) → Bulk → Result Bulk
    unfolding insert_row
    insert_rows [] b = ok b
    insert_rows (columns ∷ rows) b = and_then (insert_row columns b) (λ b'. insert_rows rows b')

    -- The records of a whole bulk insertion.
    unfoldable pub bulk_insert : List (List Column) → Result (List Bytes)
    unfolding bulk_insert_start insert_rows write_finish
    bulk_insert rows =
        and_then (insert_rows rows (bulk_insert_start (record { buffer = []; records = [] })))
          (λ b. ok (write_finish b).records)
