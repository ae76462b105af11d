-- ===== src/Tests/Bulk.antt =====
-- A bulk insertion of three rows with a limit that every row exceeds.
use pgroonga.Base.{◌+◌, ◌≤◌, ◌≡◌, refl, Bytes, codes, List, All, [], ◌∷◌, length, arith}
use pgroonga.Wal.Raw.{ok, u32}
use pgroonga.Wal.Tuple.{Column, write_column_start, write_column_key}
use pgroonga.Wal.Value.{write_value, write_layout}
use pgroonga.Wal.Record.BulkInsert.{write_start}
use pgroonga.Wal.Bulk.{bulk_insert}
use pgroonga.Wal.Bulk.Laws.{AreRead, all_rows, bulk_insert-read_all}
use pgroonga.Wal.Bulk.Bounds.{bulk_insert-IsShort}
use pgroonga.Tests.Wal.{groonga, database, row, row-IsColumn}

three_records :
    (elim (bulk_insert 40 database (codes "T") groonga (row ∷ row ∷ row ∷ [])) [
      | ok rs ↦ length rs
      | _ ↦ 0
    ])
    ≡ 3
unfolding bulk_insert write_value write_start u32
three_records = refl

bulk_insert-read_all_example :
    (records : List Bytes) × (groups : List (List (List Column))) × (bulk_insert 40 database
        (codes "T")
        groonga
        (row ∷ row ∷ row ∷ [])
      ≡ ok records)
    × (all_rows groups ≡ row ∷ row ∷ row ∷ [])
    × AreRead groonga database (codes "T") 40 records groups
bulk_insert-read_all_example =
    bulk_insert-read_all groonga database (codes "T") 40 (row ∷ row ∷ row ∷ []) (omega arith)
      (omega arith)
      (
        (omega arith, row-IsColumn),
        ((omega arith, row-IsColumn), ((omega arith, row-IsColumn), tt)),
      )

bulk_insert-IsShort_example :
    (records : List Bytes) × (bulk_insert 40 database (codes "T") groonga (row ∷ []) ≡ ok records)
    × All (λ r. length r ≤ 40 + 200) records
unfolding write_start u32 write_column_start write_column_key write_layout
bulk_insert-IsShort_example =
    bulk_insert-IsShort groonga database (codes "T") 40 200 (row ∷ []) (omega arith) (omega arith)
      (((omega arith, row-IsColumn), omega arith), tt)
