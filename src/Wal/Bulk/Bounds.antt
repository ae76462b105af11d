-- ===== src/Wal/Bulk/Bounds.antt =====
-- With a limit, a record of a bulk insertion is at most one row larger than the limit.
use pgroonga.Base.{
  ℕ, ◌+◌, ◌<◌, ◌≤◌, ◌≡◌, refl, false, Bool-cases, inl, inr, Bytes, List, All, [], ◌∷◌, ◌++◌, length,
  length-append, ltb, lt→ltb, arith,
}
use pgroonga.Wal.Raw.{ok, u32}
use pgroonga.Wal.Record.{Common}
use pgroonga.Wal.Value.{Groonga}
use pgroonga.Wal.Tuple.{Column}
use pgroonga.Wal.Tuple.RoundTrip.{columns_bytes, write_columns-eq-ok}
use pgroonga.Wal.Record.BulkInsert.{write_start, write_record_start}
use pgroonga.Wal.Record.BulkInsert.Laws.{IsRow, row_bytes}
use pgroonga.Wal.Bulk.{
  Bulk, split_if_large, insert_start, insert_row, insert_rows, bulk_insert, write_finish,
  bulk_insert_start,
}

module _ (g : Groonga) (c : Common) (table_name : Bytes) (max_size : ℕ) (m : ℕ) where
  abbrev IsShort : Bytes → Type 0
  IsShort r = length r ≤ max_size + m

  All-snoc : (rs : List Bytes) (r : Bytes) → All IsShort rs → IsShort r → All IsShort (rs ++ r ∷ [])
  All-snoc [] r all short = (short, tt)
  All-snoc (x ∷ rs) r (p, all) short = (p, All-snoc rs r all short)

  abbrev AreShort : Bulk → Type 0
  AreShort b = All IsShort b.records × IsShort b.buffer

  -- What the check leaves: a buffer that is within the limit.
  abbrev HasRoom : Bulk → Type 0
  HasRoom b = All IsShort b.records × (length b.buffer ≤ max_size)

  split_if_large-HasRoom :
      (b : Bulk)
      → 0 < max_size
      → length (write_start c table_name) ≤ max_size
      → AreShort b
      → HasRoom (split_if_large max_size c table_name b)
  unfolding split_if_large write_finish bulk_insert_start
  split_if_large-HasRoom b pos head (all, short) =
      elim (Bool-cases (ltb max_size (length b.buffer))) [
        | inl large ↦
            rw (lt→ltb 0 max_size pos, large) (All-snoc b.records b.buffer all short, head)
        | inr small ↦ rw (lt→ltb 0 max_size pos, small) (all, not_large (length b.buffer) small)
      ]
    where
      not_large : (n : ℕ) → ltb max_size n ≡ false → n ≤ max_size
      not_large n h = ground arith

  -- A row that is no longer than `m`.
  abbrev pub IsShortRow : List Column → Type 0
  IsShortRow cs = IsRow g cs × (length (row_bytes g cs) ≤ m)

  insert_row-AreShort :
      (cs : List Column) (b : Bulk)
      → 0 < max_size
      → length (write_start c table_name) ≤ max_size
      → IsShortRow cs
      → AreShort b
      → (b' : Bulk) × (insert_row max_size c table_name g cs b ≡ ok b') × AreShort b'
  unfolding insert_row insert_start write_record_start
  insert_row-AreShort cs b pos head (valid, short) are =
      let split = split_if_large max_size c table_name b in
      let room = split_if_large-HasRoom b pos head are in
      (
        record split { buffer = (split.buffer ++ u32 (length cs)) ++ columns_bytes g cs },
        rw (write_columns-eq-ok g cs valid.1) refl,
        (
          room.0,
          omega (
            arith,
            room.1,
            short,
            length-append (split.buffer ++ u32 (length cs)) (columns_bytes g cs),
            length-append split.buffer (u32 (length cs)),
            length-append (u32 (length cs)) (columns_bytes g cs),
          ),
        ),
      )

  insert_rows-AreShort :
      (rows : List (List Column)) (b : Bulk)
      → 0 < max_size
      → length (write_start c table_name) ≤ max_size
      → All IsShortRow rows
      → AreShort b
      → (b' : Bulk) × (insert_rows max_size c table_name g rows b ≡ ok b') × AreShort b'
  unfolding insert_rows
  insert_rows-AreShort [] b pos head all are = (b, refl, are)
  insert_rows-AreShort (cs ∷ rows) b pos head (short, all) are =
      let one = insert_row-AreShort cs b pos head short are in
      let others = insert_rows-AreShort rows one.0 pos head all one.2 in
      (others.0, rw one.1 others.1, others.2)

  -- With a limit that the head of a record keeps, no record of a bulk insertion is longer than the limit
  -- and the longest row together, for rows that are valid and no longer than `m`.
  pub bulk_insert-IsShort :
      (rows : List (List Column))
      → 0 < max_size
      → length (write_start c table_name) ≤ max_size
      → All IsShortRow rows
      → (records : List Bytes) × (bulk_insert max_size c table_name g rows ≡ ok records)
        × All (λ r. length r ≤ max_size + m) records
  unfolding bulk_insert bulk_insert_start write_finish
  bulk_insert-IsShort rows pos head all =
      let done =
        insert_rows-AreShort rows (record { buffer = write_start c table_name; records = [] }) pos
          head all (tt, omega (arith, head)) in
      (
        done.0.records ++ done.0.buffer ∷ [],
        rw done.1 refl,
        All-snoc done.0.records done.0.buffer done.2.0 done.2.1,
      )
