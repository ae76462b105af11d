-- ===== src/Wal/Redo/Execute/Bulk.antt =====
-- The record of several inserted rows beside the records of the single rows.
use pgroonga.Base.{
  ℕ, zero, suc, ◌+◌, ◌<◌, ◌≡◌, refl, sym, ap, ◌∙◌, Bool, true, false, Bytes, codes, List, [], ◌∷◌,
  map, bytes_eq, if◌then◌else◌, Option, none, some,
}
use pgroonga.Wal.Raw.{ok}
use pgroonga.Wal.Value.{Groonga}
use pgroonga.Wal.Tuple.{Column, Tuple}
use pgroonga.Wal.Tuple.RoundTrip.{tuple_of}
use pgroonga.Wal.Record.{Common}
use pgroonga.Wal.Record.Insert
use pgroonga.Wal.Record.Insert.{Insert}
use pgroonga.Wal.Record.BulkInsert.{BulkInsert}
use pgroonga.Wal.Record.BulkInsert.Laws.{head_of}
use pgroonga.Wal.Redo.{Redo, insert, bulk_insert, info_of, write, redo}
use pgroonga.Wal.Redo.Codec.{IsFilled}
use pgroonga.Wal.Redo.Laws.{redo-write}
use pgroonga.Wal.Redo.Calls.{Calls, ColumnValue, ◌>>=◌}
use pgroonga.Wal.Redo.Execute.{
  get_or, value_at, set_column, set_columns, redo_insert_tuple, redo_insert, redo_tuples,
  redo_bulk_insert, execute,
}

-- The record of one of the rows.
abbrev pub insert_of : BulkInsert → Tuple → Insert
insert_of r t = record {
  common = r.common;
  table_name = r.table_name;
  table_name_size = r.table_name_size;
  tuple = t;
}

module _ {D O C : Type 0} (calls : Calls D O C) where
  -- The records one after the other, on one database.
  unfoldable pub execute_all : List Redo → D → Option D
  execute_all [] d = some d
  execute_all (r ∷ rs) d = do d' ← execute calls r d; execute_all rs d'

  -- Names stand for the same objects after the call.
  abbrev pub KeepsNames : D → Option D → Type 0
  KeepsNames d none = Unit
  KeepsNames d (some d') = (name : Bytes) → calls.lookup d' name ≡ calls.lookup d name

  abbrev pub changed_of : Option (ℕ × D) → Option D
  changed_of none = none
  changed_of (some (id, d)) = some d

  KeepsNames-after :
      (d d' : D) (o : Option D)
      → ((name : Bytes) → calls.lookup d' name ≡ calls.lookup d name)
      → KeepsNames d' o
      → KeepsNames d o
  KeepsNames-after d d' none k l = tt
  KeepsNames-after d d' (some d'') k l = λ name. l name ∙ k name

  KeepsNames-bind :
      (d : D) (o : Option D) (f : D → Option D)
      → KeepsNames d o
      → ((d' : D) → KeepsNames d' (f d'))
      → KeepsNames d (o >>= f)
  KeepsNames-bind d none f k l = tt
  KeepsNames-bind d (some d') f k l = KeepsNames-after d d' (f d') k (l d')

  KeepsNames-if :
      (d : D) (b : Bool) (x y : Option D)
      → KeepsNames d x
      → KeepsNames d y
      → KeepsNames d (if b then x else y)
  KeepsNames-if d true x y k l = k
  KeepsNames-if d false x y k l = l

  KeepsNames-added :
      (d : D) (o : Option (ℕ × D)) (f : ℕ × D → Option D)
      → KeepsNames d (changed_of o)
      → ((added : ℕ × D) → KeepsNames added.1 (f added))
      → KeepsNames d (o >>= f)
  KeepsNames-added d none f k l = tt
  KeepsNames-added d (some (id, d')) f k l = KeepsNames-after d d' (f (id, d')) k (l (id, d'))

module _ {D O C : Type 0} (calls : Calls D O C)
    (adds : (table : O) (key : Option Bytes) (d : D)
      → KeepsNames calls d (changed_of calls (calls.add_record table key d)))
    (sets : (column : C) (id : ℕ) (value : ColumnValue) (d : D)
      → KeepsNames calls d (calls.set_value column id value d)) where
  set_columns-KeepsNames :
      (table : O) (t : Tuple) (id n i : ℕ) (d : D)
      → KeepsNames calls d (set_columns calls table t id n i d)
  unfolding set_columns set_column
  set_columns-KeepsNames table t id zero i d = λ name. refl
  set_columns-KeepsNames table t id (suc n) i d =
      KeepsNames-bind calls d
        (set_column calls table id (get_or [] t.column_names i) (value_at t i) d)
        (set_columns calls table t id n (i + 1))
        (one (calls.lookup_column d table (get_or [] t.column_names i)))
        (λ d'. set_columns-KeepsNames table t id n (i + 1) d')
    where
      one :
          (o : Option C)
          → KeepsNames calls d (o >>= λ column. calls.set_value column id (value_at t i) d)
      one none = tt
      one (some column) = sets column id (value_at t i) d

  redo_insert_tuple-KeepsNames :
      (table : O) (t : Tuple) (n : ℕ) (d : D)
      → KeepsNames calls d (redo_insert_tuple calls table t n d)
  unfolding redo_insert_tuple
  redo_insert_tuple-KeepsNames table t zero d = λ name. refl
  redo_insert_tuple-KeepsNames table t (suc n) d =
      KeepsNames-if calls d (bytes_eq (get_or [] t.column_names 0) (codes "_key"))
        (calls.add_record table (some (get_or (0, []) t.column_values 0).1) d >>= λ added.
          set_columns calls table t added.0 n 1 added.1)
        (calls.add_record table none d >>= λ added.
          set_columns calls table t added.0 (suc n) 0 added.1)
        (KeepsNames-added calls d
          (calls.add_record table (some (get_or (0, []) t.column_values 0).1) d)
          (λ added. set_columns calls table t added.0 n 1 added.1)
          (adds table (some (get_or (0, []) t.column_values 0).1) d)
          (λ added. set_columns-KeepsNames table t added.0 n 1 added.1))
        (KeepsNames-added calls d (calls.add_record table none d)
          (λ added. set_columns calls table t added.0 (suc n) 0 added.1) (adds table none d)
          (λ added. set_columns-KeepsNames table t added.0 (suc n) 0 added.1))

  redo_tuples-execute_all :
      (r : BulkInsert) (table : O) (ts : List Tuple) (d : D)
      → calls.lookup d r.table_name ≡ some table
      → redo_tuples calls table ts d ≡ execute_all calls (map (λ t. insert (insert_of r t)) ts) d
  unfolding redo_tuples execute_all execute redo_insert
  redo_tuples-execute_all r table [] d h = refl
  redo_tuples-execute_all r table (t ∷ ts) d h =
      go (redo_insert_tuple calls table t t.n_columns d)
        (redo_insert_tuple-KeepsNames table t t.n_columns d)
        (λ d' h'. redo_tuples-execute_all r table ts d' h')
      ∙ sym (
          ap
            (λ o.
              (o >>= λ found. redo_insert_tuple calls found t t.n_columns d)
              >>= execute_all calls (map (λ u. insert (insert_of r u)) ts))
            h)
    where
      go :
          (o : Option D)
          → KeepsNames calls d o
          → ((d' : D)
              → calls.lookup d' r.table_name ≡ some table
              → redo_tuples calls table ts d'
                ≡ execute_all calls (map (λ u. insert (insert_of r u)) ts) d')
          → (o >>= redo_tuples calls table ts)
            ≡ (o >>= execute_all calls (map (λ u. insert (insert_of r u)) ts))
      go none k rest = refl
      go (some d') k rest = rest d' (k r.table_name ∙ h)

execute-tuples :
    {D O C : Type 0} (calls : Calls D O C)
    → ((table : O) (key : Option Bytes) (d : D)
        → KeepsNames calls d (changed_of calls (calls.add_record table key d)))
    → ((column : C) (id : ℕ) (value : ColumnValue) (d : D)
        → KeepsNames calls d (calls.set_value column id value d))
    → (r : BulkInsert) (table : O) (ts : List Tuple) (d : D)
    → calls.lookup d r.table_name ≡ some table
    → execute calls (bulk_insert r (some ts)) d
      ≡ execute_all calls (map (λ t. insert (insert_of r t)) ts) d
unfolding execute redo_bulk_insert
execute-tuples calls adds sets r table ts d h =
    ap (λ o. o >>= λ found. redo_tuples calls found ts d) h
    ∙ redo_tuples-execute_all calls adds sets r table ts d h

-- What the records of the single rows are read as.
abbrev pub inserts_of : Groonga → Common → Bytes → List (List Column) → List Redo
inserts_of g c name [] = []
inserts_of g c name (columns ∷ rows) =
    insert (Insert.as_read g c name columns) ∷ inserts_of g c name rows

inserts_of-map :
    (g : Groonga) (c : Common) (name : Bytes) (rows : List (List Column))
    → map (λ t. insert (insert_of (head_of c name) t)) (map (tuple_of g) rows)
      ≡ inserts_of g c name rows
unfolding Insert.as_read
inserts_of-map g c name [] = refl
inserts_of-map g c name (columns ∷ rows) =
    ap (λ rs. insert (Insert.as_read g c name columns) ∷ rs) (inserts_of-map g c name rows)

-- The record of several rows that is filled as its kind wants is written, and a standby that redoes its bytes
-- does what redoing the records of the single rows, as those are read, does, in the rows' order and errors
-- included, though all rows are read into the same buffers. Adding a record and setting a value leave the names of
-- a database as they are, and the table of the record is there.
pub execute-bulk_insert :
    {D O C : Type 0} (calls : Calls D O C)
    → ((table : O) (key : Option Bytes) (d : D)
        → KeepsNames calls d (changed_of calls (calls.add_record table key d)))
    → ((column : C) (id : ℕ) (value : ColumnValue) (d : D)
        → KeepsNames calls d (calls.set_value column id value d))
    → (g : Groonga) (source_name : ℕ → Option Bytes) (c : Common) (name : Bytes)
      (rows : List (List Column)) (padding : Bytes) (low : ℕ) (table : O) (d : D)
    → low < 16
    → IsFilled g source_name (bulk_insert c name rows) padding
    → calls.lookup d name ≡ some table
    → (bs : Bytes) × (r : Redo) × (write g source_name (bulk_insert c name rows) padding ≡ ok bs)
      × (redo g true (info_of bulk_insert + low) bs ≡ ok (some r, []))
      × (execute calls r d ≡ execute_all calls (inserts_of g c name rows) d)
execute-bulk_insert calls adds sets g source_name c name rows padding low table d l filled h =
    let (bs, written, read, code) =
      redo-write g source_name (bulk_insert c name rows) padding low l filled in
    (
      bs,
      bulk_insert (head_of c name) (some (map (tuple_of g) rows)),
      written,
      read,
      execute-tuples calls adds sets (head_of c name) table (map (tuple_of g) rows) d h
          ∙ ap (λ rs. execute_all calls rs d) (inserts_of-map g c name rows),
    )
