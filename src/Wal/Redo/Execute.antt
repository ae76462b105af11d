-- ===== src/Wal/Redo/Execute.antt =====
-- What each `pgrnwrm_redo_*` of src/pgroonga-wal-resource-manager.c does to the Groonga database with the record that it
-- has read. Flushing and touching a database change nothing that is seen here.
pub mod Bulk
use pgroonga.Base.{
  ℕ, zero, suc, ◌+◌, Bool, Bytes, codes, List, [], ◌∷◌, ◌++◌, take, bytes_eq, from_le, ◌==◌,
  if◌then◌else◌, Option, none, some,
}
use pgroonga.Wal.Tuple.{Tuple, VectorValue}
use pgroonga.Wal.Record.CreateTable.{CreateTable}
use pgroonga.Wal.Record.CreateColumn.{CreateColumn}
use pgroonga.Wal.Record.SetSources.{SetSources}
use pgroonga.Wal.Record.RenameTable.{RenameTable}
use pgroonga.Wal.Record.Insert.{Insert}
use pgroonga.Wal.Record.Delete.{Delete}
use pgroonga.Wal.Record.RemoveObject.{RemoveObject}
use pgroonga.Wal.Record.BulkInsert.{BulkInsert}
use pgroonga.Wal.Redo.Calls.{
  ColumnValue, bulk, vector, Calls, ◌>>=◌, text_or_empty, create_table_raw, create_column_raw,
  set_source_ids_raw,
}
use pgroonga.Wal.Redo.{
  Redo, create_table, create_column, set_sources, rename_table, insert, delete, remove_object,
  register_plugin, bulk_insert,
}

abbrev pub get_or {ℓ} : {A : Type ℓ} → A → List A → ℕ → A
get_or default [] i = default
get_or default (x ∷ xs) zero = x
get_or default (x ∷ xs) (suc i) = get_or default xs i

unfoldable pub find_vector : ℕ → List (ℕ × VectorValue) → Option VectorValue
find_vector i [] = none
find_vector i ((k, v) ∷ vectors) = if i == k then some v else find_vector i vectors

-- `grn_hash_get` of the vectors, and otherwise the element of the values.
unfoldable pub value_at : Tuple → ℕ → ColumnValue
unfolding find_vector
value_at t i = elim (find_vector i t.column_vector_values) [
  | some v ↦ vector v
  | none ↦ let value = get_or (0, []) t.column_values i in bulk value.0 value.1
]

module _ {D O C : Type 0} (calls : Calls D O C) where
  -- An empty text is no type.
  unfoldable pub lookup_type : Bytes → D → Option (Option O)
  lookup_type [] d = some none
  lookup_type (b ∷ bs) d = do o ← calls.lookup d (b ∷ bs); some (some o)

  unfoldable pub redo_create_table : CreateTable (Option Bytes) → D → Option D
  unfolding lookup_type create_table_raw
  redo_create_table r d = do
    type ← lookup_type (text_or_empty r.type) d
    d' ← calls.remove_dependent r.name d
    create_table_raw calls r.index_table_space_id r.name r.flags type (text_or_empty r.tokenizer)
        (text_or_empty r.normalizers) (text_or_empty r.token_filters) d'

  unfoldable pub redo_create_column : CreateColumn (Option Bytes) → D → Option D
  unfolding create_column_raw
  redo_create_column r d = do
    table ← calls.lookup d (text_or_empty r.table)
    type ← calls.lookup d (text_or_empty r.type)
    d' ← calls.remove (take 4095 (text_or_empty r.table ++ (codes "." ++ r.name))) d
    create_column_raw calls r.index_table_space_id table r.name r.flags type d'

  -- The ids of the sources, each looked up by its name.
  unfoldable pub lookup_all : List Bytes → D → Option (List ℕ)
  lookup_all [] d = some []
  lookup_all (name ∷ names) d = do
    o ← calls.lookup d name
    ids ← lookup_all names d
    some (calls.object_id d o ∷ ids)

  unfoldable pub redo_set_sources : SetSources (Option Bytes) → D → Option D
  unfolding lookup_all set_source_ids_raw
  redo_set_sources r d = do
    column ← calls.lookup d (text_or_empty r.column)
    sources ← lookup_all r.source_names d
    set_source_ids_raw calls column sources d

  unfoldable pub redo_rename_table : RenameTable → D → Option D
  redo_rename_table r d = do
    d' ← calls.remove_dependent r.new_name d
    table ← calls.lookup d' r.name
    calls.rename_table table r.new_name d'

  unfoldable pub set_column : O → ℕ → Bytes → ColumnValue → D → Option D
  set_column table id name value d = do
    column ← calls.lookup_column d table name
    calls.set_value column id value d

  -- The columns from the position `i` on, with the number of rounds left.
  unfoldable pub set_columns : O → Tuple → ℕ → ℕ → ℕ → D → Option D
  unfolding set_column value_at
  set_columns table t id zero i d = some d
  set_columns table t id (suc n) i d = do
    d' ← set_column table id (get_or [] t.column_names i) (value_at t i) d
    set_columns table t id n (i + 1) d'

  -- `pgrnwrm_redo_insert_tuple`: the first column may be the key.
  unfoldable pub redo_insert_tuple : O → Tuple → ℕ → D → Option D
  unfolding set_columns
  redo_insert_tuple table t zero d = some d
  redo_insert_tuple table t (suc n) d =
      if bytes_eq (get_or [] t.column_names 0) (codes "_key")
      then (calls.add_record table (some (get_or (0, []) t.column_values 0).1) d >>= λ added.
          set_columns table t added.0 n 1 added.1)
      else (calls.add_record table none d >>= λ added.
          set_columns table t added.0 (suc n) 0 added.1)

  unfoldable pub redo_insert : Insert → D → Option D
  unfolding redo_insert_tuple
  redo_insert r d = do
    table ← calls.lookup d r.table_name
    redo_insert_tuple table r.tuple r.tuple.n_columns d

  -- The loop over a table without a key, up to the first row with the ctid.
  unfoldable pub delete_ctid : O → ℕ → List ℕ → D → Option D
  delete_ctid table packed_ctid [] d = some d
  delete_ctid table packed_ctid (id ∷ ids) d =
      let rest = delete_ctid table packed_ctid ids d in
      if packed_ctid == calls.ctid d table id then calls.delete_id table id d else rest

  unfoldable pub redo_delete : Delete → D → Option D
  unfolding delete_ctid
  redo_delete r d = do
    table ← calls.lookup d r.table_name
    if calls.is_no_key d table
        then delete_ctid table (from_le (take 8 r.key)) (calls.rows d table) d
        else calls.delete_key table r.key d

  unfoldable pub redo_remove_object : RemoveObject → D → Option D
  redo_remove_object r d = elim (calls.lookup d r.name) [
    | none ↦ some d
    | some object ↦ calls.remove_object object d
  ]

  -- The rows as they were read, in turn. In the source a row is inserted before the next one is read; an error in
  -- either ends the redoing of the record.
  unfoldable pub redo_tuples : O → List Tuple → D → Option D
  unfolding redo_insert_tuple
  redo_tuples table [] d = some d
  redo_tuples table (t ∷ ts) d = do
    d' ← redo_insert_tuple table t t.n_columns d
    redo_tuples table ts d'

  unfoldable pub redo_bulk_insert : BulkInsert → Option (List Tuple) → D → Option D
  unfolding redo_tuples
  redo_bulk_insert r none d = none
  redo_bulk_insert r (some ts) d = do table ← calls.lookup d r.table_name; redo_tuples table ts d

  unfoldable pub execute : Redo → D → Option D
  unfolding redo_create_table redo_create_column redo_set_sources redo_rename_table redo_insert
      redo_delete redo_remove_object redo_bulk_insert
  execute (create_table r) d = redo_create_table r d
  execute (create_column r) d = redo_create_column r d
  execute (set_sources r) d = redo_set_sources r d
  execute (rename_table r) d = redo_rename_table r d
  execute (insert r) d = redo_insert r d
  execute (delete r) d = redo_delete r d
  execute (remove_object r) d = redo_remove_object r d
  execute (register_plugin r) d = calls.register_plugin r.name d
  execute (bulk_insert r ts) d = redo_bulk_insert r ts d
