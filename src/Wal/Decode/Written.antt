-- ===== src/Wal/Decode/Written.antt =====
-- The applier makes of each record the change that the record was written for: the writers of src/pgrn-wal.c against
-- `PGrnWALApplyObject`.
use pgroonga.Base.{ℕ, ◌<◌, ◌^◌, ◌≡◌, Bytes, List, All, Option, some}
use pgroonga.Wal.Object.{GrnObj, loaded}
use pgroonga.Wal.Value.{Groonga}
use pgroonga.Wal.Tuple.{Value}
use pgroonga.Wal.Generic.{Operation}
use pgroonga.Wal.Decode.{ok, Standby}
use pgroonga.Wal.Decode.Actions.{
  create_table, create_column, set_sources, rename_table, register_plugin, removal,
}
use pgroonga.Wal.Decode.Insert.{insert_table}
use pgroonga.Wal.Decode.Object.{Change, inserted, changed}
use pgroonga.Wal.Decode.Laws.{IsKnown, sources_of, deletion_of}
use pgroonga.Wal.Decode.Inserted.{IsPlain, row_columns}
use pgroonga.Wal.Decode.Rows.{IsColumnOf, stored_row}

module _ (g : Groonga) (element_size : ℕ → ℕ) {O C : Type 0} (s : Standby O C) (name_of : O → Bytes)
    (column_name_of : C → Bytes) where
  -- The change that each operation is recorded for, where the standby knows the objects by their names.
  pub data Means : Operation O → Change O C → Type 0 where
    insert_row :
        (table : Option O) (target : O) (k : Option Bytes) (row : List (C × Value))
        → IsKnown s name_of table
        → insert_table g s table ≡ ok target
        → All (λ c. IsPlain (column_name_of c.0)) row
        → All (IsColumnOf g element_size s column_name_of target) row
        → Means
            (Operation.insert table (row_columns column_name_of k row))
            (inserted (target, k, stored_row g element_size s row))
    make_table :
        (name : Bytes) (flags : ℕ) (type : Option O)
        (tokenizer normalizers token_filters : Option GrnObj)
        → flags < 2 ^ 32
        → IsKnown s name_of type
        → Means (Operation.create_table name flags type tokenizer normalizers token_filters) (
            changed (
              create_table
                (some name)
                flags
                type
                (loaded tokenizer)
                (loaded normalizers)
                (loaded token_filters)))
    make_column :
        (table : Option O) (name : Bytes) (flags : ℕ) (type : Option O)
        → flags < 2 ^ 32
        → IsKnown s name_of table
        → IsKnown s name_of type
        → Means
            (Operation.create_column table name flags type)
            (changed (create_column table (some name) flags type))
    put_sources :
        (indexed : Option O) (sources : List O)
        → IsKnown s name_of indexed
        → All (λ o. s.lookup (name_of o) ≡ some o) sources
        → Means
            (Operation.set_sources indexed (sources_of s name_of sources))
            (changed (set_sources indexed sources))
    rename :
        (name : Bytes) (table : O) (new_name : Bytes)
        → s.lookup name ≡ some table
        → Means
            (Operation.rename_table name new_name)
            (changed (rename_table (some table) (some new_name)))
    delete_row :
        (table : O) (k : Bytes)
        → s.lookup (name_of table) ≡ some table
        → Means (Operation.delete table k) (changed (deletion_of s name_of table k))
    remove :
        (name : Bytes) → Means (Operation.remove_object name) (changed (removal s (s.lookup name)))
    load_plugin :
        (name : Bytes)
        → Means (Operation.register_plugin name) (changed (register_plugin (some name)))
