-- ===== src/Wal/Decode/Actions.antt =====
-- The actions of the generic WAL but an insertion: `PGrnWALApplyCreateTable` to `PGrnWALApplyRegisterPlugin` of
-- src/pgrn-wal.c. Each goes through the rest of the map; a key that it does not know is passed over.
use pgroonga.Base.{
  ℕ, ◌%◌, ◌^◌, Bytes, codes, List, [], take, from_le, if◌then◌else◌, Option, none, some,
}
use pgroonga.Wal.Msgpack.{Msg, Fields}
use pgroonga.Wal.Decode.{
  Decoded, ok, failed, null_pointer, ◌>>=◌, on_key, get_positive_integer, get_string, get_binary,
  get_table_module, get_table_modules, Standby, get_object, get_object_ids, each_field,
}

-- The calls that change the database. A name or an object that the map did not hold is a null pointer.
pub data Command (O : Type 0) : Type 0 where
  create_table :
      (name : Option Bytes) (flags : ℕ) (type : Option O)
      (tokenizer normalizers token_filters : Option Bytes)
      → Command O
  create_column : Option O → Option Bytes → ℕ → Option O → Command O
  set_sources : Option O → List O → Command O
  rename_table : Option O → Option Bytes → Command O
  delete : O → Option Bytes → Command O
  delete_by_ctid : O → ℕ → Command O
  remove_object : O → Command O
  nothing_to_remove : Command O
  register_plugin : Option Bytes → Command O

module _ {O C : Type 0} (s : Standby O C) where
  -- The local variables of `PGrnWALApplyCreateTable`.
  pub record Table : Type 0 where
    pub name : Option Bytes
    pub flags : ℕ
    pub type : Option O
    pub tokenizer : Option Bytes
    pub normalizers : Option Bytes
    pub token_filters : Option Bytes

  -- `grn_table_flags` has 32 bits.
  unfoldable pub table_step : Table → Msg → Msg → Decoded Table
  table_step t k v =
      on_key k (codes "name") (get_string v >>= λ n. ok (record t { name = some n })) (
        on_key k (codes "flags")
          (get_positive_integer v >>= λ n. ok (record t { flags = n % 2 ^ 32 }))
          (on_key k (codes "type") (get_object s v >>= λ o. ok (record t { type = o })) (
            on_key k (codes "tokenizer")
              (get_table_module v >>= λ m. ok (record t { tokenizer = m }))
              (on_key k (codes "normalizer")
                (get_table_module v >>= λ m. ok (record t { normalizers = m }))
                (on_key k (codes "normalizers")
                  (get_table_module v >>= λ m. ok (record t { normalizers = m }))
                  (on_key k (codes "token_filters")
                    (get_table_modules v >>= λ m. ok (record t { token_filters = m })) (ok t)))))))

  unfoldable pub apply_create_table : Fields → Decoded (Command O)
  unfolding table_step
  apply_create_table fs =
      each_field table_step
        (record {
          name = none;
          flags = 0;
          type = none;
          tokenizer = none;
          normalizers = none;
          token_filters = none;
        })
        fs
      >>= λ t. ok (create_table t.name t.flags t.type t.tokenizer t.normalizers t.token_filters)

  pub record NewColumn : Type 0 where
    pub table : Option O
    pub name : Option Bytes
    pub flags : ℕ
    pub type : Option O

  unfoldable pub column_step : NewColumn → Msg → Msg → Decoded NewColumn
  column_step c k v =
      on_key k (codes "table") (get_object s v >>= λ o. ok (record c { table = o })) (
        on_key k (codes "name") (get_string v >>= λ n. ok (record c { name = some n })) (
          on_key k (codes "flags")
            (get_positive_integer v >>= λ n. ok (record c { flags = n % 2 ^ 32 }))
            (on_key k (codes "type") (get_object s v >>= λ o. ok (record c { type = o })) (ok c))))

  unfoldable pub apply_create_column : Fields → Decoded (Command O)
  unfolding column_step
  apply_create_column fs =
      each_field column_step (record { table = none; name = none; flags = 0; type = none }) fs
      >>= λ c. ok (create_column c.table c.name c.flags c.type)

  unfoldable pub sources_step : Option O × List O → Msg → Msg → Decoded (Option O × List O)
  sources_step (indexed, ids) k v =
      on_key k (codes "column") (get_object s v >>= λ o. ok (o, ids)) (
        on_key k (codes "sources") (get_object_ids s ids v >>= λ is. ok (indexed, is))
          (ok (indexed, ids)))

  unfoldable pub apply_set_sources : Fields → Decoded (Command O)
  unfolding sources_step
  apply_set_sources fs = each_field sources_step (none, []) fs >>= λ r. ok (set_sources r.0 r.1)

  unfoldable pub rename_step :
      Option O × Option Bytes → Msg → Msg → Decoded (Option O × Option Bytes)
  rename_step (table, new_name) k v =
      on_key k (codes "name") (get_object s v >>= λ o. ok (o, new_name)) (
        on_key k (codes "new_name") (get_string v >>= λ n. ok (table, some n))
          (ok (table, new_name)))

  unfoldable pub apply_rename_table : Fields → Decoded (Command O)
  unfolding rename_step
  apply_rename_table fs = each_field rename_step (none, none) fs >>= λ r. ok (rename_table r.0 r.1)

  unfoldable pub delete_step :
      Option O × Option Bytes → Msg → Msg → Decoded (Option O × Option Bytes)
  delete_step (table, key) k v =
      on_key k (codes "table") (get_object s v >>= λ o. ok (o, key))
        (on_key k (codes "key") (get_binary v >>= λ b. ok (table, some b)) (ok (table, key)))

  -- In a table without keys, the key is a packed ctid, and the row is found by its column `ctid`.
  unfoldable pub delete_row : Option O × Option Bytes → Decoded (Command O)
  delete_row (none, key) = failed null_pointer
  delete_row (some table, none) =
      if s.is_no_key table then failed null_pointer else ok (delete table none)
  delete_row (some table, some key) =
      if s.is_no_key table
      then ok (delete_by_ctid table (from_le (take 8 key)))
      else ok (delete table (some key))

  unfoldable pub apply_delete : Fields → Decoded (Command O)
  unfolding delete_step delete_row
  apply_delete fs = each_field delete_step (none, none) fs >>= λ r. delete_row r

  unfoldable pub name_step : Option Bytes → Msg → Msg → Decoded (Option Bytes)
  name_step name k v = on_key k (codes "name") (get_string v >>= λ n. ok (some n)) (ok name)

  -- What is not there is not removed, and is no error.
  unfoldable pub removal : Option O → Command O
  removal none = nothing_to_remove
  removal (some o) = remove_object o

  abbrev pub or_empty : Option Bytes → Bytes
  or_empty none = []
  or_empty (some name) = name

  unfoldable pub apply_remove_object : Fields → Decoded (Command O)
  unfolding name_step removal
  apply_remove_object fs =
      each_field name_step none fs >>= λ name. ok (removal (s.lookup (or_empty name)))

  unfoldable pub apply_register_plugin : Fields → Decoded (Command O)
  unfolding name_step
  apply_register_plugin fs = each_field name_step none fs >>= λ name. ok (register_plugin name)
