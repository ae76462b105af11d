-- ===== src/Wal/Decode/Laws.antt =====
-- The actions of the applier undo the writers of the records.
use native.Mathlib.Nat.{mod-eq_of_lt}
use pgroonga.Base.{
  ℕ, ◌^◌, ◌<◌, ◌≡◌, refl, ap, ◌∙◌, Bytes, codes, List, All, [], ◌∷◌, ◌++◌, Option, none, some,
  append-nil, append_assoc, Bool, true, false, take, from_le, if◌then◌else◌,
}
use pgroonga.Wal.Msgpack.{no_fields, field, str, bin, array, positive_integer}
use pgroonga.Wal.Object.{GrnObj, loaded}
use pgroonga.Wal.Generic.Objects.{grn_obj_msg, object_msg, source_items}
use pgroonga.Wal.Decode.{
  ok, get_object, get_table_module, get_table_modules, get_ids, get_object_ids, each_field, Standby,
  key_equal, get_string, get_positive_integer, get_binary,
}
use pgroonga.Wal.Decode.Actions.{
  Command, create_table, create_column, set_sources, rename_table, delete, delete_by_ctid,
  register_plugin, removal, apply_create_table, apply_create_column, apply_set_sources,
  apply_rename_table, apply_delete, apply_remove_object, apply_register_plugin,
}

get_table_module-msg : (o : Option GrnObj) → get_table_module (grn_obj_msg o) ≡ ok (loaded o)
unfolding get_table_module
get_table_module-msg none = refl
get_table_module-msg (some object) = refl

get_table_modules-msg : (o : Option GrnObj) → get_table_modules (grn_obj_msg o) ≡ ok (loaded o)
unfolding get_table_modules
get_table_modules-msg none = refl
get_table_modules-msg (some object) = refl

module _ {O C : Type 0} (s : Standby O C) (name_of : O → Bytes) where
  -- The standby finds an object under its name.
  abbrev pub IsKnown : Option O → Type 0
  IsKnown none = Unit
  IsKnown (some o) = s.lookup (name_of o) ≡ some o

  pub get_object-msg : (o : Option O) → IsKnown o → get_object s (object_msg name_of o) ≡ ok o
  unfolding get_object
  get_object-msg none h = refl
  get_object-msg (some o) h = rw h refl

  pub apply_create_table_lem :
      (name : Bytes) (flags : ℕ) (type : Option O)
      (tokenizer normalizers token_filters : Option GrnObj)
      → flags < 2 ^ 32
      → IsKnown type
      → apply_create_table s (
          field (str (codes "name")) (str name) (
            field (str (codes "flags")) (positive_integer flags) (
              field (str (codes "type")) (object_msg name_of type) (
                field (str (codes "tokenizer")) (grn_obj_msg tokenizer) (
                  field
                    (str (codes "normalizers"))
                    (grn_obj_msg normalizers)
                    (field (str (codes "token_filters")) (grn_obj_msg token_filters) no_fields))))))
        ≡ ok (
            create_table
              (some name)
              flags
              type
              (loaded tokenizer)
              (loaded normalizers)
              (loaded token_filters))
  unfolding apply_create_table each_field key_equal get_string get_positive_integer
  apply_create_table_lem name flags type tokenizer normalizers token_filters small known =
      simp
        (get_object-msg type known, get_table_module-msg, get_table_modules-msg, mod-eq_of_lt small)

  pub apply_create_column_lem :
      (table : Option O) (name : Bytes) (flags : ℕ) (type : Option O)
      → flags < 2 ^ 32
      → IsKnown table
      → IsKnown type
      → apply_create_column s (
          field (str (codes "table")) (object_msg name_of table) (
            field (str (codes "name")) (str name) (
              field
                (str (codes "flags"))
                (positive_integer flags)
                (field (str (codes "type")) (object_msg name_of type) no_fields))))
        ≡ ok (create_column table (some name) flags type)
  unfolding apply_create_column each_field key_equal get_string get_positive_integer
  apply_create_column_lem table name flags type small known_table known_type =
      simp (get_object-msg table known_table, get_object-msg type known_type, mod-eq_of_lt small)

  abbrev pub sources_of : List O → List (Option O)
  sources_of [] = []
  sources_of (o ∷ os) = some o ∷ sources_of os

  get_ids-msg :
      (ids os : List O)
      → All (λ o. s.lookup (name_of o) ≡ some o) os
      → get_ids s ids (source_items name_of (sources_of os)) ≡ ok (ids ++ os)
  unfolding get_ids
  get_ids-msg ids [] all = simp append-nil
  get_ids-msg ids (o ∷ os) (known, all) =
      rw known (get_ids-msg (ids ++ o ∷ []) os all ∙ ap ok (append_assoc ids (o ∷ []) os))

  pub apply_set_sources_lem :
      (indexed : Option O) (os : List O)
      → IsKnown indexed
      → All (λ o. s.lookup (name_of o) ≡ some o) os
      → apply_set_sources s (
          field (str (codes "column")) (object_msg name_of indexed) (
            field (str (codes "sources")) (array (source_items name_of (sources_of os))) no_fields))
        ≡ ok (set_sources indexed os)
  unfolding apply_set_sources each_field key_equal get_object_ids
  apply_set_sources_lem indexed os known all =
      simp (get_object-msg indexed known, get_ids-msg [] os all)

  pub apply_rename_table_lem :
      (name : Bytes) (o : O) (new_name : Bytes)
      → s.lookup name ≡ some o
      → apply_rename_table s (
          field
            (str (codes "name"))
            (str name)
            (field (str (codes "new_name")) (str new_name) no_fields))
        ≡ ok (rename_table (some o) (some new_name))
  unfolding apply_rename_table each_field key_equal get_string get_object
  apply_rename_table_lem name o new_name known = rw known refl

  -- The row is found by its key, or by its ctid where the table has no keys.
  abbrev pub deletion_of : O → Bytes → Command O
  deletion_of table k =
      if s.is_no_key table then delete_by_ctid table (from_le (take 8 k)) else delete table (some k)

  pub apply_delete_lem :
      (table : O) (k : Bytes)
      → s.lookup (name_of table) ≡ some table
      → apply_delete s (
          field
            (str (codes "table"))
            (object_msg name_of (some table))
            (field (str (codes "key")) (bin k) no_fields))
        ≡ ok (deletion_of table k)
  unfolding apply_delete each_field key_equal get_binary
  apply_delete_lem table k known =
      simp (get_object-msg (some table) known) (by_kind (s.is_no_key table))
    where
      by_kind :
          (b : Bool)
          → (if b
              then ok (delete_by_ctid table (from_le (take 8 k)))
              else ok (delete table (some k)))
            ≡ ok (if b then delete_by_ctid table (from_le (take 8 k)) else delete table (some k))
      by_kind true = refl
      by_kind false = refl

  pub apply_remove_object_lem :
      (name : Bytes)
      → apply_remove_object s (field (str (codes "name")) (str name) no_fields)
        ≡ ok (removal s (s.lookup name))
  unfolding apply_remove_object each_field key_equal get_string
  apply_remove_object_lem name = refl

  pub apply_register_plugin_lem :
      (name : Bytes)
      → apply_register_plugin s (field (str (codes "name")) (str name) no_fields)
        ≡ ok (register_plugin (some name))
  unfolding apply_register_plugin each_field key_equal get_string
  apply_register_plugin_lem name = refl
