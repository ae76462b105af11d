-- ===== src/Wal/Generic/Objects.antt =====
-- The objects that the calls of a record describe.
use pgroonga.Base.{
  ℕ, suc, ◌≡◌, refl, ap, Bytes, codes, List, [], ◌∷◌, map, length, Option, none, some, append-nil,
}
use pgroonga.Wal.Msgpack
use pgroonga.Wal.Msgpack.{
  Msg, Items, Fields, Call, nil, positive_integer, str, bin, array, no_items, item, no_fields,
  field, items, fields, calls, item_calls, field_calls,
}
use pgroonga.Wal.Object.{GrnObj, text_of}
use pgroonga.Wal.Generic.{
  Action, number_of, pack_grn_obj, named_object, write_create_table, write_create_column,
  write_set_sources,
}

abbrev pub grn_obj_msg : Option GrnObj → Msg
grn_obj_msg none = nil
grn_obj_msg (some object) = str (text_of object)

calls-grn_obj_msg : (o : Option GrnObj) → calls (grn_obj_msg o) ≡ pack_grn_obj o ∷ []
unfolding calls pack_grn_obj
calls-grn_obj_msg none = refl
calls-grn_obj_msg (some object) = refl

abbrev pub action_map : Action → Fields → Msg
action_map action fs =
    Msgpack.map (field (str (codes "_action")) (positive_integer (number_of action)) fs)

module _ {O : Type 0} (name_of : O → Bytes) where
  abbrev pub object_msg : Option O → Msg
  object_msg o = grn_obj_msg (named_object name_of o)

  abbrev pub create_table_msg :
      Bytes → ℕ → Option O → Option GrnObj → Option GrnObj → Option GrnObj → Msg
  create_table_msg name flags type tokenizer normalizers token_filters =
      action_map Action.create_table (
        field (str (codes "name")) (str name) (
          field (str (codes "flags")) (positive_integer flags) (
            field (str (codes "type")) (object_msg type) (
              field (str (codes "tokenizer")) (grn_obj_msg tokenizer) (
                field (str (codes "normalizers")) (grn_obj_msg normalizers)
                  (field (str (codes "token_filters")) (grn_obj_msg token_filters) no_fields))))))

  pub calls-create_table_msg :
      (name : Bytes) (flags : ℕ) (type : Option O)
      (tokenizer normalizers token_filters : Option GrnObj)
      → calls (create_table_msg name flags type tokenizer normalizers token_filters)
        ≡ write_create_table name_of name flags type tokenizer normalizers token_filters
  unfolding calls write_create_table
  calls-create_table_msg name flags type tokenizer normalizers token_filters =
      simp calls-grn_obj_msg

  abbrev pub create_column_msg : Option O → Bytes → ℕ → Option O → Msg
  create_column_msg table name flags type = action_map Action.create_column (
      field (str (codes "table")) (object_msg table) (
        field (str (codes "name")) (str name) (
          field (str (codes "flags")) (positive_integer flags)
            (field (str (codes "type")) (object_msg type) no_fields))))

  pub calls-create_column_msg :
      (table : Option O) (name : Bytes) (flags : ℕ) (type : Option O)
      → calls (create_column_msg table name flags type)
        ≡ write_create_column name_of table name flags type
  unfolding calls write_create_column
  calls-create_column_msg table name flags type = simp calls-grn_obj_msg

  abbrev pub source_items : List (Option O) → Items
  source_items [] = no_items
  source_items (source ∷ sources) = item (object_msg source) (source_items sources)

  item_calls-source_items :
      (sources : List (Option O))
      → item_calls (source_items sources)
        ≡ map (λ source. pack_grn_obj (named_object name_of source)) sources
  unfolding calls
  item_calls-source_items [] = refl
  item_calls-source_items (source ∷ sources) =
      simp (calls-grn_obj_msg, item_calls-source_items sources)

  items-source_items : (sources : List (Option O)) → items (source_items sources) ≡ length sources
  items-source_items [] = refl
  items-source_items (source ∷ sources) = ap suc (items-source_items sources)

  abbrev pub set_sources_msg : Option O → List (Option O) → Msg
  set_sources_msg indexed sources = action_map Action.set_sources (
      field (str (codes "column")) (object_msg indexed)
        (field (str (codes "sources")) (array (source_items sources)) no_fields))

  pub calls-set_sources_msg :
      (indexed : Option O) (sources : List (Option O))
      → calls (set_sources_msg indexed sources) ≡ write_set_sources name_of indexed sources
  unfolding calls write_set_sources
  calls-set_sources_msg indexed sources =
      simp
        (calls-grn_obj_msg, item_calls-source_items sources, items-source_items sources, append-nil)

  abbrev pub rename_table_msg : Bytes → Bytes → Msg
  rename_table_msg name new_name = action_map Action.rename_table (
      field (str (codes "name")) (str name)
        (field (str (codes "new_name")) (str new_name) no_fields))

  abbrev pub delete_msg : O → Bytes → Msg
  delete_msg table k = action_map Action.delete (
      field (str (codes "table")) (object_msg (some table))
        (field (str (codes "key")) (bin k) no_fields))

  abbrev pub name_msg : Action → Bytes → Msg
  name_msg action name = action_map action (field (str (codes "name")) (str name) no_fields)
