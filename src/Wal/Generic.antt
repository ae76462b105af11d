-- ===== src/Wal/Generic.antt =====
-- The records of the generic WAL as calls of MessagePack's packer: the writers `PGrnWAL*General`,
-- `PGrnWAL*Generic` and `PGrnWALInsert*` of src/pgrn-wal.c. `O` stands for the objects of Groonga that have a name,
-- `name_of` for `grn_obj_name`; `element_size` is Groonga's `grn_uvector_element_size`.
pub mod Objects
use pgroonga.Base.{
  ℕ, zero, suc, ◌+◌, ◌-◌, ◌*◌, ◌/◌, ◌^◌, Bool, true, false, not, Bytes, codes, List, [], ◌∷◌, ◌++◌,
  map, length, take, drop, from_le, ltb, ◌==◌, if◌then◌else◌, Option, none, some,
}
use pgroonga.Wal.Msgpack.{
  Call, pack_nil, pack_boolean, pack_positive, pack_negative, pack_float, pack_double, pack_str,
  pack_bin, pack_array, pack_map,
}
use pgroonga.Wal.Raw.{Result, ok, err, unsupported_type}
use pgroonga.Wal.Object.{GrnObj, named, text_of}
use pgroonga.Wal.Value.{
  BuiltIn, bool, int8, uint8, int16, uint16, int32, uint32, int64, uint64, float32, float, time,
  short_text, text, long_text, other, Groonga,
}
use pgroonga.Wal.Tuple.{Value, Column, bulk, vector, uvector, key, column}

-- `PGrnWALAction`
pub data Action : Type 0 where
  insert create_table create_column set_sources rename_table delete remove_object register_plugin :
      Action

unfoldable pub number_of : Action → ℕ
number_of insert = 0
number_of create_table = 1
number_of create_column = 2
number_of set_sources = 3
number_of rename_table = 4
number_of delete = 5
number_of remove_object = 6
number_of register_plugin = 7

-- `msgpack_pack_grn_obj`
unfoldable pub pack_grn_obj : Option GrnObj → Call
pack_grn_obj (some object) = pack_str (text_of object)
pack_grn_obj none = pack_nil

-- The first two calls of each record but an insertion's.
unfoldable pub pack_action : Action → List Call
unfolding number_of
pack_action action = pack_str (codes "_action") ∷ pack_positive (number_of action) ∷ []

-- An `int8_t`, `int16_t`, `int32_t` or `int64_t` of so many bytes.
unfoldable pub pack_signed : ℕ → ℕ → Call
pack_signed width n =
    if ltb n (2 ^ (8 * width - 1)) then pack_positive n else pack_negative (2 ^ (8 * width) - 1 - n)

-- `PGrnWALInsertColumnValueRawGeneric`, by the label of the domain; `none` is the default label.
unfoldable pub pack_raw : BuiltIn → Bytes → Option Call
unfolding pack_signed
pack_raw bool value = some (pack_boolean (not (from_le (take 1 value) == 0)))
pack_raw int8 value = some (pack_signed 1 (from_le (take 1 value)))
pack_raw uint8 value = some (pack_positive (from_le (take 1 value)))
pack_raw int16 value = some (pack_signed 2 (from_le (take 2 value)))
pack_raw uint16 value = some (pack_positive (from_le (take 2 value)))
pack_raw int32 value = some (pack_signed 4 (from_le (take 4 value)))
pack_raw uint32 value = some (pack_positive (from_le (take 4 value)))
pack_raw int64 value = some (pack_signed 8 (from_le (take 8 value)))
pack_raw uint64 value = some (pack_positive (from_le (take 8 value)))
pack_raw float32 value = some (pack_float (from_le (take 4 value)))
pack_raw float value = some (pack_double (from_le (take 8 value)))
pack_raw time value = some (pack_signed 8 (from_le (take 8 value)))
pack_raw short_text value = some (pack_str value)
pack_raw text value = some (pack_str value)
pack_raw long_text value = some (pack_str value)
pack_raw other value = none

-- One call after the others; the calls before an error have been made, but the record is not finished.
abbrev pub then_call : Option Call → Option (List Call) → Option (List Call)
then_call (some call) (some rest) = some (call ∷ rest)
then_call (some call) none = none
then_call none rest = none

-- `PGrnWALInsertColumnStartGeneric` and `PGrnWALInsertColumnValueKeyGeneric`
unfoldable pub pack_key : Bytes → Bytes → List Call
pack_key key_name k = pack_str key_name ∷ pack_bin k ∷ []

-- The elements of a uniform vector, each of `size` bytes.
unfoldable pub uvector_elements : ℕ → ℕ → Bytes → List Bytes
uvector_elements size zero value = []
uvector_elements size (suc n) value = take size value ∷ uvector_elements size n (drop size value)

abbrev pub append_calls : Option (List Call) → Option (List Call) → Option (List Call)
append_calls none rest = none
append_calls (some cs) none = none
append_calls (some cs) (some rest) = some (cs ++ rest)

module _ (g : Groonga) (element_size : ℕ → ℕ) where
  unfoldable pub pack_elements : List (ℕ × Bytes) → Option (List Call)
  unfolding pack_raw
  pack_elements [] = some []
  pack_elements ((domain, element) ∷ elements) =
      then_call (pack_raw (g.built_in domain) element) (pack_elements elements)

  -- The switch of `PGrnWALInsertColumn` and the three writers of values below it.
  unfoldable pub pack_value : Value → Option (List Call)
  unfolding pack_elements uvector_elements
  pack_value (bulk domain value) = then_call (pack_raw (g.built_in domain) value) (some [])
  pack_value (vector domain elements) =
      then_call (some (pack_array (length elements))) (pack_elements elements)
  pack_value (uvector domain value) =
      let n = length value / element_size domain in
      then_call (some (pack_array n))
        (pack_elements (map (λ e. (domain, e)) (uvector_elements (element_size domain) n value)))

  -- `PGrnWALInsertColumn`, `PGrnWALInsertKeyRaw`
  unfoldable pub pack_column : Column → Option (List Call)
  unfolding pack_value pack_key
  pack_column (key k) = some (pack_key g.key_name k)
  pack_column (column name value) = then_call (some (pack_str name)) (pack_value value)

  unfoldable pub pack_columns : List Column → Option (List Call)
  unfolding pack_column
  pack_columns [] = some []
  pack_columns (c ∷ cs) = append_calls (pack_column c) (pack_columns cs)

-- What is recorded, over the objects `O` of Groonga. A missing object is a null pointer.
pub data Operation (O : Type 0) : Type 0 where
  insert : Option O → List Column → Operation O
  create_table :
      (name : Bytes) (flags : ℕ) (type : Option O)
      (tokenizer normalizers token_filters : Option GrnObj)
      → Operation O
  create_column : Option O → Bytes → ℕ → Option O → Operation O
  set_sources : Option O → List (Option O) → Operation O
  rename_table : Bytes → Bytes → Operation O
  delete : O → Bytes → Operation O
  remove_object : Bytes → Operation O
  register_plugin : Bytes → Operation O

module _ {O : Type 0} (name_of : O → Bytes) where
  abbrev pub named_object : Option O → Option GrnObj
  named_object none = none
  named_object (some o) = some (named (name_of o))

  unfoldable pub write_create_table :
      Bytes → ℕ → Option O → Option GrnObj → Option GrnObj → Option GrnObj → List Call
  unfolding pack_action pack_grn_obj
  write_create_table name flags type tokenizer normalizers token_filters =
      pack_map 7
      ∷ (pack_action Action.create_table
          ++ (pack_str (codes "name")
              ∷ pack_str name
              ∷ pack_str (codes "flags")
              ∷ pack_positive flags
              ∷ pack_str (codes "type")
              ∷ pack_grn_obj (named_object type)
              ∷ pack_str (codes "tokenizer")
              ∷ pack_grn_obj tokenizer
              ∷ pack_str (codes "normalizers")
              ∷ pack_grn_obj normalizers
              ∷ pack_str (codes "token_filters")
              ∷ pack_grn_obj token_filters
              ∷ []))

  unfoldable pub write_create_column : Option O → Bytes → ℕ → Option O → List Call
  unfolding pack_action pack_grn_obj
  write_create_column table name flags type =
      pack_map 5
      ∷ (pack_action Action.create_column
          ++ (pack_str (codes "table")
              ∷ pack_grn_obj (named_object table)
              ∷ pack_str (codes "name")
              ∷ pack_str name
              ∷ pack_str (codes "flags")
              ∷ pack_positive flags
              ∷ pack_str (codes "type")
              ∷ pack_grn_obj (named_object type)
              ∷ []))

  unfoldable pub write_set_sources : Option O → List (Option O) → List Call
  unfolding pack_action pack_grn_obj
  write_set_sources indexed sources =
      pack_map 3
      ∷ (pack_action Action.set_sources
          ++ (pack_str (codes "column")
              ∷ pack_grn_obj (named_object indexed)
              ∷ pack_str (codes "sources")
              ∷ pack_array (length sources)
              ∷ map (λ source. pack_grn_obj (named_object source)) sources))

  unfoldable pub write_rename_table : Bytes → Bytes → List Call
  unfolding pack_action
  write_rename_table name new_name =
      pack_map 3
      ∷ (pack_action Action.rename_table
          ++ (pack_str (codes "name")
              ∷ pack_str name
              ∷ pack_str (codes "new_name")
              ∷ pack_str new_name
              ∷ []))

  unfoldable pub write_delete : O → Bytes → List Call
  unfolding pack_action pack_grn_obj
  write_delete table k =
      pack_map 3
      ∷ (pack_action Action.delete
          ++ (pack_str (codes "table")
              ∷ pack_grn_obj (named_object (some table))
              ∷ pack_str (codes "key")
              ∷ pack_bin k
              ∷ []))

  unfoldable pub write_remove_object : Bytes → List Call
  unfolding pack_action
  write_remove_object name =
      pack_map 2
      ∷ (pack_action Action.remove_object ++ (pack_str (codes "name") ∷ pack_str name ∷ []))

  unfoldable pub write_register_plugin : Bytes → List Call
  unfolding pack_action
  write_register_plugin name =
      pack_map 2
      ∷ (pack_action Action.register_plugin ++ (pack_str (codes "name") ∷ pack_str name ∷ []))

  -- `PGrnWALInsertStartGeneric`: the number of columns, and the table as one more.
  unfoldable pub write_insert_start : Option O → ℕ → List Call
  write_insert_start none n_columns = pack_map n_columns ∷ []
  write_insert_start (some table) n_columns =
      pack_map (n_columns + 1) ∷ pack_str (codes "_table") ∷ pack_str (name_of table) ∷ []

  module _ (g : Groonga) (element_size : ℕ → ℕ) where
    -- The calls of one record; `none` is an error for a type that is not supported.
    unfoldable pub write : Operation O → Option (List Call)
    unfolding write_create_table write_create_column write_set_sources write_rename_table
        write_delete write_remove_object write_register_plugin write_insert_start pack_columns
    write (insert table columns) =
        append_calls (some (write_insert_start table (length columns)))
          (pack_columns g element_size columns)
    write (create_table name flags type tokenizer normalizers token_filters) =
        some (write_create_table name flags type tokenizer normalizers token_filters)
    write (create_column table name flags type) = some (write_create_column table name flags type)
    write (set_sources indexed sources) = some (write_set_sources indexed sources)
    write (rename_table name new_name) = some (write_rename_table name new_name)
    write (delete table k) = some (write_delete table k)
    write (remove_object name) = some (write_remove_object name)
    write (register_plugin name) = some (write_register_plugin name)
