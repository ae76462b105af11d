-- ===== src/Wal/Decode/Insert.antt =====
-- The insertion of a row by the applier: `PGrnWALApplyInsert` and `PGrnWALApplyInsertArray` of src/pgrn-wal.c. An
-- integer or a float is its bits. An error ends the insertion; the row and the columns that were set before it are
-- not kept in the model.
use pgroonga.Base.{
  ℕ, ◌-◌, ◌^◌, Bool, Bytes, codes, List, [], ◌∷◌, ltb, to_le, if◌then◌else◌, Option, none, some,
}
use pgroonga.Wal.Msgpack.{
  Msg, Items, Fields, nil, positive_integer, negative_integer, str, bin, ext, array, map, no_items,
  item, no_fields, field,
}
use pgroonga.Wal.Value.{BuiltIn, Groonga}
use pgroonga.Wal.Decode.{
  Decoded, ok, failed, key_not_string, wrong_type, ◌>>=◌, or_error, key_equal, get_binary, Standby,
  get_object,
}

-- What is put into a vector: an integer by its bytes in the domain, or the number that is cast to the domain,
-- `n` or -(n + 1).
pub data Element : Type 0 where
  boolean : Bool → Element
  integer : Bytes → Element
  cast_number : ℕ → Element
  cast_negative : ℕ → Element
  float32 : ℕ → Element
  float : ℕ → Element
  text : Bytes → Element

-- What a column is set to; Groonga casts it to the type of the column.
pub data Stored : Type 0 where
  boolean : Bool → Stored
  uint64 : ℕ → Stored
  int64 : ℕ → Stored
  float32 : ℕ → Stored
  float : ℕ → Stored
  text : Bytes → Stored
  vector : ℕ → List Element → Stored

-- The bits of an `int64_t` that is -(n + 1).
abbrev pub negative_bits : ℕ → ℕ
negative_bits n = 2 ^ 64 - 1 - n

-- The numbers that a `GRN_INT64` and a `GRN_UINT64` with some bits hold.
abbrev pub cast_int64 : ℕ → Element
cast_int64 bits = if ltb bits (2 ^ 63) then cast_number bits else cast_negative (2 ^ 64 - 1 - bits)

abbrev pub cast_uint64 : ℕ → Element
cast_uint64 bits = cast_number bits

-- The labels of the switch on the domain of the elements.
unfoldable pub element_width : BuiltIn → Option ℕ
element_width BuiltIn.int8 = some 1
element_width BuiltIn.uint8 = some 1
element_width BuiltIn.int16 = some 2
element_width BuiltIn.uint16 = some 2
element_width BuiltIn.int32 = some 4
element_width BuiltIn.uint32 = some 4
element_width BuiltIn.int64 = some 8
element_width BuiltIn.uint64 = some 8
element_width _ = none

abbrev pub put_integer : Option ℕ → ℕ → Element → Element
put_integer (some width) bits cast = integer (to_le width bits)
put_integer none bits cast = cast

module _ (g : Groonga) where
  unfoldable pub apply_element : ℕ → Msg → Decoded Element
  unfolding element_width
  apply_element domain (Msg.boolean b) = ok (Element.boolean b)
  apply_element domain (positive_integer n) =
      ok (put_integer (element_width (g.built_in domain)) n (cast_int64 n))
  apply_element domain (negative_integer n) = ok (
      put_integer (element_width (g.built_in domain)) (negative_bits n)
        (cast_uint64 (negative_bits n)))
  apply_element domain (Msg.float32 n) = ok (Element.float32 n)
  apply_element domain (Msg.float64 n) = ok (Element.float n)
  apply_element domain (str s) = ok (Element.text s)
  apply_element domain nil = failed wrong_type
  apply_element domain (bin b) = failed wrong_type
  apply_element domain (ext type b) = failed wrong_type
  apply_element domain (array ms) = failed wrong_type
  apply_element domain (map fs) = failed wrong_type

  unfoldable pub apply_elements : ℕ → Items → Decoded (List Element)
  unfolding apply_element
  apply_elements domain no_items = ok []
  apply_elements domain (item m ms) =
      apply_element domain m >>= λ e. apply_elements domain ms >>= λ es. ok (e ∷ es)

  module _ {O C : Type 0} (s : Standby O C) where
    -- A lexicon's domain stands for the lexicon.
    unfoldable pub element_domain : C → ℕ
    element_domain c = elim (s.lexicon_domain (s.range c)) [
      | some domain ↦ domain
      | none ↦ s.range c
    ]

    unfoldable pub apply_value : C → Msg → Decoded Stored
    unfolding apply_elements element_domain
    apply_value c (Msg.boolean b) = ok (Stored.boolean b)
    apply_value c (positive_integer n) = ok (Stored.uint64 n)
    apply_value c (negative_integer n) = ok (Stored.int64 (negative_bits n))
    apply_value c (Msg.float32 n) = ok (Stored.float32 n)
    apply_value c (Msg.float64 n) = ok (Stored.float n)
    apply_value c (str t) = ok (Stored.text t)
    apply_value c (array ms) =
        apply_elements (element_domain c) ms >>= λ es. ok (vector (element_domain c) es)
    apply_value c nil = failed wrong_type
    apply_value c (bin b) = failed wrong_type
    apply_value c (ext type b) = failed wrong_type
    apply_value c (map fs) = failed wrong_type

    abbrev pub column_name : Msg → Decoded Bytes
    column_name (str name) = ok name
    column_name _ = failed key_not_string

    unfoldable pub apply_columns : O → Fields → Decoded (List (C × Stored))
    unfolding apply_value
    apply_columns table no_fields = ok []
    apply_columns table (field k v fs) = column_name k >>= λ name.
        or_error name (s.lookup_column table name) >>= λ c.
        apply_value c v >>= λ x. apply_columns table fs >>= λ rest. ok ((c, x) ∷ rest)

    -- An optional entry at the head of the map: what its reader makes of it, and the rest.
    unfoldable pub head_entry :
        {A : Type 0} → Bytes → (Msg → Decoded (Option A)) → Fields → Decoded (Option A × Fields)
    head_entry name get no_fields = ok (none, no_fields)
    head_entry name get (field k v fs) = key_equal k name >>= λ same.
        if same then (get v >>= λ a. ok (a, fs)) else ok (none, field k v fs)

    -- No table: the sources table of the index, looked up for each object, where the source keeps the pointer of the
    -- first lookup for the objects of one call of the applier.
    unfoldable pub insert_table : Option O → Decoded O
    insert_table (some table) = ok table
    insert_table none = or_error (codes "Sources") s.sources_table

    unfoldable pub apply_insert : Fields → Decoded (O × Option Bytes × List (C × Stored))
    unfolding head_entry insert_table apply_columns
    apply_insert fs = head_entry (codes "_table") (get_object s) fs >>= λ t.
        insert_table t.0 >>= λ table.
        head_entry g.key_name (λ v. get_binary v >>= λ b. ok (some b)) t.1 >>= λ k.
        apply_columns table k.1 >>= λ columns. ok (table, k.0, columns)
