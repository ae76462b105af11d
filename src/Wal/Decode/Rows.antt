-- ===== src/Wal/Decode/Rows.antt =====
-- The columns of an inserted row: what the writer packs of them, and what the applier sets.
use pgroonga.Base.{
  bytes_eq, false, ℕ, zero, suc, ◌/◌, ◌≡◌, refl, ap, Bytes, List, All, [], ◌∷◌, map, length, drop,
  some,
}
use pgroonga.Wal.Msgpack.{
  Msg, Items, Fields, array, str, no_items, item, no_fields, field, items, fields, calls,
  item_calls, field_calls,
}
use pgroonga.Wal.Value.{Groonga, write_layout}
use pgroonga.Wal.Tuple.{Value, Column, bulk, vector, uvector, column}
use pgroonga.Wal.Generic.{uvector_elements, pack_elements, pack_value, pack_columns}
use pgroonga.Wal.Decode.{ok, Standby, key_equal}
use pgroonga.Wal.Decode.Insert.{
  Element, Stored, apply_elements, element_domain, apply_value, apply_columns,
}
use pgroonga.Wal.Decode.Values.{scalar, HasWidth, IsSince1970, stored_of, element_of}
use pgroonga.Wal.Decode.Packed.{raw-Packed}

length-uvector_elements :
    (f : Bytes → ℕ × Bytes) (size n : ℕ) (v : Bytes)
    → length (map f (uvector_elements size n v)) ≡ n
unfolding uvector_elements
length-uvector_elements f size zero v = refl
length-uvector_elements f size (suc n) v = ap suc (length-uvector_elements f size n (drop size v))

-- The columns of a row, each under its name.
abbrev pub columns_of : {C : Type 0} → (C → Bytes) → List (C × Value) → List Column
columns_of column_name_of [] = []
columns_of column_name_of ((c, v) ∷ row) =
    column (column_name_of c) v ∷ columns_of column_name_of row

-- The map does not start with the key.
abbrev pub IsOther : Bytes → Fields → Type 0
IsOther name no_fields = Unit
IsOther name (field k v fs) = key_equal k name ≡ ok false

module _ (g : Groonga) (element_size : ℕ → ℕ) {O C : Type 0} (s : Standby O C) where
  -- An element has the built-in type of the column's elements, and as many bytes as its type; a time is not
  -- before 1970.
  abbrev pub IsElement : ℕ → ℕ × Bytes → Type 0
  IsElement domain (d, e) =
      (g.built_in domain ≡ g.built_in d)
      × HasWidth (write_layout (g.built_in d)) e
      × IsSince1970 (g.built_in d) e

  abbrev pub stored_elements : List (ℕ × Bytes) → List Element
  stored_elements [] = []
  stored_elements ((d, e) ∷ es) = element_of (g.built_in d) e ∷ stored_elements es

  record PackedElements (domain : ℕ) (es : List (ℕ × Bytes)) : Type 0 where
    msgs : Items
    packed : pack_elements g element_size es ≡ some (item_calls msgs)
    count : items msgs ≡ length es
    read : apply_elements g domain msgs ≡ ok (stored_elements es)

  elements-PackedElements :
      (domain : ℕ) (es : List (ℕ × Bytes)) → All (IsElement domain) es → PackedElements domain es
  unfolding pack_elements apply_elements calls
  elements-PackedElements domain [] all = record {
    msgs = no_items;
    packed = refl;
    count = refl;
    read = refl;
  }
  elements-PackedElements domain ((d, e) ∷ es) ((same, fits, since), all) =
      let p = raw-Packed g s (g.built_in d) e fits in
      let ps = elements-PackedElements domain es all in
      record {
        msgs = item (scalar p.call) ps.msgs;
        packed = rw (p.packed, ps.packed, p.alone) refl;
        count = ap suc ps.count;
        read = rw (p.element domain same since, ps.read) refl;
      }

  -- The pairs of a uniform vector's elements with their domain.
  abbrev pub uvector_pairs : ℕ → Bytes → List (ℕ × Bytes)
  uvector_pairs domain v =
      map (λ e. (domain, e))
        (uvector_elements (element_size domain) (length v / element_size domain) v)

  -- A value fits its type; the elements of a vector are of the type of the column's elements.
  abbrev pub IsStorable : C → Value → Type 0
  IsStorable c (bulk domain v) = HasWidth (write_layout (g.built_in domain)) v
  IsStorable c (vector domain es) = All (IsElement (element_domain g s c)) es
  IsStorable c (uvector domain v) = All (IsElement (element_domain g s c)) (uvector_pairs domain v)

  -- What a column is set to.
  abbrev pub stored_value : C → Value → Stored
  stored_value c (bulk domain v) = stored_of (g.built_in domain) v
  stored_value c (vector domain es) = Stored.vector (element_domain g s c) (stored_elements es)
  stored_value c (uvector domain v) =
      Stored.vector (element_domain g s c) (stored_elements (uvector_pairs domain v))

  record PackedValue (c : C) (v : Value) : Type 0 where
    msg : Msg
    packed : pack_value g element_size v ≡ some (calls msg)
    stored : apply_value g s c msg ≡ ok (stored_value c v)

  value-PackedValue : (c : C) (v : Value) → IsStorable c v → PackedValue c v
  unfolding pack_value apply_value calls
  value-PackedValue c (bulk domain v) fits =
      let p = raw-Packed g s (g.built_in domain) v fits in
      record { msg = scalar p.call; packed = rw (p.packed, p.alone) refl; stored = p.stored c }
  value-PackedValue c (vector domain es) all =
      let ps = elements-PackedElements (element_domain g s c) es all in
      record {
        msg = array ps.msgs;
        packed = rw (ps.packed, ps.count) refl;
        stored = rw ps.read refl;
      }
  value-PackedValue c (uvector domain v) all =
      let ps = elements-PackedElements (element_domain g s c) (uvector_pairs domain v) all in
      record {
        msg = array ps.msgs;
        packed =
            rw
              (
                ps.packed,
                ps.count,
                length-uvector_elements (λ e. (domain, e)) (element_size domain)
                    (length v / element_size domain) v,
              )
              refl;
        stored = rw ps.read refl;
      }

  abbrev pub stored_row : List (C × Value) → List (C × Stored)
  stored_row [] = []
  stored_row ((c, v) ∷ row) = (c, stored_value c v) ∷ stored_row row

  -- The columns of a row, each with its value, under its name.
  module _ (column_name_of : C → Bytes) where
    -- The table has the column under its name, and the value fits it.
    abbrev pub IsColumnOf : O → C × Value → Type 0
    IsColumnOf table (c, v) = (s.lookup_column table (column_name_of c) ≡ some c) × IsStorable c v

    pub record PackedRow (table : O) (row : List (C × Value)) : Type 0 where
      pub msgs : Fields
      pub packed :
          pack_columns g element_size (columns_of column_name_of row) ≡ some (field_calls msgs)
      pub count : fields msgs ≡ length (columns_of column_name_of row)
      pub stored : apply_columns g s table msgs ≡ ok (stored_row row)
      pub starts :
          (name : Bytes)
          → All (λ c. bytes_eq (column_name_of c.0) name ≡ false) row
          → IsOther name msgs

    pub row-PackedRow :
        (table : O) (row : List (C × Value)) → All (IsColumnOf table) row → PackedRow table row
    unfolding pack_columns apply_columns calls key_equal
    row-PackedRow table [] all = record {
      msgs = no_fields;
      packed = refl;
      count = refl;
      stored = refl;
      starts = λ name h. tt;
    }
    row-PackedRow table ((c, v) ∷ row) ((known, fits), all) =
        let p = value-PackedValue c v fits in
        let ps = row-PackedRow table row all in
        record {
          msgs = field (str (column_name_of c)) p.msg ps.msgs;
          packed = rw (p.packed, ps.packed) refl;
          count = ap suc ps.count;
          stored = rw (known, p.stored, ps.stored) refl;
          starts = λ name h. ap ok (h.0);
        }
