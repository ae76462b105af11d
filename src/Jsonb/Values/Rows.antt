-- ===== src/Jsonb/Values/Rows.antt =====
-- What a row of the table of values holds of its place.
use pgroonga.Base.{
  ℕ, ◌≤◌, ◌<◌, ◌≡◌, ◌↔◌, ap, ◌∙◌, Bool, true, Bytes, codes, List, ◌++◌, length, lt→ltb, le→ltb,
  if◌then◌else◌, Option, none, some,
}
use pgroonga.Jsonb.{
  Scalar, null, string, number, boolean, Component, Part, leaf, an_array, an_object, Place,
}
use pgroonga.Jsonb.Paths.{contains, generate_complete_path}
use pgroonga.Jsonb.Paths.Laws.{
  with_arrays, all_paths, array_path, Distinct, HasPath, generate_paths-Distinct,
}
use pgroonga.Jsonb.Values.{Row, type_name, column_of, short_path, row_of}

-- The name of the type of a part, and its value; null and a container have none.
pub data IsTyped : Part → Bytes → Option Scalar → Type 0 where
  typed_null : IsTyped (leaf null) (codes "null") none
  typed_string : (text : Bytes) → IsTyped (leaf (string text)) (codes "string") (some (string text))
  typed_number : (text : Bytes) → IsTyped (leaf (number text)) (codes "number") (some (number text))
  typed_boolean : (b : Bool) → IsTyped (leaf (boolean b)) (codes "boolean") (some (boolean b))
  typed_array : IsTyped an_array (codes "array") none
  typed_object : IsTyped an_object (codes "object") none

module _ (esc : Bytes → Bytes) (path_id : Bytes → ℕ) where
  -- The complete path from the root.
  abbrev pub complete_path : Place → Bytes
  complete_path p = codes "." ++ with_arrays esc p.components

  -- The complete path where it is shorter than 4096 bytes, the ids of all paths once each, the value and its type.
  pub record IsRowOf (p : Place) (row : Row) : Type 0 where
    pub short : length (complete_path p) < 4096 → row.path ≡ some (complete_path p)
    pub long : 4096 ≤ length (complete_path p) → row.path ≡ none
    pub distinct : Distinct esc path_id row.paths
    pub has_paths :
        (id : ℕ)
        → (contains row.paths id ≡ true) ↔ HasPath esc path_id (all_paths esc p.components) id
    pub typed : IsTyped p.part row.type row.column

  type_name-IsTyped : (part : Part) → IsTyped part (type_name part) (column_of part)
  unfolding type_name column_of
  type_name-IsTyped (leaf null) = typed_null
  type_name-IsTyped (leaf (string text)) = typed_string text
  type_name-IsTyped (leaf (number text)) = typed_number text
  type_name-IsTyped (leaf (boolean b)) = typed_boolean b
  type_name-IsTyped an_array = typed_array
  type_name-IsTyped an_object = typed_object

  complete_path_lem :
      (cs : List Component) → generate_complete_path esc cs ≡ codes "." ++ with_arrays esc cs
  unfolding generate_complete_path
  complete_path_lem cs = array_path esc true cs

  pub row_of-IsRowOf : (p : Place) → IsRowOf p (row_of esc path_id p.components p.part)
  unfolding row_of short_path
  row_of-IsRowOf p = record {
    short = λ lt.
        ap short_path (complete_path_lem p.components)
        ∙ ap (λ b. if b then some (complete_path p) else none) (lt→ltb _ _ lt);
    long = λ le.
        ap short_path (complete_path_lem p.components)
        ∙ ap (λ b. if b then some (complete_path p) else none) (le→ltb _ _ le);
    distinct = (generate_paths-Distinct esc path_id p.components).0;
    has_paths = (generate_paths-Distinct esc path_id p.components).1;
    typed = type_name-IsTyped p.part;
  }
