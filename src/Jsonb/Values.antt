-- ===== src/Jsonb/Values.antt =====
-- The table of values: `PGrnJSONBInsertGenerateKey` and `PGrnJSONBInsertValueSet`. `hash` stands for XXH64, `esc` for
-- `grn_text_esc` and `path_id` for the ids of paths. A row of the table has the id that belongs to its key, so that a
-- vector of ids is the keys. `wal` is what is written of the row for the standby, if the WAL is enabled.
pub mod Keys
pub mod Rows
pub mod Laws
use pgroonga.Base.{
  ℕ, ◌+◌, Bool, true, false, Bytes, codes, List, [], ◌∷◌, ◌++◌, length, ltb, ◌==◌, if◌then◌else◌,
  Option, none, some,
}
use pgroonga.Jsonb.{
  Scalar, null, string, number, boolean, Component, name, elements, Part, leaf, an_array, an_object,
}
use pgroonga.Jsonb.Paths.{max_key_size, generate_complete_path, generate_paths}

-- The columns of a row: `column` is that of the type of the value.
pub record Row : Type 0 where
  pub path : Option Bytes
  pub paths : List ℕ
  pub column : Option Scalar
  pub type : Bytes

pub data WalColumn : Type 0 where
  key_column : ℕ → WalColumn
  path_column : Bytes → WalColumn
  paths_column : List ℕ → WalColumn
  value_column : Scalar → WalColumn
  type_column : Bytes → WalColumn

-- A row with the number of columns that PGrnWALInsertStart was told.
pub record WalRow : Type 0 where
  pub n_columns : ℕ
  pub columns : List WalColumn

pub record Tables : Type 0 where
  pub rows : List (ℕ × Row)
  pub value_ids : List ℕ
  pub wal : List WalRow

unfoldable pub find : ℕ → List (ℕ × Row) → Option Row
find key [] = none
find key ((k, row) ∷ rows) = if key == k then some row else find key rows

-- The name of the type, and the value where it is in a column.
unfoldable pub type_name : Part → Bytes
type_name (leaf null) = codes "null"
type_name (leaf (string text)) = codes "string"
type_name (leaf (number text)) = codes "number"
type_name (leaf (boolean b)) = codes "boolean"
type_name an_array = codes "array"
type_name an_object = codes "object"

unfoldable pub column_of : Part → Option Scalar
column_of (leaf null) = none
column_of (leaf (string text)) = some (string text)
column_of (leaf (number text)) = some (number text)
column_of (leaf (boolean b)) = some (boolean b)
column_of an_array = none
column_of an_object = none

-- `grn_obj_cast` of a value to a text.
unfoldable pub cast_text : Scalar → Bytes
cast_text null = []
cast_text (string text) = text
cast_text (number text) = text
cast_text (boolean true) = codes "true"
cast_text (boolean false) = codes "false"

unfoldable pub add_value : Option Scalar → Bytes → Bytes
unfolding cast_text
add_value none key = key
add_value (some s) key = (key ++ codes "|") ++ cast_text s

-- The complete path, where it is short enough for a key.
unfoldable pub short_path : Bytes → Option Bytes
short_path path = if ltb (length path) max_key_size then some path else none

abbrev pub count {ℓ} : {A : Type ℓ} → Option A → ℕ
count none = 0
count (some x) = 1

unfoldable pub path_columns : Option Bytes → List WalColumn
path_columns none = []
path_columns (some path) = path_column path ∷ []

unfoldable pub value_columns : Option Scalar → List WalColumn
value_columns none = []
value_columns (some s) = value_column s ∷ []

unfoldable pub wal_row : ℕ → Row → WalRow
unfolding path_columns value_columns
wal_row key row = record {
  n_columns = 3 + count row.path + count row.column;
  columns =
      key_column key
      ∷ (path_columns row.path
          ++ (paths_column row.paths ∷ (value_columns row.column ++ (type_column row.type ∷ []))));
}

-- A row is made where the key was not there.
unfoldable pub set_row : Bool → ℕ → Row → Tables → Option Row → Tables
unfolding wal_row
set_row has_wal key row t (some old) = record t { value_ids = t.value_ids ++ key ∷ [] }
set_row has_wal key row t none = record {
  rows = (key, row) ∷ t.rows;
  value_ids = t.value_ids ++ key ∷ [];
  wal = if has_wal then t.wal ++ wal_row key row ∷ [] else t.wal;
}

module _ (esc : Bytes → Bytes) where
  unfoldable pub add_key_components : List Component → Bytes → Bytes
  add_key_components [] key = key
  add_key_components (elements n ∷ cs) key = add_key_components cs (key ++ codes "[]")
  add_key_components (name component ∷ cs) key =
      add_key_components cs (key ++ (codes "[" ++ (esc component ++ codes "]")))

  -- The text of the key.
  unfoldable pub key_text : List Component → Part → Bytes
  unfolding add_key_components type_name column_of add_value
  key_text cs part =
      add_value (column_of part)
        ((add_key_components cs (codes ".") ++ codes "|") ++ type_name part)

  module _ (path_id : Bytes → ℕ) where
    unfoldable pub row_of : List Component → Part → Row
    unfolding short_path
    row_of cs part = record {
      path = short_path (generate_complete_path esc cs);
      paths = generate_paths esc path_id cs;
      column = column_of part;
      type = type_name part;
    }

    -- `PGrnJSONBInsertValueSet`
    unfoldable pub value_set : (Bytes → ℕ) → Bool → List Component → Part → Tables → Tables
    unfolding key_text row_of find set_row
    value_set hash has_wal cs part t =
        let key = hash (key_text cs part) in
        set_row has_wal key (row_of cs part) t (find key t.rows)
