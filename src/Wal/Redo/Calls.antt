-- ===== src/Wal/Redo/Calls.antt =====
-- The calls of Groonga that redo a record, and the helpers of src/pgrn-groonga.h around them. `D` stands for a database,
-- `O` for its objects and `C` for its columns; `none` is an error. `path` joins the directory of the current
-- database (`GetDatabasePath`) in a table space with the name of a file.
use pgroonga.Base.{
  ℕ, ◌+◌, ◌/◌, ◌%◌, Bool, Bytes, codes, List, [], ◌∷◌, ◌++◌, take, ◌==◌, if◌then◌else◌, Option,
  none, some, bytes_eq,
}
use pgroonga.Wal.Tuple.{VectorValue}

-- A value of a column: bytes with their domain, or a vector.
pub data ColumnValue : Type 0 where
  bulk : ℕ → Bytes → ColumnValue
  vector : VectorValue → ColumnValue

-- `GRN_INFO_DEFAULT_TOKENIZER`, `GRN_INFO_NORMALIZERS` and `GRN_INFO_TOKEN_FILTERS`.
pub data Module : Type 0 where
  default_tokenizer normalizers token_filters : Module

-- `path` is the file in the directory of a table space.
pub record Calls (D O C : Type 0) : Type 0 where
  pub lookup : D → Bytes → Option O
  pub lookup_column : D → O → Bytes → Option C
  pub is_no_key : D → O → Bool
  pub rows : D → O → List ℕ
  pub ctid : D → O → ℕ → ℕ
  pub remove_dependent : Bytes → D → Option D
  pub remove : Bytes → D → Option D
  pub object_id : D → O → ℕ
  pub object_name : D → O → Bytes
  pub source_ids : D → O → List ℕ
  pub path : ℕ → Bytes → Bytes
  pub create_table : Bytes → Option Bytes → ℕ → Option O → D → Option (O × D)
  pub set_module : Module → O → Bytes → D → Option D
  pub create_column : O → Bytes → Option Bytes → ℕ → O → D → Option D
  pub set_source_ids : O → List ℕ → D → Option D
  pub rename_table : O → Bytes → D → Option D
  pub add_record : O → Option Bytes → D → Option (ℕ × D)
  pub set_value : C → ℕ → ColumnValue → D → Option D
  pub delete_id : O → ℕ → D → Option D
  pub delete_key : O → Bytes → D → Option D
  pub remove_object : O → D → Option D
  pub register_plugin : Bytes → D → Option D

infixl 5 ◌>>=◌
abbrev pub ◌>>=◌ {ℓ κ} : {A : Type ℓ} {B : Type κ} → Option A → (A → Option B) → Option B
none >>= f = none
some a >>= f = f a

abbrev pub text_or_empty : Option Bytes → Bytes
text_or_empty none = []
text_or_empty (some t) = t

-- `flags |= GRN_OBJ_PERSISTENT`
unfoldable pub persistent : ℕ → ℕ
persistent flags = if flags / 0x8000 % 2 == 1 then flags else flags + 0x8000

unfoldable pub same_ids : List ℕ → List ℕ → Bool
same_ids ids ids' = bytes_eq ids ids'

module _ {D O C : Type 0} (calls : Calls D O C) where
  -- A text of no byte sets nothing (`PGrnTableModuleValueIsPresent`).
  unfoldable pub set_present : Module → O → Bytes → D → Option D
  set_present module' table [] d = some d
  set_present module' table (b ∷ bs) d = calls.set_module module' table (b ∷ bs) d

  -- In the table space of the database (`InvalidOid`) Groonga chooses the path.
  unfoldable pub path_of : ℕ → Bytes → Option Bytes
  path_of table_space name =
      if table_space == 0
      then none
      else some (calls.path table_space (take 1023 (codes "pgrn." ++ name)))

  unfoldable pub create_table_raw : ℕ → Bytes → ℕ → Option O → Bytes → Bytes → Bytes → D → Option D
  unfolding set_present path_of persistent
  create_table_raw table_space name flags type tokenizer normalizers' token_filters' d =
      calls.create_table name (path_of table_space name) (persistent flags) type d >>= λ created.
      (set_present default_tokenizer created.0 tokenizer created.1 >>= λ d1.
      (set_present normalizers created.0 normalizers' d1 >>= λ d2.
      set_present token_filters created.0 token_filters' d2))

  unfoldable pub create_column_raw : ℕ → O → Bytes → ℕ → O → D → Option D
  unfolding path_of persistent
  create_column_raw table_space table name flags type d =
      calls.create_column table name
        (path_of table_space (calls.object_name d table ++ (codes "." ++ name))) (persistent flags)
        type d

  -- The sources that a column has already are not set again.
  unfoldable pub set_source_ids_raw : O → List ℕ → D → Option D
  unfolding same_ids
  set_source_ids_raw column ids d =
      if same_ids (calls.source_ids d column) ids then some d else calls.set_source_ids column ids d
