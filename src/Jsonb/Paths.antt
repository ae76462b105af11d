-- ===== src/Jsonb/Paths.antt =====
-- The paths of a place: `PGrnJSONGeneratePath` and the functions that add paths to the vector `pathIDs`. `esc` stands
-- for `grn_text_esc`, and `path_id` for the id that `grn_table_add` finds or makes in the table of paths, 0 where it
-- cannot be made. The components from `start` on are the components that are passed.
pub mod Laws
use pgroonga.Base.{
  ℕ, Bool, true, false, not, ◌&&◌, ◌||◌, Bytes, codes, List, [], ◌∷◌, ◌++◌, length, ltb, leb, ◌==◌,
  if◌then◌else◌,
}
use pgroonga.Jsonb.{Component, name, elements}

-- The flags PGRN_JSON_GENERATE_PATH_*.
pub record Flags : Type 0 where
  pub is_absolute : Bool
  pub use_dot_style : Bool
  pub include_array : Bool

abbrev pub flags : Bool → Bool → Bool → Flags
flags absolute dot array = record {
  is_absolute = absolute;
  use_dot_style = dot;
  include_array = array;
}

abbrev pub max_key_size : ℕ
max_key_size = 4096

pub contains : List ℕ → ℕ → Bool
contains [] id = false
contains (i ∷ ids) id = (i == id) || contains ids id

unfoldable pub put_new : ℕ → List ℕ → List ℕ
unfolding contains
put_new id ids = if contains ids id then ids else ids ++ id ∷ []

module _ (esc : Bytes → Bytes) where
  -- The text behind one component.
  unfoldable pub add_component : Flags → Component → Bytes → Bytes
  add_component f (elements n) path = if f.include_array then path ++ codes "[]" else path
  add_component f (name component) path =
      if f.use_dot_style
      then (if ltb (if f.is_absolute then 1 else 0) (length path) then path ++ codes "." else path)
        ++ component
      else path ++ (codes "[" ++ (esc component ++ codes "]"))

  unfoldable pub add_components : Flags → List Component → Bytes → Bytes
  unfolding add_component
  add_components f [] path = path
  add_components f (c ∷ cs) path = add_components f cs (add_component f c path)

  -- `PGrnJSONGeneratePath`, into an empty text.
  unfoldable pub generate_path : List Component → Flags → Bytes
  unfolding add_components
  generate_path cs f = add_components f cs (if f.is_absolute then codes "." else [])

  -- `PGrnJSONGenerateCompletePath`
  unfoldable pub generate_complete_path : List Component → Bytes
  unfolding generate_path
  generate_complete_path cs = generate_path cs (flags true false true)

  module _ (path_id : Bytes → ℕ) where
    -- The three conditions of `PGrnJSONBInsertAddPath`.
    unfoldable pub is_added : Bytes → Bool
    is_added path =
        not (length path == 0) && (ltb (length path) max_key_size && not (path_id path == 0))

    unfoldable pub add_path : List Component → Flags → List ℕ → List ℕ
    unfolding generate_path put_new is_added
    add_path cs f ids =
        let path = generate_path cs f in if is_added path then put_new (path_id path) ids else ids

    -- `PGrnJSONBInsertGenerateSubPathsRecursive`
    unfoldable pub generate_sub_paths : List Component → List ℕ → List ℕ
    unfolding add_path
    generate_sub_paths [] ids = ids
    generate_sub_paths (c ∷ cs) ids = generate_sub_paths cs (
        add_path (c ∷ cs) (flags false false true) (
          add_path (c ∷ cs) (flags false false false)
            (add_path (c ∷ cs) (flags false true false) ids)))

    -- `PGrnJSONBInsertGeneratePaths`
    unfoldable pub generate_paths : List Component → List ℕ
    unfolding add_path generate_sub_paths
    generate_paths cs = generate_sub_paths cs (
        add_path cs (flags true false true)
          (add_path cs (flags true false false) (add_path cs (flags true true false) [])))
