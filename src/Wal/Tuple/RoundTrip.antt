-- ===== src/Wal/Tuple/RoundTrip.antt =====
-- A row is read back from what was written for its columns, and its reader decides by what it reads.
use pgroonga.Base.{
  ℕ, ◌+◌, ◌^◌, ◌<◌, ◌≡◌, refl, sym, subst, ap, ◌∙◌, false, Bytes, List, [], ◌∷◌, ◌++◌, append_assoc,
  append-nil, length, bytes_eq, All,
}
use pgroonga.Wal.Raw.{ok, u32}
use pgroonga.Wal.Raw.Parses.{
  Parses, Parses-pure, Parses-bind, Parses-bind_pure, Parses-read_u32, Parses-refer,
}
use pgroonga.Wal.Value.{Groonga}
use pgroonga.Wal.Tuple.{
  bulk, vector, uvector, Column, key, column, after, both, write_column_start, write_column_key,
  write_column, write_columns, VectorValue, vector_value, uvector_value, Cell, scalar, Tuple,
  empty_tuple, add_cell, read_cell, read_column, read_columns, read_tuple,
}
use pgroonga.Wal.Tuple.Cells.{
  IsValue, value_bytes, value_cell, contents, write_column_value-eq-ok, Parses-key_cell,
  Parses-value_cell,
}

module _ (g : Groonga) where
  -- A column that the reader tells apart: no other column is named like the key.
  abbrev pub IsColumn : Column → Type 0
  IsColumn (key k) = (length g.key_name < 2 ^ 32) × (length k < 2 ^ 32)
  IsColumn (column name v) =
      (bytes_eq name g.key_name ≡ false) × (length name < 2 ^ 32) × IsValue g v

  abbrev name_of : Column → Bytes
  name_of (key k) = g.key_name
  name_of (column name v) = name

  abbrev cell_of : Column → Cell
  cell_of (key k) = scalar g.short_text_id k
  cell_of (column name v) = value_cell g v

  abbrev cell_bytes : Column → Bytes
  cell_bytes (key k) = write_column_key k
  cell_bytes (column name v) = value_bytes g v

  abbrev pub columns_bytes : List Column → Bytes
  columns_bytes [] = []
  columns_bytes (c ∷ cs) = (write_column_start (name_of c) ++ cell_bytes c) ++ columns_bytes cs

  -- The three arrays that a row is to have.
  unfoldable pub names : List Column → List Bytes
  names [] = []
  names (c ∷ cs) = name_of c ∷ names cs

  unfoldable pub values : List Column → List (ℕ × Bytes)
  values [] = []
  values (key k ∷ cs) = (g.short_text_id, k) ∷ values cs
  values (column name (bulk d value) ∷ cs) = (d, value) ∷ values cs
  values (column name _ ∷ cs) = (g.void_id, []) ∷ values cs

  unfoldable pub vectors : ℕ → List Column → List (ℕ × VectorValue)
  vectors i [] = []
  vectors i (column name (vector d es) ∷ cs) =
      (i, vector_value d (contents g es)) ∷ vectors (i + 1) cs
  vectors i (column name (uvector d value) ∷ cs) = (i, uvector_value d value) ∷ vectors (i + 1) cs
  vectors i (_ ∷ cs) = vectors (i + 1) cs

  unfoldable pub tuple_of : List Column → Tuple
  unfolding names values vectors
  tuple_of cs = record {
    n_columns = length cs;
    column_names = names cs;
    column_values = values cs;
    column_vector_values = vectors 0 cs;
  }

  -- What the loop has, from round `i` on.
  add_columns : Tuple → ℕ → List Column → Tuple
  add_columns t i [] = t
  add_columns t i (c ∷ cs) = add_columns (add_cell g t i (name_of c) (cell_of c)) (i + 1) cs

  extended : Tuple → ℕ → List Column → Tuple
  extended t i cs = record t {
    column_names = t.column_names ++ names cs;
    column_values = t.column_values ++ values cs;
    column_vector_values = t.column_vector_values ++ vectors i cs;
  }

  extended-add_cell :
      (t : Tuple) (i : ℕ) (c : Column) (cs : List Column)
      → extended (add_cell g t i (name_of c) (cell_of c)) (i + 1) cs ≡ extended t i (c ∷ cs)
  unfolding extended names values vectors add_cell
  extended-add_cell t i (key k) cs = simp append_assoc
  extended-add_cell t i (column name (bulk d value)) cs = simp append_assoc
  extended-add_cell t i (column name (vector d es)) cs = simp append_assoc
  extended-add_cell t i (column name (uvector d value)) cs = simp append_assoc

  add_columns-extended :
      (t : Tuple) (i : ℕ) (cs : List Column) → add_columns t i cs ≡ extended t i cs
  unfolding add_columns
  add_columns-extended t i [] = unfold extended names values vectors in simp append-nil
  add_columns-extended t i (c ∷ cs) =
      add_columns-extended (add_cell g t i (name_of c) (cell_of c)) (i + 1) cs
      ∙ extended-add_cell t i c cs

  write_column-eq-ok :
      (c : Column)
      → IsColumn c
      → write_column g c ≡ ok (write_column_start (name_of c) ++ cell_bytes c)
  unfolding write_column
  write_column-eq-ok (key k) h = refl
  write_column-eq-ok (column name v) h =
      ap (after (write_column_start name)) (write_column_value-eq-ok g v h.2)

  pub write_columns-eq-ok :
      (cs : List Column) → All IsColumn cs → write_columns g cs ≡ ok (columns_bytes cs)
  unfolding write_columns
  write_columns-eq-ok [] h = refl
  write_columns-eq-ok (c ∷ cs) h =
      ap (λ r. both r (write_columns g cs)) (write_column-eq-ok c h.0)
      ∙ ap (after (write_column_start (name_of c) ++ cell_bytes c)) (write_columns-eq-ok cs h.1)

  Parses-cell :
      (c : Column) → IsColumn c → Parses (read_cell g (name_of c)) (cell_bytes c) (cell_of c)
  Parses-cell (key k) h = Parses-key_cell g k h.1
  Parses-cell (column name v) h = Parses-value_cell g name v h.0 h.2

  name_fits : (c : Column) → IsColumn c → length (name_of c) < 2 ^ 32
  name_fits (key k) h = h.0
  name_fits (column name v) h = h.1

  Parses-column :
      (t : Tuple) (i : ℕ) (c : Column)
      → IsColumn c
      → Parses
          (read_column g t i)
          (write_column_start (name_of c) ++ cell_bytes c)
          (add_cell g t i (name_of c) (cell_of c))
  unfolding read_column write_column_start
  Parses-column t i c h =
      subst (λ bs. Parses (read_column g t i) bs (add_cell g t i (name_of c) (cell_of c)))
        (sym (append_assoc (u32 (length (name_of c))) (name_of c) (cell_bytes c)))
        (Parses-bind _ (Parses-read_u32 (length (name_of c)) (name_fits c h)) (
          Parses-bind _ (Parses-refer (name_of c) refl)
            (Parses-bind_pure (add_cell g t i (name_of c)) (Parses-cell c h))))

  Parses-rounds :
      (t : Tuple) (i : ℕ) (cs : List Column)
      → All IsColumn cs
      → Parses (read_columns g (length cs) i t) (columns_bytes cs) (add_columns t i cs)
  unfolding read_columns add_columns
  Parses-rounds t i [] h = Parses-pure t
  Parses-rounds t i (c ∷ cs) h =
      Parses-bind (λ t'. read_columns g (length cs) (i + 1) t') (Parses-column t i c h.0)
        (Parses-rounds (add_cell g t i (name_of c) (cell_of c)) (i + 1) cs h.1)

  pub Parses-tuple :
      (cs : List Column)
      → length cs < 2 ^ 32
      → All IsColumn cs
      → Parses (read_tuple g) (u32 (length cs) ++ columns_bytes cs) (tuple_of cs)
  unfolding read_tuple tuple_of extended
  Parses-tuple cs n h =
      Parses-bind (λ k. read_columns g k 0 (empty_tuple k)) (Parses-read_u32 (length cs) n)
        (subst
          (λ t.
            Parses (read_columns g (length cs) 0 (empty_tuple (length cs))) (columns_bytes cs) t)
          (add_columns-extended (empty_tuple (length cs)) 0 cs)
          (Parses-rounds (empty_tuple (length cs)) 0 cs h))
