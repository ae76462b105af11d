-- ===== src/Wal/Tuple/Cells.antt =====
-- What is written for a column's value is read back as one cell.
use pgroonga.Base.{
  ℕ, ◌^◌, ◌<◌, ◌≡◌, refl, sym, subst, ap, ◌∙◌, Bool, true, false, ◌&&◌, Bytes, List, [], ◌∷◌, ◌++◌,
  append_assoc, append-nil, length, bytes_eq, bytes_eq_refl, ==-refl, ◌==◌, some, All, arith,
}
use pgroonga.Wal.Raw.{ok, pure, ◌>>=◌, read_u32, u32}
use pgroonga.Wal.Raw.Parses.{
  Parses, Parses-pure, Parses-bind, Parses-bind_last, Parses-bind_pure, Parses-read_u32,
  Parses-refer,
}
use pgroonga.Wal.Value.{Groonga, write_value}
use pgroonga.Wal.Value.Laws.{Suits, laid_out, layout_of, write_value-eq-ok, Parses-value}
use pgroonga.Wal.Tuple.{
  Value, bulk, vector, uvector, with_vector_flag, domain_id, has_vector_flag, after, both,
  write_column_key, write_elements, write_column_value, vector_value, uvector_value, Cell, scalar,
  vector_cell, or_stop, or_fail, read_elements, read_vector, read_uvector, read_vector_cell,
  read_scalar, read_key_cell, read_flagged, read_cell,
}

has_flag-bulk : (d : ℕ) → d < 2 ^ 30 → has_vector_flag d ≡ false
unfolding has_vector_flag
has_flag-bulk d h = ground arith

domain_id-bulk : (d : ℕ) → d < 2 ^ 30 → domain_id d ≡ d
unfolding domain_id
domain_id-bulk d h = omega arith

has_flag-vector : (d : ℕ) → d < 2 ^ 30 → has_vector_flag (with_vector_flag d) ≡ true
unfolding has_vector_flag with_vector_flag
has_flag-vector d h = ground arith

domain_id-vector : (d : ℕ) → d < 2 ^ 30 → domain_id (with_vector_flag d) ≡ d
unfolding domain_id with_vector_flag
domain_id-vector d h = ground arith

with_vector_flag-lt : (d : ℕ) → d < 2 ^ 30 → with_vector_flag d < 2 ^ 32
unfolding with_vector_flag
with_vector_flag-lt d h = ground arith

and_false : (b : Bool) → (b && false) ≡ false
and_false true = refl
and_false false = refl

module _ (g : Groonga) where
  -- An element's own domain lays it out as the vector's domain does.
  abbrev pub IsElement : ℕ → ℕ × Bytes → Type 0
  IsElement d (domain, element) =
      (layout_of g domain ≡ layout_of g d) × Suits (layout_of g d) element

  -- What a column may hold so that the reader can tell it.
  abbrev pub IsValue : Value → Type 0
  IsValue (bulk d value) = (d < 2 ^ 30) × Suits (layout_of g d) value
  IsValue (vector d elements) =
      (d < 2 ^ 30)
      × (g.is_text_family d ≡ true)
      × (length elements < 2 ^ 32)
      × All (IsElement d) elements
  IsValue (uvector d value) = (d < 2 ^ 30) × (g.is_text_family d ≡ false) × (length value < 2 ^ 32)

  abbrev pub elements_bytes : ℕ → List (ℕ × Bytes) → Bytes
  elements_bytes d [] = []
  elements_bytes d ((domain, element) ∷ es) =
      laid_out (layout_of g d) element ++ elements_bytes d es

  abbrev pub value_bytes : Value → Bytes
  value_bytes (bulk d value) = u32 d ++ laid_out (layout_of g d) value
  value_bytes (vector d es) = u32 (with_vector_flag d) ++ (u32 (length es) ++ elements_bytes d es)
  value_bytes (uvector d value) = u32 (with_vector_flag d) ++ (u32 (length value) ++ value)

  abbrev pub contents : List (ℕ × Bytes) → List Bytes
  contents [] = []
  contents ((domain, element) ∷ es) = element ∷ contents es

  abbrev pub value_cell : Value → Cell
  value_cell (bulk d value) = scalar d value
  value_cell (vector d es) = vector_cell (vector_value d (contents es))
  value_cell (uvector d value) = vector_cell (uvector_value d value)

  write_element :
      (d domain : ℕ) (element : Bytes)
      → layout_of g domain ≡ layout_of g d
      → Suits (layout_of g d) element
      → write_value g domain element (length element) ≡ ok (laid_out (layout_of g d) element)
  write_element d domain element e s =
      write_value-eq-ok g domain element (subst (λ l. Suits l element) (sym e) s)
      ∙ ap (λ l. ok (laid_out l element)) e

  write_elements-eq-ok :
      (d : ℕ) (es : List (ℕ × Bytes))
      → All (IsElement d) es
      → write_elements g es ≡ ok (elements_bytes d es)
  unfolding write_elements
  write_elements-eq-ok d [] h = refl
  write_elements-eq-ok d ((domain, element) ∷ es) h =
      ap (λ r. both r (write_elements g es)) (write_element d domain element h.0.0 h.0.1)
      ∙ ap (after (laid_out (layout_of g d) element)) (write_elements-eq-ok d es h.1)

  pub write_column_value-eq-ok :
      (v : Value) → IsValue v → write_column_value g v ≡ ok (value_bytes v)
  unfolding write_column_value
  write_column_value-eq-ok (bulk d value) h = ap (after (u32 d)) (write_value-eq-ok g d value h.1)
  write_column_value-eq-ok (vector d es) h =
      ap (λ r. after (u32 (with_vector_flag d)) (after (u32 (length es)) r))
        (write_elements-eq-ok d es h.3)
  write_column_value-eq-ok (uvector d value) h = refl

  Parses-elements :
      (d : ℕ) (es : List (ℕ × Bytes)) (done : List Bytes)
      → All (IsElement d) es
      → Parses
          (read_elements g (length es) d done)
          (elements_bytes d es)
          (some (done ++ contents es))
  unfolding read_elements
  Parses-elements d [] done h = rw append-nil (Parses-pure (some done))
  Parses-elements d ((domain, element) ∷ es) done h =
      Parses-bind (λ value. or_stop value (λ e. read_elements g (length es) d (done ++ e ∷ [])))
        (Parses-value g d element h.0.1)
        (subst
          (λ r.
            Parses (read_elements g (length es) d (done ++ element ∷ [])) (elements_bytes d es)
              (some r))
          (append_assoc done (element ∷ []) (contents es))
          (Parses-elements d es (done ++ element ∷ []) h.1))

  Parses-scalar :
      (d : ℕ) (value : Bytes)
      → Suits (layout_of g d) value
      → Parses (read_scalar g d) (laid_out (layout_of g d) value) (scalar d value)
  unfolding read_scalar
  Parses-scalar d value h =
      Parses-bind_last (λ v. or_fail d v (λ w. pure (scalar d w))) (Parses-value g d value h)
        (Parses-pure (scalar d value))

  Parses-vector_cell :
      (d : ℕ) (es : List (ℕ × Bytes))
      → IsValue (vector d es)
      → Parses
          (read_vector_cell g d)
          (u32 (length es) ++ elements_bytes d es)
          (vector_cell (vector_value d (contents es)))
  unfolding read_vector_cell read_vector
  Parses-vector_cell d es h = rw h.1 (
      Parses-bind_last (λ r. or_fail g.void_id r (λ cs. pure (vector_cell (vector_value d cs))))
        (Parses-bind (λ n. read_elements g n d []) (Parses-read_u32 (length es) h.2)
          (Parses-elements d es [] h.3))
        (Parses-pure (vector_cell (vector_value d (contents es)))))

  Parses-uvector_cell :
      (d : ℕ) (value : Bytes)
      → IsValue (uvector d value)
      → Parses
          (read_vector_cell g d)
          (u32 (length value) ++ value)
          (vector_cell (uvector_value d value))
  unfolding read_vector_cell read_uvector
  Parses-uvector_cell d value h = rw h.1 (
      Parses-bind_pure vector_cell (
        Parses-bind _ (Parses-read_u32 (length value) h.2)
          (Parses-bind_pure (uvector_value d) (Parses-refer value refl))))

  pub Parses-key_cell :
      (k : Bytes)
      → length k < 2 ^ 32
      → Parses (read_cell g g.key_name) (write_column_key k) (scalar g.short_text_id k)
  unfolding read_cell read_key_cell write_column_key
  Parses-key_cell k h =
      rw (==-refl (length g.key_name), bytes_eq_refl g.key_name)
        (Parses-bind _ (Parses-read_u32 (length k) h)
          (Parses-bind_pure (scalar g.short_text_id) (Parses-refer k refl)))

  Parses-flagged :
      (v : Value)
      → IsValue v
      → Parses (do f ← read_u32; read_flagged g f) (value_bytes v) (value_cell v)
  unfolding read_flagged
  Parses-flagged (bulk d value) h =
      Parses-bind (read_flagged g) (Parses-read_u32 d (omega arith))
        (rw (has_flag-bulk d h.0, domain_id-bulk d h.0) (Parses-scalar d value h.1))
  Parses-flagged (vector d es) h =
      Parses-bind (read_flagged g)
        (Parses-read_u32 (with_vector_flag d) (with_vector_flag-lt d h.0))
        (rw (has_flag-vector d h.0, domain_id-vector d h.0) (Parses-vector_cell d es h))
  Parses-flagged (uvector d value) h =
      Parses-bind (read_flagged g)
        (Parses-read_u32 (with_vector_flag d) (with_vector_flag-lt d h.0))
        (rw (has_flag-vector d h.0, domain_id-vector d h.0) (Parses-uvector_cell d value h))

  pub Parses-value_cell :
      (name : Bytes) (v : Value)
      → bytes_eq name g.key_name ≡ false
      → IsValue v
      → Parses (read_cell g name) (value_bytes v) (value_cell v)
  unfolding read_cell
  Parses-value_cell name v other h =
      rw (other, and_false (length name == length g.key_name)) (Parses-flagged v h)
