-- ===== src/Wal/Tuple/Prefix.antt =====
-- The reader of a row decides by what it reads.
use pgroonga.Base.{ℕ, zero, suc, ◌+◌, Bytes, List, [], ◌∷◌, ◌++◌, Option, none, some}
use pgroonga.Wal.Raw.{Reader}
use pgroonga.Wal.Raw.Extends.{
  Extends, extends_rules, Extends-pure, Extends-fail, Extends-bind, Extends-read_u32,
}
use pgroonga.Wal.Value.{Groonga}
use pgroonga.Wal.Value.Laws.{Extends-value}
use pgroonga.Wal.Tuple.{
  or_stop, or_fail, Tuple, empty_tuple, read_elements, read_vector, read_uvector, read_vector_cell,
  read_scalar, read_key_cell, read_flagged, read_cell, read_column, read_columns, read_tuple,
}

module _ {A B : Type 0} where
  Extends-or_stop :
      (o : Option A) (k : A → Reader (Option B)) → ((a : A) → Extends (k a)) → Extends (or_stop o k)
  Extends-or_stop none k h = Extends-pure none
  Extends-or_stop (some a) k h = h a

  Extends-or_fail :
      (d : ℕ) (o : Option A) (k : A → Reader B)
      → ((a : A) → Extends (k a))
      → Extends (or_fail d o k)
  Extends-or_fail d none k h = Extends-fail _
  Extends-or_fail d (some a) k h = h a

module _ (g : Groonga) where
  Extends-read_elements : (n d : ℕ) (es : List Bytes) → Extends (read_elements g n d es)
  unfolding read_elements
  Extends-read_elements zero d es = Extends-pure (some es)
  Extends-read_elements (suc n) d es =
      Extends-bind _ _ (Extends-value g d)
        (λ v. Extends-or_stop v _ (λ e. Extends-read_elements n d (es ++ e ∷ [])))

  Extends-read_vector : (d : ℕ) → Extends (read_vector g d)
  unfolding read_vector
  Extends-read_vector d = Extends-bind _ _ Extends-read_u32 (λ n. Extends-read_elements n d [])

  Extends-read_uvector : (d : ℕ) → Extends (read_uvector g d)
  unfolding read_uvector
  Extends-read_uvector d = search (extends_rules, Extends-read_u32) depth 9

  Extends-read_vector_cell : (d : ℕ) → Extends (read_vector_cell g d)
  unfolding read_vector_cell
  Extends-read_vector_cell d =
      search (extends_rules, Extends-read_vector, Extends-read_uvector, Extends-or_fail) depth 9

  Extends-read_scalar : (d : ℕ) → Extends (read_scalar g d)
  unfolding read_scalar
  Extends-read_scalar d = search (extends_rules, Extends-value, Extends-or_fail) depth 9

  Extends-read_flagged : (f : ℕ) → Extends (read_flagged g f)
  unfolding read_flagged
  Extends-read_flagged f =
      search (extends_rules, Extends-read_vector_cell, Extends-read_scalar) depth 9

  Extends-read_key_cell : Extends (read_key_cell g)
  unfolding read_key_cell
  Extends-read_key_cell = search (extends_rules, Extends-read_u32) depth 9

  Extends-read_cell : (name : Bytes) → Extends (read_cell g name)
  unfolding read_cell
  Extends-read_cell name =
      search (extends_rules, Extends-read_key_cell, Extends-read_u32, Extends-read_flagged) depth 9

  Extends-read_column : (t : Tuple) (i : ℕ) → Extends (read_column g t i)
  unfolding read_column
  Extends-read_column t i = search (extends_rules, Extends-read_u32, Extends-read_cell) depth 12

  pub Extends-read_columns : (n i : ℕ) (t : Tuple) → Extends (read_columns g n i t)
  unfolding read_columns
  Extends-read_columns zero i t = Extends-pure t
  Extends-read_columns (suc n) i t =
      Extends-bind _ _ (Extends-read_column t i) (λ t'. Extends-read_columns n (i + 1) t')

  pub Extends-read_tuple : Extends (read_tuple g)
  unfolding read_tuple
  Extends-read_tuple =
      Extends-bind _ _ Extends-read_u32 (λ n. Extends-read_columns n 0 (empty_tuple n))
