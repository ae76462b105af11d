-- ===== src/Wal/Tuple.antt =====
-- The rows in the records of inserted rows (src/pgrn-wal-custom.h): `PGrnWALRecordInsertWriteColumn*`,
-- `PGrnWALRecordInsertReadColumn*` and `PGrnWALTuple`. A column is a key, or a name with a bulk, a vector
-- or a uniform vector, as the switch of `PGrnWALInsertColumn` in src/pgrn-wal.c tells them apart.
pub mod Cells
pub mod RoundTrip
pub mod Prefix
use pgroonga.Base.{
  ℕ, zero, suc, ◌+◌, ◌/◌, ◌%◌, ◌^◌, Bool, ◌&&◌, Bytes, List, [], ◌∷◌, ◌++◌, length, bytes_eq, ◌==◌,
  if◌then◌else◌, Option, none, some,
}
use pgroonga.Wal.Raw.{
  Result, ok, err, unsupported_type, Reader, pure, fail, ◌>>=◌, refer, read_u32, u32,
}
use pgroonga.Wal.Value.{Groonga, write_value, read_value}

pub data Value : Type 0 where
  bulk : ℕ → Bytes → Value
  vector : ℕ → List (ℕ × Bytes) → Value
  uvector : ℕ → Bytes → Value

pub data Column : Type 0 where
  key : Bytes → Column
  column : Bytes → Value → Column

-- `domain | PGRN_WAL_RECORD_DOMAIN_FLAG_VECTOR`: bit 30 set.
unfoldable pub with_vector_flag : ℕ → ℕ
with_vector_flag domain = if (domain / 2 ^ 30) % 2 == 1 then domain else domain + 2 ^ 30

-- `PGRN_WAL_RECORD_DOMAIN_ID_MASK` is the 30 low bits.
unfoldable pub domain_id : ℕ → ℕ
domain_id flagged = flagged % 2 ^ 30

unfoldable pub has_vector_flag : ℕ → Bool
has_vector_flag flagged = (flagged / 2 ^ 30) % 2 == 1

-- What is written first, before what may fail.
abbrev pub after : Bytes → Result Bytes → Result Bytes
after bs (ok rest) = ok (bs ++ rest)
after bs (err e) = err e

abbrev pub both : Result Bytes → Result Bytes → Result Bytes
both (ok bs) r = after bs r
both (err e) r = err e

unfoldable pub write_column_start : Bytes → Bytes
write_column_start name = u32 (length name) ++ name

unfoldable pub write_column_key : Bytes → Bytes
write_column_key k = u32 (length k) ++ k

module _ (g : Groonga) where
  unfoldable pub write_bulk : ℕ → Bytes → Result Bytes
  write_bulk domain value = after (u32 domain) (write_value g domain value (length value))

  -- Each element is written by its own domain.
  unfoldable pub write_elements : List (ℕ × Bytes) → Result Bytes
  write_elements [] = ok []
  write_elements ((domain, element) ∷ elements) =
      both (write_value g domain element (length element)) (write_elements elements)

  unfoldable pub write_vector : ℕ → List (ℕ × Bytes) → Result Bytes
  unfolding write_elements with_vector_flag
  write_vector domain elements =
      after (u32 (with_vector_flag domain))
        (after (u32 (length elements)) (write_elements elements))

  unfoldable pub write_uvector : ℕ → Bytes → Result Bytes
  unfolding with_vector_flag
  write_uvector domain value = ok (u32 (with_vector_flag domain) ++ (u32 (length value) ++ value))

  unfoldable pub write_column_value : Value → Result Bytes
  unfolding write_bulk write_vector write_uvector
  write_column_value (bulk domain value) = write_bulk domain value
  write_column_value (vector domain elements) = write_vector domain elements
  write_column_value (uvector domain value) = write_uvector domain value

  unfoldable pub write_column : Column → Result Bytes
  unfolding write_column_value write_column_start write_column_key
  write_column (key k) = ok (write_column_start g.key_name ++ write_column_key k)
  write_column (column name value) = after (write_column_start name) (write_column_value value)

  unfoldable pub write_columns : List Column → Result Bytes
  unfolding write_column
  write_columns [] = ok []
  write_columns (c ∷ cs) = both (write_column c) (write_columns cs)

-- A vector read from the record: all its elements have the column's domain.
pub data VectorValue : Type 0 where
  vector_value : ℕ → List Bytes → VectorValue
  uvector_value : ℕ → Bytes → VectorValue

-- `PGrnWALTuple`: the names and the values by position, a value with its domain, and the vectors by
-- the position of their column.
pub record Tuple : Type 0 where
  pub n_columns : ℕ
  pub column_names : List Bytes
  pub column_values : List (ℕ × Bytes)
  pub column_vector_values : List (ℕ × VectorValue)

abbrev pub empty_tuple : ℕ → Tuple
empty_tuple n = record {
  n_columns = n;
  column_names = [];
  column_values = [];
  column_vector_values = [];
}

-- What the reader finds behind a column's name.
pub data Cell : Type 0 where
  scalar : ℕ → Bytes → Cell
  vector_cell : VectorValue → Cell

module _ {A B : Type 0} where
  -- `if (!succeeded) return false`
  abbrev pub or_stop : Option A → (A → Reader (Option B)) → Reader (Option B)
  or_stop none k = pure none
  or_stop (some a) k = k a

  -- `if (!succeeded) PGrnCheckRC(...)`
  abbrev pub or_fail : ℕ → Option A → (A → Reader B) → Reader B
  or_fail domain none k = fail (unsupported_type domain)
  or_fail domain (some a) k = k a

module _ (g : Groonga) where
  unfoldable pub read_elements : ℕ → ℕ → List Bytes → Reader (Option (List Bytes))
  read_elements zero domain elements = pure (some elements)
  read_elements (suc n) domain elements = do
    value ← read_value g domain
    or_stop value (λ element. read_elements n domain (elements ++ element ∷ []))

  unfoldable pub read_vector : ℕ → Reader (Option (List Bytes))
  unfolding read_elements
  read_vector domain = do n ← read_u32; read_elements n domain []

  unfoldable pub read_uvector : ℕ → Reader VectorValue
  read_uvector domain = do
    value_size ← read_u32
    value ← refer value_size
    pure (uvector_value domain value)

  -- The domain in the message about a vector is void: it is reset before the test.
  unfoldable pub read_vector_cell : ℕ → Reader Cell
  unfolding read_vector read_uvector
  read_vector_cell domain =
      if g.is_text_family domain
      then (do
        elements ← read_vector domain
        or_fail g.void_id elements (λ es. pure (vector_cell (vector_value domain es))))
      else (do v ← read_uvector domain; pure (vector_cell v))

  unfoldable pub read_scalar : ℕ → Reader Cell
  read_scalar domain = do
    value ← read_value g domain
    or_fail domain value (λ v. pure (scalar domain v))

  unfoldable pub read_key_cell : Reader Cell
  read_key_cell = do
    value_size ← read_u32
    value ← refer value_size
    pure (scalar g.short_text_id value)

  unfoldable pub read_flagged : ℕ → Reader Cell
  unfolding read_vector_cell read_scalar has_vector_flag domain_id
  read_flagged flagged =
      if has_vector_flag flagged
      then read_vector_cell (domain_id flagged)
      else read_scalar (domain_id flagged)

  unfoldable pub read_cell : Bytes → Reader Cell
  unfolding read_key_cell read_flagged
  read_cell name =
      if (length name == length g.key_name) && bytes_eq name g.key_name
      then read_key_cell
      else (do flagged ← read_u32; read_flagged flagged)

  -- A vector leaves a void value at its position.
  unfoldable pub add_cell : Tuple → ℕ → Bytes → Cell → Tuple
  add_cell t i name (scalar domain value) = record t {
    column_names = t.column_names ++ name ∷ [];
    column_values = t.column_values ++ (domain, value) ∷ [];
  }
  add_cell t i name (vector_cell v) = record t {
    column_names = t.column_names ++ name ∷ [];
    column_values = t.column_values ++ (g.void_id, []) ∷ [];
    column_vector_values = t.column_vector_values ++ (i, v) ∷ [];
  }

  unfoldable pub read_column : Tuple → ℕ → Reader Tuple
  unfolding read_cell add_cell
  read_column t i = do
    name_size ← read_u32
    name ← refer name_size
    cell ← read_cell name
    pure (add_cell t i name cell)

  -- `for (i = 0; i < nColumns; i++)`, with the number of rounds left.
  unfoldable pub read_columns : ℕ → ℕ → Tuple → Reader Tuple
  unfolding read_column
  read_columns zero i t = pure t
  read_columns (suc n) i t = do t' ← read_column t i; read_columns n (i + 1) t'

  -- The number of columns is set, and the columns are added to what the buffers of the tuple hold.
  unfoldable pub read_tuple_into : Tuple → Reader Tuple
  unfolding read_columns
  read_tuple_into t = do n ← read_u32; read_columns n 0 (record t { n_columns = n })

  unfoldable pub read_tuple : Reader Tuple
  unfolding read_tuple_into
  read_tuple = read_tuple_into (empty_tuple 0)
