-- ===== src/Wal/Record/BulkInsert/Laws.antt =====
-- The rows of a bulk insert are read back, and the fuel of their reader is enough.
use pgroonga.Base.{
  ℕ, zero, suc, ◌+◌, ◌^◌, ◌<◌, ◌≤◌, ◌≡◌, ◌≢◌, refl, ap, ◌∙◌, Bytes, List, [], ◌∷◌, ◌++◌,
  append_assoc, append-nil, length, length-append, map, All, Option, none, some, arith,
}
use pgroonga.Wal.Raw.{Result, ok, err, Raw, pure, continue, ◌>>=◌, read_data, read_u32, u32}
use pgroonga.Wal.Raw.Parses.{Parses, Parses-bind, Parses-bind_pure, Parses-read_u32, Parses-refer}
use pgroonga.Wal.Record.{Common, IsWords}
use pgroonga.Wal.Value.{Groonga}
use pgroonga.Wal.Tuple.{
  Column, after, both, Tuple, empty_tuple, read_tuple_into, read_tuple, read_columns,
}
use pgroonga.Wal.Tuple.RoundTrip.{
  IsColumn, columns_bytes, tuple_of, write_columns-eq-ok, Parses-tuple,
}
use pgroonga.Wal.Tuple.Prefix.{Extends-read_columns}
use pgroonga.Wal.Record.BulkInsert.{
  BulkInsert, write_start, write_record_start, read, write_row, write_rows, rewind, read_next,
  read_rows, read_all,
}

-- A number read takes four bytes.
read_u32-length :
    (raw : Bytes) (n : ℕ) (rest : Raw) → read_u32 raw ≡ ok (n, rest) → length rest + 4 ≤ length raw
unfolding read_u32 read_data ◌>>=◌ pure
read_u32-length (a ∷ b ∷ c ∷ d ∷ raw) n rest h = ground arith
read_u32-length [] n rest h = ground arith
read_u32-length (a ∷ []) n rest h = ground arith
read_u32-length (a ∷ b ∷ []) n rest h = ground arith
read_u32-length (a ∷ b ∷ c ∷ []) n rest h = ground arith

abbrev pub head_of : Common → Bytes → BulkInsert
head_of c table_name = record {
  common = c;
  table_name = table_name;
  table_name_size = length table_name;
}

Parses-head :
    (c : Common) (table_name : Bytes)
    → IsWords c
    → length table_name < 2 ^ 32
    → Parses read (write_start c table_name) (head_of c table_name)
unfolding read write_start
Parses-head c table_name h n = Parses-bind _ (Parses-read_u32 c.db_id h.db_id) (
    Parses-bind _ (Parses-read_u32 c.db_encoding h.db_encoding) (
      Parses-bind _ (Parses-read_u32 c.db_table_space_id h.db_table_space_id) (
        Parses-bind _ (Parses-read_u32 (length table_name) n)
          (Parses-bind_pure _ (Parses-refer table_name refl)))))

module _ (g : Groonga) where
  columns_fewer :
      (b : Tuple) (x : Result (ℕ × Raw)) (t : Tuple) (rest : Raw)
      → continue (λ n. read_columns g n 0 (record b { n_columns = n })) x ≡ ok (t, rest)
      → (n : ℕ) × (s : Raw) × (x ≡ ok (n, s)) × (length rest ≤ length s)
  columns_fewer b (ok (n, s)) t rest h =
      (n, s, refl, (Extends-read_columns g n 0 (record b { n_columns = n })).fewer s t rest h)
  columns_fewer b (err e) t rest h = cc

  read_tuple_into-length :
      (b : Tuple) (raw : Bytes) (t : Tuple) (rest : Raw)
      → read_tuple_into g b raw ≡ ok (t, rest)
      → length rest < length raw
  unfolding read_tuple_into ◌>>=◌
  read_tuple_into-length b raw t rest h =
      let (n, s, e, le) = columns_fewer b (read_u32 raw) t rest h in
      omega (arith, read_u32-length raw n s e)

  -- What one call of the row reader may return.
  read_next-cases :
      (x : Result (Tuple × Raw)) (next : Option Tuple) (rest : Raw)
      → continue (λ tuple. pure (some tuple)) x ≡ ok (next, rest)
      → (t : Tuple) × (x ≡ ok (t, rest)) × (next ≡ some t)
  unfolding pure
  read_next-cases (ok (t, s)) next rest h = (t, ground arith, ground arith)
  read_next-cases (err e) next rest h = cc

  read_next-length :
      (buffers : Tuple) (raw : Bytes) (t : Tuple) (rest : Raw)
      → read_next g buffers raw ≡ ok (some t, rest)
      → length rest < length raw
  unfolding read_next ◌>>=◌
  read_next-length buffers [] t rest h = cc
  read_next-length buffers (b ∷ raw) t rest h =
      let (t', e, same) = read_next-cases (read_tuple_into g buffers (b ∷ raw)) (some t) rest h in
      read_tuple_into-length buffers (b ∷ raw) t' rest e

  rows_left : ℕ → List Tuple → Result (Option Tuple × Raw) → Result (Option (List Tuple) × Raw)
  rows_left fuel rows = continue (λ next. elim next [
    | none ↦ pure (some rows)
    | some tuple ↦ read_rows g fuel (rewind g tuple) (rows ++ tuple ∷ [])
  ])

  round_ends :
      (fuel : ℕ) (rows : List Tuple) (raw : Bytes) (x : Result (Option Tuple × Raw))
      → ((t : Tuple) (s : Raw)
          → x ≡ ok (some t, s)
          → (rest : Raw) → read_rows g fuel (rewind g t) (rows ++ t ∷ []) s ≢ ok (none, rest))
      → (rest : Raw) → rows_left fuel rows x ≢ ok (none, rest)
  unfolding rows_left pure
  round_ends fuel rows raw (ok (none, s)) h rest e = cc
  round_ends fuel rows raw (ok (some t, s)) h rest e = h t s refl rest e
  round_ends fuel rows raw (err c) h rest e = cc

  -- With more fuel than bytes the loop ends by itself.
  pub read_rows_ends :
      (fuel : ℕ) (buffers : Tuple) (rows : List Tuple) (raw : Bytes)
      → length raw < fuel
      → (rest : Raw) → read_rows g fuel buffers rows raw ≢ ok (none, rest)
  unfolding read_rows ◌>>=◌ rows_left
  read_rows_ends zero buffers rows raw h rest = absurd (omega arith)
  read_rows_ends (suc fuel) buffers rows raw h rest =
      round_ends fuel rows raw (read_next g buffers raw)
        (λ t s q.
          read_rows_ends fuel (rewind g t) (rows ++ t ∷ []) s
            (omega (arith, read_next-length buffers raw t s q)))
        rest

  abbrev pub IsRow : List Column → Type 0
  IsRow cs = (length cs < 2 ^ 32) × All (IsColumn g) cs

  abbrev pub row_bytes : List Column → Bytes
  row_bytes cs = u32 (length cs) ++ columns_bytes g cs

  write_row-eq-ok : (cs : List Column) → IsRow cs → write_row g cs ≡ ok (row_bytes cs)
  unfolding write_row write_record_start
  write_row-eq-ok cs h = ap (after (u32 (length cs))) (write_columns-eq-ok g cs h.1)

  abbrev pub rows_bytes : List (List Column) → Bytes
  rows_bytes [] = []
  rows_bytes (cs ∷ rows) = row_bytes cs ++ rows_bytes rows

  -- A row is not empty, so that the reader sees it.
  read_next-row :
      (t : Tuple) (cs : List Column) (rest : Bytes)
      → IsRow cs
      → read_next g (rewind g t) (row_bytes cs ++ rest) ≡ ok (some (tuple_of g cs), rest)
  unfolding read_next rewind u32 read_tuple
  read_next-row t cs rest h = (Parses-bind_pure some (Parses-tuple g cs h.0 h.1)).at rest

  read_rows-bytes :
      (fuel : ℕ) (t : Tuple) (done : List Tuple) (rows : List (List Column))
      → All IsRow rows
      → length rows < fuel
      → read_rows g fuel (rewind g t) done (rows_bytes rows)
        ≡ ok (some (done ++ map (tuple_of g) rows), [])
  unfolding read_rows ◌>>=◌ rows_left pure
  read_rows-bytes zero t done rows h n = absurd (omega arith)
  read_rows-bytes (suc fuel) t done [] h n = unfold read_next in rw append-nil
  read_rows-bytes (suc fuel) t done (cs ∷ rows) h n =
      ap (rows_left fuel done) (read_next-row t cs (rows_bytes rows) h.0)
      ∙ read_rows-bytes fuel (tuple_of g cs) (done ++ tuple_of g cs ∷ []) rows h.1 (omega arith)
      ∙ ap (λ ts. ok (some ts, [])) (append_assoc done (tuple_of g cs ∷ []) (map (tuple_of g) rows))

  length-rows_bytes : (rows : List (List Column)) → length rows ≤ length (rows_bytes rows)
  unfolding u32
  length-rows_bytes [] = omega arith
  length-rows_bytes (cs ∷ rows) =
      omega (arith, length-rows_bytes rows, length-append (row_bytes cs) (rows_bytes rows))

  pub write_rows-eq-ok :
      (rows : List (List Column)) → All IsRow rows → write_rows g rows ≡ ok (rows_bytes rows)
  unfolding write_rows
  write_rows-eq-ok [] h = refl
  write_rows-eq-ok (cs ∷ rows) h =
      ap (λ x. both x (write_rows g rows)) (write_row-eq-ok cs h.0)
      ∙ ap (after (row_bytes cs)) (write_rows-eq-ok rows h.1)

  -- The whole record is read back: its head, and its rows in order.
  pub read_all-bytes :
      (c : Common) (table_name : Bytes) (rows : List (List Column))
      → IsWords c
      → length table_name < 2 ^ 32
      → All IsRow rows
      → read_all g (write_start c table_name ++ rows_bytes rows)
        ≡ ok ((head_of c table_name, some (map (tuple_of g) rows)), [])
  unfolding read_all ◌>>=◌ pure
  read_all-bytes c table_name rows h n valid =
      ap
        (continue (λ head raw.
          continue (λ ts. pure (head, ts)) (read_rows g (suc (length raw)) (empty_tuple 0) [] raw)))
        ((Parses-head c table_name h n).at (rows_bytes rows))
      ∙ ap (continue (λ ts. pure (head_of c table_name, ts))) (
          read_rows-bytes (suc (length (rows_bytes rows))) (empty_tuple 0) [] rows valid
            (omega (arith, length-rows_bytes rows)))
