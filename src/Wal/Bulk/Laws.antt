-- ===== src/Wal/Bulk/Laws.antt =====
-- The records of a bulk insertion hold its rows, each once and in order, and are bounded.
use pgroonga.Base.{
  ℕ, ◌^◌, ◌<◌, ◌≡◌, refl, sym, ap, ◌∙◌, subst, Bool, true, false, ◌&&◌, Bytes, List, All, [], ◌∷◌,
  ◌++◌, map, length, append_assoc, append-nil, ltb, if◌then◌else◌, some,
}
use pgroonga.Wal.Raw.{ok, u32}
use pgroonga.Wal.Record.{Common, IsWords}
use pgroonga.Wal.Value.{Groonga}
use pgroonga.Wal.Tuple.{Column}
use pgroonga.Wal.Tuple.RoundTrip.{tuple_of, columns_bytes, write_columns-eq-ok}
use pgroonga.Wal.Record.BulkInsert.{write_start, write_record_start, read_all}
use pgroonga.Wal.Record.BulkInsert.Laws.{IsRow, row_bytes, rows_bytes, head_of, read_all-bytes}
use pgroonga.Wal.Bulk.{
  Bulk, split_if_large, insert_start, insert_row, insert_rows, bulk_insert, write_finish,
  bulk_insert_start,
}

-- The rows of the records one after the other.
abbrev pub all_rows : List (List (List Column)) → List (List Column)
all_rows [] = []
all_rows (rows ∷ groups) = rows ++ all_rows groups

all_rows-append :
    (xs : List (List (List Column))) (rows : List (List Column))
    → all_rows (xs ++ rows ∷ []) ≡ all_rows xs ++ rows
all_rows-append [] rows = append-nil rows
all_rows-append (x ∷ xs) rows =
    ap (λ t. x ++ t) (all_rows-append xs rows) ∙ sym (append_assoc x _ _)

map-append :
    {A B : Type 0} (f : A → B) (xs : List A) (x : A) → map f (xs ++ x ∷ []) ≡ map f xs ++ f x ∷ []
map-append f [] x = refl
map-append f (y ∷ xs) x = ap (λ t. f y ∷ t) (map-append f xs x)

All-left : {A : Type 0} (P : A → Type 0) (xs ys : List A) → All P (xs ++ ys) → All P xs
All-left P [] ys all = tt
All-left P (x ∷ xs) ys (p, all) = (p, All-left P xs ys all)

All-right : {A : Type 0} (P : A → Type 0) (xs ys : List A) → All P (xs ++ ys) → All P ys
All-right P [] ys all = all
All-right P (x ∷ xs) ys (p, all) = All-right P xs ys all

module _ (g : Groonga) (c : Common) (table_name : Bytes) where
  rows_bytes-append :
      (rows : List (List Column)) (cs : List Column)
      → rows_bytes g (rows ++ cs ∷ []) ≡ rows_bytes g rows ++ row_bytes g cs
  rows_bytes-append [] cs = append-nil (row_bytes g cs)
  rows_bytes-append (r ∷ rows) cs =
      ap (λ t. row_bytes g r ++ t) (rows_bytes-append rows cs)
      ∙ sym (append_assoc (row_bytes g r) _ _)

  -- A record with these rows.
  abbrev pub record_of : List (List Column) → Bytes
  record_of rows = write_start c table_name ++ rows_bytes g rows

  record_of-append :
      (rows : List (List Column)) (cs : List Column)
      → record_of (rows ++ cs ∷ []) ≡ record_of rows ++ row_bytes g cs
  record_of-append rows cs =
      ap (λ t. write_start c table_name ++ t) (rows_bytes-append rows cs)
      ∙ sym (append_assoc (write_start c table_name) _ _)

  module _ (max_size : ℕ) where
    -- The records that were emitted and the one in the buffer, by their rows.
    record Holds (b : Bulk) (groups : List (List (List Column))) (rows : List (List Column))
        : Type 0 where
      records_are : b.records ≡ map record_of groups
      buffer_is : b.buffer ≡ record_of rows

    record Inserted (b : Bulk) (rows : List (List Column)) : Type 0 where
      groups : List (List (List Column))
      last : List (List Column)
      holds : Holds b groups last
      rows_are : all_rows groups ++ last ≡ rows

    split_if_large-Inserted :
        (b : Bulk) (rows : List (List Column))
        → Inserted b rows
        → Inserted (split_if_large max_size c table_name b) rows
    unfolding split_if_large write_finish bulk_insert_start
    split_if_large-Inserted b rows h = by_size (ltb 0 max_size && ltb max_size (length b.buffer))
      where
        split : Inserted (bulk_insert_start max_size c table_name (write_finish b)) rows
        split = record {
          groups = h.groups ++ h.last ∷ [];
          last = [];
          holds = record {
            records_are =
                ap (λ t. t ++ b.buffer ∷ []) h.holds.records_are
                ∙ ap (λ t. map record_of h.groups ++ t ∷ []) h.holds.buffer_is
                ∙ sym (map-append record_of h.groups h.last);
            buffer_is = sym (append-nil (write_start c table_name));
          };
          rows_are = append-nil _ ∙ all_rows-append h.groups h.last ∙ h.rows_are;
        }

        by_size :
            (large : Bool)
            → Inserted
                (if large then bulk_insert_start max_size c table_name (write_finish b) else b)
                rows
        by_size true = split
        by_size false = h

    insert_row-Inserted :
        (cs : List Column) (b : Bulk) (rows : List (List Column))
        → IsRow g cs
        → Inserted b rows
        → (b' : Bulk) × (insert_row max_size c table_name g cs b ≡ ok b')
          × Inserted b' (rows ++ cs ∷ [])
    unfolding insert_row insert_start write_record_start
    insert_row-Inserted cs b rows valid h =
        let s = split_if_large-Inserted b rows h in
        let split = split_if_large max_size c table_name b in
        (
          record split { buffer = (split.buffer ++ u32 (length cs)) ++ columns_bytes g cs },
          rw (write_columns-eq-ok g cs valid.1) refl,
          record {
            groups = s.groups;
            last = s.last ++ cs ∷ [];
            holds = record {
              records_are = s.holds.records_are;
              buffer_is =
                  append_assoc split.buffer (u32 (length cs)) (columns_bytes g cs)
                  ∙ ap (λ t. t ++ row_bytes g cs) s.holds.buffer_is
                  ∙ sym (record_of-append s.last cs);
            };
            rows_are =
                sym (append_assoc (all_rows s.groups) s.last (cs ∷ []))
                ∙ ap (λ t. t ++ cs ∷ []) s.rows_are;
          },
        )

    insert_rows-Inserted :
        (todo : List (List Column)) (b : Bulk) (rows : List (List Column))
        → All (IsRow g) todo
        → Inserted b rows
        → (b' : Bulk) × (insert_rows max_size c table_name g todo b ≡ ok b')
          × Inserted b' (rows ++ todo)
    unfolding insert_rows
    insert_rows-Inserted [] b rows valid h =
        (b, refl, subst (λ t. Inserted b t) (sym (append-nil rows)) h)
    insert_rows-Inserted (cs ∷ todo) b rows (valid, all) h =
        let one = insert_row-Inserted cs b rows valid h in
        let others = insert_rows-Inserted todo one.0 (rows ++ cs ∷ []) all one.2 in
        (
          others.0,
          rw one.1 others.1,
          subst (λ t. Inserted others.0 t) (append_assoc rows (cs ∷ []) todo) others.2,
        )

    -- Each record is read back as the head of the insertion and some of the rows.
    abbrev pub AreRead : List Bytes → List (List (List Column)) → Type 0
    AreRead [] [] = Unit
    AreRead (r ∷ records) (rows ∷ groups) =
        (read_all g r ≡ ok ((head_of c table_name, some (map (tuple_of g) rows)), []))
        × AreRead records groups
    AreRead _ _ = ⊥

    records-AreRead :
        (groups : List (List (List Column)))
        → IsWords c
        → length table_name < 2 ^ 32
        → All (IsRow g) (all_rows groups)
        → AreRead (map record_of groups) groups
    records-AreRead [] words small valid = tt
    records-AreRead (rows ∷ groups) words small valid = (
      read_all-bytes g c table_name rows words small
          (All-left (IsRow g) rows (all_rows groups) valid),
      records-AreRead groups words small (All-right (IsRow g) rows (all_rows groups) valid),
    )

    -- A bulk insertion of valid rows, with any limit, gives records; the standby reads each of them back
    -- as the head of the insertion and some rows, and the rows of the records one after the other are
    -- the rows that were inserted, each once and in order.
    pub bulk_insert-read_all :
        (rows : List (List Column))
        → IsWords c
        → length table_name < 2 ^ 32
        → All (IsRow g) rows
        → (records : List Bytes) × (groups : List (List (List Column))) × (bulk_insert max_size c
              table_name g rows
            ≡ ok records)
          × (all_rows groups ≡ rows)
          × AreRead records groups
    unfolding bulk_insert bulk_insert_start write_finish
    bulk_insert-read_all rows words small valid =
        let start : Inserted (record { buffer = write_start c table_name; records = [] }) [] =
          record {
            groups = [];
            last = [];
            holds = record {
              records_are = refl;
              buffer_is = sym (append-nil (write_start c table_name));
            };
            rows_are = refl;
          } in
        let done =
          insert_rows-Inserted rows (record { buffer = write_start c table_name; records = [] }) []
            valid start in
        let b = done.0 in
        let h = done.2 in
        let groups = h.groups ++ h.last ∷ [] in
        let rows_are : all_rows groups ≡ rows = all_rows-append h.groups h.last ∙ h.rows_are in
        let records_are : b.records ++ b.buffer ∷ [] ≡ map record_of groups =
          ap (λ t. t ++ b.buffer ∷ []) h.holds.records_are
          ∙ ap (λ t. map record_of h.groups ++ t ∷ []) h.holds.buffer_is
          ∙ sym (map-append record_of h.groups h.last) in
        (
          b.records ++ b.buffer ∷ [],
          groups,
          rw done.1 refl,
          rows_are,
          subst (λ t. AreRead t groups) (sym records_are)
              (records-AreRead groups words small
                (subst (λ t. All (IsRow g) t) (sym rows_are) valid)),
        )
