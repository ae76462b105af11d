-- ===== src/Tests/Wal.antt =====
-- The WAL records at concrete rows and tables.
use pgroonga.Base.{
  ℕ, ◌+◌, ◌≡◌, ◌≢◌, refl, true, Bytes, codes, List, All, [], ◌∷◌, ◌++◌, Option, none, some, take,
  drop, ◌==◌, if◌then◌else◌, arith,
}
use pgroonga.Wal.Raw.{ok, err, garbage, u32}
use pgroonga.Wal.Value.{Groonga, int64, short_text, other, write_layout}
use pgroonga.Wal.Tuple.{Column, key, column, bulk, vector, uvector, empty_tuple}
use pgroonga.Wal.Tuple.RoundTrip.{IsColumn, tuple_of}
use pgroonga.Wal.Record.{Common, common_bytes}
use pgroonga.Wal.Record.Delete
use pgroonga.Wal.Record.Delete.{Delete}
use pgroonga.Wal.Record.BulkInsert.{read_all, read_rows, write_start}
use pgroonga.Wal.Record.BulkInsert.Laws.{read_all-bytes, read_rows_ends, rows_bytes, head_of}
use pgroonga.Wal.Redo.{insert, delete, info_of, write, redo}
use pgroonga.Wal.Redo.Codec.{as_read}
use pgroonga.Wal.Redo.Laws.{redo-write, redo-write_more, redo-write_cut}

-- Groonga with two of its types.
abbrev pub groonga : Groonga
groonga = record {
  built_in = λ d. if d == 14 then short_text else if d == 9 then int64 else other;
  is_text_family = λ d. d == 14;
  key_name = codes "_key";
  short_text_id = 14;
  void_id = 0;
}

abbrev pub no_names : ℕ → Option Bytes
no_names id = none

abbrev pub database : Common
database = record { db_id = 16384; db_encoding = 6; db_table_space_id = 1663 }

-- A key, a packed ctid, a vector of texts and a vector of numbers.
abbrev pub row : List Column
row =
    key (codes "k1")
    ∷ column (codes "ctid") (bulk 9 (1 ∷ 2 ∷ 3 ∷ 4 ∷ 5 ∷ 6 ∷ 7 ∷ 8 ∷ []))
    ∷ column (codes "tags") (vector 14 ((14, codes "a") ∷ (14, codes "bc") ∷ []))
    ∷ column (codes "ids") (uvector 9 (codes "12345678"))
    ∷ []

pub row-IsColumn : All (IsColumn groonga) row
unfolding write_layout
row-IsColumn = (
  (omega arith, omega arith),
  (
    (refl, omega arith, (omega arith, omega arith)),
    (
      (
        refl,
        omega arith,
        (omega arith, refl, omega arith, ((refl, omega arith), ((refl, omega arith), tt))),
      ),
      ((refl, omega arith, (omega arith, refl, omega arith)), tt),
    ),
  ),
)

redo-write_example :
    (bs : Bytes) × (write groonga no_names (insert database (codes "Sources1") row) [] ≡ ok bs)
    × (redo groonga true (info_of insert + 1) bs
        ≡ ok (some (as_read groonga no_names (insert database (codes "Sources1") row)), []))
    × (info_of insert ≡ 0x50)
redo-write_example =
    redo-write groonga no_names (insert database (codes "Sources1") row) [] 1 (omega arith)
      (record {
        words = omega arith;
        name_fits = omega arith;
        count_fits = omega arith;
        columns = row-IsColumn;
      })

abbrev deletion : Delete
deletion = record {
  common = database;
  table_name = codes "T";
  table_name_size = 1;
  key = codes "k1";
  key_size = 2;
}

abbrev deletion_bytes : Bytes
unfolding Delete.write
deletion_bytes = Delete.write deletion (codes "pad.")

deletion-IsFilled : Delete.IsFilled deletion (codes "pad.")
deletion-IsFilled = omega arith

redo-write_more_example :
    redo groonga true (info_of delete + 1) (deletion_bytes ++ codes "xyz") ≡ err (garbage 3)
unfolding Delete.write write
redo-write_more_example =
    redo-write_more groonga no_names (delete deletion) (codes "pad.") 1 deletion_bytes (codes "xyz")
      (omega arith) (λ e. cc) deletion-IsFilled refl (cc)

redo-write_cut_example :
    redo groonga true (info_of delete + 1) (take 20 deletion_bytes) ≢ ok (none, [])
unfolding Delete.write write common_bytes u32
redo-write_cut_example =
    redo-write_cut groonga no_names (delete deletion) (codes "pad.") 1 (take 20 deletion_bytes)
      (drop 20 deletion_bytes) (omega arith) (λ e. cc) deletion-IsFilled refl (cc) (none, [])

read_all-bytes_example :
    read_all groonga (write_start database (codes "T") ++ rows_bytes groonga (row ∷ row ∷ []))
    ≡ ok (
      (head_of database (codes "T"), some (tuple_of groonga row ∷ tuple_of groonga row ∷ [])),
      [],
    )
read_all-bytes_example =
    read_all-bytes groonga database (codes "T") (row ∷ row ∷ []) (omega arith) (omega arith)
      ((omega arith, row-IsColumn), ((omega arith, row-IsColumn), tt))

read_rows_ends_example : read_rows groonga 5 (empty_tuple 0) [] (0 ∷ 0 ∷ 0 ∷ 0 ∷ []) ≢ ok (none, [])
read_rows_ends_example =
    read_rows_ends groonga 5 (empty_tuple 0) [] (0 ∷ 0 ∷ 0 ∷ 0 ∷ []) (omega arith) []
