-- ===== src/Tests/Redo.antt =====
-- A standby with two databases and counters for Groonga's databases.
use pgroonga.Base.{
  ℕ, ◌+◌, ◌≡◌, refl, true, false, Bytes, codes, List, [], ◌∷◌, length, none, some, arith, inl,
}
use pgroonga.Wal.Raw.{ok}
use pgroonga.Wal.Record.Delete.{Delete}
use pgroonga.Wal.Record.BulkInsert.{BulkInsert}
use pgroonga.Wal.Tuple.{Tuple}
use pgroonga.Wal.Tuple.RoundTrip.{tuple_of}
use pgroonga.Wal.Redo.{Redo, delete, bulk_insert, info_of, write, redo}
use pgroonga.Wal.Redo.Calls.{Calls}
use pgroonga.Wal.Redo.Execute.{execute}
use pgroonga.Wal.Redo.Execute.Bulk.{execute_all, inserts_of, execute-bulk_insert}
use pgroonga.Wal.Redo.Server.{Server, replay}
use pgroonga.Wal.Redo.Server.Own.{IsReplay}
use pgroonga.Wal.Redo.Server.Laws.{Entry, log_of, reads_of, replay-log_of}
use pgroonga.Tests.Wal.{groonga, no_names, row, row-IsColumn}

-- A database is the number of its changes; every name but the empty one stands for itself.
abbrev counting : Calls ℕ Bytes Bytes
counting = record {
  lookup = λ d name. some name;
  lookup_column = λ d table name. some name;
  is_no_key = λ d table. false;
  rows = λ d table. [];
  ctid = λ d table id. 0;
  remove_dependent = λ name d. some d;
  remove = λ name d. some d;
  object_id = λ d object. length object;
  object_name = λ d object. object;
  source_ids = λ d object. [];
  path = λ table_space name. name;
  create_table = λ name path flags type d. some (name, d + 1);
  set_module = λ module' table value d. some (d + 1);
  create_column = λ table name path flags type d. some (d + 1);
  set_source_ids = λ column ids d. some (d + 1);
  rename_table = λ table name d. some (d + 1);
  add_record = λ table key d. some (d, d + 1);
  set_value = λ column id value d. some (d + 1);
  delete_id = λ table id d. some (d + 1);
  delete_key = λ table key d. some (d + 1);
  remove_object = λ object d. some (d + 1);
  register_plugin = λ name d. some (d + 1);
}

abbrev deletion_in : ℕ → Delete
deletion_in database = record {
  common = record { db_id = database; db_encoding = 6; db_table_space_id = 1663 };
  table_name = codes "T";
  table_name_size = 1;
  key = codes "k1";
  key_size = 2;
}

abbrev entry_in : ℕ → Entry
entry_in database = record {
  written = delete (deletion_in database);
  padding = codes "pad.";
  low = 1;
}

abbrev no_database : Server ℕ
no_database = record {
  files = λ database table_space. none;
  current_database = 0;
  current_table_space = 0;
}

-- Two rows in another database.
abbrev rows_in : ℕ → Entry
rows_in database = record {
  written =
      bulk_insert (record { db_id = database; db_encoding = 6; db_table_space_id = 1663 })
        (codes "T") (row ∷ row ∷ []);
  padding = [];
  low = 3;
}

abbrev entries : List Entry
entries = entry_in 5 ∷ rows_in 7 ∷ entry_in 5 ∷ []

replay-log_of_example :
    (log : List (ℕ × Bytes)) × (log_of groonga no_names entries ≡ ok log)
    × IsReplay
        (λ encoding. counting)
        0
        (reads_of groonga no_names entries)
        no_database
        (replay (λ d. some d) (some 0) (λ encoding. counting) groonga log no_database)
replay-log_of_example =
    replay-log_of groonga no_names (λ d. some d) (some 0) (λ encoding. counting) 0 (λ d. refl) refl
      entries no_database
      (
        (omega arith, omega arith, omega arith),
        (
          (
            (
              omega arith,
              omega arith,
              ((omega arith, row-IsColumn), ((omega arith, row-IsColumn), tt)),
            ),
            omega arith,
            omega arith,
          ),
          ((omega arith, omega arith, omega arith), tt),
        ),
      )
      (inl refl)

abbrev rows_head : BulkInsert
rows_head = record {
  common = record { db_id = 5; db_encoding = 6; db_table_space_id = 1663 };
  table_name = codes "T";
  table_name_size = 1;
}

abbrev two_rows : List Tuple
two_rows = tuple_of groonga row ∷ tuple_of groonga row ∷ []

execute-bulk_insert_example :
    (bs : Bytes) × (r : Redo) × (write groonga no_names
        (bulk_insert rows_head.common (codes "T") (row ∷ row ∷ []))
        []
      ≡ ok bs)
    × (redo groonga true (info_of bulk_insert + 2) bs ≡ ok (some r, []))
    × (execute counting r 0
        ≡ execute_all counting (inserts_of groonga rows_head.common (codes "T") (row ∷ row ∷ [])) 0)
execute-bulk_insert_example =
    execute-bulk_insert counting (λ table key d name. refl) (λ column id value d name. refl) groonga
      no_names rows_head.common (codes "T") (row ∷ row ∷ []) [] 2 (codes "T") 0 (omega arith)
      (omega arith, omega arith, ((omega arith, row-IsColumn), ((omega arith, row-IsColumn), tt)))
      refl

-- Two rows with a key and three columns each.
two_rows_changes : execute counting (bulk_insert rows_head (some two_rows)) 0 ≡ some 8
unfolding execute tuple_of
two_rows_changes = refl
