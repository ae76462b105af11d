-- ===== src/Tests/Replicated.antt =====
-- The records of the generic WAL at a table that is made and a row that is inserted into it.
use pgroonga.Base.{◌^◌, ◌-◌, ℕ, Bytes, codes, List, [], ◌∷◌, ◌++◌, none, some, false}
use pgroonga.Wal.Tuple.{Value, bulk, vector, uvector}
use pgroonga.Wal.Pages.{Settings, WalData}
use pgroonga.Wal.Generic.{Operation}
use pgroonga.Wal.Decode.{Standby}
use pgroonga.Wal.Decode.Actions.{create_table}
use pgroonga.Wal.Decode.Insert.{Stored, integer}
use pgroonga.Wal.Decode.Object.{Change, inserted, changed}
use pgroonga.Wal.Decode.Inserted.{row_columns}

-- A database is the changes that were made; a table is found once there is a change.
abbrev Database : Type 0
Database = List (Change Bytes Bytes)

abbrev standby : Database → Standby Bytes Bytes
standby db = record {
  lookup = λ name. elim db [ [] ↦ none | c ∷ cs ↦ some name ];
  lookup_column = λ table name. some name;
  sources_table = none;
  is_no_key = λ table. false;
  range = λ c. 9;
  lexicon_domain = λ id. none;
}

abbrev perform : Database → Change Bytes Bytes → Database
perform db change = change ∷ db

abbrev own_name : Bytes → Bytes
own_name name = name

abbrev eight : ℕ → ℕ
eight domain = 8

-- 5 and -2 as Int64.
abbrev five : Bytes
five = 5 ∷ 0 ∷ 0 ∷ 0 ∷ 0 ∷ 0 ∷ 0 ∷ 0 ∷ []

abbrev minus_two : Bytes
minus_two = 254 ∷ 255 ∷ 255 ∷ 255 ∷ 255 ∷ 255 ∷ 255 ∷ 255 ∷ []

abbrev row : List (Bytes × Value)
row =
    (codes "n", bulk 9 minus_two)
    ∷ (codes "v", vector 9 ((9, five) ∷ (9, minus_two) ∷ []))
    ∷ (codes "u", uvector 9 (minus_two ++ five))
    ∷ []

abbrev making : Operation Bytes
making = Operation.create_table (codes "Words") 1 none none none none

abbrev insertion : Operation Bytes
insertion = Operation.insert (some (codes "Words")) (row_columns own_name (some (codes "ab")) row)

abbrev made : Change Bytes Bytes
made = changed (create_table (some (codes "Words")) 1 none none none none)

abbrev stored : Change Bytes Bytes
stored = inserted (
  codes "Words",
  some (codes "ab"),
  (codes "n", Stored.int64 (2 ^ 64 - 2))
      ∷ (codes "v", Stored.vector 9 (integer five ∷ integer minus_two ∷ []))
      ∷ (codes "u", Stored.vector 9 (integer minus_two ∷ integer five ∷ []))
      ∷ [],
)

-- No data page is there yet.
abbrev pages : Settings
pages = record { block_size = 40; room = 16; max_size = 0; max_pages = 4 }

abbrev no_pages : WalData
no_pages = record {
  next = 1;
  max = 2;
  pages = [];
  current = none;
  n_used_pages = 1;
  n_buffers = 1;
  positions = [];
}
