-- ===== src/Wal/Redo/Server.antt =====
-- The resource manager of a standby with its databases: `pgrnwrm_redo_setup`, which keeps the database of the last
-- record open, and `pgrnwrm_redo` from the bytes of a record on. A Groonga database is kept in the files of a database
-- of PostgreSQL in a table space; `open_database` and `create_database` are the calls of Groonga, and `calls` are those
-- in an encoding of PostgreSQL.
pub mod Own
pub mod Laws
use pgroonga.Base.{
  ℕ, Bool, true, false, ◌&&◌, Bytes, List, [], ◌∷◌, ◌==◌, if◌then◌else◌, Option, none, some,
}
use pgroonga.Wal.Raw.{Raw, Result, ok, err}
use pgroonga.Wal.Value.{Groonga}
use pgroonga.Wal.Record.{Common}
use pgroonga.Wal.Redo.{
  Redo, create_table, create_column, set_sources, rename_table, insert, delete, remove_object,
  register_plugin, bulk_insert, redo,
}
use pgroonga.Wal.Redo.Calls.{Calls, ◌>>=◌}
use pgroonga.Wal.Redo.Execute.{execute}

abbrev pub common_of : Redo → Common
common_of (create_table r) = r.common
common_of (create_column r) = r.common
common_of (set_sources r) = r.common
common_of (rename_table r) = r.common
common_of (insert r) = r.common
common_of (delete r) = r.common
common_of (remove_object r) = r.common
common_of (register_plugin r) = r.common
common_of (bulk_insert r ts) = r.common

-- The files of the databases, by the database and the table space, and `PGrnWRMCurrentDatabase*`.
pub record Server (D : Type 0) : Type 0 where
  pub files : ℕ → ℕ → Option D
  pub current_database : ℕ
  pub current_table_space : ℕ

-- A change of a database is in its files at once.
abbrev pub store : {D : Type 0} → ℕ → ℕ → D → (ℕ → ℕ → Option D) → ℕ → ℕ → Option D
store database table_space d files database' table_space' =
    if (database == database') && (table_space == table_space')
    then some d
    else files database' table_space'

abbrev pub changed : {D : Type 0} → Common → D → Server D → Server D
changed c d s = record {
  files = store c.db_id c.db_table_space_id d s.files;
  current_database = c.db_id;
  current_table_space = c.db_table_space_id;
}

-- The database that is worked on.
unfoldable pub setup : {D : Type 0} → (D → Option D) → Option D → Common → Server D → Option D
setup open_database create_database c s =
    if (c.db_id == s.current_database) && (c.db_table_space_id == s.current_table_space)
    then s.files c.db_id c.db_table_space_id
    else elim (s.files c.db_id c.db_table_space_id) [
      | some d ↦ open_database d
      | none ↦ create_database
    ]

module _ {D O C : Type 0} (open_database : D → Option D) (create_database : Option D)
    (calls : ℕ → Calls D O C) where
  -- A record that was read.
  unfoldable pub redo_record : Redo → Server D → Option (Server D)
  unfolding setup
  redo_record r s = do
    d ← setup open_database create_database (common_of r) s
    d' ← execute (calls (common_of r).db_encoding) r d
    some (changed (common_of r) d' s)

  unfoldable pub redo_read : Result (Option Redo × Raw) → Server D → Option (Server D)
  unfolding redo_record
  redo_read (err e) s = none
  redo_read (ok (none, raw)) s = some s
  redo_read (ok (some r, raw)) s = redo_record r s

  -- `pgrnwrm_redo` on a standby.
  unfoldable pub redo_bytes : Groonga → ℕ → Bytes → Server D → Option (Server D)
  unfolding redo_read
  redo_bytes g info bytes s = redo_read (redo g true info bytes) s

  unfoldable pub replay : Groonga → List (ℕ × Bytes) → Server D → Option (Server D)
  unfolding redo_bytes
  replay g [] s = some s
  replay g ((info, bytes) ∷ log) s = do s' ← redo_bytes g info bytes s; replay g log s'
