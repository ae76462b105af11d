-- ===== src/Wal/Redo.antt =====
-- The WAL resource manager reads a record by the kind in its info byte (`pgrnwrm_redo` and the head of
-- each `pgrnwrm_redo_*` in src/pgroonga-wal-resource-manager.c); the writer of each kind stores that kind
-- (`XLogInsert` in src/pgrn-wal-custom.h). On a server that is not a standby nothing is done.
pub mod Codec
pub mod Laws
pub mod Calls
pub mod Execute
pub mod Server
use pgroonga.Base.{
  ℕ, ◌+◌, ◌*◌, ◌/◌, Bool, true, false, Bytes, List, ◌==◌, if◌then◌else◌, Option, none, some,
}
use pgroonga.Wal.Raw.{Result, ok, err, unknown_info, Reader, Raw, pure, fail, ◌>>=◌}
use pgroonga.Wal.Object.{GrnObj}
use pgroonga.Wal.Value.{Groonga}
use pgroonga.Wal.Tuple.{Column, Tuple, after}
use pgroonga.Wal.Record.{Common}
use pgroonga.Wal.Record.CreateTable
use pgroonga.Wal.Record.CreateTable.{CreateTable}
use pgroonga.Wal.Record.CreateColumn
use pgroonga.Wal.Record.CreateColumn.{CreateColumn}
use pgroonga.Wal.Record.SetSources
use pgroonga.Wal.Record.SetSources.{SetSources}
use pgroonga.Wal.Record.RenameTable
use pgroonga.Wal.Record.RenameTable.{RenameTable}
use pgroonga.Wal.Record.Insert
use pgroonga.Wal.Record.Insert.{Insert}
use pgroonga.Wal.Record.Delete
use pgroonga.Wal.Record.Delete.{Delete}
use pgroonga.Wal.Record.RemoveObject
use pgroonga.Wal.Record.RemoveObject.{RemoveObject}
use pgroonga.Wal.Record.RegisterPlugin
use pgroonga.Wal.Record.RegisterPlugin.{RegisterPlugin}
use pgroonga.Wal.Record.BulkInsert
use pgroonga.Wal.Record.BulkInsert.{BulkInsert}

pub data Kind : Type 0 where
  create_table create_column set_sources rename_table insert delete remove_object register_plugin :
      Kind
  bulk_insert : Kind

-- `PGRN_WAL_RECORD_*`
unfoldable pub info_of : Kind → ℕ
info_of create_table = 0x10
info_of create_column = 0x20
info_of set_sources = 0x30
info_of rename_table = 0x40
info_of insert = 0x50
info_of delete = 0x60
info_of remove_object = 0x70
info_of register_plugin = 0x80
info_of bulk_insert = 0x90

-- `XLogRecGetInfo(record) & XLR_RMGR_INFO_MASK`: the four high bits of the byte.
abbrev pub masked : ℕ → ℕ
masked info = info / 16 * 16

-- What a writer is given: the record as it was filled, or a table with rows.
pub data Written : Type 0 where
  create_table : CreateTable (Option GrnObj) → Written
  create_column : CreateColumn (Option GrnObj) → Written
  set_sources : SetSources (Option GrnObj) → Written
  rename_table : RenameTable → Written
  insert : Common → Bytes → List Column → Written
  delete : Delete → Written
  remove_object : RemoveObject → Written
  register_plugin : RegisterPlugin → Written
  bulk_insert : Common → Bytes → List (List Column) → Written

-- What the redo function of each kind has read when it goes to work.
pub data Redo : Type 0 where
  create_table : CreateTable (Option Bytes) → Redo
  create_column : CreateColumn (Option Bytes) → Redo
  set_sources : SetSources (Option Bytes) → Redo
  rename_table : RenameTable → Redo
  insert : Insert → Redo
  delete : Delete → Redo
  remove_object : RemoveObject → Redo
  register_plugin : RegisterPlugin → Redo
  bulk_insert : BulkInsert → Option (List Tuple) → Redo

abbrev pub kind_of : Written → Kind
kind_of (create_table r) = create_table
kind_of (create_column r) = create_column
kind_of (set_sources r) = set_sources
kind_of (rename_table r) = rename_table
kind_of (insert c name columns) = insert
kind_of (delete r) = delete
kind_of (remove_object r) = remove_object
kind_of (register_plugin r) = register_plugin
kind_of (bulk_insert c name rows) = bulk_insert

module _ (g : Groonga) (source_name : ℕ → Option Bytes) where
  -- The bytes that the writer of each kind registers.
  unfoldable pub write : Written → Bytes → Result Bytes
  write (create_table r) padding = ok (CreateTable.write r padding)
  write (create_column r) padding = ok (CreateColumn.write r)
  write (set_sources r) padding = ok (SetSources.write source_name r padding)
  write (rename_table r) padding = ok (RenameTable.write r padding)
  write (insert c name columns) padding = Insert.write g c name columns
  write (delete r) padding = ok (Delete.write r padding)
  write (remove_object r) padding = ok (RemoveObject.write r padding)
  write (register_plugin r) padding = ok (RegisterPlugin.write r padding)
  write (bulk_insert c name rows) padding =
      after (BulkInsert.write_start c name) (BulkInsert.write_rows g rows)

module _ (g : Groonga) where
  unfoldable pub read_kind : Kind → Reader Redo
  read_kind create_table = do r ← CreateTable.read; pure (create_table r)
  read_kind create_column = do r ← CreateColumn.read; pure (create_column r)
  read_kind set_sources = do r ← SetSources.read; pure (set_sources r)
  read_kind rename_table = do r ← RenameTable.read; pure (rename_table r)
  read_kind insert = do r ← Insert.read g; pure (insert r)
  read_kind delete = do r ← Delete.read; pure (delete r)
  read_kind remove_object = do r ← RemoveObject.read; pure (remove_object r)
  read_kind register_plugin = do r ← RegisterPlugin.read; pure (register_plugin r)
  read_kind bulk_insert = do r ← BulkInsert.read_all g; pure (bulk_insert r.0 r.1)

  -- The switch of `pgrnwrm_redo`.
  unfoldable pub dispatch : ℕ → Reader Redo
  unfolding read_kind info_of
  dispatch info =
      if info == info_of create_table
      then read_kind create_table
      else if info == info_of create_column
      then read_kind create_column
      else if info == info_of set_sources
      then read_kind set_sources
      else if info == info_of rename_table
      then read_kind rename_table
      else if info == info_of insert
      then read_kind insert
      else if info == info_of delete
      then read_kind delete
      else if info == info_of remove_object
      then read_kind remove_object
      else if info == info_of register_plugin
      then read_kind register_plugin
      else if info == info_of bulk_insert
      then read_kind bulk_insert
      else fail (unknown_info info)

  -- `none`: the record is ignored, for the server is no standby.
  unfoldable pub redo : Bool → ℕ → Bytes → Result (Option Redo × Raw)
  unfolding dispatch
  redo standby info raw =
      let replay = (do r ← dispatch (masked info); pure (some r)) raw in
      if standby then replay else ok (none, raw)
