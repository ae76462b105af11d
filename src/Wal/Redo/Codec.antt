-- ===== src/Wal/Redo/Codec.antt =====
-- The writer and the reader of each kind of record, under the kind's info byte.
use pgroonga.Base.{
  ℕ, ◌+◌, ◌^◌, ◌<◌, ◌≡◌, ◌≢◌, refl, ap, ◌∙◌, true, Bytes, length, map, All, Option, some, arith,
}
use pgroonga.Wal.Raw.{ok, Reader, pure, continue, ◌>>=◌}
use pgroonga.Wal.Raw.Parses.{Parses}
use pgroonga.Wal.Raw.Extends.{Extends}
use pgroonga.Wal.Value.{Groonga}
use pgroonga.Wal.Tuple.RoundTrip.{tuple_of}
use pgroonga.Wal.Record.{until_end, IsWords}
use pgroonga.Wal.Record.CreateTable
use pgroonga.Wal.Record.CreateColumn
use pgroonga.Wal.Record.SetSources
use pgroonga.Wal.Record.RenameTable
use pgroonga.Wal.Record.Insert
use pgroonga.Wal.Record.Delete
use pgroonga.Wal.Record.RemoveObject
use pgroonga.Wal.Record.RegisterPlugin
use pgroonga.Wal.Record.BulkInsert.Laws.{head_of, IsRow}
use pgroonga.Wal.Redo.{
  Kind, create_table, create_column, set_sources, rename_table, insert, delete, remove_object,
  register_plugin, bulk_insert, info_of, masked, Written, Redo, kind_of, write, read_kind, dispatch,
  redo,
}

pub masked-info_of : (k : Kind) (low : ℕ) → low < 16 → masked (info_of k + low) ≡ info_of k
unfolding info_of
masked-info_of create_table low h = omega arith
masked-info_of _ low h = omega arith

module _ (g : Groonga) (source_name : ℕ → Option Bytes) where
  pub dispatch-info_of : (k : Kind) → dispatch g (info_of k) ≡ read_kind g k
  unfolding dispatch info_of
  dispatch-info_of create_table = refl
  dispatch-info_of _ = refl

  -- The conditions under which the writer of each kind writes a record that can be read.
  abbrev pub IsFilled : Written → Bytes → Type 0
  IsFilled (create_table r) padding = CreateTable.IsFilled r padding
  IsFilled (create_column r) padding = CreateColumn.IsFilled r
  IsFilled (set_sources r) padding = SetSources.IsFilled source_name r padding
  IsFilled (rename_table r) padding = RenameTable.IsFilled r padding
  IsFilled (insert c name columns) padding = Insert.IsFilled g c name columns
  IsFilled (delete r) padding = Delete.IsFilled r padding
  IsFilled (remove_object r) padding = RemoveObject.IsFilled r padding
  IsFilled (register_plugin r) padding = RegisterPlugin.IsFilled r padding
  IsFilled (bulk_insert c name rows) padding =
      IsWords c × (length name < 2 ^ 32) × All (IsRow g) rows

  -- What the redo side is to read: texts for objects, names for ids, arrays for a row.
  abbrev pub as_read : Written → Redo
  as_read (create_table r) = create_table (CreateTable.as_read r)
  as_read (create_column r) = create_column (CreateColumn.as_read r)
  as_read (set_sources r) = set_sources (SetSources.as_read source_name r)
  as_read (rename_table r) = rename_table r
  as_read (insert c name columns) = insert (Insert.as_read g c name columns)
  as_read (delete r) = delete r
  as_read (remove_object r) = remove_object r
  as_read (register_plugin r) = register_plugin r
  as_read (bulk_insert c name rows) = bulk_insert (head_of c name) (some (map (tuple_of g) rows))

  -- The four high bits of the info byte of each kind of record.
  abbrev pub record_code : Written → ℕ
  record_code (create_table r) = 0x10
  record_code (create_column r) = 0x20
  record_code (set_sources r) = 0x30
  record_code (rename_table r) = 0x40
  record_code (insert c name columns) = 0x50
  record_code (delete r) = 0x60
  record_code (remove_object r) = 0x70
  record_code (register_plugin r) = 0x80
  record_code (bulk_insert c name rows) = 0x90

  pub info_of-record_code : (w : Written) → info_of (kind_of w) ≡ record_code w
  unfolding info_of
  info_of-record_code (create_table r) = refl
  info_of-record_code _ = refl

  -- A writer and a reader of one kind, and that they fit.
  pub record Codec (w : Written) (padding : Bytes) : Type 1 where
    pub A : Type 0
    pub fields : Reader A
    pub wrap : A → Redo
    pub bytes : Bytes
    pub value : A
    pub reads : read_kind g (kind_of w) ≡ (until_end fields >>= λ r. pure (wrap r))
    pub writes : write g source_name w padding ≡ ok bytes
    pub parses : Parses fields bytes value
    pub extends : Extends fields
    pub gives : wrap value ≡ as_read w

  Codec-by :
      {A : Type 0} (w : Written) (padding : Bytes) (wrap : A → Redo) {fields : Reader A}
      {bytes : Bytes} {value : A}
      → Parses fields bytes value
      → Extends fields
      → read_kind g (kind_of w) ≡ (until_end fields >>= λ r. pure (wrap r))
      → write g source_name w padding ≡ ok bytes
      → wrap value ≡ as_read w
      → Codec w padding
  Codec-by w padding wrap' parses' extends' reads' writes' gives' = record {
    A = _;
    fields = _;
    wrap = wrap';
    bytes = _;
    value = _;
    reads = reads';
    writes = writes';
    parses = parses';
    extends = extends';
    gives = gives';
  }

  -- The reader of the rows of a bulk insert goes on up to the end by itself.
  pub codec :
      (w : Written) (padding : Bytes)
      → kind_of w ≢ bulk_insert
      → IsFilled w padding
      → Codec w padding
  unfolding write read_kind CreateTable.read CreateColumn.read SetSources.read RenameTable.read
      Insert.read Delete.read RemoveObject.read RegisterPlugin.read
  codec (create_table r) padding single h =
      Codec-by (create_table r) padding create_table (CreateTable.Parses-fields r padding h)
        CreateTable.Extends-fields refl refl refl
  codec (create_column r) padding single h =
      Codec-by (create_column r) padding create_column (CreateColumn.Parses-fields r h)
        CreateColumn.Extends-fields refl refl refl
  codec (set_sources r) padding single h =
      Codec-by (set_sources r) padding set_sources
        (SetSources.Parses-fields source_name r padding h) SetSources.Extends-fields refl refl refl
  codec (rename_table r) padding single h =
      Codec-by (rename_table r) padding rename_table (RenameTable.Parses-fields r padding h)
        RenameTable.Extends-fields refl refl refl
  codec (insert c name columns) padding single h =
      Codec-by (insert c name columns) padding insert (Insert.Parses-fields g c name columns h)
        (Insert.Extends-fields g) refl (Insert.write-eq-ok g c name columns h.columns) refl
  codec (delete r) padding single h =
      Codec-by (delete r) padding delete (Delete.Parses-fields r padding h) Delete.Extends-fields
        refl refl refl
  codec (remove_object r) padding single h =
      Codec-by (remove_object r) padding remove_object (RemoveObject.Parses-fields r padding h)
        RemoveObject.Extends-fields refl refl refl
  codec (register_plugin r) padding single h =
      Codec-by (register_plugin r) padding register_plugin
        (RegisterPlugin.Parses-fields r padding h) RegisterPlugin.Extends-fields refl refl refl
  codec (bulk_insert c name rows) padding single h = absurd (single refl)

  -- The redo side runs the reader of the record's kind.
  pub redo-Codec :
      (w : Written) (padding : Bytes) (low : ℕ) (c : Codec w padding) (raw : Bytes)
      → low < 16
      → redo g true (info_of (kind_of w) + low) raw
        ≡ continue (λ r. pure (some r)) (continue (λ r. pure (c.wrap r)) (until_end c.fields raw))
  unfolding redo ◌>>=◌
  redo-Codec w padding low c raw h =
      ap (λ info. continue (λ r. pure (some r)) (dispatch g info raw))
        (masked-info_of (kind_of w) low h)
      ∙ ap (λ m. continue (λ r. pure (some r)) (m raw)) (dispatch-info_of (kind_of w) ∙ c.reads)
