-- ===== src/Wal/Redo/Laws.antt =====
-- What the redo side reads of a record that the primary wrote, whole, cut short or with bytes behind it.
use pgroonga.Base.{
  ℕ, ◌+◌, ◌<◌, ◌≡◌, ◌≢◌, refl, sym, ap, ◌∙◌, true, Bytes, List, [], ◌++◌, length, Option, some,
}
use pgroonga.Wal.Raw.{Result, ok, err, garbage, Raw, pure, continue, ◌>>=◌}
use pgroonga.Wal.Value.{Groonga}
use pgroonga.Wal.Tuple.{Column, after}
use pgroonga.Wal.Record.{Common, until_end}
use pgroonga.Wal.Record.Laws.{until_end_all, until_end_garbage, until_end_cut}
use pgroonga.Wal.Record.BulkInsert.{write_start}
use pgroonga.Wal.Record.BulkInsert.Laws.{rows_bytes, write_rows-eq-ok, read_all-bytes}
use pgroonga.Wal.Redo.{
  bulk_insert, info_of, Written, Redo, kind_of, write, read_kind, dispatch, redo,
}
use pgroonga.Wal.Redo.Codec.{
  masked-info_of, dispatch-info_of, record_code, info_of-record_code, IsFilled, as_read, Codec,
  codec, redo-Codec,
}

module _ (g : Groonga) (source_name : ℕ → Option Bytes) where
  redo-write_single :
      (w : Written) (padding : Bytes) (low : ℕ)
      → low < 16
      → kind_of w ≢ bulk_insert
      → IsFilled g source_name w padding
      → (bs : Bytes) × (write g source_name w padding ≡ ok bs)
        × (redo g true (info_of (kind_of w) + low) bs ≡ ok (some (as_read g source_name w), []))
  redo-write_single w padding low h single f =
      let c : Codec g source_name w padding = codec g source_name w padding single f in
      (c.bytes, c.writes, redo-Codec g source_name w padding low c c.bytes h ∙ whole c)
    where
      whole :
          (c : Codec g source_name w padding)
          → continue
              (λ r. pure (some r))
              (continue (λ r. pure (c.wrap r)) (until_end c.fields c.bytes))
            ≡ ok (some (as_read g source_name w), [])
      whole c =
          ap (λ x. continue (λ r. pure (some r)) (continue (λ r. pure (c.wrap r)) x))
            (until_end_all c.parses)
          ∙ unfold pure in ap (λ r. ok (some r, [])) c.gives

  redo-write-bulk_insert :
      (c : Common) (name : Bytes) (rows : List (List Column)) (padding : Bytes) (low : ℕ)
      → low < 16
      → IsFilled g source_name (bulk_insert c name rows) padding
      → (bs : Bytes) × (write g source_name (bulk_insert c name rows) padding ≡ ok bs)
        × (redo g true (info_of bulk_insert + low) bs
            ≡ ok (some (as_read g source_name (bulk_insert c name rows)), []))
  unfolding write redo ◌>>=◌ read_kind pure
  redo-write-bulk_insert c name rows padding low h (words, name_fits, valid) = (
    write_start c name ++ rows_bytes g rows,
    ap (after (write_start c name)) (write_rows-eq-ok g rows valid),
    ap
          (λ info.
            continue (λ r. pure (some r))
              (dispatch g info (write_start c name ++ rows_bytes g rows)))
          (masked-info_of bulk_insert low h)
        ∙ ap (λ m. continue (λ r. pure (some r)) (m (write_start c name ++ rows_bytes g rows)))
            (dispatch-info_of g source_name bulk_insert)
        ∙ ap
            (λ x. continue (λ r. pure (some r)) (continue (λ r. pure (Redo.bulk_insert r.0 r.1)) x))
            (read_all-bytes g c name rows words name_fits valid),
  )

  -- Every record, of each of the nine kinds, that is filled as its kind wants is written, and the redo side of a
  -- standby reads it back whole under the info byte of its kind, whatever the four low bits of the byte are. The kinds
  -- have the codes from 0x10 to 0x90.
  pub redo-write :
      (w : Written) (padding : Bytes) (low : ℕ)
      → low < 16
      → IsFilled g source_name w padding
      → (bs : Bytes) × (write g source_name w padding ≡ ok bs)
        × (redo g true (info_of (kind_of w) + low) bs ≡ ok (some (as_read g source_name w), []))
        × (info_of (kind_of w) ≡ record_code g source_name w)
  redo-write (bulk_insert c name rows) padding low h f =
      let (bs, written, read) = redo-write-bulk_insert c name rows padding low h f in
      (bs, written, read, info_of-record_code g source_name (bulk_insert c name rows))
  redo-write w padding low h f =
      let (bs, written, read) = redo-write_single w padding low h (λ e. cc) f in
      (bs, written, read, info_of-record_code g source_name w)

  -- A record of any kind but BULK_INSERT with more bytes behind it is refused, and the error tells how many.
  pub redo-write_more :
      (w : Written) (padding : Bytes) (low : ℕ) (bs more : Bytes)
      → low < 16
      → kind_of w ≢ bulk_insert
      → IsFilled g source_name w padding
      → write g source_name w padding ≡ ok bs
      → more ≢ []
      → redo g true (info_of (kind_of w) + low) (bs ++ more) ≡ err (garbage (length more))
  redo-write_more w padding low bs more h single f written extra =
      let c : Codec g source_name w padding = codec g source_name w padding single f in
      let same : bs ≡ c.bytes = cc (written, c.writes) in
      redo-Codec g source_name w padding low c (bs ++ more) h
      ∙ ap
          (λ t.
            continue (λ r. pure (some r))
              (continue (λ r. pure (c.wrap r)) (until_end c.fields (t ++ more))))
          same
      ∙ ap (λ x. continue (λ r. pure (some r)) (continue (λ r. pure (c.wrap r)) x))
          (until_end_garbage more c.parses extra)

  wrapped :
      {A : Type 0} (f : A → Redo) (x : Result (A × Raw)) (r : Option Redo × Raw)
      → continue (λ t. pure (some t)) (continue (λ t. pure (f t)) x) ≡ ok r
      → (y : A × Raw) × (x ≡ ok y)
  wrapped f (ok y) r h = (y, refl)
  wrapped f (err e) r h = cc

  -- A record of any kind but BULK_INSERT that is cut short is never accepted.
  pub redo-write_cut :
      (w : Written) (padding : Bytes) (low : ℕ) (part lost : Bytes)
      → low < 16
      → kind_of w ≢ bulk_insert
      → IsFilled g source_name w padding
      → write g source_name w padding ≡ ok (part ++ lost)
      → lost ≢ []
      → (r : Option Redo × Raw) → redo g true (info_of (kind_of w) + low) part ≢ ok r
  redo-write_cut w padding low part lost h single f written short r accepted =
      let c : Codec g source_name w padding = codec g source_name w padding single f in
      let same : part ++ lost ≡ c.bytes = cc (written, c.writes) in
      let (x, read) =
        wrapped c.wrap (until_end c.fields part) r
          (sym (redo-Codec g source_name w padding low c part h) ∙ accepted) in
      until_end_cut part lost c.extends c.parses same short x read
