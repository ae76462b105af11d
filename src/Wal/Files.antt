-- ===== src/Wal/Files.antt =====
-- The file of an index between the transactions of the generic WAL: `PGrnWALStart` and `PGrnWALFinish` with what they
-- call, and `PGrnWALTruncate` (src/pgrn-wal.c). A file is the meta page, if there is one, and the data pages.
pub mod Laws
pub mod History
use pgroonga.Base.{
  ℕ, zero, suc, ◌+◌, ◌-◌, Bytes, List, [], ◌∷◌, ◌++◌, length, leb, if◌then◌else◌, Option, none,
  some,
}
use pgroonga.Wal.Pages.Set.{set}
use pgroonga.Wal.Pages.{Settings, WalData, data_finish, page_writer}

-- `next` and `max` of the meta page; the stored positions are those of `WalData`.
pub record File : Type 0 where
  pub meta : Option (ℕ × ℕ)
  pub pages : List Bytes
  pub positions : List (ℕ × ℕ)

-- `PGrnIndexStatusGetWALAppliedPosition`: the last position that was stored, or the start of the meta page.
unfoldable pub applied_position : List (ℕ × ℕ) → ℕ × ℕ
applied_position [] = (0, 0)
applied_position (position ∷ []) = position
applied_position (position ∷ later ∷ positions) = applied_position (later ∷ positions)

-- The file of a new index has no block.
abbrev pub no_blocks : File
no_blocks = record { meta = none; pages = []; positions = [] }

-- `PGrnWALDataInitMeta`: a file without a block gets its meta page.
unfoldable pub init_meta : Option (ℕ × ℕ) → ℕ × ℕ
init_meta none = (1, 1 + 1)
init_meta (some meta) = meta

-- `PGrnWALStart`, with the meta page's buffer as the first one.
unfoldable pub start : File → WalData
unfolding init_meta
start f = record {
  next = (init_meta f.meta).0;
  max = (init_meta f.meta).1;
  pages = f.pages;
  current = none;
  n_used_pages = 1;
  n_buffers = 1;
  positions = f.positions;
}

-- The pieces that MessagePack's packer hands over in a transaction, one call of its callback for each.
unfoldable pub write_chunks : Settings → List Bytes → WalData → Option WalData
unfolding page_writer
write_chunks s [] d = some d
write_chunks s (chunk ∷ chunks) d = elim (page_writer s (length chunk) d chunk 0) [
  | none ↦ none
  | some w ↦ write_chunks s chunks w.0
]

-- `PGrnWALFinish`
unfoldable pub finish : WalData → File
unfolding data_finish
finish d =
    let finished = data_finish d in
    record {
      meta = some (finished.next, finished.max);
      pages = finished.pages;
      positions = finished.positions;
    }

-- `processingBuffers` and `nTruncatedBlocks` with the data pages.
pub record Truncation : Type 0 where
  pub pages : List Bytes
  pub n_processing_buffers : ℕ
  pub n_truncated_blocks : ℕ

-- A round for the block `i`: the transaction that is full is finished before, and the page is initialised.
unfoldable pub truncate_block : Settings → ℕ → Truncation → Truncation
truncate_block s i t = record {
  pages = set t.pages (i - 1) [];
  n_processing_buffers =
      (if leb s.max_pages t.n_processing_buffers then 0 else t.n_processing_buffers) + 1;
  n_truncated_blocks = t.n_truncated_blocks + 1;
}

-- The loop over the blocks from `i` on.
unfoldable pub truncate_blocks : Settings → ℕ → ℕ → Truncation → Truncation
unfolding truncate_block
truncate_blocks s zero i t = t
truncate_blocks s (suc remaining) i t = truncate_blocks s remaining (i + 1) (truncate_block s i t)

-- From the meta page on.
unfoldable pub truncate_pages : Settings → List Bytes → Truncation
unfolding truncate_blocks
truncate_pages s pages =
    truncate_blocks s (length pages) 1
      (record { pages = pages; n_processing_buffers = 1; n_truncated_blocks = 1 })

-- `PGrnWALTruncate`, with the number of truncated blocks; `max` stays as it is.
unfoldable pub truncate_meta : Settings → Option (ℕ × ℕ) → File → File × ℕ
unfolding truncate_pages
truncate_meta s none f = (f, 0)
truncate_meta s (some meta) f =
    let t = truncate_pages s f.pages in
    (
      record { meta = some (1, meta.1); pages = t.pages; positions = f.positions ++ (1, 0) ∷ [] },
      t.n_truncated_blocks,
    )

unfoldable pub truncate : Settings → File → File × ℕ
unfolding truncate_meta
truncate s f = truncate_meta s f.meta f
