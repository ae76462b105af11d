-- ===== src/Wal/Pages.antt =====
-- The generic WAL in the pages of an index (src/pgrn-wal.c): the meta page, the ring of data pages and
-- the writer that MessagePack calls. Block 0 is the meta page; the data page of block `k` is the element
-- `k - 1` of `pages`, and holds the bytes between its header and `pd_lower`. What PostgreSQL does for a
-- page (locking, registering, initialising) is taken as documented: a new block has the next number, an
-- initialised page is empty.
pub mod Set
pub mod Bounds
pub mod Log
pub mod Appends
use pgroonga.Base.{
  ℕ, zero, suc, ◌+◌, ◌-◌, ◌*◌, ◌%◌, ◌^◌, Bool, true, false, Bytes, List, [], ◌∷◌, ◌++◌, length,
  take, drop, leb, ltb, ◌==◌, if◌then◌else◌, Option, none, some,
}
use pgroonga.Wal.Pages.Set.{set, get_or}

-- `BLCKSZ`, the bytes of a page that are not header, `PGrnWALMaxSize`, `MAX_GENERIC_XLOG_PAGES`.
pub record Settings : Type 0 where
  pub block_size : ℕ
  pub room : ℕ
  pub max_size : ℕ
  pub max_pages : ℕ

-- `PGrnWALData` with the meta page's `next` and `max` and the index file. `positions` are the applied
-- positions that were stored (`PGrnIndexStatusSetWALAppliedPosition`), the last one at the end.
pub record WalData : Type 0 where
  pub next : ℕ
  pub max : ℕ
  pub pages : List Bytes
  pub current : Option ℕ
  pub n_used_pages : ℕ
  pub n_buffers : ℕ
  pub positions : List (ℕ × ℕ)

unfoldable pub number_of_blocks : WalData → ℕ
number_of_blocks d = length d.pages + 1

unfoldable pub page_at : WalData → ℕ → Bytes
page_at d block = get_or [] d.pages (block - 1)

-- `PGrnWALPageGetFreeSize`
unfoldable pub free_size : Settings → Bytes → ℕ
free_size s page = s.room - length page

-- `PGrnWALDataFinish`
unfoldable pub data_finish : WalData → WalData
unfolding page_at
data_finish d = record d { positions = d.positions ++ position d.current ∷ [] }
  where
    position : Option ℕ → ℕ × ℕ
    position (some block) = (block, length (page_at d block))
    position none = (d.next, 0)

-- `PGrnWALDataRestart`: the meta page's buffer is the first of the new transaction.
unfoldable pub data_restart : WalData → WalData
unfolding data_finish
data_restart d = record (data_finish d) { n_used_pages = 1; n_buffers = 1; current = none }

-- `PGrnWALPageAppend`
unfoldable pub page_append : WalData → ℕ → Bytes → WalData
unfolding page_at
page_append d block bytes = record d { pages = set d.pages (block - 1) (page_at d block ++ bytes) }

-- `next++`, and `max` behind it.
unfoldable pub go_forward : WalData → WalData
go_forward d = record d {
  current = none;
  next = d.next + 1;
  max = if leb d.max (d.next + 1) then d.next + 2 else d.max;
}

-- Back to the first data page.
unfoldable pub go_back : WalData → WalData
go_back d = record d { current = none; next = 1; max = d.next + 1 }

-- At least the meta page and two data pages.
unfoldable pub size_limit : Settings → ℕ
size_limit s = if ltb s.max_size (3 * s.block_size) then 3 * s.block_size else s.max_size

-- `PGrnWALPageFilled`; the size up to the next block is computed in 32 bits.
unfoldable pub page_filled : Settings → WalData → WalData
unfolding go_forward go_back size_limit
page_filled s d =
    if s.max_size == 0
    then go_forward d
    else if ltb (((1 + d.next) * s.block_size) % 2 ^ 32) (size_limit s)
    then go_forward d
    else go_back d

-- A new block at the end of the file.
unfoldable pub new_page : WalData → WalData
unfolding number_of_blocks
new_page d = record d {
  pages = d.pages ++ [] ∷ [];
  next = number_of_blocks d;
  current = some (number_of_blocks d);
  n_used_pages = d.n_used_pages + 1;
  n_buffers = d.n_buffers + 1;
}

-- The block `next`, emptied if it is full.
unfoldable pub old_page : Settings → WalData → WalData
unfolding page_at free_size
old_page s d = record d {
  pages = if free_size s (page_at d d.next) == 0 then set d.pages (d.next - 1) [] else d.pages;
  current = some d.next;
  n_used_pages = d.n_used_pages + 1;
  n_buffers = d.n_buffers + 1;
}

unfoldable pub restart_if_used_up : Settings → WalData → WalData
unfolding data_restart
restart_if_used_up s d = if d.n_used_pages == s.max_pages then data_restart d else d

unfoldable pub open_page : Settings → WalData → WalData
unfolding new_page old_page number_of_blocks
open_page s d = if leb (number_of_blocks d) d.next then new_page d else old_page s d

-- `PGrnWALPageWriterEnsureCurrent`: nothing is done while a page is open.
unfoldable pub ensure_from : Settings → WalData → Option ℕ → WalData
unfolding open_page restart_if_used_up
ensure_from s d (some block) = d
ensure_from s d none = open_page s (restart_if_used_up s d)

unfoldable pub ensure_current : Settings → WalData → WalData
unfolding ensure_from
ensure_current s d = ensure_from s d d.current

-- The block of the current buffer.
abbrev pub current_block : WalData → ℕ
current_block d = elim d.current [ some block ↦ block | none ↦ 0 ]

-- The bytes of the buffer that fit.
unfoldable pub fitting : Settings → WalData → Bytes → Bytes
unfolding free_size page_at
fitting s d buffer =
    let free = free_size s (page_at d (current_block d)) in
    if leb (length buffer) free then buffer else take free buffer

-- The end of a round: a full page is left for the next one.
unfoldable pub leave_if_full : Settings → WalData → WalData
unfolding free_size page_at page_filled ensure_current
leave_if_full s d =
    if free_size s (page_at d (current_block d)) == 0 then ensure_current s (page_filled s d) else d

-- One round of the loop, once a page is open.
unfoldable pub write_round : Settings → WalData → Bytes → WalData
unfolding leave_if_full page_append
write_round s d bytes = leave_if_full s (page_append d (current_block d) bytes)

-- `PGrnWALPageWriter`, with fuel: the data and the number of bytes written. `buffer` is what is left.
unfoldable pub page_writer : Settings → ℕ → WalData → Bytes → ℕ → Option (WalData × ℕ)
unfolding ensure_current write_round fitting
page_writer s fuel d [] written = some (d, written)
page_writer s zero d (b ∷ buffer) written = none
page_writer s (suc fuel) d (b ∷ buffer) written =
    let opened = ensure_current s d in
    let bytes = fitting s opened (b ∷ buffer) in
    page_writer s fuel (write_round s opened bytes) (drop (length bytes) (b ∷ buffer))
      (written + length bytes)
