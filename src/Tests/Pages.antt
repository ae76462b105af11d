-- ===== src/Tests/Pages.antt =====
-- The writer of the generic WAL at a small ring.
use pgroonga.Base.{◌≡◌, refl, codes, [], ◌∷◌, none, some, arith}
use pgroonga.Wal.Pages.{Settings, WalData, page_writer}
use pgroonga.Wal.Pages.Bounds.{IsInBounds, page_writer-IsInBounds}

-- Pages of four bytes; a file without a limit, and one of four blocks.
abbrev unlimited : Settings
unlimited = record { block_size = 8; room = 4; max_size = 0; max_pages = 4 }

abbrev limited : Settings
limited = record { block_size = 8; room = 4; max_size = 32; max_pages = 4 }

-- A new transaction on a file with one data page of one byte.
abbrev started : WalData
started = record {
  next = 1;
  max = 2;
  pages = codes "a" ∷ [];
  current = none;
  n_used_pages = 1;
  n_buffers = 1;
  positions = [];
}

-- Fifteen bytes fill four pages, so that a second transaction is started.
abbrev after_unlimited : WalData
after_unlimited = record {
  next = 5;
  max = 6;
  pages = codes "a123" ∷ codes "4567" ∷ codes "89ab" ∷ codes "cdef" ∷ [] ∷ [];
  current = some 5;
  n_used_pages = 3;
  n_buffers = 3;
  positions = (4, 0) ∷ [];
}

-- With the limit, the fourth page is the first one again.
abbrev after_limited : WalData
after_limited = record {
  next = 2;
  max = 4;
  pages = codes "cdef" ∷ [] ∷ codes "89ab" ∷ [];
  current = some 2;
  n_used_pages = 3;
  n_buffers = 3;
  positions = (1, 0) ∷ [];
}

page_writer-unlimited :
    page_writer unlimited 15 started (codes "123456789abcdef") 0 ≡ some (after_unlimited, 15)
unfolding page_writer
page_writer-unlimited = refl

page_writer-limited :
    page_writer limited 15 started (codes "123456789abcdef") 0 ≡ some (after_limited, 15)
unfolding page_writer
page_writer-limited = refl

started-IsInBounds : IsInBounds limited started
started-IsInBounds = record {
  next_pos = omega arith;
  next_max = omega arith;
  buffers = refl;
  used = omega arith;
}

page_writer-IsInBounds_example : IsInBounds limited after_limited
page_writer-IsInBounds_example =
    page_writer-IsInBounds limited 15 started (codes "123456789abcdef") after_limited 15
      (omega arith) started-IsInBounds page_writer-limited
