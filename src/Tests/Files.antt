-- ===== src/Tests/Files.antt =====
-- A file of small pages through two transactions, with a truncation between them.
use pgroonga.Base.{ℕ, ◌≡◌, refl, List, [], ◌∷◌, some, arith}
use pgroonga.Wal.Pages.{WalData}
use pgroonga.Wal.Apply.{Applied, done, consume}
use pgroonga.Wal.Apply.Drain.{objects}
use pgroonga.Wal.Files.{File, applied_position, no_blocks, start, write_chunks, finish, truncate}
use pgroonga.Wal.Files.History.{History, created, written, truncated, consume-History}
use pgroonga.Tests.Apply.{unpack, encode_pair, unpack-IsUnpacker, small_pages}

-- Two objects in two pages of three bytes.
abbrev first_write : WalData
first_write = record {
  next = 2;
  max = 3;
  pages = (7 ∷ 1 ∷ 7 ∷ []) ∷ ((2 ∷ []) ∷ []);
  current = some 2;
  n_used_pages = 3;
  n_buffers = 3;
  positions = [];
}

first_chunks :
    write_chunks small_pages ((7 ∷ 1 ∷ []) ∷ ((7 ∷ 2 ∷ []) ∷ [])) (start no_blocks)
    ≡ some first_write
unfolding write_chunks start
first_chunks = refl

abbrev cleared : File
unfolding finish truncate
cleared = (truncate small_pages (finish first_write)).0

cleared_pages : cleared.pages ≡ [] ∷ ([] ∷ [])
unfolding finish truncate
cleared_pages = refl

cleared_count : (truncate small_pages (finish first_write)).1 ≡ 3
unfolding finish truncate
cleared_count = refl

cleared-History : History encode_pair small_pages cleared [] (1, 0)
unfolding cleared truncate finish applied_position
cleared-History = truncated (
    written (1 ∷ (2 ∷ [])) ((7 ∷ 1 ∷ []) ∷ ((7 ∷ 2 ∷ []) ∷ [])) first_write created refl
      first_chunks)

consume-History_example :
    (d : WalData) × (now : List (Applied ℕ)) × (write_chunks small_pages
        ((7 ∷ []) ∷ ((3 ∷ []) ∷ []))
        (start cleared)
      ≡ some d)
    × History encode_pair small_pages (finish d) (3 ∷ []) (1, 0)
    × (consume unpack (start (finish d)) 1 0 ≡ done now)
    × (objects now ≡ 3 ∷ [])
    × (consume unpack
          (start (finish d))
          (applied_position (finish d).positions).0
          (applied_position (finish d).positions).1
        ≡ done [])
consume-History_example =
    consume-History unpack encode_pair small_pages unpack-IsUnpacker (omega arith) refl
      (omega arith) cleared [] (1, 0) 3 [] ((7 ∷ []) ∷ ((3 ∷ []) ∷ [])) cleared-History refl
