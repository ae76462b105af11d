-- ===== src/Tests/Apply.antt =====
-- The applier at a small ring, with an unpacker of objects of two bytes.
use pgroonga.Base.{ℕ, ◌≡◌, ◌≢◌, refl, Bytes, List, [], ◌∷◌, ◌++◌, none, some, true, arith}
use pgroonga.Wal.Pages.{Settings, WalData, number_of_blocks, page_at, page_writer}
use pgroonga.Wal.Pages.Bounds.{IsInBounds}
use pgroonga.Wal.Pages.Log.{IsLog, at_last}
use pgroonga.Wal.Apply.Written.{consume-page_writer}
use pgroonga.Wal.Apply.{Unpacking, unpacked, incomplete, Applied, done, overwritten, consume}
use pgroonga.Wal.Apply.Drain.{objects, IsUnpacker}
use pgroonga.Wal.Apply.Order.{consume-objects}
use pgroonga.Wal.Apply.Needed.{HasNoGap, wal_apply, wal_apply-objects}

abbrev pub unpack : Bytes → Unpacking ℕ
unpack [] = incomplete
unpack (head ∷ []) = incomplete
unpack (head ∷ value ∷ rest) = unpacked value 2

abbrev pub encode_pair : ℕ → Bytes
encode_pair value = 7 ∷ value ∷ []

pub unpack-IsUnpacker : IsUnpacker unpack encode_pair
unpack-IsUnpacker = record {
  whole = λ a rest. refl;
  part = started;
  empty = refl;
  some_bytes = λ a. omega arith;
}
  where
    started : (a : ℕ) (p q : Bytes) → p ++ q ≡ encode_pair a → q ≢ [] → unpack p ≡ incomplete
    started a [] q e ne = refl
    started a (x ∷ []) q e ne = refl
    started a (x ∷ y ∷ []) q e ne = absurd (ne cc)
    started a (x ∷ y ∷ z ∷ p) q e ne = cc

-- The second object lies in two pages.
abbrev two_pages : WalData
two_pages = record {
  next = 2;
  max = 3;
  pages = (7 ∷ 1 ∷ 7 ∷ []) ∷ (2 ∷ []) ∷ [];
  current = none;
  n_used_pages = 1;
  n_buffers = 1;
  positions = [];
}

two_pages_position :
    consume unpack two_pages 1 2 ≡ done (record { object = 2; block = 2; offset = 1 } ∷ [])
unfolding consume
two_pages_position = refl

-- A position behind the end of its page is refused.
two_pages_overwritten : consume unpack two_pages 2 3 ≡ overwritten 2 3 []
unfolding consume
two_pages_overwritten = refl

consume-objects_example :
    (now : List (Applied ℕ)) × (consume unpack two_pages 1 0 ≡ done now)
    × (objects now ≡ 1 ∷ 2 ∷ [])
unfolding number_of_blocks page_at
consume-objects_example =
    consume-objects unpack encode_pair unpack-IsUnpacker two_pages 1 0 (1 ∷ 2 ∷ []) (omega arith)
      (omega arith) (omega arith) (omega arith) (omega arith) refl

-- Pages of three bytes, in a file that holds one object.
abbrev pub small_pages : Settings
small_pages = record { block_size = 8; room = 3; max_size = 0; max_pages = 4 }

abbrev pub one_object : WalData
one_object = record {
  next = 1;
  max = 2;
  pages = (7 ∷ 1 ∷ []) ∷ [];
  current = none;
  n_used_pages = 1;
  n_buffers = 1;
  positions = [];
}

one_object-IsLog : IsLog small_pages one_object
one_object-IsLog =
    at_last
      (record {
        full = [];
        last = 7 ∷ 1 ∷ [];
        behind = [];
        pages_are = refl;
        empty_behind = tt;
        next_is = refl;
        free = omega arith;
      })
      refl

one_object-IsInBounds : IsInBounds small_pages one_object
one_object-IsInBounds = record {
  next_pos = omega arith;
  next_max = omega arith;
  buffers = refl;
  used = omega arith;
}

consume-page_writer_example :
    (d' : WalData) × (now : List (Applied ℕ)) × (page_writer small_pages 4 one_object
        (7 ∷ 2 ∷ 7 ∷ 3 ∷ [])
        0
      ≡ some (d', 4))
    × (consume unpack d' 1 0 ≡ done now)
    × (objects now ≡ 1 ∷ 2 ∷ 3 ∷ [])
consume-page_writer_example =
    consume-page_writer unpack encode_pair small_pages unpack-IsUnpacker (omega arith) refl
      (omega arith) one_object (1 ∷ []) 2 (3 ∷ []) one_object-IsLog one_object-IsInBounds refl

two_pages_gap : HasNoGap two_pages 1
two_pages_gap b lt before = absurd (omega (arith, lt, before))

wal_apply-objects_example :
    (now : List (Applied ℕ)) × (wal_apply unpack true true two_pages 0 0 ≡ done now)
    × (objects now ≡ 1 ∷ 2 ∷ [])
unfolding number_of_blocks page_at
wal_apply-objects_example =
    wal_apply-objects unpack encode_pair unpack-IsUnpacker true true two_pages 0 0 (1 ∷ 2 ∷ [])
      (omega arith) (omega arith) (omega arith) (omega arith) two_pages_gap refl
