-- ===== src/Wal/Apply.antt =====
-- The applier of the generic WAL (`PGrnWALApplyConsume` of src/pgrn-wal.c): from the applied position on, it
-- feeds the data pages to MessagePack's unpacker, applies each object that is whole and stores the position
-- behind it. The unpacker (the library msgpack-c) is an argument, `next`: what it makes of the bytes that
-- are buffered and not parsed yet. What is applied is a list, in the order in which it was applied.
pub mod Drain
pub mod Order
pub mod Needed
pub mod Written
use pgroonga.Base.{
  ℕ, zero, suc, ◌+◌, ◌-◌, ◌%◌, ◌^◌, Bool, true, false, Bytes, List, [], ◌∷◌, ◌++◌, length, drop,
  ltb, ◌==◌, if◌then◌else◌,
}
use pgroonga.Wal.Pages.{WalData, number_of_blocks, page_at}

module _ {ℓ} (A : Type ℓ) where
  -- `msgpack_unpacker_next_with_size`: an object and the bytes it took, not enough bytes, or an error.
  pub data Unpacking : Type ℓ where
    unpacked : A → ℕ → Unpacking
    incomplete : Unpacking
    malformed : Unpacking

  -- An object that was applied, and the block and offset that were stored behind it.
  pub record Applied : Type ℓ where
    pub object : A
    pub block : ℕ
    pub offset : ℕ

  -- How the reading ended; what was applied before stays applied. `starved` is a lack of fuel.
  pub data Outcome {κ} (B : Type κ) : Type (ℓ ⊔ κ) where
    done : B → Outcome B
    overwritten : ℕ → ℕ → List Applied → Outcome B
    not_unpacked : ℕ → List Applied → Outcome B
    starved : Outcome B

module _ {ℓ} {A : Type ℓ} (next : Bytes → Unpacking A) where
  -- What is done with the answer of the unpacker: an object is applied and its end is stored, with
  -- `end` the offset in the block up to which was fed.
  abbrev pub after_unpacking :
      ℕ
      → ℕ
      → Bytes
      → List (Applied A)
      → (Bytes → List (Applied A) → Outcome A (Bytes × List (Applied A)))
      → Unpacking A
      → Outcome A (Bytes × List (Applied A))
  after_unpacking block end buffered applied rest malformed = not_unpacked block applied
  after_unpacking block end buffered applied rest incomplete = done (buffered, applied)
  after_unpacking block end buffered applied rest (unpacked object size) =
      rest (drop size buffered) (
        applied
        ++ (record {
          object = object;
          block = block;
          offset = (end + 2 ^ 64 - length (drop size buffered)) % 2 ^ 16;
        })
          ∷ [])

  -- The objects that are whole in `buffered`: the bytes that stay buffered, and all that was applied.
  unfoldable pub drain : ℕ → ℕ → ℕ → Bytes → List (Applied A) → Outcome A (Bytes × List (Applied A))
  drain zero block end buffered applied = starved
  drain (suc fuel) block end buffered applied =
      after_unpacking block end buffered applied (drain fuel block end) (next buffered)

  -- A page, from an offset on: an offset behind its end means that the page was written over.
  unfoldable pub consume_page :
      ℕ → Bytes → ℕ → Bytes → List (Applied A) → Outcome A (Bytes × List (Applied A))
  unfolding drain
  consume_page block page data_offset buffered applied =
      let fed = buffered ++ drop data_offset page in
      if ltb (length page) data_offset
      then overwritten block data_offset applied
      else drain (suc (length fed)) block (length page) fed applied

  -- What follows a page: the end at the block `next`, the following blocks from their start otherwise.
  abbrev pub go_on :
      Bool
      → (Bytes → List (Applied A) → Outcome A (List (Applied A)))
      → Outcome A (Bytes × List (Applied A))
      → Outcome A (List (Applied A))
  go_on true rest (done (buffered, applied)) = done applied
  go_on false rest (done (buffered, applied)) = rest buffered applied
  go_on last rest (overwritten block offset applied) = overwritten block offset applied
  go_on last rest (not_unpacked block applied) = not_unpacked block applied
  go_on last rest starved = starved

  -- The loop over the blocks; `remaining` is how many rounds are left.
  unfoldable pub consume_blocks :
      WalData → ℕ → ℕ → ℕ → ℕ → ℕ → Bytes → List (Applied A) → Outcome A (List (Applied A))
  unfolding consume_page number_of_blocks page_at
  consume_blocks d start_block max_block zero i data_offset buffered applied = done applied
  consume_blocks d start_block max_block (suc remaining) i data_offset buffered applied =
      let block = (start_block + i) % number_of_blocks d in
      let rest = consume_blocks d start_block max_block remaining (i + 1) in
      if block == 0
      then rest data_offset buffered applied
      else if ltb max_block block
      then rest data_offset buffered applied
      else go_on (block == d.next) (rest 0)
          (consume_page block (page_at d block) data_offset buffered applied)

  -- `PGrnWALApplyConsume` from a block and an offset: the meta page holds no data, and a maximum of 0
  -- is of a file of an older version.
  unfoldable pub consume : WalData → ℕ → ℕ → Outcome A (List (Applied A))
  unfolding consume_blocks
  consume d block offset =
      consume_blocks d (if block == 0 then block + 1 else block)
        (if d.max == 0 then number_of_blocks d else d.max) (number_of_blocks d) 0 offset [] []
