-- ===== src/Wal/Apply/Order.antt =====
-- The applier applies the objects of the pages in their order.
use pgroonga.Base.{
  ℕ, zero, suc, ◌+◌, ◌-◌, ◌%◌, ◌≤◌, ◌<◌, ◌≡◌, ◌≢◌, refl, sym, ap, ◌∙◌, ap₂, Bool, true, false,
  Bytes, List, [], ◌++◌, length, drop, append_assoc, append-nil, ltb, ◌==◌, le→ltb, if◌then◌else◌,
  arith, not-suc-le-zero,
}
use native.Mathlib.Nat.{mod-eq_of_lt}
use pgroonga.Wal.Pages.{WalData, number_of_blocks, page_at}
use pgroonga.Wal.Apply.{
  Unpacking, Applied, Outcome, done, consume_page, go_on, consume_blocks, consume,
}
use pgroonga.Wal.Apply.Drain.{encodes, objects, IsUnpacker, Drained, drained}

-- The bytes of `n` data pages from a block on.
abbrev pub bytes_from : WalData → ℕ → ℕ → Bytes
bytes_from d block zero = []
bytes_from d block (suc n) = page_at d block ++ bytes_from d (block + 1) n

pub ==_differ : (a b : ℕ) → a ≢ b → (a == b) ≡ false
==_differ a b ne = ground arith

==_same : (a b : ℕ) → a ≡ b → (a == b) ≡ true
==_same a b e = ground arith

module _ {ℓ} {A : Type ℓ} (next : Bytes → Unpacking A) (encode : A → Bytes) where
  -- A round of the loop on a data block that is not behind the maximum.
  round :
      (d : WalData) (start max_block remaining i block offset : ℕ) (buffered : Bytes)
      (applied : List (Applied A))
      → start + i ≡ block
      → 1 ≤ block
      → block < number_of_blocks d
      → block ≤ max_block
      → consume_blocks next d start max_block (suc remaining) i offset buffered applied
        ≡ go_on next
            (block == d.next)
            (consume_blocks next d start max_block remaining (i + 1) 0)
            (consume_page next block (page_at d block) offset buffered applied)
  unfolding consume_blocks
  round d start max_block remaining i block offset buffered applied at pos lt le =
      ap chosen (ap (λ k. k % number_of_blocks d) at ∙ mod-eq_of_lt lt)
      ∙ ap₂ picked (==_differ block 0 (omega arith)) (le→ltb max_block block le)
    where
      skipped : Outcome A (List (Applied A))
      skipped = consume_blocks next d start max_block remaining (i + 1) offset buffered applied

      followed : ℕ → Outcome A (List (Applied A))
      followed b =
          go_on next (b == d.next) (consume_blocks next d start max_block remaining (i + 1) 0)
            (consume_page next b (page_at d b) offset buffered applied)

      chosen : ℕ → Outcome A (List (Applied A))
      chosen b = if b == 0 then skipped else if ltb max_block b then skipped else followed b

      picked : Bool → Bool → Outcome A (List (Applied A))
      picked meta behind = if meta then skipped else if behind then skipped else followed block

  consume_page-done :
      (u : IsUnpacker next encode) (block offset : ℕ) (page buffered rest : Bytes) (objs : List A)
      (applied : List (Applied A))
      → offset ≤ length page
      → buffered ++ (drop offset page ++ rest) ≡ encodes encode objs
      → (D : Drained next encode
          (suc (length (buffered ++ drop offset page)))
          block
          (length page)
          (buffered ++ drop offset page)
          rest
          objs
          applied)
        × (consume_page next block page offset buffered applied ≡ done (D.left, D.now))
  unfolding consume_page
  consume_page-done u block offset page buffered rest objs applied le e =
      let D =
        drained next encode u (suc (length (buffered ++ drop offset page))) block (length page)
          (buffered ++ drop offset page) rest objs applied (omega arith)
          (append_assoc buffered (drop offset page) rest ∙ e) in
      (D, rw (le→ltb (length page) offset le) D.result)

  consume_blocks-objects :
      IsUnpacker next encode
      → (d : WalData) (start max_block remaining i block offset n : ℕ) (buffered : Bytes)
        (objs : List A) (applied : List (Applied A))
      → start + i ≡ block
      → 1 ≤ block
      → block + n ≡ d.next
      → d.next < number_of_blocks d
      → d.next ≤ max_block
      → n < remaining
      → offset ≤ length (page_at d block)
      → buffered ++ (drop offset (page_at d block) ++ bytes_from d (block + 1) n)
        ≡ encodes encode objs
      → (now : List (Applied A)) × (consume_blocks next d start max_block remaining i offset
            buffered applied
          ≡ done now)
        × (objects now ≡ objects applied ++ objs)
  consume_blocks-objects u d start max_block zero i block offset n buffered objs applied at pos last
        lt le fuel off e =
      absurd (not-suc-le-zero fuel)
  consume_blocks-objects u d start max_block (suc remaining) i block offset zero buffered objs
        applied at pos last lt le fuel off e =
      let (D, p) =
        consume_page-done u block offset (page_at d block) buffered [] objs applied off e in
      (
        D.now,
        round d start max_block remaining i block offset buffered applied at pos (omega arith)
              (omega arith)
            ∙ ap
                (λ b.
                  go_on next b (consume_blocks next d start max_block remaining (i + 1) 0)
                    (consume_page next block (page_at d block) offset buffered applied))
                (==_same block d.next (omega arith))
            ∙ ap (go_on next true (consume_blocks next d start max_block remaining (i + 1) 0)) p,
        D.objects_are
            ∙ ap (λ t. objects applied ++ t)
                (sym (D.split ∙ ap (λ t. D.taken ++ t) (D.ends refl) ∙ append-nil D.taken)),
      )
  consume_blocks-objects u d start max_block (suc remaining) i block offset (suc n) buffered objs
        applied at pos last lt le fuel off e =
      let (D, p) =
        consume_page-done u block offset (page_at d block) buffered
          (bytes_from d (block + 1) (suc n)) objs applied off e in
      let (now, q, o) =
        consume_blocks-objects u d start max_block remaining (i + 1) (block + 1) 0 n D.left D.todo
          D.now (omega arith) (omega arith) (omega arith) lt le (omega arith) (omega arith)
          D.left_are in
      (
        now,
        round d start max_block remaining i block offset buffered applied at pos (omega arith)
              (omega arith)
            ∙ ap
                (λ b.
                  go_on next b (consume_blocks next d start max_block remaining (i + 1) 0)
                    (consume_page next block (page_at d block) offset buffered applied))
                (==_differ block d.next (omega arith))
            ∙ ap (go_on next false (consume_blocks next d start max_block remaining (i + 1) 0)) p
            ∙ q,
        o
            ∙ ap (λ t. t ++ D.todo) D.objects_are
            ∙ append_assoc (objects applied) D.taken D.todo
            ∙ ap (λ t. objects applied ++ t) (sym D.split),
      )

  -- For an unpacker that finds each encoded object and asks for more bytes in the middle of one: when the
  -- bytes from an applied position up to the end of the block `next` are the encodings of objects, the
  -- applier ends without an error and has applied exactly these objects in their order, wherever the
  -- objects cross the ends of pages. The position is in a data block up to `next`, not behind the end
  -- of its page, and `next` is a block of the file, not behind `max`.
  pub consume-objects :
      IsUnpacker next encode
      → (d : WalData) (block offset : ℕ) (objs : List A) → 1 ≤ block
      → block ≤ d.next
      → d.next < number_of_blocks d
      → d.next ≤ d.max
      → offset ≤ length (page_at d block)
      → drop offset (page_at d block) ++ bytes_from d (block + 1) (d.next - block)
        ≡ encodes encode objs
      → (now : List (Applied A)) × (consume next d block offset ≡ done now) × (objects now ≡ objs)
  unfolding consume
  consume-objects u d block offset objs pos before lt le off e =
      rw (==_differ block 0 (omega arith), ==_differ d.max 0 (omega arith))
        (consume_blocks-objects u d block d.max (number_of_blocks d) 0 block offset (d.next - block)
          [] objs [] (omega arith) pos (omega arith) lt le (omega arith) off e)
