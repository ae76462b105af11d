-- ===== src/Wal/Apply/Needed.antt =====
-- Whether there is something to apply (`PGrnWALApplyNeeded` and `PGrnWALApply` of src/pgrn-wal.c), for a position that
-- no other process moves meanwhile.
use pgroonga.Base.{
  ℕ, zero, suc, ◌+◌, ◌-◌, ◌≤◌, ◌<◌, ◌≡◌, ◌≢◌, refl, sym, ap, ◌∙◌, Bool, true, false, ◌&&◌,
  Bool-cases, inl, inr, Bytes, List, [], ◌∷◌, ◌++◌, length, drop, append-nil, ltb, leb, lt→ltb,
  ◌==◌, if◌then◌else◌, arith,
}
use pgroonga.Wal.Pages.{WalData, number_of_blocks, page_at}
use pgroonga.Wal.Apply.{Unpacking, Applied, Outcome, done, consume}
use pgroonga.Wal.Apply.Drain.{encodes, objects, IsUnpacker}
use pgroonga.Wal.Apply.Order.{bytes_from, consume-objects, ==_differ}

-- Behind the last block follows the first data page.
unfoldable pub apply_needed : WalData → ℕ → ℕ → Bool → Bool
unfolding number_of_blocks page_at
apply_needed d block offset writable =
    let current = if block == 0 then block + 1 else block in
    let next_block = if current + 1 == number_of_blocks d then 1 else current + 1 in
    if leb (number_of_blocks d) current
    then false
    else if ltb offset (length (page_at d current))
    then writable
    else if ltb 0 (length (page_at d next_block))
    then writable
    else false

module _ {A : Type 0} (next : Bytes → Unpacking A) where
  -- `PGrnWALApply`, with the WAL enabled or not; it returns the number of what is applied.
  unfoldable pub wal_apply : Bool → Bool → WalData → ℕ → ℕ → Outcome A (List (Applied A))
  unfolding apply_needed consume
  wal_apply enabled writable d block offset =
      if enabled
      then (if apply_needed d block offset writable then consume next d block offset else done [])
      else done []

-- A database that is not writable: nothing is to be applied.
apply_needed-read_only :
    (d : WalData) (block offset : ℕ) → apply_needed d block offset false ≡ false
unfolding apply_needed
apply_needed-read_only d block offset = ground arith

-- The block where the reading starts: the first data page for the meta page.
abbrev pub data_block : ℕ → ℕ
data_block zero = 1
data_block (suc block) = suc block

-- The pages from a position on, up to the one that is written, have data.
abbrev pub HasNoGap : WalData → ℕ → Type 0
HasNoGap d block = (b : ℕ) → block < b → b < d.next → 1 ≤ length (page_at d b)

-- The bytes that are left from a position on.
abbrev pub left_from : WalData → ℕ → ℕ → Bytes
left_from d block offset =
    drop offset (page_at d block) ++ bytes_from d (block + 1) (d.next - block)

drop-nil : (n : ℕ) (xs : Bytes) → ltb n (length xs) ≡ false → drop n xs ≡ []
drop-nil n xs h = short n xs (not_less n (length xs) h)
  where
    not_less : (n m : ℕ) → ltb n m ≡ false → m ≤ n
    not_less n m h = ground arith

    short : (n : ℕ) (xs : Bytes) → length xs ≤ n → drop n xs ≡ []
    short zero [] le = refl
    short zero (x ∷ xs) le = absurd (omega arith)
    short (suc n) [] le = refl
    short (suc n) (x ∷ xs) le = short n xs (omega arith)

not_nil : (xs : Bytes) → xs ≢ [] → 1 ≤ length xs
not_nil [] ne = absurd (ne refl)
not_nil (x ∷ xs) ne = omega arith

next_page_has_data :
    (d : WalData) (block : ℕ) (n : ℕ)
    → HasNoGap d block
    → block + n ≡ d.next
    → bytes_from d (block + 1) n ≢ []
    → 1 ≤ length (page_at d (block + 1))
next_page_has_data d block zero gap e ne = absurd (ne refl)
next_page_has_data d block (suc zero) gap e ne =
    not_nil (page_at d (block + 1)) (λ p. ne (append-nil (page_at d (block + 1)) ∙ p))
next_page_has_data d block (suc (suc n)) gap e ne = gap (block + 1) (omega arith) (omega arith)

-- With bytes left, there is something to apply.
apply_needed-left :
    (d : WalData) (block offset : ℕ) (writable : Bool)
    → 1 ≤ block
    → block ≤ d.next
    → d.next < number_of_blocks d
    → HasNoGap d block
    → left_from d block offset ≢ []
    → apply_needed d block offset writable ≡ writable
unfolding apply_needed
apply_needed-left d block offset writable pos before lt gap ne =
    rw (==_differ block 0 (omega arith), not_behind (number_of_blocks d) block (omega arith))
      (elim (Bool-cases (ltb offset (length (page_at d block)))) [
        | inl more ↦ rw more refl
        | inr no_more ↦
            let some_page = not_last (d.next - block) (rest_left no_more) in
            let data_behind =
              next_page_has_data d block (d.next - block) gap (omega (arith, before))
                (rest_left no_more) in
            rw
              (
                no_more,
                ==_differ (block + 1) (number_of_blocks d) (omega (arith, some_page)),
                lt→ltb 0 (length (page_at d (block + 1))) data_behind,
              )
              refl
      ])
  where
    rest_left :
        ltb offset (length (page_at d block)) ≡ false
        → bytes_from d (block + 1) (d.next - block) ≢ []
    rest_left no_more p = ne (
        ap (λ t. t ++ bytes_from d (block + 1) (d.next - block))
          (drop-nil offset (page_at d block) no_more)
        ∙ p)

    not_last : (n : ℕ) → bytes_from d (block + 1) n ≢ [] → 1 ≤ n
    not_last zero ne = absurd (ne refl)
    not_last (suc n) ne = omega arith

    not_behind : (n b : ℕ) → b < n → leb n b ≡ false
    not_behind n b lt = ground arith

module _ {A : Type 0} (next : Bytes → Unpacking A) (encode : A → Bytes) where
  wal_apply-left :
      IsUnpacker next encode
      → (d : WalData) (block offset : ℕ) (objs : List A) → 1 ≤ block
      → block ≤ d.next
      → d.next < number_of_blocks d
      → d.next ≤ d.max
      → offset ≤ length (page_at d block)
      → HasNoGap d block
      → left_from d block offset ≡ encodes encode objs
      → (now : List (Applied A)) × (wal_apply next true true d block offset ≡ done now)
        × (objects now ≡ objs)
  unfolding wal_apply
  wal_apply-left u d block offset [] pos before lt le off gap e =
      nothing (apply_needed d block offset true)
    where
      nothing :
          (needed : Bool)
          → (now : List (Applied A)) × ((if needed then consume next d block offset else done [])
              ≡ done now)
            × (objects now ≡ [])
      nothing true = consume-objects next encode u d block offset [] pos before lt le off e
      nothing false = ([], refl, refl)
  wal_apply-left u d block offset (o ∷ objs) pos before lt le off gap e =
      rw
        (apply_needed-left d block offset true pos before lt gap
          (λ p. some_left (encode o) (u.some_bytes o) (sym e ∙ p)))
        (consume-objects next encode u d block offset (o ∷ objs) pos before lt le off e)
    where
      some_left : (bs : Bytes) → 1 ≤ length bs → bs ++ encodes encode objs ≢ []
      some_left [] le = absurd (omega (arith, le))
      some_left (b ∷ bs) le = λ p. cc

  -- Where the WAL is enabled and the database is writable, what is left behind the applied position is applied,
  -- exactly and in order, also where the applier decides not to read because nothing is left; otherwise nothing is
  -- applied, and that is no error. The position is that of a standby that has applied nothing, in the meta page, which
  -- stands for the first data page, or one in a data block up to the one that is written; it is not behind the end of
  -- its page, the pages behind it have data, the bytes that are left are encoded objects, and the unpacker finds each
  -- encoded object and asks for more bytes in the middle of one. The pages of a ring that has gone back to its start
  -- are not covered.
  pub wal_apply-objects :
      IsUnpacker next encode
      → (enabled writable : Bool) (d : WalData) (block offset : ℕ) (objs : List A)
      → data_block block ≤ d.next
      → d.next < number_of_blocks d
      → d.next ≤ d.max
      → offset ≤ length (page_at d (data_block block))
      → HasNoGap d (data_block block)
      → left_from d (data_block block) offset ≡ encodes encode objs
      → (now : List (Applied A)) × (wal_apply next enabled writable d block offset ≡ done now)
        × (objects now ≡ (if enabled && writable then objs else []))
  unfolding wal_apply apply_needed consume
  wal_apply-objects u false writable d block offset objs before lt le off gap e = ([], refl, refl)
  wal_apply-objects u true false d block offset objs before lt le off gap e = (
    [],
    read_only (apply_needed d block offset false) (apply_needed-read_only d block offset),
    refl,
  )
    where
      read_only :
          (needed : Bool)
          → needed ≡ false
          → (if needed then consume next d block offset else done []) ≡ done []
      read_only true h = cc
      read_only false h = refl
  wal_apply-objects u true true d zero offset objs before lt le off gap e =
      wal_apply-left u d 1 offset objs (omega arith) before lt le off gap e
  wal_apply-objects u true true d (suc block) offset objs before lt le off gap e =
      wal_apply-left u d (suc block) offset objs (omega arith) before lt le off gap e
