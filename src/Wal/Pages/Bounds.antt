-- ===== src/Wal/Pages/Bounds.antt =====
-- The writer keeps the positions of the ring and the buffers of the transaction in their bounds.
use pgroonga.Base.{
  ℕ, zero, suc, ◌+◌, ◌*◌, ◌^◌, ◌≤◌, ◌<◌, ◌≡◌, Bytes, [], ◌∷◌, length, ◌==◌, Option, none, some,
  arith, subst, Bool-cases, inl, inr,
}
use pgroonga.Wal.Pages.{
  Settings, WalData, number_of_blocks, page_at, page_append, size_limit, page_filled,
  restart_if_used_up, open_page, ensure_from, free_size, ensure_current, current_block,
  leave_if_full, write_round, page_writer,
}

-- The next block is a data block below `max`, and the buffers that are kept fit their array of
-- `max_pages`.
pub record IsInBounds (s : Settings) (d : WalData) : Type 0 where
  pub next_pos : 1 ≤ d.next
  pub next_max : d.next < d.max
  pub buffers : d.n_buffers ≡ d.n_used_pages
  pub used : d.n_used_pages ≤ s.max_pages

-- The blocks in use lie below the limit of the size.
pub record IsSmall (s : Settings) (d : WalData) : Type 0 where
  pub next_small : d.next * s.block_size < size_limit s
  pub file_small : length d.pages * s.block_size < size_limit s

module _ (s : Settings) (P : WalData → Type 0) where
  -- What the steps of the writer keep, the writer keeps.
  record Steps : Type 0 where
    append : (d : WalData) (block : ℕ) (bytes : Bytes) → P d → P (page_append d block bytes)
    filled : (d : WalData) → P d → P (page_filled s d)
    opened : (d : WalData) → P d → P (open_page s (restart_if_used_up s d))

  ensure_keeps : Steps → (d : WalData) (c : Option ℕ) → P d → P (ensure_from s d c)
  unfolding ensure_from
  ensure_keeps k d (some block) h = h
  ensure_keeps k d none h = k.opened d h

  leave_keeps : Steps → (d : WalData) → P d → P (leave_if_full s d)
  unfolding leave_if_full ensure_current
  leave_keeps k d h = elim (Bool-cases (free_size s (page_at d (current_block d)) == 0)) [
    | inl e ↦ rw e (ensure_keeps k (page_filled s d) (page_filled s d).current (k.filled d h))
    | inr e ↦ rw e h
  ]

  writer_keeps :
      Steps
      → (fuel : ℕ) (d : WalData) (buffer : Bytes) (written : ℕ) (d' : WalData) (n : ℕ) → P d
      → page_writer s fuel d buffer written ≡ some (d', n)
      → P d'
  unfolding page_writer write_round ensure_current
  writer_keeps k fuel d [] written d' n h e = subst P (cc e) h
  writer_keeps k zero d (b ∷ buffer) written d' n h e = cc
  writer_keeps k (suc fuel) d (b ∷ buffer) written d' n h e =
      writer_keeps k fuel _ _ _ d' n
        (leave_keeps k _ (k.append _ _ _ (ensure_keeps k d d.current h))) e

module _ (s : Settings) where
  IsInBounds-steps : 2 ≤ s.max_pages → Steps s (IsInBounds s)
  unfolding page_append page_filled open_page restart_if_used_up number_of_blocks
  IsInBounds-steps two = record {
    append = λ d block bytes h. omega arith;
    filled = λ d h. ground arith;
    opened = λ d h. ground arith;
  }

  -- The limit is at least a block below 4 GiB.
  abbrev pub HasSmallLimit : Type 0
  HasSmallLimit = size_limit s + s.block_size ≤ 2 ^ 32

  -- The writer keeps the positions of the ring and the buffers in their bounds, when a transaction may
  -- have the meta page and one data page: the next block is a data block below `max`, and the buffers
  -- that are kept never exceed `max_pages`, the size of their array. This holds for a call with any
  -- fuel that returns.
  pub page_writer-IsInBounds :
      (fuel : ℕ) (d : WalData) (buffer : Bytes) (d' : WalData) (n : ℕ)
      → 2 ≤ s.max_pages
      → IsInBounds s d
      → page_writer s fuel d buffer 0 ≡ some (d', n)
      → IsInBounds s d'
  page_writer-IsInBounds fuel d buffer d' n two h e =
      writer_keeps s (IsInBounds s) (IsInBounds-steps two) fuel d buffer 0 d' n h e
