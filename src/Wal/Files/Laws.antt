-- ===== src/Wal/Files/Laws.antt =====
-- The file of an index through any number of transactions and truncations.
use pgroonga.Base.{
  ℕ, suc, ◌+◌, ◌-◌, ◌≤◌, ◌<◌, ◌≡◌, refl, sym, ap, ◌∙◌, subst, Bytes, List, All, [], ◌∷◌, ◌++◌,
  append_assoc, append-nil, length, length-append, Option, none, some, arith,
}
use pgroonga.Wal.Pages.Set.{set, set-middle}
use pgroonga.Wal.Pages.{Settings, WalData, page_at, data_finish}
use pgroonga.Wal.Pages.Bounds.{IsInBounds}
use pgroonga.Wal.Pages.Log.{content, content-IsEmpty, IsEmpty, IsLog, at_last, opened, at_end}
use pgroonga.Wal.Files.{
  File, applied_position, no_blocks, init_meta, start, finish, Truncation, truncate_block,
  truncate_blocks, truncate_pages, truncate_meta, truncate,
}

-- What the pages, the buffers and the count are behind the loop of the truncation.
record Truncated (s : Settings) (t : Truncation) (blocks : ℕ) : Type 0 where
  empty : All IsEmpty t.pages
  buffers : t.n_processing_buffers ≤ s.max_pages
  blocks_are : t.n_truncated_blocks ≡ blocks

All-append {ℓ κ} :
    {A : Type ℓ} (P : A → Type κ) (xs : List A) (x : A) → All P xs → P x → All P (xs ++ x ∷ [])
All-append P [] x ps p = (p, tt)
All-append P (y ∷ xs) x (q, ps) p = (q, All-append P xs x ps p)

truncate_blocks-Truncated :
    (s : Settings) (before after : List Bytes) (t : Truncation)
    → 1 ≤ s.max_pages
    → t.pages ≡ before ++ after
    → All IsEmpty before
    → t.n_processing_buffers ≤ s.max_pages
    → Truncated s
        (truncate_blocks s (length after) (length before + 1) t)
        (t.n_truncated_blocks + length after)
unfolding truncate_blocks truncate_block
truncate_blocks-Truncated s before [] t one e es le = record {
  empty = subst (All IsEmpty) (sym (e ∙ append-nil before)) es;
  buffers = le;
  blocks_are = omega arith;
}
truncate_blocks-Truncated s before (page ∷ after) t one e es le =
    subst (Truncated s (truncate_blocks s (length after) (length before + 1 + 1) t')) count (
      subst
        (λ i.
          Truncated s (truncate_blocks s (length after) (i + 1) t')
            (t'.n_truncated_blocks + length after))
        (length-append before ([] ∷ []))
        (truncate_blocks-Truncated s (before ++ [] ∷ []) after t' one emptied
          (All-append IsEmpty before [] es refl) fits))
  where
    t' : Truncation
    t' = truncate_block s (length before + 1) t

    count : t'.n_truncated_blocks + length after ≡ t.n_truncated_blocks + suc (length after)
    count = omega arith

    one_less : (n : ℕ) → (n + 1) - 1 ≡ n
    one_less n = omega arith

    emptied : t'.pages ≡ (before ++ [] ∷ []) ++ after
    emptied =
        ap (λ i. set t.pages i []) (one_less (length before))
        ∙ ap (λ p. set p (length before) []) e
        ∙ set-middle before page [] after
        ∙ sym (append_assoc before ([] ∷ []) after)

    fits : t'.n_processing_buffers ≤ s.max_pages
    fits = ground arith

truncate_pages-Truncated :
    (s : Settings) (pages : List Bytes)
    → 1 ≤ s.max_pages
    → Truncated s (truncate_pages s pages) (length pages + 1)
unfolding truncate_pages
truncate_pages-Truncated s pages one = subst (Truncated s (truncate_pages s pages)) (omega arith) (
    truncate_blocks-Truncated s [] pages
      (record { pages = pages; n_processing_buffers = 1; n_truncated_blocks = 1 }) one refl tt one)

-- A file between transactions, with the bytes of its log.
pub record IsReady (s : Settings) (f : File) (bytes : Bytes) : Type 0 where
  pub log : IsLog s (start f)
  pub bounds : IsInBounds s (start f)
  pub content_is : content f.pages ≡ bytes
  pub no_meta : f.meta ≡ none → (f.pages ≡ []) × (f.positions ≡ [])

pub applied_position-append :
    (positions : List (ℕ × ℕ)) (p : ℕ × ℕ) → applied_position (positions ++ p ∷ []) ≡ p
unfolding applied_position
applied_position-append [] p = refl
applied_position-append (q ∷ []) p = refl
applied_position-append (q ∷ r ∷ positions) p = applied_position-append (r ∷ positions) p

-- The start of the first data page, or of the meta page before it.
pub data IsStart : ℕ × ℕ → Type 0 where
  first_page : IsStart (1, 0)
  meta_page : IsStart (0, 0)

module _ (s : Settings) (room : 0 < s.room) (two : 2 ≤ s.max_pages) where
  pub no_blocks-IsReady : IsReady s no_blocks []
  unfolding start
  no_blocks-IsReady = record {
    log = at_end refl refl;
    bounds = record {
      next_pos = omega arith;
      next_max = omega arith;
      buffers = refl;
      used = omega arith;
    };
    content_is = refl;
    no_meta = λ e. (refl, refl);
  }

  -- What the writer leaves is a log for the next transaction.
  pub finish-IsReady :
      (d : WalData) (bytes : Bytes)
      → IsLog s d
      → IsInBounds s d
      → content d.pages ≡ bytes
      → IsReady s (finish d) bytes
  unfolding start finish data_finish
  finish-IsReady d bytes log bounds e = record {
    log = closed log;
    bounds = record {
      next_pos = bounds.next_pos;
      next_max = bounds.next_max;
      buffers = refl;
      used = omega arith;
    };
    content_is = e;
    no_meta = λ e. cc;
  }
    where
      closed : IsLog s d → IsLog s (start (finish d))
      closed (at_last h c) = at_last h refl
      closed (opened h c) = at_last h refl
      closed (at_end n c) = at_end n refl

  empty-IsLog :
      (d : WalData) (pages : List Bytes)
      → d.pages ≡ pages
      → All IsEmpty pages
      → d.next ≡ 1
      → d.current ≡ none
      → IsLog s d
  empty-IsLog d [] e es n c = at_end (omega (arith, n, ap length e)) c
  empty-IsLog d (page ∷ pages) e (p, es) n c =
      at_last
        (record {
          full = [];
          last = page;
          behind = pages;
          pages_are = e;
          empty_behind = es;
          next_is = n;
          free = omega (arith, ap length p);
        })
        c

  pub truncate-IsReady :
      (f : File) (bytes : Bytes) → IsReady s f bytes → IsReady s (truncate s f).0 []
  unfolding truncate start
  truncate-IsReady f bytes h = from f.meta refl
    where
      below : (meta : ℕ × ℕ) → f.meta ≡ some meta → 1 < meta.1
      below meta e = omega (
        arith,
        subst (λ m. 1 ≤ (init_meta m).0) e h.bounds.next_pos,
        subst (λ m. (init_meta m).0 < (init_meta m).1) e h.bounds.next_max,
      )

      from : (m : Option (ℕ × ℕ)) → f.meta ≡ m → IsReady s (truncate_meta s m f).0 []
      from none e = record {
        log = h.log;
        bounds = h.bounds;
        content_is = ap content (h.no_meta e).0;
        no_meta = h.no_meta;
      }
      from (some meta) e =
          let t = truncate_pages-Truncated s f.pages (omega (arith, two)) in
          record {
            log = empty-IsLog _ (truncate_pages s f.pages).pages refl t.empty refl refl;
            bounds = record {
              next_pos = omega arith;
              next_max = below meta e;
              buffers = refl;
              used = omega (arith, two);
            };
            content_is = content-IsEmpty (truncate_pages s f.pages).pages t.empty;
            no_meta = λ k. cc;
          }

  -- A truncation lets the applier start anew.
  pub truncate-IsStart :
      (f : File) (bytes : Bytes)
      → IsReady s f bytes
      → IsStart (applied_position (truncate s f).0.positions)
  unfolding truncate applied_position
  truncate-IsStart f bytes h = from f.meta refl
    where
      from :
          (m : Option (ℕ × ℕ))
          → f.meta ≡ m
          → IsStart (applied_position (truncate_meta s m f).0.positions)
      from none e = subst (λ ps. IsStart (applied_position ps)) (sym (h.no_meta e).1) meta_page
      from (some meta) e =
          subst IsStart (sym (applied_position-append f.positions (1, 0))) first_page

-- The primary stores the end of what it has written.
pub finish-position :
    (d : WalData)
    → d.current ≡ some d.next
    → applied_position (finish d).positions ≡ (d.next, length (page_at d d.next))
unfolding finish data_finish
finish-position d current = by_current d.current current
  where
    the_block : (a b : ℕ) → some a ≡ some b → a ≡ b
    the_block a b e = cc

    by_current :
        (c : Option ℕ)
        → c ≡ some d.next
        → applied_position (
            d.positions
            ++ (elim c [ some block ↦ (block, length (page_at d block)) | none ↦ (d.next, 0) ])
              ∷ [])
          ≡ (d.next, length (page_at d d.next))
    by_current none e = cc
    by_current (some block) e =
        applied_position-append d.positions (block, length (page_at d block))
        ∙ ap (λ b. (b, length (page_at d b))) (the_block block d.next e)
