-- ===== src/Wal/Apply/Written.antt =====
-- The writer and the applier of the generic WAL together: what was written is what is applied.
use pgroonga.Base.{
  append-ne-nil_left, length-ne-nil, ℕ, suc, ◌+◌, ◌-◌, ◌≤◌, ◌<◌, ◌≡◌, refl, sym, ap, ◌∙◌, subst,
  Bytes, List, [], ◌∷◌, ◌++◌, length, length-append, append_assoc, inr, some, arith, All,
}
use pgroonga.Wal.Pages.{Settings, WalData, number_of_blocks, page_at, page_writer}
use pgroonga.Wal.Pages.Set.{get_or, get_or-middle}
use pgroonga.Wal.Pages.Bounds.{IsInBounds, page_writer-IsInBounds}
use pgroonga.Wal.Pages.Log.{content, content-last, IsEmpty, IsLast, IsLog, Opened}
use pgroonga.Wal.Pages.Appends.{page_writer-Opened}
use pgroonga.Wal.Apply.{Unpacking, Applied, done, consume}
use pgroonga.Wal.Apply.Drain.{encodes, objects, IsUnpacker}
use pgroonga.Wal.Apply.Order.{bytes_from, consume-objects}

pub encodes-append :
    {A : Type 0} (encode : A → Bytes) (xs ys : List A)
    → encodes encode (xs ++ ys) ≡ encodes encode xs ++ encodes encode ys
encodes-append encode [] ys = refl
encodes-append encode (x ∷ xs) ys =
    ap (λ t. encode x ++ t) (encodes-append encode xs ys) ∙ sym (append_assoc (encode x) _ _)

-- The blocks behind some first pages hold the other pages.
bytes_from-content :
    (d : WalData) (before after behind : List Bytes)
    → d.pages ≡ before ++ (after ++ behind)
    → bytes_from d (length before + 1) (length after) ≡ content after
unfolding page_at
bytes_from-content d before [] behind e = refl
bytes_from-content d before (page ∷ after) behind e =
    ap (λ t. t ++ bytes_from d (length before + 1 + 1) (length after)) here
    ∙ ap (λ t. page ++ t)
        (ap (λ n. bytes_from d (n + 1) (length after)) (sym (length-append before (page ∷ [])))
          ∙ bytes_from-content d (before ++ page ∷ []) after behind
              (e ∙ sym (append_assoc before (page ∷ []) (after ++ behind))))
  where
    one_less : (n : ℕ) → (n + 1) - 1 ≡ n
    one_less n = omega arith

    here : page_at d (length before + 1) ≡ page
    here =
        ap (λ i. get_or [] d.pages i) (one_less (length before))
        ∙ ap (λ p. get_or [] p (length before)) e
        ∙ get_or-middle [] before page (after ++ behind)

-- A log whose last page is open holds its bytes from the first page on.
content-blocks :
    (d : WalData) (full : List Bytes) (last : Bytes) (behind : List Bytes)
    → d.pages ≡ full ++ last ∷ behind
    → All IsEmpty behind
    → d.next ≡ length full + 1
    → page_at d 1 ++ bytes_from d 2 (d.next - 1) ≡ content d.pages
content-blocks d full last behind pages_are empty_behind next_is =
    ap (λ n. page_at d 1 ++ bytes_from d 2 n) rest_count
    ∙ subst (λ n. bytes_from d 1 n ≡ content (full ++ last ∷ [])) all_count
        (bytes_from-content d [] (full ++ last ∷ []) behind
          (pages_are ∙ sym (append_assoc full (last ∷ []) behind)))
    ∙ content-last full last [] tt
    ∙ sym (content-last full last behind empty_behind)
    ∙ ap content (sym pages_are)
  where
    rest_count : d.next - 1 ≡ length full
    rest_count = omega (arith, next_is)

    all_count : length (full ++ last ∷ []) ≡ suc (length full)
    all_count = length-append full (last ∷ []) ∙ omega arith

module _ {A : Type 0} (next : Bytes → Unpacking A) (encode : A → Bytes) (s : Settings) where
  pub opened-applied :
      IsUnpacker next encode
      → (d : WalData) (objs : List A) → IsLast s d.pages d.next
      → content d.pages ≡ encodes encode objs
      → d.next < d.max
      → (now : List (Applied A)) × (consume next d 1 0 ≡ done now) × (objects now ≡ objs)
  unfolding number_of_blocks
  opened-applied u d objs h content_is below =
      consume-objects next encode u d 1 0 objs (omega arith) (omega (arith, next_is))
        (omega (arith, next_is, ap length pages_are, length-append full (last ∷ behind)))
        (omega arith) (omega arith)
        (content-blocks d full last behind pages_are empty_behind next_is ∙ content_is)
    where
      open h use {full, last, behind, pages_are, empty_behind, next_is}

  -- Without a limit of the size: when the pages are a log of encoded objects and more encoded objects are
  -- written, at least one, the writer returns with every byte written, and the applier from the first
  -- data page on then applies the old objects and the new ones in their order, once each.
  -- The unpacker finds each encoded object and asks for more bytes in the middle of one, a page has room,
  -- and a transaction may have two pages.
  pub consume-page_writer :
      IsUnpacker next encode
      → 0 < s.room
      → s.max_size ≡ 0
      → 2 ≤ s.max_pages
      → (d : WalData) (old : List A) (o : A) (new : List A) → IsLog s d
      → IsInBounds s d
      → content d.pages ≡ encodes encode old
      → (d' : WalData) × (now : List (Applied A)) × (page_writer s
            (length (encodes encode (o ∷ new)))
            d
            (encodes encode (o ∷ new))
            0
          ≡ some (d', length (encodes encode (o ∷ new))))
        × (consume next d' 1 0 ≡ done now)
        × (objects now ≡ old ++ o ∷ new)
  consume-page_writer u pos unbounded two d old o new log bounds e =
      let bytes = encodes encode (o ∷ new) in
      let w = page_writer-Opened s pos unbounded d bytes log in
      let after =
        page_writer-IsInBounds s (length bytes) d bytes w.0 (length bytes) two bounds w.1 in
      let open_log =
        subst (λ t. Opened s t w.0)
          (ap (λ t. t ++ bytes) e ∙ sym (encodes-append encode old (o ∷ new)))
          (w.4
            (inr (append-ne-nil_left (encode o) _ (length-ne-nil (encode o) (u.some_bytes o))))) in
      let a =
        opened-applied u w.0 (old ++ o ∷ new) open_log.last_open open_log.content_is
          after.next_max in
      (w.0, a.0, w.1, a.1, a.2)
