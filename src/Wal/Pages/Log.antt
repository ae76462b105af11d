-- ===== src/Wal/Pages/Log.antt =====
-- The pages of the generic WAL as a log: the last page is the one that is written, and opening a page
-- keeps the bytes of the pages.
use pgroonga.Base.{
  ℕ, ◌+◌, ◌-◌, ◌≤◌, ◌<◌, ◌≡◌, refl, sym, ap, ◌∙◌, true, false, Bytes, List, [], ◌∷◌, ◌++◌, length,
  length-append, leb, ◌==◌, Option, none, some, arith, Bool-cases, inl, inr, append_assoc,
  append-nil, All,
}
use pgroonga.Wal.Pages.Set.{get_or, get_or-middle}
use pgroonga.Wal.Pages.{
  Settings, WalData, number_of_blocks, page_at, new_page, old_page, restart_if_used_up, open_page,
  ensure_from, free_size, ensure_current,
}

abbrev pub content : List Bytes → Bytes
content [] = []
content (page ∷ pages) = page ++ content pages

content-append : (pages more : List Bytes) → content (pages ++ more) ≡ content pages ++ content more
content-append [] more = refl
content-append (p ∷ pages) more =
    ap (λ t. p ++ t) (content-append pages more)
    ∙ sym (append_assoc p (content pages) (content more))

abbrev pub IsEmpty : Bytes → Type 0
IsEmpty page = page ≡ []

pub content-IsEmpty : (pages : List Bytes) → All IsEmpty pages → content pages ≡ []
content-IsEmpty [] es = refl
content-IsEmpty (page ∷ pages) (e, es) = rw (e, content-IsEmpty pages es) refl

-- With empty pages behind it, the last page ends the content.
pub content-last :
    (full : List Bytes) (last : Bytes) (behind : List Bytes)
    → All IsEmpty behind
    → content (full ++ last ∷ behind) ≡ content full ++ last
content-last full last behind es =
    content-append full (last ∷ behind)
    ∙ ap (λ t. content full ++ (last ++ t)) (content-IsEmpty behind es)
    ∙ ap (λ t. content full ++ t) (append-nil last)

module _ (s : Settings) where
  -- The block `next` is the last page with bytes, and is not full.
  pub record IsLast (pages : List Bytes) (next : ℕ) : Type 0 where
    pub full : List Bytes
    pub last : Bytes
    pub behind : List Bytes
    pub pages_are : pages ≡ full ++ last ∷ behind
    pub empty_behind : All IsEmpty behind
    pub next_is : next ≡ length full + 1
    pub free : length last < s.room

  -- The pages are a log: `next` is the last page, which may be open, or is about to be made.
  pub data IsLog (d : WalData) : Type 0 where
    at_last : IsLast d.pages d.next → d.current ≡ none → IsLog d
    opened : IsLast d.pages d.next → d.current ≡ some d.next → IsLog d
    at_end : d.next ≡ length d.pages + 1 → d.current ≡ none → IsLog d

  -- What a step leaves: the last page is open, and the content is `bytes`.
  pub record Opened (bytes : Bytes) (d : WalData) : Type 0 where
    pub last_open : IsLast d.pages d.next
    pub current_is : d.current ≡ some d.next
    pub content_is : content d.pages ≡ bytes

  pub page_at_last :
      (d : WalData) (full : List Bytes) (last : Bytes) (behind : List Bytes)
      → d.pages ≡ full ++ last ∷ behind
      → d.next ≡ length full + 1
      → page_at d d.next ≡ last
  unfolding page_at
  page_at_last d full last behind pages_are next_is =
      ap (λ i. get_or [] d.pages i) (omega (arith, next_is))
      ∙ ap (λ p. get_or [] p (length full)) pages_are
      ∙ get_or-middle [] full last behind

  not_full :
      (d : WalData) (h : IsLast d.pages d.next) → (free_size s (page_at d d.next) == 0) ≡ false
  unfolding free_size
  not_full d h =
      ap (λ p. (s.room - length p) == 0)
        (page_at_last d h.full h.last h.behind h.pages_are h.next_is)
      ∙ positive (length h.last) s.room h.free
    where
      positive : (m n : ℕ) → m < n → (n - m == 0) ≡ false
      positive m n lt = ground arith

  new_page-Opened :
      0 < s.room
      → (d : WalData) (bytes : Bytes) → content d.pages ≡ bytes
      → Opened bytes (new_page d)
  unfolding new_page number_of_blocks
  new_page-Opened pos d bytes e = record {
    last_open = record {
      full = d.pages;
      last = [];
      behind = [];
      pages_are = refl;
      empty_behind = tt;
      next_is = refl;
      free = pos;
    };
    current_is = refl;
    content_is = content-append d.pages ([] ∷ []) ∙ append-nil (content d.pages) ∙ e;
  }

  old_page-Opened :
      (d : WalData) (bytes : Bytes)
      → IsLast d.pages d.next
      → content d.pages ≡ bytes
      → Opened bytes (old_page s d)
  unfolding old_page
  old_page-Opened d bytes h e =
      rw (not_full d h) (record { last_open = h; current_is = refl; content_is = e })

  -- A page is opened: the last one, or a new one behind it.
  open_page-at_last :
      (d : WalData) (bytes : Bytes)
      → IsLast d.pages d.next × (content d.pages ≡ bytes)
      → Opened bytes (open_page s d)
  unfolding open_page number_of_blocks
  open_page-at_last d bytes (h, e) =
      rw (le→leb_false (length d.pages) d.next below) (old_page-Opened d bytes h e)
    where
      le→leb_false : (m n : ℕ) → n ≤ m → leb (m + 1) n ≡ false
      le→leb_false m n le = ground arith

      below : d.next ≤ length d.pages
      below =
          omega (arith, h.next_is, ap length h.pages_are, length-append h.full (h.last ∷ h.behind))

  open_page-at_end :
      0 < s.room
      → (d : WalData) (bytes : Bytes) → (d.next ≡ length d.pages + 1) × (content d.pages ≡ bytes)
      → Opened bytes (open_page s d)
  unfolding open_page number_of_blocks
  open_page-at_end pos d bytes (n, e) =
      rw (leb_true d.next (length d.pages) n) (new_page-Opened pos d bytes e)
    where
      leb_true : (m n : ℕ) → m ≡ n + 1 → leb (n + 1) m ≡ true
      leb_true m n e = ground arith

  -- A restarted transaction has the same pages.
  restart-keeps :
      (P : List Bytes → ℕ → Type 0) (d : WalData)
      → P d.pages d.next
      → P (restart_if_used_up s d).pages (restart_if_used_up s d).next
  unfolding restart_if_used_up
  restart-keeps P d h = elim (Bool-cases (d.n_used_pages == s.max_pages)) [
    | inl e ↦ rw e h
    | inr e ↦ rw e h
  ]

  pub ensure-Opened :
      0 < s.room
      → (d : WalData) (bytes : Bytes) → IsLog d
      → content d.pages ≡ bytes
      → Opened bytes (ensure_current s d)
  unfolding ensure_current ensure_from
  ensure-Opened pos d bytes log e = from d.current refl log
    where
      from : (c : Option ℕ) → d.current ≡ c → IsLog d → Opened bytes (ensure_from s d c)
      from none c (at_last h _) =
          open_page-at_last (restart_if_used_up s d) bytes
            (restart-keeps (λ p n. IsLast p n × (content p ≡ bytes)) d (h, e))
      from none c (opened h o) = cc
      from none c (at_end n _) =
          open_page-at_end pos (restart_if_used_up s d) bytes
            (restart-keeps (λ p n. (n ≡ length p + 1) × (content p ≡ bytes)) d (n, e))
      from (some block) c (at_last h o) = cc
      from (some block) c (opened h o) = record { last_open = h; current_is = o; content_is = e }
      from (some block) c (at_end n o) = cc
