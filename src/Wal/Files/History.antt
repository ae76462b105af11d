-- ===== src/Wal/Files/History.antt =====
-- What was written to the file of an index since it was truncated is what the applier applies.
use pgroonga.Base.{
  append-ne-nil_left, length-ne-nil, ◌⊎◌, ◌≢◌, inl, inr, ℕ, ◌+◌, ◌-◌, ◌≤◌, ◌<◌, ◌≡◌, refl, sym, ap,
  ap₂, ◌∙◌, subst, Bytes, List, [], ◌∷◌, ◌++◌, append_assoc, append-nil, length, length-append,
  drop, Option, none, some, arith,
}
use pgroonga.Wal.Pages.{Settings, WalData, number_of_blocks, page_at, data_finish, page_writer}
use pgroonga.Wal.Pages.Bounds.{IsInBounds, page_writer-IsInBounds}
use pgroonga.Wal.Pages.Log.{Opened, content, IsLog}
use pgroonga.Wal.Pages.Appends.{page_writer-Opened}
use pgroonga.Wal.Apply.{Unpacking, Applied, Outcome, done, consume}
use pgroonga.Wal.Apply.Drain.{encodes, objects, IsUnpacker}
use pgroonga.Wal.Apply.Order.{bytes_from, consume-objects}
use pgroonga.Wal.Apply.Written.{encodes-append, opened-applied}
use pgroonga.Wal.Files.{File, applied_position, no_blocks, start, write_chunks, finish, truncate}
use pgroonga.Wal.Files.Laws.{
  IsReady, no_blocks-IsReady, finish-IsReady, truncate-IsReady, IsStart, first_page, meta_page,
  truncate-IsStart, finish-position,
}

module _ (s : Settings) where
  -- What the pieces of a transaction leave.
  record Wrote (d : WalData) (bytes : Bytes) (d' : WalData) : Type 0 where
    log : IsLog s d'
    bounds : IsInBounds s d'
    appended : content d'.pages ≡ content d.pages ++ bytes
    open_log : Opened s (content d.pages) d ⊎ bytes ≢ [] → Opened s (content d.pages ++ bytes) d'

  -- A piece before the others: when it is empty, the others open the log.
  one_of_both :
      (d d1 : WalData) (chunk rest : Bytes)
      → (Opened s (content d.pages) d ⊎ chunk ≢ [] → Opened s (content d.pages ++ chunk) d1)
      → content d1.pages ≡ content d.pages ++ chunk
      → Opened s (content d.pages) d ⊎ chunk ++ rest ≢ []
      → Opened s (content d1.pages) d1 ⊎ rest ≢ []
  one_of_both d d1 chunk rest opens e (inl o) =
      inl (subst (λ t. Opened s t d1) (sym e) (opens (inl o)))
  one_of_both d d1 [] rest opens e (inr ne) = inr ne
  one_of_both d d1 (b ∷ bs) rest opens e (inr ne) =
      inl (subst (λ t. Opened s t d1) (sym e) (opens (inr (λ h. cc))))

  chunk_step :
      (chunk : Bytes) (chunks : List Bytes) (d d1 : WalData) (n : ℕ)
      → page_writer s (length chunk) d chunk 0 ≡ some (d1, n)
      → write_chunks s (chunk ∷ chunks) d ≡ write_chunks s chunks d1
  unfolding write_chunks
  chunk_step chunk chunks d d1 n w =
      ap (λ o. elim o [ none ↦ none | some x ↦ write_chunks s chunks x.0 ]) w

  write_chunks-Wrote :
      0 < s.room
      → s.max_size ≡ 0
      → 2 ≤ s.max_pages
      → (chunks : List Bytes) (d : WalData) → IsLog s d
      → IsInBounds s d
      → (d' : WalData) × (write_chunks s chunks d ≡ some d') × Wrote d (content chunks) d'
  unfolding write_chunks
  write_chunks-Wrote room unbounded two [] d log bounds = (
    d,
    refl,
    record {
      log = log;
      bounds = bounds;
      appended = sym (append-nil (content d.pages));
      open_log = stay;
    },
  )
    where
      stay :
          Opened s (content d.pages) d ⊎ (◌≢◌ {A = Bytes} [] [])
          → Opened s (content d.pages ++ []) d
      stay (inl o) = subst (λ t. Opened s t d) (sym (append-nil (content d.pages))) o
      stay (inr ne) = absurd (ne refl)
  write_chunks-Wrote room unbounded two (chunk ∷ chunks) d log bounds =
      let (d1, w, log1, e1, open1) = page_writer-Opened s room unbounded d chunk log in
      let bounds1 =
        page_writer-IsInBounds s (length chunk) d chunk d1 (length chunk) two bounds w in
      let (d', ws, wrote) = write_chunks-Wrote room unbounded two chunks d1 log1 bounds1 in
      let joined : content d1.pages ++ content chunks
          ≡ content d.pages ++ (chunk ++ content chunks) =
        ap (λ t. t ++ content chunks) e1 ∙ append_assoc (content d.pages) chunk (content chunks) in
      (
        d',
        chunk_step chunk chunks d d1 (length chunk) w ∙ ws,
        record {
          log = wrote.log;
          bounds = wrote.bounds;
          appended = wrote.appended ∙ joined;
          open_log = λ k.
              subst (λ t. Opened s t d') joined
                (wrote.open_log (one_of_both d d1 chunk (content chunks) open1 e1 k));
        },
      )

module _ {A : Type 0} (encode : A → Bytes) (s : Settings) where
  -- A file after transactions that wrote objects, in pieces of any size, and truncations; the objects are those since
  -- the last truncation, and the position is the one that was stored by it, or at first.
  pub data History : File → List A → ℕ × ℕ → Type 0 where
    created : History no_blocks [] (applied_position no_blocks.positions)
    written :
        {f : File} {old : List A} {p : ℕ × ℕ} (new : List A) (chunks : List Bytes) (d : WalData)
        → History f old p
        → content chunks ≡ encodes encode new
        → write_chunks s chunks (start f) ≡ some d
        → History (finish d) (old ++ new) p
    truncated :
        {f : File} {old : List A} {p : ℕ × ℕ}
        → History f old p
        → History (truncate s f).0 [] (applied_position (truncate s f).0.positions)

  same_data : {o : Option WalData} {d d' : WalData} → o ≡ some d → o ≡ some d' → d ≡ d'
  same_data e e' = cc

  History-IsReady :
      0 < s.room
      → s.max_size ≡ 0
      → 2 ≤ s.max_pages
      → {f : File} {objs : List A} {p : ℕ × ℕ} → History f objs p
      → IsReady s f (encodes encode objs)
  unfolding start
  History-IsReady room unbounded two created = no_blocks-IsReady s room two
  History-IsReady room unbounded two (truncated {f} {old} {p} h) =
      truncate-IsReady s room two f (encodes encode old) (History-IsReady room unbounded two h)
  History-IsReady room unbounded two (written {f} {old} {p} new chunks d h c e) =
      let r = History-IsReady room unbounded two h in
      let (d', w, wrote) =
        write_chunks-Wrote s room unbounded two chunks (start f) r.log r.bounds in
      subst (λ t. IsReady s (finish t) (encodes encode (old ++ new))) (same_data w e)
        (finish-IsReady s room two d' (encodes encode (old ++ new)) wrote.log wrote.bounds (
          wrote.appended
          ∙ ap (λ t. t ++ content chunks) r.content_is
          ∙ ap (λ t. encodes encode old ++ t) c
          ∙ sym (encodes-append encode old new)))

  History-IsStart :
      0 < s.room
      → s.max_size ≡ 0
      → 2 ≤ s.max_pages
      → {f : File} {objs : List A} {p : ℕ × ℕ} → History f objs p
      → IsStart p
  unfolding applied_position
  History-IsStart room unbounded two created = meta_page
  History-IsStart room unbounded two (truncated {f} {old} {p} h) =
      truncate-IsStart s room two f (encodes encode old) (History-IsReady room unbounded two h)
  History-IsStart room unbounded two (written {f} {old} {p} new chunks d h c e) =
      History-IsStart room unbounded two h

module _ {A : Type 0} (next : Bytes → Unpacking A) where
  consume-IsStart :
      (d : WalData) (p : ℕ × ℕ) → IsStart p → consume next d p.0 p.1 ≡ consume next d 1 0
  unfolding consume
  consume-IsStart _ _ first_page = refl
  consume-IsStart _ _ meta_page = refl

  -- From the end of what a transaction wrote on there is nothing.
  nothing_left :
      (encode : A → Bytes) (s : Settings)
      → IsUnpacker next encode
      → (d : WalData) (bytes : Bytes) → Opened s bytes d
      → IsInBounds s d
      → consume next (start (finish d)) d.next (length (page_at d d.next)) ≡ done []
  unfolding start finish data_finish page_at number_of_blocks
  nothing_left encode s u d bytes h bounds = no_object (
      consume-objects next encode u (start (finish d)) d.next (length (page_at d d.next)) []
        bounds.next_pos (omega arith)
        (omega (arith, next_is, ap length pages_are, length-append full (last ∷ behind)))
        (omega (arith, bounds.next_max)) (omega arith)
        (ap₂ (λ xs n. xs ++ bytes_from (start (finish d)) (d.next + 1) n)
          (drop-all (page_at d d.next)) (no_rest d.next)))
    where
      open h.last_open use {full, last, behind, pages_are, next_is}

      drop-all : (xs : Bytes) → drop (length xs) xs ≡ []
      drop-all [] = refl
      drop-all (x ∷ xs) = drop-all xs

      no_rest : (n : ℕ) → n - n ≡ 0
      no_rest n = omega arith

      no_object :
          {r : Outcome A (List (Applied A))}
          → (now : List (Applied A)) × (r ≡ done now) × (objects now ≡ [])
          → r ≡ done []
      no_object ([], e, none_applied) = e
      no_object (x ∷ now, e, none_applied) = cc

-- Without a limit of the size, whatever transactions and truncations the file of an index has been through, when at
-- least one more object is written in pieces of any size, the transaction returns, and the applier, from the
-- position on that the last truncation stored, or that is there at first, applies the objects that were written since
-- the last truncation and the new ones in their order, once each; and from the position on that the transaction itself
-- stored, the applier applies nothing. The unpacker finds each encoded object and asks for more bytes in the middle of
-- one, a page has room, and a transaction may have two pages.
pub consume-History :
    {A : Type 0} (next : Bytes → Unpacking A) (encode : A → Bytes) (s : Settings)
    → IsUnpacker next encode
    → 0 < s.room
    → s.max_size ≡ 0
    → 2 ≤ s.max_pages
    → (f : File) (old : List A) (p : ℕ × ℕ) (o : A) (new : List A) (chunks : List Bytes)
    → History encode s f old p
    → content chunks ≡ encodes encode (o ∷ new)
    → (d : WalData) × (now : List (Applied A)) × (write_chunks s chunks (start f) ≡ some d)
      × History encode s (finish d) (old ++ o ∷ new) p
      × (consume next (start (finish d)) p.0 p.1 ≡ done now)
      × (objects now ≡ old ++ o ∷ new)
      × (consume next
            (start (finish d))
            (applied_position (finish d).positions).0
            (applied_position (finish d).positions).1
          ≡ done [])
unfolding start finish data_finish
consume-History next encode s u room unbounded two f old p o new chunks h c =
    let r = History-IsReady encode s room unbounded two h in
    let (d, w, wrote) = write_chunks-Wrote s room unbounded two chunks (start f) r.log r.bounds in
    let bytes =
      ap (λ t. t ++ content chunks) r.content_is
      ∙ ap (λ t. encodes encode old ++ t) c
      ∙ sym (encodes-append encode old (o ∷ new)) in
    let open_log =
      subst (λ t. Opened s t d) bytes
        (wrote.open_log (
          inr (
            subst (λ t. t ≢ []) (sym c)
              (append-ne-nil_left (encode o) _ (length-ne-nil (encode o) (u.some_bytes o)))))) in
    let (now, applied, same) =
      opened-applied next encode s u (start (finish d)) (old ++ o ∷ new) open_log.last_open
        open_log.content_is wrote.bounds.next_max in
    (
      d,
      now,
      w,
      written (o ∷ new) chunks d h c w,
      consume-IsStart next (start (finish d)) p (History-IsStart encode s room unbounded two h)
          ∙ applied,
      same,
      ap (λ q. consume next (start (finish d)) q.0 q.1) (finish-position d open_log.current_is)
          ∙ nothing_left next encode s u d _ open_log wrote.bounds,
    )
