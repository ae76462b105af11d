-- ===== src/Wal/Pages/Appends.antt =====
-- The loop of the writer ends, and without a limit of the size it only appends: no byte of the ring is
-- lost or written out of order.
use pgroonga.Base.{
  ◌⊎◌, ◌≢◌, ℕ, zero, suc, ◌+◌, ◌-◌, ◌≤◌, ◌<◌, ◌≡◌, refl, sym, ap, ◌∙◌, subst, false, Bytes, List,
  [], ◌∷◌, ◌++◌, length, length-append, take, drop, length-take, take-ge, take-drop-length, leb,
  leb→le, ◌==◌, if◌then◌else◌, none, some, arith, Bool-cases, inl, inr, append_assoc, append-nil,
  not-suc-le-zero, All,
}
use native.Mathlib.Nat.{zero-add, add-zero, add_assoc}
use pgroonga.Wal.Pages.Set.{set, set-middle}
use pgroonga.Wal.Pages.{
  Settings, WalData, page_at, page_append, go_forward, page_filled, free_size, ensure_current,
  fitting, current_block, leave_if_full, write_round, page_writer,
}
use pgroonga.Wal.Pages.Log.{
  content, content-last, IsEmpty, IsLog, Opened, opened, at_last, at_end, page_at_last,
  ensure-Opened,
}

module _ (s : Settings) where
  -- Bytes that fit are appended to the last page, which may then be full.
  record Filled (bytes : Bytes) (d : WalData) : Type 0 where
    full : List Bytes
    last : Bytes
    behind : List Bytes
    pages_are : d.pages ≡ full ++ last ∷ behind
    empty_behind : All IsEmpty behind
    next_is : d.next ≡ length full + 1
    fits : length last ≤ s.room
    current_is : d.current ≡ some d.next
    content_is : content d.pages ≡ bytes

  current_is_next : (d : WalData) → d.current ≡ some d.next → current_block d ≡ d.next
  current_is_next d e = ap (λ c. elim c [ some block ↦ block | none ↦ 0 ]) e

  page_append-Filled :
      (d : WalData) (bytes more : Bytes) (h : Opened s bytes d)
      → length more ≤ free_size s (page_at d d.next)
      → Filled (bytes ++ more) (page_append d (current_block d) more)
  unfolding page_append free_size
  page_append-Filled d bytes more h fits = record {
    full = full;
    last = last ++ more;
    behind = behind;
    pages_are = pages_set;
    empty_behind = empty_behind;
    next_is = next_is;
    fits = omega (arith, length-append last more, h.last_open.free, room_left);
    current_is = h.current_is;
    content_is =
        ap content pages_set
        ∙ content-last full (last ++ more) behind empty_behind
        ∙ sym (append_assoc (content full) last more)
        ∙ ap (λ t. t ++ more)
            (sym (content-last full last behind empty_behind)
              ∙ ap content (sym pages_are)
              ∙ h.content_is);
  }
    where
      open h.last_open use {full, last, behind, pages_are, empty_behind, next_is}

      here : page_at d d.next ≡ last
      here = page_at_last s d full last behind pages_are next_is

      room_left : length more ≤ s.room - length last
      room_left = subst (λ p. length more ≤ s.room - length p) here fits

      pages_set :
          set d.pages (current_block d - 1) (page_at d (current_block d) ++ more)
          ≡ full ++ (last ++ more) ∷ behind
      pages_set =
          ap (λ b. set d.pages (b - 1) (page_at d b ++ more)) (current_is_next d h.current_is)
          ∙ ap (λ p. set d.pages (d.next - 1) (p ++ more)) here
          ∙ ap (λ i. set d.pages i (last ++ more)) (omega (arith, next_is))
          ∙ ap (λ p. set p (length full) (last ++ more)) pages_are
          ∙ set-middle full last (last ++ more) behind

  -- Behind a full page comes an empty one, or none.
  next-IsLog :
      0 < s.room
      → (d : WalData) (full : List Bytes) (last : Bytes) (behind : List Bytes)
      → d.pages ≡ full ++ last ∷ behind
      → All IsEmpty behind
      → d.next ≡ length full + 1
      → (d' : WalData) → d'.pages ≡ d.pages
      → d'.next ≡ d.next + 1
      → d'.current ≡ none
      → IsLog s d'
  next-IsLog pos d full last [] pages_are es next_is d' same n c =
      at_end
        (omega
          (arith, n, next_is, ap length same, ap length pages_are, length-append full (last ∷ [])))
        c
  next-IsLog pos d full last (page ∷ behind) pages_are (e, es) next_is d' same n c =
      at_last
        (record {
          full = full ++ last ∷ [];
          last = page;
          behind = behind;
          pages_are = same ∙ pages_are ∙ sym (append_assoc full (last ∷ []) (page ∷ behind));
          empty_behind = es;
          next_is = omega (arith, n, next_is, length-append full (last ∷ []));
          free = omega (arith, ap length e);
        })
        c

  page_filled-go_forward : s.max_size ≡ 0 → (d : WalData) → page_filled s d ≡ go_forward d
  unfolding page_filled
  page_filled-go_forward unbounded d = rw unbounded refl

  page_filled-IsLog :
      0 < s.room
      → s.max_size ≡ 0
      → (d : WalData) (bytes : Bytes) → Filled bytes d
      → IsLog s (page_filled s d)
  unfolding go_forward
  page_filled-IsLog pos unbounded d bytes h =
      subst (IsLog s) (sym (page_filled-go_forward unbounded d)) (
        next-IsLog pos d h.full h.last h.behind h.pages_are h.empty_behind h.next_is (go_forward d)
          refl refl refl)

  page_filled-pages : s.max_size ≡ 0 → (d : WalData) → (page_filled s d).pages ≡ d.pages
  unfolding go_forward
  page_filled-pages unbounded d = ap (λ t. t.pages) (page_filled-go_forward unbounded d)

  leave_if_full-Opened :
      0 < s.room
      → s.max_size ≡ 0
      → (d : WalData) (bytes : Bytes) → Filled bytes d
      → Opened s bytes (leave_if_full s d)
  unfolding leave_if_full free_size
  leave_if_full-Opened pos unbounded d bytes h =
      elim (Bool-cases (free_size s (page_at d (current_block d)) == 0)) [
        | inl e ↦ rw e (
            ensure-Opened s pos (page_filled s d) bytes (page_filled-IsLog pos unbounded d bytes h)
              (ap content (page_filled-pages unbounded d) ∙ h.content_is))
        | inr e ↦ rw e (record {
          last_open = record {
            full = h.full;
            last = h.last;
            behind = h.behind;
            pages_are = h.pages_are;
            empty_behind = h.empty_behind;
            next_is = h.next_is;
            free = below e;
          };
          current_is = h.current_is;
          content_is = h.content_is;
        })
      ]
    where
      room_left : free_size s (page_at d (current_block d)) ≡ s.room - length h.last
      room_left =
          ap (λ b. free_size s (page_at d b)) (current_is_next d h.current_is)
          ∙ ap (λ p. s.room - length p)
              (page_at_last s d h.full h.last h.behind h.pages_are h.next_is)

      some_left : (m : ℕ) → (m == 0) ≡ false → 0 < m
      some_left m e = ground arith

      below : (free_size s (page_at d (current_block d)) == 0) ≡ false → length h.last < s.room
      below e =
          omega (arith, some_left (s.room - length h.last) (ap (λ m. m == 0) (sym room_left) ∙ e))

  -- The bytes that fit are the first ones, at least one where there is room.
  fitting-take :
      (d : WalData) (buffer : Bytes)
      → fitting s d buffer ≡ take (free_size s (page_at d (current_block d))) buffer
  unfolding fitting
  fitting-take d buffer = all_or_take (free_size s (page_at d (current_block d)))
    where
      all_or_take :
          (n : ℕ) → (if leb (length buffer) n then buffer else take n buffer) ≡ take n buffer
      all_or_take n = elim (Bool-cases (leb (length buffer) n)) [
        | inl le ↦ rw le (sym (take-ge n buffer (leb→le _ _ le)))
        | inr gt ↦ rw gt refl
      ]

  -- What one round leaves, when there is something to write.
  record Written (d : WalData) (buffer more : Bytes) (bytes : Bytes) : Type 0 where
    some_written : 1 ≤ length more
    split : more ++ drop (length more) buffer ≡ buffer
    after : Opened s (bytes ++ more) (write_round s d more)

  write_round-Written :
      0 < s.room
      → s.max_size ≡ 0
      → (d : WalData) (b : ℕ) (rest bytes : Bytes) → Opened s bytes d
      → Written d (b ∷ rest) (fitting s d (b ∷ rest)) bytes
  unfolding write_round free_size
  write_round-Written pos unbounded d b rest bytes h =
      subst (λ more. Written d (b ∷ rest) more bytes) (sym (fitting-take d (b ∷ rest)))
        (record {
          some_written = some_taken free has_room;
          split = take-drop-length free (b ∷ rest);
          after = leave_if_full-Opened pos unbounded _ (bytes ++ take free (b ∷ rest)) (
              page_append-Filled d bytes (take free (b ∷ rest)) h (
                subst (λ n. length (take free (b ∷ rest)) ≤ free_size s (page_at d n)) at_next
                  (length-take free (b ∷ rest))));
        })
    where
      free : ℕ
      free = free_size s (page_at d (current_block d))

      at_next : current_block d ≡ d.next
      at_next = current_is_next d h.current_is

      some_taken : (n : ℕ) → 0 < n → 1 ≤ length (take n (b ∷ rest))
      some_taken zero lt = omega arith
      some_taken (suc n) lt = omega arith

      left : free ≡ s.room - length h.last_open.last
      left =
          ap (λ n. free_size s (page_at d n)) at_next
          ∙ ap (λ p. s.room - length p)
              (page_at_last s d h.last_open.full h.last_open.last h.last_open.behind
                h.last_open.pages_are h.last_open.next_is)

      has_room : 0 < free
      has_room = omega (arith, h.last_open.free, left)

  writer_appends :
      0 < s.room
      → s.max_size ≡ 0
      → (fuel : ℕ) (d : WalData) (buffer : Bytes) (written : ℕ) (bytes : Bytes)
      → length buffer ≤ fuel
      → IsLog s d
      → content d.pages ≡ bytes
      → (d' : WalData) × (page_writer s fuel d buffer written ≡ some (d', written + length buffer))
        × IsLog s d'
        × (content d'.pages ≡ bytes ++ buffer)
        × (Opened s bytes d ⊎ buffer ≢ [] → Opened s (bytes ++ buffer) d')
  unfolding page_writer
  writer_appends pos unbounded fuel d [] written bytes le log e = (
    d,
    ap (λ n. some (d, n)) (sym (add-zero written)),
    log,
    e ∙ sym (append-nil bytes),
    λ h. stay h,
  )
    where
      stay : Opened s bytes d ⊎ (◌≢◌ {A = Bytes} [] []) → Opened s (bytes ++ []) d
      stay (inl h) = subst (λ t. Opened s t d) (sym (append-nil bytes)) h
      stay (inr ne) = absurd (ne refl)
  writer_appends pos unbounded zero d (b ∷ rest) written bytes le log e =
      absurd (not-suc-le-zero le)
  writer_appends pos unbounded (suc fuel) d (b ∷ rest) written bytes le log e =
      let now = ensure_current s d in
      let h = ensure-Opened s pos d bytes log e in
      let more = fitting s now (b ∷ rest) in
      let r = write_round-Written pos unbounded now b rest bytes h in
      let count = sym (length-append more (drop (length more) (b ∷ rest))) ∙ ap length r.split in
      let w =
        writer_appends pos unbounded fuel (write_round s now more) (drop (length more) (b ∷ rest))
          (written + length more) (bytes ++ more) (omega (arith, count, r.some_written))
          (opened r.after.last_open r.after.current_is) r.after.content_is in
      (
        w.0,
        w.1
            ∙ ap (λ n. some (w.0, n))
                (add_assoc written (length more) _ ∙ ap (λ n. written + n) count),
        w.2,
        w.3 ∙ joined more r.split,
        (λ k. subst (λ t. Opened s t w.0) (joined more r.split) (w.4 (inl r.after))),
      )
    where
      joined :
          (more : Bytes)
          → more ++ drop (length more) (b ∷ rest) ≡ b ∷ rest
          → (bytes ++ more) ++ drop (length more) (b ∷ rest) ≡ bytes ++ (b ∷ rest)
      joined more e = append_assoc bytes more _ ∙ ap (λ t. bytes ++ t) e

  -- The call that MessagePack makes, from no byte written.
  pub page_writer-Opened :
      0 < s.room
      → s.max_size ≡ 0
      → (d : WalData) (buffer : Bytes) → IsLog s d
      → (d' : WalData) × (page_writer s (length buffer) d buffer 0 ≡ some (d', length buffer))
        × IsLog s d'
        × (content d'.pages ≡ content d.pages ++ buffer)
        × (Opened s (content d.pages) d ⊎ buffer ≢ [] → Opened s (content d.pages ++ buffer) d')
  page_writer-Opened pos unbounded d buffer log =
      let w =
        writer_appends pos unbounded (length buffer) d buffer 0 (content d.pages) (omega arith) log
          refl in
      (w.0, w.1 ∙ ap (λ n. some (w.0, n)) (zero-add (length buffer)), w.2, w.3, w.4)

  -- Without a limit of the size, when a data page has room and the pages are a log (the next block is the
  -- last page with room left, open or not, with only empty pages behind it, or is about to be made behind full pages), the writer returns after
  -- at most as many rounds as there are bytes. It reports every byte as written, the data pages hold what they
  -- held followed by the buffer, and they are a log again.
  page_writer-IsLog :
      0 < s.room
      → s.max_size ≡ 0
      → (d : WalData) (buffer : Bytes) → IsLog s d
      → (d' : WalData) × (page_writer s (length buffer) d buffer 0 ≡ some (d', length buffer))
        × IsLog s d'
        × (content d'.pages ≡ content d.pages ++ buffer)
  page_writer-IsLog pos unbounded d buffer log =
      let w = page_writer-Opened pos unbounded d buffer log in (w.0, w.1, w.2, w.3)
