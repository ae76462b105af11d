-- ===== src/SequentialSearch/Release.antt =====
-- What stays in the cache at the end of a transaction.
use pgroonga.Base.{
  ◌+◌, ◌%◌, ◌^◌, ◌≡◌, refl, ap, ◌∙◌, subst, Bool, true, false, List, [], ◌∷◌, ◌==◌, if◌then◌else◌,
  Option, none, some,
}
use pgroonga.SequentialSearch.{
  Key, Datum, Search, same_key, find, Prepared, Making, prepare_index, forget, vacuum, release,
}
use pgroonga.SequentialSearch.Laws.{AreOwn, PointsTo, IsValid, IsPrepared, prepare_index-IsPrepared}

-- A pointer that is left was there before, and its datum was not forgotten.
forget-some :
    (k : Key) (c : Option Key) (p : Key)
    → forget k c ≡ some p
    → (c ≡ some p) × (same_key p k ≡ false)
unfolding forget
forget-some k none p h = absurd cc
forget-some k (some q) p h = by_key (same_key q k) refl h
  where
    by_key :
        (b : Bool)
        → same_key q k ≡ b
        → (if b then none else some q) ≡ some p
        → (some q ≡ some p) × (same_key p k ≡ false)
    by_key true e h = absurd cc
    by_key false e h = (h, ap (λ x. same_key x k) (the_same q p h) ∙ e)
      where
        the_same : (q p : Key) → some q ≡ some p → p ≡ q
        the_same q p h = cc

vacuum-some :
    (c : Option Key) (es : List (Key × Datum)) (p : Key) → (vacuum c es).0 ≡ some p → c ≡ some p
unfolding vacuum
vacuum-some c [] p h = h
vacuum-some c ((k, e) ∷ es) p h =
    by_use e.used (vacuum-some (if e.used then c else forget k c) es p h)
  where
    by_use : (b : Bool) → (if b then c else forget k c) ≡ some p → c ≡ some p
    by_use true h = h
    by_use false h = (forget-some k c p h).0

-- The pointer that is left still leads to a datum.
vacuum-PointsTo :
    (c : Option Key) (es : List (Key × Datum)) (p : Key) (d : Datum)
    → (vacuum c es).0 ≡ some p
    → find p es ≡ some d
    → (d' : Datum) × (find p (vacuum c es).1 ≡ some d')
unfolding vacuum find
vacuum-PointsTo c [] p d = λ h found. absurd cc
vacuum-PointsTo c ((k, e) ∷ es) p d =
    by_use e.used (same_key p k) refl (λ c'. vacuum-PointsTo c' es p d)
  where
    by_use :
        (used same : Bool)
        → same_key p k ≡ same
        → ((c' : Option Key)
            → (vacuum c' es).0 ≡ some p
            → find p es ≡ some d
            → (d' : Datum) × (find p (vacuum c' es).1 ≡ some d'))
        → (vacuum (if used then c else forget k c) es).0 ≡ some p
        → (if same then some e else find p es) ≡ some d
        → (d' : Datum) × (find p (
              if used
              then (k, record e { used = false }) ∷ (vacuum (if used then c else forget k c) es).1
              else (vacuum (if used then c else forget k c) es).1)
            ≡ some d')
    by_use true true e1 ih h found = (record e { used = false }, rw e1 refl)
    by_use true false e1 ih h found = let r = ih c h found in (r.0, rw e1 r.1)
    by_use false true e1 ih h found =
        absurd (differ (forget-some k c p (vacuum-some (forget k c) es p h)).1)
      where
        differ : same_key p k ≡ false → ⊥
        differ h = cc
    by_use false false e1 ih h found = ih (forget k c) h found

vacuum-AreOwn : (c : Option Key) (es : List (Key × Datum)) → AreOwn es → AreOwn (vacuum c es).1
unfolding vacuum
vacuum-AreOwn c [] own = tt
vacuum-AreOwn c ((k, e) ∷ es) (own, all) =
    by_use (vacuum (if e.used then c else forget k c) es).1 e.used
      (vacuum-AreOwn (if e.used then c else forget k c) es all)
  where
    by_use :
        (rest : List (Key × Datum)) (b : Bool)
        → AreOwn rest
        → AreOwn (if b then (k, record e { used = false }) ∷ rest else rest)
    by_use rest true h = (own, h)
    by_use rest false h = h

release-IsValid : (is_top_level : Bool) (s : Search) → IsValid s → IsValid (release is_top_level s)
unfolding release
release-IsValid false s h = h
release-IsValid true s (points, own) = by_count (((s.n_executions + 1) % 2 ^ 32) % 100 == 0)
  where
    kept : Option Key × List (Key × Datum)
    kept = vacuum s.current s.entries

    still : (c : Option Key) → kept.0 ≡ c → PointsTo c kept.1
    still none e = tt
    still (some p) e =
        let before =
          subst (λ c. PointsTo c s.entries) (vacuum-some s.current s.entries p e) points in
        vacuum-PointsTo s.current s.entries p before.0 e before.1

    by_count :
        (b : Bool)
        → IsValid (
            if b
            then record {
              entries = kept.1;
              current = kept.0;
              n_executions = (s.n_executions + 1) % 2 ^ 32;
            }
            else record s { n_executions = (s.n_executions + 1) % 2 ^ 32 })
    by_count true = (still kept.0 refl, vacuum-AreOwn s.current s.entries own)
    by_count false = (points, own)

-- What happens to the cache: preparations and ends of transactions.
pub data Event : Type 0 where
  prepare : Making → Key → Event
  finish : Bool → Event

unfoldable pub run : List Event → Search → Search
run [] s = s
run (prepare making key ∷ events) s = run events (prepare_index making key s).1
run (finish is_top_level ∷ events) s = run events (release is_top_level s)

prepare_index-IsValid :
    (making : Making) (key : Key) (s : Search) → IsValid s → IsValid (prepare_index making key s).1
prepare_index-IsValid making key s h =
    of_prepared (prepare_index making key s) (prepare_index-IsPrepared making key s h)
  where
    of_prepared : (r : Prepared × Search) → IsPrepared key r → IsValid r.1
    of_prepared (Prepared.failed, s) h = h.0
    of_prepared (Prepared.made, s) h = h.0
    of_prepared (Prepared.reused, s) h = h.0
    of_prepared (Prepared.unresolved, s) h = h.0

-- Whatever preparations and ends of transactions follow one another, the pointer to the current datum, if there is
-- one, leads to a datum that is kept, and each datum is kept under its own key.
pub run-IsValid : (events : List Event) (s : Search) → IsValid s → IsValid (run events s)
unfolding run
run-IsValid [] s h = h
run-IsValid (prepare making key ∷ events) s h =
    run-IsValid events (prepare_index making key s).1 (prepare_index-IsValid making key s h)
run-IsValid (finish is_top_level ∷ events) s h =
    run-IsValid events (release is_top_level s) (release-IsValid is_top_level s h)
