-- ===== src/SequentialSearch/Laws.antt =====
-- The pointer to the current datum is never left dangling, and a prepared datum is the one of its key.
use pgroonga.Base.{
  ℕ, ◌≡◌, refl, sym, ap, ◌∙◌, subst, Bool, true, false, ◌&&◌, List, All, [], ◌∷◌, ◌==◌,
  if◌then◌else◌, Option, none, some, arith,
}
use pgroonga.SequentialSearch.{
  Key, Datum, Search, same_key, same_bool, find, use_datum, delete, Prepared, reused, made, failed,
  unresolved, Making, with_datum, matches, make_index, make_datum, find_datum, prepare_index,
}

same_key_refl : (k : Key) → same_key k k ≡ true
unfolding same_key
same_key_refl k = both k.texts k.use_index
  where
    same : (n : ℕ) → (n == n) ≡ true
    same n = ground arith

    both :
        (a b : Bool)
        → (k.index_oid == k.index_oid)
            && ((k.attribute_index == k.attribute_index)
                && (same_bool a a && (same_bool b b && (k.search_type == k.search_type))))
          ≡ true
    both true true = rw (same k.index_oid, same k.attribute_index, same k.search_type) refl
    both true false = rw (same k.index_oid, same k.attribute_index, same k.search_type) refl
    both false true = rw (same k.index_oid, same k.attribute_index, same k.search_type) refl
    both false false = rw (same k.index_oid, same k.attribute_index, same k.search_type) refl

same_key_sound : (a b : Key) → same_key a b ≡ true → a ≡ b
unfolding same_key
same_key_sound a b h =
    let h1 = of_and (a.index_oid == b.index_oid) _ h in
    let h2 = of_and (a.attribute_index == b.attribute_index) _ h1.1 in
    let h3 = of_and (same_bool a.texts b.texts) _ h2.1 in
    let h4 = of_and (same_bool a.use_index b.use_index) _ h3.1 in
    equal (number a.index_oid b.index_oid h1.0) (number a.attribute_index b.attribute_index h2.0)
      (bool a.texts b.texts h3.0) (bool a.use_index b.use_index h4.0)
      (number a.search_type b.search_type h4.1)
  where
    of_and : (x y : Bool) → (x && y) ≡ true → (x ≡ true) × (y ≡ true)
    of_and true y h = (refl, h)
    of_and false y h = absurd (cc)

    number : (n m : ℕ) → (n == m) ≡ true → n ≡ m
    number n m h = ground arith

    bool : (x y : Bool) → same_bool x y ≡ true → x ≡ y
    bool true y h = sym h
    bool false true h = cc
    bool false false h = refl

    equal :
        a.index_oid ≡ b.index_oid
        → a.attribute_index ≡ b.attribute_index
        → a.texts ≡ b.texts
        → a.use_index ≡ b.use_index
        → a.search_type ≡ b.search_type
        → a ≡ b
    equal p q r s t = λ i. record {
      index_oid = p i;
      attribute_index = q i;
      texts = r i;
      use_index = s i;
      search_type = t i;
    }

-- Each datum has the fields of its key.
abbrev pub AreOwn : List (Key × Datum) → Type 0
AreOwn es = All (λ e. e.1.fields ≡ e.0) es

-- The pointer, if there is one, leads to a datum.
abbrev pub PointsTo : Option Key → List (Key × Datum) → Type 0
PointsTo none entries = Unit
PointsTo (some key) entries = (d : Datum) × (find key entries ≡ some d)

abbrev pub IsValid : Search → Type 0
IsValid s = PointsTo s.current s.entries × AreOwn s.entries

-- The current datum is the one of the key, and is marked as used.
abbrev pub IsReady : Key → Search → Type 0
IsReady key s =
    (p : Key) × (d : Datum) × (s.current ≡ some p)
    × (find p s.entries ≡ some d)
    × (d.fields ≡ key)
    × (d.used ≡ true)

find-use_datum :
    (p : Key) (es : List (Key × Datum)) (d : Datum)
    → find p es ≡ some d
    → find p (use_datum p es) ≡ some (record d { used = true })
unfolding find use_datum
find-use_datum p [] d = λ h. cc
find-use_datum p ((k, e) ∷ es) d = by_key (same_key p k) refl (find-use_datum p es d)
  where
    by_key :
        (b : Bool)
        → same_key p k ≡ b
        → (find p es ≡ some d → find p (use_datum p es) ≡ some (record d { used = true }))
        → (if b then some e else find p es) ≡ some d
        → find p (if b then (k, record e { used = true }) ∷ es else (k, e) ∷ use_datum p es)
          ≡ some (record d { used = true })
    by_key true same ih h = rw same (of_some e d h)
      where
        of_some :
            (e d : Datum)
            → some e ≡ some d
            → some (record e { used = true }) ≡ some (record d { used = true })
        of_some e d h =
            ap {A = Datum} {B = Option Datum} (λ x. some (record x { used = true }))
              (the_same e d h)
          where
            the_same : (e d : Datum) → some e ≡ some d → e ≡ d
            the_same e d h = cc
    by_key false other ih h = rw other (ih h)

use_datum-AreOwn : (p : Key) (es : List (Key × Datum)) → AreOwn es → AreOwn (use_datum p es)
unfolding use_datum
use_datum-AreOwn p [] own = tt
use_datum-AreOwn p ((k, e) ∷ es) (own, all) = by_key (same_key p k) (use_datum-AreOwn p es all)
  where
    by_key :
        (b : Bool)
        → AreOwn (use_datum p es)
        → AreOwn (if b then (k, record e { used = true }) ∷ es else (k, e) ∷ use_datum p es)
    by_key true h = (own, all)
    by_key false h = (own, h)

delete-AreOwn : (p : Key) (es : List (Key × Datum)) → AreOwn es → AreOwn (delete p es)
unfolding delete
delete-AreOwn p [] own = tt
delete-AreOwn p ((k, e) ∷ es) (own, all) = by_key (same_key p k) (delete-AreOwn p es all)
  where
    by_key :
        (b : Bool) → AreOwn (delete p es) → AreOwn (if b then delete p es else (k, e) ∷ delete p es)
    by_key true h = h
    by_key false h = (own, h)

find-AreOwn :
    (p : Key) (es : List (Key × Datum)) (d : Datum) → AreOwn es → find p es ≡ some d → d.fields ≡ p
unfolding find
find-AreOwn p [] d own = λ h. cc
find-AreOwn p ((k, e) ∷ es) d (own, all) = by_key (same_key p k) refl (find-AreOwn p es d all)
  where
    by_key :
        (b : Bool)
        → same_key p k ≡ b
        → (find p es ≡ some d → d.fields ≡ p)
        → (if b then some e else find p es) ≡ some d
        → d.fields ≡ p
    by_key true same ih h = ap (λ x. x.fields) (of_some e d h) ∙ own ∙ sym (same_key_sound p k same)
      where
        of_some : (e d : Datum) → some e ≡ some d → d ≡ e
        of_some e d h = cc
    by_key false other ih h = ih h

-- What a preparation leaves: the datum of the key is current, also where its index could not be looked up; or, where
-- its index was refused, none is.
abbrev pub IsPrepared : Key → Prepared × Search → Type 0
IsPrepared key (failed, s) = IsValid s × (s.current ≡ none)
IsPrepared key (made, s) = IsValid s × IsReady key s
IsPrepared key (reused, s) = IsValid s × IsReady key s
IsPrepared key (unresolved, s) = IsValid s × IsReady key s

make_datum-IsPrepared :
    (making : Making) (key : Key) (s : Search)
    → AreOwn s.entries
    → IsPrepared key (make_datum making key s)
unfolding make_datum find
make_datum-IsPrepared making key s own = by_use key.use_index
  where
    entries : List (Key × Datum)
    entries = (key, record { fields = key; used = true }) ∷ s.entries

    found : find key entries ≡ some (record { fields = key; used = true })
    found = rw (same_key_refl key) refl

    ready : IsValid (with_datum key s) × IsReady key (with_datum key s)
    ready = (
      ((record { fields = key; used = true }, found), (refl, own)),
      (key, record { fields = key; used = true }, refl, found, refl, refl),
    )

    by_oid :
        (b : Bool)
        → IsPrepared key (if b then (made, with_datum key s) else (unresolved, with_datum key s))
    by_oid true = ready
    by_oid false = ready

    by_making : (m : Making) → IsPrepared key (make_index m key s)
    by_making Making.created = ready
    by_making Making.refused = ((tt, delete-AreOwn key entries (refl, own)), refl)
    by_making Making.index_not_found = by_oid (key.index_oid == 0)

    by_use :
        (b : Bool)
        → IsPrepared key (if b then make_index making key s else (made, with_datum key s))
    by_use true = by_making making
    by_use false = ready

-- A datum that was found and marked is current.
used-IsReady :
    (p key : Key) (s : Search) (d : Datum)
    → AreOwn s.entries
    → find p s.entries ≡ some d
    → d.fields ≡ key
    → IsValid (record s { entries = use_datum p s.entries; current = some p })
      × IsReady key (record s { entries = use_datum p s.entries; current = some p })
used-IsReady p key s d own found same =
    let e = find-use_datum p s.entries d found in
    (
      ((record d { used = true }, e), use_datum-AreOwn p s.entries own),
      (p, record d { used = true }, refl, e, same, refl),
    )

find_datum-IsPrepared :
    (making : Making) (key : Key) (s : Search)
    → AreOwn s.entries
    → IsPrepared key (find_datum making key s)
unfolding find_datum
find_datum-IsPrepared making key s own = by_entry (find key s.entries) refl
  where
    by_entry :
        (o : Option Datum)
        → find key s.entries ≡ o
        → IsPrepared key (elim o [
          | some datum ↦
              (reused, record s { entries = use_datum key s.entries; current = some key })
          | none ↦ make_datum making key s
        ])
    by_entry none e = make_datum-IsPrepared making key s own
    by_entry (some d) e = used-IsReady key key s d own e (find-AreOwn key s.entries d own e)

pub prepare_index-IsPrepared :
    (making : Making) (key : Key) (s : Search)
    → IsValid s
    → IsPrepared key (prepare_index making key s)
unfolding prepare_index matches
prepare_index-IsPrepared making key s (points, own) = by_pointer s.current refl points
  where
    by_match :
        (p : Key) (d : Datum) (b : Bool)
        → s.current ≡ some p
        → find p s.entries ≡ some d
        → same_key d.fields key ≡ b
        → IsPrepared key (
            if b
            then (reused, record s { entries = use_datum p s.entries })
            else find_datum making key s)
    by_match p d true current found same =
        let r = used-IsReady p key s d own found (same_key_sound d.fields key same) in
        subst
          (λ c. IsPrepared key (reused, record s { entries = use_datum p s.entries; current = c }))
          (sym current) r
    by_match p d false current found same = find_datum-IsPrepared making key s own

    by_pointer :
        (c : Option Key)
        → s.current ≡ c
        → PointsTo c s.entries
        → IsPrepared key (elim c [
          | none ↦ find_datum making key s
          | some pointer ↦
              if matches (find pointer s.entries) key
              then (reused, record s { entries = use_datum pointer s.entries })
              else find_datum making key s
        ])
    by_pointer none current points = find_datum-IsPrepared making key s own
    by_pointer (some p) current (d, found) =
        rw found (by_match p d (same_key d.fields key) current found refl)
