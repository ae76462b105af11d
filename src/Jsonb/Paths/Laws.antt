-- ===== src/Jsonb/Paths/Laws.antt =====
-- The paths of a place, described one by one.
use pgroonga.Base.{
  ℕ, suc, ◌<◌, ◌≡◌, ◌≢◌, ◌↔◌, ◌⊎◌, not, ltb, refl, sym, ◌∙◌, Bool, true, false, ◌&&◌, ◌||◌,
  Bool-cases, inl, inr, Bytes, codes, List, [], ◌∷◌, ◌++◌, length, length-append, append_assoc,
  append-nil, lt→ltb, le→ltb, ◌==◌, if◌then◌else◌, arith,
}
use pgroonga.Jsonb.{Component, name, elements}
use pgroonga.Jsonb.Paths.{
  Flags, flags, add_components, generate_path, contains, put_new, is_added, add_path,
  generate_sub_paths, generate_paths,
}

module _ (esc : Bytes → Bytes) where
  -- Each name in brackets.
  abbrev pub bracketed : List Component → Bytes
  bracketed [] = []
  bracketed (elements n ∷ cs) = bracketed cs
  bracketed (name c ∷ cs) = (codes "[" ++ (esc c ++ codes "]")) ++ bracketed cs

  -- The same, and each array as a pair of brackets.
  abbrev pub with_arrays : List Component → Bytes
  with_arrays [] = []
  with_arrays (elements n ∷ cs) = codes "[]" ++ with_arrays cs
  with_arrays (name c ∷ cs) = (codes "[" ++ (esc c ++ codes "]")) ++ with_arrays cs

  -- A dot before each name.
  abbrev pub after_dots : List Component → Bytes
  after_dots [] = []
  after_dots (elements n ∷ cs) = after_dots cs
  after_dots (name c ∷ cs) = codes "." ++ (c ++ after_dots cs)

  -- Dots between the names; empty names at the start are left out.
  abbrev pub dotted : List Component → Bytes
  dotted [] = []
  dotted (elements n ∷ cs) = dotted cs
  dotted (name [] ∷ cs) = dotted cs
  dotted (name (b ∷ c) ∷ cs) = (b ∷ c) ++ after_dots cs

  add_components-bracketed :
      (absolute : Bool) (cs : List Component) (path : Bytes)
      → add_components esc (flags absolute false false) cs path ≡ path ++ bracketed cs
  unfolding add_components
  add_components-bracketed absolute [] path = sym (append-nil path)
  add_components-bracketed absolute (elements n ∷ cs) path =
      add_components-bracketed absolute cs path
  add_components-bracketed absolute (name c ∷ cs) path =
      add_components-bracketed absolute cs (path ++ (codes "[" ++ (esc c ++ codes "]")))
      ∙ append_assoc path (codes "[" ++ (esc c ++ codes "]")) (bracketed cs)

  add_components-with_arrays :
      (absolute : Bool) (cs : List Component) (path : Bytes)
      → add_components esc (flags absolute false true) cs path ≡ path ++ with_arrays cs
  unfolding add_components
  add_components-with_arrays absolute [] path = sym (append-nil path)
  add_components-with_arrays absolute (elements n ∷ cs) path =
      add_components-with_arrays absolute cs (path ++ codes "[]")
      ∙ append_assoc path (codes "[]") (with_arrays cs)
  add_components-with_arrays absolute (name c ∷ cs) path =
      add_components-with_arrays absolute cs (path ++ (codes "[" ++ (esc c ++ codes "]")))
      ∙ append_assoc path (codes "[" ++ (esc c ++ codes "]")) (with_arrays cs)

  abbrev minimum : Bool → ℕ
  minimum absolute = if absolute then 1 else 0

  add_components-after_dots :
      (absolute : Bool) (cs : List Component) (path : Bytes)
      → minimum absolute < length path
      → add_components esc (flags absolute true false) cs path ≡ path ++ after_dots cs
  unfolding add_components
  add_components-after_dots absolute [] path h = sym (append-nil path)
  add_components-after_dots absolute (elements n ∷ cs) path h =
      add_components-after_dots absolute cs path h
  add_components-after_dots absolute (name c ∷ cs) path h =
      rw (lt→ltb (minimum absolute) (length path) h) (
        add_components-after_dots absolute cs ((path ++ codes ".") ++ c)
          (omega (arith, length-append (path ++ codes ".") c, length-append path (codes ".")))
        ∙ (append_assoc (path ++ codes ".") c (after_dots cs)
            ∙ append_assoc path (codes ".") (c ++ after_dots cs)))

  add_components-dotted :
      (absolute : Bool) (cs : List Component) (path : Bytes)
      → length path ≡ minimum absolute
      → add_components esc (flags absolute true false) cs path ≡ path ++ dotted cs
  unfolding add_components
  add_components-dotted absolute [] path h = sym (append-nil path)
  add_components-dotted absolute (elements n ∷ cs) path h = add_components-dotted absolute cs path h
  add_components-dotted absolute (name [] ∷ cs) path h =
      rw (le→ltb (minimum absolute) (length path) (omega arith), append-nil path)
        (add_components-dotted absolute cs path h)
  add_components-dotted absolute (name (b ∷ c) ∷ cs) path h =
      rw (le→ltb (minimum absolute) (length path) (omega arith)) (
        add_components-after_dots absolute cs (path ++ b ∷ c)
          (omega (arith, length-append path (b ∷ c)))
        ∙ append_assoc path (b ∷ c) (after_dots cs))

  -- The paths that begin at each component.
  abbrev pub sub_paths : List Component → List Bytes
  sub_paths [] = []
  sub_paths (c ∷ cs) =
      dotted (c ∷ cs) ∷ (bracketed (c ∷ cs) ∷ (with_arrays (c ∷ cs) ∷ sub_paths cs))

  -- The absolute paths, and then the others.
  abbrev pub all_paths : List Component → List Bytes
  all_paths cs =
      (codes "." ++ dotted cs)
      ∷ ((codes "." ++ bracketed cs) ∷ ((codes "." ++ with_arrays cs) ∷ sub_paths cs))

  abbrev prefix : Bool → Bytes
  prefix absolute = if absolute then codes "." else []

  dot_path :
      (absolute : Bool) (cs : List Component)
      → generate_path esc cs (flags absolute true false) ≡ prefix absolute ++ dotted cs
  unfolding generate_path
  dot_path true cs = add_components-dotted true cs (codes ".") refl
  dot_path false cs = add_components-dotted false cs [] refl

  bracket_path :
      (absolute : Bool) (cs : List Component)
      → generate_path esc cs (flags absolute false false) ≡ prefix absolute ++ bracketed cs
  unfolding generate_path
  bracket_path absolute cs = add_components-bracketed absolute cs (prefix absolute)

  pub array_path :
      (absolute : Bool) (cs : List Component)
      → generate_path esc cs (flags absolute false true) ≡ prefix absolute ++ with_arrays cs
  unfolding generate_path
  array_path absolute cs = add_components-with_arrays absolute cs (prefix absolute)

  module _ (path_id : Bytes → ℕ) where
    -- Whether one of some paths has an id, which is that of a path that may be a key.
    abbrev pub has_path : List Bytes → ℕ → Bool
    has_path [] id = false
    has_path (path ∷ paths) id =
        (is_added esc path_id path && (path_id path == id)) || has_path paths id

    abbrev pub Distinct : List ℕ → Type 0
    Distinct [] = Unit
    Distinct (id ∷ ids) = (contains ids id ≡ false) × Distinct ids

    contains-append :
        (ids : List ℕ) (new id : ℕ)
        → contains (ids ++ new ∷ []) id ≡ (contains ids id || (new == id))
    unfolding contains
    contains-append [] new id = ground arith
    contains-append (i ∷ ids) new id = ground (arith, contains-append ids new id)

    Distinct-append :
        (ids : List ℕ) (new : ℕ)
        → contains ids new ≡ false
        → Distinct ids
        → Distinct (ids ++ new ∷ [])
    unfolding contains
    Distinct-append [] new h d = (refl, tt)
    Distinct-append (i ∷ ids) new h (e, d) =
        (ground (arith, contains-append ids new i), Distinct-append ids new (ground arith) d)

    -- A path that is added is there, once, and nothing else changes.
    record Adds (path : Bytes) (ids ids' : List ℕ) : Type 0 where
      found :
          (id : ℕ)
          → contains ids' id
            ≡ (contains ids id || (is_added esc path_id path && (path_id path == id)))
      distinct : Distinct ids → Distinct ids'

    same_id :
        (ids : List ℕ) (new id : ℕ)
        → contains ids new ≡ true
        → (contains ids id || (new == id)) ≡ contains ids id
    unfolding contains
    same_id [] new id h = cc
    same_id (i ∷ ids) new id h = ground (arith, same_id ids new id)

    add_path-Adds :
        (cs : List Component) (f : Flags) (path : Bytes) (ids : List ℕ)
        → generate_path esc cs f ≡ path
        → Adds path ids (add_path esc path_id cs f ids)
    unfolding add_path put_new
    add_path-Adds cs f path ids e = rw e (elim (Bool-cases (is_added esc path_id path)) [
      | inr no_path ↦ rw no_path (record { found = λ id. ground arith; distinct = λ d. d })
      | inl added ↦ elim (Bool-cases (contains ids (path_id path))) [
        | inl old ↦
            rw (added, old)
              (record {
                found = λ id. ground (arith, same_id ids (path_id path) id old);
                distinct = λ d. d;
              })
        | inr new ↦
            rw (added, new)
              (record {
                found = λ id. ground (arith, contains-append ids (path_id path) id);
                distinct = λ d. Distinct-append ids (path_id path) new d;
              })
      ]
    ])

    sub_paths-Distinct :
        (cs : List Component) (ids : List ℕ)
        → ((id : ℕ)
            → contains (generate_sub_paths esc path_id cs ids) id
              ≡ (contains ids id || has_path (sub_paths cs) id))
          × (Distinct ids → Distinct (generate_sub_paths esc path_id cs ids))
    unfolding generate_sub_paths
    sub_paths-Distinct [] ids = ((λ id. ground arith), λ d. d)
    sub_paths-Distinct (c ∷ cs) ids =
        let one =
          add_path-Adds (c ∷ cs) (flags false true false) (dotted (c ∷ cs)) ids
            (dot_path false (c ∷ cs)) in
        let ids1 = add_path esc path_id (c ∷ cs) (flags false true false) ids in
        let two =
          add_path-Adds (c ∷ cs) (flags false false false) (bracketed (c ∷ cs)) ids1
            (bracket_path false (c ∷ cs)) in
        let ids2 = add_path esc path_id (c ∷ cs) (flags false false false) ids1 in
        let three =
          add_path-Adds (c ∷ cs) (flags false false true) (with_arrays (c ∷ cs)) ids2
            (array_path false (c ∷ cs)) in
        let (found, distinct) =
          sub_paths-Distinct cs (add_path esc path_id (c ∷ cs) (flags false false true) ids2) in
        (
          (λ id. ground (arith, found id, three.found id, two.found id, one.found id)),
          λ d. distinct (three.distinct (two.distinct (one.distinct d))),
        )

    -- A path that may be a key of the table of paths, with its id: not empty, shorter than 4096 bytes.
    abbrev pub IsPathOf : Bytes → ℕ → Type 0
    IsPathOf path id = (path ≢ []) × (length path < 4096) × (path_id path ≡ id) × (id ≢ 0)

    abbrev pub HasPath : List Bytes → ℕ → Type 0
    HasPath [] id = ⊥
    HasPath (path ∷ paths) id = IsPathOf path id ⊎ HasPath paths id

    is_added-IsPathOf :
        (path : Bytes) (id : ℕ)
        → ((is_added esc path_id path && (path_id path == id)) ≡ true) ↔ IsPathOf path id
    unfolding is_added
    is_added-IsPathOf [] id = (λ h. cc, λ h. absurd (h.0 refl))
    is_added-IsPathOf (b ∷ path) id = (
      λ h. (
        (λ e. cc),
        tested (length path) (path_id (b ∷ path)) id h,
        same (length path) (path_id (b ∷ path)) id h,
        known (length path) (path_id (b ∷ path)) id h,
      ),
      λ h. passes (length path) (path_id (b ∷ path)) id h.1 h.2 h.3,
    )
      where
        test : ℕ → ℕ → ℕ → Bool
        test n p id = (not (suc n == 0) && (ltb (suc n) 4096 && not (p == 0))) && (p == id)

        tested : (n p id : ℕ) → test n p id ≡ true → suc n < 4096
        tested n p id h = ground arith

        same : (n p id : ℕ) → test n p id ≡ true → p ≡ id
        same n p id h = ground arith

        known : (n p id : ℕ) → test n p id ≡ true → id ≢ 0
        known n p id h = ground arith

        passes : (n p id : ℕ) → suc n < 4096 → p ≡ id → id ≢ 0 → test n p id ≡ true
        passes n p id lt e ne = ground arith

    or_true : (a b : Bool) → (a || b) ≡ true → (a ≡ true) ⊎ (b ≡ true)
    or_true true b h = inl refl
    or_true false b h = inr h

    true_or : (a b : Bool) → (a ≡ true) ⊎ (b ≡ true) → (a || b) ≡ true
    true_or true b h = refl
    true_or false b (inl h) = cc
    true_or false b (inr h) = h

    has_path-HasPath : (paths : List Bytes) (id : ℕ) → (has_path paths id ≡ true) ↔ HasPath paths id
    has_path-HasPath [] id = (λ h. cc, λ h. absurd h)
    has_path-HasPath (path ∷ paths) id =
        let first = is_added-IsPathOf path id in
        let rest = has_path-HasPath paths id in
        (
          λ h. elim (or_true _ _ h) [ inl e ↦ inl (first.0 e) | inr e ↦ inr (rest.0 e) ],
          λ h. true_or _ _ (elim h [ inl e ↦ inl (first.1 e) | inr e ↦ inr (rest.1 e) ]),
        )

    generate_paths-has_path :
        (cs : List Component)
        → Distinct (generate_paths esc path_id cs)
          × ((id : ℕ) → contains (generate_paths esc path_id cs) id ≡ has_path (all_paths cs) id)
    unfolding generate_paths contains
    generate_paths-has_path cs =
        let one =
          add_path-Adds cs (flags true true false) (codes "." ++ dotted cs) [] (dot_path true cs) in
        let ids1 = add_path esc path_id cs (flags true true false) [] in
        let two =
          add_path-Adds cs (flags true false false) (codes "." ++ bracketed cs) ids1
            (bracket_path true cs) in
        let ids2 = add_path esc path_id cs (flags true false false) ids1 in
        let three =
          add_path-Adds cs (flags true false true) (codes "." ++ with_arrays cs) ids2
            (array_path true cs) in
        let (found, distinct) =
          sub_paths-Distinct cs (add_path esc path_id cs (flags true false true) ids2) in
        (
          distinct (three.distinct (two.distinct (one.distinct tt))),
          λ id. ground (arith, found id, three.found id, two.found id, one.found id),
        )

    -- The ids that are generated for a place are those of its paths, each once: the absolute path and the path from
    -- each component on, in the style with dots, in that with brackets, and in that with brackets where arrays are
    -- seen; exactly the paths that are not empty, are shorter than 4096 bytes and have an id other than 0 give one.
    pub generate_paths-Distinct :
        (cs : List Component)
        → Distinct (generate_paths esc path_id cs)
          × ((id : ℕ)
              → (contains (generate_paths esc path_id cs) id ≡ true) ↔ HasPath (all_paths cs) id)
    generate_paths-Distinct cs =
        let (distinct, found) = generate_paths-has_path cs in
        (
          distinct,
          λ id.
              let all = has_path-HasPath (all_paths cs) id in
              (λ h. all.0 (sym (found id) ∙ h), λ h. found id ∙ all.1 h),
        )
