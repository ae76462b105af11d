-- ===== src/Jsonb/Contain/Laws.antt =====
-- The conditions of the operator @> against the places of the wanted value.
use pgroonga.Base.{
  ℕ, suc, ◌==◌, false, arith, ◌≡◌, refl, sym, ap, ◌∙◌, Bytes, codes, List, All, [], ◌∷◌, ◌++◌, ◌⊎◌,
  inl, inr, append_assoc, append-nil, some,
}
use pgroonga.Jsonb.{
  Scalar, scalar, nest, Container, array, object, Items, no_items, item, Pairs, no_pairs, pair,
  items, pairs, plain, Token, key, value, end_array, end_object, container_tokens, items_tokens,
  pairs_tokens, Component, name, elements, pop, pop-append,
}
use pgroonga.Jsonb.Contain.{at_path, value_filter, contain}

-- No pair has a container as its value.
unfoldable mutual
  pub IsFlat : Container → Type 0
  IsFlat (array js) = AreFlatItems js
  IsFlat (object ps) = AreFlatPairs ps

  pub AreFlatItems : Items → Type 0
  AreFlatItems no_items = Unit
  AreFlatItems (item (scalar s) js) = AreFlatItems js
  AreFlatItems (item (nest c) js) = IsFlat c × AreFlatItems js

  pub AreFlatPairs : Pairs → Type 0
  AreFlatPairs no_pairs = Unit
  AreFlatPairs (pair k (scalar s) ps) = AreFlatPairs ps
  AreFlatPairs (pair k (nest c) ps) = ⊥

-- A container is the value of a pair only where the rest of the text closes what is open.
unfoldable mutual
  pub IsTrailing : Container → Type 0
  IsTrailing (array js) = AreTrailingItems js
  IsTrailing (object ps) = AreTrailingPairs ps

  pub AreTrailingItems : Items → Type 0
  AreTrailingItems no_items = Unit
  AreTrailingItems (item (scalar s) js) = AreTrailingItems js
  AreTrailingItems (item (nest c) no_items) = IsTrailing c
  AreTrailingItems (item (nest c) (item j js)) = IsFlat c × AreTrailingItems (item j js)

  pub AreTrailingPairs : Pairs → Type 0
  AreTrailingPairs no_pairs = Unit
  AreTrailingPairs (pair k (scalar s) ps) = AreTrailingPairs ps
  AreTrailingPairs (pair k (nest c) no_pairs) = IsTrailing c
  AreTrailingPairs (pair k (nest c) (pair k' j ps)) = ⊥

module _ (esc : Bytes → Bytes) where
  -- The filters of a value: of each scalar and of each empty container, with the path that leads to it.
  mutual
    pub filters_of : List Component → Container → List Bytes
    filters_of cs (array no_items) =
        at_path esc (cs ++ elements 0 ∷ []) (codes "type == " ++ esc (codes "array")) ∷ []
    filters_of cs (array (item j js)) =
        items_filters (cs ++ elements (items (item j js)) ∷ []) (item j js)
    filters_of cs (object no_pairs) = at_path esc cs (codes "type == " ++ esc (codes "object")) ∷ []
    filters_of cs (object (pair k j ps)) = pairs_filters cs (pair k j ps)

    pub items_filters : List Component → Items → List Bytes
    items_filters cs no_items = []
    items_filters cs (item (scalar s) js) =
        at_path esc cs (value_filter esc s) ∷ items_filters cs js
    items_filters cs (item (nest c) js) = filters_of cs c ++ items_filters cs js

    pub pairs_filters : List Component → Pairs → List Bytes
    pairs_filters cs no_pairs = []
    pairs_filters cs (pair k (scalar s) ps) =
        at_path esc (cs ++ name k ∷ []) (value_filter esc s) ∷ pairs_filters cs ps
    pairs_filters cs (pair k (nest c) ps) = filters_of (cs ++ name k ∷ []) c ++ pairs_filters cs ps

  not_empty : (n : ℕ) → (suc n == 0) ≡ false
  not_empty n = ground arith

  -- A filter that is added at the end, and then others.
  one_more :
      (tokens : List Token) (cs : List Component) (found : List Bytes) (f : Bytes) (fs : List Bytes)
      → contain esc tokens cs ((found ++ f ∷ []) ++ fs) ≡ contain esc tokens cs (found ++ f ∷ fs)
  one_more tokens cs found f fs = ap (contain esc tokens cs) (append_assoc found (f ∷ []) fs)

  mutual
    unfolding container_tokens items_tokens pairs_tokens IsFlat AreFlatItems AreFlatPairs filters_of
        items_filters pairs_filters contain

    flat :
        (c : Container) (rest : List Token) (cs : List Component) (found : List Bytes)
        → IsFlat c
        → contain esc (container_tokens c ++ rest) cs found
          ≡ contain esc rest cs (found ++ filters_of cs c)
    flat (array no_items) rest cs found h = rw (pop-append cs (elements 0)) refl
    flat (array (item j js)) rest cs found h =
        let cs' = cs ++ elements (items (item j js)) ∷ [] in
        rw (not_empty (items js), append_assoc (items_tokens (item j js)) (end_array ∷ []) rest)
          (flat_items (item j js) (end_array ∷ rest) cs' found h
            ∙ ap (λ t. contain esc rest t (found ++ items_filters cs' (item j js)))
                (pop-append cs (elements (items (item j js)))))
    flat (object no_pairs) rest cs found h = refl
    flat (object (pair k j ps)) rest cs found h =
        rw (not_empty (pairs ps), append_assoc (pairs_tokens (pair k j ps)) (end_object ∷ []) rest)
          (flat_pairs (pair k j ps) (end_object ∷ rest) cs found h)

    flat_items :
        (js : Items) (rest : List Token) (cs : List Component) (found : List Bytes)
        → AreFlatItems js
        → contain esc (items_tokens js ++ rest) cs found
          ≡ contain esc rest cs (found ++ items_filters cs js)
    flat_items no_items rest cs found h = ap (contain esc rest cs) (sym (append-nil found))
    flat_items (item (scalar s) js) rest cs found h =
        flat_items js rest cs (found ++ at_path esc cs (value_filter esc s) ∷ []) h
        ∙ one_more rest cs found (at_path esc cs (value_filter esc s)) (items_filters cs js)
    flat_items (item (nest c) js) rest cs found (h, hs) =
        rw (append_assoc (container_tokens c) (items_tokens js) rest) (
          flat c (items_tokens js ++ rest) cs found h
          ∙ (flat_items js rest cs (found ++ filters_of cs c) hs
              ∙ ap (contain esc rest cs)
                  (append_assoc found (filters_of cs c) (items_filters cs js))))

    flat_pairs :
        (ps : Pairs) (rest : List Token) (cs : List Component) (found : List Bytes)
        → AreFlatPairs ps
        → contain esc (pairs_tokens ps ++ rest) cs found
          ≡ contain esc rest cs (found ++ pairs_filters cs ps)
    flat_pairs no_pairs rest cs found h = ap (contain esc rest cs) (sym (append-nil found))
    flat_pairs (pair k (scalar s) ps) rest cs found h = rw (pop-append cs (name k)) (
        flat_pairs ps rest cs (found ++ at_path esc (cs ++ name k ∷ []) (value_filter esc s) ∷ []) h
        ∙ one_more rest cs found (at_path esc (cs ++ name k ∷ []) (value_filter esc s))
            (pairs_filters cs ps))
    flat_pairs (pair k (nest c) ps) rest cs found h = elim h [ ]

  -- Tokens that only close what is open.
  abbrev IsClosing : Token → Type 0
  IsClosing token = (token ≡ end_array) ⊎ (token ≡ end_object)

  closes :
      (tokens : List Token) (cs : List Component) (found : List Bytes)
      → All IsClosing tokens
      → contain esc tokens cs found ≡ some found
  unfolding contain
  closes [] cs found h = refl
  closes (token ∷ tokens) cs found (inl e, hs) = rw e (closes tokens (pop cs) found hs)
  closes (token ∷ tokens) cs found (inr e, hs) = rw e (closes tokens cs found hs)

  -- The filters so far, and the tokens that close.
  abbrev Finds : List Token → List Token → List Component → List Bytes → List Bytes → Type 0
  Finds tokens rest cs found filters =
      All IsClosing rest → contain esc (tokens ++ rest) cs found ≡ some (found ++ filters)

  mutual
    unfolding container_tokens items_tokens pairs_tokens IsTrailing AreTrailingItems
        AreTrailingPairs filters_of items_filters pairs_filters contain

    trailing :
        (c : Container) (rest : List Token) (cs : List Component) (found : List Bytes)
        → IsTrailing c
        → Finds (container_tokens c) rest cs found (filters_of cs c)
    trailing (array no_items) rest cs found h closing =
        closes rest (pop (cs ++ elements 0 ∷ [])) (found ++ filters_of cs (array no_items)) closing
    trailing (array (item j js)) rest cs found h closing =
        rw (not_empty (items js), append_assoc (items_tokens (item j js)) (end_array ∷ []) rest)
          (trailing_items (item j js) (end_array ∷ rest) (cs ++ elements (items (item j js)) ∷ [])
            found h (inl refl, closing))
    trailing (object no_pairs) rest cs found h closing =
        closes rest cs (found ++ filters_of cs (object no_pairs)) closing
    trailing (object (pair k j ps)) rest cs found h closing =
        rw (not_empty (pairs ps), append_assoc (pairs_tokens (pair k j ps)) (end_object ∷ []) rest)
          (trailing_pairs (pair k j ps) (end_object ∷ rest) cs found h (inr refl, closing))

    trailing_items :
        (js : Items) (rest : List Token) (cs : List Component) (found : List Bytes)
        → AreTrailingItems js
        → Finds (items_tokens js) rest cs found (items_filters cs js)
    trailing_items no_items rest cs found h closing =
        closes rest cs found closing ∙ ap some (sym (append-nil found))
    trailing_items (item (scalar s) js) rest cs found h closing =
        trailing_items js rest cs (found ++ at_path esc cs (value_filter esc s) ∷ []) h closing
        ∙ ap some
            (append_assoc found (at_path esc cs (value_filter esc s) ∷ []) (items_filters cs js))
    trailing_items (item (nest c) no_items) rest cs found h closing =
        rw (append-nil (container_tokens c), append-nil (filters_of cs c))
          (trailing c rest cs found h closing)
    trailing_items (item (nest c) (item j js)) rest cs found (h, hs) closing =
        rw (append_assoc (container_tokens c) (items_tokens (item j js)) rest) (
          flat c (items_tokens (item j js) ++ rest) cs found h
          ∙ (trailing_items (item j js) rest cs (found ++ filters_of cs c) hs closing
              ∙ ap some (append_assoc found (filters_of cs c) (items_filters cs (item j js)))))

    trailing_pairs :
        (ps : Pairs) (rest : List Token) (cs : List Component) (found : List Bytes)
        → AreTrailingPairs ps
        → Finds (pairs_tokens ps) rest cs found (pairs_filters cs ps)
    trailing_pairs no_pairs rest cs found h closing =
        closes rest cs found closing ∙ ap some (sym (append-nil found))
    trailing_pairs (pair k (scalar s) ps) rest cs found h closing = rw (pop-append cs (name k)) (
        trailing_pairs ps rest cs
          (found ++ at_path esc (cs ++ name k ∷ []) (value_filter esc s) ∷ []) h closing
        ∙ ap some (
            append_assoc found (at_path esc (cs ++ name k ∷ []) (value_filter esc s) ∷ [])
              (pairs_filters cs ps)))
    trailing_pairs (pair k (nest c) no_pairs) rest cs found h closing =
        rw (append-nil (container_tokens c), append-nil (filters_of (cs ++ name k ∷ []) c))
          (trailing c rest (cs ++ name k ∷ []) found h closing)
    trailing_pairs (pair k (nest c) (pair k' j ps)) rest cs found h closing = elim h [ ]

  -- A container under a key, and another pair behind it: the key stays in front of the path of what follows.
  pub contain_stale :
      (k k' : Bytes) (c : Container) (s : Scalar)
      → IsFlat c
      → contain esc
          (container_tokens (object (pair k (nest c) (pair k' (scalar s) no_pairs))))
          []
          []
        ≡ some (
            filters_of (name k ∷ []) c
            ++ at_path esc (name k ∷ (name k' ∷ [])) (value_filter esc s) ∷ [])
  unfolding container_tokens contain
  contain_stale k k' c s h =
      rw (append_assoc (container_tokens c) (key k' ∷ (value (plain s) ∷ [])) (end_object ∷ []))
        (flat c (key k' ∷ (value (plain s) ∷ (end_object ∷ []))) (name k ∷ []) [] h)
