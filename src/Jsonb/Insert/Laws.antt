-- ===== src/Jsonb/Insert/Laws.antt =====
-- The loop over a jsonb value against the places of the value.
use pgroonga.Base.{
  false, ◌≡◌, refl, sym, ap, ◌∙◌, Bytes, List, [], ◌∷◌, ◌++◌, append_assoc, append-nil,
}
use pgroonga.Jsonb.{
  Scalar, scalar, nest, Container, array, object, Items, no_items, item, Pairs, no_pairs, pair,
  items, plain, Token, value, end_array, end_object, container_tokens, items_tokens, pairs_tokens,
  Component, name, elements, Part, leaf, an_array, an_object, Place, places, items_places,
  pairs_places, pop-append,
}
use pgroonga.Jsonb.Insert.{
  Mark, in_key, in_array, in_object, ends_with_key, InsertData, ok, close_key, insert_token,
  insert_tokens, insert_container,
}

ends_with_key-append :
    (ms : List Mark) (m : Mark) → ends_with_key (ms ++ m ∷ []) ≡ ends_with_key (m ∷ [])
unfolding ends_with_key
ends_with_key-append [] m = refl
ends_with_key-append (in_key ∷ []) m = refl
ends_with_key-append (in_array ∷ []) m = refl
ends_with_key-append (in_object ∷ []) m = refl
ends_with_key-append (in_key ∷ (n ∷ ms)) m = ends_with_key-append (n ∷ ms) m
ends_with_key-append (in_array ∷ (n ∷ ms)) m = ends_with_key-append (n ∷ ms) m
ends_with_key-append (in_object ∷ (n ∷ ms)) m = ends_with_key-append (n ∷ ms) m

module _ {T : Type 0} (value_set : List Component → Part → T → T) where
  -- The values of some places are set, one after the other.
  abbrev pub set_all : List Place → T → T
  set_all [] t = t
  set_all (p ∷ ps) t = set_all ps (value_set p.components p.part t)

  set_all-append : (ps qs : List Place) (t : T) → set_all (ps ++ qs) t ≡ set_all qs (set_all ps t)
  set_all-append [] qs t = refl
  set_all-append (p ∷ ps) qs t = set_all-append ps qs (value_set p.components p.part t)

  abbrev at : List Component → List Mark → T → InsertData T
  at cs ms t = record { components = cs; token_stack = ms; tables = t }

  close_key-key :
      (cs : List Component) (ms : List Mark) (k : Bytes) (t : T)
      → close_key (at (cs ++ name k ∷ []) (ms ++ in_key ∷ []) t) ≡ at cs ms t
  unfolding close_key ends_with_key
  close_key-key cs ms k t =
      rw (ends_with_key-append ms in_key, pop-append cs (name k), pop-append ms in_key)

  close_key_none :
      (cs : List Component) (ms : List Mark) (t : T)
      → ends_with_key ms ≡ false
      → close_key (at cs ms t) ≡ at cs ms t
  unfolding close_key
  close_key_none cs ms t h = rw h

  value_step :
      (s : Scalar) (k : Bytes) (rest : List Token) (cs : List Component) (ms : List Mark) (t : T)
      → insert_tokens value_set
          (value (plain s) ∷ rest)
          (at (cs ++ name k ∷ []) (ms ++ in_key ∷ []) t)
        ≡ insert_tokens value_set rest (at cs ms (value_set (cs ++ name k ∷ []) (leaf s) t))
  unfolding insert_tokens
  value_step s k rest cs ms t = rw (pop-append cs (name k), pop-append ms in_key)

  end_array_step :
      (n : Component) (rest : List Token) (cs : List Component) (ms : List Mark) (t : T)
      → insert_tokens value_set (end_array ∷ rest) (at (cs ++ n ∷ []) (ms ++ in_array ∷ []) t)
        ≡ insert_tokens value_set rest (close_key (at cs ms t))
  unfolding insert_tokens
  end_array_step n rest cs ms t = rw (pop-append cs n, pop-append ms in_array)

  end_object_step :
      (rest : List Token) (cs : List Component) (ms : List Mark) (t : T)
      → insert_tokens value_set (end_object ∷ rest) (at cs (ms ++ in_object ∷ []) t)
        ≡ insert_tokens value_set rest (close_key (at cs ms t))
  unfolding insert_tokens
  end_object_step rest cs ms t = rw (pop-append ms in_object)

  mutual
    unfolding container_tokens items_tokens pairs_tokens places items_places pairs_places
        insert_tokens insert_token ends_with_key

    inserts :
        (c : Container) (rest : List Token) (cs : List Component) (ms : List Mark) (t : T)
        → insert_tokens value_set (container_tokens c ++ rest) (at cs ms t)
          ≡ insert_tokens value_set rest (close_key (at cs ms (set_all (places cs c) t)))
    inserts (array js) rest cs ms t =
        let cs' = cs ++ elements (items js) ∷ [] in
        let t' = value_set cs' an_array t in
        rw (append_assoc (items_tokens js) (end_array ∷ []) rest) (
          inserts_items js (end_array ∷ rest) cs' (ms ++ in_array ∷ []) t'
            (ends_with_key-append ms in_array)
          ∙ end_array_step (elements (items js)) rest cs ms (set_all (items_places cs' js) t'))
    inserts (object ps) rest cs ms t =
        let t' = value_set cs an_object t in
        rw (append_assoc (pairs_tokens ps) (end_object ∷ []) rest) (
          inserts_pairs ps (end_object ∷ rest) cs (ms ++ in_object ∷ []) t'
          ∙ end_object_step rest cs ms (set_all (pairs_places cs ps) t'))

    inserts_items :
        (js : Items) (rest : List Token) (cs : List Component) (ms : List Mark) (t : T)
        → ends_with_key ms ≡ false
        → insert_tokens value_set (items_tokens js ++ rest) (at cs ms t)
          ≡ insert_tokens value_set rest (at cs ms (set_all (items_places cs js) t))
    inserts_items no_items rest cs ms t h = refl
    inserts_items (item (scalar s) js) rest cs ms t h =
        inserts_items js rest cs ms (value_set cs (leaf s) t) h
    inserts_items (item (nest c) js) rest cs ms t h =
        rw
          (
            append_assoc (container_tokens c) (items_tokens js) rest,
            set_all-append (places cs c) (items_places cs js) t,
          )
          (inserts c (items_tokens js ++ rest) cs ms t
            ∙ (ap (insert_tokens value_set (items_tokens js ++ rest))
                  (close_key_none cs ms (set_all (places cs c) t) h)
                ∙ inserts_items js rest cs ms (set_all (places cs c) t) h))

    inserts_pairs :
        (ps : Pairs) (rest : List Token) (cs : List Component) (ms : List Mark) (t : T)
        → insert_tokens value_set (pairs_tokens ps ++ rest) (at cs ms t)
          ≡ insert_tokens value_set rest (at cs ms (set_all (pairs_places cs ps) t))
    inserts_pairs no_pairs rest cs ms t = refl
    inserts_pairs (pair k (scalar s) ps) rest cs ms t =
        value_step s k (pairs_tokens ps ++ rest) cs ms t
        ∙ inserts_pairs ps rest cs ms (value_set (cs ++ name k ∷ []) (leaf s) t)
    inserts_pairs (pair k (nest c) ps) rest cs ms t =
        let cs' = cs ++ name k ∷ [] in
        rw
          (
            append_assoc (container_tokens c) (pairs_tokens ps) rest,
            set_all-append (places cs' c) (pairs_places cs ps) t,
          )
          (inserts c (pairs_tokens ps ++ rest) cs' (ms ++ in_key ∷ []) t
            ∙ (ap (insert_tokens value_set (pairs_tokens ps ++ rest))
                  (close_key-key cs ms k (set_all (places cs' c) t))
                ∙ inserts_pairs ps rest cs ms (set_all (places cs' c) t)))

  -- Whatever the stack held, the places of a value are set one after the other in the order of its text, each with
  -- the components that lead to it, and the components are in the end what they were.
  pub insert_container-places :
      (c : Container) (data' : InsertData T)
      → insert_container value_set (container_tokens c) data'
        ≡ ok (record data' {
          token_stack = [];
          tables = set_all (places data'.components c) data'.tables;
        })
  unfolding insert_container close_key ends_with_key
  insert_container-places c d =
      ap (λ ts. insert_tokens value_set ts (at d.components [] d.tables))
        (sym (append-nil (container_tokens c)))
      ∙ inserts c [] d.components [] d.tables
