-- ===== src/Jsonb/Insert/Texts.antt =====
-- The loop of a full text search index against the texts of a value.
use pgroonga.Base.{◌≡◌, refl, sym, ap, ◌∙◌, Bytes, List, [], ◌∷◌, ◌++◌, append_assoc, append-nil}
use pgroonga.Jsonb.{
  Scalar, null, string, number, boolean, scalar, nest, Container, array, object, Items, no_items,
  item, Pairs, no_pairs, pair, plain, Token, end_array, end_object, container_tokens, items_tokens,
  pairs_tokens,
}
use pgroonga.Jsonb.Insert.{ok, insert_texts, text_value}

abbrev pub scalar_texts : Scalar → List Bytes
scalar_texts null = []
scalar_texts (string text) = text ∷ []
scalar_texts (number text) = []
scalar_texts (boolean b) = []

-- The texts of a value in their order; the names of its pairs are none of them.
unfoldable mutual
  pub texts : Container → List Bytes
  texts (array js) = items_texts js
  texts (object ps) = pairs_texts ps

  pub items_texts : Items → List Bytes
  items_texts no_items = []
  items_texts (item (scalar s) js) = scalar_texts s ++ items_texts js
  items_texts (item (nest c) js) = texts c ++ items_texts js

  pub pairs_texts : Pairs → List Bytes
  pairs_texts no_pairs = []
  pairs_texts (pair k (scalar s) ps) = scalar_texts s ++ pairs_texts ps
  pairs_texts (pair k (nest c) ps) = texts c ++ pairs_texts ps

text_value_lem :
    (s : Scalar) (found : List Bytes) → text_value (plain s) found ≡ found ++ scalar_texts s
unfolding text_value
text_value_lem null found = sym (append-nil found)
text_value_lem (string text) found = refl
text_value_lem (number text) found = sym (append-nil found)
text_value_lem (boolean b) found = sym (append-nil found)

mutual
  unfolding container_tokens items_tokens pairs_tokens texts items_texts pairs_texts insert_texts

  finds :
      (c : Container) (rest : List Token) (found : List Bytes)
      → insert_texts (container_tokens c ++ rest) found ≡ insert_texts rest (found ++ texts c)
  finds (array js) rest found =
      rw (append_assoc (items_tokens js) (end_array ∷ []) rest)
        (finds_items js (end_array ∷ rest) found)
  finds (object ps) rest found =
      rw (append_assoc (pairs_tokens ps) (end_object ∷ []) rest)
        (finds_pairs ps (end_object ∷ rest) found)

  finds_items :
      (js : Items) (rest : List Token) (found : List Bytes)
      → insert_texts (items_tokens js ++ rest) found ≡ insert_texts rest (found ++ items_texts js)
  finds_items no_items rest found = ap (insert_texts rest) (sym (append-nil found))
  finds_items (item (scalar s) js) rest found =
      rw (text_value_lem s found, ← append_assoc found (scalar_texts s) (items_texts js))
        (finds_items js rest (found ++ scalar_texts s))
  finds_items (item (nest c) js) rest found =
      rw
        (
          append_assoc (container_tokens c) (items_tokens js) rest,
          ← append_assoc found (texts c) (items_texts js),
        )
        (finds c (items_tokens js ++ rest) found ∙ finds_items js rest (found ++ texts c))

  finds_pairs :
      (ps : Pairs) (rest : List Token) (found : List Bytes)
      → insert_texts (pairs_tokens ps ++ rest) found ≡ insert_texts rest (found ++ pairs_texts ps)
  finds_pairs no_pairs rest found = ap (insert_texts rest) (sym (append-nil found))
  finds_pairs (pair k (scalar s) ps) rest found =
      rw (text_value_lem s found, ← append_assoc found (scalar_texts s) (pairs_texts ps))
        (finds_pairs ps rest (found ++ scalar_texts s))
  finds_pairs (pair k (nest c) ps) rest found =
      rw
        (
          append_assoc (container_tokens c) (pairs_tokens ps) rest,
          ← append_assoc found (texts c) (pairs_texts ps),
        )
        (finds c (pairs_tokens ps ++ rest) found ∙ finds_pairs ps rest (found ++ texts c))

-- The loop for a full text search index ends without an error, and appends the texts of the value in their order:
-- every string that is an element or the value of a pair, at any depth, and no name of a pair.
pub insert_texts-container :
    (c : Container) (found : List Bytes)
    → insert_texts (container_tokens c) found ≡ ok (found ++ texts c)
unfolding insert_texts
insert_texts-container c found =
    ap (λ ts. insert_texts ts found) (sym (append-nil (container_tokens c))) ∙ finds c [] found
