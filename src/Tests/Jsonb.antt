-- ===== src/Tests/Jsonb.antt =====
-- The indexing and the search of jsonb values at concrete ones.
use pgroonga.Base.{
  ℕ, ◌≡◌, ◌≢◌, ◌↔◌, refl, ap, ap₂, sym, ◌∙◌, true, false, Bytes, codes, from_le, List, All, [], ◌∷◌,
  ◌++◌, map, ◌⊎◌, inl, inr, none, some, drop, arith,
}
use pgroonga.Jsonb.{
  string, number, null, scalar, nest, Container, array, object, no_items, item, no_pairs, pair,
  container_tokens, Component, name, elements, leaf, an_object, Place, place, places,
}
use pgroonga.Jsonb.Insert.{ok, insert_container, insert_texts}
use pgroonga.Jsonb.Insert.Texts.{texts, insert_texts-container}
use pgroonga.Jsonb.Paths.{contains, generate_path, generate_paths, flags}
use pgroonga.Jsonb.Paths.Laws.{Distinct, HasPath, all_paths, generate_paths-Distinct}
use pgroonga.Jsonb.Values.{Row, Tables, find, key_text, value_set}
use pgroonga.Jsonb.Values.Rows.{IsRowOf}
use pgroonga.Jsonb.Values.Keys.{IsQuoting}
use pgroonga.Jsonb.Values.Laws.{IsValid, HasNoCollision, insert_container-rows}

-- Each byte behind a backslash, between quotes.
abbrev body : Bytes → Bytes
body [] = b'"' ∷ []
body (b ∷ bs) = b'\\' ∷ (b ∷ body bs)

abbrev esc : Bytes → Bytes
esc text = b'"' ∷ body text

body-delimited : (a b x y : Bytes) → body a ++ x ≡ body b ++ y → (a ≡ b) × (x ≡ y)
body-delimited [] [] x y h = (refl, ap (drop 1) h)
body-delimited [] (b ∷ bs) x y h = absurd (no_backslash (ap first h))
  where
    first : Bytes → ℕ
    first [] = 0
    first (c ∷ cs) = c

    no_backslash : ◌≡◌ {A = ℕ} b'"' b'\\' → ⊥
    no_backslash e = omega arith
body-delimited (a ∷ as') [] x y h = absurd (no_quote (ap first h))
  where
    first : Bytes → ℕ
    first [] = 0
    first (c ∷ cs) = c

    no_quote : ◌≡◌ {A = ℕ} b'\\' b'"' → ⊥
    no_quote e = omega arith
body-delimited (a ∷ as') (b ∷ bs) x y h =
    let (same, rest) = body-delimited as' bs x y (ap (drop 2) h) in
    let heads : a ≡ b = cc in (ap₂ (λ t u. t ∷ u) heads same, rest)

esc-IsQuoting : IsQuoting esc
esc-IsQuoting = record {
  body = body;
  quoted = λ text. refl;
  delimited = λ a b x y h. body-delimited a b x y (ap (drop 1) h);
}

-- {"k": "v"}
abbrev small : Container
small = object (pair (codes "k") (scalar (string (codes "v"))) no_pairs)

abbrev root_place : Place
root_place = place [] an_object

abbrev leaf_place : Place
leaf_place = place (name (codes "k") ∷ []) (leaf (string (codes "v")))

abbrev Occurs : Place → Type 0
Occurs p = (p ≡ root_place) ⊎ (p ≡ leaf_place)

abbrev no_tables : Tables
no_tables = record { rows = []; value_ids = []; wal = [] }

abbrev text_of : Place → Bytes
text_of p = key_text esc p.components p.part

numbers_differ : from_le (text_of root_place) ≢ from_le (text_of leaf_place)
unfolding key_text
numbers_differ e = omega arith

abbrev number_of : Place → ℕ
number_of p = from_le (text_of p)

small-HasNoCollision : HasNoCollision esc from_le from_le true Occurs
small-HasNoCollision p q (inl a) (inl b) e = rw (a, b) refl
small-HasNoCollision p q (inl a) (inr b) e =
    absurd (numbers_differ (ap number_of (sym a) ∙ (e ∙ ap number_of b)))
small-HasNoCollision p q (inr a) (inl b) e =
    absurd (numbers_differ (ap number_of (sym b) ∙ (sym e ∙ ap number_of a)))
small-HasNoCollision p q (inr a) (inr b) e = rw (a, b) refl

no_tables-IsValid : IsValid esc from_le from_le true Occurs no_tables
no_tables-IsValid = record { of_places = tt; counted = tt }

small-places : All Occurs (places [] small)
unfolding places
small-places = (inl refl, (inr refl, tt))

insert_container-rows_example :
    (t' : Tables) × (insert_container
        (value_set esc from_le from_le true)
        (container_tokens small)
        (record { components = []; token_stack = []; tables = no_tables })
      ≡ ok (record { components = []; token_stack = []; tables = t' }))
    × IsValid esc from_le from_le true Occurs t'
    × (t'.value_ids ≡ [] ++ map number_of (places [] small))
    × All
        (λ p. (row : Row) × (find (number_of p) t'.rows ≡ some row) × IsRowOf esc from_le p row)
        (places [] small)
    × ((find 3 [] ≡ none) ⊎ (find 3 t'.rows ≡ find 3 []))
insert_container-rows_example =
    insert_container-rows esc from_le from_le true Occurs esc-IsQuoting small-HasNoCollision small
      no_tables 3 small-places no_tables-IsValid

-- {"a": ["x", {"b": "y"}], "c": null}
abbrev document : Container
document = object (
    pair (codes "a")
      (nest (
        array (
          item (scalar (string (codes "x"))) (
            item (nest (object (pair (codes "b") (scalar (string (codes "y"))) no_pairs)))
              no_items))))
      (pair (codes "c") (scalar null) no_pairs))

insert_texts-container_example :
    insert_texts (container_tokens document) [] ≡ ok ([] ++ texts document)
insert_texts-container_example = insert_texts-container document []

texts_of_document : texts document ≡ codes "x" ∷ (codes "y" ∷ [])
unfolding texts
texts_of_document = refl

abbrev components : List Component
components = name (codes "a") ∷ (elements 2 ∷ (name (codes "b") ∷ []))

generate_paths-Distinct_example :
    Distinct esc from_le (generate_paths esc from_le components)
    × ((id : ℕ)
        → (contains (generate_paths esc from_le components) id ≡ true)
          ↔ HasPath esc from_le (all_paths esc components) id)
generate_paths-Distinct_example = generate_paths-Distinct esc from_le components

dotted_path : generate_path esc components (flags true true false) ≡ codes ".a.b"
unfolding generate_path
dotted_path = refl

-- {"a": [1, {}]}
abbrev wanted : Container
wanted = object (
    pair (codes "a")
      (nest (array (item (scalar (number (codes "1"))) (item (nest (object no_pairs)) no_items))))
      no_pairs)
