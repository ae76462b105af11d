-- ===== src/Jsonb/Values/Keys.antt =====
-- The text of a key tells the place, but for the lengths of arrays.
use pgroonga.Base.{
  ℕ, zero, suc, ◌≡◌, refl, sym, drop, ap, ◌∙◌, ap₂, ◌≢◌, true, false, Bytes, codes, List, [], ◌∷◌,
  ◌++◌, append_assoc, append-nil, if◌then◌else◌, ◌==◌, Option, none, some, arith,
}
use pgroonga.Jsonb.{
  Scalar, null, string, number, boolean, Component, name, elements, Part, leaf, an_array, an_object,
}
use pgroonga.Jsonb.Paths.{
  Flags, flags, add_component, add_components, generate_path, generate_complete_path, add_path,
  generate_sub_paths, generate_paths,
}
use pgroonga.Jsonb.Paths.Laws.{with_arrays}
use pgroonga.Jsonb.Values.{
  type_name, column_of, add_value, cast_text, add_key_components, key_text, row_of,
}

-- The components without the lengths of arrays.
abbrev pub shape : List Component → List Component
shape [] = []
shape (elements n ∷ cs) = elements 0 ∷ shape cs
shape (name c ∷ cs) = name c ∷ shape cs

-- What follows the components in the text of a key.
abbrev tail : Part → Bytes
tail part = add_value (column_of part) (type_name part)

abbrev byte_at : ℕ → Bytes → ℕ
byte_at n [] = 0
byte_at zero (b ∷ bs) = b
byte_at (suc n) (b ∷ bs) = byte_at n bs

-- The first and the third byte tell the type, and the value follows the bar.
abbrev part_of : Bytes → Part
part_of bytes =
    if byte_at 0 bytes == b's'
    then leaf (string (drop 7 bytes))
    else if byte_at 0 bytes == b'n'
    then (if byte_at 2 bytes == b'm' then leaf (number (drop 7 bytes)) else leaf null)
    else if byte_at 0 bytes == b'b'
    then leaf (boolean (byte_at 8 bytes == b't'))
    else if byte_at 0 bytes == b'a'
    then an_array
    else an_object

part_of-tail : (p : Part) → part_of (tail p) ≡ p
unfolding add_value column_of type_name cast_text
part_of-tail (leaf (boolean true)) = refl
part_of-tail (leaf (boolean false)) = refl
part_of-tail (leaf _) = refl
part_of-tail _ = refl

tail-injective : (p q : Part) → tail p ≡ tail q → p ≡ q
tail-injective p q h = sym (part_of-tail p) ∙ (ap part_of h ∙ part_of-tail q)

-- The escaped form of a text starts with a quote, and tells the text and where it ends.
pub record IsQuoting (esc : Bytes → Bytes) : Type 0 where
  pub body : Bytes → Bytes
  pub quoted : (text : Bytes) → esc text ≡ b'"' ∷ body text
  pub delimited : (a b x y : Bytes) → esc a ++ x ≡ esc b ++ y → (a ≡ b) × (x ≡ y)

module _ (esc : Bytes → Bytes) where
  add_key_components_lem :
      (cs : List Component) (key : Bytes)
      → add_key_components esc cs key ≡ key ++ with_arrays esc cs
  unfolding add_key_components
  add_key_components_lem [] key = sym (append-nil key)
  add_key_components_lem (elements n ∷ cs) key =
      add_key_components_lem cs (key ++ codes "[]")
      ∙ append_assoc key (codes "[]") (with_arrays esc cs)
  add_key_components_lem (name c ∷ cs) key =
      add_key_components_lem cs (key ++ (codes "[" ++ (esc c ++ codes "]")))
      ∙ append_assoc key (codes "[" ++ (esc c ++ codes "]")) (with_arrays esc cs)

  add_value-append : (s : Option Scalar) (a b : Bytes) → add_value s (a ++ b) ≡ a ++ add_value s b
  unfolding add_value
  add_value-append none a b = refl
  add_value-append (some s) a b =
      rw (append_assoc a b (codes "|"), append_assoc a (b ++ codes "|") (cast_text s)) refl

  key_text_lem :
      (cs : List Component) (part : Part)
      → key_text esc cs part ≡ b'.' ∷ (with_arrays esc cs ++ (b'|' ∷ tail part))
  unfolding key_text
  key_text_lem cs part =
      rw
        (
          add_key_components_lem cs (codes "."),
          add_value-append (column_of part) ((codes "." ++ with_arrays esc cs) ++ codes "|")
              (type_name part),
        )
        (append_assoc (codes "." ++ with_arrays esc cs) (codes "|") (tail part))

  with_arrays-name :
      (c : Bytes) (cs : List Component) (x : Bytes)
      → with_arrays esc (name c ∷ cs) ++ x ≡ b'[' ∷ (esc c ++ (b']' ∷ (with_arrays esc cs ++ x)))
  with_arrays-name c cs x =
      append_assoc (codes "[" ++ (esc c ++ codes "]")) (with_arrays esc cs) x
      ∙ ap (λ t. b'[' ∷ t) (append_assoc (esc c) (codes "]") (with_arrays esc cs ++ x))

  bar_is_no_bracket : ◌≢◌ {A = ℕ} b'|' b'['
  bar_is_no_bracket e = omega arith

  array_is_no_name :
      (cs : List Component) (d : Bytes) (ds : List Component) (x y : Bytes)
      → IsQuoting esc
      → with_arrays esc (elements 0 ∷ cs) ++ x ≢ with_arrays esc (name d ∷ ds) ++ y
  array_is_no_name cs d ds x y q h =
      let e = h ∙ with_arrays-name d ds y in
      let second : ◌≡◌ {A = ℕ} b']' b'"' =
        ap (byte_at 1)
          (e ∙ ap (λ t. b'[' ∷ (t ++ (b']' ∷ (with_arrays esc ds ++ y)))) (q.quoted d)) in
      omega arith

  with_arrays-injective :
      (cs ds : List Component) (x y : Bytes)
      → IsQuoting esc
      → with_arrays esc cs ++ (b'|' ∷ x) ≡ with_arrays esc ds ++ (b'|' ∷ y)
      → (shape cs ≡ shape ds) × (x ≡ y)
  with_arrays-injective [] [] x y q h = (refl, ap (drop 1) h)
  with_arrays-injective [] (elements n ∷ ds) x y q h = absurd (bar_is_no_bracket (ap (byte_at 0) h))
  with_arrays-injective [] (name d ∷ ds) x y q h = absurd (bar_is_no_bracket (ap (byte_at 0) h))
  with_arrays-injective (elements m ∷ cs) [] x y q h =
      absurd (bar_is_no_bracket (sym (ap (byte_at 0) h)))
  with_arrays-injective (elements m ∷ cs) (elements n ∷ ds) x y q h =
      let (same, rest) = with_arrays-injective cs ds x y q (ap (drop 2) h) in
      (ap (λ t. elements 0 ∷ t) same, rest)
  with_arrays-injective (elements m ∷ cs) (name d ∷ ds) x y q h =
      absurd (array_is_no_name cs d ds (b'|' ∷ x) (b'|' ∷ y) q h)
  with_arrays-injective (name c ∷ cs) [] x y q h =
      absurd (bar_is_no_bracket (sym (ap (byte_at 0) h)))
  with_arrays-injective (name c ∷ cs) (elements n ∷ ds) x y q h =
      absurd (array_is_no_name ds c cs (b'|' ∷ y) (b'|' ∷ x) q (sym h))
  with_arrays-injective (name c ∷ cs) (name d ∷ ds) x y q h =
      let e = sym (with_arrays-name c cs (b'|' ∷ x)) ∙ (h ∙ with_arrays-name d ds (b'|' ∷ y)) in
      let (same_name, rest) =
        q.delimited c d (b']' ∷ (with_arrays esc cs ++ (b'|' ∷ x)))
          (b']' ∷ (with_arrays esc ds ++ (b'|' ∷ y))) (ap (drop 1) e) in
      let (same, after) = with_arrays-injective cs ds x y q (ap (drop 1) rest) in
      (ap₂ (λ t u. name t ∷ u) same_name same, after)

  -- Two places with the same text as their key have the same components, but for the lengths of arrays, and the same
  -- type and value.
  pub key_text-injective :
      (cs ds : List Component) (p q : Part)
      → IsQuoting esc
      → key_text esc cs p ≡ key_text esc ds q
      → (shape cs ≡ shape ds) × (p ≡ q)
  key_text-injective cs ds p q quoting h =
      let e = sym (key_text_lem cs p) ∙ (h ∙ key_text_lem ds q) in
      let (same, tails) = with_arrays-injective cs ds (tail p) (tail q) quoting (ap (drop 1) e) in
      (same, tail-injective p q tails)

  add_components-shape :
      (f : Flags) (cs : List Component) (path : Bytes)
      → add_components esc f (shape cs) path ≡ add_components esc f cs path
  unfolding add_components
  add_components-shape f [] path = refl
  add_components-shape f (elements n ∷ cs) path =
      add_components-shape f cs (add_component esc f (elements 0) path)
  add_components-shape f (name c ∷ cs) path =
      add_components-shape f cs (add_component esc f (name c) path)

  generate_path-shape :
      (cs : List Component) (f : Flags) → generate_path esc (shape cs) f ≡ generate_path esc cs f
  unfolding generate_path
  generate_path-shape cs f = add_components-shape f cs (if f.is_absolute then codes "." else [])

  module _ (path_id : Bytes → ℕ) where
    add_path-shape :
        (cs : List Component) (f : Flags) (ids : List ℕ)
        → add_path esc path_id (shape cs) f ids ≡ add_path esc path_id cs f ids
    unfolding add_path
    add_path-shape cs f ids = rw (generate_path-shape cs f) refl

    -- Three paths of a place, one after the other.
    abbrev add_three : List Component → Flags → Flags → Flags → List ℕ → List ℕ
    add_three cs f g k ids =
        add_path esc path_id cs k (add_path esc path_id cs g (add_path esc path_id cs f ids))

    add_three-shape :
        (cs : List Component) (f g k : Flags) (ids : List ℕ)
        → add_three (shape cs) f g k ids ≡ add_three cs f g k ids
    add_three-shape cs f g k ids =
        add_path-shape cs k
          (add_path esc path_id (shape cs) g (add_path esc path_id (shape cs) f ids))
        ∙ ap (add_path esc path_id cs k) (
            add_path-shape cs g (add_path esc path_id (shape cs) f ids)
            ∙ ap (add_path esc path_id cs g) (add_path-shape cs f ids))

    generate_sub_paths-shape :
        (cs : List Component) (ids : List ℕ)
        → generate_sub_paths esc path_id (shape cs) ids ≡ generate_sub_paths esc path_id cs ids
    unfolding generate_sub_paths
    generate_sub_paths-shape [] ids = refl
    generate_sub_paths-shape (elements n ∷ cs) ids =
        generate_sub_paths-shape cs (
          add_three (shape (elements n ∷ cs)) (flags false true false) (flags false false false)
            (flags false false true) ids)
        ∙ ap (generate_sub_paths esc path_id cs) (
            add_three-shape (elements n ∷ cs) (flags false true false) (flags false false false)
              (flags false false true) ids)
    generate_sub_paths-shape (name c ∷ cs) ids =
        generate_sub_paths-shape cs (
          add_three (shape (name c ∷ cs)) (flags false true false) (flags false false false)
            (flags false false true) ids)
        ∙ ap (generate_sub_paths esc path_id cs) (
            add_three-shape (name c ∷ cs) (flags false true false) (flags false false false)
              (flags false false true) ids)

    generate_paths-shape :
        (cs : List Component)
        → generate_paths esc path_id (shape cs) ≡ generate_paths esc path_id cs
    unfolding generate_paths
    generate_paths-shape cs =
        generate_sub_paths-shape cs (
          add_three (shape cs) (flags true true false) (flags true false false)
            (flags true false true) [])
        ∙ ap (generate_sub_paths esc path_id cs) (
            add_three-shape cs (flags true true false) (flags true false false)
              (flags true false true) [])

    -- The row does not know the lengths of arrays either.
    pub row_of-shape :
        (cs : List Component) (part : Part)
        → row_of esc path_id (shape cs) part ≡ row_of esc path_id cs part
    unfolding row_of generate_complete_path
    row_of-shape cs part =
        rw (generate_path-shape cs (flags true false true), generate_paths-shape cs) refl
