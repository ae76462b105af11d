-- ===== src/Tests/LikeRegexp.antt =====
-- A search for the regular expressions, on texts of one byte for each character.
use pgroonga.Base.{
  ◌<◌, ℕ, ◌≡◌, ◌↔◌, inl, inr, refl, sym, ap, ◌∙◌, true, false, Bool-cases, ==_iff, Bytes, codes,
  List, All, [], ◌∷◌, ◌++◌, length, ◌==◌, if◌then◌else◌, subst, arith,
}
use pgroonga.Search.LikeRegexp.{regexp, like_regexp}
use pgroonga.Search.LikeRegexp.Items.{
  plain, escaped, any_character, Part, one, any_text, Matches, Item, begin, end, any_item,
  any_items, character, metacharacters, is_one_of, print_all, Finds,
}
use pgroonga.Search.LikeRegexp.Laws.{Measures, IsPrintable, like_regexp-Matches}

abbrev charlen : Bytes → ℕ
charlen [] = 0
charlen (b ∷ bs) = 1

abbrev IsByte : Bytes → Type 0
IsByte [] = ⊥
IsByte (b ∷ []) = Unit
IsByte (b ∷ (c ∷ bs)) = ⊥

charlen-Measures : Measures charlen IsByte
charlen-Measures = record {
  measured = measured_byte;
  ended = refl;
  positive = positive_byte;
  percent = tt;
  underscore = tt;
  backslash = tt;
}
  where
    measured_byte : (c rest : Bytes) → IsByte c → charlen (c ++ rest) ≡ length c
    measured_byte [] rest h = absurd h
    measured_byte (b ∷ []) rest h = refl
    measured_byte (b ∷ (c ∷ bs)) rest h = absurd h

    positive_byte : (c : Bytes) → IsByte c → 0 < length c
    positive_byte [] h = absurd h
    positive_byte (b ∷ bs) h = omega arith

abbrev parse : Bytes → List Item
parse [] = []
parse (b ∷ []) = if b == b'.' then any_item ∷ [] else character (b ∷ []) ∷ []
parse (b ∷ (c ∷ bs)) =
    let two = parse bs in
    let rest = parse (c ∷ bs) in
    if b == b'\\'
    then (if c == b'A'
        then begin ∷ two
        else if c == b'z'
        then end ∷ two
        else character (c ∷ []) ∷ two)
    else if b == b'.'
    then (if c == b'*' then any_items ∷ two else any_item ∷ rest)
    else character (b ∷ []) ∷ rest

special_is_not :
    (d b : ℕ)
    → is_one_of false b metacharacters ≡ false
    → is_one_of false d metacharacters ≡ true
    → (d == b) ≡ false
special_is_not d b plain_b special_d = elim (Bool-cases (d == b)) [
  | inl e ↦ let same : d ≡ b = (==_iff d b).0 e in cc
  | inr e ↦ e
]

plain_is_not :
    (d b : ℕ)
    → is_one_of false b metacharacters ≡ true
    → is_one_of false d metacharacters ≡ false
    → (d == b) ≡ false
plain_is_not d b special_b plain_d = elim (Bool-cases (d == b)) [
  | inl e ↦ let same : d ≡ b = (==_iff d b).0 e in cc
  | inr e ↦ e
]

parse_any :
    (items : List Item)
    → All (IsPrintable IsByte) items
    → parse (codes "." ++ print_all items) ≡ any_item ∷ parse (print_all items)
parse_any [] ps = refl
parse_any (begin ∷ items) ps = refl
parse_any (end ∷ items) ps = refl
parse_any (any_item ∷ items) ps = refl
parse_any (any_items ∷ items) ps = refl
parse_any (character [] ∷ items) (p, ps) = absurd p
parse_any (character (d ∷ (c ∷ bs)) ∷ items) (p, ps) = absurd p
parse_any (character (d ∷ []) ∷ items) (p, ps) =
    elim (Bool-cases (is_one_of false d metacharacters)) [
      | inl e ↦ rw e refl
      | inr e ↦ rw (e, plain_is_not d b'*' refl e) refl
    ]

parse_plain :
    (d : ℕ) (bs : Bytes)
    → is_one_of false d metacharacters ≡ false
    → parse (d ∷ bs) ≡ character (d ∷ []) ∷ parse bs
parse_plain d [] e = rw (plain_is_not d b'.' refl e) refl
parse_plain d (b ∷ bs) e = rw (plain_is_not d b'\\' refl e, plain_is_not d b'.' refl e) refl

parse-print_all :
    (items : List Item) → All (IsPrintable IsByte) items → parse (print_all items) ≡ items
parse-print_all [] ps = refl
parse-print_all (begin ∷ items) (p, ps) = ap (λ t. begin ∷ t) (parse-print_all items ps)
parse-print_all (end ∷ items) (p, ps) = ap (λ t. end ∷ t) (parse-print_all items ps)
parse-print_all (any_items ∷ items) (p, ps) = ap (λ t. any_items ∷ t) (parse-print_all items ps)
parse-print_all (any_item ∷ items) (p, ps) =
    parse_any items ps ∙ ap (λ t. any_item ∷ t) (parse-print_all items ps)
parse-print_all (character [] ∷ items) (p, ps) = absurd p
parse-print_all (character (d ∷ (c ∷ bs)) ∷ items) (p, ps) = absurd p
parse-print_all (character (d ∷ []) ∷ items) (p, ps) =
    elim (Bool-cases (is_one_of false d metacharacters)) [
      | inl e ↦
          rw (e, special_is_not d b'A' refl e, special_is_not d b'z' refl e)
            (ap (λ t. character (d ∷ []) ∷ t) (parse-print_all items ps))
      | inr e ↦ rw e (
          parse_plain d (print_all items) e
          ∙ ap (λ t. character (d ∷ []) ∷ t) (parse-print_all items ps))
    ]

abbrev Searches : Bytes → List Bytes → Type 0
Searches built text = Finds (parse built) text

Searches-Finds :
    (items : List Item) (text : List Bytes)
    → All (IsPrintable IsByte) items
    → All IsByte text
    → Searches (print_all items) text ↔ Finds items text
Searches-Finds items text ps cs = (
  subst (λ t. Finds t text) (parse-print_all items ps),
  subst (λ t. Finds t text) (sym (parse-print_all items ps)),
)

abbrev letter : ℕ → Part
letter b = one (plain (b ∷ []))

-- The pattern a%\__.
abbrev behind_first : List Part
behind_first = any_text ∷ (one (escaped (b'_' ∷ [])) ∷ (one any_character ∷ (letter b'.' ∷ [])))

abbrev like_text : List Bytes
like_text = codes "a" ∷ (codes "b" ∷ (codes "_" ∷ (codes "c" ∷ (codes "." ∷ []))))

like_regexp-Matches_example :
    (built : Bytes) × (like_regexp charlen 0 (codes "a%\\__.") ≡ regexp built)
    × (Searches built like_text ↔ Matches (letter b'a' ∷ behind_first) like_text)
like_regexp-Matches_example =
    like_regexp-Matches charlen IsByte charlen-Measures Searches Searches-Finds 0 (letter b'a')
      behind_first like_text
      ((tt, (refl, refl, refl)), (tt, (tt, (tt, ((tt, (refl, refl, refl)), tt)))))
      (tt, (tt, (tt, (tt, (tt, tt)))))

like_regexp_run : like_regexp charlen 0 (codes "a%\\__.") ≡ regexp (codes "\\Aa.*_.\\.\\z")
unfolding like_regexp
like_regexp_run = refl
