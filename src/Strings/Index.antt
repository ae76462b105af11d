-- ===== src/Strings/Index.antt =====
-- The substitution of `$index` in a text.
use pgroonga.Base.{
  ℕ, zero, suc, ◌≤◌, ◌≡◌, ◌≢◌, refl, ap, Bool, true, false, ◌&&◌, Bytes, codes, List, [], ◌∷◌, ◌++◌,
  length, length-append, take, bytes_eq, take-append, drop-append, ◌==◌, arith,
}
use pgroonga.Strings.{substitute_index_from, substitute_index}
use pgroonga.Strings.Laws.{not_zero}

-- A part of a text: a character that is no dollar, a dollar that stands for itself, or the variable.
pub data Part : Type 0 where
  plain : Bytes → Part
  dollar : Part
  variable : Part

abbrev pub template : List Part → Bytes
template [] = []
template (plain c ∷ parts) = c ++ template parts
template (dollar ∷ parts) = b'$' ∷ template parts
template (variable ∷ parts) = codes "$index" ++ template parts

abbrev pub meaning : Bytes → List Part → Bytes
meaning index_text [] = []
meaning index_text (plain c ∷ parts) = c ++ meaning index_text parts
meaning index_text (dollar ∷ parts) = b'$' ∷ meaning index_text parts
meaning index_text (variable ∷ parts) = index_text ++ meaning index_text parts

-- A character that does not start with a dollar.
abbrev pub NoDollar : Bytes → Type 0
NoDollar [] = Unit
NoDollar (b ∷ c) = (b == b'$') ≡ false

module _ (charlen : Bytes → ℕ) (index_text : Bytes) where
  abbrev pub IsPlain : Bytes → Type 0
  IsPlain c = ((c ≢ []) × ((rest : Bytes) → charlen (c ++ rest) ≡ length c)) × NoDollar c

  -- A dollar that stands for itself is not followed by the name of the variable.
  abbrev pub AreParts : List Part → Type 0
  AreParts [] = Unit
  AreParts (plain c ∷ parts) = IsPlain c × AreParts parts
  AreParts (dollar ∷ parts) =
      (bytes_eq (take 5 (template parts)) (codes "index") ≡ false) × AreParts parts
  AreParts (variable ∷ parts) = AreParts parts

  and_false : (b : Bool) → (b && false) ≡ false
  and_false true = refl
  and_false false = refl

  substitute_index_from-template :
      (fuel : ℕ) (parts : List Part)
      → ((rest : Bytes) → charlen (b'$' ∷ rest) ≡ 1)
      → AreParts parts
      → length (template parts) ≤ fuel
      → substitute_index_from charlen index_text fuel (template parts) ≡ meaning index_text parts
  unfolding substitute_index_from
  substitute_index_from-template zero [] one all le = refl
  substitute_index_from-template (suc fuel) [] one all le = refl
  substitute_index_from-template fuel (plain [] ∷ parts) one (((ne, len), no_dollar), all) le =
      absurd (ne refl)
  substitute_index_from-template zero (plain (b ∷ c) ∷ parts) one (is, all) le =
      absurd (omega (arith, le))
  substitute_index_from-template (suc fuel) (plain (b ∷ c) ∷ parts) one
        (((ne, len), no_dollar), all) le =
      rw
        (
          len (template parts),
          no_dollar,
          and_false (length (b ∷ c) == 1),
          not_zero (length c),
          take-append c (template parts),
          drop-append c (template parts),
        )
        (ap (λ t. b ∷ (c ++ t))
          (substitute_index_from-template fuel parts one all
            (omega (arith, le, length-append c (template parts)))))
  substitute_index_from-template zero (dollar ∷ parts) one (is, all) le = absurd (omega (arith, le))
  substitute_index_from-template (suc fuel) (dollar ∷ parts) one (other, all) le =
      rw (one (template parts), other)
        (ap (λ t. b'$' ∷ t) (substitute_index_from-template fuel parts one all (omega (arith, le))))
  substitute_index_from-template zero (variable ∷ parts) one all le = absurd (omega (arith, le))
  substitute_index_from-template (suc fuel) (variable ∷ parts) one all le =
      rw (one (codes "index" ++ template parts)) (
        ap (λ t. index_text ++ t)
          (substitute_index_from-template fuel parts one all (omega (arith, le))))

  -- In a text of characters that do not start with a dollar, of dollars that the name index does not follow, and
  -- of $index, each $index is replaced by the text of the index, and all else is kept, these dollars included. The
  -- length of each of the characters, and of the dollar, is found whatever follows it.
  pub substitute_index-template :
      (parts : List Part)
      → ((rest : Bytes) → charlen (b'$' ∷ rest) ≡ 1)
      → AreParts parts
      → substitute_index charlen index_text (template parts) ≡ meaning index_text parts
  unfolding substitute_index
  substitute_index-template parts one all =
      substitute_index_from-template (length (template parts)) parts one all (omega arith)
