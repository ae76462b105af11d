-- ===== src/Tests/Search.antt =====
-- The search at concrete keys and patterns.
use pgroonga.Base.{
  ℕ, ◌≡◌, refl, Bool, true, false, ◌&&◌, length, Bytes, codes, List, [], ◌∷◌, Option, none, some,
  arith,
}
use pgroonga.Search.Range.{ScanKey, no_borders, is_range_searchable, range_search}
use pgroonga.Search.Range.Laws.{is_above, is_below, all_hold, AreUntied, range_search-exact}
use pgroonga.Search.Like.{any_of, like_match}
use pgroonga.Search.Like.Laws.{Part, plain, escaped, any_text, pattern_of}

abbrev rank : ℕ → ℕ
rank n = n

abbrev scan_key : ℕ → ℕ → ScanKey ℕ
scan_key strategy argument = record { attribute = 1; strategy = strategy; argument = argument }

-- 3 < x and x <= 9 and x < 12
abbrev keys : List (ScanKey ℕ)
keys = scan_key 5 3 ∷ (scan_key 2 9 ∷ (scan_key 1 12 ∷ []))

abbrev cursor : Option ℕ → Option ℕ → Bool → Bool → ℕ → Bool
cursor min max gt lt v = is_above rank min gt v && is_below rank max lt v

keys_are_searchable : is_range_searchable false keys [] ≡ true
unfolding is_range_searchable
keys_are_searchable = refl

keys-AreUntied : AreUntied rank keys
keys-AreUntied = (
  ((λ e s. absurd (omega arith)), ((λ e s. absurd (omega arith)), tt)),
  (((λ e s. absurd (omega arith)), tt), (tt, tt)),
)

range_search-exact_example :
    (found : ℕ → Bool) × (range_search rank cursor keys no_borders ≡ some found)
    × ((v : ℕ) → found v ≡ all_hold rank v keys)
range_search-exact_example =
    range_search-exact rank cursor false keys [] (λ min max gt lt v. refl) keys_are_searchable
      keys-AreUntied

-- x < 5 and x <= 5: the weaker border stays, so that 5 is found.
tied_borders :
    range_search rank cursor (scan_key 1 5 ∷ (scan_key 2 5 ∷ [])) no_borders
    ≡ some (cursor none (some 5) false false)
unfolding range_search
tied_borders = refl

-- The pattern a%b\%
abbrev parts : List Part
parts = any_text ∷ (plain b'b' ∷ (escaped b'%' ∷ []))

abbrev row_text : Bytes
row_text = codes "xab%"

-- A character of one byte.
abbrev IsCharacter : Bytes → Type 0
IsCharacter character = length character ≡ 1

like_keyword : like_match 0 (pattern_of parts) ≡ any_of (codes "b%" ∷ [])
unfolding like_match
like_keyword = refl
