-- ===== src/Search/LikeRegexp.antt =====
-- The condition of LIKE on an index for regular expressions: `PGrnSearchBuildConditionLikeRegexp` of src/pgroonga.c.
-- Groonga's `grn_charlen` (the bytes of the first character, 0 if there is none) is the argument `charlen`; `beyond` is
-- the byte behind the pattern, which is read where the pattern is empty.
pub mod Items
pub mod Laws
use pgroonga.Base.{
  ℕ, zero, suc, Bool, true, false, not, ◌&&◌, ◌||◌, Bytes, codes, List, [], ◌∷◌, ◌++◌, length, take,
  drop, ◌==◌, if◌then◌else◌,
}

-- The regular expression of the condition, or the error for what is no character. `out_of_fuel` is only of the model.
pub data Built : Type 0 where
  regexp : Bytes → Built
  invalid_encoding out_of_fuel : Built

abbrev pub is_byte : ℕ → Bytes → Bool
is_byte b (c ∷ []) = c == b
is_byte b _ = false

unfoldable pub is_special : ℕ → Bool
is_special b =
    (b == b'\\')
    || (b == b'|')
    || (b == b'(')
    || (b == b')')
    || (b == b'[')
    || (b == b']')
    || (b == b'.')
    || (b == b'*')
    || (b == b'+')
    || (b == b'?')
    || (b == b'{')
    || (b == b'}')
    || (b == b'^')
    || (b == b'$')

-- A character that stands for itself.
unfoldable pub quoted : Bytes → Bytes
unfolding is_special
quoted (b ∷ []) = if is_special b then b'\\' ∷ (b ∷ []) else b ∷ []
quoted character = character

abbrev pub is_empty : Bytes → Bool
is_empty [] = true
is_empty (b ∷ bs) = false

-- A round of the loop: `escaping`, `lastIsPercent` and the expression that is built, after the character.
unfoldable pub round : Bool → Bool → Bool → Bytes → Bool → Bytes → Bool × Bool × Bytes
unfolding quoted
round at_start escaping last_is_percent character at_end built =
    if escaping
    then (false, last_is_percent, built ++ quoted character)
    else if is_byte b'%' character
    then (if at_start
        then (false, last_is_percent, built)
        else if at_end
        then (false, true, built)
        else (false, last_is_percent, built ++ codes ".*"))
    else if is_byte b'_' character
    then (false, last_is_percent, built ++ codes ".")
    else if is_byte b'\\' character
    then (true, last_is_percent, built)
    else (false, last_is_percent, built ++ quoted character)

unfoldable pub finish : Bool → Bytes → Bytes → Built
finish last_is_percent [] built = regexp (if last_is_percent then built else built ++ codes "\\z")
finish last_is_percent (b ∷ rest) built = invalid_encoding

-- `while ((characterSize = grn_charlen(...)) > 0)`
unfoldable pub like_loop : (Bytes → ℕ) → ℕ → Bool → Bool → Bool → Bytes → Bytes → Built
unfolding round finish
like_loop charlen zero at_start escaping last_is_percent query built = out_of_fuel
like_loop charlen (suc fuel) at_start escaping last_is_percent query built =
    let size = charlen query in
    let rest = drop size query in
    let next = round at_start escaping last_is_percent (take size query) (is_empty rest) built in
    let following = like_loop charlen fuel false next.0 next.1 rest next.2 in
    if size == 0 then finish last_is_percent query built else following

abbrev pub first_byte : ℕ → Bytes → ℕ
first_byte beyond [] = beyond
first_byte beyond (b ∷ query) = b

unfoldable pub like_regexp : (Bytes → ℕ) → ℕ → Bytes → Built
unfolding like_loop
like_regexp charlen beyond query =
    like_loop charlen (suc (length query)) true false false query
      (if first_byte beyond query == b'%' then [] else codes "\\A")
