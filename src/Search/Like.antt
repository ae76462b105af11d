-- ===== src/Search/Like.antt =====
-- The condition of LIKE on an index for full text search: `PGrnSearchBuildConditionLikeMatch` and
-- `PGrnSearchBuildConditionLikeMatchFlush` of src/pgroonga.c. The found rows are checked again by PostgreSQL.
-- `beyond` is the byte behind the pattern, which is read where the pattern ends with a backslash.
pub mod Laws
use pgroonga.Base.{
  ℕ, Bool, true, false, ◌||◌, Bytes, List, [], ◌∷◌, ◌++◌, length, ◌==◌, if◌then◌else◌,
}

-- The expression that is built: no row (`isEmptyCondition`), all rows, or the rows with one of the keywords.
pub data Condition : Type 0 where
  empty : Condition
  all_records : Condition
  any_of : List Bytes → Condition

unfoldable pub flush : Bytes → List Bytes → List Bytes
flush [] keywords = keywords
flush (b ∷ keyword) keywords = keywords ++ (b ∷ keyword) ∷ []

unfoldable pub is_wildcard : ℕ → Bool
is_wildcard b = (b == b'%') || (b == b'_')

-- The loop over the bytes of the pattern, with the keyword that is open.
unfoldable pub like_keywords : ℕ → Bytes → Bytes → List Bytes → List Bytes
unfolding flush is_wildcard
like_keywords beyond [] keyword keywords = flush keyword keywords
like_keywords beyond (b ∷ []) keyword keywords =
    if b == b'\\'
    then flush (keyword ++ beyond ∷ []) keywords
    else if is_wildcard b
    then flush keyword keywords
    else flush (keyword ++ b ∷ []) keywords
like_keywords beyond (b ∷ (c ∷ bs)) keyword keywords =
    let escaped = like_keywords beyond bs (keyword ++ c ∷ []) keywords in
    let wild = like_keywords beyond (c ∷ bs) [] (flush keyword keywords) in
    let more = like_keywords beyond (c ∷ bs) (keyword ++ b ∷ []) keywords in
    if b == b'\\' then escaped else if is_wildcard b then wild else more

unfoldable pub condition_of : List Bytes → Condition
condition_of [] = all_records
condition_of (keyword ∷ keywords) = any_of (keyword ∷ keywords)

unfoldable pub like_match : ℕ → Bytes → Condition
unfolding like_keywords condition_of
like_match beyond [] = empty
like_match beyond (b ∷ bs) = condition_of (like_keywords beyond (b ∷ bs) [] [])
