-- ===== src/Jsonb/Contain.antt =====
-- The conditions of the operator @>: `PGrnSearchBuildConditionJSONContain` and the functions that it calls. A condition
-- is the text of the filter that `PGrnSearchBuildConditionJSONScript` adds to the expression, where the filters are
-- joined by GRN_OP_AND; `esc` stands for `grn_text_esc`.
pub mod Laws
use pgroonga.Base.{
  ℕ, Bool, true, false, Bytes, codes, List, [], ◌∷◌, ◌++◌, length, bytes_eq, ◌==◌, if◌then◌else◌,
  Option, none, some,
}
use pgroonga.Jsonb.{
  Scalar, null, string, number, boolean, JsonbValue, plain, datetime, Token, key, value, elem,
  begin_array, end_array, begin_object, end_object, invalid, Component, name, elements, pop,
}
use pgroonga.Jsonb.Paths.{generate_complete_path}

-- The filter on the type and the value, without the path.
module _ (esc : Bytes → Bytes) where
  unfoldable pub value_filter : Scalar → Bytes
  value_filter null = codes "type == \"null\""
  value_filter (string text) =
      (if length text == 0 then codes "type == \"string\" && " else [])
      ++ (codes "string == " ++ esc text)
  value_filter (number text) =
      (if bytes_eq text (codes "0") then codes "type == \"number\" && " else [])
      ++ (codes "number == " ++ text)
  value_filter (boolean true) = codes "type == \"boolean\" && boolean == true"
  value_filter (boolean false) = codes "type == \"boolean\" && boolean == false"

  unfoldable pub at_path : List Component → Bytes → Bytes
  at_path cs filter = filter ++ (codes " && path == " ++ esc (generate_complete_path esc cs))

  -- `PGrnSearchBuildConditionJSONContainType`
  unfoldable pub contain_type : List Component → Bytes → List Bytes → List Bytes
  unfolding at_path
  contain_type cs type filters = filters ++ at_path cs (codes "type == " ++ esc type) ∷ []

  -- `PGrnSearchBuildConditionJSONContainValue`
  unfoldable pub contain_value : List Component → JsonbValue → List Bytes → List Bytes
  unfolding value_filter at_path
  contain_value cs (plain s) filters = filters ++ at_path cs (value_filter s) ∷ []
  contain_value cs datetime filters = filters

  -- The loop; `none` is the error about an invalid token.
  unfoldable pub contain : List Token → List Component → List Bytes → Option (List Bytes)
  unfolding contain_type contain_value
  contain [] cs filters = some filters
  contain (key k ∷ tokens) cs filters = contain tokens (cs ++ name k ∷ []) filters
  contain (value v ∷ tokens) cs filters = contain tokens (pop cs) (contain_value cs v filters)
  contain (elem v ∷ tokens) cs filters = contain tokens cs (contain_value cs v filters)
  contain (begin_array n ∷ tokens) cs filters =
      contain tokens (cs ++ elements n ∷ [])
        (if n == 0 then contain_type (cs ++ elements n ∷ []) (codes "array") filters else filters)
  contain (end_array ∷ tokens) cs filters = contain tokens (pop cs) filters
  contain (begin_object n ∷ tokens) cs filters =
      contain tokens cs (if n == 0 then contain_type cs (codes "object") filters else filters)
  contain (end_object ∷ tokens) cs filters = contain tokens cs filters
  contain (invalid ∷ tokens) cs filters = none
