-- ===== src/Jsonb/Insert.antt =====
-- The loops over a jsonb value: `PGrnJSONBInsertContainer` and `PGrnJSONBInsertValue` with the vector of
-- components and the stack of tokens, and the two functions for a full text search index. `value_set` stands for
-- `PGrnJSONBInsertValueSet`.
pub mod Laws
pub mod Texts
use pgroonga.Base.{Bool, true, false, Bytes, List, [], ◌∷◌, ◌++◌, if◌then◌else◌}
use pgroonga.Jsonb.{
  Scalar, null, string, number, boolean, JsonbValue, plain, datetime, Token, key, value, elem,
  begin_array, end_array, begin_object, end_object, invalid, Error, unsupported_datetime,
  invalid_token, Component, name, elements, Part, leaf, an_array, an_object, pop,
}

-- The tokens that are put on the stack.
pub data Mark : Type 0 where
  in_key in_array in_object : Mark

pub ends_with_key : List Mark → Bool
ends_with_key [] = false
ends_with_key (in_key ∷ []) = true
ends_with_key (in_array ∷ []) = false
ends_with_key (in_object ∷ []) = false
ends_with_key (m ∷ (m' ∷ ms)) = ends_with_key (m' ∷ ms)

pub record InsertData (T : Type 0) : Type 0 where
  pub components : List Component
  pub token_stack : List Mark
  pub tables : T

pub data Result (T : Type 0) : Type 0 where
  ok : T → Result T
  err : Error → Result T

module _ {T : Type 0} where
  unfoldable pub pop_both : InsertData T → InsertData T
  pop_both data' = record data' {
    components = pop data'.components;
    token_stack = pop data'.token_stack;
  }

  unfoldable pub pop_both_of : Result (InsertData T) → Result (InsertData T)
  unfolding pop_both
  pop_both_of (ok data') = ok (pop_both data')
  pop_both_of (err e) = err e

  -- Behind a container that is the value of a key, the key ends too.
  unfoldable pub close_key : InsertData T → InsertData T
  unfolding pop_both
  close_key data' = if ends_with_key data'.token_stack then pop_both data' else data'

module _ {T : Type 0} (value_set : List Component → Part → T → T) where
  unfoldable pub set_here : Part → InsertData T → InsertData T
  set_here part data' = record data' { tables = value_set data'.components part data'.tables }

  -- A value is set, or its type is not supported.
  unfoldable pub insert_value : JsonbValue → InsertData T → Result (InsertData T)
  unfolding set_here
  insert_value (plain s) data' = ok (set_here (leaf s) data')
  insert_value datetime data' = err unsupported_datetime

  unfoldable pub insert_token : Token → InsertData T → Result (InsertData T)
  unfolding insert_value set_here pop_both pop_both_of close_key
  insert_token (key k) data' = ok (record data' {
    components = data'.components ++ name k ∷ [];
    token_stack = data'.token_stack ++ in_key ∷ [];
  })
  insert_token (value v) data' = pop_both_of (insert_value v data')
  insert_token (elem v) data' = insert_value v data'
  insert_token (begin_array n) data' = ok (
      set_here an_array (record data' {
        components = data'.components ++ elements n ∷ [];
        token_stack = data'.token_stack ++ in_array ∷ [];
      }))
  insert_token end_array data' = ok (close_key (pop_both data'))
  insert_token (begin_object n) data' =
      ok (set_here an_object (record data' { token_stack = data'.token_stack ++ in_object ∷ [] }))
  insert_token end_object data' =
      ok (close_key (record data' { token_stack = pop data'.token_stack }))
  insert_token invalid data' = err invalid_token

  unfoldable pub insert_tokens : List Token → InsertData T → Result (InsertData T)
  unfolding insert_token
  insert_tokens [] data' = ok data'
  insert_tokens (token ∷ tokens) data' = elim (insert_token token data') [
    | ok data'' ↦ insert_tokens tokens data''
    | err e ↦ err e
  ]

  -- `PGrnJSONBInsertContainer`
  unfoldable pub insert_container : List Token → InsertData T → Result (InsertData T)
  unfolding insert_tokens
  insert_container tokens data' = insert_tokens tokens (record data' { token_stack = [] })

-- `PGrnJSONBInsertValueForFullTextSearch`: the texts of a value.
unfoldable pub text_value : JsonbValue → List Bytes → List Bytes
text_value (plain null) texts = texts
text_value (plain (string text)) texts = texts ++ text ∷ []
text_value (plain (number text)) texts = texts
text_value (plain (boolean b)) texts = texts
text_value datetime texts = texts

-- `PGrnJSONBInsertContainerForFullTextSearch`
unfoldable pub insert_texts : List Token → List Bytes → Result (List Bytes)
unfolding text_value
insert_texts [] texts = ok texts
insert_texts (key k ∷ tokens) texts = insert_texts tokens texts
insert_texts (value v ∷ tokens) texts = insert_texts tokens (text_value v texts)
insert_texts (elem v ∷ tokens) texts = insert_texts tokens (text_value v texts)
insert_texts (begin_array n ∷ tokens) texts = insert_texts tokens texts
insert_texts (end_array ∷ tokens) texts = insert_texts tokens texts
insert_texts (begin_object n ∷ tokens) texts = insert_texts tokens texts
insert_texts (end_object ∷ tokens) texts = insert_texts tokens texts
insert_texts (invalid ∷ tokens) texts = err invalid_token
