-- ===== src/Jsonb.antt =====
-- The indexing and the search of jsonb values (src/pgrn-jsonb.c). The children: Insert is the loop over a value,
-- Paths the paths of its parts, Values the table of values, Contain the conditions of the operator @>.
--
-- A jsonb value is a container: PostgreSQL wraps a scalar in an array of one element. `container_tokens` is what
-- PostgreSQL's JsonbIteratorNext gives for it, without skipping: the tokens in the order of the text, where a value
-- or an element that is a container has no token of its own besides those of the container.
pub mod Insert
pub mod Paths
pub mod Values
pub mod Contain
use pgroonga.Base.{ℕ, suc, ◌≡◌, refl, ap, Bool, Bytes, List, [], ◌∷◌, ◌++◌}

-- A number is its text, as `numeric_out` gives it.
pub data Scalar : Type 0 where
  null : Scalar
  string : Bytes → Scalar
  number : Bytes → Scalar
  boolean : Bool → Scalar

mutual
  pub data Json : Type 0 where
    scalar : Scalar → Json
    nest : Container → Json

  pub data Container : Type 0 where
    array : Items → Container
    object : Pairs → Container

  pub data Items : Type 0 where
    no_items : Items
    item : Json → Items → Items

  pub data Pairs : Type 0 where
    no_pairs : Pairs
    pair : Bytes → Json → Pairs → Pairs

abbrev pub items : Items → ℕ
items no_items = 0
items (item j js) = suc (items js)

abbrev pub pairs : Pairs → ℕ
pairs no_pairs = 0
pairs (pair k j ps) = suc (pairs ps)

-- `JsonbValue`, where it is no container.
pub data JsonbValue : Type 0 where
  plain : Scalar → JsonbValue
  datetime : JsonbValue

-- `JsonbIteratorToken` with the value that comes with it; the end of a list is WJB_DONE.
pub data Token : Type 0 where
  key : Bytes → Token
  value : JsonbValue → Token
  elem : JsonbValue → Token
  begin_array : ℕ → Token
  end_array : Token
  begin_object : ℕ → Token
  end_object : Token
  invalid : Token

unfoldable mutual
  pub container_tokens : Container → List Token
  container_tokens (array js) = begin_array (items js) ∷ (items_tokens js ++ (end_array ∷ []))
  container_tokens (object ps) = begin_object (pairs ps) ∷ (pairs_tokens ps ++ (end_object ∷ []))

  pub items_tokens : Items → List Token
  items_tokens no_items = []
  items_tokens (item (scalar s) js) = elem (plain s) ∷ items_tokens js
  items_tokens (item (nest c) js) = container_tokens c ++ items_tokens js

  pub pairs_tokens : Pairs → List Token
  pairs_tokens no_pairs = []
  pairs_tokens (pair k (scalar s) ps) = key k ∷ (value (plain s) ∷ pairs_tokens ps)
  pairs_tokens (pair k (nest c) ps) = key k ∷ (container_tokens c ++ pairs_tokens ps)

pub data Error : Type 0 where
  unsupported_datetime : Error
  invalid_token : Error

-- An element of the vector `components`: the name of a pair, or the number of elements of an array.
pub data Component : Type 0 where
  name : Bytes → Component
  elements : ℕ → Component

-- What stands at a place of a jsonb value.
pub data Part : Type 0 where
  leaf : Scalar → Part
  an_array : Part
  an_object : Part

pub record Place : Type 0 where
  pub components : List Component
  pub part : Part

abbrev pub place : List Component → Part → Place
place cs part = record { components = cs; part = part }

-- The places of a value in the order of its text: each container, and each scalar.
unfoldable mutual
  pub places : List Component → Container → List Place
  places cs (array js) =
      place (cs ++ elements (items js) ∷ []) an_array
      ∷ items_places (cs ++ elements (items js) ∷ []) js
  places cs (object ps) = place cs an_object ∷ pairs_places cs ps

  pub items_places : List Component → Items → List Place
  items_places cs no_items = []
  items_places cs (item (scalar s) js) = place cs (leaf s) ∷ items_places cs js
  items_places cs (item (nest c) js) = places cs c ++ items_places cs js

  pub pairs_places : List Component → Pairs → List Place
  pairs_places cs no_pairs = []
  pairs_places cs (pair k (scalar s) ps) = place (cs ++ name k ∷ []) (leaf s) ∷ pairs_places cs ps
  pairs_places cs (pair k (nest c) ps) = places (cs ++ name k ∷ []) c ++ pairs_places cs ps

-- `grn_vector_pop_element`, and GRN_UINT8_POP.
pub pop {ℓ} : {A : Type ℓ} → List A → List A
pop [] = []
pop (x ∷ []) = []
pop (x ∷ (y ∷ ys)) = x ∷ pop (y ∷ ys)

pub pop-append {ℓ} : {A : Type ℓ} (xs : List A) (x : A) → pop (xs ++ x ∷ []) ≡ xs
unfolding pop
pop-append [] x = refl
pop-append (y ∷ []) x = refl
pop-append (y ∷ (z ∷ zs)) x = ap (λ t. y ∷ t) (pop-append (z ∷ zs) x)
