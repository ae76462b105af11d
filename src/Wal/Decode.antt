-- ===== src/Wal/Decode.antt =====
-- One object of the generic WAL at the applier: `PGrnWALApplyObject` of src/pgrn-wal.c and the functions below it,
-- up to the calls that change the Groonga database, which are the data `Command`. What is looked up in the database is
-- the record `Standby`: `O` stands for its objects, `C` for columns.
pub mod Actions
pub mod Insert
pub mod Object
pub mod Laws
pub mod Values
pub mod Packed
pub mod Rows
pub mod Inserted
pub mod Written
use pgroonga.Base.{
  ℕ, zero, suc, ◌+◌, ◌-◌, ◌*◌, ◌/◌, ◌%◌, ◌^◌, Bool, true, false, ◌||◌, Bytes, codes, List, [], ◌∷◌,
  ◌++◌, length, take, bytes_eq, from_le, to_le, ltb, ◌==◌, if◌then◌else◌, Option, none, some,
}
use pgroonga.Wal.Msgpack.{
  Msg, Items, Fields, nil, boolean, positive_integer, negative_integer, float32, float64, str, bin,
  ext, array, map, no_items, item, no_fields, field,
}

-- `PGrnCheckRC` and the lookups raise an error; a null pointer that is read has no defined result.
pub data Failure : Type 0 where
  key_not_string wrong_type null_pointer : Failure
  not_found : Bytes → Failure
  unexpected_action : ℕ → Failure

pub data Decoded {ℓ} (A : Type ℓ) : Type ℓ where
  ok : A → Decoded A
  failed : Failure → Decoded A

infixl 5 ◌>>=◌
abbrev pub ◌>>=◌ {ℓ κ} : {A : Type ℓ} {B : Type κ} → Decoded A → (A → Decoded B) → Decoded B
ok a >>= f = f a
failed e >>= f = failed e

-- `PGrnWALApplyKeyEqual`
unfoldable pub key_equal : Msg → Bytes → Decoded Bool
key_equal (str s) name = ok (bytes_eq s name)
key_equal _ name = failed key_not_string

-- The branch of a key: what follows if the key is `name`, and otherwise.
abbrev pub on_key {ℓ} : {A : Type ℓ} → Msg → Bytes → Decoded A → Decoded A → Decoded A
on_key key name same other = key_equal key name >>= λ b. if b then same else other

-- `PGrnWALApplyValueGetPositiveInteger`
unfoldable pub get_positive_integer : Msg → Decoded ℕ
get_positive_integer (positive_integer n) = ok n
get_positive_integer _ = failed wrong_type

-- `PGrnWALApplyValueGetString`
unfoldable pub get_string : Msg → Decoded Bytes
get_string (str s) = ok s
get_string _ = failed wrong_type

-- `PGrnWALApplyValueGetBinary`
unfoldable pub get_binary : Msg → Decoded Bytes
get_binary (bin b) = ok b
get_binary _ = failed wrong_type

-- `PGrnWALApplyValueGetTableModule`
unfoldable pub get_table_module : Msg → Decoded (Option Bytes)
get_table_module nil = ok none
get_table_module (str s) = ok (some s)
get_table_module _ = failed wrong_type

-- `PGrnWALApplyValueGetTableModules`: for an array, the null pointer `modules` is rewound.
unfoldable pub get_table_modules : Msg → Decoded (Option Bytes)
get_table_modules nil = ok none
get_table_modules (str s) = ok (some s)
get_table_modules (array elements) = failed null_pointer
get_table_modules _ = failed wrong_type

pub record Standby (O C : Type 0) : Type 0 where
  pub lookup : Bytes → Option O
  pub lookup_column : O → Bytes → Option C
  pub sources_table : Option O
  pub is_no_key : O → Bool
  pub range : C → ℕ
  pub lexicon_domain : ℕ → Option ℕ

-- An error level of ERROR: what is not found is an error.
abbrev pub or_error {ℓ} : {A : Type ℓ} → Bytes → Option A → Decoded A
or_error name (some a) = ok a
or_error name none = failed (not_found name)

module _ {O C : Type 0} (s : Standby O C) where
  -- `PGrnWALApplyValueGetGroongaObject`
  unfoldable pub get_object : Msg → Decoded (Option O)
  get_object nil = ok none
  get_object (str name) = or_error name (s.lookup name) >>= λ o. ok (some o)
  get_object _ = failed wrong_type

  abbrev pub one_id : Msg → Decoded O
  one_id (str name) = or_error name (s.lookup name)
  one_id _ = failed wrong_type

  -- `PGrnWALApplyValueGetGroongaObjectIDs`: the ids are put behind those that are there.
  unfoldable pub get_ids : List O → Items → Decoded (List O)
  get_ids ids no_items = ok ids
  get_ids ids (item element elements) = one_id element >>= λ o. get_ids (ids ++ o ∷ []) elements

  unfoldable pub get_object_ids : List O → Msg → Decoded (List O)
  unfolding get_ids
  get_object_ids ids (array elements) = get_ids ids elements
  get_object_ids ids _ = failed wrong_type

-- The loop over the rest of the map.
module _ {ℓ} {S : Type ℓ} (step : S → Msg → Msg → Decoded S) where
  unfoldable pub each_field : S → Fields → Decoded S
  each_field st no_fields = ok st
  each_field st (field k v fs) = step st k v >>= λ st'. each_field st' fs
