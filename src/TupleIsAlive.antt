-- ===== src/TupleIsAlive.antt =====
-- The procedure `pgroonga_tuple_is_alive` of Groonga: src/pgrn-groonga-tuple-is-alive.c. As a function it tests one
-- record, as a selector it narrows or extends a result set. `R` stands for result sets.
pub mod Laws
use pgroonga.Base.{
  ℕ, zero, suc, ◌+◌, Bool, true, false, not, ◌&&◌, Bytes, codes, List, [], ◌∷◌, length, drop, leb,
  ◌==◌, if◌then◌else◌, Option, none, some,
}
use pgroonga.Ids.{ctid_unpack}

-- `header.type`, as far as it is compared.
pub data TableType : Type 0 where
  table_no_key other_table : TableType

-- A table of Groonga: its name, its type, its domain (0 for none), the ids of its records, and the numbers in its
-- columns by the column's name.
pub record Table : Type 0 where
  pub name : Bytes
  pub header_type : TableType
  pub is_temporary : Bool
  pub domain : ℕ
  pub ids : List ℕ
  pub value : Bytes → ℕ → ℕ

-- What the procedure asks Groonga and PostgreSQL: a table by its id, a number at the start of a text, the
-- PostgreSQL table of the index with a file node, and whether a tuple of it is alive.
pub record Context (A : Type 0) : Type 0 where
  pub table_at : ℕ → Option Table
  pub strtol : Bytes → ℕ
  pub resolve_file_node_id : ℕ → Option ℕ
  pub is_alive : ℕ → ℕ × ℕ → Bool
  pub cast_uint64 : A → Option ℕ
  pub prefix_length : ℕ

pub data Failure : Type 0 where
  no_condition no_variable no_ctid invalid_ctid : Failure
  no_table : ℕ → Failure

pub data Operator : Type 0 where
  and or other : Operator

module _ {A : Type 0} (x : Context A) where
  -- `resolve_sources_table`: each table of a chain is the domain of the one before it; the fuel is the length
  -- of the longest chain.
  unfoldable pub resolve_sources_table : ℕ → Option Table → Option Table
  resolve_sources_table zero table = table
  resolve_sources_table (suc fuel) none = none
  resolve_sources_table (suc fuel) (some table) =
      let source = resolve_sources_table fuel (x.table_at table.domain) in
      if table.is_temporary && not (table.domain == 0) then source else some table

  -- `sources_table_to_file_node_id`: 0 is `InvalidOid`.
  unfoldable pub file_node_id_of : Option Table → ℕ
  file_node_id_of none = 0
  file_node_id_of (some table) =
      if leb (length table.name) x.prefix_length
      then 0
      else x.strtol (drop x.prefix_length table.name)

  unfoldable pub sources_table_to_file_node_id : ℕ → Option Table → ℕ
  unfolding resolve_sources_table file_node_id_of
  sources_table_to_file_node_id fuel table = file_node_id_of (resolve_sources_table fuel table)

  -- Without an index of the file node no tuple is alive.
  unfoldable pub test_tuple : Option ℕ → ℕ → Bool
  unfolding ctid_unpack
  test_tuple none packed_ctid = false
  test_tuple (some pg_table) packed_ctid = x.is_alive pg_table (ctid_unpack packed_ctid)

  unfoldable pub test_ctid : ℕ → Table → Option ℕ → Option Failure × Bool
  unfolding sources_table_to_file_node_id test_tuple
  test_ctid fuel table none = (some invalid_ctid, false)
  test_ctid fuel table (some packed_ctid) = (
    none,
    test_tuple (x.resolve_file_node_id (sources_table_to_file_node_id fuel (some table)))
        packed_ctid,
  )

  unfoldable pub test_arguments : ℕ → Table → List A → Option Failure × Bool
  unfolding test_ctid
  test_arguments fuel table [] = (some no_ctid, false)
  test_arguments fuel table (a ∷ []) = test_ctid fuel table (x.cast_uint64 a)
  test_arguments fuel table (a ∷ b ∷ args) = (some no_ctid, false)

  unfoldable pub test_in : ℕ → ℕ → Option Table → List A → Option Failure × Bool
  unfolding test_arguments
  test_in fuel domain none args = (some (no_table domain), false)
  test_in fuel domain (some table) args = test_arguments fuel table args

  -- `func_pgroonga_tuple_is_alive`, for a condition, if there is one, and the domain of its variable, if there is
  -- one: the error, and the result, which is false with an error.
  unfoldable pub func_tuple_is_alive : ℕ → Option (Option ℕ) → List A → Option Failure × Bool
  unfolding test_in
  func_tuple_is_alive fuel none args = (some no_condition, false)
  func_tuple_is_alive fuel (some none) args = (some no_variable, false)
  func_tuple_is_alive fuel (some (some domain)) args = test_in fuel domain (x.table_at domain) args

  -- Groonga's side of a result set: the ids of its cursor, the value of its column with a name, the deletion
  -- of a record, and `grn_ii_posting_add`.
  module _ {R : Type 0} (ids_of : R → List ℕ) (value_of : R → Bytes → ℕ → ℕ) (delete : R → ℕ → R)
      (posting_add : R → ℕ → R) where
    -- The cursor over the result set, whose dead records are deleted. The accessor reads the packed ctids.
    unfoldable pub delete_dead : ℕ → (ℕ → ℕ) → R → List ℕ → R
    unfolding ctid_unpack
    delete_dead pg_table accessor res [] = res
    delete_dead pg_table accessor res (id ∷ ids) =
        delete_dead pg_table accessor
          (if not (x.is_alive pg_table (ctid_unpack (accessor id))) then delete res id else res) ids

    -- The cursor over the table, whose living records are added.
    unfoldable pub add_alive : ℕ → (ℕ → ℕ) → R → List ℕ → R
    unfolding ctid_unpack
    add_alive pg_table accessor res [] = res
    add_alive pg_table accessor res (id ∷ ids) =
        add_alive pg_table accessor
          (if x.is_alive pg_table (ctid_unpack (accessor id)) then posting_add res id else res) ids

    -- The cursors where there is no index: every record is deleted, or added.
    unfoldable pub delete_all : R → List ℕ → R
    delete_all res [] = res
    delete_all res (id ∷ ids) = delete_all (delete res id) ids

    unfoldable pub add_all : R → List ℕ → R
    add_all res [] = res
    add_all res (id ∷ ids) = add_all (posting_add res id) ids

    -- `ctid_column_name`: the sources table without a key has a column for it, all others have it as the key.
    unfoldable pub ctid_column_name : TableType → Bytes
    ctid_column_name table_no_key = codes "ctid"
    ctid_column_name other_table = codes "_key"

    unfoldable pub select_in : Operator → Option ℕ → Table → R → Option R
    unfolding ctid_column_name delete_dead add_alive delete_all add_all
    select_in other index table res = none
    select_in and (some pg_table) table res =
        some (
          delete_dead pg_table (value_of res (ctid_column_name table.header_type)) res (ids_of res))
    select_in or (some pg_table) table res =
        some (add_alive pg_table (table.value (ctid_column_name table.header_type)) res table.ids)
    select_in and none table res = some (delete_all res (ids_of res))
    select_in or none table res = some (add_all res table.ids)

    -- `selector_pgroonga_tuple_is_alive`, which uses neither its arguments nor the Groonga index; `none` is
    -- `GRN_FUNCTION_NOT_IMPLEMENTED`.
    unfoldable pub selector_tuple_is_alive : ℕ → Operator → Table → R → Option R
    unfolding sources_table_to_file_node_id select_in
    selector_tuple_is_alive fuel op table res =
        select_in op (x.resolve_file_node_id (sources_table_to_file_node_id fuel (some table)))
          table res
