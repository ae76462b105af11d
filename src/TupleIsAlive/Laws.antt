-- ===== src/TupleIsAlive/Laws.antt =====
-- The selector against the function that it stands for.
use pgroonga.Base.{
  ℕ, ◌≡◌, refl, ap, ◌∙◌, Bool, true, false, not, Bytes, codes, List, [], ◌∷◌, if◌then◌else◌, Option,
  none, some,
}
use pgroonga.TupleIsAlive.{
  TableType, table_no_key, other_table, Table, Context, and, or, test_tuple,
  sources_table_to_file_node_id, func_tuple_is_alive, delete_dead, add_alive, delete_all,
  ctid_column_name, select_in, selector_tuple_is_alive,
}

module _ {A : Type 0} (x : Context A) (fuel domain : ℕ) (number : ℕ → A) where
  -- What the function answers for a packed ctid of a table's record.
  abbrev pub answer : ℕ → Bool
  answer packed_ctid = (func_tuple_is_alive x fuel (some (some domain)) (number packed_ctid ∷ [])).1

  -- A packed ctid is cast to itself.
  abbrev pub CastsNumbers : Type 0
  CastsNumbers = (packed_ctid : ℕ) → x.cast_uint64 (number packed_ctid) ≡ some packed_ctid

  func_tuple_is_alive-number :
      (table : Table) (packed_ctid : ℕ)
      → CastsNumbers
      → x.table_at domain ≡ some table
      → func_tuple_is_alive x fuel (some (some domain)) (number packed_ctid ∷ []) ≡ (
        none,
        test_tuple x
            (x.resolve_file_node_id (sources_table_to_file_node_id x fuel (some table)))
            packed_ctid,
      )
  unfolding func_tuple_is_alive
  func_tuple_is_alive-number table packed_ctid casts found = rw (found, casts packed_ctid) refl

  answer-test_tuple :
      (table : Table)
      → CastsNumbers
      → x.table_at domain ≡ some table
      → (packed_ctid : ℕ)
      → answer packed_ctid
        ≡ test_tuple x
            (x.resolve_file_node_id (sources_table_to_file_node_id x fuel (some table)))
            packed_ctid
  answer-test_tuple table casts found packed_ctid =
      ap (λ r. r.1) (func_tuple_is_alive-number table packed_ctid casts found)

  -- The column that holds a record's packed ctid.
  abbrev pub ctid_column : TableType → Bytes
  ctid_column table_no_key = codes "ctid"
  ctid_column other_table = codes "_key"

  module _ {R : Type 0} (ids_of : R → List ℕ) (value_of : R → Bytes → ℕ → ℕ) (delete : R → ℕ → R)
      (posting_add : R → ℕ → R) where
    -- The function, asked for the ctid of each record of a result set: those that it denies are deleted.
    abbrev pub narrow : (ℕ → ℕ) → R → List ℕ → R
    narrow ctid res [] = res
    narrow ctid res (id ∷ ids) = narrow ctid (if answer (ctid id) then res else delete res id) ids

    -- The function, asked for the ctid of each record of a table: those that it affirms are added.
    abbrev pub extend : (ℕ → ℕ) → R → List ℕ → R
    extend ctid res [] = res
    extend ctid res (id ∷ ids) =
        extend ctid (if answer (ctid id) then posting_add res id else res) ids

    ctid_column_name-ctid_column :
        (type : TableType)
        → ctid_column_name x ids_of value_of delete posting_add type ≡ ctid_column type
    unfolding ctid_column_name
    ctid_column_name-ctid_column table_no_key = refl
    ctid_column_name-ctid_column other_table = refl

    if_not : (b : Bool) (r s : R) → (if not b then s else r) ≡ (if b then r else s)
    if_not true r s = refl
    if_not false r s = refl

    delete_dead-narrow :
        (pg_table : ℕ) (ctid : ℕ → ℕ)
        → ((packed_ctid : ℕ) → answer packed_ctid ≡ test_tuple x (some pg_table) packed_ctid)
        → (res : R) (ids : List ℕ)
        → delete_dead x ids_of value_of delete posting_add pg_table ctid res ids
          ≡ narrow ctid res ids
    unfolding delete_dead test_tuple
    delete_dead-narrow pg_table ctid same res [] = refl
    delete_dead-narrow pg_table ctid same res (id ∷ ids) =
        rw (same (ctid id), if_not (test_tuple x (some pg_table) (ctid id)) res (delete res id))
          (delete_dead-narrow pg_table ctid same
            (if test_tuple x (some pg_table) (ctid id) then res else delete res id) ids)

    delete_all-narrow :
        (ctid : ℕ → ℕ)
        → ((packed_ctid : ℕ) → answer packed_ctid ≡ false)
        → (res : R) (ids : List ℕ)
        → delete_all x ids_of value_of delete posting_add res ids ≡ narrow ctid res ids
    unfolding delete_all
    delete_all-narrow ctid same res [] = refl
    delete_all-narrow ctid same res (id ∷ ids) =
        rw (same (ctid id)) (delete_all-narrow ctid same (delete res id) ids)

    add_alive-extend :
        (pg_table : ℕ) (ctid : ℕ → ℕ)
        → ((packed_ctid : ℕ) → answer packed_ctid ≡ test_tuple x (some pg_table) packed_ctid)
        → (res : R) (ids : List ℕ)
        → add_alive x ids_of value_of delete posting_add pg_table ctid res ids ≡ extend ctid res ids
    unfolding add_alive test_tuple
    add_alive-extend pg_table ctid same res [] = refl
    add_alive-extend pg_table ctid same res (id ∷ ids) = rw (same (ctid id)) (
        add_alive-extend pg_table ctid same
          (if test_tuple x (some pg_table) (ctid id) then posting_add res id else res) ids)

    -- As a selector with `and`, the procedure deletes from a result set exactly the records that the function
    -- denies, asked for the packed ctid of each: the column `ctid` of the result set where the table has no key,
    -- and its key otherwise. This holds whether the index of the table is found or not. The table is the domain of
    -- the function's variable, and a packed ctid is cast to itself.
    pub selector_and-narrow :
        (table : Table) (res : R)
        → CastsNumbers
        → x.table_at domain ≡ some table
        → selector_tuple_is_alive x ids_of value_of delete posting_add fuel and table res
          ≡ some (narrow (value_of res (ctid_column table.header_type)) res (ids_of res))
    unfolding selector_tuple_is_alive select_in test_tuple
    selector_and-narrow table res casts found =
        by_index (x.resolve_file_node_id (sources_table_to_file_node_id x fuel (some table)))
          (answer-test_tuple table casts found)
      where
        by_index :
            (index : Option ℕ)
            → ((packed_ctid : ℕ) → answer packed_ctid ≡ test_tuple x index packed_ctid)
            → select_in x ids_of value_of delete posting_add and index table res
              ≡ some (narrow (value_of res (ctid_column table.header_type)) res (ids_of res))
        by_index none same = ap some (delete_all-narrow _ same res (ids_of res))
        by_index (some pg_table) same =
            rw (ctid_column_name-ctid_column table.header_type)
              (ap some (delete_dead-narrow pg_table _ same res (ids_of res)))

    -- As a selector with `or`, where the index of the table is found, the procedure adds to a result set exactly
    -- the records of the table that the function affirms, asked for the packed ctid of each: the column `ctid` of
    -- the table where it has no key, and its key otherwise. The table is the domain of the function's variable, and
    -- a packed ctid is cast to itself.
    pub selector_or-extend :
        (table : Table) (res : R) (pg_table : ℕ)
        → CastsNumbers
        → x.table_at domain ≡ some table
        → x.resolve_file_node_id (sources_table_to_file_node_id x fuel (some table)) ≡ some pg_table
        → selector_tuple_is_alive x ids_of value_of delete posting_add fuel or table res
          ≡ some (extend (table.value (ctid_column table.header_type)) res table.ids)
    unfolding selector_tuple_is_alive select_in
    selector_or-extend table res pg_table casts found index =
        ap (λ i. select_in x ids_of value_of delete posting_add or i table res) index
        ∙ ap
            (λ c. some (
              add_alive x ids_of value_of delete posting_add pg_table (table.value c) res
                table.ids))
            (ctid_column_name-ctid_column table.header_type)
        ∙ ap some (
            add_alive-extend pg_table (table.value (ctid_column table.header_type))
              (λ packed_ctid.
                answer-test_tuple table casts found packed_ctid
                ∙ ap (λ i. test_tuple x i packed_ctid) index)
              res table.ids)
