-- ===== src/Tests/TupleIsAlive.antt =====
-- A table of two records, of which one is alive, and a result set of it.
use pgroonga.Base.{
  ℕ, ◌+◌, ◌≡◌, refl, true, false, not, Bytes, codes, List, [], ◌∷◌, ◌==◌, if◌then◌else◌, none, some,
}
use pgroonga.TupleIsAlive.{
  table_no_key, other_table, Table, Context, and, or, sources_table_to_file_node_id,
  selector_tuple_is_alive,
}
use pgroonga.TupleIsAlive.Laws.{narrow, extend, selector_and-narrow, selector_or-extend}

-- The tuples 1 and 2 of the block 1, in the column of the name alone.
abbrev value_in : Bytes → Bytes → ℕ → ℕ
value_in [] [] id = 65536 + id
value_in [] (c ∷ other) id = 0
value_in (b ∷ name) [] id = 0
value_in (b ∷ name) (c ∷ other) id = let rest = value_in name other id in if b == c then rest else 0

abbrev sources : Table
sources = record {
  name = codes "Sources123";
  header_type = other_table;
  is_temporary = false;
  domain = 0;
  ids = 1 ∷ 2 ∷ [];
  value = value_in (codes "_key");
}

abbrev without_key : Table
without_key = record {
  name = codes "Sources123";
  header_type = table_no_key;
  is_temporary = false;
  domain = 0;
  ids = 1 ∷ 2 ∷ [];
  value = value_in (codes "ctid");
}

abbrev result_set : Table
result_set = record {
  name = [];
  header_type = other_table;
  is_temporary = true;
  domain = 5;
  ids = 1 ∷ 2 ∷ [];
  value = value_in (codes "_key");
}

-- The second tuple of the first block is dead.
abbrev context : Context ℕ
context = record {
  table_at = λ id.
      if id == 5
      then some sources
      else if id == 6
      then some without_key
      else if id == 9
      then some result_set
      else none;
  strtol = λ text. 123;
  resolve_file_node_id = λ id. if id == 123 then some 16400 else none;
  is_alive = λ pg_table ctid. not (ctid.1 == 2);
  cast_uint64 = λ n. some n;
  prefix_length = 7;
}

abbrev same : List ℕ → List ℕ
same ids = ids

abbrev key_of : List ℕ → Bytes → ℕ → ℕ
key_of res column id = value_in (codes "_key") column id

abbrev delete_id : List ℕ → ℕ → List ℕ
delete_id [] id = []
delete_id (x ∷ ids) id = let rest = delete_id ids id in if x == id then rest else x ∷ rest

abbrev add_id : List ℕ → ℕ → List ℕ
add_id ids id = id ∷ ids

second_is_deleted :
    selector_tuple_is_alive context same key_of delete_id add_id 3 and result_set (1 ∷ 2 ∷ [])
    ≡ some (1 ∷ [])
unfolding selector_tuple_is_alive
second_is_deleted = refl

first_is_added :
    selector_tuple_is_alive context same key_of delete_id add_id 3 or without_key [] ≡ some (1 ∷ [])
unfolding selector_tuple_is_alive
first_is_added = refl

selector_and-narrow_example :
    selector_tuple_is_alive context same key_of delete_id add_id 3 and result_set (1 ∷ 2 ∷ [])
    ≡ some (
        narrow context 3 9
          (λ n. n)
          same
          key_of
          delete_id
          add_id
          (key_of (1 ∷ 2 ∷ []) (codes "_key"))
          (1 ∷ 2 ∷ [])
          (1 ∷ 2 ∷ []))
selector_and-narrow_example =
    selector_and-narrow context 3 9 (λ n. n) same key_of delete_id add_id result_set (1 ∷ 2 ∷ [])
      (λ n. refl) refl

selector_or-extend_example :
    selector_tuple_is_alive context same key_of delete_id add_id 3 or without_key []
    ≡ some (
        extend context 3 6
          (λ n. n)
          same
          key_of
          delete_id
          add_id
          (without_key.value (codes "ctid"))
          []
          (1 ∷ 2 ∷ []))
unfolding sources_table_to_file_node_id
selector_or-extend_example =
    selector_or-extend context 3 6 (λ n. n) same key_of delete_id add_id without_key [] 16400
      (λ n. refl) refl refl
