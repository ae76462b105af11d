-- ===== src/SequentialSearch.antt =====
-- The cache of the sequential search: `PGrnSequentialSearchPrepareIndex` and `PGrnReleaseSequentialSearch` of
-- src/pgrn-sequential-search.c. A datum is kept for each key; the pointer `currentDatum` is the key of its entry.
-- How the making of a new datum's temporary index goes is an argument. Groonga's hash table is a list of entries.
pub mod Laws
pub mod Release
use pgroonga.Base.{
  ℕ, ◌+◌, ◌%◌, ◌^◌, Bool, true, false, not, ◌&&◌, List, [], ◌∷◌, ◌==◌, if◌then◌else◌, Option, none,
  some,
}

-- `PGrnSequentialSearchDatumKey`: whether the target is a list of texts, and whether a temporary index is used.
pub record Key : Type 0 where
  pub index_oid : ℕ
  pub attribute_index : ℕ
  pub texts : Bool
  pub use_index : Bool
  pub search_type : ℕ

abbrev pub same_bool : Bool → Bool → Bool
same_bool true b = b
same_bool false b = not b

unfoldable pub same_key : Key → Key → Bool
same_key a b =
    (a.index_oid == b.index_oid)
    && ((a.attribute_index == b.attribute_index)
        && (same_bool a.texts b.texts
            && (same_bool a.use_index b.use_index && (a.search_type == b.search_type))))

-- `PGrnSequentialSearchDatum`: the fields that are compared, and whether it was used since the last vacuum.
pub record Datum : Type 0 where
  pub fields : Key
  pub used : Bool

pub record Search : Type 0 where
  pub entries : List (Key × Datum)
  pub current : Option Key
  pub n_executions : ℕ

unfoldable pub find : Key → List (Key × Datum) → Option Datum
unfolding same_key
find key [] = none
find key ((k, datum) ∷ entries) = if same_key key k then some datum else find key entries

-- `used = true` through the pointer to the datum of a key.
unfoldable pub use_datum : Key → List (Key × Datum) → List (Key × Datum)
unfolding same_key
use_datum key [] = []
use_datum key ((k, datum) ∷ entries) =
    let rest = use_datum key entries in
    if same_key key k then (k, record datum { used = true }) ∷ entries else (k, datum) ∷ rest

unfoldable pub delete : Key → List (Key × Datum) → List (Key × Datum)
unfolding same_key
delete key [] = []
delete key ((k, datum) ∷ entries) =
    let rest = delete key entries in if same_key key k then rest else (k, datum) ∷ rest

-- `unresolved` is the error of `PGrnPGResolveIndexID`, which nothing catches.
pub data Prepared : Type 0 where
  reused made failed unresolved : Prepared

-- How the temporary index of a datum is made: PostgreSQL does not find the index of the OID; the index is not one
-- of PGroonga, or Groonga raises an error, and the datum is deleted; or it is made.
pub data Making : Type 0 where
  index_not_found refused created : Making

-- The datum of the pointer has the fields of the key.
unfoldable pub matches : Option Datum → Key → Bool
unfolding same_key
matches none key = false
matches (some datum) key = same_key datum.fields key

-- The search with the datum of the key, which is current.
abbrev pub with_datum : Key → Search → Search
with_datum key s = record s {
  entries = (key, record { fields = key; used = true }) ∷ s.entries;
  current = some key;
}

-- The index is looked up by its OID if there is one; otherwise the default tokenizer and normalizers are used. An
-- error of the lookup leaves the datum, without its index, in the hash table and current.
unfoldable pub make_index : Making → Key → Search → Prepared × Search
unfolding delete
make_index created key s = (made, with_datum key s)
make_index refused key s =
    (failed, record s { entries = delete key (with_datum key s).entries; current = none })
make_index index_not_found key s =
    if key.index_oid == 0 then (made, with_datum key s) else (unresolved, with_datum key s)

unfoldable pub make_datum : Making → Key → Search → Prepared × Search
unfolding make_index
make_datum making key s =
    if key.use_index then make_index making key s else (made, with_datum key s)

unfoldable pub find_datum : Making → Key → Search → Prepared × Search
unfolding find use_datum make_datum
find_datum making key s = elim (find key s.entries) [
  | some datum ↦ (reused, record s { entries = use_datum key s.entries; current = some key })
  | none ↦ make_datum making key s
]

unfoldable pub prepare_index : Making → Key → Search → Prepared × Search
unfolding matches find use_datum find_datum
prepare_index making key s = elim s.current [
  | none ↦ find_datum making key s
  | some pointer ↦
      if matches (find pointer s.entries) key
      then (reused, record s { entries = use_datum pointer s.entries })
      else find_datum making key s
]

-- The pointer to a datum that is deleted is reset.
unfoldable pub forget : Key → Option Key → Option Key
unfolding same_key
forget key none = none
forget key (some pointer) = if same_key pointer key then none else some pointer

-- The loop over the entries: what was used is kept once more, what was not is deleted.
unfoldable pub vacuum : Option Key → List (Key × Datum) → Option Key × List (Key × Datum)
unfolding forget
vacuum current [] = (current, [])
vacuum current ((k, datum) ∷ entries) =
    let rest = vacuum (if datum.used then current else forget k current) entries in
    (rest.0, if datum.used then (k, record datum { used = false }) ∷ rest.1 else rest.1)

-- At the end of a transaction; `nExecutions` has 32 bits, and every hundredth call is a vacuum.
unfoldable pub release : Bool → Search → Search
unfolding vacuum
release is_top_level s =
    let n = (s.n_executions + 1) % 2 ^ 32 in
    let kept = vacuum s.current s.entries in
    if not is_top_level
    then s
    else if n % 100 == 0
    then record { entries = kept.1; current = kept.0; n_executions = n }
    else record s { n_executions = n }
