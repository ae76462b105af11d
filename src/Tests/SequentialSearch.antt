-- ===== src/Tests/SequentialSearch.antt =====
-- A search with a temporary index and one without, with a vacuum between them.
use pgroonga.Base.{◌-◌, ◌^◌, ◌≡◌, refl, true, false, [], ◌∷◌, none, some}
use pgroonga.SequentialSearch.{
  Key, Search, reused, index_not_found, created, prepare_index, release,
}
use pgroonga.SequentialSearch.Laws.{IsValid}
use pgroonga.SequentialSearch.Release.{prepare, finish, run, run-IsValid}

abbrev text_key : Key
text_key = record {
  index_oid = 0;
  attribute_index = 2 ^ 32 - 1;
  texts = false;
  use_index = false;
  search_type = 1;
}

abbrev texts_key : Key
texts_key = record {
  index_oid = 16400;
  attribute_index = 0;
  texts = true;
  use_index = true;
  search_type = 2;
}

-- The next top-level release is the hundredth.
abbrev nothing : Search
nothing = record { entries = []; current = none; n_executions = 99 }

nothing-IsValid : IsValid nothing
nothing-IsValid = (tt, tt)

vacuum_keeps_used :
    (run (prepare created text_key ∷ finish true ∷ []) nothing).current ≡ some text_key
unfolding run prepare_index release
vacuum_keeps_used = refl

-- Behind an error of the lookup, the next search with the key reuses the datum without an index.
lookup_leaves_datum :
    (prepare_index created texts_key (prepare_index index_not_found texts_key nothing).1).0 ≡ reused
unfolding prepare_index
lookup_leaves_datum = refl

run-IsValid_example : IsValid (
    run
      (prepare created text_key ∷ finish true ∷ prepare created texts_key ∷ finish true ∷ [])
      nothing)
run-IsValid_example =
    run-IsValid
      (prepare created text_key ∷ finish true ∷ prepare created texts_key ∷ finish true ∷ [])
      nothing nothing-IsValid
