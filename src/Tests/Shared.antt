-- ===== src/Tests/Shared.antt =====
-- Packed numbers and the table of the crash safer at concrete databases.
use pgroonga.Base.{ℕ, ◌+◌, ◌%◌, ◌^◌, ◌≡◌, ◌≢◌, refl, ap, false, List, [], ◌∷◌, none, some, arith}
use pgroonga.Ids.{database_info_pack}
use pgroonga.Statuses.{
  Entry, Statuses, find, Operation, set_prepare, using, released, started, stopped, run,
  get_n_using_processes,
}
use pgroonga.Statuses.Laws.{IsOid, IsElsewhere, run-elsewhere}
use pgroonga.Statuses.Count.{run-get_n_using_processes}

-- What a new entry holds in zeroed memory.
abbrev zeroed : Entry
zeroed = record { pid = none; prepare_pid = none; flushing = false; n_using_processes = 0 }

abbrev used_once : Entry
used_once = record { pid = none; prepare_pid = none; flushing = false; n_using_processes = 1 }

-- The key of the database 1 in the table space 2 is 2 ^ 32 + 2.
abbrev in_use : Statuses
in_use = (4294967298, used_once) ∷ []

abbrev operations : List (ℕ × ℕ × Operation)
operations =
    (1, 2, using)
    ∷ (3, 2, using)
    ∷ (3, 2, started)
    ∷ (1, 2, set_prepare (some 77))
    ∷ (1, 2, released)
    ∷ (3, 2, stopped)
    ∷ (1, 2, released)
    ∷ []

in_use_found : find (database_info_pack 1 2) in_use ≡ some used_once
unfolding find database_info_pack
in_use_found = refl

run-get_n_using_processes_example :
    (get_n_using_processes 1 2 (run zeroed operations in_use) + 2) % 2 ^ 32
    ≡ (get_n_using_processes 1 2 in_use + 1) % 2 ^ 32
unfolding IsOid
run-get_n_using_processes_example =
    run-get_n_using_processes zeroed 1 2 operations in_use used_once (omega arith) (omega arith)
      (
        (omega arith, omega arith),
        (
          (omega arith, omega arith),
          (
            (omega arith, omega arith),
            (
              (omega arith, omega arith),
              (
                (omega arith, omega arith),
                ((omega arith, omega arith), ((omega arith, omega arith), tt)),
              ),
            ),
          ),
        ),
      )
      refl in_use_found

run-elsewhere_example :
    find (database_info_pack 1 2) (run zeroed ((3, 2, started) ∷ (3, 2, stopped) ∷ []) in_use)
    ≡ find (database_info_pack 1 2) in_use
unfolding IsOid IsElsewhere
run-elsewhere_example =
    run-elsewhere zeroed 1 2 ((3, 2, started) ∷ (3, 2, stopped) ∷ []) in_use (omega arith)
      (omega arith) ((omega arith, omega arith, differ), ((omega arith, omega arith, differ), tt))
  where
    not_three : ◌≢◌ {A = ℕ} 1 3
    not_three = omega arith

    differ : ◌≢◌ {A = ℕ × ℕ} (1, 2) (3, 2)
    differ e = not_three (ap (λ p. p.0) e)
