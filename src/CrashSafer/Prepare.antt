-- ===== src/CrashSafer/Prepare.antt =====
-- `pgroonga_crash_safer_reset_position_one` and `pgroonga_crash_safer_reindex_one`: the statements that are run by
-- SPI, and the process id in the shared table. The results of the statements are arguments.
use pgroonga.Base.{ℕ, Bool, true, false, Bytes, List, [], ◌∷◌, if◌then◌else◌, Option, none, some}
use pgroonga.Statuses.{Entry, Statuses, set_prepare_pid}

pub data Statement : Type 0 where
  find_function : Statement
  set_applied_position : Bytes → Statement
  find_indexes : Statement
  log_reindexing : Bytes → Statement
  reindex : Bytes → Statement
  log_reindexed : Bytes → Statement

-- What a worker ran, and whether it ended without a FATAL error.
pub record Prepared : Type 0 where
  pub statements : List Statement
  pub is_done : Bool

-- `schemas` are those of pgroonga_wal_set_applied_position(), `none` a failure to look for them.
unfoldable pub reset_position : Option (List Bytes) → Bool → Prepared
reset_position none applied = record { statements = find_function ∷ []; is_done = false }
reset_position (some []) applied = record { statements = find_function ∷ []; is_done = true }
reset_position (some (schema ∷ schemas)) applied = record {
  statements = find_function ∷ (set_applied_position schema ∷ []);
  is_done = applied;
}

-- The second loop, over the names that are not null; `reindexed` tells how REINDEX ends.
unfoldable pub reindex_each : (Bytes → Bool) → List (Option Bytes) → Prepared
reindex_each reindexed [] = record { statements = []; is_done = true }
reindex_each reindexed (none ∷ names) = reindex_each reindexed names
reindex_each reindexed (some name ∷ names) =
    let rest = reindex_each reindexed names in
    if reindexed name
    then record {
      statements = log_reindexing name ∷ (reindex name ∷ (log_reindexed name ∷ rest.statements));
      is_done = rest.is_done;
    }
    else record { statements = log_reindexing name ∷ (reindex name ∷ []); is_done = false }

unfoldable pub reindex_all : Option (List (Option Bytes)) → (Bytes → Bool) → Prepared
unfolding reindex_each
reindex_all none reindexed = record { statements = find_indexes ∷ []; is_done = false }
reindex_all (some names) reindexed =
    let each = reindex_each reindexed names in
    record { statements = find_indexes ∷ each.statements; is_done = each.is_done }

-- The shared table while a worker runs, and behind `pgroonga_crash_safer_prepare_one_on_exit`, however it ends.
unfoldable pub preparing : Entry → ℕ → ℕ → ℕ → Statuses → Statuses
unfolding set_prepare_pid
preparing memory pid database table_space statuses =
    set_prepare_pid memory database table_space (some pid) statuses

unfoldable pub prepared : Entry → ℕ → ℕ → ℕ → Statuses → Statuses
unfolding preparing set_prepare_pid
prepared memory pid database table_space statuses =
    set_prepare_pid memory database table_space none
      (preparing memory pid database table_space statuses)
