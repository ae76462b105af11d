-- ===== src/CrashSafer/Flush.antt =====
-- `pgroonga_crash_safer_flush_one`: the worker that flushes one database. What the calls outside the source answer is
-- the record `Environment`; a round of a loop has the signals, the time and the files that it sees, and what other
-- processes have done to the shared table meanwhile. Times are in microseconds.
pub mod Laws
use pgroonga.Base.{
  ℕ, ◌+◌, ◌-◌, ◌*◌, ◌/◌, ◌%◌, ◌^◌, Bool, true, false, not, ◌&&◌, ◌||◌, Bytes, List, [], ◌∷◌, ◌++◌,
  map, ◌==◌, if◌then◌else◌, Option, none, some,
}
use pgroonga.Ids.{database_info_pack}
use pgroonga.Statuses.{Entry, Statuses, Operation, modify, run, start, stop, get_n_using_processes}
use pgroonga.CrashSafer.Prepare.{Prepared, prepared, reset_position, reindex_all}

pub record Round : Type 0 where
  pub got_sigterm : Bool
  pub naptime : ℕ
  pub now : ℕ
  pub latch_timed_out : Bool
  pub flush_time : ℕ
  pub exists : Bool

pub record Wait : Type 0 where
  pub got_sigterm : Bool
  pub exists : Bool
  pub operations : List (ℕ × ℕ × Operation)

pub record Environment : Type 0 where
  pub is_in_recovery : Bool
  pub starts_groonga : Bool
  pub exists : Bool
  pub opens : Bool
  pub recreates : Bool
  pub registers : Bool
  pub prepare_pid : ℕ
  pub schemas : Option (List Bytes)
  pub applied : Bool
  pub indexes : Option (List (Option Bytes))
  pub reindexed : Bytes → Bool
  pub start_time : ℕ
  pub rounds : List Round
  pub operations : List (ℕ × ℕ × Operation)
  pub waits : List Wait
  pub exists_at_end : Bool

pub data Action : Type 0 where
  open_database : Action
  create_database : Action
  remove_files : Action
  run_reindex : Prepared → Action
  run_reset_position : Prepared → Action
  flush : Action
  close_database : Action

-- How the worker stands when its rounds are used up.
pub data End : Type 0 where
  failed : End
  is_running : End
  finished : End

pub record Outcome : Type 0 where
  pub actions : List Action
  pub statuses : Statuses
  pub end : End

-- The database is opened or made, and made again where this fails: what is done, whether there is a database, and
-- whether the indexes have to be made again.
unfoldable pub prepare_database : Environment → List Action × Bool × Bool
prepare_database env =
    let first = if env.exists then open_database else create_database in
    if env.opens
    then (first ∷ [], true, false)
    else (first ∷ (remove_files ∷ (create_database ∷ [])), env.recreates, true)

-- The milliseconds until the next flush, in an int, and the wait for it.
unfoldable pub timeout : ℕ → Round → ℕ
timeout last round =
    let next = last + ((round.naptime * 1000) % 2 ^ 32) * 1000 in (next - round.now + 999) / 1000

unfoldable pub is_timed_out : ℕ → Round → Bool
unfolding timeout
is_timed_out last round = (timeout last round == 0) || round.latch_timed_out

-- The first loop: the times of its flushes, and whether it has ended.
unfoldable pub flush_loop : ℕ → List Round → List ℕ × Bool
unfolding is_timed_out
flush_loop last [] = ([], false)
flush_loop last (round ∷ rounds) =
    let next = flush_loop round.flush_time rounds in
    let same = flush_loop last rounds in
    if round.got_sigterm
    then ([], true)
    else if not (is_timed_out last round)
    then same
    else if not round.exists
    then ([], true)
    else (round.flush_time ∷ next.0, next.1)

-- The second loop, until no process uses the database.
unfoldable pub wait_loop : Entry → ℕ → ℕ → List Wait → Statuses → Statuses × Bool
wait_loop memory database table_space [] statuses = (statuses, false)
wait_loop memory database table_space (wait ∷ waits) statuses =
    let seen = run memory wait.operations statuses in
    let rest = wait_loop memory database table_space waits seen in
    if wait.got_sigterm || not wait.exists
    then (seen, true)
    else if get_n_using_processes database table_space seen == 0
    then (seen, true)
    else rest

-- `pgroonga_crash_safer_flush_one_remove_pid_on_exit`
unfoldable pub remove_pid : ℕ → ℕ → Statuses → Statuses
unfolding modify
remove_pid database table_space statuses =
    modify (λ entry. record entry { pid = none }) (database_info_pack database table_space) statuses

-- The callbacks at an exit behind the start of the flushing, in the order in which they are called.
unfoldable pub exit_started : ℕ → ℕ → Statuses → Statuses
unfolding remove_pid
exit_started database table_space statuses =
    remove_pid database table_space (stop database table_space statuses)

unfoldable pub flush_at : ℕ → Action
flush_at time = flush

-- The function of the worker that prepares the database.
unfoldable pub preparation : Environment → Bool → Action
preparation env true = run_reindex (reindex_all env.indexes env.reindexed)
preparation env false = run_reset_position (reset_position env.schemas env.applied)

module _ (memory : Entry) (database table_space : ℕ) where
  unfoldable pub close_all : Environment → List Action → Statuses → Outcome
  unfolding exit_started
  close_all env actions statuses = record {
    actions = actions ++ ((if env.exists_at_end then flush ∷ [] else []) ++ (close_database ∷ []));
    statuses = exit_started database table_space statuses;
    end = finished;
  }

  unfoldable pub wait_and_close : Environment → List Action → Statuses → Outcome
  unfolding close_all
  wait_and_close env actions statuses =
      let waited = wait_loop memory database table_space env.waits statuses in
      if waited.1
      then close_all env actions waited.0
      else record { actions = actions; statuses = waited.0; end = is_running }

  unfoldable pub flush_and_wait : Environment → List Action → Statuses → Outcome
  unfolding wait_and_close flush_at
  flush_and_wait env actions statuses =
      let started = run memory env.operations (start memory database table_space statuses) in
      let flushed = flush_loop env.start_time env.rounds in
      let all_actions = actions ++ map flush_at flushed.0 in
      if flushed.1
      then wait_and_close env all_actions started
      else record { actions = all_actions; statuses = started; end = is_running }

  -- The worker that prepares the database, on the primary or where the database was made again.
  unfoldable pub prepare_and_flush : Environment → List Action → Bool → Statuses → Outcome
  unfolding flush_and_wait preparation
  prepare_and_flush env actions need_reindex statuses =
      if (need_reindex || not env.is_in_recovery) && env.registers
      then flush_and_wait env (actions ++ preparation env need_reindex ∷ [])
          (prepared memory env.prepare_pid database table_space statuses)
      else flush_and_wait env actions statuses

  unfoldable pub flush_one : Environment → Statuses → Outcome
  unfolding prepare_database prepare_and_flush remove_pid
  flush_one env statuses =
      let opened = prepare_database env in
      if not env.starts_groonga
      then record {
        actions = [];
        statuses = remove_pid database table_space statuses;
        end = failed;
      }
      else if not (opened.1)
      then record {
        actions = opened.0;
        statuses = remove_pid database table_space statuses;
        end = failed;
      }
      else prepare_and_flush env opened.0 opened.2 statuses
