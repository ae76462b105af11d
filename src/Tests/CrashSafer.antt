-- ===== src/Tests/CrashSafer.antt =====
-- The worker that flushes a database at a concrete run.
use pgroonga.Base.{ℕ, ◌≡◌, ◌≢◌, refl, Bool, true, false, List, [], ◌∷◌, none, some, arith}
use pgroonga.Statuses.{Entry, using, released}
use pgroonga.CrashSafer.Flush.{Round, Environment, flush_loop, timeout, is_timed_out}
use pgroonga.CrashSafer.Flush.Laws.{AreTimely, AreSpaced, flush_loop-AreSpaced}

abbrev memory : Entry
memory = record { pid = none; prepare_pid = none; flushing = false; n_using_processes = 0 }

abbrev round : Bool → ℕ → Bool → ℕ → Round
round term now timed_out time = record {
  got_sigterm = term;
  naptime = 60;
  now = now;
  latch_timed_out = timed_out;
  flush_time = time;
  exists = true;
}

-- A signal wakes the worker up, the naptime passes, and then it is told to end.
abbrev rounds : List Round
rounds =
    round false 1000 false 2000
    ∷ (round false 3000 true 60003000 ∷ (round true 60004000 false 60005000 ∷ []))

abbrev environment : Environment
environment = record {
  is_in_recovery = false;
  starts_groonga = true;
  exists = true;
  opens = true;
  recreates = false;
  registers = true;
  prepare_pid = 11;
  schemas = some [];
  applied = true;
  indexes = none;
  reindexed = λ index. true;
  start_time = 500;
  rounds = rounds;
  operations = (5, 7, using) ∷ [];
  waits =
      record { got_sigterm = false; exists = true; operations = [] }
      ∷ (record { got_sigterm = true; exists = true; operations = (5, 7, released) ∷ [] } ∷ []);
  exists_at_end = true;
}

not_true : false ≢ true
not_true e = cc

rounds-AreTimely : AreTimely 60 500 rounds
unfolding is_timed_out timeout
rounds-AreTimely = (
  (omega arith, omega arith, omega arith, λ e. absurd (not_true e)),
  (
    (omega arith, omega arith, omega arith, λ e. omega arith),
    ((omega arith, omega arith, omega arith, λ e. absurd (not_true e)), tt),
  ),
)

flush_loop-AreSpaced_example : AreSpaced 60 500 (flush_loop 500 rounds).0
flush_loop-AreSpaced_example = flush_loop-AreSpaced 60 500 rounds rounds-AreTimely

flush_times : (flush_loop 500 rounds).0 ≡ 60003000 ∷ []
unfolding flush_loop
flush_times = refl
