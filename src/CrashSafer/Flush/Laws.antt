-- ===== src/CrashSafer/Flush/Laws.antt =====
-- How the worker that flushes a database ends, and how often it flushes.
use pgroonga.Base.{
  ℕ, ◌+◌, ◌-◌, ◌*◌, ◌/◌, ◌%◌, ◌^◌, ◌≤◌, ◌<◌, ◌≡◌, Bool, true, false, not, ◌&&◌, ◌||◌, Bool-cases,
  ==_iff, inl, inr, List, [], ◌∷◌, ◌++◌, ◌==◌, if◌then◌else◌, Option, none, some, arith,
}
use pgroonga.Ids.{database_info_pack}
use pgroonga.Statuses.{Entry, Statuses, find}
use pgroonga.CrashSafer.Flush.{
  Round, Wait, Environment, Action, flush, close_database, finished, Outcome, prepare_database,
  timeout, is_timed_out, flush_loop,
}

abbrev pub pid_of : Option Entry → Option ℕ
pid_of none = none
pid_of (some entry) = entry.pid

abbrev pub has_sigterm : List Round → Bool
has_sigterm [] = false
has_sigterm (round ∷ rounds) = round.got_sigterm || has_sigterm rounds

abbrev pub has_end : List Wait → Bool
has_end [] = false
has_end (wait ∷ waits) = (wait.got_sigterm || not wait.exists) || has_end waits

-- A clock that does not go back, a latch that times out only behind its timeout, and a naptime of at least `n` seconds
-- whose milliseconds are an int.
abbrev pub IsTimely : ℕ → ℕ → Round → Type 0
IsTimely n last round =
    (n ≤ round.naptime)
    × (round.naptime * 1000 < 2 ^ 31)
    × (round.now ≤ round.flush_time)
    × (round.latch_timed_out ≡ true → round.now + timeout last round * 1000 ≤ round.flush_time)

-- This holds in each round, with the time of the last flush there.
abbrev pub AreTimely : ℕ → ℕ → List Round → Type 0
AreTimely n last [] = Unit
AreTimely n last (round ∷ rounds) =
    IsTimely n last round
    × AreTimely n (if is_timed_out last round then round.flush_time else last) rounds

abbrev pub AreSpaced : ℕ → ℕ → List ℕ → Type 0
AreSpaced n last [] = Unit
AreSpaced n last (time ∷ times) = (last + n * 1000000 ≤ time) × AreSpaced n time times

timed_out-late :
    (n last : ℕ) (round : Round)
    → IsTimely n last round
    → is_timed_out last round ≡ true
    → last + n * 1000000 ≤ round.flush_time
unfolding is_timed_out timeout
timed_out-late n last round (g, h, i, j) t = elim (Bool-cases round.latch_timed_out) [
  | inl e ↦ let late = j e in omega arith
  | inr e ↦
      let zero : (((last + ((round.naptime * 1000) % 2 ^ 32) * 1000 - round.now + 999) / 1000) == 0)
          ≡ true =
        ground arith in
      let none_left =
        (==_iff ((last + ((round.naptime * 1000) % 2 ^ 32) * 1000 - round.now + 999) / 1000) 0).0
          zero in
      omega arith
]

-- In the first loop, up to the first SIGTERM, one flush and the next are at least the naptime apart, and so are the
-- start of the worker and its first flush; the flush before the close, behind the loops, is not among them. The clock does not go back, and the latch times out only behind its timeout; each naptime
-- is at least `n` seconds, and fewer than 2147484.
pub flush_loop-AreSpaced :
    (n last : ℕ) (rounds : List Round)
    → AreTimely n last rounds
    → AreSpaced n last (flush_loop last rounds).0
unfolding flush_loop
flush_loop-AreSpaced n last [] h = tt
flush_loop-AreSpaced n last (round ∷ rounds) (h, hs) = elim (Bool-cases round.got_sigterm) [
  | inl e ↦ rw e tt
  | inr e ↦ elim (Bool-cases (is_timed_out last round)) [
    | inr early ↦ rw (e, early) (flush_loop-AreSpaced n last rounds (rw early at hs))
    | inl late ↦ elim (Bool-cases round.exists) [
      | inr gone ↦ rw (e, late, gone) tt
      | inl there ↦
          rw (e, late, there)
            (
              timed_out-late n last round h late,
              flush_loop-AreSpaced n round.flush_time rounds (rw late at hs),
            )
    ]
  ]
]

abbrev pub has_database : Environment → Bool
has_database env = env.starts_groonga && (prepare_database env).1

abbrev pub last_actions : Environment → List Action
last_actions env = (if env.exists_at_end then flush ∷ [] else []) ++ (close_database ∷ [])

module _ (memory : Entry) (database table_space : ℕ) where
  -- The worker has ended: its last actions are a flush of what exists and the close, and its entry is gone.
  record HasFinished (env : Environment) (outcome : Outcome) : Type 0 where
    ended : outcome.end ≡ finished
    is_gone : find (database_info_pack database table_space) outcome.statuses ≡ none
    earlier : List Action
    closes : outcome.actions ≡ earlier ++ last_actions env
