-- ===== src/Statuses.antt =====
-- The shared table of the crash safer (src/pgrn-crash-safer-statuses.h): for each database, who works on it
-- and how many processes use it. PostgreSQL's shared hash table is a list of entries by their key. What
-- an entry that was just made holds before the code sets it is an argument, `memory`, of the operations
-- that make one. `InvalidPid` is `none`.
pub mod Laws
pub mod Count
use pgroonga.Base.{
  ℕ, ◌+◌, ◌-◌, ◌%◌, ◌^◌, Bool, true, false, List, [], ◌∷◌, ◌==◌, if◌then◌else◌, Option, none, some,
}
use pgroonga.Ids.{database_info_pack}

pub record Entry : Type 0 where
  pub pid : Option ℕ
  pub prepare_pid : Option ℕ
  pub flushing : Bool
  pub n_using_processes : ℕ

abbrev pub Statuses : Type 0
Statuses = List (ℕ × Entry)

-- `HASH_FIND`
unfoldable pub find : ℕ → Statuses → Option Entry
find key [] = none
find key ((k, entry) ∷ statuses) = if key == k then some entry else find key statuses

-- A change of the entry that is found; nothing, where there is none.
unfoldable pub modify : (Entry → Entry) → ℕ → Statuses → Statuses
modify f key [] = []
modify f key ((k, entry) ∷ statuses) =
    if key == k then (k, f entry) ∷ statuses else (k, entry) ∷ modify f key statuses

-- `HASH_ENTER`, and the process ids of an entry that was not there.
unfoldable pub enter : Entry → ℕ → Statuses → Statuses
unfolding find
enter memory key statuses = elim (find key statuses) [
  | some entry ↦ statuses
  | none ↦ (key, record memory { pid = none; prepare_pid = none }) ∷ statuses
]

-- `HASH_REMOVE`
unfoldable pub remove : ℕ → Statuses → Statuses
remove key [] = []
remove key ((k, entry) ∷ statuses) =
    let rest = remove key statuses in if key == k then rest else (k, entry) ∷ rest

-- `pgrn_crash_safer_statuses_set_main_pid`: the entry of no database.
unfoldable pub set_main_pid : Entry → Option ℕ → Statuses → Statuses
unfolding enter modify
set_main_pid memory pid statuses =
    modify (λ entry. record entry { pid = pid }) (database_info_pack 0 0)
      (enter memory (database_info_pack 0 0) statuses)

unfoldable pub get_main_pid : Statuses → Option ℕ
unfolding find
get_main_pid statuses = elim (find (database_info_pack 0 0) statuses) [
  | some entry ↦ entry.pid
  | none ↦ none
]

unfoldable pub set_prepare_pid : Entry → ℕ → ℕ → Option ℕ → Statuses → Statuses
unfolding enter modify
set_prepare_pid memory database table_space pid statuses =
    modify (λ entry. record entry { prepare_pid = pid }) (database_info_pack database table_space)
      (enter memory (database_info_pack database table_space) statuses)

unfoldable pub get_prepare_pid : ℕ → ℕ → Statuses → Option ℕ
unfolding find
get_prepare_pid database table_space statuses =
    elim (find (database_info_pack database table_space) statuses) [
      | some entry ↦ entry.prepare_pid
      | none ↦ none
    ]

-- The count is an atomic integer of 32 bits.
unfoldable pub use_database : Entry → ℕ → ℕ → Statuses → Statuses
unfolding enter modify
use_database memory database table_space statuses =
    modify (λ entry. record entry { n_using_processes = (entry.n_using_processes + 1) % 2 ^ 32 })
      (database_info_pack database table_space)
      (enter memory (database_info_pack database table_space) statuses)

-- The process that is sent SIGUSR1, if any: when the last user of the database leaves.
unfoldable pub signalled : ℕ → ℕ → Statuses → Option ℕ
unfolding find
signalled database table_space statuses =
    elim (find (database_info_pack database table_space) statuses) [
      | some entry ↦ if entry.n_using_processes == 1 then entry.pid else none
      | none ↦ none
    ]

-- `pgrn_crash_safer_statuses_release`: the table, and who is signalled.
unfoldable pub release : ℕ → ℕ → Statuses → Statuses × Option ℕ
unfolding modify signalled
release database table_space statuses = (
  modify
      (λ entry. record entry {
        n_using_processes = (entry.n_using_processes + (2 ^ 32 - 1)) % 2 ^ 32;
      })
      (database_info_pack database table_space) statuses,
  signalled database table_space statuses,
)

unfoldable pub get_n_using_processes : ℕ → ℕ → Statuses → ℕ
unfolding find
get_n_using_processes database table_space statuses =
    elim (find (database_info_pack database table_space) statuses) [
      | some entry ↦ entry.n_using_processes
      | none ↦ 0
    ]

unfoldable pub start : Entry → ℕ → ℕ → Statuses → Statuses
unfolding enter modify
start memory database table_space statuses =
    modify (λ entry. record entry { flushing = true }) (database_info_pack database table_space)
      (enter memory (database_info_pack database table_space) statuses)

unfoldable pub stop : ℕ → ℕ → Statuses → Statuses
unfolding remove
stop database table_space statuses = remove (database_info_pack database table_space) statuses

unfoldable pub is_flushing : ℕ → ℕ → Statuses → Bool
unfolding find
is_flushing database table_space statuses =
    elim (find (database_info_pack database table_space) statuses) [
      | some entry ↦ entry.flushing
      | none ↦ false
    ]

unfoldable pub is_preparing : ℕ → ℕ → Statuses → Bool
unfolding find
is_preparing database table_space statuses =
    elim (find (database_info_pack database table_space) statuses) [
      | some entry ↦ elim entry.prepare_pid [ some pid ↦ true | none ↦ false ]
      | none ↦ false
    ]

-- What the processes do to the table, on a database in a table space.
pub data Operation : Type 0 where
  set_prepare : Option ℕ → Operation
  using : Operation
  released : Operation
  started : Operation
  stopped : Operation

-- One operation; `memory` is what a new entry holds.
unfoldable pub run_one : Entry → ℕ × ℕ × Operation → Statuses → Statuses
unfolding set_prepare_pid use_database release start stop
run_one memory (database, table_space, set_prepare pid) statuses =
    set_prepare_pid memory database table_space pid statuses
run_one memory (database, table_space, using) statuses =
    use_database memory database table_space statuses
run_one memory (database, table_space, released) statuses =
    (release database table_space statuses).0
run_one memory (database, table_space, started) statuses =
    start memory database table_space statuses
run_one memory (database, table_space, stopped) statuses = stop database table_space statuses

unfoldable pub run : Entry → List (ℕ × ℕ × Operation) → Statuses → Statuses
unfolding run_one
run memory [] statuses = statuses
run memory (operation ∷ operations) statuses =
    run memory operations (run_one memory operation statuses)
