-- ===== src/Statuses/Count.antt =====
-- The count of the processes that use a database.
use pgroonga.Base.{
  ℕ, ◌+◌, ◌%◌, ◌^◌, ◌≡◌, ◌≢◌, refl, sym, ap, ◌∙◌, subst, Bool, true, false, ◌&&◌, List, All, [],
  ◌∷◌, ◌==◌, ==_iff, Bool-cases, inl, inr, if◌then◌else◌, none, some, arith,
}
use pgroonga.Ids.{database_info_pack}
use pgroonga.Statuses.{
  Entry, Statuses, find, set_prepare_pid, use_database, release, start, stop, get_n_using_processes,
  Operation, set_prepare, using, released, started, stopped, run_one, run,
}
use pgroonga.Statuses.Laws.{run_one_other, key-ne, IsOid, find-modify, change_present}

abbrev pub is_using : Operation → Bool
is_using using = true
is_using op = false

abbrev pub is_released : Operation → Bool
is_released released = true
is_released op = false

abbrev pub is_stopped : Operation → Bool
is_stopped stopped = true
is_stopped op = false

-- One, if an operation is of a kind and on a database in a table space.
abbrev pub one : (Operation → Bool) → ℕ → ℕ → ℕ × ℕ × Operation → ℕ
one kind database table_space (d, s, op) =
    if database == d && table_space == s && kind op then 1 else 0

-- How many operations of a kind are on a database in a table space.
abbrev pub count : (Operation → Bool) → ℕ → ℕ → List (ℕ × ℕ × Operation) → ℕ
count kind database table_space [] = 0
count kind database table_space (operation ∷ operations) =
    one kind database table_space operation + count kind database table_space operations

-- The object ids of an operation have 32 bits.
abbrev pub HasOids : ℕ × ℕ × Operation → Type 0
HasOids (d, s, op) = IsOid d × IsOid s

-- One operation on the database itself, unless it removes the entry.
run_one_here :
    (m : Entry) (d s : ℕ) (op : Operation) (t : Statuses) (e : Entry)
    → find (database_info_pack d s) t ≡ some e
    → is_stopped op ≡ false
    → (e' : Entry) × (find (database_info_pack d s) (run_one m (d, s, op) t) ≡ some e')
      × ((e'.n_using_processes + (if is_released op then 1 else 0)) % 2 ^ 32
          ≡ (e.n_using_processes + (if is_using op then 1 else 0)) % 2 ^ 32)
unfolding run_one set_prepare_pid use_database release start stop
run_one_here m d s (set_prepare pid) t e h go = (_, change_present _ m _ t e h, refl)
run_one_here m d s using t e h go = (_, change_present _ m _ t e h, omega arith)
run_one_here m d s released t e h go = (_, find-modify _ _ t e h, omega arith)
run_one_here m d s started t e h go = (_, change_present _ m _ t e h, refl)
run_one_here m d s stopped t e h go = cc

-- What one operation does to an entry that is there.
abbrev StepOf : Entry → ℕ → ℕ → Statuses → Entry → ℕ × ℕ × Operation → ℕ → ℕ → Type 0
StepOf m database table_space t e operation less more =
    (e' : Entry) × (find (database_info_pack database table_space) (run_one m operation t)
      ≡ some e')
    × ((e'.n_using_processes + less) % 2 ^ 32 ≡ (e.n_using_processes + more) % 2 ^ 32)

differ : (a b : ℕ) → (a == b) ≡ false → a ≢ b
differ a b h = ground arith

is_false :
    (a b c : Bool) → a ≡ true → b ≡ true → ◌≡◌ {A = ℕ} (if a && b && c then 1 else 0) 0 → c ≡ false
is_false a b true ha hb h = ground arith
is_false a b false ha hb h = refl

module _ (m : Entry) (database table_space : ℕ) (t : Statuses) (e : Entry) where
  here :
      (d s : ℕ) (op : Operation)
      → find (database_info_pack database table_space) t ≡ some e
      → database ≡ d
      → table_space ≡ s
      → is_stopped op ≡ false
      → StepOf m database table_space t e
          (d, s, op)
          (if is_released op then 1 else 0)
          (if is_using op then 1 else 0)
  here d s op h pd ps go =
      subst
        (λ d.
          StepOf m database table_space t e (d, s, op) (if is_released op then 1 else 0)
            (if is_using op then 1 else 0))
        pd
        (subst
          (λ s.
            StepOf m database table_space t e (database, s, op) (if is_released op then 1 else 0)
              (if is_using op then 1 else 0))
          ps (run_one_here m database table_space op t e h go))

  elsewhere :
      (d s : ℕ) (op : Operation)
      → find (database_info_pack database table_space) t ≡ some e
      → IsOid database
      → IsOid table_space
      → IsOid d
      → IsOid s
      → ◌≢◌ {A = ℕ × ℕ} (database, table_space) (d, s)
      → StepOf m database table_space t e (d, s, op) 0 0
  elsewhere d s op h hd hs od os ne =
      (e, run_one_other m d s op _ t (key-ne database table_space d s hd hs od os ne) ∙ h, refl)

  step :
      (d s : ℕ) (op : Operation)
      → find (database_info_pack database table_space) t ≡ some e
      → IsOid database
      → IsOid table_space
      → IsOid d
      → IsOid s
      → one is_stopped database table_space (d, s, op) ≡ 0
      → StepOf m database table_space t e
          (d, s, op)
          (one is_released database table_space (d, s, op))
          (one is_using database table_space (d, s, op))
  step d s op h hd hs od os go = elim (Bool-cases (database == d)) [
    | inr n ↦ rw n (elsewhere d s op h hd hs od os (λ e. differ database d n (ap (λ p. p.0) e)))
    | inl y ↦ rw y (elim (Bool-cases (table_space == s)) [
      | inr n ↦
          rw n (elsewhere d s op h hd hs od os (λ e. differ table_space s n (ap (λ p. p.1) e)))
      | inl z ↦ rw z (
          here d s op h ((==_iff database d).0 y) ((==_iff table_space s).0 z)
            (is_false _ _ (is_stopped op) y z go))
    ])
  ]

-- What a list of operations does to an entry that is there, when none removes it.
record Counted (database table_space : ℕ) (operations : List (ℕ × ℕ × Operation)) (before : ℕ)
    (after : Statuses) : Type 0 where
  entry : Entry
  found : find (database_info_pack database table_space) after ≡ some entry
  counted :
      (entry.n_using_processes + count is_released database table_space operations) % 2 ^ 32
      ≡ (before + count is_using database table_space operations) % 2 ^ 32

count-run :
    (m : Entry) (database table_space : ℕ) (operations : List (ℕ × ℕ × Operation)) (t : Statuses)
    (e : Entry)
    → IsOid database
    → IsOid table_space
    → All HasOids operations
    → count is_stopped database table_space operations ≡ 0
    → find (database_info_pack database table_space) t ≡ some e
    → Counted database table_space operations e.n_using_processes (run m operations t)
unfolding run
count-run m database table_space [] t e hd hs all none_stopped h = record {
  entry = e;
  found = h;
  counted = refl;
}
count-run m database table_space ((d, s, op) ∷ operations) t e hd hs ((od, os), all) none_stopped
      h =
    let (e', found, once) = step m database table_space t e d s op h hd hs od os (omega arith) in
    let rest = count-run m database table_space operations _ e' hd hs all (omega arith) found in
    record { entry = rest.entry; found = rest.found; counted = omega (arith, rest.counted, once) }

get_n_found :
    (database table_space : ℕ) (t : Statuses) (e : Entry)
    → find (database_info_pack database table_space) t ≡ some e
    → get_n_using_processes database table_space t ≡ e.n_using_processes
unfolding get_n_using_processes
get_n_found database table_space t e h =
    ap (λ o. elim o [ some entry ↦ entry.n_using_processes | none ↦ 0 ]) h

-- Any operations of any processes on any databases, in any order, among which none stops a database
-- whose entry is there, change its count by the uses less the releases of that database, modulo 2^32;
-- what the processes do to other databases does not matter. The object ids have 32 bits.
pub run-get_n_using_processes :
    (memory : Entry) (database table_space : ℕ) (operations : List (ℕ × ℕ × Operation))
    (statuses : Statuses) (entry : Entry)
    → IsOid database
    → IsOid table_space
    → All HasOids operations
    → count is_stopped database table_space operations ≡ 0
    → find (database_info_pack database table_space) statuses ≡ some entry
    → (get_n_using_processes database table_space (run memory operations statuses)
          + count is_released database table_space operations)
        % 2 ^ 32
      ≡ (get_n_using_processes database table_space statuses
          + count is_using database table_space operations)
        % 2 ^ 32
run-get_n_using_processes m database table_space operations t e hd hs all none_stopped h =
    let c = count-run m database table_space operations t e hd hs all none_stopped h in
    ap (λ n. (n + count is_released database table_space operations) % 2 ^ 32)
      (get_n_found database table_space _ c.entry c.found)
    ∙ c.counted
    ∙ ap (λ n. (n + count is_using database table_space operations) % 2 ^ 32)
        (sym (get_n_found database table_space t e h))
