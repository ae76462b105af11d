-- ===== src/Statuses/Laws.antt =====
-- The table of the crash safer keeps the databases apart, and counts the processes that use each.
use pgroonga.Base.{
  ℕ, ◌^◌, ◌<◌, ◌≡◌, ◌≢◌, refl, sym, ap, ◌∙◌, false, List, All, [], ◌∷◌, ◌==◌, Option, none, some,
  arith,
}
use pgroonga.Ids.{database_info_pack, database_info_unpack, database_info_unpack-database_info_pack}
use pgroonga.Statuses.{
  Entry, Statuses, find, modify, enter, remove, set_prepare_pid, use_database, release, start, stop,
  Operation, set_prepare, using, released, started, stopped, run_one, run,
}

-- ---- the hash table

==_false : (a b : ℕ) → a ≢ b → (a == b) ≡ false
==_false a b ne = ground arith

pub find-modify :
    (f : Entry → Entry) (key : ℕ) (t : Statuses) (e : Entry)
    → find key t ≡ some e
    → find key (modify f key t) ≡ some (f e)
unfolding find modify
find-modify f key [] e h = cc
find-modify f key ((k, x) ∷ t) e h = ground (arith, find-modify f key t e)

find-modify_other :
    (f : Entry → Entry) (key other : ℕ) (t : Statuses)
    → other ≢ key
    → find other (modify f key t) ≡ find other t
unfolding find modify
find-modify_other f key other [] ne = refl
find-modify_other f key other ((k, x) ∷ t) ne = ground (arith, find-modify_other f key other t ne)

find-remove_other :
    (key other : ℕ) (t : Statuses) → other ≢ key → find other (remove key t) ≡ find other t
unfolding find remove
find-remove_other key other [] ne = refl
find-remove_other key other ((k, x) ∷ t) ne = ground (arith, find-remove_other key other t ne)

find-enter_other :
    (m : Entry) (key other : ℕ) (t : Statuses)
    → other ≢ key
    → find other (enter m key t) ≡ find other t
unfolding enter find
find-enter_other m key other t ne = from (find key t)
  where
    from :
        (o : Option Entry)
        → find other (elim o [
          | some entry ↦ t
          | none ↦ (key, record m { pid = none; prepare_pid = none }) ∷ t
        ])
          ≡ find other t
    from (some e) = refl
    from none = rw (==_false other key ne) refl

enter_present :
    (m : Entry) (key : ℕ) (t : Statuses) (e : Entry) → find key t ≡ some e → enter m key t ≡ t
unfolding enter
enter_present m key t e h =
    ap
      (λ o. elim o [
        | some entry ↦ t
        | none ↦ (key, record m { pid = none; prepare_pid = none }) ∷ t
      ])
      h

-- A change of an entry that is made if it is not there leaves the other entries.
change_other :
    (f : Entry → Entry) (m : Entry) (key other : ℕ) (t : Statuses)
    → other ≢ key
    → find other (modify f key (enter m key t)) ≡ find other t
change_other f m key other t ne =
    find-modify_other f key other (enter m key t) ne ∙ find-enter_other m key other t ne

pub change_present :
    (f : Entry → Entry) (m : Entry) (key : ℕ) (t : Statuses) (e : Entry)
    → find key t ≡ some e
    → find key (modify f key (enter m key t)) ≡ some (f e)
change_present f m key t e h =
    find-modify f key (enter m key t) e (ap (find key) (enter_present m key t e h) ∙ h)

-- ---- the databases

pub run_one_other :
    (m : Entry) (database table_space : ℕ) (op : Operation) (other : ℕ) (t : Statuses)
    → other ≢ database_info_pack database table_space
    → find other (run_one m (database, table_space, op) t) ≡ find other t
unfolding run_one set_prepare_pid use_database release start stop
run_one_other m database table_space (set_prepare pid) other t ne = change_other _ m _ other t ne
run_one_other m database table_space using other t ne = change_other _ m _ other t ne
run_one_other m database table_space released other t ne = find-modify_other _ _ other t ne
run_one_other m database table_space started other t ne = change_other _ m _ other t ne
run_one_other m database table_space stopped other t ne = find-remove_other _ other t ne

-- Object ids have 32 bits.
unfoldable pub IsOid : ℕ → Type 0
IsOid id = id < 2 ^ 32

pub key-ne :
    (d s d' s' : ℕ)
    → IsOid d
    → IsOid s
    → IsOid d'
    → IsOid s'
    → ◌≢◌ {A = ℕ × ℕ} (d, s) (d', s')
    → database_info_pack d s ≢ database_info_pack d' s'
unfolding IsOid
key-ne d s d' s' hd hs hd' hs' ne e = ne (
    sym (database_info_unpack-database_info_pack d s hd hs)
    ∙ ap database_info_unpack e
    ∙ database_info_unpack-database_info_pack d' s' hd' hs')

-- An operation is on a database and a table space other than these.
unfoldable pub IsElsewhere : ℕ → ℕ → ℕ × ℕ × Operation → Type 0
IsElsewhere database table_space (d, s, op) =
    IsOid d × IsOid s × ◌≢◌ {A = ℕ × ℕ} (database, table_space) (d, s)

-- Operations on other databases, in any number and order, leave the entry of a database as it is: its
-- processes, its flag and its count. The object ids have 32 bits.
pub run-elsewhere :
    (memory : Entry) (database table_space : ℕ) (operations : List (ℕ × ℕ × Operation))
    (statuses : Statuses)
    → IsOid database
    → IsOid table_space
    → All (IsElsewhere database table_space) operations
    → find (database_info_pack database table_space) (run memory operations statuses)
      ≡ find (database_info_pack database table_space) statuses
unfolding run IsElsewhere
run-elsewhere m database table_space [] t hd hs all = refl
run-elsewhere m database table_space ((d, s, op) ∷ operations) t hd hs ((od, os, ne), all) =
    run-elsewhere m database table_space operations (run_one m (d, s, op) t) hd hs all
    ∙ run_one_other m d s op (database_info_pack database table_space) t
        (key-ne database table_space d s hd hs od os ne)
