-- ===== src/Wal/Redo/Server/Own.antt =====
-- Each database of a standby on its own, beside the server that keeps one of them open.
use pgroonga.Base.{
  ℕ, ◌≡◌, ◌≢◌, refl, sym, ◌∙◌, Bool, true, ◌&&◌, List, [], ◌∷◌, ◌==◌, if◌then◌else◌, Option, none,
  some, arith, ◌⊎◌, inl, inr, Bool-cases, subst, ==-refl, All,
}
use pgroonga.Wal.Record.{Common}
use pgroonga.Wal.Redo.{Redo}
use pgroonga.Wal.Redo.Calls.{Calls, ◌>>=◌}
use pgroonga.Wal.Redo.Execute.{execute}
use pgroonga.Wal.Redo.Server.{common_of, Server, setup, store, changed, redo_record}

-- The record is of the database.
abbrev pub is_of : ℕ → ℕ → Redo → Bool
is_of database table_space r =
    ((common_of r).db_id == database) && ((common_of r).db_table_space_id == table_space)

-- Files of no database stand for an empty database.
abbrev pub database_of : {D : Type 0} → D → Option D → D
database_of empty none = empty
database_of empty (some d) = d

-- No database is open yet (`InvalidOid`), or the current one has files.
abbrev pub IsReady : {D : Type 0} → Server D → Type 0
IsReady {D} s =
    (s.current_database ≡ 0)
    ⊎ ((d : D) × (s.files s.current_database s.current_table_space ≡ some d))

module _ {D O C : Type 0} (calls : ℕ → Calls D O C) (empty : D) where
  -- What one database is to hold: the records of it alone are redone one after the other.
  unfoldable pub own : ℕ → ℕ → List Redo → Option D → Option (Option D)
  own database table_space [] d = some d
  own database table_space (r ∷ rs) d =
      let rest = own database table_space rs d in
      if is_of database table_space r
      then (execute (calls (common_of r).db_encoding) r (database_of empty d) >>= λ d'.
          own database table_space rs (some d'))
      else rest

  -- Each database holds what its own records make of it, or redoing failed on one's own records.
  abbrev pub IsReplay : List Redo → Server D → Option (Server D) → Type 0
  IsReplay rs s none =
      (database : ℕ) × (table_space : ℕ) × (own database table_space rs
          (s.files database table_space)
        ≡ none)
  IsReplay rs s (some s') =
      (database table_space : ℕ)
      → own database table_space rs (s.files database table_space)
        ≡ some (s'.files database table_space)

-- What the equality of both numbers says.
same-both : (a b c d : ℕ) → ((a == b) && (c == d)) ≡ true → (a ≡ b) × (c ≡ d)
same-both a b c d h = ground arith

-- The records one after the other.
module _ {D O C : Type 0} (open_database : D → Option D) (create_database : Option D)
    (calls : ℕ → Calls D O C) where
  unfoldable pub redo_all : List Redo → Server D → Option (Server D)
  unfolding redo_record
  redo_all [] s = some s
  redo_all (r ∷ rs) s = do s' ← redo_record open_database create_database calls r s; redo_all rs s'

module _ {D O C : Type 0} (open_database : D → Option D) (create_database : Option D)
    (calls : ℕ → Calls D O C) (empty : D) (opens : (d : D) → open_database d ≡ some d)
    (creates : create_database ≡ some empty) where
  opened :
      (files : Option D)
      → elim files [ some d ↦ open_database d | none ↦ create_database ]
        ≡ some (database_of empty files)
  opened none = creates
  opened (some d) = opens d

  setup-IsReady :
      (c : Common) (s : Server D)
      → IsReady s
      → c.db_id ≢ 0
      → setup open_database create_database c s
        ≡ some (database_of empty (s.files c.db_id c.db_table_space_id))
  unfolding setup
  setup-IsReady c s ready n =
      elim (Bool-cases
        ((c.db_id == s.current_database) && (c.db_table_space_id == s.current_table_space))) [
          | inl e ↦
              let (p, q) =
                same-both c.db_id s.current_database c.db_table_space_id s.current_table_space e in
              elim ready [ inl z ↦ absurd (n (p ∙ z)) | inr (d, f) ↦ rw (e, p, q, f) ]
          | inr e ↦ rw (e, opened (s.files c.db_id c.db_table_space_id))
        ]

  own-store :
      (r : Redo) (rs : List Redo) (files : ℕ → ℕ → Option D) (d' : D) (database table_space : ℕ)
      → execute
          (calls (common_of r).db_encoding)
          r
          (database_of empty (files (common_of r).db_id (common_of r).db_table_space_id))
        ≡ some d'
      → own calls empty database table_space (r ∷ rs) (files database table_space)
        ≡ own calls empty database table_space rs (
            store (common_of r).db_id (common_of r).db_table_space_id d' files database table_space)
  unfolding own
  own-store r rs files d' database table_space h =
      elim (Bool-cases (is_of database table_space r)) [
        | inl e ↦
            let (p, q) =
              same-both (common_of r).db_id database (common_of r).db_table_space_id table_space
                e in
            rw (e, sym p, sym q, h, p, q)
        | inr e ↦ rw e
      ]

  redo_record-IsReady :
      (r : Redo) (s : Server D)
      → IsReady s
      → (common_of r).db_id ≢ 0
      → redo_record open_database create_database calls r s ≡ (
          execute
            (calls (common_of r).db_encoding)
            r
            (database_of empty (s.files (common_of r).db_id (common_of r).db_table_space_id))
          >>= λ d'. some (changed (common_of r) d' s))
  unfolding redo_record
  redo_record-IsReady r s ready n = rw (setup-IsReady (common_of r) s ready n)

  changed-IsReady : (c : Common) (d : D) (s : Server D) → IsReady (changed c d s)
  changed-IsReady c d s = inr (d, rw (==-refl c.db_id, ==-refl c.db_table_space_id))

  -- When the first record has changed its database, the rest goes on from there.
  carry :
      (r : Redo) (rs : List Redo) (s s1 : Server D) (o : Option (Server D))
      → ((database table_space : ℕ)
          → own calls empty database table_space (r ∷ rs) (s.files database table_space)
            ≡ own calls empty database table_space rs (s1.files database table_space))
      → IsReplay calls empty rs s1 o
      → IsReplay calls empty (r ∷ rs) s o
  carry r rs s s1 none same (database, table_space, e) =
      (database, table_space, same database table_space ∙ e)
  carry r rs s s1 (some s') same f =
      λ database table_space. same database table_space ∙ f database table_space

  step :
      (r : Redo) (rs : List Redo) (s : Server D) (x : Option D)
      → execute
          (calls (common_of r).db_encoding)
          r
          (database_of empty (s.files (common_of r).db_id (common_of r).db_table_space_id))
        ≡ x
      → ((s1 : Server D)
          → IsReady s1
          → IsReplay calls empty rs s1 (redo_all open_database create_database calls rs s1))
      → IsReplay calls empty (r ∷ rs) s (
          (x >>= λ d'. some (changed (common_of r) d' s))
          >>= redo_all open_database create_database calls rs)
  step r rs s none h rest = (
    (common_of r).db_id,
    (common_of r).db_table_space_id,
    unfold own in rw (==-refl (common_of r).db_id, ==-refl (common_of r).db_table_space_id, h),
  )
  step r rs s (some d') h rest =
      let s1 = changed (common_of r) d' s in
      carry r rs s s1 (redo_all open_database create_database calls rs s1)
        (λ database table_space. own-store r rs s.files d' database table_space h)
        (rest s1 (changed-IsReady (common_of r) d' s))

  pub redo_all-IsReplay :
      (rs : List Redo) (s : Server D)
      → IsReady s
      → All (λ r. (common_of r).db_id ≢ 0) rs
      → IsReplay calls empty rs s (redo_all open_database create_database calls rs s)
  unfolding redo_all own
  redo_all-IsReplay [] s ready ns = λ database table_space. refl
  redo_all-IsReplay (r ∷ rs) s ready (n, ns) =
      subst
        (λ o.
          IsReplay calls empty (r ∷ rs) s (o >>= redo_all open_database create_database calls rs))
        (sym (redo_record-IsReady r s ready n))
        (step r rs s
          (execute (calls (common_of r).db_encoding) r
            (database_of empty (s.files (common_of r).db_id (common_of r).db_table_space_id)))
          refl (λ s1 ready1. redo_all-IsReplay rs s1 ready1 ns))
