-- ===== src/Wal/Redo/Server/Laws.antt =====
-- What the databases of a standby hold when it has redone the log that a primary wrote.
use pgroonga.Base.{
  ℕ, ◌+◌, ◌<◌, ◌≡◌, ◌≢◌, refl, sym, ap, ◌∙◌, Bytes, List, [], ◌∷◌, map, Option, none, some, subst,
  All,
}
use pgroonga.Wal.Raw.{Result, ok, err}
use pgroonga.Wal.Value.{Groonga}
use pgroonga.Wal.Redo.{Redo, Written, kind_of, info_of, write}
use pgroonga.Wal.Redo.Codec.{IsFilled, as_read}
use pgroonga.Wal.Redo.Laws.{redo-write}
use pgroonga.Wal.Redo.Calls.{Calls, ◌>>=◌}
use pgroonga.Wal.Redo.Server.{common_of, Server, redo_record, redo_read, redo_bytes, replay}
use pgroonga.Wal.Redo.Server.Own.{IsReady, IsReplay, redo_all, redo_all-IsReplay}

-- One operation of the primary, with the padding of its struct and the low bits of its info byte.
pub record Entry : Type 0 where
  pub written : Written
  pub padding : Bytes
  pub low : ℕ

-- A record is put before the log of the later ones.
abbrev pub logged : ℕ → Result Bytes → Result (List (ℕ × Bytes)) → Result (List (ℕ × Bytes))
logged info (ok bytes) (ok log) = ok ((info, bytes) ∷ log)
logged info (ok bytes) (err e) = err e
logged info (err e) log = err e

bind-same :
    {A B : Type 0} (o : Option A) (f h : A → Option B)
    → ((a : A) → f a ≡ h a)
    → (o >>= f) ≡ (o >>= h)
bind-same none f h same = refl
bind-same (some a) f h same = same a

module _ (g : Groonga) (source_name : ℕ → Option Bytes) where
  -- The operation is filled, and it is on a database.
  abbrev pub IsEntry : Entry → Type 0
  IsEntry e =
      IsFilled g source_name e.written e.padding
      × (e.low < 16)
      × ((common_of (as_read g source_name e.written)).db_id ≢ 0)

  -- What the primary writes to the log.
  unfoldable pub log_of : List Entry → Result (List (ℕ × Bytes))
  log_of [] = ok []
  log_of (e ∷ es) =
      logged (info_of (kind_of e.written) + e.low) (write g source_name e.written e.padding)
        (log_of es)

  abbrev pub reads_of : List Entry → List Redo
  reads_of es = map (λ e. as_read g source_name e.written) es

  module _ {D O C : Type 0} (open_database : D → Option D) (create_database : Option D)
      (calls : ℕ → Calls D O C) where
    -- The log is written, and reading it back is redoing the records.
    replay-reads :
        (es : List Entry)
        → All IsEntry es
        → (log : List (ℕ × Bytes)) × (log_of es ≡ ok log)
          × ((s : Server D)
              → replay open_database create_database calls g log s
                ≡ redo_all open_database create_database calls (reads_of es) s)
    unfolding log_of replay redo_all redo_bytes redo_read
    replay-reads [] fs = ([], refl, λ s. refl)
    replay-reads (e ∷ es) ((filled, low, n), fs) =
        let (log, rest, same) = replay-reads es fs in
        let (bytes, written, read, code) =
          redo-write g source_name e.written e.padding e.low low filled in
        let info = info_of (kind_of e.written) + e.low in
        let r = as_read g source_name e.written in
        let again = replay open_database create_database calls g log in
        (
          (info, bytes) ∷ log,
          ap (λ x. logged info x (log_of es)) written ∙ ap (logged info (ok bytes)) rest,
          λ s.
              ap (λ x. redo_read open_database create_database calls x s >>= again) read
              ∙ bind-same (redo_record open_database create_database calls r s) again
                  (redo_all open_database create_database calls (reads_of es)) same,
        )

  reads_of-IsEntry :
      (es : List Entry) → All IsEntry es → All (λ r. (common_of r).db_id ≢ 0) (reads_of es)
  reads_of-IsEntry [] fs = tt
  reads_of-IsEntry (e ∷ es) ((filled, low, n), fs) = (n, reads_of-IsEntry es fs)

  -- When each operation of a primary is filled as its kind wants, its database is not `InvalidOid`, opening the
  -- files of a database gives what they hold, a new database is empty, and the standby has no database open or
  -- one with files, then the log is written; and redoing the log leaves every database as its own records, in
  -- their order, make it, however the records of other databases lie between them, or redoing fails, and then
  -- the records of one of the databases fail by themselves.
  pub replay-log_of :
      {D O C : Type 0} (open_database : D → Option D) (create_database : Option D)
      (calls : ℕ → Calls D O C) (empty : D)
      → ((d : D) → open_database d ≡ some d)
      → create_database ≡ some empty
      → (es : List Entry) (s : Server D) → All IsEntry es
      → IsReady s
      → (log : List (ℕ × Bytes)) × (log_of es ≡ ok log)
        × IsReplay calls empty (reads_of es) s (replay open_database create_database calls g log s)
  replay-log_of open_database create_database calls empty opens creates es s fs ready =
      let (log, logged, same) = replay-reads open_database create_database calls es fs in
      (
        log,
        logged,
        subst (IsReplay calls empty (reads_of es) s) (sym (same s)) (
            redo_all-IsReplay open_database create_database calls empty opens creates (reads_of es)
              s ready (reads_of-IsEntry es fs)),
      )
