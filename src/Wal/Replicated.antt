-- ===== src/Wal/Replicated.antt =====
-- The generic WAL from the primary to the standby: the writers of the records, the page writer, the applier over the
-- pages and `PGrnWALApplyObject` of src/pgrn-wal.c. `D` stands for the Groonga database of the standby: `standby` is
-- what can be looked up in it, `perform` a change of it. `pack` and `next` stand for MessagePack's packer and unpacker.
use pgroonga.Base.{ℕ, ◌≡◌, Bytes, List, [], ◌∷◌, map, Option, none, some}
use pgroonga.Wal.Msgpack.{Msg, Call, calls}
use pgroonga.Wal.Value.{Groonga}
use pgroonga.Wal.Generic.{Operation, write}
use pgroonga.Wal.Decode.{Decoded, ok, ◌>>=◌, Standby}
use pgroonga.Wal.Decode.Object.{Change, apply_object}
use pgroonga.Wal.Decode.Written.{Means}

-- An error ends the writing.
abbrev and_records : Option (List Call) → Option (List (List Call)) → Option (List (List Call))
and_records none rest = none
and_records (some record_calls) none = none
and_records (some record_calls) (some rest) = some (record_calls ∷ rest)

module _ {O : Type 0} (name_of : O → Bytes) (g : Groonga) (element_size : ℕ → ℕ) where
  -- The records of operations, each finished before the next.
  unfoldable pub write_all : List (Operation O) → Option (List (List Call))
  unfolding write
  write_all [] = some []
  write_all (operation ∷ operations) =
      and_records (write name_of g element_size operation) (write_all operations)

module _ (g : Groonga) {O C D : Type 0} (standby : D → Standby O C)
    (perform : D → Change O C → D) where
  -- The objects are applied one after the other, each to the database that the one before it left.
  unfoldable pub apply_all : D → List Msg → Decoded D
  unfolding apply_object
  apply_all db [] = ok db
  apply_all db (o ∷ os) =
      apply_object g (standby db) o >>= λ change. apply_all (perform db change) os

module _ (g : Groonga) (element_size : ℕ → ℕ) {O C D : Type 0} (standby : D → Standby O C)
    (perform : D → Change O C → D) (name_of : O → Bytes) (column_name_of : C → Bytes) where
  -- The operations lead the standby's database from one state to another, each by the change it means.
  pub data Leads : D → List (Operation O) → D → Type 0 where
    stay : (db : D) → Leads db [] db
    step :
        (db : D) (operation : Operation O) (change : Change O C) (operations : List (Operation O))
        (db' : D)
        → Means g element_size (standby db) name_of column_name_of operation change
        → Leads (perform db change) operations db'
        → Leads db (operation ∷ operations) db'

  record Objects (db : D) (operations : List (Operation O)) (db' : D) : Type 0 where
    msgs : List Msg
    written : write_all name_of g element_size operations ≡ some (map calls msgs)
    applied : apply_all g standby perform db msgs ≡ ok db'
