-- ===== src/Wal/Decode/Object.antt =====
-- `PGrnWALApplyObject` of src/pgrn-wal.c: the action of a record, and the switch on it.
use pgroonga.Base.{ℕ, ◌%◌, ◌^◌, Bytes, codes, List, ◌==◌, if◌then◌else◌, Option}
use pgroonga.Wal.Msgpack.{Msg, Fields, map, no_fields, field}
use pgroonga.Wal.Value.{Groonga}
use pgroonga.Wal.Generic.{Action, number_of}
use pgroonga.Wal.Decode.{
  Decoded, ok, failed, wrong_type, unexpected_action, ◌>>=◌, key_equal, get_positive_integer,
  Standby,
}
use pgroonga.Wal.Decode.Actions.{
  Command, apply_create_table, apply_create_column, apply_set_sources, apply_rename_table,
  apply_delete, apply_remove_object, apply_register_plugin,
}
use pgroonga.Wal.Decode.Insert.{Stored, apply_insert}

-- A change of the database: a row with its key and columns, or a command.
pub data Change (O C : Type 0) : Type 0 where
  inserted : O × Option Bytes × List (C × Stored) → Change O C
  changed : Command O → Change O C

-- The action, if the map starts with it, and the rest; an insertion otherwise. The variable is an
-- enumeration of 32 bits.
unfoldable pub read_action : Fields → Decoded (ℕ × Fields)
unfolding number_of
read_action no_fields = ok (number_of Action.insert, no_fields)
read_action (field k v fs) = key_equal k (codes "_action") >>= λ same.
    if same
    then (get_positive_integer v >>= λ n. ok (n % 2 ^ 32, fs))
    else ok (number_of Action.insert, field k v fs)

module _ (g : Groonga) {O C : Type 0} (s : Standby O C) where
  abbrev pub as_change : Decoded (Command O) → Decoded (Change O C)
  as_change d = d >>= λ c. ok (changed c)

  unfoldable pub apply_action : ℕ → Fields → Decoded (Change O C)
  unfolding number_of apply_insert apply_create_table apply_create_column apply_set_sources
      apply_rename_table apply_delete apply_remove_object apply_register_plugin
  apply_action action fs =
      if action == number_of Action.insert
      then (apply_insert g s fs >>= λ row. ok (inserted row))
      else if action == number_of Action.create_table
      then as_change (apply_create_table s fs)
      else if action == number_of Action.create_column
      then as_change (apply_create_column s fs)
      else if action == number_of Action.set_sources
      then as_change (apply_set_sources s fs)
      else if action == number_of Action.rename_table
      then as_change (apply_rename_table s fs)
      else if action == number_of Action.delete
      then as_change (apply_delete s fs)
      else if action == number_of Action.remove_object
      then as_change (apply_remove_object s fs)
      else if action == number_of Action.register_plugin
      then as_change (apply_register_plugin s fs)
      else failed (unexpected_action action)

  unfoldable pub apply_object : Msg → Decoded (Change O C)
  unfolding read_action apply_action
  apply_object (map fs) = read_action fs >>= λ r. apply_action r.0 r.1
  apply_object _ = failed wrong_type
