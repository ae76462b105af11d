-- ===== src/Wal/Decode/Inserted.antt =====
-- The record of an inserted row: `PGrnWALInsert*` of src/pgrn-wal.c against `PGrnWALApplyInsert`.
use pgroonga.Base.{
  arith, ℕ, suc, ◌+◌, ◌≡◌, refl, sym, ap, Bytes, codes, List, All, [], ◌∷◌, length, Option, none,
  some, false, bytes_eq,
}
use pgroonga.Wal.Msgpack
use pgroonga.Wal.Msgpack.{Msg, Fields, str, bin, no_fields, field, fields, calls, field_calls}
use pgroonga.Wal.Value.{Groonga}
use pgroonga.Wal.Tuple.{Value, Column, key}
use pgroonga.Wal.Generic.{Operation, Action, number_of, write, pack_columns}
use pgroonga.Wal.Decode.{Decoded, ok, ◌>>=◌, Standby, key_equal, get_object, get_binary}
use pgroonga.Wal.Decode.Insert.{insert_table, apply_insert, head_entry, apply_columns}
use pgroonga.Wal.Decode.Object.{inserted, read_action, apply_object}
use pgroonga.Wal.Decode.Laws.{IsKnown, get_object-msg}
use pgroonga.Wal.Decode.Rows.{IsOther, IsColumnOf, columns_of, stored_row, row-PackedRow}

-- A column's name is none of the keys with which a record may start.
abbrev pub IsPlain : Bytes → Type 0
IsPlain name =
    (bytes_eq name (codes "_action") ≡ false)
    × (bytes_eq name (codes "_table") ≡ false)
    × (bytes_eq name (codes "_key") ≡ false)

-- The columns of a row, behind its key if it has one.
abbrev pub row_columns : {C : Type 0} → (C → Bytes) → Option Bytes → List (C × Value) → List Column
row_columns column_name_of none row = columns_of column_name_of row
row_columns column_name_of (some k) row = key k ∷ columns_of column_name_of row

module _ {C : Type 0} (column_name_of : C → Bytes) where
  no_action :
      (row : List (C × Value))
      → All (λ c. IsPlain (column_name_of c.0)) row
      → All (λ c. bytes_eq (column_name_of c.0) (codes "_action") ≡ false) row
  no_action [] all = all
  no_action (c ∷ row) (plain, all) = (plain.0, no_action row all)

  no_table :
      (row : List (C × Value))
      → All (λ c. IsPlain (column_name_of c.0)) row
      → All (λ c. bytes_eq (column_name_of c.0) (codes "_table") ≡ false) row
  no_table [] all = all
  no_table (c ∷ row) (plain, all) = (plain.1, no_table row all)

  no_key :
      (row : List (C × Value))
      → All (λ c. IsPlain (column_name_of c.0)) row
      → All (λ c. bytes_eq (column_name_of c.0) (codes "_key") ≡ false) row
  no_key [] all = all
  no_key (c ∷ row) (plain, all) = (plain.2, no_key row all)

read_action-IsOther :
    (fs : Fields) → IsOther (codes "_action") fs → read_action fs ≡ ok (number_of Action.insert, fs)
unfolding read_action
read_action-IsOther no_fields h = refl
read_action-IsOther (field k v fs) h = rw h refl

module _ (g : Groonga) (element_size : ℕ → ℕ) {O C : Type 0} (s : Standby O C) where
  head_entry-IsOther :
      {A : Type 0} (name : Bytes) (get : Msg → Decoded (Option A)) (fs : Fields)
      → IsOther name fs
      → head_entry g s name get fs ≡ ok (none, fs)
  unfolding head_entry
  head_entry-IsOther name get no_fields h = refl
  head_entry-IsOther name get (field k v fs) h = rw h refl

  abbrev key_of : Msg → Decoded (Option Bytes)
  key_of v = get_binary v >>= λ b. ok (some b)

  module _ (name_of : O → Bytes) (column_name_of : C → Bytes) where
    -- The entries of a row behind its table.
    record PackedColumns (target : O) (k : Option Bytes) (row : List (C × Value)) : Type 0 where
      msgs : Fields
      rest : Fields
      packed :
          pack_columns g element_size (row_columns column_name_of k row) ≡ some (field_calls msgs)
      count : fields msgs ≡ length (row_columns column_name_of k row)
      actionless : IsOther (codes "_action") msgs
      tableless : IsOther (codes "_table") msgs
      keyed : head_entry g s g.key_name key_of msgs ≡ ok (k, rest)
      stored : apply_columns g s target rest ≡ ok (stored_row g element_size s row)

    columns-PackedColumns :
        (target : O) (k : Option Bytes) (row : List (C × Value))
        → g.key_name ≡ codes "_key"
        → All (λ c. IsPlain (column_name_of c.0)) row
        → All (IsColumnOf g element_size s column_name_of target) row
        → PackedColumns target k row
    unfolding pack_columns head_entry key_equal calls get_binary
    columns-PackedColumns target none row e plain all =
        let p = row-PackedRow g element_size s column_name_of target row all in
        record {
          msgs = p.msgs;
          rest = p.msgs;
          packed = p.packed;
          count = p.count;
          actionless = p.starts (codes "_action") (no_action column_name_of row plain);
          tableless = p.starts (codes "_table") (no_table column_name_of row plain);
          keyed = rw e (
              head_entry-IsOther (codes "_key") key_of p.msgs
                (p.starts (codes "_key") (no_key column_name_of row plain)));
          stored = p.stored;
        }
    columns-PackedColumns target (some k) row e plain all =
        let p = row-PackedRow g element_size s column_name_of target row all in
        record {
          msgs = field (str g.key_name) (bin k) p.msgs;
          rest = p.msgs;
          packed = rw p.packed refl;
          count = ap suc p.count;
          actionless = rw e refl;
          tableless = rw e refl;
          keyed = rw e refl;
          stored = p.stored;
        }

    same_table : (t target : O) → insert_table g s (some t) ≡ ok target → t ≡ target
    unfolding insert_table
    same_table t target found = cc

    add_one : (n : ℕ) → n + 1 ≡ suc n
    add_one n = omega arith

    pub apply_object-insert :
        (table : Option O) (target : O) (k : Option Bytes) (row : List (C × Value))
        → g.key_name ≡ codes "_key"
        → IsKnown s name_of table
        → insert_table g s table ≡ ok target
        → All (λ c. IsPlain (column_name_of c.0)) row
        → All (IsColumnOf g element_size s column_name_of target) row
        → (o : Msg) × (write name_of g element_size
              (Operation.insert table (row_columns column_name_of k row))
            ≡ some (calls o))
          × (apply_object g s o ≡ ok (inserted (target, k, stored_row g element_size s row)))
    unfolding write apply_object apply_insert calls key_equal
    apply_object-insert none target k row e known found plain all =
        let p = columns-PackedColumns target k row e plain all in
        (
          Msgpack.map p.msgs,
          rw (p.packed, p.count) refl,
          rw (read_action-IsOther p.msgs p.actionless) (
              rw (head_entry-IsOther (codes "_table") (get_object s) p.msgs p.tableless)
                (rw found (rw p.keyed (rw p.stored refl)))),
        )
    apply_object-insert (some t) target k row e known found plain all =
        let p = columns-PackedColumns target k row e plain all in
        (
          Msgpack.map (field (str (codes "_table")) (str (name_of t)) p.msgs),
          rw (p.packed, sym p.count)
              (ap
                (λ n. some (
                  Msgpack.pack_map n
                  ∷ Msgpack.pack_str (codes "_table")
                  ∷ Msgpack.pack_str (name_of t)
                  ∷ field_calls p.msgs))
                (add_one (fields p.msgs))),
          simp (get_object-msg s name_of (some t) known, p.keyed)
              (rw (same_table t target found) (rw p.stored refl)),
        )
