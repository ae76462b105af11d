-- ===== src/Wal/Record/RemoveObject.antt =====
-- The record of a removed object: `PGrnWALRecordRemoveObject` of src/pgrn-wal-custom.h.
use pgroonga.Base.{ℕ, ◌^◌, ◌<◌, ◌≡◌, Bytes, ◌++◌, length, take}
use pgroonga.Wal.Raw.{Reader, pure, ◌>>=◌, refer, read_u32, u32}
use pgroonga.Wal.Raw.Parses.{Parses, Parses-bind, Parses-bind_pure, Parses-read_u32}
use pgroonga.Wal.Raw.Extends.{Extends, extends_rules, Extends-read_u32}
use pgroonga.Wal.Record.{Common, common_bytes, read_common, until_end, IsWords}
use pgroonga.Wal.Record.Laws.{Parses-read_common, Parses-taken, Extends-read_common}

pub record RemoveObject : Type 0 where
  pub common : Common
  pub name : Bytes
  pub name_size : ℕ

unfoldable pub fill : Common → Bytes → ℕ → RemoveObject
fill common name name_size = record { common = common; name = name; name_size = name_size }

-- `padding` is what lies in memory between the third field and the pointer.
unfoldable pub write : RemoveObject → Bytes → Bytes
write r padding = (common_bytes r.common ++ padding) ++ (u32 r.name_size ++ take r.name_size r.name)

unfoldable pub fields : Reader RemoveObject
fields = do
  common ← read_common 16
  name_size ← read_u32
  name ← refer name_size
  pure (record { common = common; name = name; name_size = name_size })

unfoldable pub read : Reader RemoveObject
unfolding fields
read = until_end fields

-- The size is that of the name, and every number fits its variable.
pub record IsFilled (r : RemoveObject) (padding : Bytes) : Type 0 where
  pub words : IsWords r.common
  pub padded : length padding ≡ 4
  pub name_size : length r.name ≡ r.name_size
  pub name_fits : r.name_size < 2 ^ 32

pub Parses-fields :
    (r : RemoveObject) (padding : Bytes) → IsFilled r padding → Parses fields (write r padding) r
unfolding fields write
Parses-fields r padding h = Parses-bind _ (Parses-read_common r.common padding h.words h.padded) (
    Parses-bind _ (Parses-read_u32 r.name_size h.name_fits)
      (Parses-bind_pure _ (Parses-taken r.name_size r.name h.name_size)))

pub Extends-fields : Extends fields
unfolding fields
Extends-fields = search (extends_rules, Extends-read_u32, Extends-read_common) depth 12
