-- ===== src/Wal/Object.antt =====
-- Groonga objects in WAL records: `PGrnWALRecordWriteGrnObj` and `PGrnWALRecordRawReadGrnObj` of
-- src/pgrn-wal-custom.h. A bulk of text is written as its text, any other object as its name, which
-- Groonga's `grn_obj_name` gives; the size is an int32, negative where there is no object.
pub mod Laws
use pgroonga.Base.{
  ℕ, ◌-◌, ◌^◌, ◌<◌, ◌≡◌, Bytes, ◌++◌, length, leb, if◌then◌else◌, Option, none, some,
}
use pgroonga.Wal.Raw.{Reader, pure, ◌>>=◌, refer, read_u32, u32}

pub data GrnObj : Type 0 where
  text_bulk : Bytes → GrnObj
  named : Bytes → GrnObj

-- What stands for the object in the record.
abbrev pub text_of : GrnObj → Bytes
text_of (text_bulk value) = value
text_of (named name) = name

unfoldable pub write_grn_obj : Option GrnObj → Bytes
write_grn_obj (some (text_bulk value)) = u32 (length value) ++ value
write_grn_obj (some (named name)) = u32 (length name) ++ name
write_grn_obj none = u32 (2 ^ 32 - 1)

-- `none` is the void object that a negative size gives.
unfoldable pub read_value : ℕ → Reader (Option Bytes)
read_value size = if leb (2 ^ 31) size then pure none else do value ← refer size; pure (some value)

unfoldable pub read_grn_obj : Reader (Option Bytes)
read_grn_obj = do size ← read_u32; read_value size

abbrev pub loaded : Option GrnObj → Option Bytes
loaded none = none
loaded (some object) = some (text_of object)

-- The size of the object fits its int32.
abbrev pub IsSmall : Option GrnObj → Type 0
IsSmall none = Unit
IsSmall (some object) = length (text_of object) < 2 ^ 31
