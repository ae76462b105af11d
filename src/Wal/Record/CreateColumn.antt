-- ===== src/Wal/Record/CreateColumn.antt =====
-- The record of a created column: `PGrnWALRecordCreateColumn` of src/pgrn-wal-custom.h.
use pgroonga.Base.{
  ℕ, ◌^◌, ◌<◌, ◌≡◌, subst, Bytes, ◌++◌, length, take, Option, from_le-to_le_four, arith,
}
use pgroonga.Wal.Raw.{Reader, pure, ◌>>=◌, read_data, refer, read_u32, u32}
use pgroonga.Wal.Raw.Parses.{
  Parses, Parses-bind, Parses-bind_pure, Parses-read_data, Parses-read_u32,
}
use pgroonga.Wal.Raw.Extends.{Extends, extends_rules, Extends-read_u32}
use pgroonga.Wal.Object.{GrnObj, write_grn_obj, read_grn_obj, loaded, IsSmall}
use pgroonga.Wal.Object.Laws.{Parses-grn_obj, Extends-grn_obj}
use pgroonga.Wal.Record.{Common, common_bytes, common_of, word, until_end, IsWords}
use pgroonga.Wal.Record.Laws.{common_of-bytes, Parses-taken}

-- `O` is what a field of type `grn_obj *` holds, as in `CreateTable`.
pub record CreateColumn (O : Type 0) : Type 0 where
  pub common : Common
  pub index_table_space_id : ℕ
  pub table : O
  pub name_size : ℕ
  pub name : Bytes
  pub flags : ℕ
  pub type : O

unfoldable pub fill : {O : Type 0} → Common → ℕ → O → Bytes → ℕ → ℕ → O → CreateColumn O
fill common index_table_space_id table name name_size flags type = record {
  common = common;
  index_table_space_id = index_table_space_id;
  table = table;
  name_size = name_size;
  name = name;
  flags = flags;
  type = type;
}

-- The structure up to the pointer `table`: there is no padding before it.
head_bytes : Common → ℕ → Bytes
head_bytes common index_table_space_id = common_bytes common ++ u32 index_table_space_id

unfoldable pub write : CreateColumn (Option GrnObj) → Bytes
unfolding head_bytes
write r =
    head_bytes r.common r.index_table_space_id
    ++ (write_grn_obj r.table
        ++ (u32 r.name_size ++ (take r.name_size r.name ++ (u32 r.flags ++ write_grn_obj r.type))))

abbrev head_of : Bytes → Common × ℕ
head_of block = (common_of block, word 12 block)

read_head : Reader (Common × ℕ)
read_head = do block ← read_data 16; pure (head_of block)

unfoldable pub fields : Reader (CreateColumn (Option Bytes))
unfolding read_head
fields = do
  head ← read_head
  table ← read_grn_obj
  name_size ← read_u32
  name ← refer name_size
  flags ← read_u32
  type ← read_grn_obj
  pure (record {
    common = head.0;
    index_table_space_id = head.1;
    table = table;
    name_size = name_size;
    name = name;
    flags = flags;
    type = type;
  })

unfoldable pub read : Reader (CreateColumn (Option Bytes))
unfolding fields
read = until_end fields

-- The record with the text of each object in place of the object.
unfoldable pub as_read : CreateColumn (Option GrnObj) → CreateColumn (Option Bytes)
as_read r = record {
  common = r.common;
  index_table_space_id = r.index_table_space_id;
  table = loaded r.table;
  name_size = r.name_size;
  name = r.name;
  flags = r.flags;
  type = loaded r.type;
}

pub record IsFilled (r : CreateColumn (Option GrnObj)) : Type 0 where
  pub words : IsWords r.common
  pub space_fits : r.index_table_space_id < 2 ^ 32
  pub table : IsSmall r.table
  pub name_size : length r.name ≡ r.name_size
  pub name_fits : r.name_size < 2 ^ 32
  pub flags_fit : r.flags < 2 ^ 32
  pub type : IsSmall r.type

head_of-bytes :
    (c : Common) (space : ℕ)
    → IsWords c
    → space < 2 ^ 32
    → head_of (head_bytes c space) ≡ (c, space)
unfolding head_bytes common_bytes
head_of-bytes c space h hs = λ i. (common_of-bytes c (u32 space) h i, from_le-to_le_four space hs i)

Parses-read_head :
    (c : Common) (space : ℕ)
    → IsWords c
    → space < 2 ^ 32
    → Parses read_head (head_bytes c space) (c, space)
unfolding read_head
Parses-read_head c space h hs =
    subst (λ d. Parses read_head (head_bytes c space) d) (head_of-bytes c space h hs)
      (Parses-bind_pure head_of
        (Parses-read_data (head_bytes c space) (unfold head_bytes common_bytes in omega arith)))

pub Parses-fields :
    (r : CreateColumn (Option GrnObj)) → IsFilled r → Parses fields (write r) (as_read r)
unfolding fields write as_read
Parses-fields r h =
    Parses-bind _ (Parses-read_head r.common r.index_table_space_id h.words h.space_fits) (
      Parses-bind _ (Parses-grn_obj r.table h.table) (
        Parses-bind _ (Parses-read_u32 r.name_size h.name_fits) (
          Parses-bind _ (Parses-taken r.name_size r.name h.name_size) (
            Parses-bind _ (Parses-read_u32 r.flags h.flags_fit)
              (Parses-bind_pure _ (Parses-grn_obj r.type h.type))))))

Extends-read_head : Extends read_head
unfolding read_head
Extends-read_head = search extends_rules

pub Extends-fields : Extends fields
unfolding fields
Extends-fields =
    search (extends_rules, Extends-read_head, Extends-read_u32, Extends-grn_obj) depth 18
