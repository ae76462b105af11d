-- ===== src/Wal/Record/CreateTable.antt =====
-- The record of a created table: `PGrnWALRecordCreateTable` of src/pgrn-wal-custom.h.
use pgroonga.Base.{
  ℕ, ◌^◌, ◌<◌, ◌≡◌, subst, Bytes, ◌++◌, length, take, Option, from_le-to_le_four, arith,
}
use pgroonga.Wal.Raw.{Reader, pure, ◌>>=◌, read_data, refer, read_u32, u32}
use pgroonga.Wal.Raw.Parses.{
  Parses, Parses-bind, Parses-bind_pure, Parses-read_data, Parses-read_u32,
}
use pgroonga.Wal.Raw.Extends.{Extends, extends_rules, Extends-read_u32}
use pgroonga.Wal.Object.{GrnObj, write_grn_obj, read_grn_obj, loaded, IsSmall}
use pgroonga.Wal.Object.Laws.{Parses-grn_obj, Extends-grn_obj}
use pgroonga.Wal.Record.{Common, common_bytes, common_of, word, until_end, IsWords}
use pgroonga.Wal.Record.Laws.{common_of-bytes, Parses-taken}

-- `O` is what a field of type `grn_obj *` holds: an object when the record is written, the text
-- found in the record when it is read.
pub record CreateTable (O : Type 0) : Type 0 where
  pub common : Common
  pub index_table_space_id : ℕ
  pub name_size : ℕ
  pub name : Bytes
  pub flags : ℕ
  pub type : O
  pub tokenizer : O
  pub normalizers : O
  pub token_filters : O

unfoldable pub fill : {O : Type 0} → Common → ℕ → Bytes → ℕ → ℕ → O → O → O → O → CreateTable O
fill common index_table_space_id name name_size flags type tokenizer normalizers token_filters =
    record {
      common = common;
      index_table_space_id = index_table_space_id;
      name_size = name_size;
      name = name;
      flags = flags;
      type = type;
      tokenizer = tokenizer;
      normalizers = normalizers;
      token_filters = token_filters;
    }

-- The structure up to the pointer `name`; `padding` is what lies in memory before the pointer.
head_bytes : Common → ℕ → ℕ → Bytes → Bytes
head_bytes common index_table_space_id name_size padding =
    common_bytes common ++ (u32 index_table_space_id ++ (u32 name_size ++ padding))

unfoldable pub write : CreateTable (Option GrnObj) → Bytes → Bytes
unfolding head_bytes
write r padding =
    head_bytes r.common r.index_table_space_id r.name_size padding
    ++ (take r.name_size r.name
        ++ (u32 r.flags
            ++ (write_grn_obj r.type
                ++ (write_grn_obj r.tokenizer
                    ++ (write_grn_obj r.normalizers ++ write_grn_obj r.token_filters)))))

abbrev head_of : Bytes → Common × ℕ × ℕ
head_of block = (common_of block, word 12 block, word 16 block)

read_head : Reader (Common × ℕ × ℕ)
read_head = do block ← read_data 24; pure (head_of block)

unfoldable pub fields : Reader (CreateTable (Option Bytes))
unfolding read_head
fields = do
  head ← read_head
  name ← refer head.2
  flags ← read_u32
  type ← read_grn_obj
  tokenizer ← read_grn_obj
  normalizers ← read_grn_obj
  token_filters ← read_grn_obj
  pure (record {
    common = head.0;
    index_table_space_id = head.1;
    name_size = head.2;
    name = name;
    flags = flags;
    type = type;
    tokenizer = tokenizer;
    normalizers = normalizers;
    token_filters = token_filters;
  })

unfoldable pub read : Reader (CreateTable (Option Bytes))
unfolding fields
read = until_end fields

-- The record with the text of each object in place of the object.
unfoldable pub as_read : CreateTable (Option GrnObj) → CreateTable (Option Bytes)
as_read r = record {
  common = r.common;
  index_table_space_id = r.index_table_space_id;
  name_size = r.name_size;
  name = r.name;
  flags = r.flags;
  type = loaded r.type;
  tokenizer = loaded r.tokenizer;
  normalizers = loaded r.normalizers;
  token_filters = loaded r.token_filters;
}

pub record IsFilled (r : CreateTable (Option GrnObj)) (padding : Bytes) : Type 0 where
  pub words : IsWords r.common
  pub space_fits : r.index_table_space_id < 2 ^ 32
  pub padded : length padding ≡ 4
  pub name_size : length r.name ≡ r.name_size
  pub name_fits : r.name_size < 2 ^ 32
  pub flags_fit : r.flags < 2 ^ 32
  pub type : IsSmall r.type
  pub tokenizer : IsSmall r.tokenizer
  pub normalizers : IsSmall r.normalizers
  pub token_filters : IsSmall r.token_filters

head_of-bytes :
    (c : Common) (space size : ℕ) (padding : Bytes)
    → IsWords c
    → space < 2 ^ 32
    → size < 2 ^ 32
    → head_of (head_bytes c space size padding) ≡ (c, space, size)
unfolding head_bytes common_bytes
head_of-bytes c space size padding h hs hn = λ i. (
  common_of-bytes c (u32 space ++ (u32 size ++ padding)) h i,
  from_le-to_le_four space hs i,
  from_le-to_le_four size hn i,
)

Parses-read_head :
    (c : Common) (space size : ℕ) (padding : Bytes)
    → IsWords c
    → space < 2 ^ 32
    → size < 2 ^ 32
    → length padding ≡ 4
    → Parses read_head (head_bytes c space size padding) (c, space, size)
unfolding read_head
Parses-read_head c space size padding h hs hn e =
    subst (λ d. Parses read_head (head_bytes c space size padding) d)
      (head_of-bytes c space size padding h hs hn)
      (Parses-bind_pure head_of (
        Parses-read_data (head_bytes c space size padding)
          (unfold head_bytes common_bytes in omega arith)))

pub Parses-fields :
    (r : CreateTable (Option GrnObj)) (padding : Bytes)
    → IsFilled r padding
    → Parses fields (write r padding) (as_read r)
unfolding fields write as_read
Parses-fields r padding h =
    Parses-bind _
      (Parses-read_head r.common r.index_table_space_id r.name_size padding h.words h.space_fits
        h.name_fits h.padded)
      (Parses-bind _ (Parses-taken r.name_size r.name h.name_size) (
        Parses-bind _ (Parses-read_u32 r.flags h.flags_fit) (
          Parses-bind _ (Parses-grn_obj r.type h.type) (
            Parses-bind _ (Parses-grn_obj r.tokenizer h.tokenizer) (
              Parses-bind _ (Parses-grn_obj r.normalizers h.normalizers)
                (Parses-bind_pure _ (Parses-grn_obj r.token_filters h.token_filters)))))))

Extends-read_head : Extends read_head
unfolding read_head
Extends-read_head = search extends_rules

pub Extends-fields : Extends fields
unfolding fields
Extends-fields =
    search (extends_rules, Extends-read_head, Extends-read_u32, Extends-grn_obj) depth 18
