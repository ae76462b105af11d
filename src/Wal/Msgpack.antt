-- ===== src/Wal/Msgpack.antt =====
-- The objects of MessagePack (`msgpack_object`) and the calls of its packer that src/pgrn-wal.c makes. A
-- negative integer `n` stands for -(n + 1); a float is its bit pattern. `calls` is MessagePack's data
-- model: the calls that describe an object.
use pgroonga.Base.{ℕ, suc, Bool, Bytes, List, [], ◌∷◌, ◌++◌}

mutual
  pub data Msg : Type 0 where
    nil : Msg
    boolean : Bool → Msg
    positive_integer : ℕ → Msg
    negative_integer : ℕ → Msg
    float32 : ℕ → Msg
    float64 : ℕ → Msg
    str : Bytes → Msg
    bin : Bytes → Msg
    ext : ℕ → Bytes → Msg
    array : Items → Msg
    map : Fields → Msg

  pub data Items : Type 0 where
    no_items : Items
    item : Msg → Items → Items

  pub data Fields : Type 0 where
    no_fields : Fields
    field : Msg → Msg → Fields → Fields

-- A string or a binary is packed by two calls, its size and its body, which are one here.
pub data Call : Type 0 where
  pack_nil : Call
  pack_boolean : Bool → Call
  pack_positive : ℕ → Call
  pack_negative : ℕ → Call
  pack_float : ℕ → Call
  pack_double : ℕ → Call
  pack_str : Bytes → Call
  pack_bin : Bytes → Call
  pack_ext : ℕ → Bytes → Call
  pack_array : ℕ → Call
  pack_map : ℕ → Call

abbrev pub items : Items → ℕ
items no_items = 0
items (item m ms) = suc (items ms)

abbrev pub fields : Fields → ℕ
fields no_fields = 0
fields (field k v fs) = suc (fields fs)

unfoldable mutual
  pub calls : Msg → List Call
  calls nil = pack_nil ∷ []
  calls (boolean b) = pack_boolean b ∷ []
  calls (positive_integer n) = pack_positive n ∷ []
  calls (negative_integer n) = pack_negative n ∷ []
  calls (float32 n) = pack_float n ∷ []
  calls (float64 n) = pack_double n ∷ []
  calls (str bytes) = pack_str bytes ∷ []
  calls (bin bytes) = pack_bin bytes ∷ []
  calls (ext type bytes) = pack_ext type bytes ∷ []
  calls (array ms) = pack_array (items ms) ∷ item_calls ms
  calls (map fs) = pack_map (fields fs) ∷ field_calls fs

  pub item_calls : Items → List Call
  item_calls no_items = []
  item_calls (item m ms) = calls m ++ item_calls ms

  pub field_calls : Fields → List Call
  field_calls no_fields = []
  field_calls (field k v fs) = calls k ++ (calls v ++ field_calls fs)
