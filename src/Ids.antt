-- ===== src/Ids.antt =====
-- Pairs of numbers that are packed into one unsigned 64-bit number: a row's place (src/pgrn-ctid.c), a
-- database with its table space (src/pgrn-database-info.h) and a position of the generic WAL
-- (src/pgrn-index-status.c). The low part is below the shift, so that `|` and `+` agree.
use pgroonga.Base.{ℕ, ◌+◌, ◌*◌, ◌/◌, ◌%◌, ◌^◌, ◌<◌, ◌≡◌, arith}

-- `PGrnCtidPack`
unfoldable pub ctid_pack : ℕ → ℕ → ℕ
ctid_pack block offset = (block * 2 ^ 16) % 2 ^ 64 + offset

-- `PGrnCtidUnpack`
unfoldable pub ctid_unpack : ℕ → ℕ × ℕ
ctid_unpack packed = ((packed / 2 ^ 16) % 2 ^ 32, packed % 2 ^ 16)

-- `PGRN_DATABASE_INFO_PACK`
unfoldable pub database_info_pack : ℕ → ℕ → ℕ
database_info_pack database table_space = ((database * 2 ^ 32) % 2 ^ 64 + table_space) % 2 ^ 64

-- `PGRN_DATABASE_INFO_UNPACK`
unfoldable pub database_info_unpack : ℕ → ℕ × ℕ
database_info_unpack info = (info / 2 ^ 32, info % 2 ^ 32)

-- `PGrnIndexStatusSetWALAppliedPosition`: the number that is stored.
unfoldable pub set_position : ℕ → ℕ → ℕ
set_position block offset = ((block * 2 ^ 32) % 2 ^ 64 + offset) % 2 ^ 64

-- `PGrnIndexStatusGetWALAppliedPosition`: the block is cut to 32 bits, the offset to 16.
unfoldable pub get_position : ℕ → ℕ × ℕ
get_position raw = ((raw / 2 ^ 32) % 2 ^ 32, raw % 2 ^ 16)

pair : {a b c d : ℕ} → a ≡ c → b ≡ d → ◌≡◌ {A = ℕ × ℕ} (a, b) (c, d)
pair p q = cc

-- A block number of 32 bits and an offset of 16 bits come back from a packed ctid.
ctid_unpack-ctid_pack :
    (block offset : ℕ)
    → block < 2 ^ 32
    → offset < 2 ^ 16
    → ctid_unpack (ctid_pack block offset) ≡ (block, offset)
unfolding ctid_unpack ctid_pack
ctid_unpack-ctid_pack block offset hb ho = pair (omega arith) (omega arith)

-- A database and a table space of 32 bits each come back from their packed form.
pub database_info_unpack-database_info_pack :
    (database table_space : ℕ)
    → database < 2 ^ 32
    → table_space < 2 ^ 32
    → database_info_unpack (database_info_pack database table_space) ≡ (database, table_space)
unfolding database_info_unpack database_info_pack
database_info_unpack-database_info_pack database table_space hd ht =
    pair (omega arith) (omega arith)

-- A block number of 32 bits and an offset of 16 bits come back from a stored position.
get_position-set_position :
    (block offset : ℕ)
    → block < 2 ^ 32
    → offset < 2 ^ 16
    → get_position (set_position block offset) ≡ (block, offset)
unfolding get_position set_position
get_position-set_position block offset hb ho = pair (omega arith) (omega arith)
