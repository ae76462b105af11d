-- ===== src/Wal.antt =====
-- The records of the custom WAL resource manager (src/pgrn-wal-custom.h).
pub mod Raw
pub mod Object
pub mod Record
pub mod Value
pub mod Tuple
pub mod Redo
pub mod Bulk
pub mod Msgpack
pub mod Generic
pub mod Decode
pub mod Replicated
pub mod Pages
pub mod Apply
pub mod Files
