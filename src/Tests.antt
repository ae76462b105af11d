-- ===== src/Tests.antt =====
-- Runs of the model at concrete inputs, and the theorems at inputs that meet their conditions.
mod Wal
mod Pages
mod Shared
mod Apply
mod Files
mod Escape
mod Codec
mod Replicated
mod Bulk
mod Redo
mod ColumnName
mod TupleIsAlive
mod Strings
mod SequentialSearch
mod Jsonb
mod Search
mod LikeRegexp
mod CrashSafer
