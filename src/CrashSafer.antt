-- ===== src/CrashSafer.antt =====
-- The background workers of the crash safer for one database (src/pgroonga-crash-safer.c): Prepare is the worker that
-- resets positions or makes the indexes again, Flush the one that flushes the database.
pub mod Prepare
pub mod Flush
