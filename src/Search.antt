-- ===== src/Search.antt =====
-- The search of the access method (src/pgroonga.c): the children model how the keys of a scan become borders
-- of a table cursor, and how the pattern of LIKE becomes a condition.
pub mod Range
pub mod Like
pub mod LikeRegexp
