-- ===== src/Lib.antt =====
-- PGroonga: full text search for PostgreSQL by Groonga, as a C extension (src/*.c, src/*.h).
--
-- The extension is an index access method (src/pgroonga.c) with helpers for texts and names, and with a
-- write-ahead log of its own: the primary writes each change of the Groonga database as a record of a
-- custom WAL resource manager (src/pgrn-wal.c calls the writers of src/pgrn-wal-custom.h), and a standby
-- redoes it (src/pgroonga-wal-resource-manager.c).
--
-- Files:
-- - Base and its children: shared names, Boolean tests, lists measured by native numbers, bytes.
-- - Wal.Raw: the bytes of a record and the primitives PGrnWALRecordRawReadData and
--   PGrnWALRecordRawRefer. A reader is a function from the bytes left to an error or a result with the
--   bytes left. Raw.Parses and Raw.Extends are two predicates of readers, with a rule for each way to
--   build one.
-- - Wal.Object: PGrnWALRecordWriteGrnObj and PGrnWALRecordRawReadGrnObj.
-- - Wal.Value, Wal.Tuple: the values and the rows (PGrnWALRecordInsertWriteColumn*,
--   PGrnWALRecordInsertReadColumn*, PGrnWALTuple).
-- - Wal.Record.*: one module for each record (PGrnWALRecord*Fill, *Write, *Read).
-- - Wal.Redo: the switch of pgrnwrm_redo up to what each redo function has read. Redo.Codec pairs the writers
--   with the readers, Redo.Laws has what is read of whole, cut and extended records. Redo.Calls has the calls
--   of Groonga and the helpers around them (src/pgrn-groonga.h), Redo.Execute what each redo function does
--   with them, Redo.Server the database that is open (pgrnwrm_redo_setup) and the replay of a log.
--   Redo.Server.Own takes each database on its own, Redo.Server.Laws starts from the writers;
--   Redo.Execute.Bulk is about the record of several rows.
-- - Wal.Pages: the generic WAL in the pages of an index (PGrnWALPageWriter and below, src/pgrn-wal.c);
--   Pages.Set are lists as arrays, Pages.Bounds its invariants, Pages.Log and Pages.Appends its content.
-- - Wal.Apply: the applier of the generic WAL (PGrnWALApplyConsume). Apply.Drain is about the unpacker,
--   Apply.Order about the order of the applied objects, Apply.Written about the writer and the applier
--   together; Apply.Needed has PGrnWALApplyNeeded and PGrnWALApply.
-- - Wal.Files: the file of an index from one transaction to the next (PGrnWALStart, PGrnWALFinish) and its
--   truncation (PGrnWALTruncate). Files.Laws keeps it ready for the next transaction, Files.History follows it
--   through any number of both.
-- - Wal.Bulk: a bulk insertion that is split into records (PGrnWALBulkInsertStart, PGrnWALInsertStart,
--   src/pgrn-wal.c); Bulk.Laws is about its rows, Bulk.Bounds about its size.
-- - Wal.Msgpack: MessagePack's objects, and the calls of its packer that describe them.
-- - Wal.Generic: the writers of the generic WAL's records (PGrnWAL*General, PGrnWAL*Generic); Generic.Objects
--   are the objects that their calls describe.
-- - Wal.Decode: PGrnWALApplyObject and the functions below it: Decode.Actions all actions but the insertion,
--   Decode.Insert the insertion, Decode.Object the switch. Decode.Laws, Decode.Values, Decode.Packed,
--   Decode.Rows and Decode.Inserted lead to Decode.Written, the writers against the applier.
-- - Wal.Replicated: the writers, the pages, the applier and PGrnWALApplyObject together.
-- - Escape: the quoted form of a value (PGrnCommandEscapeValue, src/pgrn-command-escape-value.c).
-- - ColumnName: the encoding of a column's name (src/pgrn-column-name.h): ColumnName.RoundTrip reads it back,
--   ColumnName.Bounds is about its size and end, ColumnName.Plain about reserved names.
-- - Ids: numbers that are packed in pairs (src/pgrn-ctid.c, src/pgrn-database-info.h,
--   src/pgrn-index-status.c).
-- - Statuses: the shared table of the crash safer (src/pgrn-crash-safer-statuses.h). Statuses.Laws keeps
--   the databases apart, Statuses.Count counts the processes.
-- - TupleIsAlive: the Groonga procedure pgroonga_tuple_is_alive (src/pgrn-groonga-tuple-is-alive.c), as a
--   function and as a selector; TupleIsAlive.Laws is one against the other.
-- - Strings: texts with variables (src/pgrn-string.c); Strings.Laws is about PGrnStringSubstituteVariables,
--   Strings.Index about PGrnStringSubstituteIndex.
-- - SequentialSearch: the cache of the sequential search (src/pgrn-sequential-search.c); SequentialSearch.Laws
--   is about a preparation, SequentialSearch.Release about the vacuum and any run of both.
-- - Jsonb: the indexing and the search of jsonb values (src/pgrn-jsonb.c). Insert is the loop over the tokens of a
--   value (PGrnJSONBInsertContainer), Paths the paths of its places (PGrnJSONGeneratePath and what adds paths),
--   Values the keys and rows of the table of values (PGrnJSONBInsertValueSet), with what a row holds of its
--   place in Values.Rows, Contain the conditions of the
--   operator @> (PGrnSearchBuildConditionJSONContain). `places` describes what the insertion should find.
-- - Search: the access method's search (src/pgroonga.c). Range is the range search (PGrnIsRangeSearchable,
--   PGrnFillBorder, PGrnRangeSearch), Like the condition of LIKE (PGrnSearchBuildConditionLikeMatch),
--   LikeRegexp that on an index for regular expressions (PGrnSearchBuildConditionLikeRegexp).
-- - CrashSafer: the workers for one database (src/pgroonga-crash-safer.c), which use Statuses. Prepare resets
--   positions or makes the indexes again, Flush is pgroonga_crash_safer_flush_one, from the start to the exit.
-- - Tests: runs at concrete inputs.
--
-- Choices. Memory is that of a 64-bit little-endian machine: the structures are copied up to their first
-- pointer, so that four bytes of padding follow three 32-bit fields. What the padding holds is an argument
-- of the writers. A pointer with its size is a list of bytes and a number; a C integer is its bit pattern.
-- A text in a grn_obj is its bytes, and any other object is the name that Groonga's grn_obj_name gives.
-- What Groonga defines (the ids of its types, which of them are texts, the name of the key column, the
-- names of source columns) is the record Value.Groonga or an argument. ereport(ERROR) is an error value
-- that ends the reading.
--
-- The data pages of the generic WAL are a list of byte lists, and the settings (block size, room of a
-- page, limits) are arguments. PostgreSQL's page calls are taken as documented: P_NEW is the next block,
-- PageInit empties a page. The shared hash table of PostgreSQL is a list of entries by key; what a new
-- entry holds is an argument. MessagePack's unpacker is an argument of the applier, with what it does with
-- whole and with cut objects as hypotheses; the length of a character (grn_charlen) is an argument of the
-- escaping and of the regular expressions.
--
-- Tokens of a jsonb value are a list, as PostgreSQL's iterator gives them. The tables of values and paths
-- are a list of rows by key and a function from a path to its id; XXH64 and grn_text_esc are arguments.
-- The ranks by which Groonga compares values and the table cursor are arguments of the range search. What
-- a background worker sees in a round of its loops (signals, time, files, what other processes do to the
-- shared table) is a list of rounds, and where it ends the worker is still running.
--
-- Loops and fuel: the substitutions of variables in a text have fuel for its bytes; the columns of a row
-- and the elements of a vector are counted by a number in the record, and are read by recursion on that
-- number. The rows of a bulk insert are read until no byte is left; the fuel is one more than the bytes
-- left. The loop of the page writer has fuel for one round per byte, that of the applier over the objects
-- in a page has one more than the buffered bytes; its loop over the blocks is counted by the code. The
-- loop of the escaping has fuel for the bytes of the value, that of the encoding of a column's name for
-- one round more than the largest size, since each round makes the name longer. The loop over a pattern of LIKE has fuel for its
-- bytes. The chain of a temporary
-- table's domains is followed for as many steps as an argument says, the same for the function and the
-- selector.
--
-- The applier of one object ends in the data Command and Change: the calls of Groonga that change its
-- database, with their arguments. The objects and columns of Groonga are types of the model, and the
-- record Decode.Standby holds what is looked up among them. MessagePack's packer is an argument; a string
-- and its body, two calls of it, are one in the model. An integer of C is its bits, a float its bit
-- pattern.
--
-- The Groonga databases of a standby are a function from the database and its table space; what Groonga does
-- is the record Redo.Calls.Calls, one for each encoding, and opening and creating a database are arguments. An
-- error while redoing a record ends the replay. Names hold no NUL byte, and the key of a row in a table
-- without keys is its ctid of eight bytes.
--
-- Not modelled: the locks of the generic WAL and its transactions that are aborted, its status, the
-- expressions of the sequential search, and what Groonga does at a command of the applier or a call of
-- a redo function; the pointer to the sources table that the applier keeps between two objects; the
-- rows and columns of a record that were already set before an error in it; the main worker of the
-- crash safer, the standby maintainer and the WAL applier; the build, the sorting and the other
-- conditions of the access method, and what is found by a cursor; the creation of jsonb tables and
-- their bulk deletion; and all that only calls PostgreSQL or Groonga.
pub mod Base
pub mod Escape
pub mod Search
pub mod Jsonb
pub mod CrashSafer
pub mod Ids
pub mod ColumnName
pub mod TupleIsAlive
pub mod Strings
pub mod SequentialSearch
pub mod Statuses
pub mod Wal
mod Tests
