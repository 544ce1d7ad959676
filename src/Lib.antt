-- ===== src/Lib.antt =====
-- Sixpack: an embedded database that keeps each table of a workspace as an append-only text log.
--
-- A database (packages/sixpack) checks plans against a schema and turns writes into batches of puts
-- and deletes. The store (packages/sixpack-store) appends a batch to the table's `.6` files as
-- operation lines and keeps an index from ids and lookup keys to rows in memory; a `.6b` cache holds
-- that index on disk. The format (packages/sixpack-format) writes and reads both kinds of file, and
-- the core (packages/sixpack-core) has values, names, schemas and records.
--
--   Prelude   the shared helpers: results of fallible and panicking calls (`Outcome`, `Fault`),
--             ordered maps for `BTreeMap` and `BTreeSet`, texts, orders, decimal numbers.
--   Hash      FNV-1a and its hexadecimal digits, which packages/sixpack-core/src/schema.rs,
--             packages/sixpack-format/src/format/sixb.rs and
--             packages/sixpack-store/src/store/files.rs each write out.
--   Core      packages/sixpack-core/src: `Value` (value.rs, type_declarations.rs), `Error`,
--             `Identifier`, `Record`, and `Schema` with tables, databases and signatures (schema.rs).
--   Format    packages/sixpack-format/src/format.rs: `Escape`, `Row`, `Operation`,
--             `Preamble` and `Lines`; and
--             packages/sixpack-format/src/format/sixb.rs: `Sixb`.
--   Store     packages/sixpack-store/src/store: `Keys`, `Chunk` and `Unique` (files.rs), `Batch`
--             (types.rs), `Page` (read.rs), `Runtime` (index.rs), `Scan` (the scans of files.rs and
--             store.rs) and `Append` (append.rs, with the caches of cache.rs as the state of a table).
--   Database  packages/sixpack/src: `Plan` and `Request` (request.rs), `Checks`, `Resolve`
--             and `Execute` (database.rs). `Pages` reads a table through its cursors.
--   Compiler  packages/sixpack-schema-compiler/src/lib.rs: `Ir`, the compiled schema with its check
--             and the database schema that is built from it (`Built`).
--
-- A function of the source keeps its name. A `Result` is an `Outcome`; a call that may also panic
-- returns a `Fault`. A method that changes `self` returns the new value. A text is the list of its
-- UTF-8 bytes: the characters that the code looks for are ASCII, so a walk over bytes meets the
-- same ones as a walk over characters. `usize` has 64 bits. The printer of decimals has fuel for
-- twenty digits, which every `u64` fits, and its round trip is proved for all of those.
--
-- Parameters: the type of `f64` with its printer and parser (`FloatText`), the test for valid
-- UTF-8 in the reader of `.6b` and in `read_line`, and the calls of the store that the database makes (`StoreCalls`).
-- Where the source adds the standard library's own message to an error, the model leaves it out.
--
-- The files of a table are a map from their names to their bytes, and a write to one succeeds.
--
-- Not modelled: failing file systems, failing allocations, the check of the directory layout and
-- of the headers before an append, locks, the sharing of caches between threads, compaction, the
-- metadata file and the revision file, the text form of `.6b`, the tokens,
-- the parser and the emitters of the schema compiler,
-- the command line, the projection to HTML, and the test kit.
pub mod Prelude
pub mod Hash
pub mod Core
pub mod Format
pub mod Store
pub mod Database
pub mod Compiler
