-- ===== src/Core/Schema.antt =====
-- packages/sixpack-core/src/schema.rs: fields, lookups, tables and databases.
pub mod Table
pub mod Database
pub mod Signature
