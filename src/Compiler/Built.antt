-- ===== src/Compiler/Built.antt =====
-- What `database_schema_from_ir` builds out of a schema that `validate_schema` lets pass.
pub mod Fields
pub mod Lookups
pub mod Tables
pub mod Schema
pub mod Hashed
