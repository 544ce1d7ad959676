-- ===== src/Core.antt =====
-- packages/sixpack-core/src: the data model, its names, schemas, records and errors.
pub mod Value
pub mod Error
pub mod Identifier
pub mod Record
pub mod Tests
pub mod Schema
