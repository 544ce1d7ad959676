-- ===== src/Compiler.antt =====
-- packages/sixpack-schema-compiler/src/lib.rs: the compiled form of a schema and its checks.
pub mod Ir
pub mod Built
pub mod Tests
