-- ===== src/Database.antt =====
-- packages/sixpack/src: plans, their checks, and their execution on a store.
pub mod Plan
pub mod Checks
pub mod Action
pub mod Resolve
pub mod Execute
pub mod Pages
pub mod Shape
pub mod Request
mod Tests
