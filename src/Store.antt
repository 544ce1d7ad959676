-- ===== src/Store.antt =====
-- packages/sixpack-store/src: the local store of one workspace.
pub mod Error
pub mod Keys
pub mod Chunk
pub mod Runtime
pub mod Scan
pub mod Unique
pub mod Batch
pub mod Append
pub mod Page
mod Tests
