-- ===== src/Format.antt =====
-- packages/sixpack-format/src: the `.6` text format and the `.6b` binary cache.
pub mod Error
pub mod Escape
pub mod Split
pub mod Row
pub mod Operation
pub mod Lines
pub mod Preamble
pub mod Sixb
pub mod Tests
