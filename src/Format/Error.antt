-- ===== src/Format/Error.antt =====
-- packages/sixpack-format/src/format/error.rs, without the variants of the `legacy-jsonl` feature.
use sixpack.Prelude.{ℕ}
use sixpack.Prelude.Text.{Text}
use sixpack.Core.Value.{PrimitiveType}

pub data FormatError : Type 0 where
  -- expected, found
  unsupported_version : ℕ → ℕ → FormatError
  bad_six_column_count : ℕ → ℕ → FormatError
  bad_six_magic : Text → FormatError
  -- the source keeps the standard library's `ParseIntError` here
  bad_six_tx : FormatError
  bad_six_operation : Text → FormatError
  -- field, type, value
  bad_six_value : Text → PrimitiveType → Text → FormatError
  bad_six_escape : Text → FormatError
  bad_six_record : Text → FormatError
  bad_sixb : Text → FormatError
