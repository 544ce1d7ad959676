-- ===== src/Store/Error.antt =====
-- `std::io::Error` as the store raises it: a kind and a message.
use sixpack.Prelude.Text.{Text}
use sixpack.Hash.{BadHash}
use sixpack.Format.Error.{FormatError}

pub data ErrorKind : Type 0 where
  invalid_data invalid_input already_exists not_found : ErrorKind

pub record IoError : Type 0 where
  pub kind : ErrorKind
  pub message : Text

abbrev pub io_error : ErrorKind → Text → IoError
io_error kind message = record { kind = kind; message = message }

-- An error of the store; a format error as `format_error_to_io` passes it on, invalid data with its
-- text; or the invalid data that is a source hash which cannot be read.
pub data StoreError : Type 0 where
  io : IoError → StoreError
  format : FormatError → StoreError
  hash : BadHash → StoreError
