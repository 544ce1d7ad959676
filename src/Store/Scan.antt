-- ===== src/Store/Scan.antt =====
-- Reading a chunk file: `verify_header`, `scan_six_file`, `raw_six_data_lines` and
-- `max_tx_in_six_file` of packages/sixpack-store/src/store/files.rs, and the loops of
-- `scan_table_files` and `scan_table_source_hash` of store.rs. A file is its bytes; `read_line`
-- fails on bytes that are not UTF-8, and the standard library's check is a parameter.
pub mod Extended
pub mod Written
pub mod Hashed
pub mod Header
pub mod Pointer
mod Tests
use sixpack.Prelude.{
  ℕ, ◌+◌, ◌%◌, ◌^◌, List, [], ◌∷◌, ◌++◌, Bool, true, false, Option, none, some, ◌||◌, length, max,
  if◌then◌else◌,
}
use sixpack.Prelude.Outcome.{
  Outcome, ok, err, ◌>>=◌, ◌>>◌, ensure, Fault, panic, fault, map_err, may_fail,
}
use sixpack.Prelude.Order.{same}
use sixpack.Prelude.Text.{Text, text_ord, codes, is_empty, starts_with}
use sixpack.Prelude.Decimal.{parse_nat, u64_max}
use sixpack.Prelude.Map.{Map, empty, insert, remove}
use sixpack.Core.Value.{FloatText}
use sixpack.Core.Record.{Record}
use sixpack.Core.Schema.Table.{TableSchema}
use sixpack.Hash.{source_hash}
use sixpack.Format.Error.{FormatError}
use sixpack.Format.Escape.{tab}
use sixpack.Format.Lines.{read_lines, trim_line, ends_line}
use sixpack.Format.Preamble.{validate_six_preamble}
use sixpack.Format.Row.{encode_six_header, decode_six_row}
use sixpack.Format.Operation.{
  SixOperationRecord, operation_tx_id, is_six_magic_line, decode_six_operation,
}
use sixpack.Format.Sixb.{RowPointer}
use sixpack.Format.Split.{split_once}
use sixpack.Store.Error.{IoError, io_error, ErrorKind, StoreError}
use sixpack.Store.Keys.{record_id}

pub record ScannedSixEntry (F : Type 0) : Type 0 where
  pub operation : SixOperationRecord F
  pub ptr : RowPointer
  pub raw_line : Text

pub record LiveRow (F : Type 0) : Type 0 where
  pub record_ : Record F
  pub ptr : RowPointer

-- the accumulators of the scan of a table
pub record Scanned (F : Type 0) : Type 0 where
  pub live : Map Text (LiveRow F)
  pub hash_bytes : List ℕ

pub record TableScan (F : Type 0) : Type 0 where
  pub source_hash : Text
  pub live : Map Text (LiveRow F)

abbrev invalid_data : Text → Fault StoreError
invalid_data message = fault (StoreError.io (io_error ErrorKind.invalid_data message))

-- `map_err(format_error_to_io)`
abbrev pub format_error_to_io : Fault FormatError → Fault StoreError
format_error_to_io panic = panic
format_error_to_io (fault e) = fault (StoreError.format e)

-- the part `chunk_name`, 0, line of the hashed bytes
unfoldable pub hashed : Text → Text → List ℕ
hashed chunk_name line = chunk_name ++ (0 ∷ line)

abbrev pub is_operation_line : Text → Bool
is_operation_line s = starts_with s (codes "R\t") || starts_with s (codes "D\t")

-- the lines that both loops pass over first
abbrev pub is_passed_over : Text → Bool
is_passed_over s = is_empty s || is_six_magic_line s || starts_with s (codes "@")

-- the second part of `splitn(3, '\t')`
abbrev second_part : Text × Option Text → Option Text
second_part (tag, none) = none
second_part (tag, some rest) = some (split_once tab rest).0

abbrev max_with : ℕ → Option ℕ → ℕ
max_with n none = n
max_with n (some m) = max n m

abbrev and_then {ℓ κ} : {A : Type ℓ} {B : Type κ} → Option A → (A → Option B) → Option B
and_then none next = none
and_then (some a) next = next a

abbrev pub store_error : {A : Type 0} → Outcome IoError A → Outcome (Fault StoreError) A
store_error m = may_fail (map_err StoreError.io m)

-- the error of a preamble that is not the expected one
abbrev pub bad_preamble : TableSchema → Text → Fault FormatError → Fault StoreError
bad_preamble t actual panic = panic
bad_preamble t actual (fault e) = invalid_data (
    codes "expected .6 header/preamble for `"
    ++ (t.name ++ (codes "`, found `" ++ (actual ++ codes "`"))))

-- the loop over the lines of one file
unfoldable pub hash_lines : Text → List Text → List ℕ → List ℕ
hash_lines chunk_name [] hash_bytes = hash_bytes
hash_lines chunk_name (line ∷ ls) hash_bytes =
    hash_lines chunk_name ls (hash_bytes ++ hashed chunk_name line)

module _ {F : Type 0} where
  abbrev pub pushed :
      Text
      → ℕ
      → Text
      → Option (SixOperationRecord F)
      → List (ScannedSixEntry F)
      → List (ScannedSixEntry F)
  pushed chunk_name offset line none out = out
  pushed chunk_name offset line (some op) out =
      record {
        operation = op;
        -- `len as u32`
        ptr = record {
          chunk_name = chunk_name;
          offset = offset;
          len = length line % 2 ^ 32;
          tx_id = operation_tx_id op;
        };
        raw_line = line;
      }
      ∷ out

module _ {F : Type 0} ⦃float : FloatText F⦄ where
  unfoldable pub apply_live :
      SixOperationRecord F
      → RowPointer
      → Map Text (LiveRow F)
      → Outcome IoError (Map Text (LiveRow F))
  apply_live (SixOperationRecord.put tx r) ptr live = do
    id ← record_id r
    ok (insert id (record { record_ = r; ptr = ptr }) live)
  apply_live (SixOperationRecord.delete tx id) ptr live = ok (remove id live)

  -- the loop over the entries of one file
  unfoldable pub apply_entries :
      Text → List (ScannedSixEntry F) → Scanned F → Outcome (Fault StoreError) (Scanned F)
  apply_entries chunk_name [] acc = ok acc
  apply_entries chunk_name (entry ∷ entries) acc = do
    live ← store_error (apply_live entry.operation entry.ptr acc.live)
    apply_entries chunk_name entries
        (record { live = live; hash_bytes = acc.hash_bytes ++ hashed chunk_name entry.raw_line })

module _ (is_utf8 : Text → Bool) where
  abbrev pub checked : Text → Outcome (Fault StoreError) (Unit {0})
  checked line = ensure (is_utf8 line) (invalid_data (codes "stream did not contain valid UTF-8"))

  -- the loop that reads up to the line `@data`
  unfoldable pub read_preamble : Text → List Text → Outcome (Fault StoreError) Text
  read_preamble preamble [] = err (invalid_data (codes "incomplete .6 preamble"))
  read_preamble preamble (line ∷ ls) = do
    checked line
    let rest = read_preamble (preamble ++ line) ls
    if same (trim_line line) (codes "@data") then ok (preamble ++ line) else rest

  unfoldable pub verify_lines :
      TableSchema → Text → Text → List Text → Outcome (Fault StoreError) (Unit {0})
  verify_lines t schema_hash header ls = do
    checked header
    let actual = trim_line header
    let verified = (do
      preamble ← read_preamble header ls
      map_err (bad_preamble t actual) (validate_six_preamble t schema_hash preamble))
    if same actual (encode_six_header t) then ok tt else verified

  -- of the lines that are read; at the end of the file, `read_line` leaves the header empty
  unfoldable pub verify_read :
      TableSchema → Text → List Text → Outcome (Fault StoreError) (Unit {0})
  verify_read t schema_hash [] = verify_lines t schema_hash [] []
  verify_read t schema_hash (header ∷ ls) = verify_lines t schema_hash header ls

  -- of the bytes of the file at the path
  unfoldable pub verify_header : TableSchema → Text → Text → Outcome (Fault StoreError) (Unit {0})
  verify_header t schema_hash content = verify_read t schema_hash (read_lines content)

  -- the loop of `raw_six_data_lines`
  unfoldable pub raw_lines : TableSchema → List Text → Outcome (Fault StoreError) (List Text)
  raw_lines t [] = ok []
  raw_lines t (line ∷ ls) = do
    checked line
    let rest = raw_lines t ls
    if ends_line line
        then (if is_passed_over (trim_line line) || same (trim_line line) (encode_six_header t)
            then rest
            else (do out ← rest; ok (line ∷ out)))
        else ok []

  unfoldable pub raw_six_data_lines : TableSchema → Text → Outcome (Fault StoreError) (List Text)
  raw_six_data_lines t content = raw_lines t (read_lines content)

  -- the loop of `max_tx_in_six_file`
  unfoldable pub max_tx_lines : ℕ → List Text → Outcome (Fault StoreError) ℕ
  max_tx_lines max_tx [] = ok max_tx
  max_tx_lines max_tx (line ∷ ls) = do
    checked line
    let trimmed = trim_line line
    let tx = and_then (second_part (split_once tab trimmed)) (parse_nat u64_max)
    let with_tx = max_tx_lines (max_with max_tx tx) ls
    let without = max_tx_lines max_tx ls
    if ends_line line then (if is_operation_line trimmed then with_tx else without) else ok max_tx

  unfoldable pub max_tx_in_six_file : Text → Outcome (Fault StoreError) ℕ
  max_tx_in_six_file content = max_tx_lines 0 (read_lines content)

  module _ {F : Type 0} ⦃float : FloatText F⦄ where
    -- a line that is neither empty nor a mark: an operation, the header, or a legacy row
    unfoldable pub scan_data :
        TableSchema → Text → Outcome (Fault StoreError) (Option (SixOperationRecord F))
    scan_data t trimmed =
        if is_operation_line trimmed
        then (do op ← map_err format_error_to_io (decode_six_operation t trimmed); ok (some op))
        else if same trimmed (encode_six_header t)
        then ok none
        else (do
          r ← map_err format_error_to_io (decode_six_row t trimmed)
          ok (some (SixOperationRecord.put 0 r)))

    unfoldable pub scan_line :
        TableSchema → Text → Outcome (Fault StoreError) (Option (SixOperationRecord F))
    scan_line t trimmed = if is_passed_over trimmed then ok none else scan_data t trimmed

    -- the loop of `scan_six_file`
    unfoldable pub scan_lines :
        TableSchema → Text → ℕ → List Text → Outcome (Fault StoreError) (List (ScannedSixEntry F))
    scan_lines t chunk_name offset [] = ok []
    scan_lines t chunk_name offset (line ∷ ls) = do
      checked line
      let rest = scan_lines t chunk_name (offset + length line) ls
      if ends_line line
          then (do
            op ← scan_line t (trim_line line)
            out ← rest
            ok (pushed chunk_name offset line op out))
          else ok []

    unfoldable pub scan_six_file :
        TableSchema → Text → Text → Outcome (Fault StoreError) (List (ScannedSixEntry F))
    scan_six_file t chunk_name content = scan_lines t chunk_name 0 (read_lines content)

    unfoldable pub scan_chunk :
        TableSchema → Text → Text → Text → Scanned F → Outcome (Fault StoreError) (Scanned F)
    scan_chunk t schema_hash chunk_name content acc = do
      verify_header t schema_hash content
      entries ← scan_six_file t chunk_name content
      apply_entries chunk_name entries acc

    -- The files stand in the order of their names and are read from the last to the first, which
    -- is the order that `six_files_in_read_order` makes.
    unfoldable pub scan_chunks :
        TableSchema → Text → Map Text Text → Outcome (Fault StoreError) (Scanned F)
    scan_chunks t schema_hash [] = ok (record { live = empty; hash_bytes = [] })
    scan_chunks t schema_hash ((chunk_name, content) ∷ files) = do
      acc ← scan_chunks t schema_hash files
      scan_chunk t schema_hash chunk_name content acc

    unfoldable pub scan_table_files :
        TableSchema → Text → Map Text Text → Outcome (Fault StoreError) (TableScan F)
    scan_table_files t schema_hash files = do
      acc ← scan_chunks t schema_hash files
      ok (record { source_hash = source_hash acc.hash_bytes; live = acc.live })

  unfoldable pub hash_chunks :
      TableSchema → Text → Map Text Text → Outcome (Fault StoreError) (List ℕ)
  hash_chunks t schema_hash [] = ok []
  hash_chunks t schema_hash ((chunk_name, content) ∷ files) = do
    hash_bytes ← hash_chunks t schema_hash files
    verify_header t schema_hash content
    ls ← raw_six_data_lines t content
    ok (hash_lines chunk_name ls hash_bytes)

  unfoldable pub scan_table_source_hash :
      TableSchema → Text → Map Text Text → Outcome (Fault StoreError) Text
  scan_table_source_hash t schema_hash files = do
    hash_bytes ← hash_chunks t schema_hash files
    ok (source_hash hash_bytes)
