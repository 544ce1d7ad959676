-- ===== src/Store/Scan/Tests.antt =====
-- A file of the small table: scanned, torn and read back.
use sixpack.Prelude.{
  ℕ, ◌≤◌, [], ◌∷◌, ◌++◌, List, Bool, true, false, ◌≡◌, ◌≢◌, refl, arith, All, take, drop,
}
use sixpack.Prelude.Outcome.{ok, err}
use sixpack.Prelude.Order.{list_cmp, same}
use sixpack.Prelude.Text.{Text, text_ord, codes, starts_with, contains}
use sixpack.Prelude.Decimal.{parse_nat, parse_i64}
use sixpack.Prelude.Map.{Map, get, insert}
use sixpack.Core.Schema.Table.{lookup_specs_with_implicit_id}
use sixpack.Core.Record.{insert_field}
use sixpack.Core.Value.{type_name}
use sixpack.Core.Identifier.{ensure_public_field_name, is_schema_name}
use sixpack.Core.Tests.{users, ada}
use sixpack.Format.Tests.{nat_float}
use sixpack.Format.Escape.{unescape_six_value, escape_six_value, escape_char}
use sixpack.Format.Row.{encode_six_header, decode_six_row, decode_columns, parse_ten_value}
use sixpack.Format.Split.{split, split_once, join}
use sixpack.Format.Lines.{ended, ended_lines, is_complete, read_lines, ends_line, trim_line}
use sixpack.Format.Lines.Cut.{cut}
use sixpack.Format.Operation.{
  SixOperationRecord, decode_six_operation, decode_tagged, is_six_magic_line,
}
use sixpack.Format.Preamble.{
  encode_six_preamble, validate_six_preamble, shape_lines, field_lines, lookup_lines, magic_line,
}
use sixpack.Format.Preamble.Valid.{IsHash, IsInner, validate-encode_six_preamble}
use sixpack.Hash.{source_hash}
use sixpack.Store.Keys.{record_id, value_to_lookup_key}
use sixpack.Format.Sixb.{RowPointer}
use sixpack.Store.Scan.{
  ScannedSixEntry, TableScan, invalid_data, scan_six_file, scan_lines, scan_line, scan_data,
  scan_chunks, scan_chunk, scan_table_files, scan_table_source_hash, verify_header, verify_read,
  verify_lines, apply_entries, apply_live, hashed, is_operation_line,
}
use sixpack.Store.Scan.Header.{AreUtf8, encode_six_preamble-scanned, verify_header-incomplete}
use sixpack.Store.Scan.Hashed.{scan_table_source_hash-scan_table_files}
use sixpack.Store.Scan.Pointer.{
  pop_newline, read_row_pointer, read_row_pointer-ended, read_row_pointer-legacy,
}
use sixpack.Store.Scan.Written.{Written, IsWritten, entries_of, scan_six_file-torn}

abbrev any_text : Text → Bool
any_text s = true

abbrev no_entries : List (ScannedSixEntry ℕ)
no_entries = []

abbrev ada_put : Text
ada_put = codes "R\t7\ta\\t1\t36"

abbrev ada_written : Written ℕ
ada_written = (ada_put, SixOperationRecord.put 7 ada)

ada_put-decodes : decode_six_operation users ada_put ≡ ok (SixOperationRecord.put 7 ada)
unfolding decode_six_operation decode_tagged decode_six_row list_cmp split split_once decode_columns
    get unescape_six_value parse_ten_value insert_field ensure_public_field_name starts_with
    is_schema_name contains parse_nat parse_i64 insert
ada_put-decodes = refl

ada-IsWritten : IsWritten any_text users ada_written
unfolding starts_with
ada-IsWritten = record {
  clean = omega arith;
  tagged = refl;
  decoded = ada_put-decodes;
  utf8 = refl;
}

ada_twice-IsWritten : All (IsWritten any_text users) (ada_written ∷ ada_written ∷ [])
ada_twice-IsWritten = (ada-IsWritten, (ada-IsWritten, tt))

mark_scanned : scan_six_file any_text users (codes "zzz.6") (codes "@data\n") ≡ ok no_entries
unfolding scan_six_file scan_lines scan_line read_lines ends_line trim_line is_six_magic_line
    starts_with
mark_scanned = refl

mark_complete : is_complete (codes "@data\n") ≡ true
unfolding ends_line
mark_complete = refl

-- seventeen bytes of two lines are left
scan_six_file-torn_example :
    (k : ℕ) × (k ≤ 2)
    × (scan_six_file any_text users
          (codes "zzz.6")
          (cut (codes "@data\n" ++ take 17 (ended_lines (ada_put ∷ ada_put ∷ []))))
        ≡ ok (no_entries ++ entries_of (codes "zzz.6") 6 (take k (ada_written ∷ ada_written ∷ []))))
scan_six_file-torn_example =
    scan_six_file-torn any_text users (codes "zzz.6") (codes "@data\n") no_entries
      (ada_written ∷ ada_written ∷ []) 17 mark_complete mark_scanned ada_twice-IsWritten

abbrev zeros : Text
zeros = codes "0000000000000000"

zeros-IsHash : IsHash zeros
zeros-IsHash = record { digits = refl; hex = refl }

abbrev users_preamble : Text
users_preamble =
    codes
      "SIX\t1\ttable\tusers\t0000000000000000\n@field\tid\tid\n@field\tage\tint\n@lookup\tid\tunique\n@lookup\tage\tmany\n@data\n"

users_preamble-made : encode_six_preamble users zeros ≡ ok users_preamble
unfolding encode_six_preamble shape_lines field_lines lookup_lines magic_line ended_lines
    escape_six_value escape_char type_name get list_cmp lookup_specs_with_implicit_id
users_preamble-made = refl

users_preamble-AreUtf8 : AreUtf8 any_text (read_lines users_preamble)
unfolding read_lines
users_preamble-AreUtf8 = (refl, (refl, (refl, (refl, (refl, (refl, tt))))))

validate-encode_six_preamble_example :
    validate_six_preamble users (codes "00000000000000ff") users_preamble ≡ ok tt
validate-encode_six_preamble_example =
    validate-encode_six_preamble users zeros (codes "00000000000000ff") users_preamble zeros-IsHash
      (record { digits = refl; hex = refl }) users_preamble-made

encode_six_preamble-scanned_example :
    (verify_header any_text users zeros users_preamble ≡ ok tt)
    × (is_complete users_preamble ≡ true)
    × (scan_six_file any_text users (codes "zzz.6") users_preamble ≡ ok no_entries)
encode_six_preamble-scanned_example =
    encode_six_preamble-scanned any_text users zeros zeros users_preamble (codes "zzz.6")
      zeros-IsHash zeros-IsHash users_preamble-made users_preamble-AreUtf8

abbrev id_line : Text
id_line = codes "@field\tid\tid"

id_line-IsInner : IsInner id_line
unfolding starts_with list_cmp
id_line-IsInner = record { mark = record { clean = omega arith; marked = refl }; inner = refl }

other_header : same (magic_line users zeros) (encode_six_header users) ≡ false
unfolding magic_line encode_six_header list_cmp join escape_six_value escape_char
other_header = refl

verify_header-incomplete_example :
    verify_header any_text users zeros (ended_lines (magic_line users zeros ∷ id_line ∷ []))
    ≡ err (invalid_data (codes "incomplete .6 preamble"))
verify_header-incomplete_example =
    verify_header-incomplete any_text users zeros zeros (id_line ∷ []) zeros-IsHash
      (id_line-IsInner, tt) (refl, (refl, tt)) other_header

abbrev users_file : Map Text Text
users_file = (codes "zzz.6", codes "id\tage\nR\t7\ta\\t1\t36\n") ∷ []

read_row_pointer-ended_example :
    read_row_pointer any_text users
      (codes "id\tage\n" ++ (ended ada_put ++ []))
      (record { chunk_name = codes "zzz.6"; offset = 7; len = 12; tx_id = 7 })
    ≡ ok ada
read_row_pointer-ended_example =
    read_row_pointer-ended any_text users (codes "id\tage\n") ada_put [] (codes "zzz.6") 7 7 ada
      (omega arith) (omega arith) refl ada_put-decodes

abbrev legacy_pointer : RowPointer
legacy_pointer = record { chunk_name = codes "zzz.6"; offset = 7; len = 5; tx_id = 0 }

legacy-untagged :
    is_operation_line (pop_newline (take 5 (drop 7 (codes "id\tage\nb\t36\n")))) ≡ false
unfolding pop_newline starts_with
legacy-untagged = refl

-- the legacy row `b 36` behind the legacy header
read_row_pointer-legacy_example :
    read_row_pointer any_text users (codes "id\tage\nb\t36\n") legacy_pointer ≢ ok ada
read_row_pointer-legacy_example =
    read_row_pointer-legacy any_text users (codes "id\tage\nb\t36\n") legacy_pointer ada
      legacy-untagged

abbrev users_scan : TableScan ℕ
users_scan = record {
  source_hash = source_hash (codes "zzz.6" ++ (0 ∷ ended ada_put));
  live =
      (
        codes "a\t1",
        record {
          record_ = ada;
          ptr = record { chunk_name = codes "zzz.6"; offset = 7; len = 12; tx_id = 7 };
        },
      )
      ∷ [];
}

users_file-scanned : scan_table_files any_text users zeros users_file ≡ ok users_scan
unfolding scan_table_files scan_chunks scan_chunk verify_header verify_read verify_lines
    scan_six_file scan_lines scan_line scan_data apply_entries apply_live hashed record_id
    value_to_lookup_key read_lines ends_line trim_line is_six_magic_line encode_six_header join
    decode_six_operation decode_tagged decode_six_row list_cmp split split_once decode_columns get
    unescape_six_value parse_ten_value insert_field ensure_public_field_name starts_with
    is_schema_name contains parse_nat parse_i64 insert
users_file-scanned = refl

users-header : is_operation_line (encode_six_header users) ≡ false
unfolding encode_six_header join starts_with
users-header = refl

scan_table_source_hash-scan_table_files_example :
    scan_table_source_hash any_text users zeros users_file ≡ ok users_scan.source_hash
scan_table_source_hash-scan_table_files_example =
    scan_table_source_hash-scan_table_files any_text users zeros users_file users_scan users-header
      users_file-scanned
