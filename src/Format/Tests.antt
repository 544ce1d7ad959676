-- ===== src/Format/Tests.antt =====
-- The row, the operation lines and the cache of a small table, and the format's theorems on them.
use sixpack.Prelude.{
  ◌≢◌, ℕ, ◌^◌, ◌<◌, ◌++◌, true, [], ◌∷◌, some, ◌≡◌, refl, arith, length, if◌then◌else◌, List,
}
use sixpack.Prelude.Outcome.{ok, err, panic, fault}
use sixpack.Prelude.Order.{list_cmp}
use sixpack.Prelude.Text.{Text, text_ord, codes, is_empty, starts_with, contains}
use sixpack.Prelude.Decimal.{print_nat, parse_nat, parse_i64, u64_max}
use sixpack.Prelude.Map.{get, insert, get-cons, get-nil}
use sixpack.Prelude.Map.Sorted.{IsSorted}
use sixpack.Core.Value.{Value, FloatText}
use sixpack.Core.Schema.Database.Conforms.{Conforms}
use sixpack.Core.Tests.{
  users, ada, ada_age, ada_id, users-IsAdmissible, users-IsValid, ada-IsSorted, ada-Conforms,
}
use sixpack.Hash.{source_hash, extend_source_hash}
use sixpack.Hash.Extend.{extend_source_hash-source_hash}
use sixpack.Format.Error.{bad_sixb, bad_six_column_count}
use sixpack.Format.Escape.{escape_six_value, unescape_six_value, tab}
use sixpack.Format.Escape.Laws.{IsCell, unescape-escape, escape-unescape}
use sixpack.Format.Row.{encode_six_row, decode_six_row, decode_columns, parse_ten_value}
use sixpack.Format.Split.{split}
use sixpack.Core.Record.{insert_field}
use sixpack.Core.Identifier.{ensure_public_field_name, is_schema_name}
use sixpack.Format.Row.Columns.{Readable}
use sixpack.Format.Row.RoundTrip.{IsLine, decode-encode_six_row}
use sixpack.Format.Row.Total.{decode_six_row_total}
use sixpack.Format.Row.Sound.{decode_six_row-Conforms}
use sixpack.Format.Operation.{
  Operation, SixOperationRecord, encode_six_operation, decode_six_operation,
}
use sixpack.Format.Operation.RoundTrip.{decode-encode_put, decode-encode_delete}
use sixpack.Format.Sixb.{
  SixbCache, le_bytes, write_string, write_all, write_row, write_lookup, encode_sixb_cache,
  sixb_binary_version,
}
use sixpack.Format.Sixb.Reader.{decode_sixb_cache_binary}
use sixpack.Format.Sixb.RoundTrip.{IsStorable, decode-encode_sixb_cache}

-- "floats" that are naturals, to have values to evaluate
instance abbrev pub nat_float : FloatText ℕ
nat_float = record { print = print_nat; parse = parse_nat u64_max }

pub ada-Readable : (n : Text) (v : Value ℕ) → get n ada.fields ≡ some v → Readable v
ada-Readable n v h = ground (
  arith,
  get-cons (codes "age") n ada_age ((codes "id", ada_id) ∷ []),
  get-cons (codes "id") n ada_id [],
  get-nil {V = Value ℕ} n,
)

decode-encode_six_row_example :
    (line : Text) × (encode_six_row users ada ≡ ok line)
    × IsLine line
    × (decode_six_row users line ≡ ok ada)
decode-encode_six_row_example =
    decode-encode_six_row users ada users-IsAdmissible refl ada-IsSorted ada-Conforms ada-Readable

decode-encode_put_example :
    (line : Text) × (encode_six_operation users Operation.put 7 ada ≡ ok line)
    × IsLine line
    × (decode_six_operation users line ≡ ok (SixOperationRecord.put 7 ada))
decode-encode_put_example =
    decode-encode_put users 7 ada (omega arith) users-IsAdmissible refl ada-IsSorted ada-Conforms
      ada-Readable

ada-id : get (codes "id") ada.fields ≡ some (Value.id (codes "a\t1"))
unfolding get list_cmp
ada-id = refl

decode-encode_delete_example :
    (line : Text) × (encode_six_operation users Operation.delete 8 ada ≡ ok line)
    × IsLine line
    × (decode_six_operation {F = ℕ} users line ≡ ok (SixOperationRecord.delete 8 (codes "a\t1")))
decode-encode_delete_example = decode-encode_delete users 8 ada (codes "a\t1") (omega arith) ada-id

-- the two cells of a row of `users`, as they stand in a file
abbrev ada_line : Text
ada_line = codes "a\\t1\t36"

ada_line-decodes : decode_six_row users ada_line ≡ ok ada
unfolding decode_six_row list_cmp split decode_columns get unescape_six_value parse_ten_value
    insert_field ensure_public_field_name starts_with is_schema_name contains parse_i64 insert
ada_line-decodes = refl

decode_six_row-Conforms_example :
    (ada.table ≡ users.name) × IsSorted ada.fields × Conforms users ada
decode_six_row-Conforms_example =
    decode_six_row-Conforms users ada_line users-IsValid ada_line-decodes

-- a line of one cell, for a table of two fields
decode_six_row_total_example :
    (decode_six_row {F = ℕ} users (codes "36") ≢ err panic)
    × (length (split tab (codes "36")) ≢ length users.field_order
        → decode_six_row {F = ℕ} users (codes "36")
          ≡ err (
              fault (
                bad_six_column_count (length users.field_order) (length (split tab (codes "36"))))))
decode_six_row_total_example = decode_six_row_total users (codes "36") users-IsValid

unescape-escape_example :
    (unescape_six_value (escape_six_value (codes "a\tb\\")) ≡ ok (codes "a\tb\\"))
    × IsCell (escape_six_value (codes "a\tb\\"))
unescape-escape_example = unescape-escape (codes "a\tb\\")

a_tab : unescape_six_value (codes "a\\tb") ≡ ok (codes "a\tb")
unfolding unescape_six_value
a_tab = refl

a_tab-IsCell : IsCell (codes "a\\tb")
a_tab-IsCell = omega arith

escape-unescape_example : escape_six_value (codes "a\tb") ≡ codes "a\\tb"
escape-unescape_example = escape-unescape (codes "a\\tb") (codes "a\tb") a_tab-IsCell a_tab

abbrev small_cache : SixbCache
small_cache = record {
  version = sixb_binary_version;
  table = codes "users";
  schema_hash = codes "00";
  source_hash = codes "01";
  rows =
      record {
        id = codes "a";
        ptr = record { chunk_name = codes "c.6"; offset = 70; len = 12; tx_id = 1 };
      }
      ∷ [];
  lookups = record { field_name = codes "age"; key = codes "36"; id = codes "a" } ∷ [];
}

small_cache-IsStorable : IsStorable (λ s. true) small_cache
small_cache-IsStorable = record {
  version = refl;
  table = (omega arith, refl);
  schema_hash = (omega arith, refl);
  source_hash = (omega arith, refl);
  row_count = omega arith;
  lookup_count = omega arith;
  rows = (
    record {
      id = (omega arith, refl);
      chunk_name = (omega arith, refl);
      offset = omega arith;
      len = omega arith;
      tx_id = omega arith;
    },
    tt,
  );
  lookups = (
    record {
      field_name = (omega arith, refl);
      key = (omega arith, refl);
      id = (omega arith, refl);
    },
    tt,
  );
}

abbrev spare : List ℕ
spare = 7 ∷ []

small_cache-short : length (encode_sixb_cache small_cache ++ spare) < 2 ^ 64
unfolding encode_sixb_cache le_bytes write_string write_all write_row write_lookup
small_cache-short = omega arith

-- one byte too many
decode-encode_sixb_cache_example :
    decode_sixb_cache_binary (λ s. true) (encode_sixb_cache small_cache ++ spare)
    ≡ (if is_empty spare then ok small_cache else err (bad_sixb (codes "trailing SIXB bytes")))
decode-encode_sixb_cache_example =
    decode-encode_sixb_cache (λ s. true) small_cache spare small_cache-IsStorable small_cache-short

extend_source_hash_example :
    extend_source_hash (source_hash (codes "put 1")) (codes "put 2")
    ≡ ok (source_hash (codes "put 1" ++ codes "put 2"))
extend_source_hash_example = extend_source_hash-source_hash (codes "put 1") (codes "put 2")
