-- ===== src/Format/Row.antt =====
-- The rows of `.6` files: `encode_six_header`, `encode_six_row` and `decode_six_row` of
-- packages/sixpack-format/src/format.rs.
pub mod Columns
pub mod RoundTrip
pub mod Sound
pub mod Total
use sixpack.Prelude.{
  ℕ, List, [], ◌∷◌, ◌++◌, Bool, true, false, Option, none, some, ◌==◌, length, if◌then◌else◌,
}
use sixpack.Prelude.Order.{same}
use sixpack.Prelude.Outcome.{
  Outcome, ok, err, ◌>>=◌, ◌>>◌, ok_or, ensure, expect, Fault, panic, fault, may_panic, may_fail,
  map_err,
}
use sixpack.Prelude.Text.{Text, text_ord, codes}
use sixpack.Prelude.Decimal.{print_int, parse_i64}
use sixpack.Prelude.Map.{Map, get}
use sixpack.Core.Value.{PrimitiveType, Value, FloatText, bool_name}
use sixpack.Core.Error.{display}
use sixpack.Core.Record.{Record, new_record, insert_field}
use sixpack.Core.Schema.Table.{FieldSpec, TableSchema, field}
use sixpack.Format.Error.{FormatError, bad_six_record, bad_six_value, bad_six_column_count}
use sixpack.Format.Escape.{escape_six_value, unescape_six_value, tab}
use sixpack.Format.Split.{split, join}

unfoldable pub encode_six_header : TableSchema → Text
encode_six_header t = join tab t.field_order

-- `str::parse::<bool>`
abbrev pub parse_bool : Text → Option Bool
parse_bool s =
    if same s (codes "true") then some true else if same s (codes "false") then some false else none

module _ {F : Type 0} ⦃float : FloatText F⦄ where
  unfoldable pub value_to_string : Value F → Text
  value_to_string (Value.id v) = v
  value_to_string (Value.text v) = v
  value_to_string (Value.int v) = print_int v
  value_to_string (Value.float v) = float.print v
  value_to_string (Value.bool v) = bool_name v

  -- `.map(Value::Int).map_err(…)`
  abbrev parsed :
      {A : Type 0} → (A → Value F) → FormatError → Option A → Outcome FormatError (Value F)
  parsed make e none = err e
  parsed make e (some a) = ok (make a)

  unfoldable pub parse_ten_value : PrimitiveType → Text → Text → Outcome FormatError (Value F)
  parse_ten_value PrimitiveType.id name v = ok (Value.id v)
  parse_ten_value PrimitiveType.text name v = ok (Value.text v)
  parse_ten_value PrimitiveType.int name v =
      parsed Value.int (bad_six_value name PrimitiveType.int v) (parse_i64 v)
  parse_ten_value PrimitiveType.float name v =
      parsed Value.float (bad_six_value name PrimitiveType.float v) (float.parse v)
  parse_ten_value PrimitiveType.bool name v =
      parsed Value.bool (bad_six_value name PrimitiveType.bool v) (parse_bool v)

  -- the loop of `encode_six_row`
  unfoldable pub encode_columns : Map Text (Value F) → List Text → Outcome FormatError (List Text)
  encode_columns fields [] = ok []
  encode_columns fields (name ∷ names) = do
    value ←
        ok_or (bad_six_record (codes "missing field `" ++ (name ++ codes "`"))) (get name fields)
    rest ← encode_columns fields names
    ok (escape_six_value (value_to_string value) ∷ rest)

  unfoldable pub encode_six_row : TableSchema → Record F → Outcome FormatError Text
  encode_six_row t r = do columns ← encode_columns r.fields t.field_order; ok (join tab columns)

  -- the loop of `decode_six_row`; reading a part that is not there panics
  unfoldable pub decode_columns :
      TableSchema → List Text → List Text → Record F → Outcome (Fault FormatError) (Record F)
  decode_columns t [] parts r = ok r
  decode_columns t (name ∷ names) [] r = err panic
  decode_columns t (name ∷ names) (part ∷ parts) r = do
    f ← may_panic (expect (field name t))
    raw ← may_fail (unescape_six_value part)
    value ← may_fail (parse_ten_value f.kind name raw)
    r' ← may_fail (map_err (λ e. bad_six_record (display e)) (insert_field name value r))
    decode_columns t names parts r'

  unfoldable pub decode_six_row : TableSchema → Text → Outcome (Fault FormatError) (Record F)
  decode_six_row t line = do
    let parts = split tab line
    may_fail (
        ensure (length parts == length t.field_order)
          (bad_six_column_count (length t.field_order) (length parts)))
    decode_columns t t.field_order parts (new_record t.name)
