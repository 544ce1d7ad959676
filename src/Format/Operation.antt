-- ===== src/Format/Operation.antt =====
-- The operation lines of `.6` files: `encode_six_operation` and `decode_six_operation` of
-- packages/sixpack-format/src/format.rs, with the preamble's magic line.
pub mod RoundTrip
use sixpack.Prelude.{
  ℕ, List, [], ◌∷◌, ◌++◌, Bool, true, false, Option, none, some, if◌then◌else◌, ◌≡◌, refl,
}
use sixpack.Prelude.Order.{same}
use sixpack.Prelude.Outcome.{
  Outcome, ok, err, ◌>>=◌, ok_or, Fault, panic, fault, may_panic, may_fail,
}
use sixpack.Prelude.Text.{Text, text_ord, codes, starts_with}
use sixpack.Prelude.Decimal.{print_nat, parse_nat, u64_max}
use sixpack.Prelude.Map.{get}
use sixpack.Core.Value.{Value, FloatText}
use sixpack.Core.Record.{Record}
use sixpack.Core.Schema.Table.{TableSchema}
use sixpack.Format.Error.{
  FormatError, bad_six_record, bad_six_column_count, bad_six_tx, bad_six_operation,
}
use sixpack.Format.Escape.{escape_six_value, unescape_six_value, tab}
use sixpack.Format.Split.{split_once}
use sixpack.Format.Row.{value_to_string, encode_six_row, decode_six_row}

pub data Operation : Type 0 where
  put delete : Operation

unfoldable pub operation_name : Operation → Text
operation_name put = codes "put"
operation_name delete = codes "delete"

pub data SixOperationRecord (F : Type 0) : Type 0 where
  -- transaction, record
  put : ℕ → Record F → SixOperationRecord F
  -- transaction, id
  delete : ℕ → Text → SixOperationRecord F

-- `SixOperationRecord::tx_id`
abbrev pub operation_tx_id : {F : Type 0} → SixOperationRecord F → ℕ
operation_tx_id (SixOperationRecord.put tx r) = tx
operation_tx_id (SixOperationRecord.delete tx id) = tx

unfoldable pub is_six_magic_line : Text → Bool
is_six_magic_line line = starts_with line (codes "SIX\t")

-- the three parts of `line.splitn(3, '\t')`, or the column count error
abbrev pub tail_part : Text → Text × Option Text → Outcome FormatError (Text × Text × Text)
tail_part tag (tx, none) = err (bad_six_column_count 3 2)
tail_part tag (tx, some tail) = ok (tag, tx, tail)

abbrev pub three_parts : Text × Option Text → Outcome FormatError (Text × Text × Text)
three_parts (tag, none) = err (bad_six_column_count 3 1)
three_parts (tag, some rest) = tail_part tag (split_once tab rest)

module _ {F : Type 0} ⦃float : FloatText F⦄ where
  unfoldable pub encode_six_operation :
      TableSchema → Operation → ℕ → Record F → Outcome FormatError Text
  encode_six_operation t Operation.put tx r = do
    row ← encode_six_row t r
    ok (b'R' ∷ tab ∷ (print_nat tx ++ (tab ∷ row)))
  encode_six_operation t Operation.delete tx r = do
    id ← ok_or (bad_six_record (codes "delete missing id")) (get (codes "id") r.fields)
    ok (b'D' ∷ tab ∷ (print_nat tx ++ (tab ∷ escape_six_value (value_to_string id))))

  unfoldable pub decode_tagged :
      TableSchema → Text → ℕ → Text → Outcome (Fault FormatError) (SixOperationRecord F)
  decode_tagged t tag tx tail =
      if same tag (codes "R")
      then (do r ← decode_six_row t tail; ok (SixOperationRecord.put tx r))
      else if same tag (codes "D")
      then (do id ← may_fail (unescape_six_value tail); ok (SixOperationRecord.delete tx id))
      else err (fault (bad_six_operation tag))

  unfoldable pub decode_six_operation :
      TableSchema → Text → Outcome (Fault FormatError) (SixOperationRecord F)
  decode_six_operation t line = do
    parts ← may_fail (three_parts (split_once tab line))
    tx ← may_fail (ok_or bad_six_tx (parse_nat u64_max parts.1))
    decode_tagged t parts.0 tx parts.2
