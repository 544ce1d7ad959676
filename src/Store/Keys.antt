-- ===== src/Store/Keys.antt =====
-- Lookup keys of records: `value_to_lookup_key` and `record_id` of
-- packages/sixpack-store/src/store/files.rs, and the loop over a table's lookups that collects the
-- keys of a record.
use sixpack.Prelude.{List, [], ◌∷◌, ◌++◌}
use sixpack.Prelude.Outcome.{Outcome, ok, ◌>>=◌, ok_or}
use sixpack.Prelude.Text.{Text, text_ord, codes}
use sixpack.Prelude.Decimal.{print_int}
use sixpack.Prelude.Map.{Map, get}
use sixpack.Core.Value.{Value, FloatText, bool_name}
use sixpack.Core.Record.{Record}
use sixpack.Core.Schema.Table.{LookupSpec}
use sixpack.Store.Error.{IoError, io_error, ErrorKind}

-- a lookup field and a key of it
abbrev pub Key : Type 0
Key = Text × Text

abbrev pub missing_lookup_field : Text → IoError
missing_lookup_field name =
    io_error ErrorKind.invalid_data (codes "missing lookup field `" ++ (name ++ codes "`"))

module _ {F : Type 0} ⦃float : FloatText F⦄ where
  unfoldable pub value_to_lookup_key : Value F → Text
  value_to_lookup_key (Value.id v) = v
  value_to_lookup_key (Value.text v) = v
  value_to_lookup_key (Value.int v) = print_int v
  value_to_lookup_key (Value.float v) = float.print v
  value_to_lookup_key (Value.bool v) = bool_name v

  unfoldable pub record_id : Record F → Outcome IoError Text
  record_id r = do
    value ←
        ok_or (io_error ErrorKind.invalid_data (codes "record missing id"))
          (get (codes "id") r.fields)
    ok (value_to_lookup_key value)

  -- the key of a record in each lookup, in order
  unfoldable pub record_keys : List LookupSpec → Map Text (Value F) → Outcome IoError (List Key)
  record_keys [] fields = ok []
  record_keys (l ∷ ls) fields = do
    value ← ok_or (missing_lookup_field l.field_name) (get l.field_name fields)
    rest ← record_keys ls fields
    ok ((l.field_name, value_to_lookup_key value) ∷ rest)
