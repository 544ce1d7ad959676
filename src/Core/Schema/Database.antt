-- ===== src/Core/Schema/Database.antt =====
-- `DatabaseSchema` of packages/sixpack-core/src/schema.rs.
pub mod Valid
pub mod Conforms
use sixpack.Prelude.{Bool, true, false, not, List, [], ◌∷◌, Option, none, some, if◌then◌else◌}
use sixpack.Prelude.Outcome.{
  Outcome, ok, err, ◌>>=◌, ◌>>◌, ok_or, ensure, expect, Fault, panic, fault, may_panic, may_fail,
}
use sixpack.Prelude.Order.{same}
use sixpack.Prelude.Text.{Text, text_ord, codes}
use sixpack.Prelude.Map.{Map, empty, get, insert, contains_key, values}
use sixpack.Core.Value.{PrimitiveType, Value, matches_value, value_type, type_name}
use sixpack.Core.Error.{
  SchemaError, duplicate_table, missing_id_field, id_field_must_be_id, unknown_lookup_field,
  unknown_table, missing_field, unknown_field, type_mismatch,
}
use sixpack.Core.Identifier.{table_name}
use sixpack.Core.Record.{Record}
use sixpack.Core.Schema.Table.{FieldSpec, LookupSpec, TableSchema, field, lookup}

pub record DatabaseSchema : Type 0 where
  pub tables : Map Text TableSchema

-- `DatabaseSchema::new`
abbrev pub new_database : DatabaseSchema
new_database = record { tables = empty }

abbrev pub table : Text → DatabaseSchema → Option TableSchema
table name db = get name db.tables

abbrev pub is_id_type : PrimitiveType → Bool
is_id_type PrimitiveType.id = true
is_id_type k = false

-- the loop over `table.lookups.values()`
unfoldable pub check_lookups : TableSchema → List LookupSpec → Outcome SchemaError (Unit {0})
check_lookups t [] = ok tt
check_lookups t (l ∷ ls) =
    if contains_key l.field_name t.fields
    then check_lookups t ls
    else err (unknown_lookup_field t.name l.field_name)

unfoldable pub add_table : TableSchema → DatabaseSchema → Outcome SchemaError DatabaseSchema
add_table t db = do
  table_name t.name
  ensure (not (contains_key t.name db.tables)) (duplicate_table t.name)
  id ← ok_or (missing_id_field t.name) (field (codes "id") t)
  ensure (is_id_type id.kind) (id_field_must_be_id t.name)
  check_lookups t (values t.lookups)
  ok (record db { tables = insert t.name t db.tables })

module _ {F : Type 0} where
  -- the loop over `table.field_order()`
  unfoldable pub check_present :
      Text → Map Text (Value F) → List Text → Outcome SchemaError (Unit {0})
  check_present t fields [] = ok tt
  check_present t fields (name ∷ names) =
      if contains_key name fields then check_present t fields names else err (missing_field t name)

  -- the loop over `record.fields()`
  unfoldable pub check_values : TableSchema → Map Text (Value F) → Outcome SchemaError (Unit {0})
  check_values t [] = ok tt
  check_values t ((name, value) ∷ rest) = elim (field name t) [
    | none ↦ err (unknown_field t.name name)
    | some f ↦
        if matches_value f.kind value
        then check_values t rest
        else err (type_mismatch t.name name f.kind (value_type value))
  ]

  unfoldable pub validate_record :
      Record F → DatabaseSchema → Outcome (Fault SchemaError) (Unit {0})
  validate_record r db = do
    t ← may_fail (ok_or (unknown_table r.table) (table r.table db))
    id_field ← may_panic (expect (field (codes "id") t))
    may_fail (ensure (contains_key id_field.name r.fields) (missing_field t.name id_field.name))
    may_fail (check_present t.name r.fields t.field_order)
    may_fail (check_values t r.fields)
