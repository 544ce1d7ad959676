-- ===== src/Core/Schema/Table.antt =====
-- `FieldSpec`, `LookupSpec` and `TableSchema` of packages/sixpack-core/src/schema.rs.
pub mod Valid
pub mod Added
use sixpack.Prelude.{Bool, true, List, [], ◌∷◌, ◌++◌, Option, if◌then◌else◌}
use sixpack.Prelude.Outcome.{Outcome, ok, err, ◌>>=◌, ◌>>◌}
use sixpack.Prelude.Text.{Text, text_ord, codes}
use sixpack.Prelude.Map.{Map, empty, get, insert, contains_key, values}
use sixpack.Core.Value.{PrimitiveType}
use sixpack.Core.Error.{SchemaError, duplicate_field, duplicate_lookup}
use sixpack.Core.Identifier.{ensure_public_field_name, table_name}

pub record FieldSpec : Type 0 where
  pub name : Text
  pub kind : PrimitiveType

-- `FieldSpec::new`
unfoldable pub new_field : Text → PrimitiveType → Outcome SchemaError FieldSpec
new_field name kind = do ensure_public_field_name name; ok (record { name = name; kind = kind })

pub record LookupSpec : Type 0 where
  pub field_name : Text
  pub unique : Bool

-- `LookupSpec::new`
unfoldable pub new_lookup : Text → Bool → Outcome SchemaError LookupSpec
new_lookup field_name unique = do
  ensure_public_field_name field_name
  ok (record { field_name = field_name; unique = unique })

pub record TableSchema : Type 0 where
  pub name : Text
  pub field_order : List Text
  pub fields : Map Text FieldSpec
  pub lookups : Map Text LookupSpec

-- `TableSchema::new`
abbrev pub new_table : Text → TableSchema
new_table name = record { name = name; field_order = []; fields = empty; lookups = empty }

-- `TableSchema::try_new`
unfoldable pub try_new_table : Text → Outcome SchemaError TableSchema
try_new_table name = do n ← table_name name; ok (new_table n)

unfoldable pub add_field : Text → PrimitiveType → TableSchema → Outcome SchemaError TableSchema
unfolding new_field
add_field name kind t = do
  spec ← new_field name kind
  if contains_key spec.name t.fields
      then err (duplicate_field t.name spec.name)
      else ok (record t {
        field_order = t.field_order ++ (spec.name ∷ []);
        fields = insert spec.name spec t.fields;
      })

unfoldable pub add_lookup : Text → Bool → TableSchema → Outcome SchemaError TableSchema
unfolding new_lookup
add_lookup field_name unique t = do
  spec ← new_lookup field_name unique
  if contains_key spec.field_name t.lookups
      then err (duplicate_lookup t.name spec.field_name)
      else ok (record t { lookups = insert spec.field_name spec t.lookups })

abbrev pub field : Text → TableSchema → Option FieldSpec
field name t = get name t.fields

abbrev pub lookup : Text → TableSchema → Option LookupSpec
lookup field_name t = get field_name t.lookups

abbrev pub implicit_id : LookupSpec
implicit_id = record { field_name = codes "id"; unique = true }

unfoldable pub lookup_specs_with_implicit_id : TableSchema → List LookupSpec
lookup_specs_with_implicit_id t = implicit_id ∷ values t.lookups
