-- ===== src/Compiler/Tests.antt =====
-- A compiled schema with two tables, and what is built out of it.
use sixpack.Prelude.{true, false, [], ◌∷◌, ◌≡◌, refl, All}
use sixpack.Prelude.Outcome.{ok, err}
use sixpack.Prelude.Order.{list_cmp}
use sixpack.Prelude.Text.{codes, text_ord, starts_with, contains}
use sixpack.Prelude.Map.{get, insert, contains_key}
use sixpack.Core.Value.{PrimitiveType}
use sixpack.Core.Error
use sixpack.Core.Identifier.{ensure_public_field_name, field_name, table_name, is_schema_name}
use sixpack.Core.Schema.Table.{new_field, add_field}
use sixpack.Core.Schema.Database.{DatabaseSchema, add_table, check_lookups}
use sixpack.Compiler.Ir.{
  TableIr, SchemaIr, is_snake_case, check_ir_fields, check_ir_lookups, check_ir_table,
  check_ir_tables, validate_schema, add_ir_fields, add_ir_lookups, add_ir_tables,
  database_schema_from_ir, ir_schema_hash,
}
use sixpack.Prelude.Map.Sorted.{IsSorted}
use sixpack.Core.Schema.Signature.{schema_hash}
use sixpack.Compiler.Built.Hashed.{ir_entries, IsOrdered, schema_hash-ir_schema_hash}
use sixpack.Compiler.Built.Tables.{HasIds}
use sixpack.Compiler.Built.Schema.{IsSchemaOf, database_schema_from_ir-IsSchemaOf}

abbrev people : TableIr
people = record {
  name = codes "people";
  fields =
      record { name = codes "id"; ty = PrimitiveType.id; required = false }
      ∷ record { name = codes "age"; ty = PrimitiveType.int; required = false }
      ∷ record { name = codes "name"; ty = PrimitiveType.text; required = false }
      ∷ [];
  lookups =
      record { field_name = codes "age"; unique = false }
      ∷ record { field_name = codes "name"; unique = true }
      ∷ [];
}

abbrev teams : TableIr
teams = record {
  name = codes "teams";
  fields = record { name = codes "id"; ty = PrimitiveType.id; required = false } ∷ [];
  lookups = [];
}

abbrev people_ir : SchemaIr
people_ir = record { version = 1; tables = people ∷ teams ∷ [] }

-- an `id` that is a text
abbrev untyped_ir : SchemaIr
untyped_ir = record {
  version = 1;
  tables =
      record {
        name = codes "notes";
        fields = record { name = codes "id"; ty = PrimitiveType.text; required = false } ∷ [];
        lookups = [];
      }
      ∷ [];
}

people_valid : validate_schema people_ir ≡ ok tt
unfolding validate_schema is_snake_case check_ir_fields check_ir_lookups check_ir_table
    check_ir_tables starts_with contains list_cmp
people_valid = refl

untyped_valid : validate_schema untyped_ir ≡ ok tt
unfolding validate_schema is_snake_case check_ir_fields check_ir_lookups check_ir_table
    check_ir_tables starts_with contains list_cmp
untyped_valid = refl

untyped_refused :
    database_schema_from_ir untyped_ir ≡ err (Error.id_field_must_be_id (codes "notes"))
unfolding database_schema_from_ir add_ir_tables add_ir_fields add_ir_lookups add_field new_field
    add_table check_lookups ensure_public_field_name field_name table_name is_schema_name
    starts_with contains list_cmp get insert contains_key
untyped_refused = refl

people_ids : All HasIds people_ir.tables
unfolding list_cmp
people_ids = ((refl, (refl, (refl, tt))), ((refl, tt), tt))

-- The table `people` has an `id` of the right type.
database_schema_from_ir-IsSchemaOf_example :
    (db : DatabaseSchema) × (database_schema_from_ir people_ir ≡ ok db) × IsSchemaOf people_ir db
database_schema_from_ir-IsSchemaOf_example =
    database_schema_from_ir-IsSchemaOf people_ir people_valid people_ids

abbrev people_built :
    (db : DatabaseSchema) × (database_schema_from_ir people_ir ≡ ok db) × IsSchemaOf people_ir db
people_built = database_schema_from_ir-IsSchemaOf people_ir people_valid people_ids

people-IsSorted : IsSorted (ir_entries people_ir.tables)
unfolding list_cmp
people-IsSorted = ((refl, tt), (tt, tt))

people-IsOrdered : All IsOrdered people_ir.tables
unfolding list_cmp
people-IsOrdered = (((refl, tt), (tt, tt)), (tt, tt))

-- Both tables and both lookups are in the order of their names.
schema_hash-ir_schema_hash_example : schema_hash people_built.0 ≡ ok (ir_schema_hash people_ir)
schema_hash-ir_schema_hash_example =
    schema_hash-ir_schema_hash people_ir people_built.0 people_built.2 people-IsSorted
      people-IsOrdered
