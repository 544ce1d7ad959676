-- ===== src/Compiler/Built/Schema.antt =====
-- `database_schema_from_ir` on a schema that `validate_schema` lets pass.
use sixpack.Prelude.{some, ◌≡◌, All, ◌∙◌, map, is_some, [], refl, arith}
use sixpack.Prelude.Outcome.{ok}
use sixpack.Prelude.Text.{Text, text_ord}
use sixpack.Prelude.Map.{get-nil}
use sixpack.Core.Schema.Table.{TableSchema}
use sixpack.Core.Schema.Table.Valid.{listed}
use sixpack.Core.Schema.Database.{DatabaseSchema, table, new_database}
use sixpack.Core.Schema.Database.Valid.{IsValid, new_database-IsValid}
use sixpack.Compiler.Ir.{
  TableIr, SchemaIr, check_ir_tables, validate_schema, database_schema_from_ir,
}
use sixpack.Compiler.Built.Tables.{HasIds, IsBuilt, TablesBuilt, add_ir_tables-built}

-- the database schema has the tables of the compiled schema and no others
pub record IsSchemaOf (ir : SchemaIr) (db : DatabaseSchema) : Type 0 where
  pub valid : IsValid db
  pub declared :
      All (λ ti. (t : TableSchema) × (table ti.name db ≡ some t) × IsBuilt ti t) ir.tables
  pub only :
      (n : Text) → is_some (table n db) ≡ listed n (map (λ (ti : TableIr). ti.name) ir.tables)

passes-check_ir_tables :
    (ir : SchemaIr) → validate_schema ir ≡ ok tt → check_ir_tables ir.tables [] ≡ ok tt
unfolding validate_schema
passes-check_ir_tables ir h = ground (arith, h)

-- Let the compiler's check let a schema pass, and let each field called `id` have the type `id`.
-- Then the core accepts every field, lookup and table of it. The database schema that comes out is
-- valid, its tables have the fields of the compiled ones in their order and with their types, the
-- same lookups, each with its `unique` flag, and there are no other tables or lookups.
pub database_schema_from_ir-IsSchemaOf :
    (ir : SchemaIr)
    → validate_schema ir ≡ ok tt
    → All HasIds ir.tables
    → (db : DatabaseSchema) × (database_schema_from_ir ir ≡ ok db) × IsSchemaOf ir db
unfolding database_schema_from_ir
database_schema_from_ir-IsSchemaOf ir h ids =
    let r : TablesBuilt ir.tables new_database =
      add_ir_tables-built ir.tables [] new_database (passes-check_ir_tables ir h) ids
        new_database-IsValid (λ n. rw (get-nil {V = TableSchema} n) refl) in
    (
      r.db',
      r.made,
      record {
        valid = r.valid;
        declared = r.declared;
        only = λ n. r.only n ∙ rw (get-nil {V = TableSchema} n) (ground arith);
      },
    )
