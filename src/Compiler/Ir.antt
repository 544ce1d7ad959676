-- ===== src/Compiler/Ir.antt =====
-- The compiled schema of packages/sixpack-schema-compiler/src/lib.rs: its data, `validate_schema`,
-- the hash and `database_schema_from_ir`. The sets of names that the checks keep are lists; they
-- are only asked for a name.
use sixpack.Prelude.{ℕ, Bool, false, not, ◌||◌, ◌&&◌, List, [], ◌∷◌, ◌++◌, all, ◌==◌}
use sixpack.Prelude.Outcome.{Outcome, ok, ◌>>=◌, ◌>>◌, ensure}
use sixpack.Prelude.Order.{same}
use sixpack.Prelude.Decimal.{print_nat}
use sixpack.Prelude.Text.{
  Text, text_ord, codes, starts_with, contains, is_ascii_lowercase, is_ascii_digit,
}
use sixpack.Hash.{fnv_offset_basis, fnv, fnv_step, hex16}
use sixpack.Core.Value.{PrimitiveType, type_name}
use sixpack.Core.Error
use sixpack.Core.Schema.Table.{TableSchema, new_table, add_field, add_lookup}
use sixpack.Core.Schema.Table.Valid.{listed}
use sixpack.Core.Schema.Database.{DatabaseSchema, new_database, add_table}
use sixpack.Core.Schema.Signature.{unique_word}

abbrev pub schema_version : ℕ
schema_version = 1

pub record FieldIr : Type 0 where
  pub name : Text
  pub ty : PrimitiveType
  pub required : Bool

pub record LookupIr : Type 0 where
  pub field_name : Text
  pub unique : Bool

pub record TableIr : Type 0 where
  pub name : Text
  pub fields : List FieldIr
  pub lookups : List LookupIr

pub record SchemaIr : Type 0 where
  pub version : ℕ
  pub tables : List TableIr

pub record CompileError : Type 0 where
  pub line : ℕ
  pub column : ℕ
  pub message : Text

-- an error of `validate_schema`, which knows no place
abbrev pub unplaced : Text → CompileError
unplaced message = record { line = 0; column = 0; message = message }

-- the fields in `TableIr::signature`
unfoldable pub ir_field_part : List FieldIr → Text
ir_field_part [] = []
ir_field_part (f ∷ fs) = b'|' ∷ (f.name ++ (b':' ∷ (type_name f.ty ++ ir_field_part fs)))

-- the lookups in `TableIr::signature`
unfoldable pub ir_lookup_part : List LookupIr → Text
ir_lookup_part [] = []
ir_lookup_part (l ∷ ls) =
    b'|'
    ∷ (codes "lookup:" ++ (l.field_name ++ (b':' ∷ (unique_word l.unique ++ ir_lookup_part ls))))

-- `TableIr::signature`
unfoldable pub ir_signature : TableIr → Text
ir_signature t =
    t.name ++ (ir_field_part t.fields ++ (codes "|lookup:id:unique" ++ ir_lookup_part t.lookups))

-- the loop of `SchemaIr::schema_hash`
unfoldable pub ir_hash_tables : ℕ → List TableIr → ℕ
ir_hash_tables hash [] = hash
ir_hash_tables hash (t ∷ ts) = ir_hash_tables (fnv_step (fnv hash (ir_signature t)) b'\n') ts

-- `SchemaIr::schema_hash`
unfoldable pub ir_schema_hash : SchemaIr → Text
ir_schema_hash ir = hex16 (ir_hash_tables fnv_offset_basis ir.tables)

unfoldable pub is_snake_case : Text → Bool
is_snake_case [] = false
is_snake_case (first ∷ chars) =
    is_ascii_lowercase first
    && not (contains (first ∷ chars) (codes "__"))
    && all (λ ch. ch == b'_' || is_ascii_lowercase ch || is_ascii_digit ch) (first ∷ chars)

-- the loop over the fields of a table: the names met, and whether `id` is one of them
unfoldable pub check_ir_fields :
    Text → List FieldIr → List Text → Bool → Outcome CompileError (List Text × Bool)
check_ir_fields table [] names has_id = ok (names, has_id)
check_ir_fields table (f ∷ fs) names has_id = do
  ensure (not (starts_with f.name (codes "_")))
      (unplaced (codes "field name cannot start with '_': " ++ f.name))
  ensure (is_snake_case f.name) (unplaced (codes "invalid field name: " ++ f.name))
  ensure (not (listed f.name names))
      (unplaced (codes "duplicate field in table " ++ (table ++ (codes ": " ++ f.name))))
  check_ir_fields table fs (f.name ∷ names) (has_id || same f.name (codes "id"))

-- the loop over the lookups of a table
unfoldable pub check_ir_lookups :
    Text → List Text → List LookupIr → List Text → Outcome CompileError (Unit {0})
check_ir_lookups table fields [] names = ok tt
check_ir_lookups table fields (l ∷ ls) names = do
  ensure (listed l.field_name fields) (
      unplaced (
        codes "lookup '"
        ++ (l.field_name
            ++ (codes "' refers to missing field '"
                ++ (l.field_name ++ (codes "' in table '" ++ (table ++ codes "'")))))))
  ensure (not (listed l.field_name names)) (
      unplaced (
        codes "duplicate lookup on '"
        ++ (l.field_name ++ (codes "' in table '" ++ (table ++ codes "'")))))
  check_ir_lookups table fields ls (l.field_name ∷ names)

-- the body of the loop over the tables, behind the test of the names
unfoldable pub check_ir_table : TableIr → Outcome CompileError (Unit {0})
check_ir_table t = do
  (names, has_id) ← check_ir_fields t.name t.fields [] false
  ensure has_id (unplaced (codes "table '" ++ (t.name ++ codes "' is missing required field 'id'")))
  check_ir_lookups t.name names t.lookups []

-- the loop over the tables
unfoldable pub check_ir_tables : List TableIr → List Text → Outcome CompileError (Unit {0})
check_ir_tables [] names = ok tt
check_ir_tables (t ∷ ts) names = do
  ensure (is_snake_case t.name) (unplaced (codes "invalid table name: " ++ t.name))
  ensure (not (listed t.name names)) (unplaced (codes "duplicate table name: " ++ t.name))
  check_ir_table t
  check_ir_tables ts (t.name ∷ names)

unfoldable pub validate_schema : SchemaIr → Outcome CompileError (Unit {0})
validate_schema ir = do
  ensure (ir.version == schema_version) (
      unplaced (
        codes "schema version mismatch: expected "
        ++ (print_nat schema_version ++ (codes ", got " ++ print_nat ir.version))))
  check_ir_tables ir.tables []

-- the loop over the fields in `database_schema_from_ir`
unfoldable pub add_ir_fields : List FieldIr → TableSchema → Outcome Error.SchemaError TableSchema
add_ir_fields [] t = ok t
add_ir_fields (f ∷ fs) t = do t' ← add_field f.name f.ty t; add_ir_fields fs t'

-- the loop over the lookups
unfoldable pub add_ir_lookups : List LookupIr → TableSchema → Outcome Error.SchemaError TableSchema
add_ir_lookups [] t = ok t
add_ir_lookups (l ∷ ls) t = do t' ← add_lookup l.field_name l.unique t; add_ir_lookups ls t'

-- the loop over the tables
unfoldable pub add_ir_tables :
    List TableIr → DatabaseSchema → Outcome Error.SchemaError DatabaseSchema
add_ir_tables [] db = ok db
add_ir_tables (t ∷ ts) db = do
  with_fields ← add_ir_fields t.fields (new_table t.name)
  built ← add_ir_lookups t.lookups with_fields
  db' ← add_table built db
  add_ir_tables ts db'

unfoldable pub database_schema_from_ir : SchemaIr → Outcome Error.SchemaError DatabaseSchema
database_schema_from_ir ir = add_ir_tables ir.tables new_database
