-- ===== src/Core/Tests.antt =====
-- A small schema, built by the calls a program makes, and the core's theorems on it.
use sixpack.Prelude.{ℕ, true, false, [], ◌∷◌, some, none, ◌≡◌, ◌≢◌, ◌↔◌, refl, All}
use sixpack.Prelude.Outcome.{ok, err, panic, fault}
use sixpack.Prelude.Order.{list_cmp}
use sixpack.Prelude.Text.{Text, text_ord, codes, starts_with, contains}
use sixpack.Prelude.Map.{get, insert, contains_key}
use sixpack.Prelude.Map.Sorted.{IsSorted}
use sixpack.Prelude.Decimal.{pos}
use sixpack.Core.Value.{PrimitiveType, Value, matches_value, value_type, type_name}
use sixpack.Core.Value.Names.{from_name, find_decl, for_type, name_round_trip, matches_value_iff}
use sixpack.Core.Error.{unknown_table}
use sixpack.Core.Identifier.{
  ensure_public_field_name, is_schema_name, field_name, table_name, workspace_name,
}
use sixpack.Core.Identifier.Safe.{IsPlain, field_names_agree, workspace_name_safe}
use sixpack.Core.Record.{Record}
use sixpack.Core.Schema.Table.{TableSchema, new_table, new_field, new_lookup, add_field, add_lookup}
use sixpack.Core.Schema.Table.Valid.{new_table-IsValid, add_field-IsValid, add_lookup-IsValid}
use sixpack.Core.Schema.Table.Valid as TableValid
use sixpack.Core.Schema.Table.Added.{IsAdded, add_lookup-ok_iff}
use sixpack.Core.Schema.Database.{
  DatabaseSchema, new_database, table, add_table, check_lookups, check_present, check_values,
  validate_record,
}
use sixpack.Core.Schema.Database.Valid.{
  IsValid, IsAdmissible, new_database-IsValid, add_table-IsValid,
}
use sixpack.Core.Schema.Database.Conforms.{Conforms, validate_record-ok_iff, validate_record_total}
use sixpack.Core.Schema.Signature.{schema_hash, schema_hash_total}

abbrev pub id_table : TableSchema
id_table = record (new_table (codes "users")) {
  field_order = codes "id" ∷ [];
  fields = (codes "id", record { name = codes "id"; kind = PrimitiveType.id }) ∷ [];
}

abbrev pub aged_table : TableSchema
aged_table = record id_table {
  field_order = codes "id" ∷ codes "age" ∷ [];
  fields =
      (codes "age", record { name = codes "age"; kind = PrimitiveType.int })
      ∷ (codes "id", record { name = codes "id"; kind = PrimitiveType.id })
      ∷ [];
}

abbrev pub users : TableSchema
users = record aged_table {
  lookups = (codes "age", record { field_name = codes "age"; unique = false }) ∷ [];
}

abbrev pub users_db : DatabaseSchema
users_db = record { tables = (codes "users", users) ∷ [] }

abbrev pub ada_age : Value ℕ
ada_age = Value.int (pos 36)

abbrev pub ada_id : Value ℕ
ada_id = Value.id (codes "a\t1")

abbrev pub ada : Record ℕ
ada = record { table = codes "users"; fields = (codes "age", ada_age) ∷ (codes "id", ada_id) ∷ [] }

add_id : add_field (codes "id") PrimitiveType.id (new_table (codes "users")) ≡ ok id_table
unfolding add_field new_field ensure_public_field_name is_schema_name starts_with contains_key get
    contains insert list_cmp
add_id = refl

add_age : add_field (codes "age") PrimitiveType.int id_table ≡ ok aged_table
unfolding add_field new_field ensure_public_field_name is_schema_name starts_with contains_key get
    contains insert list_cmp
add_age = refl

add_age_lookup : add_lookup (codes "age") false aged_table ≡ ok users
unfolding add_lookup new_lookup ensure_public_field_name is_schema_name starts_with contains_key get
    contains insert list_cmp
add_age_lookup = refl

add_users : add_table users new_database ≡ ok users_db
unfolding add_table table_name is_schema_name check_lookups contains_key get insert list_cmp
    contains
add_users = refl

validate_ada : validate_record ada users_db ≡ ok tt
unfolding validate_record check_present check_values matches_value contains_key get list_cmp
validate_ada = refl

id_table-IsValid : TableValid.IsValid id_table
id_table-IsValid =
    add_field-IsValid (codes "id") PrimitiveType.id (new_table (codes "users"))
      (new_table-IsValid (codes "users")) add_id

aged_table-IsValid : TableValid.IsValid aged_table
aged_table-IsValid =
    add_field-IsValid (codes "age") PrimitiveType.int id_table id_table-IsValid add_age

pub users-IsValid : TableValid.IsValid users
users-IsValid = add_lookup-IsValid (codes "age") false aged_table aged_table-IsValid add_age_lookup

pub users_db-IsValid : IsValid users_db × (table (codes "users") users_db ≡ some users)
users_db-IsValid = add_table-IsValid users new_database users-IsValid new_database-IsValid add_users

pub users-IsAdmissible : IsAdmissible users
users-IsAdmissible = users_db-IsValid.0.tables_admissible (codes "users") users users_db-IsValid.1

pub ada-IsSorted : IsSorted ada.fields
unfolding list_cmp
ada-IsSorted = ((refl, tt), (tt, tt))

pub ada-Conforms : Conforms users ada
ada-Conforms =
    (validate_record-ok_iff ada users_db users users_db-IsValid.0 users_db-IsValid.1 ada-IsSorted).0
      validate_ada

add_field-IsValid_example : TableValid.IsValid aged_table
add_field-IsValid_example =
    add_field-IsValid (codes "age") PrimitiveType.int id_table id_table-IsValid add_age

add_lookup-ok_iff_example :
    (add_lookup (codes "age") false aged_table ≡ ok users)
    ↔ IsAdded (codes "age") false aged_table users
add_lookup-ok_iff_example =
    add_lookup-ok_iff (codes "age") false aged_table users aged_table-IsValid

add_table-IsValid_example : IsValid users_db × (table (codes "users") users_db ≡ some users)
add_table-IsValid_example =
    add_table-IsValid users new_database users-IsValid new_database-IsValid add_users

validate_record-ok_iff_example : (validate_record ada users_db ≡ ok tt) ↔ Conforms users ada
validate_record-ok_iff_example =
    validate_record-ok_iff ada users_db users users_db-IsValid.0 users_db-IsValid.1 ada-IsSorted

validate_record_total_example :
    (validate_record ada users_db ≢ err panic)
    × (table ada.table users_db ≡ none
        → validate_record ada users_db ≡ err (fault (unknown_table ada.table)))
validate_record_total_example = validate_record_total ada users_db users_db-IsValid.0

schema_hash_total_example : (h : Text) × (schema_hash users_db ≡ ok h)
schema_hash_total_example = schema_hash_total users_db users_db-IsValid.0

name_round_trip_example :
    (from_name (type_name PrimitiveType.float) ≡ PrimitiveType.float)
    × (find_decl (type_name PrimitiveType.float) ≡ some (for_type PrimitiveType.float))
name_round_trip_example = name_round_trip PrimitiveType.float

abbrev three : Value ℕ
three = Value.int (pos 3)

matches_value_iff_example :
    (matches_value PrimitiveType.int three ≡ true) ↔ (value_type three ≡ PrimitiveType.int)
matches_value_iff_example = matches_value_iff PrimitiveType.int three

field_names_agree_example :
    ((ensure_public_field_name (codes "_id") ≡ ok tt) ↔ (is_schema_name (codes "_id") ≡ true))
    × ((field_name (codes "_id") ≡ ok (codes "_id")) ↔ (is_schema_name (codes "_id") ≡ true))
    × ((table_name (codes "_id") ≡ ok (codes "_id")) ↔ (is_schema_name (codes "_id") ≡ true))
field_names_agree_example = field_names_agree (codes "_id")

my_app : workspace_name (codes "my-app") ≡ ok (codes "my-app")
unfolding workspace_name starts_with list_cmp contains
my_app = refl

workspace_name_safe_example :
    (codes "my-app" ≡ codes "my-app")
    × (codes "my-app" ≢ [])
    × (codes "my-app" ≢ codes ".")
    × (codes "my-app" ≢ codes "..")
    × All IsPlain (codes "my-app")
    × (starts_with (codes "my-app") (codes "_") ≡ false)
workspace_name_safe_example = workspace_name_safe (codes "my-app") my_app
