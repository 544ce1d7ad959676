-- ===== src/Core/Schema/Database/Valid.antt =====
-- The invariant of a database schema that is built by `new` and `add_table`.
use sixpack.Prelude.{
  true, false, [], ◌∷◌, Option, none, some, ◌≡◌, refl, arith, is_some, subst, ◌⊎◌, inl, inr,
}
use sixpack.Prelude.Outcome.{ok}
use sixpack.Prelude.Order.{same→eq}
use sixpack.Prelude.Text.{Text, text_ord, codes}
use sixpack.Prelude.Map.{Map, get, insert, contains_key, values, get-insert, get-insert_self}
use sixpack.Prelude.Map.Sorted.{IsSorted, insert-IsSorted}
use sixpack.Core.Value.{PrimitiveType}
use sixpack.Core.Identifier.{table_name, is_schema_name}
use sixpack.Core.Schema.Table.{FieldSpec, LookupSpec, TableSchema, field, lookup}
use sixpack.Core.Schema.Table.Valid
use sixpack.Core.Schema.Database.{
  DatabaseSchema, new_database, table, is_id_type, check_lookups, add_table,
}

-- what `add_table` demands of a table
pub record IsAdmissible (t : TableSchema) : Type 0 where
  pub valid : Valid.IsValid t
  pub name_ok : is_schema_name t.name ≡ true
  pub id_spec : FieldSpec
  pub id_found : field (codes "id") t ≡ some id_spec
  pub id_kind : id_spec.kind ≡ PrimitiveType.id
  pub lookups_declared :
      (n : Text) (l : LookupSpec) → lookup n t ≡ some l → is_some (field n t) ≡ true

pub record IsValid (db : DatabaseSchema) : Type 0 where
  pub tables_sorted : IsSorted db.tables
  pub tables_named : (n : Text) (t : TableSchema) → table n db ≡ some t → t.name ≡ n
  pub tables_admissible : (n : Text) (t : TableSchema) → table n db ≡ some t → IsAdmissible t

pub new_database-IsValid : IsValid new_database
unfolding get
new_database-IsValid = record {
  tables_sorted = tt;
  tables_named = λ n t h. cc;
  tables_admissible = λ n t h. absurd (cc);
}

check_lookups-declared :
    (t : TableSchema) (m : Map Text LookupSpec) (n : Text) (l : LookupSpec)
    → check_lookups t (values m) ≡ ok tt
    → get n m ≡ some l
    → is_some (field l.field_name t) ≡ true
unfolding check_lookups get contains_key
check_lookups-declared t [] n l h e = cc
check_lookups-declared t ((k, w) ∷ m) n l h e = ground (arith, check_lookups-declared t m n l)

abbrev pub with_table : TableSchema → DatabaseSchema → DatabaseSchema
with_table t db = record db { tables = insert t.name t db.tables }

-- what a successful `add_table` has checked
record Added (t : TableSchema) (db db' : DatabaseSchema) : Type 0 where
  name_ok : is_schema_name t.name ≡ true
  fresh : is_some (table t.name db) ≡ false
  id_spec : FieldSpec
  id_found : field (codes "id") t ≡ some id_spec
  id_kind : id_spec.kind ≡ PrimitiveType.id
  lookups_ok : check_lookups t (values t.lookups) ≡ ok tt
  made : with_table t db ≡ db'

is_id_type_iff : (k : PrimitiveType) → is_id_type k ≡ true → k ≡ PrimitiveType.id
is_id_type_iff k h = ground arith

add_table-eq-ok :
    (t : TableSchema) (db : DatabaseSchema) {db' : DatabaseSchema}
    → add_table t db ≡ ok db'
    → Added t db db'
unfolding add_table table_name contains_key
add_table-eq-ok t db {db'} e = go (field (codes "id") t) refl
  where
    go : (o : Option FieldSpec) → field (codes "id") t ≡ o → Added t db db'
    go none h = absurd (ground arith)
    go (some id) h = record {
      name_ok = ground arith;
      fresh = ground arith;
      id_spec = id;
      id_found = h;
      id_kind = ground arith;
      lookups_ok = ground arith;
      made = ground arith;
    }

Added-IsAdmissible :
    (t : TableSchema) (db : DatabaseSchema) {db' : DatabaseSchema}
    → Valid.IsValid t
    → Added t db db'
    → IsAdmissible t
Added-IsAdmissible t db v a = record {
  valid = v;
  name_ok = a.name_ok;
  id_spec = a.id_spec;
  id_found = a.id_found;
  id_kind = a.id_kind;
  lookups_declared = λ n l h.
      subst (λ m. is_some (field m t) ≡ true) (v.lookup_named n l h)
        (check_lookups-declared t t.lookups n l a.lookups_ok h);
}

with_table-IsValid :
    (t : TableSchema) (db : DatabaseSchema)
    → IsValid db
    → IsAdmissible t
    → IsValid (with_table t db)
with_table-IsValid t db v a = record {
  tables_sorted = insert-IsSorted t.name t db.tables v.tables_sorted;
  tables_named = λ n u. rw get-insert (ground (arith, v.tables_named n u, same→eq n t.name));
  tables_admissible = λ n u h. elim (found n u h) [
    | inl e ↦ subst IsAdmissible e a
    | inr e ↦ v.tables_admissible n u e
  ];
}
  where
    found :
        (n : Text) (u : TableSchema)
        → table n (with_table t db) ≡ some u
        → (t ≡ u) ⊎ (table n db ≡ some u)
    found n u h = ground (arith, get-insert t.name n t db.tables)

-- `add_table` of a valid table into a valid database keeps the database valid, and the table is
-- then found under its name.
pub add_table-IsValid :
    (t : TableSchema) (db : DatabaseSchema) {db' : DatabaseSchema}
    → Valid.IsValid t
    → IsValid db
    → add_table t db ≡ ok db'
    → IsValid db' × (table t.name db' ≡ some t)
add_table-IsValid t db {db'} vt v e =
    let a : Added t db db' = add_table-eq-ok t db e in
    (
      subst IsValid a.made (with_table-IsValid t db v (Added-IsAdmissible t db vt a)),
      subst (λ d. table t.name d ≡ some t) a.made (get-insert_self t.name t db.tables),
    )
