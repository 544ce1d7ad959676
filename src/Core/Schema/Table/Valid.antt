-- ===== src/Core/Schema/Table/Valid.antt =====
-- The invariant of a table schema that is built by `new`, `add_field` and `add_lookup`.
use sixpack.Prelude.{
  Bool, true, false, List, [], ◌∷◌, ◌++◌, some, ◌≡◌, refl, arith, ◌||◌, any, is_some, ◌∙◌, subst,
}
use sixpack.Prelude.Outcome.{ok}
use sixpack.Prelude.Text.{Text, text_ord}
use sixpack.Prelude.Order.{same, same_self, same→eq}
use sixpack.Prelude.Map.{get, insert, contains_key, get-insert}
use sixpack.Prelude.Map.Sorted.{IsSorted, insert-IsSorted}
use sixpack.Core.Value.{PrimitiveType}
use sixpack.Core.Identifier.{ensure_public_field_name, is_schema_name}
use sixpack.Core.Schema.Table.{
  FieldSpec, LookupSpec, TableSchema, new_table, add_field, add_lookup, field, lookup,
}

-- the name is one of the list
abbrev pub listed : Text → List Text → Bool
listed n names = any (λ m. same m n) names

pub listed-append :
    (n m : Text) (names : List Text) → listed n (names ++ (m ∷ [])) ≡ (listed n names || same m n)
listed-append n m [] = ground arith
listed-append n m (k ∷ names) = ground (arith, listed-append n m names)

-- no name twice
abbrev pub Distinct : List Text → Type 0
Distinct [] = Unit
Distinct (n ∷ names) = (listed n names ≡ false) × Distinct names

pub Distinct-append :
    (m : Text) (names : List Text)
    → Distinct names
    → listed m names ≡ false
    → Distinct (names ++ (m ∷ []))
Distinct-append m [] d h = (refl, tt)
Distinct-append m (n ∷ names) d h =
    ground (arith, listed-append n m names, same→eq m n, same_self n, Distinct-append m names d.1)

pub record IsValid (t : TableSchema) : Type 0 where
  pub fields_sorted : IsSorted t.fields
  pub lookups_sorted : IsSorted t.lookups
  -- the field order lists exactly the declared fields, each once
  pub order_distinct : Distinct t.field_order
  pub order_exact : (n : Text) → listed n t.field_order ≡ is_some (field n t)
  -- each entry stands under its own name, which is a schema name
  pub field_named : (n : Text) (f : FieldSpec) → field n t ≡ some f → f.name ≡ n
  pub field_schema_name : (n : Text) (f : FieldSpec) → field n t ≡ some f → is_schema_name n ≡ true
  pub lookup_named : (n : Text) (l : LookupSpec) → lookup n t ≡ some l → l.field_name ≡ n

pub new_table-IsValid : (name : Text) → IsValid (new_table name)
unfolding get
new_table-IsValid name = record {
  fields_sorted = tt;
  lookups_sorted = tt;
  order_distinct = tt;
  order_exact = λ n. refl;
  field_named = λ n f h. cc;
  field_schema_name = λ n f h. cc;
  lookup_named = λ n l h. cc;
}

ensured : (name : Text) → ensure_public_field_name name ≡ ok tt → is_schema_name name ≡ true
unfolding ensure_public_field_name
ensured name h = ground arith

abbrev pub with_field : Text → PrimitiveType → TableSchema → TableSchema
with_field name kind t = record t {
  field_order = t.field_order ++ (name ∷ []);
  fields = insert name (record { name = name; kind = kind }) t.fields;
}

add_field-eq-ok :
    (name : Text) (kind : PrimitiveType) (t : TableSchema) {t' : TableSchema}
    → add_field name kind t ≡ ok t'
    → (is_schema_name name ≡ true)
      × (is_some (field name t) ≡ false)
      × (with_field name kind t ≡ t')
unfolding add_field contains_key
add_field-eq-ok name kind t e = ground (arith, ensured name)

with_field-IsValid :
    (name : Text) (kind : PrimitiveType) (t : TableSchema)
    → IsValid t
    → is_schema_name name ≡ true
    → is_some (field name t) ≡ false
    → IsValid (with_field name kind t)
with_field-IsValid name kind t v schema fresh = record {
  fields_sorted = insert-IsSorted name _ t.fields v.fields_sorted;
  lookups_sorted = v.lookups_sorted;
  order_distinct = Distinct-append name t.field_order v.order_distinct (v.order_exact name ∙ fresh);
  order_exact = λ n.
      rw (listed-append n name t.field_order, get-insert)
        (ground (arith, v.order_exact n, same→eq name n, same→eq n name, same_self n));
  field_named = λ n f. rw get-insert (ground (arith, v.field_named n f, same→eq n name));
  field_schema_name =
      λ n f. rw get-insert (ground (arith, v.field_schema_name n f, same→eq n name));
  lookup_named = v.lookup_named;
}

-- A successful `add_field` keeps the invariant.
pub add_field-IsValid :
    (name : Text) (kind : PrimitiveType) (t : TableSchema) {t' : TableSchema}
    → IsValid t
    → add_field name kind t ≡ ok t'
    → IsValid t'
add_field-IsValid name kind t v e =
    let (schema, fresh, made) = add_field-eq-ok name kind t e in
    subst IsValid made (with_field-IsValid name kind t v schema fresh)

abbrev pub extended_by_lookup : Text → Bool → TableSchema → TableSchema
extended_by_lookup name unique t = record t {
  lookups = insert name (record { field_name = name; unique = unique }) t.lookups;
}

add_lookup-eq-ok :
    (name : Text) (unique : Bool) (t : TableSchema) {t' : TableSchema}
    → add_lookup name unique t ≡ ok t'
    → extended_by_lookup name unique t ≡ t'
unfolding add_lookup
add_lookup-eq-ok name unique t e = ground arith

extended_by_lookup-IsValid :
    (name : Text) (unique : Bool) (t : TableSchema)
    → IsValid t
    → IsValid (extended_by_lookup name unique t)
extended_by_lookup-IsValid name unique t v = record {
  fields_sorted = v.fields_sorted;
  lookups_sorted = insert-IsSorted name _ t.lookups v.lookups_sorted;
  order_distinct = v.order_distinct;
  order_exact = v.order_exact;
  field_named = v.field_named;
  field_schema_name = v.field_schema_name;
  lookup_named = λ n l. rw get-insert (ground (arith, v.lookup_named n l, same→eq n name));
}

-- A successful `add_lookup` keeps the invariant.
pub add_lookup-IsValid :
    (name : Text) (unique : Bool) (t : TableSchema) {t' : TableSchema}
    → IsValid t
    → add_lookup name unique t ≡ ok t'
    → IsValid t'
add_lookup-IsValid name unique t v e =
    subst IsValid (add_lookup-eq-ok name unique t e) (extended_by_lookup-IsValid name unique t v)
