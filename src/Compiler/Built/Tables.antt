-- ===== src/Compiler/Built/Tables.antt =====
-- A schema that the compiler has checked is accepted by the core, table by table.
use sixpack.Prelude.{
  Bool, true, false, not, List, [], ◌∷◌, some, ◌≡◌, refl, arith, All, ◌∙◌, sym, subst, ap, map,
  is_some, ◌||◌, if◌then◌else◌, Option-cases, inl, inr,
}
use sixpack.Prelude.Outcome.{ok, Outcome-cases}
use sixpack.Prelude.Order.{same, same_self, same→eq}
use sixpack.Prelude.Text.{Text, text_ord, codes}
use sixpack.Prelude.Map.{get, contains_key, values, get-insert, get-nil}
use sixpack.Core.Identifier.{table_name, is_schema_name}
use sixpack.Core.Schema.Table.{FieldSpec, TableSchema, new_table, field, lookup}
use sixpack.Core.Schema.Table.Valid.{listed, new_table-IsValid}
use sixpack.Core.Schema.Table.Valid as TableValid
use sixpack.Core.Schema.Database.{DatabaseSchema, table, is_id_type, check_lookups, add_table}
use sixpack.Core.Schema.Database.Valid.{IsValid, with_table, add_table-IsValid}
use sixpack.Compiler.Ir.{
  FieldIr, TableIr, check_ir_fields, check_ir_lookups, check_ir_table, check_ir_tables,
  add_ir_fields, add_ir_lookups, add_ir_tables,
}
use sixpack.Compiler.Built.Fields.{
  spec_of, names_of, is_snake_case-is_schema_name, FieldsBuilt, add_ir_fields-built,
}
use sixpack.Compiler.Built.Lookups.{
  lookup_of, lookup_names, AreOn, check_lookups-AreOn, LookupsBuilt, add_ir_lookups-built,
}

-- a field called `id` has the type `id`
abbrev pub id_is_id : FieldIr → Bool
id_is_id f = not (same f.name (codes "id")) || is_id_type f.ty

abbrev pub HasIds : TableIr → Type 0
HasIds t = All (λ f. id_is_id f ≡ true) t.fields

-- the table of the core says what the compiled table says
pub record IsBuilt (ti : TableIr) (t : TableSchema) : Type 0 where
  pub named : t.name ≡ ti.name
  pub order : t.field_order ≡ names_of ti.fields
  pub fields : All (λ f. field f.name t ≡ some (spec_of f)) ti.fields
  pub lookups : All (λ l. lookup l.field_name t ≡ some (lookup_of l)) ti.lookups
  pub only : (n : Text) → is_some (lookup n t) ≡ listed n (lookup_names ti.lookups)

id_kind :
    (fs : List FieldIr) (t : TableSchema) (g : FieldSpec)
    → All (λ f. field f.name t ≡ some (spec_of f)) fs
    → All (λ f. id_is_id f ≡ true) fs
    → listed (codes "id") (names_of fs) ≡ true
    → field (codes "id") t ≡ some g
    → is_id_type g.kind ≡ true
id_kind [] t g d ids h e = cc
id_kind (f ∷ fs) t g d ids h e = ground (arith, same→eq f.name (codes "id"), d.1, id_kind fs t g)

-- the table that the body of the loop over the tables makes
record TableBuilt (ti : TableIr) : Type 0 where
  with_fields : TableSchema
  built : TableSchema
  made_fields : add_ir_fields ti.fields (new_table ti.name) ≡ ok with_fields
  made_lookups : add_ir_lookups ti.lookups with_fields ≡ ok built
  valid : TableValid.IsValid built
  is_built : IsBuilt ti built
  id_spec : FieldSpec
  id_found : field (codes "id") built ≡ some id_spec
  id_type : is_id_type id_spec.kind ≡ true
  lookups_on : check_lookups built (values built.lookups) ≡ ok tt

lookups-built :
    (ti : TableIr) (names : List Text) (f : FieldsBuilt ti.fields names true (new_table ti.name))
    → check_ir_lookups ti.name names ti.lookups [] ≡ ok tt
    → LookupsBuilt ti.lookups f.t'
lookups-built ti names f h =
    add_ir_lookups-built ti.name names ti.lookups [] f.t' h f.valid f.seen
      (λ n. subst (λ m. false ≡ is_some (get n m)) (sym f.same_lookups) (rw get-nil refl))
      (subst (λ m. AreOn f.t'.fields (values m)) (sym f.same_lookups) tt)

TableBuilt-from :
    (ti : TableIr) (names : List Text) (f : FieldsBuilt ti.fields names true (new_table ti.name))
    → LookupsBuilt ti.lookups f.t'
    → HasIds ti
    → TableBuilt ti
TableBuilt-from ti names f l ids =
    let no_lookup : (n : Text) → is_some (lookup n f.t') ≡ false =
      λ n. subst (λ m. is_some (get n m) ≡ false) (sym f.same_lookups) (rw get-nil refl) in
    let kept : All (λ g. field g.name l.t' ≡ some (spec_of g)) ti.fields =
      subst (λ m. All (λ g. get g.name m ≡ some (spec_of g)) ti.fields) (sym l.same_fields)
        f.declared in
    let order : l.t'.field_order ≡ names_of ti.fields = l.same_order ∙ f.order in
    let has_id : is_some (field (codes "id") l.t') ≡ true =
      ap (λ m. is_some (get (codes "id") m)) l.same_fields
      ∙ sym (f.seen (codes "id"))
      ∙ sym f.flag in
    elim (Option-cases (field (codes "id") l.t')) [
      | inl e ↦ absurd (ground (arith, has_id, e))
      | inr (g, e) ↦ record {
        with_fields = f.t';
        built = l.t';
        made_fields = f.made;
        made_lookups = l.made;
        valid = l.valid;
        is_built = record {
          named = l.same_name ∙ f.same_name;
          order = order;
          fields = kept;
          lookups = l.declared;
          only = λ n. ground (arith, l.only n, no_lookup n);
        };
        id_spec = g;
        id_found = e;
        id_type =
            id_kind ti.fields l.t' g kept ids
              (ap (listed (codes "id")) (sym order) ∙ l.valid.order_exact (codes "id") ∙ has_id) e;
        lookups_on = check_lookups-AreOn l.t' (values l.t'.lookups) l.on;
      }
    ]

-- a table that passes the compiler's tests
record Checked (ti : TableIr) : Type 0 where
  names : List Text
  fields : check_ir_fields ti.name ti.fields [] false ≡ ok (names, true)
  lookups : check_ir_lookups ti.name names ti.lookups [] ≡ ok tt

Checked-of : (ti : TableIr) → check_ir_table ti ≡ ok tt → Checked ti
unfolding check_ir_table
Checked-of ti h = elim (Outcome-cases (check_ir_fields ti.name ti.fields [] false)) [
  | inr (bad, e) ↦ absurd (ground (arith, h, e))
  | inl ((names, false), e) ↦ absurd (ground (arith, h, e))
  | inl ((names, true), e) ↦ record { names = names; fields = e; lookups = ground (arith, h, e) }
]

TableBuilt-of : (ti : TableIr) → check_ir_table ti ≡ ok tt → HasIds ti → TableBuilt ti
TableBuilt-of ti h ids =
    let c = Checked-of ti h in
    let f : FieldsBuilt ti.fields c.names true (new_table ti.name) =
      add_ir_fields-built ti.name ti.fields [] c.names false true (new_table ti.name) c.fields
        (new_table-IsValid ti.name) (λ n. rw (get-nil {V = FieldSpec} n) refl) refl in
    TableBuilt-from ti c.names f (lookups-built ti c.names f c.lookups) ids

-- the database after the loop over the tables
pub record TablesBuilt (ts : List TableIr) (db : DatabaseSchema) : Type 0 where
  pub db' : DatabaseSchema
  pub made : add_ir_tables ts db ≡ ok db'
  pub valid : IsValid db'
  pub kept : (n : Text) (t : TableSchema) → table n db ≡ some t → table n db' ≡ some t
  pub declared : All (λ ti. (t : TableSchema) × (table ti.name db' ≡ some t) × IsBuilt ti t) ts
  pub only :
      (n : Text)
      → is_some (table n db')
        ≡ (listed n (map (λ (ti : TableIr). ti.name) ts) || is_some (table n db))

-- a table that passes the tests of the loop
record Step (ti : TableIr) (ts : List TableIr) (names : List Text) : Type 0 where
  schema_name : is_schema_name ti.name ≡ true
  fresh : listed ti.name names ≡ false
  passes : check_ir_table ti ≡ ok tt
  rest : check_ir_tables ts (ti.name ∷ names) ≡ ok tt

Step-of :
    (ti : TableIr) (ts : List TableIr) (names : List Text)
    → check_ir_tables (ti ∷ ts) names ≡ ok tt
    → Step ti ts names
unfolding check_ir_tables
Step-of ti ts names h = elim (Outcome-cases (check_ir_table ti)) [
  | inr (bad, e) ↦ absurd (ground (arith, h, e))
  | inl (tt, e) ↦ record {
    schema_name = ground (arith, h, is_snake_case-is_schema_name ti.name);
    fresh = ground (arith, h);
    passes = e;
    rest = ground (arith, h, e);
  }
]

add_table-ok :
    (ti : TableIr) (db : DatabaseSchema) (b : TableBuilt ti)
    → is_schema_name ti.name ≡ true
    → is_some (table ti.name db) ≡ false
    → add_table b.built db ≡ ok (with_table b.built db)
unfolding add_table table_name contains_key
add_table-ok ti db b h fresh =
    let named = b.is_built.named in
    let n1 : is_schema_name b.built.name ≡ true =
      subst (λ m. is_schema_name m ≡ true) (sym named) h in
    let n2 : is_some (table b.built.name db) ≡ false =
      subst (λ m. is_some (table m db) ≡ false) (sym named) fresh in
    ground (arith, n1, n2, b.id_found, b.id_type, b.lookups_on)

table-with_table :
    (t : TableSchema) (name : Text) (db : DatabaseSchema) (n : Text)
    → t.name ≡ name
    → table n (with_table t db) ≡ (if same n name then some t else table n db)
table-with_table t name db n e =
    subst (λ m. table n (with_table t db) ≡ (if same n m then some t else table n db)) e
      (get-insert t.name n t db.tables)

pub add_ir_tables-built :
    (ts : List TableIr) (names : List Text) (db : DatabaseSchema)
    → check_ir_tables ts names ≡ ok tt
    → All HasIds ts
    → IsValid db
    → ((n : Text) → listed n names ≡ is_some (table n db))
    → TablesBuilt ts db
unfolding add_ir_tables
add_ir_tables-built [] names db h ids v seen = record {
  db' = db;
  made = refl;
  valid = v;
  kept = λ n t e. e;
  declared = tt;
  only = λ n. refl;
}
add_ir_tables-built (ti ∷ ts) names db h (id, ids) v seen =
    let s : Step ti ts names = Step-of ti ts names h in
    let b : TableBuilt ti = TableBuilt-of ti s.passes id in
    let absent : is_some (table ti.name db) ≡ false = sym (seen ti.name) ∙ s.fresh in
    let added = add_table-ok ti db b s.schema_name absent in
    let r : TablesBuilt ts (with_table b.built db) =
      add_ir_tables-built ts (ti.name ∷ names) (with_table b.built db) s.rest ids
        (add_table-IsValid b.built db b.valid v added).0
        (λ n.
          rw (table-with_table b.built ti.name db n b.is_built.named)
            (ground (arith, seen n, same→eq ti.name n, same→eq n ti.name, same_self n))) in
    record {
      db' = r.db';
      made = rw (b.made_fields, b.made_lookups, added) r.made;
      valid = r.valid;
      kept = λ n t e. r.kept n t (
          rw (table-with_table b.built ti.name db n b.is_built.named)
            (ground (arith, absent, same→eq n ti.name, e)));
      declared = (
        (
          b.built,
          r.kept ti.name b.built (
              table-with_table b.built ti.name db ti.name b.is_built.named
              ∙ (rw (same_self ti.name) refl)),
          b.is_built,
        ),
        r.declared,
      );
      only = λ n.
          r.only n
          ∙ rw (table-with_table b.built ti.name db n b.is_built.named)
              (ground (arith, same→eq ti.name n, same→eq n ti.name, same_self n));
    }
