-- ===== src/Compiler/Built/Lookups.antt =====
-- The lookups of a table that the compiler has checked are accepted by the core.
use sixpack.Prelude.{
  true, false, List, [], ◌∷◌, some, ◌≡◌, refl, arith, All, ◌∙◌, sym, map, is_some, ◌||◌,
  Option-cases, inl, inr,
}
use sixpack.Prelude.Outcome.{ok}
use sixpack.Prelude.Order.{same_self, same→eq}
use sixpack.Prelude.Text.{Text, text_ord}
use sixpack.Prelude.Map.{Map, insert, contains_key, values, get-insert_self}
use sixpack.Core.Identifier.{is_schema_name}
use sixpack.Core.Schema.Table.{LookupSpec, FieldSpec, TableSchema, field, lookup}
use sixpack.Core.Schema.Table.Valid.{IsValid, listed, extended_by_lookup, add_lookup-IsValid}
use sixpack.Core.Schema.Table.Added.{add_lookup-ok, lookup-extended}
use sixpack.Core.Schema.Database.{check_lookups}
use sixpack.Compiler.Ir.{LookupIr, check_ir_lookups, add_ir_lookups}

abbrev pub lookup_of : LookupIr → LookupSpec
lookup_of l = record { field_name = l.field_name; unique = l.unique }

abbrev pub lookup_names : List LookupIr → List Text
lookup_names = map (λ l. l.field_name)

-- each lookup stands on a field
abbrev pub AreOn : Map Text FieldSpec → List LookupSpec → Type 0
AreOn fields = All (λ l. contains_key l.field_name fields ≡ true)

AreOn-insert :
    (fields : Map Text FieldSpec) (n : Text) (l : LookupSpec) (m : Map Text LookupSpec)
    → contains_key l.field_name fields ≡ true
    → AreOn fields (values m)
    → AreOn fields (values (insert n l m))
unfolding insert
AreOn-insert fields n l [] h a = (h, tt)
AreOn-insert fields n l ((k, w) ∷ m) h a = ground (arith, AreOn-insert fields n l m h)

pub check_lookups-AreOn :
    (t : TableSchema) (ls : List LookupSpec) → AreOn t.fields ls → check_lookups t ls ≡ ok tt
unfolding check_lookups
check_lookups-AreOn t [] a = refl
check_lookups-AreOn t (l ∷ ls) (h, a) = rw h (check_lookups-AreOn t ls a)

-- a lookup that passes the compiler's tests
record Step (table : Text) (fields : List Text) (l : LookupIr) (ls : List LookupIr)
    (names : List Text) : Type 0 where
  on : listed l.field_name fields ≡ true
  fresh : listed l.field_name names ≡ false
  rest : check_ir_lookups table fields ls (l.field_name ∷ names) ≡ ok tt

Step-of :
    (table : Text) (fields : List Text) (l : LookupIr) (ls : List LookupIr) (names : List Text)
    → check_ir_lookups table fields (l ∷ ls) names ≡ ok tt
    → Step table fields l ls names
unfolding check_ir_lookups
Step-of table fields l ls names h = record {
  on = ground (arith, h);
  fresh = ground (arith, h);
  rest = ground (arith, h);
}

on_schema_name :
    (t : TableSchema) (n : Text) → IsValid t → is_some (field n t) ≡ true → is_schema_name n ≡ true
on_schema_name t n v h = elim (Option-cases (field n t)) [
  | inl e ↦ absurd (ground (arith, e))
  | inr (f, e) ↦ v.field_schema_name n f e
]

-- the table after the loop over the lookups
pub record LookupsBuilt (ls : List LookupIr) (t : TableSchema) : Type 0 where
  pub t' : TableSchema
  pub made : add_ir_lookups ls t ≡ ok t'
  pub valid : IsValid t'
  pub kept : (n : Text) (g : LookupSpec) → lookup n t ≡ some g → lookup n t' ≡ some g
  pub declared : All (λ l. lookup l.field_name t' ≡ some (lookup_of l)) ls
  pub only :
      (n : Text) → is_some (lookup n t') ≡ (listed n (lookup_names ls) || is_some (lookup n t))
  pub same_name : t'.name ≡ t.name
  pub same_fields : t'.fields ≡ t.fields
  pub same_order : t'.field_order ≡ t.field_order
  pub on : AreOn t'.fields (values t'.lookups)

pub add_ir_lookups-built :
    (table : Text) (fields : List Text) (ls : List LookupIr) (names : List Text) (t : TableSchema)
    → check_ir_lookups table fields ls names ≡ ok tt
    → IsValid t
    → ((n : Text) → listed n fields ≡ is_some (field n t))
    → ((n : Text) → listed n names ≡ is_some (lookup n t))
    → AreOn t.fields (values t.lookups)
    → LookupsBuilt ls t
unfolding add_ir_lookups contains_key
add_ir_lookups-built table fields [] names t h v has seen on = record {
  t' = t;
  made = refl;
  valid = v;
  kept = λ n g e. e;
  declared = tt;
  only = λ n. refl;
  same_name = refl;
  same_fields = refl;
  same_order = refl;
  on = on;
}
add_ir_lookups-built table fields (l ∷ ls) names t h v has seen on =
    let s : Step table fields l ls names = Step-of table fields l ls names h in
    let found : is_some (field l.field_name t) ≡ true = sym (has l.field_name) ∙ s.on in
    let absent : is_some (lookup l.field_name t) ≡ false = sym (seen l.field_name) ∙ s.fresh in
    let added =
      add_lookup-ok l.field_name l.unique t (on_schema_name t l.field_name v found) absent in
    let grown : TableSchema = extended_by_lookup l.field_name l.unique t in
    let r : LookupsBuilt ls grown =
      add_ir_lookups-built table fields ls (l.field_name ∷ names) grown s.rest
        (add_lookup-IsValid l.field_name l.unique t v added) has
        (λ n.
          rw (lookup-extended l.field_name l.unique t n)
            (ground (arith, seen n, same→eq l.field_name n, same→eq n l.field_name, same_self n)))
        (AreOn-insert t.fields l.field_name (lookup_of l) t.lookups found on) in
    record {
      t' = r.t';
      made = rw added r.made;
      valid = r.valid;
      kept = λ n g e. r.kept n g (
          rw (lookup-extended l.field_name l.unique t n)
            (ground (arith, absent, same→eq n l.field_name, e)));
      declared = (
        r.kept l.field_name (lookup_of l) (get-insert_self l.field_name _ t.lookups),
        r.declared,
      );
      only = λ n.
          r.only n
          ∙ rw (lookup-extended l.field_name l.unique t n)
              (ground (arith, same→eq l.field_name n, same→eq n l.field_name, same_self n));
      same_name = r.same_name;
      same_fields = r.same_fields;
      same_order = r.same_order;
      on = r.on;
    }
