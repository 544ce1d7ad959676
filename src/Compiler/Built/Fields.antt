-- ===== src/Compiler/Built/Fields.antt =====
-- The fields of a table that the compiler has checked are accepted by the core, in their order.
use sixpack.Prelude.{
  ℕ, Bool, true, false, List, [], ◌∷◌, ◌++◌, some, ◌≡◌, refl, arith, All, ◌∙◌, sym, append-nil,
  append_assoc, map, is_some, ◌||◌, all, ◌==◌, if◌then◌else◌,
}
use sixpack.Prelude.Outcome.{ok}
use sixpack.Prelude.Order.{same, same_self, same→eq}
use sixpack.Prelude.Text.{Text, text_ord, codes, is_ascii_lowercase, is_ascii_digit}
use sixpack.Prelude.Map.{contains_key, get-insert, get-insert_self}
use sixpack.Core.Value.{PrimitiveType}
use sixpack.Core.Identifier.{is_schema_name, is_name_byte}
use sixpack.Core.Identifier.Safe.{field_names_agree}
use sixpack.Core.Schema.Table.{FieldSpec, TableSchema, add_field, field}
use sixpack.Core.Schema.Table.Valid.{IsValid, listed, with_field, add_field-IsValid}
use sixpack.Compiler.Ir.{FieldIr, is_snake_case, check_ir_fields, add_ir_fields}

abbrev pub spec_of : FieldIr → FieldSpec
spec_of f = record { name = f.name; kind = f.ty }

abbrev pub names_of : List FieldIr → List Text
names_of = map (λ f. f.name)

name_chars :
    (chars : List ℕ)
    → all (λ ch. ch == b'_' || is_ascii_lowercase ch || is_ascii_digit ch) chars
      ≡ all is_name_byte chars
name_chars [] = refl
name_chars (c ∷ chars) = ground (arith, name_chars chars)

-- the compiler's test of a name is the core's
pub is_snake_case-is_schema_name : (name : Text) → is_snake_case name ≡ is_schema_name name
unfolding is_snake_case is_schema_name
is_snake_case-is_schema_name [] = refl
is_snake_case-is_schema_name (first ∷ chars) = ground (arith, name_chars chars)

add_field-ok :
    (name : Text) (kind : PrimitiveType) (t : TableSchema)
    → is_schema_name name ≡ true
    → is_some (field name t) ≡ false
    → add_field name kind t ≡ ok (with_field name kind t)
unfolding add_field contains_key
add_field-ok name kind t h fresh = ground (arith, (field_names_agree name).0.1 h)

record Step (table : Text) (f : FieldIr) (fs : List FieldIr) (names names' : List Text)
    (b b' : Bool) : Type 0 where
  schema_name : is_schema_name f.name ≡ true
  fresh : listed f.name names ≡ false
  rest : check_ir_fields table fs (f.name ∷ names) (b || same f.name (codes "id")) ≡ ok (names', b')

Step-of :
    (table : Text) (f : FieldIr) (fs : List FieldIr) (names names' : List Text) (b b' : Bool)
    → check_ir_fields table (f ∷ fs) names b ≡ ok (names', b')
    → Step table f fs names names' b b'
unfolding check_ir_fields
Step-of table f fs names names' b b' h = record {
  schema_name = ground (arith, is_snake_case-is_schema_name f.name);
  fresh = ground (arith, is_snake_case-is_schema_name f.name);
  rest = ground (arith, is_snake_case-is_schema_name f.name);
}

-- the table after the loop over the fields
pub record FieldsBuilt (fs : List FieldIr) (names' : List Text) (b' : Bool) (t : TableSchema)
    : Type 0 where
  pub t' : TableSchema
  pub made : add_ir_fields fs t ≡ ok t'
  pub valid : IsValid t'
  pub seen : (n : Text) → listed n names' ≡ is_some (field n t')
  pub flag : b' ≡ listed (codes "id") names'
  pub order : t'.field_order ≡ t.field_order ++ names_of fs
  pub kept : (n : Text) (g : FieldSpec) → field n t ≡ some g → field n t' ≡ some g
  pub declared : All (λ f. field f.name t' ≡ some (spec_of f)) fs
  pub same_name : t'.name ≡ t.name
  pub same_lookups : t'.lookups ≡ t.lookups

field-with_field :
    (name : Text) (kind : PrimitiveType) (t : TableSchema) (n : Text)
    → field n (with_field name kind t)
      ≡ (if same n name then some (record { name = name; kind = kind }) else field n t)
field-with_field name kind t n = get-insert name n _ t.fields

pub add_ir_fields-built :
    (table : Text) (fs : List FieldIr) (names names' : List Text) (b b' : Bool) (t : TableSchema)
    → check_ir_fields table fs names b ≡ ok (names', b')
    → IsValid t
    → ((n : Text) → listed n names ≡ is_some (field n t))
    → b ≡ listed (codes "id") names
    → FieldsBuilt fs names' b' t
unfolding check_ir_fields add_ir_fields
add_ir_fields-built table [] names names' b b' t h v seen flag = record {
  t' = t;
  made = refl;
  valid = v;
  seen = λ n. ground (arith, seen n);
  flag = ground arith;
  order = sym (append-nil t.field_order);
  kept = λ n g e. e;
  declared = tt;
  same_name = refl;
  same_lookups = refl;
}
add_ir_fields-built table (f ∷ fs) names names' b b' t h v seen flag =
    let s : Step table f fs names names' b b' = Step-of table f fs names names' b b' h in
    let absent : is_some (field f.name t) ≡ false = sym (seen f.name) ∙ s.fresh in
    let added = add_field-ok f.name f.ty t s.schema_name absent in
    let r : FieldsBuilt fs names' b' (with_field f.name f.ty t) =
      add_ir_fields-built table fs (f.name ∷ names) names' _ b' (with_field f.name f.ty t) s.rest
        (add_field-IsValid f.name f.ty t v added)
        (λ n.
          rw (field-with_field f.name f.ty t n)
            (ground (arith, seen n, same→eq f.name n, same→eq n f.name, same_self n)))
        (ground (arith, flag)) in
    record {
      t' = r.t';
      made = rw added r.made;
      valid = r.valid;
      seen = r.seen;
      flag = r.flag;
      order = (r.order ∙ append_assoc t.field_order (f.name ∷ []) (names_of fs));
      kept = λ n g e.
          r.kept n g
            (rw (field-with_field f.name f.ty t n) (ground (arith, absent, same→eq n f.name, e)));
      declared = (r.kept f.name (spec_of f) (get-insert_self f.name _ t.fields), r.declared);
      same_name = r.same_name;
      same_lookups = r.same_lookups;
    }
