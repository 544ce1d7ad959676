-- ===== src/Core/Schema/Table/Added.antt =====
-- What `add_lookup` does to a table, said without its clauses.
use sixpack.Prelude.{
  Bool, true, false, none, some, ◌≡◌, ◌↔◌, refl, arith, ◌∙◌, sym, subst, ap, is_some, if◌then◌else◌,
  Option-cases, inl, inr,
}
use sixpack.Prelude.Outcome.{ok}
use sixpack.Prelude.Order.{same, same_self, same→eq}
use sixpack.Prelude.Text.{Text, text_ord}
use sixpack.Prelude.Map.{contains_key, get-insert}
use sixpack.Prelude.Map.Sorted.{insert-IsSorted, SameGet-eq}
use sixpack.Core.Identifier.{ensure_public_field_name, is_schema_name}
use sixpack.Core.Identifier.Safe.{field_names_agree}
use sixpack.Core.Schema.Table.{LookupSpec, TableSchema, add_lookup, lookup}
use sixpack.Core.Schema.Table.Valid.{IsValid, extended_by_lookup, add_lookup-IsValid}

-- `t'` is `t` with one new lookup
pub record IsAdded (name : Text) (unique : Bool) (t t' : TableSchema) : Type 0 where
  pub schema_name : is_schema_name name ≡ true
  pub new : lookup name t ≡ none
  pub valid : IsValid t'
  pub same_name : t'.name ≡ t.name
  pub same_order : t'.field_order ≡ t.field_order
  pub same_fields : t'.fields ≡ t.fields
  pub found : lookup name t' ≡ some (record { field_name = name; unique = unique })
  -- every lookup of before is kept as it is
  pub kept : (n : Text) (l : LookupSpec) → lookup n t ≡ some l → lookup n t' ≡ some l
  -- and no other lookup has come
  pub only :
      (n : Text) → is_some (lookup n t') ≡ true → same n name ≡ false → is_some (lookup n t) ≡ true

pub add_lookup-ok :
    (name : Text) (unique : Bool) (t : TableSchema)
    → is_schema_name name ≡ true
    → is_some (lookup name t) ≡ false
    → add_lookup name unique t ≡ ok (extended_by_lookup name unique t)
unfolding add_lookup contains_key
add_lookup-ok name unique t h fresh = ground (arith, (field_names_agree name).0.1 h)

checked :
    (name : Text) (unique : Bool) (t : TableSchema) {t' : TableSchema}
    → add_lookup name unique t ≡ ok t'
    → (ensure_public_field_name name ≡ ok tt)
      × (is_some (lookup name t) ≡ false)
      × (extended_by_lookup name unique t ≡ t')
unfolding add_lookup contains_key
checked name unique t e = ground (arith, e)

pub lookup-extended :
    (name : Text) (unique : Bool) (t : TableSchema) (n : Text)
    → lookup n (extended_by_lookup name unique t)
      ≡ (if same n name then some (record { field_name = name; unique = unique }) else lookup n t)
lookup-extended name unique t n = get-insert name n _ t.lookups

extended-IsAdded :
    (name : Text) (unique : Bool) (t : TableSchema)
    → is_schema_name name ≡ true
    → is_some (lookup name t) ≡ false
    → IsValid (extended_by_lookup name unique t)
    → IsAdded name unique t (extended_by_lookup name unique t)
extended-IsAdded name unique t schema fresh valid = record {
  schema_name = schema;
  new = ground (arith, fresh);
  valid = valid;
  same_name = refl;
  same_order = refl;
  same_fields = refl;
  found = rw (lookup-extended name unique t name, same_self name) refl;
  kept = λ n l e. rw (lookup-extended name unique t n) (ground (arith, fresh, e, same→eq n name));
  only = λ n. rw (lookup-extended name unique t n) (λ h d. ground (arith, h, d));
}

lookup-IsAdded :
    (name : Text) (unique : Bool) (t t' : TableSchema) (n : Text)
    → IsAdded name unique t t'
    → lookup n t'
      ≡ (if same n name then some (record { field_name = name; unique = unique }) else lookup n t)
lookup-IsAdded name unique t t' n a = elim (Option-cases (lookup n t)) [
  | inr (l, e) ↦ ground (arith, e, a.new, a.kept n l e, same→eq n name)
  | inl e ↦ ground (arith, e, a.found, a.only n, same→eq n name)
]

-- a table that `IsAdded` describes is the extended one
IsAdded-eq :
    (name : Text) (unique : Bool) (t t' : TableSchema)
    → IsValid t
    → IsAdded name unique t t'
    → t' ≡ extended_by_lookup name unique t
IsAdded-eq name unique t t' v a =
    let lookups : t'.lookups ≡ (extended_by_lookup name unique t).lookups =
      SameGet-eq t'.lookups _ a.valid.lookups_sorted
        (insert-IsSorted name _ t.lookups v.lookups_sorted)
        (λ n. lookup-IsAdded name unique t t' n a ∙ sym (get-insert name n _ t.lookups)) in
    cc (a.same_name, a.same_order, a.same_fields, lookups)

-- On a valid table `add_lookup` succeeds with a table exactly when that table is the old one with
-- one lookup more: the name is a schema name that had no lookup, the name, the fields and their
-- order are the same, the new lookup has the given flag, every lookup of before is kept as it is, no
-- other has come, and the table is valid.
pub add_lookup-ok_iff :
    (name : Text) (unique : Bool) (t t' : TableSchema)
    → IsValid t
    → (add_lookup name unique t ≡ ok t') ↔ IsAdded name unique t t'
add_lookup-ok_iff name unique t t' v = (
  λ e.
      let (public, fresh, made) = checked name unique t e in
      subst (IsAdded name unique t) made (
        extended-IsAdded name unique t ((field_names_agree name).0.0 public) fresh
          (subst IsValid (sym made) (add_lookup-IsValid name unique t v e))),
  λ a.
      add_lookup-ok name unique t a.schema_name (ap is_some a.new)
      ∙ ap ok (sym (IsAdded-eq name unique t t' v a)),
)
