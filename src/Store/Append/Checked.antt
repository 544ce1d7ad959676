-- ===== src/Store/Append/Checked.antt =====
-- What the checks of a batch establish: each record fits its table and has an id and the keys of
-- every lookup.
use sixpack.Prelude.{
  List, [], ◌∷◌, true, Option, none, some, ◌≡◌, refl, arith, ap, ◌∙◌, is_some, Option-cases, inl,
  inr,
}
use sixpack.Prelude.Outcome.{ok, map_err-ok}
use sixpack.Prelude.Order.{same→eq, same_self}
use sixpack.Prelude.Text.{Text, text_ord, codes}
use sixpack.Prelude.Map.{Map, get, get-cons, values}
use sixpack.Prelude.Map.Sorted.{IsSorted, get-tail}
use sixpack.Core.Value.{Value, FloatText}
use sixpack.Core.Record.{Record}
use sixpack.Core.Schema.Table.{
  TableSchema, FieldSpec, LookupSpec, field, lookup_specs_with_implicit_id,
}
use sixpack.Core.Schema.Database.{DatabaseSchema, table, validate_record}
use sixpack.Core.Schema.Database.Valid.{IsValid, IsAdmissible}
use sixpack.Core.Schema.Database.Conforms.{Conforms, Fits, validate_record-ok_iff}
use sixpack.Format.Operation.{Operation}
use sixpack.Store.Keys.{Key, record_id, record_keys, value_to_lookup_key}
use sixpack.Store.Runtime.Exact.{HasKeys}
use sixpack.Store.Batch.{validate_storage_operation, invalid_record}

Option-some : {A : Type 0} (o : Option A) → is_some o ≡ true → (a : A) × (o ≡ some a)
Option-some none h = absurd (cc)
Option-some (some a) h = (a, refl)

Fits-value :
    {F : Type 0} (f : Option FieldSpec) (o : Option (Value F))
    → Fits f o
    → is_some f ≡ true
    → (v : Value F) × (o ≡ some v)
Fits-value none o h k = absurd (cc)
Fits-value (some f) none h k = absurd h
Fits-value (some f) (some v) h k = (v, refl)

module _ {F : Type 0} ⦃float : FloatText F⦄ where
  record_keys-all :
      (fields : Map Text (Value F)) (m : Map Text LookupSpec)
      → IsSorted m
      → ((n : Text) (l : LookupSpec) → get n m ≡ some l → is_some (get l.field_name fields) ≡ true)
      → (ks : List Key) × (record_keys (values m) fields ≡ ok ks)
  unfolding record_keys
  record_keys-all fields [] s h = ([], refl)
  record_keys-all fields ((n, l) ∷ m) s h =
      let (value, has) =
        Option-some (get l.field_name fields)
          (h n l (ground (arith, get-cons n n l m, same_self n))) in
      let (ks, e) = record_keys-all fields m s.1 (λ j k f. h j k (get-tail n j l k m s.0 f)) in
      ((l.field_name, value_to_lookup_key value) ∷ ks, rw (has, e) refl)

  Fits-some :
      (t : TableSchema) (r : Record F) (n : Text)
      → Conforms t r
      → is_some (field n t) ≡ true
      → (v : Value F) × (get n r.fields ≡ some v)
  Fits-some t r n c h = Fits-value (field n t) (get n r.fields) (c n) h

  -- a record of an admitted table that conforms to it has an id and a value in every lookup
  Conforms-HasKeys : (t : TableSchema) (r : Record F) → IsAdmissible t → Conforms t r → HasKeys t r
  unfolding lookup_specs_with_implicit_id record_keys
  Conforms-HasKeys t r a c =
      let (value, has) = Fits-some t r (codes "id") c (ground (arith, a.id_found)) in
      let (ks, e) = record_keys-all r.fields t.lookups a.valid.lookups_sorted (λ n l f.
        let named : l.field_name ≡ n = a.valid.lookup_named n l f in
        let (v, h) = Fits-some t r n c (a.lookups_declared n l f) in rw (named, h) refl) in
      ((codes "id", value_to_lookup_key value) ∷ ks, rw (has, e) refl)

  Conforms-record_id :
      (t : TableSchema) (r : Record F)
      → IsAdmissible t
      → Conforms t r
      → (id : Text) × (record_id r ≡ ok id)
  unfolding record_id
  Conforms-record_id t r a c =
      let (value, has) = Fits-some t r (codes "id") c (ground (arith, a.id_found)) in
      (value_to_lookup_key value, rw has refl)

  -- what the check of an operation leaves known of its record
  pub record IsChecked (t : TableSchema) (op : Operation) (r : Record F) : Type 0 where
    pub id : Text
    pub named : record_id r ≡ ok id
    pub fits : op ≡ Operation.put → (r.table ≡ t.name) × Conforms t r × HasKeys t r
    pub deleted : op ≡ Operation.delete → get (codes "id") r.fields ≡ some (Value.id id)

  module _ (db : DatabaseSchema) (t : TableSchema) where
    put-IsChecked :
        (r : Record F)
        → IsValid db
        → table t.name db ≡ some t
        → IsSorted r.fields
        → validate_storage_operation db t (record { operation = Operation.put; record_ = r })
          ≡ ok tt
        → IsChecked t Operation.put r
    unfolding validate_storage_operation
    put-IsChecked r v found s h =
        let e : r.table ≡ t.name = same→eq r.table t.name (ground arith) in
        let valid : validate_record r db ≡ ok tt =
          map_err-ok invalid_record (validate_record r db) (ground arith) in
        let c : Conforms t r =
          (validate_record-ok_iff r db t v (ap (λ n. table n db) e ∙ found) s).0 valid in
        let a = v.tables_admissible t.name t found in
        let (id, named) = Conforms-record_id t r a c in
        record {
          id = id;
          named = named;
          fits = λ p. (e, c, Conforms-HasKeys t r a c);
          deleted = λ p. absurd (cc);
        }

    delete-IsChecked :
        (r : Record F)
        → validate_storage_operation db t (record { operation = Operation.delete; record_ = r })
          ≡ ok tt
        → IsChecked t Operation.delete r
    unfolding validate_storage_operation record_id
    delete-IsChecked r h = elim (Option-cases (get (codes "id") r.fields)) [
      | inl e ↦ absurd (ground (arith, e))
      | inr (v, e) ↦ by_value v e
    ]
      where
        by_value :
            (v : Value F) → get (codes "id") r.fields ≡ some v → IsChecked t Operation.delete r
        by_value (Value.id id) e = record {
          id = id;
          named = rw e (unfold value_to_lookup_key in refl);
          fits = λ p. absurd (cc);
          deleted = λ p. e;
        }
        by_value (Value.text v) e = absurd (ground (arith, e))
        by_value (Value.int v) e = absurd (ground (arith, e))
        by_value (Value.float v) e = absurd (ground (arith, e))
        by_value (Value.bool v) e = absurd (ground (arith, e))

    -- the fields of every put are in key order
    pub check-IsChecked :
        (op : Operation) (r : Record F)
        → IsValid db
        → table t.name db ≡ some t
        → (op ≡ Operation.put → IsSorted r.fields)
        → validate_storage_operation db t (record { operation = op; record_ = r }) ≡ ok tt
        → IsChecked t op r
    check-IsChecked Operation.put r v found s h = put-IsChecked r v found (s refl) h
    check-IsChecked Operation.delete r v found s h = delete-IsChecked r h
