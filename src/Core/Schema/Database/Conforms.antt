-- ===== src/Core/Schema/Database/Conforms.antt =====
-- `validate_record` against a description of the records that a schema admits.
use sixpack.Prelude.{
  true, List, [], ◌∷◌, Option, none, some, ◌≡◌, ◌≢◌, ◌↔◌, refl, arith, is_some, ◌∙◌, sym,
  Option-cases, inl, inr,
}
use sixpack.Prelude.Outcome.{ok, err, ◌>>◌, panic, fault, may_fail, ensure}
use sixpack.Prelude.Order.{same→eq, same_self}
use sixpack.Prelude.Text.{Text, text_ord, codes}
use sixpack.Prelude.Map.{Map, get, contains_key, get-cons, get-nil}
use sixpack.Prelude.Map.Sorted.{IsSorted, get-tail}
use sixpack.Core.Value.{Value, matches_value}
use sixpack.Core.Error.{missing_field, unknown_table}
use sixpack.Core.Record.{Record}
use sixpack.Core.Schema.Table.{FieldSpec, TableSchema, field}
use sixpack.Core.Schema.Table.Valid.{listed}
use sixpack.Core.Schema.Database.{
  DatabaseSchema, table, check_present, check_values, validate_record,
}
use sixpack.Core.Schema.Database.Valid.{IsValid, IsAdmissible}

-- One column: the field and the value are both there, of one type, or neither is.
abbrev pub Fits : {F : Type 0} → Option FieldSpec → Option (Value F) → Type 0
Fits none none = Unit
Fits (some f) (some v) = matches_value f.kind v ≡ true
Fits none (some v) = ⊥
Fits (some f) none = ⊥

-- Every field of the table has a value of its type, and there is no other value.
abbrev pub Conforms : {F : Type 0} → TableSchema → Record F → Type 0
Conforms t r = (n : Text) → Fits (field n t) (get n r.fields)

module _ {F : Type 0} (t : TableSchema) where
  present_all :
      (fields : Map Text (Value F)) (names : List Text) (n : Text)
      → check_present t.name fields names ≡ ok tt
      → listed n names ≡ true
      → is_some (get n fields) ≡ true
  unfolding check_present contains_key
  present_all fields [] n h l = cc
  present_all fields (m ∷ names) n h l = ground (arith, same→eq m n, present_all fields names n)

  all_present :
      (fields : Map Text (Value F)) (names : List Text)
      → ((n : Text) → listed n names ≡ true → is_some (get n fields) ≡ true)
      → check_present t.name fields names ≡ ok tt
  unfolding check_present contains_key
  all_present fields [] h = refl
  all_present fields (m ∷ names) h =
      ground (arith, h m, same_self m, all_present fields names (λ n l. h n (ground arith)))

  -- the value has a field of its type
  abbrev Typed : Option FieldSpec → Value F → Type 0
  Typed none v = ⊥
  Typed (some f) v = matches_value f.kind v ≡ true

  values-Typed :
      (m : Map Text (Value F)) (n : Text) (v : Value F)
      → check_values t m ≡ ok tt
      → get n m ≡ some v
      → Typed (field n t) v
  unfolding check_values
  values-Typed [] n v h e = absurd (cc (get-nil {V = Value F} n))
  values-Typed ((k, w) ∷ m) n v h e =
      ground (arith, get-cons k n w m, same→eq n k, values-Typed m n v)

  Typed-values :
      (m : Map Text (Value F))
      → IsSorted m
      → ((n : Text) (v : Value F) → get n m ≡ some v → Typed (field n t) v)
      → check_values t m ≡ ok tt
  unfolding check_values
  Typed-values [] s h = refl
  Typed-values ((k, w) ∷ m) s h = ground (
    arith,
    h k w,
    get-cons k k w m,
    same_self k,
    Typed-values m s.1 (λ n v e. h n v (get-tail k n w v m s.0 e)),
  )

-- what `Conforms` says, field by field and value by value
module _ {F : Type 0} (t : TableSchema) (r : Record F) where
  Fits-of_parts :
      (n : Text)
      → (is_some (field n t) ≡ true → is_some (get n r.fields) ≡ true)
      → ((v : Value F) → get n r.fields ≡ some v → Typed t (field n t) v)
      → Fits (field n t) (get n r.fields)
  Fits-of_parts n p q = go (field n t) (get n r.fields) p q
    where
      go :
          (o : Option FieldSpec) (w : Option (Value F))
          → (is_some o ≡ true → is_some w ≡ true)
          → ((v : Value F) → w ≡ some v → Typed t o v)
          → Fits o w
      go none none p q = tt
      go none (some v) p q = q v refl
      go (some f) none p q = absurd (cc (p refl))
      go (some f) (some v) p q = q v refl

  Fits-is_some :
      (o : Option FieldSpec) (w : Option (Value F)) → Fits o w → is_some o ≡ true → is_some w ≡ true
  Fits-is_some none w h e = cc
  Fits-is_some (some f) none h e = absurd h
  Fits-is_some (some f) (some v) h e = refl

  Fits-Typed :
      (o : Option FieldSpec) (w : Option (Value F)) (v : Value F)
      → Fits o w
      → w ≡ some v
      → Typed t o v
  Fits-Typed none none v h e = absurd (cc)
  Fits-Typed none (some w) v h e = h
  Fits-Typed (some f) none v h e = absurd h
  Fits-Typed (some f) (some w) v h e = ground arith

module _ {F : Type 0} (r : Record F) (db : DatabaseSchema) (t : TableSchema) where
  -- the checks of `validate_record` in a row
  validate_record_steps :
      (id : FieldSpec)
      → table r.table db ≡ some t
      → field (codes "id") t ≡ some id
      → validate_record r db ≡ (
          may_fail (ensure (contains_key id.name r.fields) (missing_field t.name id.name))
          >> (may_fail (check_present t.name r.fields t.field_order)
              >> may_fail (check_values t r.fields)))
  unfolding validate_record
  validate_record_steps id found has_id = rw (found, has_id)

  steps_ok :
      (id : FieldSpec)
      → id.name ≡ codes "id"
      → is_some (get (codes "id") r.fields) ≡ true
      → check_present t.name r.fields t.field_order ≡ ok tt
      → check_values t r.fields ≡ ok tt
      → (may_fail (ensure (contains_key id.name r.fields) (missing_field t.name id.name))
          >> (may_fail (check_present t.name r.fields t.field_order)
              >> may_fail (check_values t r.fields)))
        ≡ ok tt
  unfolding contains_key
  steps_ok id named has p v = ground arith

  ok_steps :
      (id : FieldSpec)
      → (may_fail (ensure (contains_key id.name r.fields) (missing_field t.name id.name))
          >> (may_fail (check_present t.name r.fields t.field_order)
              >> may_fail (check_values t r.fields)))
        ≡ ok tt
      → (check_present t.name r.fields t.field_order ≡ ok tt) × (check_values t r.fields ≡ ok tt)
  ok_steps id h = ground arith

  Conforms-of_checks :
      IsAdmissible t
      → check_present t.name r.fields t.field_order ≡ ok tt
      → check_values t r.fields ≡ ok tt
      → Conforms t r
  Conforms-of_checks a p v n =
      Fits-of_parts t r n
        (λ f. present_all t r.fields t.field_order n p (a.valid.order_exact n ∙ f))
        (λ w e. values-Typed t r.fields n w v e)

  checks_of_Conforms :
      IsAdmissible t
      → IsSorted r.fields
      → Conforms t r
      → (check_present t.name r.fields t.field_order ≡ ok tt) × (check_values t r.fields ≡ ok tt)
  checks_of_Conforms a s c = (
    all_present t r.fields t.field_order (λ n l.
        Fits-is_some t r (field n t) (get n r.fields) (c n) (sym (a.valid.order_exact n) ∙ l)),
    Typed-values t r.fields s (λ n v e. Fits-Typed t r (field n t) (get n r.fields) v (c n) e),
  )

  -- In a valid database schema, a record of a known table whose fields are kept in key order is
  -- accepted exactly when each column of the table has a value of its type and no other value is
  -- there.
  pub validate_record-ok_iff :
      IsValid db
      → table r.table db ≡ some t
      → IsSorted r.fields
      → (validate_record r db ≡ ok tt) ↔ Conforms t r
  validate_record-ok_iff v found s =
      let a : IsAdmissible t = v.tables_admissible r.table t found in
      let steps = validate_record_steps a.id_spec found a.id_found in
      (
        λ h. let (p, w) = ok_steps a.id_spec (sym steps ∙ h) in Conforms-of_checks a p w,
        λ c.
            let (p, w) = checks_of_Conforms a s c in
            steps
            ∙ steps_ok a.id_spec (a.valid.field_named (codes "id") a.id_spec a.id_found)
                (Fits-is_some t r (field (codes "id") t) (get (codes "id") r.fields)
                  (c (codes "id")) (ground (arith, a.id_found)))
                p w,
      )

no_panic :
    {F : Type 0} (r : Record F) (db : DatabaseSchema) (id : FieldSpec) (t : TableSchema)
    → (may_fail (ensure (contains_key id.name r.fields) (missing_field t.name id.name))
        >> (may_fail (check_present t.name r.fields t.field_order)
            >> may_fail (check_values t r.fields)))
      ≢ err panic
no_panic r db id t h = ground arith

-- A record of an unknown table is refused as such, and on a valid database schema the `expect` of
-- `validate_record` never panics.
pub validate_record_total :
    {F : Type 0} (r : Record F) (db : DatabaseSchema)
    → IsValid db
    → (validate_record r db ≢ err panic)
      × (table r.table db ≡ none → validate_record r db ≡ err (fault (unknown_table r.table)))
validate_record_total r db v = (
  λ h. elim (Option-cases (table r.table db)) [
    | inl e ↦ unfold validate_record in ground arith
    | inr (t, e) ↦
        let a : IsAdmissible t = v.tables_admissible r.table t e in
        no_panic r db a.id_spec t (sym (validate_record_steps r db t a.id_spec e a.id_found) ∙ h)
  ],
  λ e. unfold validate_record in rw e,
)
