-- ===== src/Format/Row/Sound.antt =====
-- Whatever line is read, the record that comes back conforms to the table.
use sixpack.Prelude.{
  List, [], ◌∷◌, true, false, Option, none, some, ◌≡◌, refl, arith, is_some, ◌∙◌, sym, subst,
  Bool-cases, Option-cases, inl, inr,
}
use sixpack.Prelude.Outcome.{ok, ◌>>=◌, map_err-ok, >>=-eq-ok, fault, may_fail, map_err}
use sixpack.Prelude.Order.{same, same_self, same→eq}
use sixpack.Prelude.Text.{Text, text_ord}
use sixpack.Prelude.Map.{Map, get, insert, get-insert, get-nil}
use sixpack.Prelude.Map.Sorted.{IsSorted, insert-IsSorted}
use sixpack.Core.Value.{PrimitiveType, Value, FloatText, matches_value}
use sixpack.Core.Record.{Record, new_record, insert_field}
use sixpack.Core.Schema.Table.{FieldSpec, TableSchema, field}
use sixpack.Core.Schema.Table.Valid.{listed}
use sixpack.Core.Schema.Table.Valid as TableValid
use sixpack.Core.Schema.Database.Conforms.{Fits, Conforms}
use sixpack.Core.Error.{display}
use sixpack.Format.Error.{bad_six_record}
use sixpack.Format.Escape.{unescape_six_value, tab}
use sixpack.Format.Split.{split}
use sixpack.Format.Row.{parse_ten_value, decode_columns, decode_six_row}

module _ {F : Type 0} ⦃float : FloatText F⦄ where
  parse-matches :
      (k : PrimitiveType) (name s : Text) (v : Value F)
      → parse_ten_value k name s ≡ ok v
      → matches_value k v ≡ true
  unfolding parse_ten_value matches_value
  parse-matches PrimitiveType.id name s v h = ground arith
  parse-matches PrimitiveType.text name s v h = ground arith
  parse-matches PrimitiveType.int name s v h = ground arith
  parse-matches PrimitiveType.float name s v h = ground arith
  parse-matches PrimitiveType.bool name s v h = ground arith

  insert_field-eq-ok :
      (name : Text) (v : Value F) (r : Record F) {r' : Record F}
      → insert_field name v r ≡ ok r'
      → record r { fields = insert name v r.fields } ≡ r'
  unfolding insert_field
  insert_field-eq-ok name v r h = ground arith

  -- one round of the loop that went well
  record Round (t : TableSchema) (name : Text) (names parts : List Text) (acc r : Record F)
      : Type 0 where
    spec : FieldSpec
    value : Value F
    found : field name t ≡ some spec
    fits : matches_value spec.kind value ≡ true
    rest :
        decode_columns t names parts (record acc { fields = insert name value acc.fields }) ≡ ok r

  round :
      (t : TableSchema) (name : Text) (names : List Text) (part : Text) (parts : List Text)
      (acc : Record F) {r : Record F}
      → decode_columns t (name ∷ names) (part ∷ parts) acc ≡ ok r
      → Round t name names parts acc r
  unfolding decode_columns
  round t name names part parts acc {r} h = elim (Option-cases (field name t)) [
    | inl e ↦ absurd (ground arith)
    | inr (spec, e) ↦ go spec e (rw e at h)
  ]
    where
      go :
          (spec : FieldSpec)
          → field name t ≡ some spec
          → (may_fail (unescape_six_value part) >>= λ raw.
              may_fail (parse_ten_value spec.kind name raw) >>= λ value.
              may_fail (map_err (λ e. bad_six_record (display e)) (insert_field name value acc))
              >>= λ acc'. decode_columns t names parts acc')
            ≡ ok r
          → Round t name names parts acc r
      go spec e k =
          let (raw, p, k₁) = >>=-eq-ok (may_fail (unescape_six_value part)) _ k in
          let (value, q, k₂) = >>=-eq-ok (may_fail (parse_ten_value spec.kind name raw)) _ k₁ in
          let (acc', s, k₃) =
            >>=-eq-ok
              (may_fail (map_err (λ e. bad_six_record (display e)) (insert_field name value acc))) _
              k₂ in
          record {
            spec = spec;
            value = value;
            found = e;
            fits =
                parse-matches spec.kind name raw value
                  (map_err-ok fault (parse_ten_value spec.kind name raw) q);
            rest =
                subst (λ a. decode_columns t names parts a ≡ ok r)
                  (sym (
                    insert_field-eq-ok name value acc (
                      map_err-ok (λ e. bad_six_record (display e)) (insert_field name value acc)
                        (map_err-ok fault _ s))))
                  k₃;
          }

  -- What the loop leaves: sorted fields of the same table, every listed column filled with a
  -- value of its type, and the others as they were.
  record Filled (t : TableSchema) (names : List Text) (acc r : Record F) : Type 0 where
    same_table : acc.table ≡ r.table
    sorted : IsSorted acc.fields → IsSorted r.fields
    filled : (k : Text) → listed k names ≡ true → Fits (field k t) (get k r.fields)
    kept : (k : Text) → listed k names ≡ false → get k r.fields ≡ get k acc.fields

  -- the column that a round has filled, seen in the map that it made
  Fits-inserted :
      (t : TableSchema) (name k : Text) (spec : FieldSpec) (value : Value F)
      (m : Map Text (Value F))
      → field name t ≡ some spec
      → matches_value spec.kind value ≡ true
      → same name k ≡ true
      → Fits (field k t) (get k (insert name value m))
  Fits-inserted t name k spec value m found fits e =
      subst (λ j. Fits (field j t) (get j (insert name value m))) (same→eq name k e)
        (rw (found, get-insert, same_self name) fits)

  fill :
      (t : TableSchema) (names parts : List Text) (acc r : Record F)
      → decode_columns t names parts acc ≡ ok r
      → Filled t names acc r
  fill t [] parts acc r h =
      let same : acc ≡ r = unfold decode_columns in ground arith in
      subst (λ x. Filled t [] acc x) same
        (record {
          same_table = refl;
          sorted = λ s. s;
          filled = λ k l. absurd (cc);
          kept = λ k l. refl;
        })
  fill t (name ∷ names) [] acc r h = absurd (unfold decode_columns in cc)
  fill t (name ∷ names) (part ∷ parts) acc r h =
      let s : Round t name names parts acc r = round t name names part parts acc h in
      let d : Filled t names (record acc { fields = insert name s.value acc.fields }) r =
        fill t names parts (record acc { fields = insert name s.value acc.fields }) r s.rest in
      record {
        same_table = d.same_table;
        sorted = λ o. d.sorted (insert-IsSorted name s.value acc.fields o);
        filled = λ k l. elim (Bool-cases (listed k names)) [
          | inl later ↦ d.filled k later
          | inr now ↦
              subst (λ w. Fits (field k t) w) (sym (d.kept k now))
                (Fits-inserted t name k s.spec s.value acc.fields s.found s.fits (ground arith))
        ];
        kept = λ k l.
            d.kept k (ground arith)
            ∙ ground (arith, get-insert name k s.value acc.fields, same→eq k name, same_self name);
      }

  decode_six_row-eq-ok :
      (t : TableSchema) (line : Text) {r : Record F}
      → decode_six_row t line ≡ ok r
      → decode_columns t t.field_order (split tab line) (new_record t.name) ≡ ok r
  unfolding decode_six_row
  decode_six_row-eq-ok t line h = ground arith

  Fits-absent :
      (o : Option FieldSpec) (w : Option (Value F)) → is_some o ≡ false → w ≡ none → Fits o w
  Fits-absent none none e h = tt
  Fits-absent none (some v) e h = absurd (cc)
  Fits-absent (some f) w e h = absurd (cc)

  -- Whatever line is read for a valid table, a record that comes back belongs to the table, keeps
  -- its fields in key order and conforms to the table's schema.
  pub decode_six_row-Conforms :
      (t : TableSchema) (line : Text) {r : Record F}
      → TableValid.IsValid t
      → decode_six_row t line ≡ ok r
      → (r.table ≡ t.name) × IsSorted r.fields × Conforms t r
  decode_six_row-Conforms t line {r} valid h =
      let d : Filled t t.field_order (new_record t.name) r =
        fill t t.field_order (split tab line) (new_record t.name) r
          (decode_six_row-eq-ok t line h) in
      (
        sym d.same_table,
        d.sorted tt,
        λ k. elim (Bool-cases (listed k t.field_order)) [
          | inl l ↦ d.filled k l
          | inr l ↦
              Fits-absent (field k t) (get k r.fields) (sym (valid.order_exact k) ∙ l)
                (d.kept k l ∙ get-nil k)
        ],
      )
