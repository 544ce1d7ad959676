-- ===== src/Format/Row/Total.antt =====
-- `decode_six_row` on any line at all: the indexing and the `expect` in its loop.
use sixpack.Prelude.{
  List, [], ◌∷◌, true, ◌≡◌, ◌≢◌, arith, length, is_some, sym, Option-cases, inl, inr, ◌∙◌, ◌==◌,
  Bool-cases,
}
use sixpack.Prelude.Outcome.{Outcome, ok, err, ◌>>=◌, map_err, Fault, panic, fault, may_fail}
use sixpack.Prelude.Order.{same_self}
use sixpack.Prelude.Text.{Text, text_ord}
use sixpack.Core.Value.{FloatText}
use sixpack.Core.Error.{display}
use sixpack.Core.Record.{Record, new_record, insert_field}
use sixpack.Core.Schema.Table.{TableSchema, field}
use sixpack.Core.Schema.Table.Valid.{listed}
use sixpack.Core.Schema.Table.Valid as TableValid
use sixpack.Format.Error.{bad_six_record, bad_six_column_count}
use sixpack.Format.Escape.{unescape_six_value, tab}
use sixpack.Format.Split.{split}
use sixpack.Format.Row.{parse_ten_value, decode_columns, decode_six_row}

-- behind a call that may fail, only the rest may panic
may_fail->>= {ℓ κ μ} :
    {E : Type ℓ} {A : Type κ} {B : Type μ} (call : Outcome E A) (next : A → Outcome (Fault E) B)
    → ((a : A) → next a ≢ err panic)
    → (may_fail call >>= next) ≢ err panic
may_fail->>= (ok a) next h e = h a e
may_fail->>= (err bad) next h e = cc

module _ {F : Type 0} ⦃float : FloatText F⦄ where
  decode_columns-no_panic :
      (t : TableSchema) (names parts : List Text) (acc : Record F)
      → length parts ≡ length names
      → ((n : Text) → listed n names ≡ true → is_some (field n t) ≡ true)
      → decode_columns t names parts acc ≢ err panic
  unfolding decode_columns
  decode_columns-no_panic t [] parts acc same declared h = cc
  decode_columns-no_panic t (name ∷ names) [] acc same declared h = absurd (ground arith)
  decode_columns-no_panic t (name ∷ names) (part ∷ parts) acc same declared h =
      elim (Option-cases (field name t)) [
        | inl e ↦ absurd (ground (arith, e, declared name, same_self name))
        | inr (spec, e) ↦
            may_fail->>= (unescape_six_value part) _
              (λ raw. may_fail->>= (parse_ten_value spec.kind name raw) _ (λ value.
                may_fail->>=
                  (map_err (λ e. bad_six_record (display e)) (insert_field name value acc)) _
                  (λ acc'.
                    decode_columns-no_panic t names parts acc' (omega (arith, same))
                      (λ n l. declared n (ground (arith, l))))))
              (rw e at h)
      ]

  -- Whatever line is read for a valid table: `decode_six_row` does not panic, neither where it
  -- indexes the parts of the line nor where it expects a declared field; and a line with another
  -- number of parts than the table has fields is refused with the two numbers.
  pub decode_six_row_total :
      (t : TableSchema) (line : Text)
      → TableValid.IsValid t
      → (decode_six_row {F = F} t line ≢ err panic)
        × (length (split tab line) ≢ length t.field_order
            → decode_six_row {F = F} t line
              ≡ err (fault (bad_six_column_count (length t.field_order) (length (split tab line)))))
  unfolding decode_six_row
  decode_six_row_total t line valid = (
    λ h. elim (Bool-cases (length (split tab line) == length t.field_order)) [
      | inr e ↦ ground (arith, e, h)
      | inl e ↦
          decode_columns-no_panic t t.field_order (split tab line) (new_record t.name)
            (ground (arith, e)) (λ n l. sym (valid.order_exact n) ∙ l) (rw e at h)
    ],
    λ other. ground (arith, other),
  )
