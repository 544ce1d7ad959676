-- ===== src/Format/Operation/RoundTrip.antt =====
-- Operation lines are read back as the operations that they were written for.
use sixpack.Prelude.{ℕ, ◌≤◌, [], ◌∷◌, ◌++◌, some, ◌≡◌, ◌≢◌, refl, arith, All, All-append, ◌∙◌}
use sixpack.Prelude.Outcome.{ok}
use sixpack.Prelude.Order.{list_cmp}
use sixpack.Prelude.Text.{Text, text_ord, codes}
use sixpack.Prelude.Decimal.{print_nat, u64_max}
use sixpack.Prelude.Decimal.RoundTrip.{IsDigit, print_nat-IsDigit, parse-print_nat}
use sixpack.Prelude.Map.{get}
use sixpack.Prelude.Map.Sorted.{IsSorted}
use sixpack.Core.Value.{Value, FloatText}
use sixpack.Core.Record.{Record}
use sixpack.Core.Schema.Table.{TableSchema}
use sixpack.Core.Schema.Database.Valid.{IsAdmissible}
use sixpack.Core.Schema.Database.Conforms.{Conforms}
use sixpack.Format.Escape.{escape_six_value, tab}
use sixpack.Format.Escape.Laws.{escape-IsCell, unescape-escape}
use sixpack.Format.Split.{Lacks, split_once, split_once-append}
use sixpack.Format.Row.{value_to_string}
use sixpack.Format.Row.Columns.{Readable}
use sixpack.Format.Row.RoundTrip.{IsLine, IsCell-IsLine, decode-encode_six_row}
use sixpack.Format.Operation.{
  Operation, SixOperationRecord, encode_six_operation, decode_six_operation, decode_tagged,
  three_parts,
}

digits-Lacks : (s : Text) → All IsDigit s → Lacks tab s
digits-Lacks [] h = tt
digits-Lacks (c ∷ s) h = (omega arith, digits-Lacks s h.1)

digits-IsLine : (s : Text) → All IsDigit s → IsLine s
digits-IsLine [] h = tt
digits-IsLine (c ∷ s) h = (omega arith, digits-IsLine s h.1)

-- a tagged line falls into its three parts
parts_of_line :
    (tag tx : ℕ) (tail : Text)
    → tag ≢ tab
    → three_parts (split_once tab (tag ∷ tab ∷ (print_nat tx ++ (tab ∷ tail))))
      ≡ ok (tag ∷ [], print_nat tx, tail)
parts_of_line tag tx tail h =
    rw (split_once-append tab (tag ∷ []) (print_nat tx ++ (tab ∷ tail)) (h, tt)) (
      rw
        (split_once-append tab (print_nat tx) tail
          (digits-Lacks (print_nat tx) (print_nat-IsDigit tx)))
        refl)

tagged-IsLine :
    (tag tx : ℕ) (tail : Text)
    → IsLine (tag ∷ [])
    → IsLine tail
    → IsLine (tag ∷ tab ∷ (print_nat tx ++ (tab ∷ tail)))
tagged-IsLine tag tx tail h k = (
  h.0,
  (
    omega arith,
    All-append _ (print_nat tx) (tab ∷ tail) (digits-IsLine (print_nat tx) (print_nat-IsDigit tx))
        (omega arith, k),
  ),
)

decode_line :
    {F : Type 0} ⦃float : FloatText F⦄ (t : TableSchema) (tag tx : ℕ) (tail : Text)
    → tag ≢ tab
    → tx ≤ u64_max
    → decode_six_operation {F = F} t (tag ∷ tab ∷ (print_nat tx ++ (tab ∷ tail)))
      ≡ decode_tagged t (tag ∷ []) tx tail
unfolding decode_six_operation
decode_line t tag tx tail h fits =
    rw (parts_of_line tag tx tail h) (rw (parse-print_nat u64_max tx (omega arith) fits) refl)

module _ {F : Type 0} ⦃float : FloatText F⦄ (t : TableSchema) (tx : ℕ) (r : Record F) where
  -- Let the transaction be a `u64`, and the table and the record as for a row. The put line is
  -- written, holds no line break, and is read back as a put of the record in the transaction.
  pub decode-encode_put :
      tx ≤ u64_max
      → IsAdmissible t
      → r.table ≡ t.name
      → IsSorted r.fields
      → Conforms t r
      → ((n : Text) (v : Value F) → get n r.fields ≡ some v → Readable v)
      → (line : Text) × (encode_six_operation t Operation.put tx r ≡ ok line)
        × IsLine line
        × (decode_six_operation t line ≡ ok (SixOperationRecord.put tx r))
  unfolding encode_six_operation
  decode-encode_put fits a same_table s c readable =
      let (row, encoded, clean, decoded) = decode-encode_six_row t r a same_table s c readable in
      (
        b'R' ∷ tab ∷ (print_nat tx ++ (tab ∷ row)),
        rw encoded,
        tagged-IsLine b'R' tx row (omega arith) clean,
        decode_line t b'R' tx row (λ e. omega arith) fits
            ∙ unfold decode_tagged list_cmp in rw decoded,
      )

  -- A delete line of a record with an id is written, holds no line break, and is read back as a
  -- delete of that id in the transaction; the other fields of the record do not matter.
  pub decode-encode_delete :
      (id : Text)
      → tx ≤ u64_max
      → get (codes "id") r.fields ≡ some (Value.id id)
      → (line : Text) × (encode_six_operation t Operation.delete tx r ≡ ok line)
        × IsLine line
        × (decode_six_operation {F = F} t line ≡ ok (SixOperationRecord.delete tx id))
  unfolding encode_six_operation
  decode-encode_delete id fits has = (
    b'D' ∷ tab ∷ (print_nat tx ++ (tab ∷ escape_six_value id)),
    rw has (unfold value_to_string in refl),
    tagged-IsLine b'D' tx (escape_six_value id) (omega arith)
        (IsCell-IsLine (escape_six_value id) (escape-IsCell id)),
    decode_line t b'D' tx (escape_six_value id) (λ e. omega arith) fits
        ∙ unfold decode_tagged list_cmp in rw (unescape-escape id).0,
  )
