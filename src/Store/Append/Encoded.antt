-- ===== src/Store/Append/Encoded.antt =====
-- The lines of a batch: each is read back as its operation, and no row is touched twice.
use sixpack.Prelude.{
  ℕ, suc, ◌+◌, ◌%◌, ◌≤◌, List, [], ◌∷◌, ◌++◌, Bool, true, false, some, ◌≡◌, refl, arith, All, ap,
  sym, subst, inl, inr, Bool-cases, length,
}
use sixpack.Prelude.Outcome.{Outcome, ok, err, ok_or, >>=-eq-ok, Outcome-cases}
use sixpack.Prelude.Text.{Text, text_ord, codes, starts_with}
use sixpack.Prelude.Decimal.{print_nat, u64_max}
use sixpack.Prelude.Map.{Map, Keys, get, insert, contains_key}
use sixpack.Prelude.Map.Sorted.{IsSorted}
use sixpack.Core.Value.{Value, FloatText}
use sixpack.Core.Record.{Record}
use sixpack.Core.Schema.Table.{TableSchema}
use sixpack.Core.Schema.Database.Valid.{IsAdmissible}
use sixpack.Format.Escape.{escape_six_value, tab}
use sixpack.Format.Error.{bad_six_record}
use sixpack.Format.Row.{encode_six_row, value_to_string}
use sixpack.Format.Row.Columns.{Readable}
use sixpack.Format.Row.RoundTrip.{IsLine}
use sixpack.Format.Lines.{ended}
use sixpack.Format.Operation.{Operation, SixOperationRecord, encode_six_operation}
use sixpack.Format.Operation.RoundTrip.{decode-encode_put, decode-encode_delete}
use sixpack.Store.Error.{IoError}
use sixpack.Store.Keys.{Key, record_id}
use sixpack.Store.Runtime.{RuntimeSixb}
use sixpack.Store.Batch.{AppendOperation}
use sixpack.Store.Scan.{is_operation_line}
use sixpack.Store.Scan.Written.{IsWritten}
use sixpack.Store.Append.{EncodedAppend, encode_batch, check_operation, u64_limit}
use sixpack.Store.Append.Checked.{IsChecked}

abbrev or_nil : Outcome IoError Text → Text
or_nil (ok id) = id
or_nil (err e) = []

module _ {F : Type 0} ⦃float : FloatText F⦄ where
  abbrev pub id_of : Record F → Text
  id_of r = or_nil (record_id r)

  -- the operation that a line is written for
  abbrev pub written_op : Operation → ℕ → Record F → SixOperationRecord F
  written_op Operation.put tx r = SixOperationRecord.put tx r
  written_op Operation.delete tx r = SixOperationRecord.delete tx (id_of r)

  -- the operations of a batch, without their lines
  abbrev pub operations_of : List (EncodedAppend F) → List (AppendOperation F)
  operations_of [] = []
  operations_of (e ∷ es) =
      record { operation = e.operation; record_ = e.record_ } ∷ operations_of es

  -- the ids are new and differ from each other
  abbrev pub AreFresh : Keys Text → List (EncodedAppend F) → Type 0
  AreFresh ids [] = Unit
  AreFresh ids (e ∷ es) =
      (contains_key (id_of e.record_) ids ≡ false) × AreFresh (insert (id_of e.record_) tt ids) es

  encode-tagged :
      (t : TableSchema) (op : Operation) (tx : ℕ) (r : Record F) (line : Text)
      → encode_six_operation t op tx r ≡ ok line
      → is_operation_line line ≡ true
  unfolding encode_six_operation starts_with
  encode-tagged t Operation.put tx r line h =
      let (row, e1, e2) =
        >>=-eq-ok (encode_six_row t r) (λ row. ok (b'R' ∷ tab ∷ (print_nat tx ++ (tab ∷ row)))) h in
      ground arith
  encode-tagged t Operation.delete tx r line h =
      let (id, e1, e2) =
        >>=-eq-ok (ok_or (bad_six_record (codes "delete missing id")) (get (codes "id") r.fields))
          (λ id. ok (b'D' ∷ tab ∷ (print_nat tx ++ (tab ∷ escape_six_value (value_to_string id)))))
          h in
      ground arith

module _ (is_utf8 : Text → Bool) {F : Type 0} ⦃float : FloatText F⦄ (t : TableSchema) where
  -- A record to put has its fields in key order, its integers in the range of `i64` and its floats
  -- printed so that they read back; and the line that is written is valid UTF-8.
  pub record IsPrintable (op : Operation) (r : Record F) : Type 0 where
    pub sorted : op ≡ Operation.put → IsSorted r.fields
    pub readable :
        op ≡ Operation.put → (n : Text) (v : Value F) → get n r.fields ≡ some v → Readable v
    pub utf8 :
        (tx : ℕ) (line : Text)
        → encode_six_operation t op tx r ≡ ok line
        → is_utf8 (ended line) ≡ true

  encode-IsWritten :
      (op : Operation) (tx : ℕ) (r : Record F) (line : Text)
      → IsAdmissible t
      → tx ≤ u64_max
      → IsChecked t op r
      → IsPrintable op r
      → encode_six_operation t op tx r ≡ ok line
      → IsWritten is_utf8 t (line, written_op op tx r)
  encode-IsWritten Operation.put tx r line a fits c p h =
      let (same_table, conforms, keys) = c.fits refl in
      let (line', e, clean, decoded) =
        decode-encode_put t tx r fits a same_table (p.sorted refl) conforms (p.readable refl) in
      let same_line : line' ≡ line = ground arith in
      record {
        clean = subst IsLine same_line clean;
        tagged = encode-tagged t Operation.put tx r line h;
        decoded = ground arith;
        utf8 = p.utf8 tx line h;
      }
  encode-IsWritten Operation.delete tx r line a fits c p h =
      let (line', e, clean, decoded) = decode-encode_delete t tx r c.id fits (c.deleted refl) in
      let same_line : line' ≡ line = ground arith in
      record {
        clean = subst IsLine same_line clean;
        tagged = encode-tagged t Operation.delete tx r line h;
        decoded = ground (arith, c.named);
        utf8 = p.utf8 tx line h;
      }

  -- an operation as the batch has encoded it
  pub record IsEncoded (e : EncodedAppend F) : Type 0 where
    pub checked : IsChecked t e.operation e.record_
    pub written : IsWritten is_utf8 t (e.line, written_op e.operation e.tx_id e.record_)
    pub bytes : e.bytes_written ≡ length e.line + 1

  abbrev pub AreChecked : List (AppendOperation F) → Type 0
  AreChecked = All (λ a. IsChecked t a.operation a.record_)

  abbrev pub ArePrintable : List (AppendOperation F) → Type 0
  ArePrintable = All (λ a. IsPrintable a.operation a.record_)

  -- one operation of the loop
  record Step (validation : RuntimeSixb) (tx_start index : ℕ) (append : AppendOperation F)
      (ops : List (AppendOperation F)) (ids : Keys Text) (es : List (EncodedAppend F))
      : Type 0 where
    line : Text
    unique' : Map Key Text
    rest : List (EncodedAppend F)
    fresh : contains_key (id_of append.record_) ids ≡ false
    encoded :
        encode_six_operation t append.operation ((tx_start + index) % u64_limit) append.record_
        ≡ ok line
    later :
        encode_batch t validation tx_start
          (suc index)
          ops
          (insert (id_of append.record_) tt ids)
          unique'
        ≡ ok rest
    whole :
        es
        ≡ record {
          operation = append.operation;
          record_ = append.record_;
          tx_id = (tx_start + index) % u64_limit;
          line = line;
          bytes_written = length line + 1;
        }
          ∷ rest

  Step-of :
      (validation : RuntimeSixb) (tx_start index : ℕ) (append : AppendOperation F)
      (ops : List (AppendOperation F)) (ids : Keys Text) (unique : Map Key Text)
      (es : List (EncodedAppend F))
      → IsChecked t append.operation append.record_
      → encode_batch t validation tx_start index (append ∷ ops) ids unique ≡ ok es
      → Step validation tx_start index append ops ids es
  unfolding encode_batch
  Step-of validation tx_start index append ops ids unique es c h =
      elim (Bool-cases (contains_key (id_of append.record_) ids)) [
        | inl taken ↦ absurd (ground (arith, c.named))
        | inr fresh ↦ elim (Outcome-cases (check_operation t validation append unique)) [
          | inr (bad, e) ↦ absurd (ground (arith, c.named))
          | inl (unique', e) ↦
              elim (Outcome-cases (
                encode_six_operation t append.operation ((tx_start + index) % u64_limit)
                  append.record_)) [
                    | inr (bad, f) ↦ absurd (ground (arith, c.named))
                    | inl (line, f) ↦
                        elim (Outcome-cases (
                          encode_batch t validation tx_start (suc index) ops
                            (insert (id_of append.record_) tt ids) unique')) [
                              | inr (bad, g) ↦ absurd (ground (arith, c.named))
                              | inl (rest, g) ↦ record {
                                line = line;
                                unique' = unique';
                                rest = rest;
                                fresh = fresh;
                                encoded = f;
                                later = g;
                                whole = ground (arith, c.named);
                              }
                            ]
                  ]
        ]
      ]

  -- a batch as it is encoded, behind the ids before it
  pub record IsBatch (ids : Keys Text) (ops : List (AppendOperation F))
      (es : List (EncodedAppend F)) : Type 0 where
    pub encoded : All IsEncoded es
    pub fresh : AreFresh ids es
    pub whole : operations_of es ≡ ops

  pub encode_batch-IsBatch :
      (validation : RuntimeSixb) (tx_start index : ℕ) (ops : List (AppendOperation F))
      (ids : Keys Text) (unique : Map Key Text) (es : List (EncodedAppend F))
      → IsAdmissible t
      → tx_start + index + length ops ≤ u64_max
      → AreChecked ops
      → ArePrintable ops
      → encode_batch t validation tx_start index ops ids unique ≡ ok es
      → IsBatch ids ops es
  unfolding encode_batch
  encode_batch-IsBatch validation tx_start index [] ids unique es a fits c p h =
      subst (IsBatch ids []) {x = []} (ground arith)
        (record { encoded = tt; fresh = tt; whole = refl })
  encode_batch-IsBatch validation tx_start index (append ∷ ops) ids unique es a fits c p h =
      let d : Step validation tx_start index append ops ids es =
        Step-of validation tx_start index append ops ids unique es c.0 h in
      let tail : IsBatch (insert (id_of append.record_) tt ids) ops d.rest =
        encode_batch-IsBatch validation tx_start (suc index) ops
          (insert (id_of append.record_) tt ids) d.unique' d.rest a (omega arith) c.1 p.1 d.later in
      subst (IsBatch ids (append ∷ ops)) (sym d.whole) (record {
        encoded = (
          record {
            checked = c.0;
            written =
                encode-IsWritten append.operation ((tx_start + index) % u64_limit) append.record_
                  d.line a (omega arith) c.0 p.0 d.encoded;
            bytes = refl;
          },
          tail.encoded,
        );
        fresh = (d.fresh, tail.fresh);
        whole = ap (λ rest. append ∷ rest) tail.whole;
      })
