-- ===== src/Store/Scan/Pointer.antt =====
-- `read_row_pointer` of packages/sixpack-store/src/store.rs: a row read back through its pointer.
use sixpack.Prelude.{
  ℕ, suc, ◌+◌, ◌%◌, ◌^◌, ◌<◌, [], ◌∷◌, ◌++◌, Bool, true, false, ◌==◌, ◌≡◌, ◌≢◌, refl, arith, ap,
  ◌∙◌, sym, length, take, drop, ltb, leb, if◌then◌else◌, length-append, drop-length-append,
  take-length-append, lt→ltb, Bool-cases, inl, inr, is_some, ◌≤◌,
}
use sixpack.Prelude.Outcome.{Outcome, ok, err, ◌>>=◌, ◌>>◌, ensure, Fault, map_err, Outcome-cases}
use sixpack.Prelude.Order.{same, list_cmp}
use sixpack.Prelude.Text.{Text, text_ord, codes, starts_with}
use sixpack.Core.Value.{FloatText}
use sixpack.Core.Record.{Record}
use sixpack.Core.Schema.Table.{TableSchema}
use sixpack.Format.Escape.{newline, tab}
use sixpack.Format.Lines.{ended}
use sixpack.Format.Split.{split_once}
use sixpack.Format.Operation.{SixOperationRecord, decode_six_operation, decode_tagged, three_parts}
use sixpack.Format.Sixb.{RowPointer}
use sixpack.Store.Error.{StoreError}
use sixpack.Store.Scan.{invalid_data, format_error_to_io, is_operation_line}

-- `pop` of a newline at the end
unfoldable pub pop_newline : Text → Text
pop_newline [] = []
pop_newline (c ∷ []) = if c == newline then [] else c ∷ []
pop_newline (c ∷ d ∷ s) = c ∷ pop_newline (d ∷ s)

abbrev pub put_record : {F : Type 0} → SixOperationRecord F → Outcome (Fault StoreError) (Record F)
put_record (SixOperationRecord.put tx r) = ok r
put_record (SixOperationRecord.delete tx id) =
    err (invalid_data (codes "row pointer referenced a delete tombstone"))

-- Of the bytes of the chunk that the pointer names.
unfoldable pub read_row_pointer :
    (Text → Bool)
    → {F : Type 0} ⦃float : FloatText F⦄ → TableSchema
    → Text
    → RowPointer
    → Outcome (Fault StoreError) (Record F)
read_row_pointer is_utf8 t chunk ptr = do
  ensure (ltb (ptr.offset + ptr.len) (2 ^ 64)) (invalid_data (codes "row pointer offset overflow"))
  ensure (leb (ptr.offset + ptr.len) (length chunk))
      (invalid_data (codes "row pointer extends past chunk"))
  let line = pop_newline (take ptr.len (drop ptr.offset chunk))
  ensure (is_utf8 line) (invalid_data (codes "invalid utf-8 sequence"))
  operation ← map_err format_error_to_io (decode_six_operation t line)
  put_record operation

pop_newline-ended : (line : Text) → pop_newline (ended line) ≡ line
unfolding pop_newline
pop_newline-ended [] = refl
pop_newline-ended (c ∷ []) = refl
pop_newline-ended (c ∷ d ∷ s) = ap (λ r. c ∷ r) (pop_newline-ended (d ∷ s))

le→leb : (a b : ℕ) → a ≤ b → leb a b ≡ true
le→leb a b h = ground arith

-- Only a line with the tag of an operation is read as one.
tag-is_operation_line :
    (line tag tx tail : Text)
    → three_parts (split_once tab line) ≡ ok (tag, tx, tail)
    → is_operation_line line ≡ false
    → (same tag (codes "R") ≡ false) × (same tag (codes "D") ≡ false)
unfolding split_once starts_with list_cmp
tag-is_operation_line [] tag tx tail e h = ground arith
tag-is_operation_line (c ∷ []) tag tx tail e h = ground arith
tag-is_operation_line (c ∷ d ∷ s) tag tx tail e h = elim (Bool-cases (c == tab)) [
  | inl f ↦ elim (Bool-cases (is_some (split_once tab s).1)) [
    | inl g ↦ ground (arith, f)
    | inr g ↦ ground (arith, f)
  ]
  | inr f ↦ elim (Bool-cases (d == tab)) [
    | inl g ↦ ground (arith, f, g)
    | inr g ↦ ground (arith, f, g)
  ]
]

module _ (is_utf8 : Text → Bool) {F : Type 0} ⦃float : FloatText F⦄ (t : TableSchema) where
  -- Let a line stand in a chunk of less than 2^64 bytes, itself shorter than 2^32 bytes with its
  -- newline and valid UTF-8, and be read as a put of a record. The pointer with the line's offset
  -- and length, whatever its file name and transaction, reads the record.
  pub read_row_pointer-ended :
      (a line b name : Text) (tx tx' : ℕ) (r : Record F)
      → suc (length line) < 2 ^ 32
      → length (a ++ (ended line ++ b)) < 2 ^ 64
      → is_utf8 line ≡ true
      → decode_six_operation t line ≡ ok (SixOperationRecord.put tx r)
      → read_row_pointer is_utf8 t (a ++ (ended line ++ b)) (record {
        chunk_name = name;
        offset = length a;
        len = suc (length line) % 2 ^ 32;
        tx_id = tx';
      })
        ≡ ok r
  unfolding read_row_pointer
  read_row_pointer-ended a line b name tx tx' r short small utf8 decoded =
      let small_len : suc (length line) % 2 ^ 32 ≡ suc (length line) = omega (arith, short) in
      let line_len : length (ended line) ≡ suc (length line) =
        omega (arith, length-append line (newline ∷ [])) in
      let sum = length-append a (ended line ++ b) in
      let sum' = length-append (ended line) b in
      let inside : length a + suc (length line) ≤ length (a ++ (ended line ++ b)) =
        omega (arith, line_len, sum, sum') in
      let slice : take (suc (length line)) (drop (length a) (a ++ (ended line ++ b))) ≡ ended line =
        ap (take (suc (length line))) (drop-length-append a (ended line ++ b))
        ∙ ap (λ n. take n (ended line ++ b)) (sym line_len)
        ∙ take-length-append (ended line) b in
      rw
        (
          small_len,
          lt→ltb (length a + suc (length line)) (2 ^ 64) (omega (arith, small, inside)),
          le→leb (length a + suc (length line)) (length (a ++ (ended line ++ b))) inside,
          slice,
          pop_newline-ended line,
          utf8,
          decoded,
        )
        refl

  decode-operation_line :
      (line : Text) (op : SixOperationRecord F)
      → is_operation_line line ≡ false
      → decode_six_operation t line ≢ ok op
  unfolding decode_six_operation decode_tagged
  decode-operation_line line op h e = elim (Outcome-cases (three_parts (split_once tab line))) [
    | inr (bad, f) ↦ ground (arith, f)
    | inl ((tag, tx, tail), f) ↦
        let (not_put, not_delete) = tag-is_operation_line line tag tx tail f h in
        ground (arith, f, not_put, not_delete)
  ]

  -- A legacy row, which the scan takes without a tag, is never read through a pointer: whatever the
  -- bytes of the chunk, when the line under the pointer is not marked as an operation there is no
  -- record.
  pub read_row_pointer-legacy :
      (chunk : Text) (ptr : RowPointer) (r : Record F)
      → is_operation_line (pop_newline (take ptr.len (drop ptr.offset chunk))) ≡ false
      → read_row_pointer is_utf8 t chunk ptr ≢ ok r
  unfolding read_row_pointer
  read_row_pointer-legacy chunk ptr r h e =
      let line = pop_newline (take ptr.len (drop ptr.offset chunk)) in
      elim (Outcome-cases (decode_six_operation {F = F} t line)) [
        | inr (bad, f) ↦ ground (arith, f)
        | inl (op, f) ↦ decode-operation_line line op h f
      ]
