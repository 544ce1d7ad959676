-- ===== src/Store/Append/Remembered.antt =====
-- The checks of a batch, and the rows and the hash that are remembered after it.
use sixpack.Prelude.{
  ℕ, List, [], ◌∷◌, ◌++◌, Bool, some, ◌≡◌, refl, arith, All, ap, ◌∙◌, sym, subst, inl, inr,
}
use sixpack.Prelude.Outcome.{ok, >>=-eq-ok, Outcome-cases}
use sixpack.Prelude.Text.{Text, text_ord}
use sixpack.Prelude.Map.{Map, values, get, get-insert, get-remove}
use sixpack.Core.Value.{FloatText}
use sixpack.Core.Record.{Record}
use sixpack.Core.Schema.Table.{TableSchema}
use sixpack.Core.Schema.Database.{DatabaseSchema, table}
use sixpack.Core.Schema.Database.Valid.{IsValid}
use sixpack.Core.Schema.Signature.{schema_hash, hash_tables}
use sixpack.Hash.{hex16, fnv_offset_basis, source_hash, extend_source_hash}
use sixpack.Hash.Extend.{extend_source_hash-source_hash}
use sixpack.Format.Operation.{Operation}
use sixpack.Format.Preamble.Valid.{IsHash}
use sixpack.Store.Keys.{record_id}
use sixpack.Store.Runtime.{RuntimeSixb, remove_row_for_validation}
use sixpack.Store.Runtime.Exact.{live_after}
use sixpack.Store.Batch.{AppendOperation, WriteBatchMode, validate_storage_operation}
use sixpack.Store.Append.{EncodedAppend, validate_batch, remember_rows}
use sixpack.Store.Append.Checked.{IsChecked, check-IsChecked}
use sixpack.Store.Append.Encoded.{IsEncoded, AreChecked, ArePrintable, id_of, operations_of}
use sixpack.Store.Append.Mirror.{live_batch}
use sixpack.Store.Append.Files.{hex16-IsHash}

-- what is remembered of rows is live
abbrev pub AreLive : {F : Type 0} → Map Text (Record F) → Map Text (Record F) → Type 0
AreLive {F} rows live = (j : Text) (r : Record F) → get j rows ≡ some r → get j live ≡ some r

module _ (is_utf8 : Text → Bool) {F : Type 0} ⦃float : FloatText F⦄ (t : TableSchema) where
  pub validate_batch-AreChecked :
      (db : DatabaseSchema) (mode : WriteBatchMode) (cache : RuntimeSixb)
      (ops : List (AppendOperation F)) (validation validated : RuntimeSixb)
      → IsValid db
      → table t.name db ≡ some t
      → ArePrintable is_utf8 t ops
      → validate_batch db t mode cache ops validation ≡ ok validated
      → AreChecked is_utf8 t ops
  unfolding validate_batch
  validate_batch-AreChecked db mode cache [] validation validated v found p h = tt
  validate_batch-AreChecked db mode cache (append ∷ ops) validation validated v found p h =
      elim (Outcome-cases (validate_storage_operation db t append)) [
        | inr (bad, e) ↦ absurd (ground (arith, e))
        | inl (u, e) ↦
            let c : IsChecked t append.operation append.record_ =
              check-IsChecked db t append.operation append.record_ v found p.0.sorted e in
            let later : validate_batch db t mode cache ops
                  (remove_row_for_validation c.id validation)
                ≡ ok validated =
              ground (arith, e, c.named) in
            (
              c,
              validate_batch-AreChecked db mode cache ops
                  (remove_row_for_validation c.id validation) validated v found p.1 later,
            )
      ]

  remember_step :
      (op : Operation) (r : Record F) (tx : ℕ) (line : Text) (bytes : ℕ)
      (es : List (EncodedAppend F)) (rows : Map Text (Record F)) (id : Text)
      → record_id r ≡ ok id
      → remember_rows
          (record { operation = op; record_ = r; tx_id = tx; line = line; bytes_written = bytes }
            ∷ es)
          rows
        ≡ remember_rows es (live_after op id r rows)
  unfolding remember_rows
  remember_step Operation.put r tx line bytes es rows id e = rw e refl
  remember_step Operation.delete r tx line bytes es rows id e = rw e refl

  AreLive-after :
      (op : Operation) (id : Text) (r : Record F) (rows live : Map Text (Record F))
      → AreLive rows live
      → AreLive (live_after op id r rows) (live_after op id r live)
  AreLive-after Operation.put id r rows live k j w e =
      ground (arith, get-insert id j r rows, get-insert id j r live, k j w)
  AreLive-after Operation.delete id r rows live k j w e =
      ground (arith, get-remove id j rows, get-remove id j live, k j w)

  pub remember_rows-AreLive :
      (es : List (EncodedAppend F)) (rows rows' live : Map Text (Record F))
      → All (IsEncoded is_utf8 t) es
      → AreLive rows live
      → remember_rows es rows ≡ ok rows'
      → AreLive rows' (live_batch (operations_of es) live)
  unfolding live_batch remember_rows
  remember_rows-AreLive [] rows rows' live h k made =
      subst (λ m. AreLive m live) {x = rows} (ground arith) k
  remember_rows-AreLive (e ∷ es) rows rows' live h k made =
      let c : IsChecked t e.operation e.record_ = h.0.checked in
      let named : record_id e.record_ ≡ ok (id_of e.record_) = ground (arith, c.named) in
      remember_rows-AreLive es (live_after e.operation (id_of e.record_) e.record_ rows) rows'
        (live_after e.operation (id_of e.record_) e.record_ live) h.1
        (AreLive-after e.operation (id_of e.record_) e.record_ rows live k)
        (sym (
            remember_step e.operation e.record_ e.tx_id e.line e.bytes_written es rows
              (id_of e.record_) named)
          ∙ made)

pub source_of :
    (a b c : List ℕ) (current source : Text)
    → current ≡ source_hash a
    → c ≡ a ++ b
    → extend_source_hash current b ≡ ok source
    → source ≡ source_hash c
source_of a b c current source e f h =
    let g = subst (λ x. extend_source_hash x b ≡ ok source) e h in
    let k = extend_source_hash-source_hash a b in
    let same_hash : source ≡ source_hash (a ++ b) = ground (arith, g, k) in
    same_hash ∙ ap source_hash (sym f)

pub schema_hash-IsHash :
    (db : DatabaseSchema) (hash : Text) → schema_hash db ≡ ok hash → IsHash hash
unfolding schema_hash
schema_hash-IsHash db hash e =
    let (h, e1, e2) =
      >>=-eq-ok (hash_tables fnv_offset_basis (values db.tables)) (λ h. ok (hex16 h)) e in
    subst IsHash {x = hex16 h} (ground arith) (hex16-IsHash h)
