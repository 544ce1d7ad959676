-- ===== src/Store/Append/Applied.antt =====
-- The loop that applies a batch to the index, against a scan of the lines that it writes.
use sixpack.Prelude.{
  ℕ, suc, ◌+◌, ◌%◌, ◌^◌, ◌≤◌, List, [], ◌∷◌, ◌++◌, Bool, true, false, none, some, ◌≡◌, refl, arith,
  All, ap, ◌∙◌, sym, subst, Option-cases, inl, inr, if◌then◌else◌, length, append_assoc, append-nil,
}
use sixpack.Prelude.Outcome.{ok}
use sixpack.Prelude.Text.{Text, text_ord}
use sixpack.Prelude.Decimal.{u64_max}
use sixpack.Prelude.Map.{
  Map, Keys, get, insert, contains_key, contains_key-insert, get-insert, get-remove,
}
use sixpack.Core.Value.{FloatText}
use sixpack.Core.Record.{Record}
use sixpack.Core.Schema.Table.{TableSchema}
use sixpack.Format.Operation.{Operation, SixOperationRecord, operation_tx_id}
use sixpack.Format.Lines.{ended}
use sixpack.Format.Sixb.{RowPointer}
use sixpack.Store.Keys.{record_id}
use sixpack.Store.Runtime.{RuntimeSixb, has_row, apply_operation}
use sixpack.Store.Runtime.Exact.{live_after, IsOld}
use sixpack.Store.Batch.{AppendResult}
use sixpack.Store.Scan.{LiveRow, Scanned, apply_live, apply_entries, hashed}
use sixpack.Store.Scan.Written.{Written, entries_of}
use sixpack.Store.Append.{EncodedAppend, apply_batch, append_len, append_hash_bytes, saturating_add}
use sixpack.Store.Append.Checked.{IsChecked}
use sixpack.Store.Append.Encoded.{IsEncoded, AreFresh, id_of, written_op, operations_of}
use sixpack.Store.Append.Mirror.{
  records, rows_after, records-rows_after, live_batch, written_of, IsMirror,
  apply_operation-IsMirror,
}

module _ {F : Type 0} ⦃float : FloatText F⦄ where
  -- the scan does the same to the live rows
  apply_live-rows_after :
      (op : Operation) (tx : ℕ) (r : Record F) (ptr : RowPointer) (live : Map Text (LiveRow F))
      (id : Text)
      → record_id r ≡ ok id
      → apply_live (written_op op tx r) ptr live ≡ ok (rows_after op id r ptr live)
  unfolding apply_live
  apply_live-rows_after Operation.put tx r ptr live id e = rw e refl
  apply_live-rows_after Operation.delete tx r ptr live id e = rw e refl

  written_tx : (op : Operation) (tx : ℕ) (r : Record F) → operation_tx_id (written_op op tx r) ≡ tx
  written_tx Operation.put tx r = refl
  written_tx Operation.delete tx r = refl

  apply_entries_step :
      (chunk_name : Text) (offset : ℕ) (line : Text) (op : SixOperationRecord F)
      (ws : List (Written F)) (acc : Scanned F) (live : Map Text (LiveRow F)) (acc' : Scanned F)
      {tx : ℕ}
      → operation_tx_id op ≡ tx
      → apply_live op
          (record {
            chunk_name = chunk_name;
            offset = offset;
            len = suc (length line) % 2 ^ 32;
            tx_id = tx;
          })
          acc.live
        ≡ ok live
      → apply_entries chunk_name
          (entries_of chunk_name (offset + suc (length line)) ws)
          (record { live = live; hash_bytes = acc.hash_bytes ++ hashed chunk_name (ended line) })
        ≡ ok acc'
      → apply_entries chunk_name (entries_of chunk_name offset ((line, op) ∷ ws)) acc ≡ ok acc'
  unfolding apply_entries entries_of
  apply_entries_step chunk_name offset line op ws acc live acc' same_tx e f = rw (same_tx, e) f

  apply_batch_step :
      (t : TableSchema) (chunk_name : Text) (offset : ℕ) (rows : Map Text (Record F))
      (e : EncodedAppend F) (es : List (EncodedAppend F)) (id : Text)
      (cache s' cache' : RuntimeSixb) (results : List AppendResult)
      → record_id e.record_ ≡ ok id
      → e.bytes_written ≡ suc (length e.line)
      → apply_operation t e.operation e.record_
          (record {
            chunk_name = chunk_name;
            offset = offset;
            len = suc (length e.line) % 2 ^ 32;
            tx_id = e.tx_id;
          })
          (if has_row id cache then get id rows else none)
          cache
        ≡ ok s'
      → saturating_add offset (suc (length e.line)) ≡ offset + suc (length e.line)
      → apply_batch t chunk_name (offset + suc (length e.line)) rows es s' ≡ ok (cache', results)
      → apply_batch t chunk_name offset rows (e ∷ es) cache
        ≡ ok (
          cache',
          record { tx_id = e.tx_id; operation = e.operation; bytes_written = e.bytes_written }
              ∷ results,
        )
  unfolding apply_batch
  apply_batch_step t chunk_name offset rows e es id cache s' cache' results named bytes made sum
        later =
      rw (named, bytes, made, sum, later) refl

  -- rows that the batch has not touched are remembered as they are live
  abbrev pub AreRemembered : Keys Text → Map Text (Record F) → Map Text (Record F) → Type 0
  AreRemembered ids rows live =
      (j : Text) (r : Record F)
      → contains_key j ids ≡ false
      → get j rows ≡ some r
      → get j live ≡ some r

  cached-IsOld :
      (id : Text) (ids : Keys Text) (rows live : Map Text (Record F)) (has : Bool)
      → contains_key id ids ≡ false
      → AreRemembered ids rows live
      → IsOld id live (if has then get id rows else none)
  cached-IsOld id ids rows live false fresh k = tt
  cached-IsOld id ids rows live true fresh k = elim (Option-cases (get id rows)) [
    | inl e ↦ subst (IsOld id live) (sym e) tt
    | inr (r, e) ↦ subst (IsOld id live) (sym e) (k id r fresh e)
  ]

  AreRemembered-after :
      (op : Operation) (id : Text) (r : Record F) (ids : Keys Text)
      (rows live : Map Text (Record F))
      → AreRemembered ids rows live
      → AreRemembered (insert id tt ids) rows (live_after op id r live)
  AreRemembered-after Operation.put id r ids rows live k j w fresh e =
      ground (arith, contains_key-insert id j tt ids, get-insert id j r live, k j w)
  AreRemembered-after Operation.delete id r ids rows live k j w fresh e =
      ground (arith, contains_key-insert id j tt ids, get-remove id j live, k j w)

module _ (is_utf8 : Text → Bool) {F : Type 0} ⦃float : FloatText F⦄ (t : TableSchema)
    (chunk_name : Text) (rows : Map Text (Record F)) where
  -- the loop and the scan end alike
  pub record Applied (offset : ℕ) (es : List (EncodedAppend F)) (acc : Scanned F)
      (cache : RuntimeSixb) : Type 0 where
    pub cache' : RuntimeSixb
    pub results : List AppendResult
    pub acc' : Scanned F
    pub applied : apply_batch t chunk_name offset rows es cache ≡ ok (cache', results)
    pub scanned :
        apply_entries chunk_name (entries_of chunk_name offset (written_of es)) acc ≡ ok acc'
    pub mirror : IsMirror t acc'.live cache'
    pub live : records acc'.live ≡ live_batch (operations_of es) (records acc.live)
    pub hashed_bytes : acc'.hash_bytes ≡ acc.hash_bytes ++ append_hash_bytes chunk_name es
    pub source : cache'.source_hash ≡ cache.source_hash

  pub apply_batch-Applied :
      (offset : ℕ) (es : List (EncodedAppend F)) (ids : Keys Text) (acc : Scanned F)
      (cache : RuntimeSixb)
      → All (IsEncoded is_utf8 t) es
      → AreFresh ids es
      → AreRemembered ids rows (records acc.live)
      → offset + append_len es ≤ u64_max
      → IsMirror t acc.live cache
      → Applied offset es acc cache
  unfolding apply_batch apply_entries entries_of append_len append_hash_bytes live_batch
  apply_batch-Applied offset [] ids acc cache h fresh k fits m = record {
    cache' = cache;
    results = [];
    acc' = acc;
    applied = refl;
    scanned = refl;
    mirror = m;
    live = refl;
    hashed_bytes = sym (append-nil acc.hash_bytes);
    source = refl;
  }
  apply_batch-Applied offset (e ∷ es) ids acc cache h fresh k fits m =
      let c : IsChecked t e.operation e.record_ = h.0.checked in
      let id = id_of e.record_ in
      let bytes : e.bytes_written ≡ suc (length e.line) = omega (arith, h.0.bytes) in
      let ptr : RowPointer = record {
        chunk_name = chunk_name;
        offset = offset;
        len = suc (length e.line) % 2 ^ 32;
        tx_id = e.tx_id;
      } in
      let named : record_id e.record_ ≡ ok id = ground (arith, c.named) in
      let (s', made, m', source) =
        apply_operation-IsMirror t e.operation id e.record_ ptr
          (if has_row id cache then get id rows else none) acc.live cache m named
          (λ p. (c.fits p).2)
          (cached-IsOld id ids rows (records acc.live) (has_row id cache) fresh.0 k) in
      let live' = rows_after e.operation id e.record_ ptr acc.live in
      let same_live = records-rows_after e.operation id e.record_ ptr acc.live in
      let next : Scanned F = record {
        live = live';
        hash_bytes = acc.hash_bytes ++ hashed chunk_name (ended e.line);
      } in
      let d : Applied (offset + suc (length e.line)) es next s' =
        apply_batch-Applied (offset + suc (length e.line)) es (insert id tt ids) next s' h.1 fresh.1
          (subst (AreRemembered (insert id tt ids) rows) (sym same_live)
            (AreRemembered-after e.operation id e.record_ ids rows (records acc.live) k))
          (omega (arith, bytes)) m' in
      let offset' : saturating_add offset (suc (length e.line)) ≡ offset + suc (length e.line) =
        omega (arith, bytes) in
      record {
        cache' = d.cache';
        results =
            record { tx_id = e.tx_id; operation = e.operation; bytes_written = e.bytes_written }
            ∷ d.results;
        acc' = d.acc';
        applied =
            apply_batch_step t chunk_name offset rows e es id cache s' d.cache' d.results named
              bytes made offset' d.applied;
        scanned =
            apply_entries_step chunk_name offset e.line (written_op e.operation e.tx_id e.record_)
              (written_of es) acc live' d.acc' (written_tx e.operation e.tx_id e.record_)
              (apply_live-rows_after e.operation e.tx_id e.record_ ptr acc.live id named) d.scanned;
        mirror = d.mirror;
        live = d.live ∙ ap (live_batch (operations_of es)) same_live;
        hashed_bytes =
            d.hashed_bytes
            ∙ append_assoc acc.hash_bytes (hashed chunk_name (ended e.line))
                (append_hash_bytes chunk_name es);
        source = d.source ∙ source;
      }
