-- ===== src/Store/Append/Preserved.antt =====
-- An append keeps the invariant of the store, and does to the live rows what its operations say.
use sixpack.Prelude.{
  ◌+◌, ◌≤◌, List, [], ◌∷◌, Bool, some, ◌≡◌, refl, arith, All, ap, ◌∙◌, sym, subst, length, inl, inr,
}
use sixpack.Prelude.Outcome.{ok, Outcome-cases}
use sixpack.Prelude.Text.{Text, text_ord}
use sixpack.Prelude.Decimal.{u64_max}
use sixpack.Prelude.Map.{Map, empty, get}
use sixpack.Core.Value.{FloatText}
use sixpack.Core.Schema.Table.{TableSchema}
use sixpack.Core.Schema.Database.{DatabaseSchema, table}
use sixpack.Core.Schema.Database.Valid.{IsValid}
use sixpack.Core.Schema.Signature.{schema_hash}
use sixpack.Hash.{source_hash}
use sixpack.Format.Lines.{read_lines}
use sixpack.Format.Sixb.{sixb_binary_version}
use sixpack.Format.Preamble.{encode_six_preamble}
use sixpack.Format.Preamble.Valid.{IsHash}
use sixpack.Store.Runtime.{RuntimeSixb}
use sixpack.Store.Batch.{AppendOperation, AppendResult, WriteBatch, WriteBatchMode}
use sixpack.Store.Scan.{LiveRow, Scanned}
use sixpack.Store.Scan.Header.{AreUtf8}
use sixpack.Store.Append.{
  TableStore, EncodedAppend, append_len, append_hash_bytes, validate_batch, encode_batch,
  commit_batch, append_operations, append_batch_inner,
}
use sixpack.Store.Append.Encoded.{
  IsEncoded, IsBatch, encode_batch-IsBatch, ArePrintable, AreFresh, operations_of,
}
use sixpack.Store.Append.Mirror.{records, live_batch, IsMirror}
use sixpack.Store.Append.Applied.{Applied, apply_batch-Applied}
use sixpack.Store.Append.Stored.{IsStored, append_target-Placed}
use sixpack.Store.Append.Placing.{Filed, Filed-target, Placed-bound}
use sixpack.Store.Append.Remembered.{
  AreLive, validate_batch-AreChecked, remember_rows-AreLive, source_of, schema_hash-IsHash,
}
use sixpack.Store.Append.Committed.{stored_after, Committed, Committed-of}

-- the rows, the invariant and the results of an append
pub record Appended (is_utf8 : Text → Bool) {F : Type 0} ⦃float : FloatText F⦄ (t : TableSchema)
    (hash : Text) (ops : List (AppendOperation F)) (acc : Scanned F) (s' : TableStore F)
    : Type 0 where
  pub acc' : Scanned F
  pub stored : IsStored is_utf8 t hash acc' s'
  pub live : records acc'.live ≡ live_batch ops (records acc.live)

module _ (is_utf8 : Text → Bool) {F : Type 0} ⦃float : FloatText F⦄ (t : TableSchema)
    (hash : Text) where
  IsMirror-renamed :
      (live : Map Text (LiveRow F)) (cache : RuntimeSixb) (name source : Text)
      → IsMirror t live cache
      → IsMirror t live (record cache {
        source_hash = source;
        version = sixb_binary_version;
        table = name;
        schema_hash = hash;
      })
  IsMirror-renamed live cache name source m = record {
    exact = record {
      sorted = m.exact.sorted;
      rows = m.exact.rows;
      keyed = m.exact.keyed;
      exact = m.exact.exact;
      remembered = m.exact.remembered;
    };
    pointers = m.pointers;
  }

  commit_batch-Appended :
      (es : List (EncodedAppend F)) (acc : Scanned F) (s s' : TableStore F)
      (results : List AppendResult)
      → IsHash hash
      → ((p : Text) → encode_six_preamble t hash ≡ ok p → AreUtf8 is_utf8 (read_lines p))
      → All (IsEncoded is_utf8 t) es
      → AreFresh empty es
      → IsStored is_utf8 t hash acc s
      → ((n c : Text) → get n s'.files ≡ some c → length c ≤ u64_max)
      → commit_batch t hash es s ≡ ok (results, s')
      → Appended is_utf8 t hash (operations_of es) acc s'
  commit_batch-Appended es acc s s' results hex utf8 h fresh i bound made =
      let c : Committed t hash es s s' = Committed-of t hash es s s' results made in
      let bound' : (n b : Text) → get n c.written.files ≡ some b → length b ≤ u64_max =
        λ n b e. bound n b (ap (λ w. get n w.files) c.whole ∙ e) in
      let placed =
        append_target-Placed is_utf8 t hash acc (append_len es) (length c.preamble) s i c.target
          c.s1 c.placed in
      let d : Applied is_utf8 t c.target.chunk_name s.row_cache c.target.row_offset es acc
          s.runtime_sixb =
        apply_batch-Applied is_utf8 t c.target.chunk_name s.row_cache c.target.row_offset es empty
          acc s.runtime_sixb h fresh (λ j r f e. i.remembered j r e)
          (Placed-bound is_utf8 t hash acc acc s i es h c.target c.s1 c.written c.preamble placed
            c.filed bound')
          i.mirror in
      let f : Filed is_utf8 t hash d.acc' c.target.next_chunk c.written =
        Filed-target is_utf8 t hash acc d.acc' s i es h c.target c.s1 c.written c.preamble hex
          c.made (utf8 c.preamble c.made) placed c.filed d.scanned in
      let same_cache : c.cache' ≡ d.cache' = ground (arith, c.applied, d.applied) in
      let same_source : c.source ≡ source_hash d.acc'.hash_bytes =
        source_of acc.hash_bytes (append_hash_bytes c.target.chunk_name es) d.acc'.hash_bytes
          c.cache'.source_hash c.source
          (ap (λ (x : RuntimeSixb). x.source_hash) same_cache ∙ d.source ∙ i.source) d.hashed_bytes
          c.extended in
      let final : IsStored is_utf8 t hash d.acc' (
          stored_after t hash s c.written (length es) c.target.next_chunk c.cache' c.source
            c.rows) =
        record {
          scanned = f.scanned;
          last = f.last;
          mirror =
              IsMirror-renamed d.acc'.live c.cache' t.name c.source
                (subst (IsMirror t d.acc'.live) (sym same_cache) d.mirror);
          source = same_source;
          remembered = subst (AreLive c.rows) (sym d.live) (
              remember_rows-AreLive is_utf8 t es s.row_cache c.rows (records acc.live) h
                i.remembered c.remembered);
          lens = f.lens;
          chunks = f.chunks;
        } in
      record {
        acc' = d.acc';
        stored = subst (IsStored is_utf8 t hash d.acc') (sym c.whole) final;
        live = d.live;
      }

  append_operations-IsStored :
      (db : DatabaseSchema) (name : Text) (mode : WriteBatchMode) (ops : List (AppendOperation F))
      (acc : Scanned F) (s s' : TableStore F) (results : List AppendResult)
      → IsValid db
      → table name db ≡ some t
      → schema_hash db ≡ ok hash
      → ArePrintable is_utf8 t ops
      → ((p : Text) → encode_six_preamble t hash ≡ ok p → AreUtf8 is_utf8 (read_lines p))
      → s.next_tx + length ops ≤ u64_max
      → IsStored is_utf8 t hash acc s
      → ((n c : Text) → get n s'.files ≡ some c → length c ≤ u64_max)
      → append_operations db name mode ops s ≡ ok (results, s')
      → Appended is_utf8 t hash ops acc s'
  unfolding append_operations live_batch
  append_operations-IsStored db name mode [] acc s s' results v found hashed_as p utf8 fits i bound
        made =
      record {
        acc' = acc;
        stored = subst (IsStored is_utf8 t hash acc) {x = s} (ground arith) i;
        live = refl;
      }
  append_operations-IsStored db name mode (op ∷ ops) acc s s' results v found hashed_as p utf8 fits
        i bound made =
      elim (Outcome-cases (validate_batch db t mode s.runtime_sixb (op ∷ ops) s.runtime_sixb)) [
        | inr (bad, e) ↦ absurd (ground (arith, found, e))
        | inl (validation, e1) ↦
            elim (Outcome-cases (encode_batch t validation s.next_tx 0 (op ∷ ops) empty empty)) [
              | inr (bad, e) ↦ absurd (ground (arith, found, e1, e))
              | inl (es, e2) ↦
                  let found' : table t.name db ≡ some t =
                    ap (λ n. table n db) (v.tables_named name t found) ∙ found in
                  let d : IsBatch is_utf8 t empty (op ∷ ops) es =
                    encode_batch-IsBatch is_utf8 t validation s.next_tx 0 (op ∷ ops) empty empty es
                      (v.tables_admissible name t found) (omega (arith, fits))
                      (validate_batch-AreChecked is_utf8 t db mode s.runtime_sixb (op ∷ ops)
                        s.runtime_sixb validation v found' p e1)
                      p e2 in
                  subst (λ o. Appended is_utf8 t hash o acc s') d.whole
                    (commit_batch-Appended es acc s s' results
                      (schema_hash-IsHash db hash hashed_as) utf8 d.encoded d.fresh i bound
                      (ground (arith, found, e1, e2, hashed_as, made)))
            ]
      ]

  -- Let a table of a valid database have its store in order: its files are scanned, the last of
  -- them ends with a newline, the index and the remembered hash, rows, chunks and lengths are those
  -- of the scan. Let a batch be appended without an error, where the records to put have their
  -- fields in key order, integers in the range of `i64` and floats that read back, the text that is
  -- written is valid UTF-8, the transactions fit in 64 bits, and the files stay below 2^64 bytes.
  -- Then the store is in order again, and the rows that a scan now finds are those of before with
  -- the operations of the batch done to them in turn.
  pub append_batch_inner-IsStored :
      (db : DatabaseSchema) (batch : WriteBatch F) (acc : Scanned F) (s s' : TableStore F)
      (results : List AppendResult)
      → IsValid db
      → table batch.table db ≡ some t
      → schema_hash db ≡ ok hash
      → ArePrintable is_utf8 t batch.operations
      → ((p : Text) → encode_six_preamble t hash ≡ ok p → AreUtf8 is_utf8 (read_lines p))
      → s.next_tx + length batch.operations ≤ u64_max
      → IsStored is_utf8 t hash acc s
      → ((n c : Text) → get n s'.files ≡ some c → length c ≤ u64_max)
      → append_batch_inner db batch s ≡ ok (results, s')
      → Appended is_utf8 t hash batch.operations acc s'
  unfolding append_batch_inner
  append_batch_inner-IsStored db batch acc s s' results v found hashed_as p utf8 fits i bound made =
      append_operations-IsStored db batch.table batch.mode batch.operations acc s s' results v found
        hashed_as p utf8 fits i bound made
