-- ===== src/Store/Append/Committed.antt =====
-- The steps of an append that went through.
use sixpack.Prelude.{ℕ, ◌+◌, ◌%◌, List, ◌≡◌, arith, length, inl, inr}
use sixpack.Prelude.Outcome.{ok, Outcome-cases}
use sixpack.Prelude.Text.{Text, text_ord}
use sixpack.Prelude.Map.{Map}
use sixpack.Core.Value.{FloatText}
use sixpack.Core.Record.{Record}
use sixpack.Core.Schema.Table.{TableSchema}
use sixpack.Hash.{extend_source_hash}
use sixpack.Format.Sixb.{sixb_binary_version}
use sixpack.Format.Preamble.{encode_six_preamble}
use sixpack.Store.Runtime.{RuntimeSixb}
use sixpack.Store.Batch.{AppendResult}
use sixpack.Store.Append.{
  TableStore, AppendTarget, EncodedAppend, append_target, append_len, append_bytes,
  append_hash_bytes, apply_batch, write_chunk, remember_rows, commit_batch, u64_limit,
}

module _ {F : Type 0} ⦃float : FloatText F⦄ (t : TableSchema) (hash : Text) where
  -- the store at the end, out of its parts
  abbrev pub stored_after :
      TableStore F → TableStore F → ℕ → ℕ → RuntimeSixb → Text → Map Text (Record F) → TableStore F
  stored_after s written count next_chunk cache source rows = record written {
    runtime_sixb = record cache {
      source_hash = source;
      version = sixb_binary_version;
      table = t.name;
      schema_hash = hash;
    };
    row_cache = rows;
    next_tx = (s.next_tx + count) % u64_limit;
    next_chunk = next_chunk;
  }

  -- the steps of `commit_batch` that may fail
  pub record Committed (es : List (EncodedAppend F)) (s s' : TableStore F) : Type 0 where
    pub preamble : Text
    pub target : AppendTarget
    pub s1 : TableStore F
    pub cache' : RuntimeSixb
    pub results : List AppendResult
    pub source : Text
    pub written : TableStore F
    pub rows : Map Text (Record F)
    pub made : encode_six_preamble t hash ≡ ok preamble
    pub placed : append_target (append_len es) (length preamble) s ≡ ok (target, s1)
    pub applied :
        apply_batch t target.chunk_name target.row_offset s.row_cache es s.runtime_sixb
        ≡ ok (cache', results)
    pub extended :
        extend_source_hash cache'.source_hash (append_hash_bytes target.chunk_name es) ≡ ok source
    pub filed : write_chunk target preamble (append_bytes es) (append_len es) s1 ≡ ok written
    pub remembered : remember_rows es s.row_cache ≡ ok rows
    pub whole : s' ≡ stored_after s written (length es) target.next_chunk cache' source rows

  pub Committed-of :
      (es : List (EncodedAppend F)) (s s' : TableStore F) (results : List AppendResult)
      → commit_batch t hash es s ≡ ok (results, s')
      → Committed es s s'
  unfolding commit_batch
  Committed-of es s s' results h = elim (Outcome-cases (encode_six_preamble t hash)) [
    | inr (bad, e) ↦ absurd (ground (arith, e))
    | inl (preamble, e1) ↦
        elim (Outcome-cases (append_target (append_len es) (length preamble) s)) [
          | inr (bad, e) ↦ absurd (ground (arith, e1, e))
          | inl ((target, s1), e2) ↦
              elim (Outcome-cases
                (apply_batch t target.chunk_name target.row_offset s.row_cache es s.runtime_sixb)) [
                  | inr (bad, e) ↦ absurd (ground (arith, e1, e2, e))
                  | inl ((cache', applied), e3) ↦
                      elim (Outcome-cases (
                        extend_source_hash cache'.source_hash
                          (append_hash_bytes target.chunk_name es))) [
                            | inr (bad, e) ↦ absurd (ground (arith, e1, e2, e3, e))
                            | inl (source, e4) ↦
                                elim (Outcome-cases (
                                  write_chunk target preamble (append_bytes es) (append_len es)
                                    s1)) [
                                      | inr (bad, e) ↦ absurd (ground (arith, e1, e2, e3, e4, e))
                                      | inl (written, e5) ↦
                                          elim (Outcome-cases (remember_rows es s.row_cache)) [
                                            | inr (bad, e) ↦
                                                absurd (ground (arith, e1, e2, e3, e4, e5, e))
                                            | inl (rows, e6) ↦ record {
                                              preamble = preamble;
                                              target = target;
                                              s1 = s1;
                                              cache' = cache';
                                              results = applied;
                                              source = source;
                                              written = written;
                                              rows = rows;
                                              made = e1;
                                              placed = e2;
                                              applied = e3;
                                              extended = e4;
                                              filed = e5;
                                              remembered = e6;
                                              whole = ground (arith, e1, e2, e3, e4, e5, e6);
                                            }
                                          ]
                                    ]
                          ]
                ]
        ]
  ]
