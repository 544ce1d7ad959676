-- ===== src/Store/Scan/Hashed.antt =====
-- The two ways to the source hash of a table: with its rows read, and without.
use sixpack.Prelude.{
  ℕ, ◌+◌, List, [], ◌∷◌, ◌++◌, Bool, true, false, Option, none, some, ◌||◌, length, ◌≡◌, refl,
  arith, map, inl, inr,
}
use sixpack.Prelude.Outcome.{ok, ◌>>=◌, >>=-eq-ok, Outcome-cases}
use sixpack.Prelude.Order.{same, same→eq}
use sixpack.Prelude.Text.{Text, text_ord}
use sixpack.Prelude.Map.{Map}
use sixpack.Core.Value.{FloatText}
use sixpack.Core.Schema.Table.{TableSchema}
use sixpack.Hash.{source_hash}
use sixpack.Format.Row.{encode_six_header}
use sixpack.Format.Lines.{read_lines, trim_line}
use sixpack.Format.Operation.{SixOperationRecord}
use sixpack.Store.Scan.{
  ScannedSixEntry, Scanned, TableScan, scan_data, scan_line, scan_lines, scan_six_file,
  is_operation_line, is_passed_over, raw_lines, raw_six_data_lines, apply_live, apply_entries,
  scan_chunk, scan_chunks, scan_table_files, hashed, hash_lines, hash_chunks,
  scan_table_source_hash, verify_header, store_error,
}

module _ (is_utf8 : Text → Bool) {F : Type 0} ⦃float : FloatText F⦄ (t : TableSchema) where
  abbrev raws : List (ScannedSixEntry F) → List Text
  raws = map (λ e. e.raw_line)

  -- whether a line has an entry
  scan_line-none :
      (s : Text) (op : Option (SixOperationRecord F))
      → is_operation_line (encode_six_header t) ≡ false
      → scan_line is_utf8 t s ≡ ok op
      → (is_passed_over s || same s (encode_six_header t))
        ≡ (elim op [ none ↦ true | some o ↦ false ])
  unfolding scan_line scan_data
  scan_line-none s op h e = ground (arith, same→eq s (encode_six_header t))

  line_read :
      (chunk_name : Text) (offset : ℕ) (l : Text) (ls : List Text)
      (out es : List (ScannedSixEntry F))
      → raw_lines is_utf8 t ls ≡ ok (raws out)
      → is_operation_line (encode_six_header t) ≡ false
      → scan_lines is_utf8 t chunk_name (offset + length l) ls ≡ ok out
      → scan_lines is_utf8 t chunk_name offset (l ∷ ls) ≡ ok es
      → raw_lines is_utf8 t (l ∷ ls) ≡ ok (raws es)
  unfolding scan_lines raw_lines
  line_read chunk_name offset l ls out es raw h found e =
      elim (Outcome-cases (scan_line is_utf8 {F = F} t (trim_line l))) [
        | inl (none, f) ↦ ground (arith, f, scan_line-none (trim_line l) none h f)
        | inl (some op, f) ↦ ground (arith, f, scan_line-none (trim_line l) (some op) h f)
        | inr (bad, f) ↦ ground (arith, f)
      ]

  scan_lines-raw_lines :
      (chunk_name : Text) (offset : ℕ) (ls : List Text) (es : List (ScannedSixEntry F))
      → is_operation_line (encode_six_header t) ≡ false
      → scan_lines is_utf8 t chunk_name offset ls ≡ ok es
      → raw_lines is_utf8 t ls ≡ ok (raws es)
  unfolding scan_lines raw_lines
  scan_lines-raw_lines chunk_name offset [] es h e = ground arith
  scan_lines-raw_lines chunk_name offset (l ∷ ls) es h e =
      let rest = scan_lines is_utf8 {F = F} t chunk_name (offset + length l) ls in
      elim (Outcome-cases rest) [
        | inl (out, found) ↦
            line_read chunk_name offset l ls out es
              (scan_lines-raw_lines chunk_name (offset + length l) ls out h found) h found e
        | inr (bad, failed) ↦ ground (arith, failed)
      ]

  apply_entries-hash_bytes :
      (chunk_name : Text) (es : List (ScannedSixEntry F)) (acc acc' : Scanned F)
      → apply_entries chunk_name es acc ≡ ok acc'
      → acc'.hash_bytes ≡ hash_lines chunk_name (raws es) acc.hash_bytes
  unfolding apply_entries hash_lines
  apply_entries-hash_bytes chunk_name [] acc acc' e = ground arith
  apply_entries-hash_bytes chunk_name (entry ∷ es) acc acc' e =
      let (live, e1, e2) =
        >>=-eq-ok (store_error (apply_live entry.operation entry.ptr acc.live))
          (λ live. apply_entries chunk_name es (record {
            live = live;
            hash_bytes = acc.hash_bytes ++ hashed chunk_name entry.raw_line;
          }))
          e in
      apply_entries-hash_bytes chunk_name es _ acc' e2

  hash_chunks-scanned :
      (schema_hash : Text) (files : Map Text Text) (acc : Scanned F)
      → is_operation_line (encode_six_header t) ≡ false
      → scan_chunks is_utf8 t schema_hash files ≡ ok acc
      → hash_chunks is_utf8 t schema_hash files ≡ ok acc.hash_bytes
  unfolding scan_chunks hash_chunks scan_chunk scan_six_file raw_six_data_lines
  hash_chunks-scanned schema_hash [] acc h e = ground arith
  hash_chunks-scanned schema_hash ((chunk_name, content) ∷ files) acc h e =
      let (before, e1, e2) =
        >>=-eq-ok (scan_chunks is_utf8 {F = F} t schema_hash files)
          (scan_chunk is_utf8 t schema_hash chunk_name content) e in
      let (u, e3, e4) =
        >>=-eq-ok (verify_header is_utf8 t schema_hash content)
          (λ u.
            scan_six_file is_utf8 t chunk_name content >>= λ es. apply_entries chunk_name es before)
          e2 in
      let (es, e5, e6) =
        >>=-eq-ok (scan_six_file is_utf8 {F = F} t chunk_name content)
          (λ es. apply_entries chunk_name es before) e4 in
      rw
        (
          hash_chunks-scanned schema_hash files before h e1,
          e3,
          scan_lines-raw_lines chunk_name 0 (read_lines content) es h e5,
          ← apply_entries-hash_bytes chunk_name es before acc e6,
        )
        refl

  -- Let the header of the table not read as an operation line. Whenever the files of the table can
  -- be scanned, the source hash that is computed without decoding a row is the one of the scan.
  pub scan_table_source_hash-scan_table_files :
      (schema_hash : Text) (files : Map Text Text) (scan : TableScan F)
      → is_operation_line (encode_six_header t) ≡ false
      → scan_table_files is_utf8 t schema_hash files ≡ ok scan
      → scan_table_source_hash is_utf8 t schema_hash files ≡ ok scan.source_hash
  unfolding scan_table_files scan_table_source_hash
  scan_table_source_hash-scan_table_files schema_hash files scan h e =
      let (acc, e1, e2) =
        >>=-eq-ok (scan_chunks is_utf8 {F = F} t schema_hash files)
          (λ acc. ok (record { source_hash = source_hash acc.hash_bytes; live = acc.live })) e in
      rw (hash_chunks-scanned schema_hash files acc h e1) (ground arith)
