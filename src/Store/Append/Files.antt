-- ===== src/Store/Append/Files.antt =====
-- The scan of the files of a table behind an append, to the last file or to a new one.
use sixpack.Prelude.{
  ℕ, zero, suc, ◌+◌, ◌%◌, ◌/◌, all, List, [], ◌∷◌, ◌++◌, Bool, true, false, ◌≡◌, refl, arith, All,
  length,
}
use sixpack.Prelude.Outcome.{ok, ◌>>=◌, >>=-eq-ok}
use sixpack.Prelude.Text.{Text, text_ord, is_empty, is_ascii_hexdigit}
use sixpack.Prelude.Map.{Map}
use sixpack.Core.Value.{FloatText}
use sixpack.Core.Schema.Table.{TableSchema}
use sixpack.Hash.{hex16, hex_digits, hex_digit}
use sixpack.Format.Lines.{ended_lines, is_complete, read_lines}
use sixpack.Format.Preamble.{encode_six_preamble}
use sixpack.Format.Preamble.Valid.{IsHash}
use sixpack.Store.Scan.{
  Scanned, ScannedSixEntry, store_error, apply_live, apply_entries, hashed, scan_chunk, scan_chunks,
  scan_six_file, verify_header,
}
use sixpack.Store.Scan.Header.{AreUtf8, verify_header-append, encode_six_preamble-scanned}
use sixpack.Store.Scan.Written.{Written, entries_of, lines_of, IsWritten, scan_six_file-ended_lines}

module _ {F : Type 0} ⦃float : FloatText F⦄ where
  apply_entries-append :
      (chunk_name : Text) (es ms : List (ScannedSixEntry F)) (acc acc' : Scanned F)
      → apply_entries chunk_name es acc ≡ ok acc'
      → apply_entries chunk_name (es ++ ms) acc ≡ apply_entries chunk_name ms acc'
  unfolding apply_entries
  apply_entries-append chunk_name [] ms acc acc' h = ground arith
  apply_entries-append chunk_name (e ∷ es) ms acc acc' h =
      let (live, e1, e2) =
        >>=-eq-ok (store_error (apply_live e.operation e.ptr acc.live))
          (λ live.
            apply_entries chunk_name es
              (record { live = live; hash_bytes = acc.hash_bytes ++ hashed chunk_name e.raw_line }))
          h in
      rw e1 (apply_entries-append chunk_name es ms _ acc' e2)

module _ (is_utf8 : Text → Bool) {F : Type 0} ⦃float : FloatText F⦄ (t : TableSchema)
    (hash : Text) where
  -- what a successful scan of the last file went through
  record LastScan (name content : Text) (older : Map Text Text) (acc : Scanned F) : Type 0 where
    before : Scanned F
    entries : List (ScannedSixEntry F)
    earlier : scan_chunks is_utf8 t hash older ≡ ok before
    head : verify_header is_utf8 t hash content ≡ ok tt
    found : scan_six_file is_utf8 t name content ≡ ok entries
    applied : apply_entries name entries before ≡ ok acc

  LastScan-of :
      (name content : Text) (older : Map Text Text) (acc : Scanned F)
      → scan_chunks is_utf8 t hash ((name, content) ∷ older) ≡ ok acc
      → LastScan name content older acc
  unfolding scan_chunks scan_chunk
  LastScan-of name content older acc h =
      let (before, e1, e2) =
        >>=-eq-ok (scan_chunks is_utf8 {F = F} t hash older)
          (scan_chunk is_utf8 t hash name content) h in
      let (u, e3, e4) =
        >>=-eq-ok (verify_header is_utf8 t hash content)
          (λ u. scan_six_file is_utf8 t name content >>= λ es. apply_entries name es before) e2 in
      let (es, e5, e6) =
        >>=-eq-ok (scan_six_file is_utf8 {F = F} t name content)
          (λ es. apply_entries name es before) e4 in
      record { before = before; entries = es; earlier = e1; head = e3; found = e5; applied = e6 }

  pub scan_chunks-extended :
      (name content : Text) (older : Map Text Text) (ws : List (Written F)) (acc acc' : Scanned F)
      → is_complete content ≡ true
      → is_empty content ≡ false
      → All (IsWritten is_utf8 t) ws
      → scan_chunks is_utf8 t hash ((name, content) ∷ older) ≡ ok acc
      → apply_entries name (entries_of name (length content) ws) acc ≡ ok acc'
      → scan_chunks is_utf8 t hash ((name, content ++ ended_lines (lines_of ws)) ∷ older) ≡ ok acc'
  unfolding scan_chunks scan_chunk
  scan_chunks-extended name content older ws acc acc' complete some_byte w h k =
      let d : LastScan name content older acc = LastScan-of name content older acc h in
      rw
        (
          d.earlier,
          verify_header-append is_utf8 t hash content (ended_lines (lines_of ws)) some_byte complete
              d.head,
          scan_six_file-ended_lines is_utf8 t name content d.entries ws complete d.found w,
          apply_entries-append name d.entries (entries_of name (length content) ws) d.before acc
              d.applied,
        )
        k

  pub scan_chunks-new :
      (name preamble : Text) (files : Map Text Text) (ws : List (Written F)) (acc acc' : Scanned F)
      → IsHash hash
      → encode_six_preamble t hash ≡ ok preamble
      → is_empty preamble ≡ false
      → AreUtf8 is_utf8 (read_lines preamble)
      → All (IsWritten is_utf8 t) ws
      → scan_chunks is_utf8 t hash files ≡ ok acc
      → apply_entries name (entries_of name (length preamble) ws) acc ≡ ok acc'
      → scan_chunks is_utf8 t hash ((name, preamble ++ ended_lines (lines_of ws)) ∷ files) ≡ ok acc'
  unfolding scan_chunks scan_chunk
  scan_chunks-new name preamble files ws acc acc' hex e some_byte utf8 w h k =
      let (head, complete, none_found) =
        encode_six_preamble-scanned is_utf8 {F = F} t hash hash preamble name hex hex e utf8 in
      rw
        (
          h,
          verify_header-append is_utf8 t hash preamble (ended_lines (lines_of ws)) some_byte
              complete head,
          scan_six_file-ended_lines is_utf8 t name preamble [] ws complete none_found w,
        )
        k

hex_digit-hex : (d : ℕ) → is_ascii_hexdigit (hex_digit (d % 16)) ≡ true
hex_digit-hex d = ground arith

hex_digits-hex :
    (k n : ℕ) (out : Text)
    → all is_ascii_hexdigit out ≡ true
    → (all is_ascii_hexdigit (hex_digits k n out) ≡ true)
      × (length (hex_digits k n out) ≡ k + length out)
unfolding hex_digits
hex_digits-hex zero n out h = (h, omega arith)
hex_digits-hex (suc k) n out h =
    let (hex, digits) =
      hex_digits-hex k (n / 16) (hex_digit (n % 16) ∷ out) (rw (hex_digit-hex n) h) in
    (hex, omega (arith, digits))

pub hex16-IsHash : (n : ℕ) → IsHash (hex16 n)
unfolding hex16
hex16-IsHash n =
    let (hex, digits) = hex_digits-hex 16 n [] refl in
    record { digits = omega (arith, digits); hex = hex }
