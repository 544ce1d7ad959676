-- ===== src/Store/Scan/Written.antt =====
-- What a scan makes of the lines that were written: of a batch behind the entries that were there,
-- of a preamble, and of a file that was cut behind its last newline.
use sixpack.Prelude.{
  ℕ, suc, ◌+◌, ◌%◌, ◌^◌, ◌≤◌, List, [], ◌∷◌, ◌++◌, Bool, true, false, length, ◌≡◌, refl, arith, All,
  ap, ◌∙◌, sym, map, append-nil, take, zero, length-append, length-map, subst,
}
use sixpack.Prelude.Outcome.{ok, ◌>>=◌, >>=-eq-ok}
use sixpack.Prelude.Text.{Text, text_ord, codes, starts_with}
use sixpack.Core.Value.{FloatText}
use sixpack.Core.Schema.Table.{TableSchema}
use sixpack.Format.Row.RoundTrip.{IsLine}
use sixpack.Format.Escape.{newline}
use sixpack.Format.Lines.{
  read_lines, ends_line, ended, ended_lines, is_complete, read_lines-of_ended_lines,
  ends_line-ended, trim_line-ended,
}
use sixpack.Format.Lines.Cut.{cut, CutOf, CutOf-text, Kept, cut_torn}
use sixpack.Format.Split.{Lacks}
use sixpack.Format.Operation.{
  SixOperationRecord, operation_tx_id, is_six_magic_line, decode_six_operation,
}
use sixpack.Format.Preamble.{magic_line}
use sixpack.Store.Scan.{
  ScannedSixEntry, scan_data, scan_line, scan_lines, scan_six_file, is_operation_line,
  is_passed_over,
}
use sixpack.Store.Scan.Extended.{scan_six_file-append}

-- a line, and the operation that it was written for
abbrev pub Written : Type 0 → Type 0
Written F = Text × SixOperationRecord F

abbrev pub lines_of : {F : Type 0} → List (Written F) → List Text
lines_of = map (λ w. w.0)

-- the entries that a scan finds in the lines, from an offset on
unfoldable pub entries_of : {F : Type 0} → Text → ℕ → List (Written F) → List (ScannedSixEntry F)
entries_of chunk_name offset [] = []
entries_of chunk_name offset ((line, op) ∷ ws) =
    record {
      operation = op;
      ptr = record {
        chunk_name = chunk_name;
        offset = offset;
        len = suc (length line) % 2 ^ 32;
        tx_id = operation_tx_id op;
      };
      raw_line = ended line;
    }
    ∷ entries_of chunk_name (offset + suc (length line)) ws

take-lines_of :
    {F : Type 0} (n : ℕ) (ws : List (Written F)) → take n (lines_of ws) ≡ lines_of (take n ws)
take-lines_of zero ws = refl
take-lines_of (suc n) [] = refl
take-lines_of (suc n) (w ∷ ws) = ap (λ ls. w.0 ∷ ls) (take-lines_of n ws)

tagged-scanned : (line : Text) → is_operation_line line ≡ true → is_passed_over line ≡ false
unfolding starts_with is_six_magic_line
tagged-scanned [] h = absurd (ground arith)
tagged-scanned (c ∷ line) h = ground arith

marked-passed_over :
    (line : Text) → starts_with line (codes "@") ≡ true → is_passed_over line ≡ true
marked-passed_over line h = ground arith

magic_line-passed_over : (t : TableSchema) (hash : Text) → is_passed_over (magic_line t hash) ≡ true
unfolding magic_line is_six_magic_line starts_with
magic_line-passed_over t hash = refl

-- a text without a newline is at most one line, which is not ended
read_lines-torn : (c : ℕ) (s : Text) → Lacks newline (c ∷ s) → read_lines (c ∷ s) ≡ (c ∷ s) ∷ []
unfolding read_lines
read_lines-torn c [] h = ground arith
read_lines-torn c (d ∷ s) h = ground (arith, read_lines-torn d s h.1)

ends_line-torn : (s : Text) → Lacks newline s → ends_line s ≡ false
unfolding ends_line
ends_line-torn [] h = refl
ends_line-torn (c ∷ []) h = ground arith
ends_line-torn (c ∷ d ∷ s) h = ends_line-torn (d ∷ s) h.1

module _ (is_utf8 : Text → Bool) {F : Type 0} ⦃float : FloatText F⦄ (t : TableSchema) where
  -- the line is one line of text, marked as an operation, and read as the operation
  pub record IsWritten (w : Written F) : Type 0 where
    pub clean : IsLine w.0
    pub tagged : is_operation_line w.0 ≡ true
    pub decoded : decode_six_operation t w.0 ≡ ok w.1
    pub utf8 : is_utf8 (ended w.0) ≡ true

  written-IsLine : (ws : List (Written F)) → All IsWritten ws → All IsLine (lines_of ws)
  written-IsLine [] h = tt
  written-IsLine (w ∷ ws) h = (h.0.clean, written-IsLine ws h.1)

  scan_lines-written :
      (chunk_name : Text) (offset : ℕ) (ws : List (Written F))
      → All IsWritten ws
      → scan_lines is_utf8 t chunk_name offset (map ended (lines_of ws))
        ≡ ok (entries_of chunk_name offset ws)
  unfolding scan_lines scan_line scan_data entries_of
  scan_lines-written chunk_name offset [] h = refl
  scan_lines-written chunk_name offset ((line, op) ∷ ws) h =
      let e : length (ended line) ≡ suc (length line) =
        omega (arith, length-append line (newline ∷ [])) in
      rw
        (
          h.0.utf8,
          ends_line-ended line,
          trim_line-ended line h.0.clean,
          tagged-scanned line h.0.tagged,
          h.0.tagged,
          h.0.decoded,
          e,
          scan_lines-written chunk_name (offset + suc (length line)) ws h.1,
        )
        refl

  take-All : (n : ℕ) (ws : List (Written F)) → All IsWritten ws → All IsWritten (take n ws)
  take-All zero ws h = tt
  take-All (suc n) [] h = tt
  take-All (suc n) (w ∷ ws) h = (h.0, take-All n ws h.1)

  -- Let the scan of complete lines find some entries, and let lines be written behind them, each
  -- one line of text that is marked as an operation and is read as its operation. The scan then
  -- finds the old entries and behind them one entry for each written line, with the operation it
  -- was written for, its offset in the file, its length and its bytes.
  pub scan_six_file-ended_lines :
      (chunk_name a : Text) (es : List (ScannedSixEntry F)) (ws : List (Written F))
      → is_complete a ≡ true
      → scan_six_file is_utf8 t chunk_name a ≡ ok es
      → All IsWritten ws
      → scan_six_file is_utf8 t chunk_name (a ++ ended_lines (lines_of ws))
        ≡ ok (es ++ entries_of chunk_name (length a) ws)
  scan_six_file-ended_lines chunk_name a es ws h e k =
      let l : read_lines (ended_lines (lines_of ws)) ≡ map ended (lines_of ws) =
        read_lines-of_ended_lines (lines_of ws) (written-IsLine ws k) in
      rw
        (
          scan_six_file-append is_utf8 t chunk_name a (ended_lines (lines_of ws)) h,
          e,
          l,
          scan_lines-written chunk_name (length a) ws k,
        )
        refl

  scan_lines-torn :
      (chunk_name : Text) (offset : ℕ) (s : Text) (out : List (ScannedSixEntry F))
      → Lacks newline s
      → scan_lines is_utf8 t chunk_name offset (read_lines s) ≡ ok out
      → out ≡ []
  unfolding scan_lines read_lines
  scan_lines-torn chunk_name offset [] out h e = ground arith
  scan_lines-torn chunk_name offset (c ∷ s) out h e =
      ground (arith, read_lines-torn c s h, ends_line-torn (c ∷ s) h)

  -- Recovery loses no entry: cutting a file behind its last newline leaves a file with the same
  -- entries, all of them complete lines.
  pub scan_six_file-cut :
      (chunk_name s : Text) (es : List (ScannedSixEntry F))
      → scan_six_file is_utf8 t chunk_name s ≡ ok es
      → (scan_six_file is_utf8 t chunk_name (cut s) ≡ ok es) × (is_complete (cut s) ≡ true)
  scan_six_file-cut chunk_name s es e =
      let d : CutOf s = CutOf-text s in
      let (out, kept, e1) =
        >>=-eq-ok (scan_six_file is_utf8 t chunk_name (cut s))
          (λ out. scan_lines is_utf8 t chunk_name (length (cut s)) (read_lines d.tail) >>= λ more.
            ok (out ++ more))
          (sym (scan_six_file-append is_utf8 t chunk_name (cut s) d.tail d.complete)
            ∙ ap (scan_six_file is_utf8 t chunk_name) (sym d.whole)
            ∙ e) in
      let (more, read, e2) =
        >>=-eq-ok (scan_lines is_utf8 t chunk_name (length (cut s)) (read_lines d.tail))
          (λ more. ok (out ++ more)) e1 in
      (
        ground (
          arith,
          kept,
          e2,
          append-nil out,
          scan_lines-torn chunk_name (length (cut s)) d.tail more d.torn read,
        ),
        d.complete,
      )

  -- A torn append: let the scan of complete lines find some entries, and let any number of the
  -- bytes of a batch of lines be written behind them before a crash, where each line is one line of
  -- text that is marked as an operation and is read as its operation. Behind the cut that recovery
  -- makes, the scan finds the old entries and then those of a first part of the batch.
  pub scan_six_file-torn :
      (chunk_name a : Text) (es : List (ScannedSixEntry F)) (ws : List (Written F)) (n : ℕ)
      → is_complete a ≡ true
      → scan_six_file is_utf8 t chunk_name a ≡ ok es
      → All IsWritten ws
      → (k : ℕ) × (k ≤ length ws)
        × (scan_six_file is_utf8 t chunk_name (cut (a ++ take n (ended_lines (lines_of ws))))
            ≡ ok (es ++ entries_of chunk_name (length a) (take k ws)))
  scan_six_file-torn chunk_name a es ws n h e k =
      let d : Kept a (lines_of ws) (take n (ended_lines (lines_of ws))) =
        cut_torn n a (lines_of ws) h (written-IsLine ws k) in
      (
        d.count,
        subst (λ m. d.count ≤ m) (length-map ws (λ w. w.0)) d.bound,
        rw (d.kept, take-lines_of d.count ws)
            (scan_six_file-ended_lines chunk_name a es (take d.count ws) h e
              (take-All d.count ws k)),
      )
