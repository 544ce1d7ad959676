-- ===== src/Store/Scan/Header.antt =====
-- The head of a chunk file: the preamble that an append writes is accepted and holds no entry, and
-- what is appended to a file does not change how its head is read.
use sixpack.Prelude.{
  ℕ, ◌+◌, List, [], ◌∷◌, ◌++◌, Bool, true, false, length, All, ◌≡◌, refl, arith, ap, ◌∙◌, sym, map,
  inl, inr, append_assoc, append-nil, subst,
}
use sixpack.Prelude.Outcome.{ok, err, Outcome-cases}
use sixpack.Prelude.Order.{same, same_self}
use sixpack.Prelude.Text.{Text, text_ord, codes, is_empty, starts_with}
use sixpack.Core.Value.{FloatText}
use sixpack.Core.Schema.Table.{TableSchema}
use sixpack.Format.Row.{encode_six_header}
use sixpack.Format.Row.RoundTrip.{IsLine}
use sixpack.Format.Lines.{
  read_lines, ended, ended_lines, is_complete, read_lines-append, trim_line-ended, ends_line-ended,
  read_lines-of_ended_lines, ended_lines_complete,
}
use sixpack.Format.Operation.{is_six_magic_line}
use sixpack.Format.Preamble.{encode_six_preamble, magic_line}
use sixpack.Format.Preamble.Valid.{
  IsHash, IsMark, IsInner, inner-marks, marks-IsLine, magic_line-IsLine, PreambleOf,
  PreambleOf-encoded, validate-encode_six_preamble,
}
use sixpack.Store.Scan.{
  invalid_data, scan_line, scan_lines, scan_six_file, is_passed_over, read_preamble, verify_lines,
  verify_read, verify_header,
}

-- a line that is passed over
record IsPassed (line : Text) : Type 0 where
  clean : IsLine line
  passed : is_passed_over line ≡ true

magic_line-IsPassed : (t : TableSchema) (hash : Text) → IsHash hash → IsPassed (magic_line t hash)
unfolding magic_line is_six_magic_line starts_with
magic_line-IsPassed t hash h = record { clean = magic_line-IsLine t hash h; passed = refl }

mark-IsPassed : (line : Text) → IsMark line → IsPassed line
mark-IsPassed line h = record { clean = h.clean; passed = ground (arith, h.marked) }

inners-IsLine : (ls : List Text) → All IsInner ls → All IsLine ls
inners-IsLine [] h = tt
inners-IsLine (l ∷ ls) h = (h.0.mark.clean, inners-IsLine ls h.1)

marks-IsPassed : (ls : List Text) → All IsMark ls → All IsPassed ls
marks-IsPassed [] h = tt
marks-IsPassed (l ∷ ls) h = (mark-IsPassed l h.0, marks-IsPassed ls h.1)

read_lines-ne : (s : Text) → is_empty s ≡ false → is_empty (read_lines s) ≡ false
unfolding read_lines
read_lines-ne [] h = absurd (cc)
read_lines-ne (c ∷ s) h = ground arith

module _ (is_utf8 : Text → Bool) where
  -- the lines are valid UTF-8
  abbrev pub AreUtf8 : List Text → Type 0
  AreUtf8 = All (λ l. is_utf8 l ≡ true)

  read_preamble-append :
      (preamble found : Text) (ls ms : List Text)
      → read_preamble is_utf8 preamble ls ≡ ok found
      → read_preamble is_utf8 preamble (ls ++ ms) ≡ ok found
  unfolding read_preamble
  read_preamble-append preamble found [] ms e = absurd (cc)
  read_preamble-append preamble found (l ∷ ls) ms e =
      ground (arith, read_preamble-append (preamble ++ l) found ls ms)

  read_preamble-inner :
      (preamble : Text) (inner ms : List Text)
      → All IsInner inner
      → AreUtf8 (map ended (inner ++ (codes "@data" ∷ [])))
      → read_preamble is_utf8 preamble (map ended (inner ++ (codes "@data" ∷ [])) ++ ms)
        ≡ ok (preamble ++ ended_lines (inner ++ (codes "@data" ∷ [])))
  unfolding read_preamble ended_lines
  read_preamble-inner preamble [] ms h u =
      rw (u.0, trim_line-ended (codes "@data") (omega arith), same_self (codes "@data")) refl
  read_preamble-inner preamble (l ∷ inner) ms h u =
      rw (u.0, trim_line-ended l h.0.mark.clean, h.0.inner)
        (read_preamble-inner (preamble ++ ended l) inner ms h.1 u.1
          ∙ ap ok (append_assoc preamble (ended l) (ended_lines (inner ++ (codes "@data" ∷ [])))))

  verify_read-append :
      (t : TableSchema) (hash : Text) (ls ms : List Text)
      → is_empty ls ≡ false
      → verify_read is_utf8 t hash ls ≡ ok tt
      → verify_read is_utf8 t hash (ls ++ ms) ≡ ok tt
  unfolding verify_read verify_lines
  verify_read-append t hash [] ms some_line e = absurd (cc)
  verify_read-append t hash (header ∷ ls) ms some_line e =
      elim (Outcome-cases (read_preamble is_utf8 header ls)) [
        | inl (found, f) ↦ ground (arith, f, read_preamble-append header found ls ms f)
        | inr (bad, f) ↦ ground (arith, f)
      ]

  -- Let the head of a nonempty file of complete lines be accepted. It is accepted as well after
  -- anything is appended.
  pub verify_header-append :
      (t : TableSchema) (hash a b : Text)
      → is_empty a ≡ false
      → is_complete a ≡ true
      → verify_header is_utf8 t hash a ≡ ok tt
      → verify_header is_utf8 t hash (a ++ b) ≡ ok tt
  unfolding verify_header
  verify_header-append t hash a b some_byte h e =
      rw (read_lines-append a b h)
        (verify_read-append t hash (read_lines a) (read_lines b) (read_lines-ne a some_byte) e)

  verify_read-preamble :
      (t : TableSchema) (written current preamble : Text)
      → IsHash written
      → IsHash current
      → encode_six_preamble t written ≡ ok preamble
      → (d : PreambleOf t written preamble)
      → AreUtf8 (map ended (magic_line t written ∷ (d.inner ++ (codes "@data" ∷ []))))
      → verify_read is_utf8 t current
          (map ended (magic_line t written ∷ (d.inner ++ (codes "@data" ∷ []))))
        ≡ ok tt
  unfolding verify_read verify_lines ended_lines
  verify_read-preamble t written current preamble h k e d u =
      let found =
        ap (read_preamble is_utf8 (ended (magic_line t written)))
          (sym (append-nil (map ended (d.inner ++ (codes "@data" ∷ [])))))
        ∙ read_preamble-inner (ended (magic_line t written)) d.inner [] d.inners u.1
        ∙ ap ok (sym d.whole) in
      ground (arith, u.0, found, validate-encode_six_preamble t written current preamble h k e)

  module _ {F : Type 0} ⦃float : FloatText F⦄ (t : TableSchema) where
    scan_lines-passed :
        (chunk_name : Text) (offset : ℕ) (ls : List Text)
        → All IsPassed ls
        → AreUtf8 (map ended ls)
        → scan_lines is_utf8 {F = F} t chunk_name offset (map ended ls) ≡ ok []
    unfolding scan_lines scan_line
    scan_lines-passed chunk_name offset [] h u = refl
    scan_lines-passed chunk_name offset (l ∷ ls) h u =
        rw
          (
            u.0,
            ends_line-ended l,
            trim_line-ended l h.0.clean,
            h.0.passed,
            scan_lines-passed chunk_name (offset + length (ended l)) ls h.1 u.1,
          )
          refl

    -- A new file: let the preamble be the one written for the table under a hash of sixteen
    -- hexadecimal digits, and let its lines be valid UTF-8. Its head is accepted under every such
    -- hash, it ends with a newline, and it holds no entry.
    pub encode_six_preamble-scanned :
        (written current preamble chunk_name : Text)
        → IsHash written
        → IsHash current
        → encode_six_preamble t written ≡ ok preamble
        → AreUtf8 (read_lines preamble)
        → (verify_header is_utf8 t current preamble ≡ ok tt)
          × (is_complete preamble ≡ true)
          × (scan_six_file is_utf8 {F = F} t chunk_name preamble ≡ ok [])
    unfolding verify_header scan_six_file
    encode_six_preamble-scanned written current preamble chunk_name h k e u =
        let d : PreambleOf t written preamble = PreambleOf-encoded t written preamble e in
        let shape = d.inner ++ (codes "@data" ∷ []) in
        let marks = inner-marks d.inner d.inners in
        let clean : All IsLine (magic_line t written ∷ shape) =
          (magic_line-IsLine t written h, marks-IsLine shape marks) in
        let read : read_lines preamble ≡ map ended (magic_line t written ∷ shape) =
          ap read_lines d.whole ∙ read_lines-of_ended_lines (magic_line t written ∷ shape) clean in
        (
          ap (verify_read is_utf8 t current) read
              ∙ verify_read-preamble t written current preamble h k e d (subst AreUtf8 read u),
          ap is_complete d.whole ∙ ended_lines_complete (magic_line t written ∷ shape),
          ap (scan_lines is_utf8 t chunk_name 0) read
              ∙ scan_lines-passed chunk_name 0 (magic_line t written ∷ shape)
                  (magic_line-IsPassed t written h, marks-IsPassed shape marks)
                  (subst AreUtf8 read u),
        )

module _ (is_utf8 : Text → Bool) (t : TableSchema) where
  read_preamble-incomplete :
      (preamble : Text) (ls : List Text)
      → All IsInner ls
      → AreUtf8 is_utf8 (map ended ls)
      → read_preamble is_utf8 preamble (map ended ls)
        ≡ err (invalid_data (codes "incomplete .6 preamble"))
  unfolding read_preamble
  read_preamble-incomplete preamble [] h u = refl
  read_preamble-incomplete preamble (l ∷ ls) h u =
      rw (u.0, trim_line-ended l h.0.mark.clean, h.0.inner)
        (read_preamble-incomplete (preamble ++ ended l) ls h.1 u.1)

  -- A torn new file: let a file hold the first line of a preamble and then any complete lines of
  -- one but not its last, in valid UTF-8, where the first line is not the legacy header. The file
  -- is refused, whatever the current hash.
  pub verify_header-incomplete :
      (written current : Text) (ls : List Text)
      → IsHash written
      → All IsInner ls
      → AreUtf8 is_utf8 (map ended (magic_line t written ∷ ls))
      → same (magic_line t written) (encode_six_header t) ≡ false
      → verify_header is_utf8 t current (ended_lines (magic_line t written ∷ ls))
        ≡ err (invalid_data (codes "incomplete .6 preamble"))
  unfolding verify_header verify_read verify_lines
  verify_header-incomplete written current ls hex h u other =
      let clean = magic_line-IsLine t written hex in
      rw
        (
          read_lines-of_ended_lines (magic_line t written ∷ ls) (clean, inners-IsLine ls h),
          u.0,
          trim_line-ended (magic_line t written) clean,
          other,
          read_preamble-incomplete (ended (magic_line t written)) ls h u.1,
        )
        refl
