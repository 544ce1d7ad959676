-- ===== src/Store/Scan/Extended.antt =====
-- A scan of more lines continues the scan of the lines before.
use sixpack.Prelude.{
  ℕ, ◌+◌, List, [], ◌∷◌, ◌++◌, Bool, true, false, Option, none, some, length, ◌≡◌, refl, arith, All,
  ap, ◌∙◌, sym, Bool-cases, ◌==◌, inl, inr,
}
use sixpack.Prelude.Outcome.{Outcome, ok, err, ◌>>=◌, ◌>>◌, Fault, >>=-ok}
use sixpack.Prelude.Text.{Text, text_ord, is_empty}
use sixpack.Core.Value.{FloatText}
use sixpack.Core.Schema.Table.{TableSchema}
use sixpack.Format.Escape.{newline}
use sixpack.Format.Lines.{
  read_lines, with_first, trim_line, ends_line, is_complete, read_lines-append,
}
use sixpack.Format.Operation.{SixOperationRecord}
use sixpack.Store.Error.{StoreError}
use sixpack.Store.Scan.{ScannedSixEntry, checked, pushed, scan_line, scan_lines, scan_six_file}

-- the bytes of the lines together
unfoldable pub total : List Text → ℕ
total [] = 0
total (l ∷ ls) = length l + total ls

pub total-read_lines : (s : Text) → total (read_lines s) ≡ length s
unfolding total read_lines
total-read_lines [] = refl
total-read_lines (c ∷ s) = ground (arith, total-read_lines s)

-- every line with its newline
abbrev pub Ends : List Text → Type 0
Ends = All (λ l. ends_line l ≡ true)

ends_line-cons : (c : ℕ) (l : Text) → ends_line l ≡ true → ends_line (c ∷ l) ≡ true
unfolding ends_line
ends_line-cons c [] h = absurd (cc)
ends_line-cons c (d ∷ l) h = h

with_first-Ends : (c : ℕ) (ls : List Text) → is_empty ls ≡ false → Ends ls → Ends (with_first c ls)
with_first-Ends c [] e h = absurd (cc)
with_first-Ends c (l ∷ ls) e h = (ends_line-cons c l h.0, h.1)

read_lines-ne-nil : (c : ℕ) (s : Text) → is_empty (read_lines (c ∷ s)) ≡ false
unfolding read_lines
read_lines-ne-nil c s = ground arith

pub read_lines-Ends : (s : Text) → is_complete s ≡ true → Ends (read_lines s)
unfolding read_lines ends_line
read_lines-Ends [] h = tt
read_lines-Ends (c ∷ []) h = rw h (h, tt)
read_lines-Ends (c ∷ d ∷ s) h = elim (Bool-cases (c == newline)) [
  | inl e ↦ rw e (e, read_lines-Ends (d ∷ s) h)
  | inr e ↦
      rw e
        (with_first-Ends c (read_lines (d ∷ s)) (read_lines-ne-nil d s) (read_lines-Ends (d ∷ s) h))
]

module _ (is_utf8 : Text → Bool) {F : Type 0} ⦃float : FloatText F⦄ (t : TableSchema)
    (chunk_name : Text) where
  -- one more line in front
  continued :
      (offset : ℕ) (l : Text) (read : Outcome (Fault StoreError) (Unit {0}))
      (line : Outcome (Fault StoreError) (Option (SixOperationRecord F)))
      (rest more : Outcome (Fault StoreError) (List (ScannedSixEntry F)))
      → (read
          >> (line >>= λ op. (rest >>= λ out. more >>= λ m. ok (out ++ m)) >>= λ out.
              ok (pushed chunk_name offset l op out)))
        ≡ ((read >> (line >>= λ op. rest >>= λ out. ok (pushed chunk_name offset l op out)))
            >>= λ out. more >>= λ m. ok (out ++ m))
  continued offset l (err e) line rest more = refl
  continued offset l (ok u) (err e) rest more = refl
  continued offset l (ok u) (ok op) (err e) more = refl
  continued offset l (ok u) (ok op) (ok out) (err e) = refl
  continued offset l (ok u) (ok none) (ok out) (ok m) = refl
  continued offset l (ok u) (ok (some op)) (ok out) (ok m) = refl

  scan_lines-append :
      (offset : ℕ) (ls ms : List Text)
      → Ends ls
      → scan_lines is_utf8 {F = F} t chunk_name offset (ls ++ ms) ≡ (
          scan_lines is_utf8 {F = F} t chunk_name offset ls >>= λ out.
          scan_lines is_utf8 t chunk_name (offset + total ls) ms >>= λ more. ok (out ++ more))
  unfolding scan_lines total
  scan_lines-append offset [] ms h =
      ap (λ o. scan_lines is_utf8 t chunk_name o ms) (omega arith)
      ∙ sym (>>=-ok (scan_lines is_utf8 t chunk_name (offset + 0) ms))
  scan_lines-append offset (l ∷ ls) ms h =
      let e : offset + length l + total ls ≡ offset + (length l + total ls) = omega arith in
      rw (h.0, scan_lines-append (offset + length l) ls ms h.1, e)
        (continued offset l (checked is_utf8 l) (scan_line is_utf8 t (trim_line l))
          (scan_lines is_utf8 t chunk_name (offset + length l) ls)
          (scan_lines is_utf8 t chunk_name (offset + (length l + total ls)) ms))

  -- The scan of complete lines with more behind them: the entries of both, or the first error.
  pub scan_six_file-append :
      (a b : Text)
      → is_complete a ≡ true
      → scan_six_file is_utf8 {F = F} t chunk_name (a ++ b) ≡ (
          scan_six_file is_utf8 {F = F} t chunk_name a >>= λ out.
          scan_lines is_utf8 t chunk_name (length a) (read_lines b) >>= λ more. ok (out ++ more))
  unfolding scan_six_file
  scan_six_file-append a b h =
      let e : 0 + total (read_lines a) ≡ length a = omega (arith, total-read_lines a) in
      rw (read_lines-append a b h, ← e)
        (scan_lines-append 0 (read_lines a) (read_lines b) (read_lines-Ends a h))
