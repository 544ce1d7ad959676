-- ===== src/Format/Lines.antt =====
-- Lines as `BufRead::read_line` returns them, each with its newline but perhaps the last, and
-- `trim_end_matches(['\r', '\n'])`, as the standard library documents them.
pub mod Cut
use sixpack.Prelude.{
  ℕ, suc, ◌+◌, List, [], ◌∷◌, ◌++◌, Bool, true, false, Option, none, some, ◌==◌, ◌||◌, ◌&&◌,
  if◌then◌else◌, ◌≡◌, ◌≢◌, refl, arith, All, ap, ◌∙◌, length, Bool-cases, inl, inr, append_assoc,
  append-nil, map, sym,
}
use sixpack.Prelude.Text.{Text, is_empty}
use sixpack.Format.Escape.{newline, carriage_return}
use sixpack.Format.Row.RoundTrip.{IsLine}

abbrev pub with_first : ℕ → List Text → List Text
with_first c [] = (c ∷ []) ∷ []
with_first c (l ∷ ls) = (c ∷ l) ∷ ls

-- what `read_line` returns, again and again, until the end
unfoldable pub read_lines : Text → List Text
read_lines [] = []
read_lines (c ∷ s) =
    let rest = read_lines s in if c == newline then (c ∷ []) ∷ rest else with_first c rest

-- `ends_with(b"\n")`
unfoldable pub ends_line : Text → Bool
ends_line [] = false
ends_line (c ∷ []) = c == newline
ends_line (c ∷ d ∷ s) = ends_line (d ∷ s)

abbrev pub is_line_end : ℕ → Bool
is_line_end c = c == carriage_return || c == newline

-- `trim_end_matches(['\r', '\n'])`
unfoldable pub trim_line : Text → Text
trim_line [] = []
trim_line (c ∷ s) =
    let rest = trim_line s in if is_empty rest && is_line_end c then [] else c ∷ rest

-- nothing, or nothing behind the last newline
abbrev pub is_complete : Text → Bool
is_complete s = is_empty s || ends_line s

abbrev pub ended : Text → Text
ended line = line ++ (newline ∷ [])

pub ends_line-ended : (line : Text) → ends_line (ended line) ≡ true
unfolding ends_line
ends_line-ended [] = ground arith
ends_line-ended (c ∷ []) = ground arith
ends_line-ended (c ∷ d ∷ s) = ends_line-ended (d ∷ s)

pub trim_line-ended : (line : Text) → IsLine line → trim_line (ended line) ≡ line
unfolding trim_line
trim_line-ended [] h = ground arith
trim_line-ended (c ∷ s) h = ground (arith, trim_line-ended s h.1)

pub read_lines-ended :
    (line s : Text) → IsLine line → read_lines (ended line ++ s) ≡ ended line ∷ read_lines s
unfolding read_lines
read_lines-ended [] s h = ground arith
read_lines-ended (c ∷ line) s h = ground (arith, read_lines-ended line s h.1)

with_first-append :
    (c d : ℕ) (s : Text) (ls : List Text)
    → with_first c (read_lines (d ∷ s) ++ ls) ≡ with_first c (read_lines (d ∷ s)) ++ ls
unfolding read_lines
with_first-append c d s ls = ground arith

pub read_lines-append :
    (a b : Text) → is_complete a ≡ true → read_lines (a ++ b) ≡ read_lines a ++ read_lines b
unfolding read_lines ends_line
read_lines-append [] b h = refl
read_lines-append (c ∷ []) b h = ground arith
read_lines-append (c ∷ d ∷ s) b h =
    rw (read_lines-append (d ∷ s) b h) (elim (Bool-cases (c == newline)) [
      | inl e ↦ rw e refl
      | inr e ↦ rw e (with_first-append c d s (read_lines b))
    ])

pub is_complete-append :
    (a b : Text) → is_complete b ≡ true → is_complete a ≡ true → is_complete (a ++ b) ≡ true
unfolding ends_line
is_complete-append [] b h k = h
is_complete-append (c ∷ []) [] h k = k
is_complete-append (c ∷ []) (d ∷ b) h k = h
is_complete-append (c ∷ d ∷ s) b h k = is_complete-append (d ∷ s) b h k

-- what `str::lines` takes off the end of a line: the newline, with a carriage return before it
unfoldable pub strip_line : Text → Text
strip_line [] = []
strip_line (c ∷ []) = if c == newline then [] else c ∷ []
strip_line (c ∷ d ∷ s) =
    let rest = strip_line (d ∷ s) in
    if (c == carriage_return && d == newline) && is_empty s then [] else c ∷ rest

-- `str::lines`
unfoldable pub lines : Text → List Text
lines s = map strip_line (read_lines s)

-- the bytes of some lines
unfoldable pub ended_lines : List Text → Text
ended_lines [] = []
ended_lines (l ∷ ls) = ended l ++ ended_lines ls

pub strip_line-ended : (line : Text) → IsLine line → strip_line (ended line) ≡ line
unfolding strip_line
strip_line-ended [] h = ground arith
strip_line-ended (c ∷ []) h = ground arith
strip_line-ended (c ∷ d ∷ s) h = ground (arith, strip_line-ended (d ∷ s) h.1)

pub read_lines-ended_lines :
    (ls : List Text) (s : Text)
    → All IsLine ls
    → read_lines (ended_lines ls ++ s) ≡ map ended ls ++ read_lines s
unfolding ended_lines
read_lines-ended_lines [] s h = refl
read_lines-ended_lines (l ∷ ls) s h =
    ap read_lines (append_assoc (ended l) (ended_lines ls) s)
    ∙ read_lines-ended l (ended_lines ls ++ s) h.0
    ∙ ap (λ r. ended l ∷ r) (read_lines-ended_lines ls s h.1)

pub read_lines-of_ended_lines :
    (ls : List Text) → All IsLine ls → read_lines (ended_lines ls) ≡ map ended ls
unfolding read_lines
read_lines-of_ended_lines ls h =
    ap read_lines (sym (append-nil (ended_lines ls)))
    ∙ read_lines-ended_lines ls [] h
    ∙ append-nil (map ended ls)

strip_each : (ls : List Text) → All IsLine ls → map strip_line (map ended ls) ≡ ls
strip_each [] h = refl
strip_each (l ∷ ls) h = rw (strip_line-ended l h.0) (ap (λ r. l ∷ r) (strip_each ls h.1))

pub lines-ended_lines : (ls : List Text) → All IsLine ls → lines (ended_lines ls) ≡ ls
unfolding lines
lines-ended_lines ls h = ap (map strip_line) (read_lines-of_ended_lines ls h) ∙ strip_each ls h

pub ended_complete : (l : Text) → is_complete (ended l) ≡ true
ended_complete l = ground (arith, ends_line-ended l)

pub ended_lines_complete : (ls : List Text) → is_complete (ended_lines ls) ≡ true
unfolding ended_lines
ended_lines_complete [] = refl
ended_lines_complete (l ∷ ls) =
    is_complete-append (ended l) (ended_lines ls) (ended_lines_complete ls) (ended_complete l)
