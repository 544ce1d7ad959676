-- ===== src/Format/Lines/Cut.antt =====
-- The cut behind the last newline that recovery makes, in `truncate_incomplete_tail` of
-- packages/sixpack-store/src/store/append.rs, on the bytes of one file.
use sixpack.Prelude.{
  ℕ, zero, suc, ◌-◌, ◌≤◌, List, [], ◌∷◌, ◌++◌, true, false, Option, none, some, ◌==◌, ◌≡◌, refl,
  arith, All, ap, ◌∙◌, sym, length, take, length-append, take-length-append, append_assoc,
  append-nil, if◌then◌else◌, inl, inr, Option-cases, Bool-cases, leb, leb→le,
}
use sixpack.Prelude.Text.{Text}
use sixpack.Format.Escape.{newline}
use sixpack.Format.Split.{Lacks}
use sixpack.Format.Row.RoundTrip.{IsLine}
use sixpack.Format.Lines.{
  ends_line, is_complete, ended, is_complete-append, ended_lines, ended_complete,
}

-- `rposition` of a newline
unfoldable pub last_newline : Text → Option ℕ
last_newline [] = none
last_newline (c ∷ s) = elim (last_newline s) [
  | some n ↦ some (suc n)
  | none ↦ if c == newline then some 0 else none
]

-- `.map_or(0, |index| index + 1)`
unfoldable pub complete_len : Text → ℕ
complete_len s = elim (last_newline s) [ some n ↦ suc n | none ↦ 0 ]

-- `set_len` of the file
unfoldable pub cut : Text → Text
cut s = take (complete_len s) s

last_newline-Lacks : (s : Text) → Lacks newline s → last_newline s ≡ none
unfolding last_newline
last_newline-Lacks [] h = refl
last_newline-Lacks (c ∷ s) h = ground (arith, last_newline-Lacks s h.1)

last_newline-none : (s : Text) → last_newline s ≡ none → Lacks newline s
unfolding last_newline
last_newline-none [] h = tt
last_newline-none (c ∷ s) h = (ground arith, last_newline-none s (ground arith))

complete_len-append :
    (a b : Text) → is_complete a ≡ true → Lacks newline b → complete_len (a ++ b) ≡ length a
unfolding complete_len last_newline ends_line
complete_len-append [] b h l = ground (arith, last_newline-Lacks b l)
complete_len-append (c ∷ []) b h l = ground (arith, last_newline-Lacks b l)
complete_len-append (c ∷ d ∷ s) b h l = ground (arith, complete_len-append (d ∷ s) b h l)

-- Behind complete lines a rest that holds no newline is cut off, and no more than it.
pub cut-append : (a b : Text) → is_complete a ≡ true → Lacks newline b → cut (a ++ b) ≡ a
unfolding cut
cut-append a b h l = rw (complete_len-append a b h l) (take-length-append a b)

pub cut_complete : (a : Text) → is_complete a ≡ true → cut a ≡ a
cut_complete a h = ap cut (sym (append-nil a)) ∙ cut-append a [] h tt

-- what is left of the text, and what is cut off
pub record CutOf (s : Text) : Type 0 where
  pub tail : Text
  pub whole : s ≡ cut s ++ tail
  pub complete : is_complete (cut s) ≡ true
  pub torn : Lacks newline tail

-- the text without its torn tail, by recursion on the text
record Complete (s : Text) : Type 0 where
  kept : Text
  tail : Text
  whole : s ≡ kept ++ tail
  complete : is_complete kept ≡ true
  torn : Lacks newline tail

first_complete :
    (c : ℕ) (kept tail : Text) (n : ℕ)
    → is_complete kept ≡ true
    → Lacks newline tail
    → last_newline (c ∷ (kept ++ tail)) ≡ some n
    → is_complete (c ∷ kept) ≡ true
unfolding last_newline ends_line
first_complete c [] tail n h l e = ground (arith, last_newline-Lacks tail l)
first_complete c (d ∷ kept) tail n h l e = h

Complete-of : (s : Text) → Complete s
unfolding last_newline ends_line
Complete-of [] = record { kept = []; tail = []; whole = refl; complete = refl; torn = tt }
Complete-of (c ∷ s) = elim (Option-cases (last_newline (c ∷ s))) [
  | inl none_left ↦ record {
    kept = [];
    tail = c ∷ s;
    whole = refl;
    complete = refl;
    torn = last_newline-none (c ∷ s) none_left;
  }
  | inr (n, some_left) ↦
      let d : Complete s = Complete-of s in
      record {
        kept = c ∷ d.kept;
        tail = d.tail;
        whole = ap (λ r. c ∷ r) d.whole;
        complete =
            first_complete c d.kept d.tail n d.complete d.torn
              (ap (λ r. last_newline (c ∷ r)) (sym d.whole) ∙ some_left);
        torn = d.torn;
      }
]

pub CutOf-text : (s : Text) → CutOf s
CutOf-text s =
    let d : Complete s = Complete-of s in
    let e : cut s ≡ d.kept = ap cut d.whole ∙ cut-append d.kept d.tail d.complete d.torn in
    record {
      tail = d.tail;
      whole = d.whole ∙ ap (λ k. k ++ d.tail) (sym e);
      complete = ap is_complete e ∙ d.complete;
      torn = d.torn;
    }

IsLine-Lacks : (l : Text) → IsLine l → Lacks newline l
IsLine-Lacks [] h = tt
IsLine-Lacks (c ∷ l) h = (h.0.0, IsLine-Lacks l h.1)

take-Lacks : (n : ℕ) (l : Text) → Lacks newline l → Lacks newline (take n l)
take-Lacks zero l h = tt
take-Lacks (suc n) [] h = tt
take-Lacks (suc n) (c ∷ l) h = (h.0, take-Lacks n l h.1)

take_within : (n : ℕ) (l s : Text) → n ≤ length l → take n (l ++ s) ≡ take n l
take_within zero l s h = refl
take_within (suc n) [] s h = absurd (omega arith)
take_within (suc n) (c ∷ l) s h = ap (λ r. c ∷ r) (take_within n l s (omega arith))

take_beyond : (l s : Text) (n : ℕ) → length l ≤ n → take n (l ++ s) ≡ l ++ take (n - length l) s
take_beyond [] s n h = ap (λ m. take m s) (omega arith)
take_beyond (c ∷ l) s zero h = absurd (omega arith)
take_beyond (c ∷ l) s (suc n) h =
    ap (λ r. c ∷ r) (take_beyond l s n (omega arith)) ∙ ap (λ m. c ∷ (l ++ take m s)) (omega arith)

-- the cut of a torn write, with the lines that were written in full
pub record Kept (a : Text) (ls : List Text) (written : Text) : Type 0 where
  pub count : ℕ
  pub bound : count ≤ length ls
  pub kept : cut (a ++ written) ≡ a ++ ended_lines (take count ls)

none_written :
    (n : ℕ) (a : Text) (ls : List Text)
    → cut (a ++ take n (ended_lines ls)) ≡ a
    → Kept a ls (take n (ended_lines ls))
unfolding ended_lines
none_written n a ls e = record { count = 0; bound = omega arith; kept = e ∙ sym (append-nil a) }

length_le : (l : Text) (n : ℕ) → leb (suc n) (length l) ≡ false → length (ended l) ≤ suc n
length_le l n e = ground (arith, length-append l (newline ∷ []))

pub cut_torn :
    (n : ℕ) (a : Text) (ls : List Text)
    → is_complete a ≡ true
    → All IsLine ls
    → Kept a ls (take n (ended_lines ls))
unfolding ended_lines
cut_torn zero a ls h k = none_written zero a ls (cut-append a [] h tt)
cut_torn (suc n) a [] h k = none_written (suc n) a [] (cut-append a [] h tt)
cut_torn (suc n) a (l ∷ ls) h k = elim (Bool-cases (leb (suc n) (length l))) [
  | inl e ↦ none_written (suc n) a (l ∷ ls) (
      ap (λ w. cut (a ++ take (suc n) w)) (append_assoc l (newline ∷ []) (ended_lines ls))
      ∙ ap (λ w. cut (a ++ w)) (take_within (suc n) l _ (leb→le (suc n) (length l) e))
      ∙ cut-append a _ h (take-Lacks (suc n) l (IsLine-Lacks l k.0)))
  | inr e ↦
      let d : Kept (a ++ ended l) ls (take (suc n - length (ended l)) (ended_lines ls)) =
        cut_torn (suc n - length (ended l)) (a ++ ended l) ls
          (is_complete-append a (ended l) (ended_complete l) h) k.1 in
      record {
        count = suc d.count;
        bound = omega (arith, d.bound);
        kept =
            ap (λ w. cut (a ++ w))
              (take_beyond (ended l) (ended_lines ls) (suc n) (length_le l n e))
            ∙ ap cut (sym (append_assoc a (ended l) _))
            ∙ d.kept
            ∙ append_assoc a (ended l) _;
      }
]
