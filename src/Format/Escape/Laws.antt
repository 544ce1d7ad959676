-- ===== src/Format/Escape/Laws.antt =====
-- Escaping can be undone, and hides what separates columns and lines.
use sixpack.Prelude.{
  ℕ, [], ◌∷◌, ◌++◌, ◌==◌, ◌≡◌, ◌≢◌, refl, arith, All, All-append, ◌∙◌, ap, subst, Bool-cases, inl,
  inr,
}
use sixpack.Prelude.Outcome.{Outcome, ok, err, ◌>>=◌}
use sixpack.Prelude.Text.{Text}
use sixpack.Format.Error.{FormatError}
use sixpack.Format.Escape.{
  backslash, tab, newline, carriage_return, escape_char, escape_six_value, unescape_six_value,
  revealed,
}

-- no tab, no newline and no carriage return
abbrev pub IsCell : Text → Type 0
IsCell = All (λ c. (c ≢ tab) × (c ≢ newline) × (c ≢ carriage_return))

escape_char-IsCell : (c : ℕ) → IsCell (escape_char c)
unfolding escape_char
escape_char-IsCell c = ground arith

pub escape-IsCell : (s : Text) → IsCell (escape_six_value s)
unfolding escape_six_value
escape-IsCell [] = tt
escape-IsCell (c ∷ s) =
    All-append _ (escape_char c) (escape_six_value s) (escape_char-IsCell c) (escape-IsCell s)

unescape-escape_char :
    (c : ℕ) (s : Text)
    → unescape_six_value (escape_char c ++ s) ≡ (unescape_six_value s >>= λ out. ok (c ∷ out))
unfolding escape_char unescape_six_value
unescape-escape_char c [] = ground arith
unescape-escape_char c (d ∷ s) = ground arith

unescape-escape_lem : (s : Text) → unescape_six_value (escape_six_value s) ≡ ok s
unfolding escape_six_value
unescape-escape_lem [] = unfold unescape_six_value in refl
unescape-escape_lem (c ∷ s) =
    unescape-escape_char c (escape_six_value s)
    ∙ ap (λ (m : Outcome FormatError Text). m >>= λ out. ok (c ∷ out)) (unescape-escape_lem s)

-- Unescaping undoes escaping for every value, and the escaped value holds no tab, no newline and
-- no carriage return, so it is one cell of one line.
pub unescape-escape :
    (s : Text) → (unescape_six_value (escape_six_value s) ≡ ok s) × IsCell (escape_six_value s)
unescape-escape s = (unescape-escape_lem s, escape-IsCell s)

-- the escaped form of the value that was read, if one was
abbrev Rewrites : Outcome FormatError Text → Text → Type 0
Rewrites (ok v) s = escape_six_value v ≡ s
Rewrites (err e) s = Unit

escape_cons : (c : ℕ) (s : Text) → escape_six_value (c ∷ s) ≡ escape_char c ++ escape_six_value s
unfolding escape_six_value
escape_cons c s = refl

escape_nil : escape_six_value [] ≡ []
unfolding escape_six_value
escape_nil = refl

Rewrites-plain :
    (c : ℕ) (s : Text) (m : Outcome FormatError Text)
    → (c ≢ tab) × (c ≢ newline) × (c ≢ carriage_return)
    → c ≢ backslash
    → Rewrites m s
    → Rewrites (m >>= λ out. ok (c ∷ out)) (c ∷ s)
unfolding escape_char
Rewrites-plain c s (ok v) cell h e = ground (arith, escape_cons c v)
Rewrites-plain c s (err x) cell h e = tt

Rewrites-escaped :
    (d : ℕ) (s : Text) (m : Outcome FormatError Text)
    → Rewrites m s
    → Rewrites (revealed d s >>= λ e. m >>= λ out. ok (e ∷ out)) (backslash ∷ d ∷ s)
unfolding escape_char
Rewrites-escaped d s (ok v) h = ground (
  arith,
  escape_cons backslash v,
  escape_cons tab v,
  escape_cons newline v,
  escape_cons carriage_return v,
)
Rewrites-escaped d s (err x) h = ground arith

unescape-Rewrites : (s : Text) → IsCell s → Rewrites (unescape_six_value s) s
unfolding unescape_six_value
unescape-Rewrites [] cell = escape_nil
unescape-Rewrites (c ∷ []) cell = ground (arith, Rewrites-plain c [] (ok []) cell.0, escape_nil)
unescape-Rewrites (c ∷ d ∷ s) cell = elim (Bool-cases (c == backslash)) [
  | inl e ↦ rw e (
      subst
        (λ b.
          Rewrites (revealed d s >>= λ x. unescape_six_value s >>= λ out. ok (x ∷ out)) (b ∷ d ∷ s))
        (ground arith) (Rewrites-escaped d s (unescape_six_value s) (unescape-Rewrites s cell.1.1)))
  | inr e ↦ rw e (
      Rewrites-plain c (d ∷ s) (unescape_six_value (d ∷ s)) cell.0 (ground arith)
        (unescape-Rewrites (d ∷ s) cell.1))
]

-- A cell that can be read is the escaped form of the value that it is read as: no two different
-- cells mean the same value.
pub escape-unescape : (s v : Text) → IsCell s → unescape_six_value s ≡ ok v → escape_six_value v ≡ s
escape-unescape s v cell e = subst (λ m. Rewrites m s) e (unescape-Rewrites s cell)
