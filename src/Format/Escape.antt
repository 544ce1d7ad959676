-- ===== src/Format/Escape.antt =====
-- `escape_six_value` and `unescape_six_value` of packages/sixpack-format/src/format.rs.
pub mod Laws
use sixpack.Prelude.{
  ℕ, List, [], ◌∷◌, ◌++◌, Bool, true, false, ◌==◌, ltb, leb, ◌&&◌, if◌then◌else◌, ◌≡◌, refl,
}
use sixpack.Prelude.Outcome.{Outcome, ok, err, ◌>>=◌}
use sixpack.Prelude.Text.{Text, codes}
use sixpack.Format.Error.{FormatError, bad_six_escape}

abbrev pub backslash : ℕ
backslash = b'\\'

abbrev pub tab : ℕ
tab = b'\t'

abbrev pub newline : ℕ
newline = b'\n'

abbrev pub carriage_return : ℕ
carriage_return = b'\r'

-- what one character appends
unfoldable pub escape_char : ℕ → Text
escape_char c =
    if c == backslash
    then backslash ∷ backslash ∷ []
    else if c == tab
    then backslash ∷ b't' ∷ []
    else if c == newline
    then backslash ∷ b'n' ∷ []
    else if c == carriage_return
    then backslash ∷ b'r' ∷ []
    else c ∷ []

unfoldable pub escape_six_value : Text → Text
escape_six_value [] = []
escape_six_value (c ∷ s) = escape_char c ++ escape_six_value s

-- the bytes that continue a UTF-8 character
abbrev pub continuation : Text → Text
continuation [] = []
continuation (c ∷ s) = if leb 128 c && ltb c 192 then c ∷ continuation s else []

-- the character that stands behind a backslash
abbrev pub revealed : ℕ → Text → Outcome FormatError ℕ
revealed c rest =
    if c == backslash
    then ok backslash
    else if c == b't'
    then ok tab
    else if c == b'n'
    then ok newline
    else if c == b'r'
    then ok carriage_return
    else err (bad_six_escape (backslash ∷ c ∷ continuation rest))

unfoldable pub unescape_six_value : Text → Outcome FormatError Text
unescape_six_value [] = ok []
unescape_six_value (c ∷ []) =
    if c == backslash then err (bad_six_escape (codes "dangling \\")) else ok (c ∷ [])
unescape_six_value (c ∷ d ∷ s) =
    let escaped = (do e ← revealed d s; out ← unescape_six_value s; ok (e ∷ out)) in
    let plain = (do out ← unescape_six_value (d ∷ s); ok (c ∷ out)) in
    if c == backslash then escaped else plain

escape_tests :
    (escape_six_value (codes "a\tb\\c\n") ≡ codes "a\\tb\\\\c\\n")
    × (unescape_six_value (codes "a\\tb\\\\c\\n") ≡ ok (codes "a\tb\\c\n"))
    × (unescape_six_value (codes "ab\\") ≡ err (bad_six_escape (codes "dangling \\")))
    × (unescape_six_value (codes "\\q") ≡ err (bad_six_escape (codes "\\q")))
unfolding escape_six_value escape_char unescape_six_value
escape_tests = (refl, refl, refl, refl)
