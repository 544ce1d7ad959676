-- ===== src/Format/Preamble.antt =====
-- `encode_six_preamble` and `validate_six_preamble` of packages/sixpack-format/src/format.rs.
pub mod Valid
use sixpack.Prelude.{
  ℕ, List, [], ◌∷◌, ◌++◌, Bool, true, false, Option, none, some, ◌==◌, ◌&&◌, length, take, all,
  if◌then◌else◌, ◌≡◌, refl, arith, All, All-append, ap, ◌∙◌,
}
use sixpack.Prelude.Outcome.{
  Outcome, ok, err, ◌>>=◌, ensure, expect, Panic, Fault, panic, fault, may_panic, may_fail,
}
use sixpack.Prelude.Order.{same, list_ord}
use sixpack.Prelude.Text.{Text, text_ord, codes, is_ascii_hexdigit}
use sixpack.Core.Value.{type_name}
use sixpack.Core.Schema.Table.{
  FieldSpec, LookupSpec, TableSchema, field, lookup_specs_with_implicit_id,
}
use sixpack.Core.Schema.Signature.{unique_word}
use sixpack.Format.Error.{FormatError, bad_six_magic}
use sixpack.Format.Escape.{escape_six_value, tab}
use sixpack.Format.Lines.{lines, ended_lines}
use sixpack.Format.Split.{split}

unfoldable pub magic_line : TableSchema → Text → Text
magic_line t hash = codes "SIX\t1\ttable\t" ++ (escape_six_value t.name ++ (tab ∷ hash))

abbrev pub field_line : FieldSpec → Text
field_line f = codes "@field\t" ++ (escape_six_value f.name ++ (tab ∷ type_name f.kind))

abbrev pub lookup_line : LookupSpec → Text
lookup_line l = codes "@lookup\t" ++ (escape_six_value l.field_name ++ (tab ∷ unique_word l.unique))

-- the loop over the fields
unfoldable pub field_lines : TableSchema → List Text → Outcome Panic (List Text)
field_lines t [] = ok []
field_lines t (name ∷ names) = do
  f ← expect (field name t)
  rest ← field_lines t names
  ok (field_line f ∷ rest)

unfoldable pub lookup_lines : List LookupSpec → List Text
lookup_lines [] = []
lookup_lines (l ∷ ls) = lookup_line l ∷ lookup_lines ls

-- the lines behind the first
unfoldable pub shape_lines : TableSchema → Outcome Panic (List Text)
shape_lines t = do
  fields ← field_lines t t.field_order
  ok (fields ++ (lookup_lines (lookup_specs_with_implicit_id t) ++ (codes "@data" ∷ [])))

unfoldable pub encode_six_preamble : TableSchema → Text → Outcome Panic Text
encode_six_preamble t hash = do shape ← shape_lines t; ok (ended_lines (magic_line t hash ∷ shape))

-- `next().unwrap_or_default()`
abbrev pub first_line : List Text → Text
first_line [] = []
first_line (l ∷ ls) = l

abbrev pub later_lines : List Text → List Text
later_lines [] = []
later_lines (l ∷ ls) = ls

-- `parts[4]`
abbrev pub fifth : List Text → Text
fifth (a ∷ b ∷ c ∷ d ∷ e ∷ ps) = e
fifth ps = []

-- `==` of sequences of lines
abbrev pub same_texts : List Text → List Text → Bool
same_texts = same ⦃o = list_ord ⦃a = text_ord⦄⦄

unfoldable pub is_valid_magic : List Text → List Text → Bool
is_valid_magic actual expected =
    ((((length actual == 5) && (length expected == 5))
        && same_texts (take 4 actual) (take 4 expected))
      && (length (fifth actual) == 16))
    && all is_ascii_hexdigit (fifth actual)

unfoldable pub validate_six_preamble :
    TableSchema → Text → Text → Outcome (Fault FormatError) (Unit {0})
validate_six_preamble t hash preamble = do
  expected ← may_panic (encode_six_preamble t hash)
  let actual_lines = lines preamble
  let expected_lines = lines expected
  let actual_parts = split tab (first_line actual_lines)
  let expected_parts = split tab (first_line expected_lines)
  may_fail (
      ensure
        (is_valid_magic actual_parts expected_parts
          && same_texts (later_lines actual_lines) (later_lines expected_lines))
        (bad_six_magic (first_line actual_lines)))
