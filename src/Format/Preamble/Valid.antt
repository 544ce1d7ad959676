-- ===== src/Format/Preamble/Valid.antt =====
-- The preamble that is written for a table is valid for it.
use sixpack.Prelude.{
  List, [], ◌∷◌, ◌++◌, Bool, true, false, length, all, ◌≡◌, refl, arith, All, All-append, ap, ◌∙◌,
  subst, sym, append_assoc,
}
use sixpack.Prelude.Outcome.{ok, ◌>>=◌, expect, >>=-eq-ok}
use sixpack.Prelude.Order.{same, same_self, list_ord, list_cmp}
use sixpack.Prelude.Text.{Text, text_ord, codes, starts_with, is_ascii_hexdigit}
use sixpack.Core.Value.{PrimitiveType, type_name}
use sixpack.Core.Schema.Table.{
  FieldSpec, LookupSpec, TableSchema, field, lookup_specs_with_implicit_id,
}
use sixpack.Core.Schema.Signature.{unique_word}
use sixpack.Format.Escape.{escape_six_value, tab}
use sixpack.Format.Escape.Laws.{IsCell, escape-IsCell}
use sixpack.Format.Row.RoundTrip.{IsLine, IsCell-IsLine, IsCell-Lacks}
use sixpack.Format.Lines.{ended_lines, lines-ended_lines}
use sixpack.Format.Split.{split, split-append, split-Lacks}
use sixpack.Format.Preamble.{
  magic_line, field_line, lookup_line, field_lines, lookup_lines, shape_lines, encode_six_preamble,
  is_valid_magic, validate_six_preamble,
}

-- what `format!("{hash:016x}")` makes
pub record IsHash (hash : Text) : Type 0 where
  pub digits : length hash ≡ 16
  pub hex : all is_ascii_hexdigit hash ≡ true

hex-IsCell : (s : Text) → all is_ascii_hexdigit s ≡ true → IsCell s
hex-IsCell [] h = tt
hex-IsCell (c ∷ s) h = (ground arith, hex-IsCell s (ground arith))

type_name-IsLine : (k : PrimitiveType) → IsLine (type_name k)
unfolding type_name
type_name-IsLine PrimitiveType.id = omega arith
type_name-IsLine PrimitiveType.text = omega arith
type_name-IsLine PrimitiveType.int = omega arith
type_name-IsLine PrimitiveType.float = omega arith
type_name-IsLine PrimitiveType.bool = omega arith

escaped-IsLine : (s rest : Text) → IsLine rest → IsLine (escape_six_value s ++ rest)
escaped-IsLine s rest h =
    All-append _ (escape_six_value s) rest (IsCell-IsLine (escape_six_value s) (escape-IsCell s)) h

-- the lines that a scan passes over: no line break, and the marks of the preamble
pub record IsMark (line : Text) : Type 0 where
  pub clean : IsLine line
  pub marked : starts_with line (codes "@") ≡ true

unique_word-IsLine : (u : Bool) → IsLine (unique_word u)
unique_word-IsLine true = omega arith
unique_word-IsLine false = omega arith

at_line : (rest : Text) → IsLine rest → IsMark (b'@' ∷ rest)
unfolding starts_with
at_line rest h = record { clean = (omega arith, h); marked = refl }

-- a mark that does not end the preamble
pub record IsInner (line : Text) : Type 0 where
  pub mark : IsMark line
  pub inner : same line (codes "@data") ≡ false

field_line-IsInner : (f : FieldSpec) → IsInner (field_line f)
unfolding list_cmp
field_line-IsInner f = record {
  mark = at_line _ (
      All-append _ (codes "field\t") _ (omega arith)
        (escaped-IsLine f.name _ (omega arith, type_name-IsLine f.kind)));
  inner = refl;
}

lookup_line-IsInner : (l : LookupSpec) → IsInner (lookup_line l)
unfolding list_cmp
lookup_line-IsInner l = record {
  mark = at_line _ (
      All-append _ (codes "lookup\t") _ (omega arith)
        (escaped-IsLine l.field_name _ (omega arith, unique_word-IsLine l.unique)));
  inner = refl;
}

lookup_lines-IsInner : (ls : List LookupSpec) → All IsInner (lookup_lines ls)
unfolding lookup_lines
lookup_lines-IsInner [] = tt
lookup_lines-IsInner (l ∷ ls) = (lookup_line-IsInner l, lookup_lines-IsInner ls)

field_lines-IsInner :
    (t : TableSchema) (names : List Text) (ls : List Text)
    → field_lines t names ≡ ok ls
    → All IsInner ls
unfolding field_lines
field_lines-IsInner t [] ls e = subst (All IsInner) {x = []} (ground arith) tt
field_lines-IsInner t (name ∷ names) ls e =
    let (f, e1, e2) =
      >>=-eq-ok (expect (field name t))
        (λ f. field_lines t names >>= λ rest. ok (field_line f ∷ rest)) e in
    let (rest, e3, e4) = >>=-eq-ok (field_lines t names) (λ rest. ok (field_line f ∷ rest)) e2 in
    subst (All IsInner) {x = field_line f ∷ rest} (ground arith)
      (field_line-IsInner f, field_lines-IsInner t names rest e3)

pub inner-marks : (ls : List Text) → All IsInner ls → All IsMark (ls ++ (codes "@data" ∷ []))
inner-marks [] h = (at_line (codes "data") (omega arith), tt)
inner-marks (l ∷ ls) h = (h.0.mark, inner-marks ls h.1)

pub marks-IsLine : (ls : List Text) → All IsMark ls → All IsLine ls
marks-IsLine [] h = tt
marks-IsLine (l ∷ ls) h = (h.0.clean, marks-IsLine ls h.1)

pub magic_line-IsLine : (t : TableSchema) (hash : Text) → IsHash hash → IsLine (magic_line t hash)
unfolding magic_line
magic_line-IsLine t hash h =
    All-append _ (codes "SIX\t1\ttable\t") _ (omega arith)
      (escaped-IsLine t.name _ (omega arith, IsCell-IsLine hash (hex-IsCell hash h.hex)))

split-magic_line :
    (t : TableSchema) (hash : Text)
    → IsHash hash
    → split tab (magic_line t hash)
      ≡ codes "SIX" ∷ codes "1" ∷ codes "table" ∷ escape_six_value t.name ∷ hash ∷ []
unfolding magic_line split
split-magic_line t hash h =
    rw (split-append tab (escape_six_value t.name) hash (IsCell-Lacks _ (escape-IsCell t.name)))
      (rw (split-Lacks tab hash (IsCell-Lacks hash (hex-IsCell hash h.hex))) refl)

-- the lines of a preamble
pub record PreambleOf (t : TableSchema) (hash preamble : Text) : Type 0 where
  pub inner : List Text
  pub made : shape_lines t ≡ ok (inner ++ (codes "@data" ∷ []))
  pub whole : preamble ≡ ended_lines (magic_line t hash ∷ (inner ++ (codes "@data" ∷ [])))
  pub inners : All IsInner inner

pub PreambleOf-encoded :
    (t : TableSchema) (hash preamble : Text)
    → encode_six_preamble t hash ≡ ok preamble
    → PreambleOf t hash preamble
unfolding encode_six_preamble shape_lines
PreambleOf-encoded t hash preamble e =
    let (shape, e1, e2) =
      >>=-eq-ok (shape_lines t) (λ shape. ok (ended_lines (magic_line t hash ∷ shape))) e in
    let (fields, e3, e4) =
      >>=-eq-ok (field_lines t t.field_order)
        (λ fields.
          ok (fields ++ (lookup_lines (lookup_specs_with_implicit_id t) ++ (codes "@data" ∷ []))))
        e1 in
    let inner = fields ++ lookup_lines (lookup_specs_with_implicit_id t) in
    let split_shape : inner ++ (codes "@data" ∷ []) ≡ shape =
      append_assoc fields (lookup_lines (lookup_specs_with_implicit_id t)) (codes "@data" ∷ [])
      ∙ ground arith in
    let whole : preamble ≡ ended_lines (magic_line t hash ∷ shape) = ground arith in
    record {
      inner = inner;
      made = e1 ∙ ap ok (sym split_shape);
      whole = whole ∙ ap (λ ls. ended_lines (magic_line t hash ∷ ls)) (sym split_shape);
      inners =
          All-append IsInner fields _ (field_lines-IsInner t t.field_order fields e3)
            (lookup_lines-IsInner (lookup_specs_with_implicit_id t));
    }

is_valid_magic-hash :
    (a b c d hash expected : Text)
    → IsHash hash
    → is_valid_magic (a ∷ b ∷ c ∷ d ∷ hash ∷ []) (a ∷ b ∷ c ∷ d ∷ expected ∷ []) ≡ true
unfolding is_valid_magic
is_valid_magic-hash a b c d hash expected h =
    ground (arith, h.digits, h.hex, same_self (a ∷ b ∷ c ∷ d ∷ []))

-- Let a table have a preamble, and let two schema hashes have sixteen hexadecimal digits each. The
-- preamble that is written with the one is accepted for the other: whatever hash a file was written
-- under, its preamble is valid exactly as long as the table's name, fields and lookups stay.
pub validate-encode_six_preamble :
    (t : TableSchema) (written current preamble : Text)
    → IsHash written
    → IsHash current
    → encode_six_preamble t written ≡ ok preamble
    → validate_six_preamble t current preamble ≡ ok tt
unfolding encode_six_preamble validate_six_preamble
validate-encode_six_preamble t written current preamble h k e =
    let d : PreambleOf t written preamble = PreambleOf-encoded t written preamble e in
    let shape = d.inner ++ (codes "@data" ∷ []) in
    let clean = marks-IsLine shape (inner-marks d.inner d.inners) in
    rw
      (
        d.made,
        d.whole,
        lines-ended_lines (magic_line t written ∷ shape) (magic_line-IsLine t written h, clean),
        lines-ended_lines (magic_line t current ∷ shape) (magic_line-IsLine t current k, clean),
        split-magic_line t written h,
        split-magic_line t current k,
        is_valid_magic-hash (codes "SIX") (codes "1") (codes "table") (escape_six_value t.name)
            written current h,
        same_self ⦃o = list_ord ⦃a = text_ord⦄⦄ shape,
      )
      refl
