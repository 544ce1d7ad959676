-- ===== src/Format/Row/RoundTrip.antt =====
-- A record that conforms to its table is read back from the row that is written for it.
use sixpack.Prelude.{
  suc, List, [], ◌∷◌, Bool, true, false, Option, none, some, ◌≡◌, ◌≢◌, refl, arith, is_some, ap,
  ◌∙◌, sym, All, length, All-append, if◌then◌else◌,
}
use sixpack.Prelude.Outcome.{ok}
use sixpack.Prelude.Order.{same_self}
use sixpack.Prelude.Text.{Text, text_ord, codes}
use sixpack.Prelude.Map.{get, get-nil}
use sixpack.Prelude.Map.Sorted.{IsSorted, SameGet-eq}
use sixpack.Core.Value.{Value, FloatText, matches_value}
use sixpack.Core.Identifier.{is_schema_name}
use sixpack.Core.Record.{Record, new_record}
use sixpack.Core.Schema.Table.{FieldSpec, TableSchema, field}
use sixpack.Core.Schema.Table.Valid.{listed}
use sixpack.Core.Schema.Table.Valid as TableValid
use sixpack.Core.Schema.Database.Valid.{IsAdmissible}
use sixpack.Core.Schema.Database.Conforms.{Fits, Conforms}
use sixpack.Format.Escape.{escape_six_value, tab, newline, carriage_return}
use sixpack.Format.Escape.Laws.{IsCell, escape-IsCell, unescape-escape}
use sixpack.Format.Split.{join, split-join, Lacks}
use sixpack.Format.Row.{
  value_to_string, encode_columns, encode_six_row, decode_columns, decode_six_row,
}
use sixpack.Format.Row.Columns.{
  Readable, parse-value_to_string, insert_field-ok, copied, copied-IsSorted, get-copied,
}

-- no newline and no carriage return
abbrev pub IsLine : Text → Type 0
IsLine = All (λ c. (c ≢ newline) × (c ≢ carriage_return))

pub IsCell-IsLine : (s : Text) → IsCell s → IsLine s
IsCell-IsLine [] h = tt
IsCell-IsLine (c ∷ s) h = (omega arith, IsCell-IsLine s h.1)

pub IsCell-Lacks : (s : Text) → IsCell s → Lacks tab s
IsCell-Lacks [] h = tt
IsCell-Lacks (c ∷ s) h = (h.0.0, IsCell-Lacks s h.1)

cells-Lacks : (cells : List Text) → All IsCell cells → All (Lacks tab) cells
cells-Lacks [] h = tt
cells-Lacks (s ∷ cells) h = (IsCell-Lacks s h.0, cells-Lacks cells h.1)

join-IsLine : (cells : List Text) → All IsCell cells → IsLine (join tab cells)
unfolding join
join-IsLine [] h = tt
join-IsLine (s ∷ []) h = IsCell-IsLine s h.0
join-IsLine (s ∷ q ∷ cells) h =
    All-append _ s (tab ∷ join tab (q ∷ cells)) (IsCell-IsLine s h.0)
      (omega arith, join-IsLine (q ∷ cells) h.1)

module _ {F : Type 0} ⦃float : FloatText F⦄ (t : TableSchema) (r : Record F) where
  -- a column that can be written and read
  record Column (n : Text) : Type 0 where
    spec : FieldSpec
    value : Value F
    found : field n t ≡ some spec
    has : get n r.fields ≡ some value
    fits : matches_value spec.kind value ≡ true
    readable : Readable value
    named : is_schema_name n ≡ true

  -- the cells of the listed columns
  record Cells (names : List Text) : Type 0 where
    cells : List Text
    encoded : encode_columns r.fields names ≡ ok cells
    clean : All IsCell cells
    as_many : length cells ≡ length names
    decoded :
        (acc : Record F)
        → decode_columns t names cells acc
          ≡ ok (record acc { fields = copied names r.fields acc.fields })

  Cells-nil : Cells []
  unfolding encode_columns decode_columns copied
  Cells-nil = record {
    cells = [];
    encoded = refl;
    clean = tt;
    as_many = refl;
    decoded = λ acc. refl;
  }

  Cells-cons : (n : Text) (names : List Text) → Column n → Cells names → Cells (n ∷ names)
  unfolding encode_columns decode_columns copied
  Cells-cons n names c d = record {
    cells = escape_six_value (value_to_string c.value) ∷ d.cells;
    encoded = rw (c.has, d.encoded);
    clean = (escape-IsCell (value_to_string c.value), d.clean);
    as_many = ap suc d.as_many;
    decoded = λ acc. rw (
      c.found,
      (unescape-escape (value_to_string c.value)).0,
      parse-value_to_string c.spec.kind n c.value c.fits c.readable,
      insert_field-ok n c.value acc c.named,
      d.decoded,
      c.has,
    );
  }

  all-Cells : (names : List Text) → ((n : Text) → listed n names ≡ true → Column n) → Cells names
  all-Cells [] h = Cells-nil
  all-Cells (n ∷ names) h =
      Cells-cons n names (h n (ground (arith, same_self n)))
        (all-Cells names (λ k l. h k (ground arith)))

  Column-of :
      TableValid.IsValid t
      → Conforms t r
      → ((n : Text) (v : Value F) → get n r.fields ≡ some v → Readable v)
      → (n : Text) → listed n t.field_order ≡ true
      → Column n
  Column-of valid c readable n l = go (field n t) (get n r.fields) refl refl (c n)
    where
      go :
          (o : Option FieldSpec) (w : Option (Value F))
          → field n t ≡ o
          → get n r.fields ≡ w
          → Fits o w
          → Column n
      go none w e d f = absurd (ground (arith, valid.order_exact n))
      go (some spec) none e d f = absurd f
      go (some spec) (some value) e d f = record {
        spec = spec;
        value = value;
        found = e;
        has = d;
        fits = f;
        readable = readable n value d;
        named = valid.field_schema_name n spec e;
      }

  copied-eq :
      TableValid.IsValid t
      → Conforms t r
      → IsSorted r.fields
      → ((n : Text) → listed n t.field_order ≡ true → is_some (get n r.fields) ≡ true)
      → copied t.field_order r.fields [] ≡ r.fields
  copied-eq valid c s present =
      SameGet-eq (copied t.field_order r.fields []) r.fields
        (copied-IsSorted t.field_order r.fields [] tt) s
        λ k.
          get-copied t.field_order r.fields [] k present
          ∙ go k (listed k t.field_order) (field k t) (get k r.fields) refl (valid.order_exact k)
              (c k)
    where
      go :
          (k : Text) (l : Bool) (o : Option FieldSpec) (w : Option (Value F))
          → listed k t.field_order ≡ l
          → listed k t.field_order ≡ is_some o
          → Fits o w
          → (if listed k t.field_order then w else get k []) ≡ w
      go k true o w e x f = rw e
      go k false none none e x f = rw e (get-nil k)
      go k false none (some v) e x f = absurd f
      go k false (some spec) w e x f = absurd (cc)

order-ne-nil : (t : TableSchema) → IsAdmissible t → t.field_order ≢ []
order-ne-nil t a e =
    cc (sym (ap (listed (codes "id")) e) ∙ a.valid.order_exact (codes "id") ∙ ap is_some a.id_found)

-- what `decode_six_row` does with a line that joins as many cells as the table has fields
decode-join :
    {F : Type 0} ⦃float : FloatText F⦄ (t : TableSchema) (cells : List Text)
    → cells ≢ []
    → All (Lacks tab) cells
    → length cells ≡ length t.field_order
    → decode_six_row {F = F} t (join tab cells)
      ≡ decode_columns t t.field_order cells (new_record t.name)
unfolding decode_six_row
decode-join t cells some_cell lacks as_many =
    rw (split-join tab cells some_cell lacks) (ground arith)

length-ne-nil : (ps qs : List Text) → length ps ≡ length qs → qs ≢ [] → ps ≢ []
length-ne-nil [] [] e h = h
length-ne-nil [] (q ∷ qs) e h = absurd (omega arith)
length-ne-nil (p ∷ ps) qs e h = λ x. cc

-- Let a table have been admitted to a database, and let a record of it conform to it, with its
-- fields in key order, its integers in the range of `i64` and its floats printed so that they
-- read back. Then the record has a row, the row holds no newline and no carriage return, and
-- the row is read back as the record.
pub decode-encode_six_row :
    {F : Type 0} ⦃float : FloatText F⦄ (t : TableSchema) (r : Record F)
    → IsAdmissible t
    → r.table ≡ t.name
    → IsSorted r.fields
    → Conforms t r
    → ((n : Text) (v : Value F) → get n r.fields ≡ some v → Readable v)
    → (line : Text) × (encode_six_row t r ≡ ok line) × IsLine line × (decode_six_row t line ≡ ok r)
unfolding encode_six_row
decode-encode_six_row t r a same_table s c readable =
    let column = Column-of t r a.valid c readable in
    let d : Cells t r t.field_order = all-Cells t r t.field_order column in
    let present : (n : Text) → listed n t.field_order ≡ true → is_some (get n r.fields) ≡ true =
      λ n l. let k : Column t r n = column n l in ground (arith, k.has) in
    (
      join tab d.cells,
      rw d.encoded,
      join-IsLine d.cells d.clean,
      decode-join t d.cells (length-ne-nil d.cells t.field_order d.as_many (order-ne-nil t a))
            (cells-Lacks d.cells d.clean) d.as_many
          ∙ d.decoded (new_record t.name)
          ∙ rw (copied-eq t r a.valid c s present, ← same_table),
    )
