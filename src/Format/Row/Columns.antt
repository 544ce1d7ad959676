-- ===== src/Format/Row/Columns.antt =====
-- The columns of a row: one value written and read back, and the record that the loop of
-- `decode_six_row` builds.
use sixpack.Prelude.{
  List, [], ◌∷◌, true, false, Option, none, some, ◌≡◌, refl, arith, is_some, if◌then◌else◌, ◌∙◌,
}
use sixpack.Prelude.Order.{same, same_self, same→eq, list_cmp}
use sixpack.Prelude.Outcome.{ok}
use sixpack.Prelude.Text.{Text, text_ord}
use sixpack.Prelude.Decimal.{IsI64}
use sixpack.Prelude.Decimal.RoundTrip.{parse-print_int}
use sixpack.Prelude.Map.{Map, get, insert, get-insert}
use sixpack.Prelude.Map.Sorted.{IsSorted, insert-IsSorted}
use sixpack.Core.Value.{PrimitiveType, Value, FloatText, matches_value}
use sixpack.Core.Identifier.{is_schema_name}
use sixpack.Core.Identifier.Safe.{field_names_agree}
use sixpack.Core.Record.{Record, insert_field}
use sixpack.Core.Schema.Table.Valid.{listed}
use sixpack.Format.Row.{value_to_string, parse_ten_value}

module _ {F : Type 0} ⦃float : FloatText F⦄ where
  -- an `i64`, or a float that its text gives back (as Rust's shortest decimal text does)
  abbrev pub Readable : Value F → Type 0
  Readable (Value.id v) = Unit
  Readable (Value.text v) = Unit
  Readable (Value.int v) = IsI64 v
  Readable (Value.float v) = float.parse (float.print v) ≡ some v
  Readable (Value.bool v) = Unit

  pub parse-value_to_string :
      (k : PrimitiveType) (name : Text) (v : Value F)
      → matches_value k v ≡ true
      → Readable v
      → parse_ten_value k name (value_to_string v) ≡ ok v
  unfolding parse_ten_value value_to_string matches_value
  parse-value_to_string PrimitiveType.id name (Value.id v) m h = refl
  parse-value_to_string PrimitiveType.text name (Value.text v) m h = refl
  parse-value_to_string PrimitiveType.int name (Value.int v) m h = rw (parse-print_int v h)
  parse-value_to_string PrimitiveType.float name (Value.float v) m h = rw h
  parse-value_to_string PrimitiveType.bool name (Value.bool true) m h = unfold list_cmp in refl
  parse-value_to_string PrimitiveType.bool name (Value.bool false) m h = unfold list_cmp in refl
  parse-value_to_string k name v m h = cc

pub insert_field-ok :
    {F : Type 0} (name : Text) (v : Value F) (r : Record F)
    → is_schema_name name ≡ true
    → insert_field name v r ≡ ok (record r { fields = insert name v r.fields })
unfolding insert_field
insert_field-ok name v r h = rw ((field_names_agree name).0.1 h)

module _ {F : Type 0} where
  abbrev pub put : Text → Option (Value F) → Map Text (Value F) → Map Text (Value F)
  put n none m = m
  put n (some v) m = insert n v m

  -- the values of the listed names, put into a map
  unfoldable pub copied : List Text → Map Text (Value F) → Map Text (Value F) → Map Text (Value F)
  copied [] source m = m
  copied (n ∷ names) source m = copied names source (put n (get n source) m)

  put-IsSorted :
      (n : Text) (o : Option (Value F)) (m : Map Text (Value F)) → IsSorted m → IsSorted (put n o m)
  put-IsSorted n none m s = s
  put-IsSorted n (some v) m s = insert-IsSorted n v m s

  pub copied-IsSorted :
      (names : List Text) (source m : Map Text (Value F))
      → IsSorted m
      → IsSorted (copied names source m)
  unfolding copied
  copied-IsSorted [] source m s = s
  copied-IsSorted (n ∷ names) source m s =
      copied-IsSorted names source (put n (get n source) m) (put-IsSorted n (get n source) m s)

  get-put :
      (n k : Text) (o : Option (Value F)) (m : Map Text (Value F))
      → is_some o ≡ true
      → get k (put n o m) ≡ (if same k n then o else get k m)
  get-put n k none m h = cc
  get-put n k (some v) m h = get-insert n k v m

  pub get-copied :
      (names : List Text) (source m : Map Text (Value F)) (k : Text)
      → ((n : Text) → listed n names ≡ true → is_some (get n source) ≡ true)
      → get k (copied names source m) ≡ (if listed k names then get k source else get k m)
  unfolding copied
  get-copied [] source m k h = refl
  get-copied (n ∷ names) source m k h =
      get-copied names source (put n (get n source) m) k (λ j l. h j (ground arith))
      ∙ ground (
        arith,
        get-put n k (get n source) m,
        h n,
        same_self n,
        same→eq n k,
        same→eq k n,
        same_self k,
      )
