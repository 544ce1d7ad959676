-- ===== src/Core/Schema/Signature.antt =====
-- `TableSchema::signature` and `DatabaseSchema::schema_hash` of packages/sixpack-core/src/schema.rs.
use sixpack.Prelude.{
  ℕ, Bool, true, List, [], ◌∷◌, ◌++◌, some, ◌≡◌, refl, arith, is_some, ◌∙◌, sym, Option-cases, inl,
  inr, if◌then◌else◌,
}
use sixpack.Prelude.Outcome.{Outcome, ok, ◌>>=◌, Panic, expect}
use sixpack.Prelude.Order.{same_self}
use sixpack.Prelude.Text.{Text, text_ord, codes}
use sixpack.Prelude.Map.{Map, get, values, get-cons}
use sixpack.Prelude.Map.Sorted.{IsSorted, get-tail}
use sixpack.Hash.{fnv_offset_basis, fnv, fnv_step, hex16}
use sixpack.Core.Value.{type_name}
use sixpack.Core.Schema.Table.{LookupSpec, TableSchema, field, lookup_specs_with_implicit_id}
use sixpack.Core.Schema.Table.Valid.{listed}
use sixpack.Core.Schema.Table.Valid as TableValid
use sixpack.Core.Schema.Database.{DatabaseSchema}
use sixpack.Core.Schema.Database.Valid.{IsValid, IsAdmissible}

abbrev pub unique_word : Bool → Text
unique_word unique = if unique then codes "unique" else codes "many"

-- the loop over the field order
unfoldable pub field_part : TableSchema → List Text → Outcome Panic Text
field_part t [] = ok []
field_part t (name ∷ names) = do
  f ← expect (field name t)
  rest ← field_part t names
  ok (b'|' ∷ (f.name ++ (b':' ∷ (type_name f.kind ++ rest))))

-- the loop over the lookups
unfoldable pub lookup_part : List LookupSpec → Text
lookup_part [] = []
lookup_part (l ∷ ls) =
    b'|' ∷ (codes "lookup:" ++ (l.field_name ++ (b':' ∷ (unique_word l.unique ++ lookup_part ls))))

unfoldable pub signature : TableSchema → Outcome Panic Text
signature t = do
  fields ← field_part t t.field_order
  ok (t.name ++ (fields ++ lookup_part (lookup_specs_with_implicit_id t)))

-- the loop over the tables; a newline ends each signature
unfoldable pub hash_tables : ℕ → List TableSchema → Outcome Panic ℕ
hash_tables hash [] = ok hash
hash_tables hash (t ∷ ts) = do s ← signature t; hash_tables (fnv_step (fnv hash s) b'\n') ts

unfoldable pub schema_hash : DatabaseSchema → Outcome Panic Text
schema_hash db = do hash ← hash_tables fnv_offset_basis (values db.tables); ok (hex16 hash)

field_part_total :
    (t : TableSchema) (names : List Text)
    → ((n : Text) → listed n names ≡ true → is_some (field n t) ≡ true)
    → (s : Text) × (field_part t names ≡ ok s)
unfolding field_part
field_part_total t [] h = ([], refl)
field_part_total t (name ∷ names) h = elim (Option-cases (field name t)) [
  | inl e ↦ absurd (ground (arith, h name, same_self name))
  | inr (f, e) ↦
      let (rest, er) = field_part_total t names (λ n l. h n (ground arith)) in
      (b'|' ∷ (f.name ++ (b':' ∷ (type_name f.kind ++ rest))), rw (e, er))
]

-- A valid table has a signature: the `expect` of `signature` never panics.
signature_total : (t : TableSchema) → TableValid.IsValid t → (s : Text) × (signature t ≡ ok s)
unfolding signature
signature_total t v =
    let (fields, e) = field_part_total t t.field_order (λ n l. sym (v.order_exact n) ∙ l) in
    (t.name ++ (fields ++ lookup_part (lookup_specs_with_implicit_id t)), rw e)

hash_tables_total :
    (hash : ℕ) (m : Map Text TableSchema)
    → IsSorted m
    → ((n : Text) (t : TableSchema) → get n m ≡ some t → TableValid.IsValid t)
    → (h : ℕ) × (hash_tables hash (values m) ≡ ok h)
unfolding hash_tables
hash_tables_total hash [] s v = (hash, refl)
hash_tables_total hash ((k, t) ∷ m) s v =
    let (sig, e) = signature_total t (v k t (ground (arith, get-cons k k t m, same_self k))) in
    let (h, eh) =
      hash_tables_total (fnv_step (fnv hash sig) b'\n') m s.1
        (λ n u g. v n u (get-tail k n t u m s.0 g)) in
    (h, rw e eh)

-- The hash of a valid database schema exists: no signature panics.
pub schema_hash_total : (db : DatabaseSchema) → IsValid db → (h : Text) × (schema_hash db ≡ ok h)
unfolding schema_hash
schema_hash_total db v =
    let (h, e) =
      hash_tables_total fnv_offset_basis db.tables v.tables_sorted
        (λ n t g. let a : IsAdmissible t = v.tables_admissible n t g in a.valid) in
    (hex16 h, rw e)
