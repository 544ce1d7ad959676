-- ===== src/Compiler/Built/Hashed.antt =====
-- The hash of a compiled schema against the hash of the database schema that is built from it.
use sixpack.Prelude.{
  ℕ, List, [], ◌∷◌, some, none, ◌≡◌, refl, arith, All, ◌∙◌, ap, map, if◌then◌else◌,
}
use sixpack.Prelude.Outcome.{ok}
use sixpack.Prelude.Order.{same_self, same→eq}
use sixpack.Prelude.Text.{Text, text_ord}
use sixpack.Prelude.Map.{Map, get, values}
use sixpack.Prelude.Map.Sorted.{Above, IsSorted, SameGet-eq}
use sixpack.Hash.{fnv_offset_basis}
use sixpack.Core.Schema.Table.{LookupSpec, TableSchema, field, lookup_specs_with_implicit_id}
use sixpack.Core.Schema.Table.Valid.{listed}
use sixpack.Core.Schema.Database.{DatabaseSchema, table}
use sixpack.Core.Schema.Database.Valid.{IsValid}
use sixpack.Core.Schema.Signature.{field_part, lookup_part, signature, hash_tables, schema_hash}
use sixpack.Compiler.Ir.{
  FieldIr, LookupIr, TableIr, SchemaIr, ir_field_part, ir_lookup_part, ir_signature, ir_hash_tables,
  ir_schema_hash,
}
use sixpack.Compiler.Built.Fields.{spec_of, names_of}
use sixpack.Compiler.Built.Lookups.{lookup_of, lookup_names}
use sixpack.Compiler.Built.Tables.{IsBuilt}
use sixpack.Compiler.Built.Schema.{IsSchemaOf}

field_part-ir :
    (t : TableSchema) (fs : List FieldIr)
    → All (λ f. field f.name t ≡ some (spec_of f)) fs
    → field_part t (names_of fs) ≡ ok (ir_field_part fs)
unfolding field_part ir_field_part
field_part-ir t [] h = refl
field_part-ir t (f ∷ fs) (e, h) = rw (e, field_part-ir t fs h) refl

abbrev lookup_entries : List LookupIr → Map Text LookupSpec
lookup_entries = map (λ l. (l.field_name, lookup_of l))

lookup_part-ir : (ls : List LookupIr) → lookup_part (values (lookup_entries ls)) ≡ ir_lookup_part ls
unfolding lookup_part ir_lookup_part
lookup_part-ir [] = refl
lookup_part-ir (l ∷ ls) = rw (lookup_part-ir ls) refl

get-lookup_entries :
    (ls : List LookupIr) (m : Map Text LookupSpec) (n : Text)
    → All (λ l. get l.field_name m ≡ some (lookup_of l)) ls
    → get n (lookup_entries ls) ≡ (if listed n (lookup_names ls) then get n m else none)
unfolding get
get-lookup_entries [] m n h = refl
get-lookup_entries (l ∷ ls) m n (e, h) = ground (
  arith,
  e,
  get-lookup_entries ls m n h,
  same→eq n l.field_name,
  same→eq l.field_name n,
  same_self n,
)

signature-ir :
    (ti : TableIr) (t : TableSchema)
    → IsBuilt ti t
    → t.lookups ≡ lookup_entries ti.lookups
    → signature t ≡ ok (ir_signature ti)
unfolding signature lookup_part ir_signature lookup_specs_with_implicit_id
signature-ir ti t b e =
    let fields : field_part t t.field_order ≡ ok (ir_field_part ti.fields) =
      ap (field_part t) b.order ∙ field_part-ir t ti.fields b.fields in
    rw (fields, e, b.named, lookup_part-ir ti.lookups) refl

-- the entries of the lookups are in the order of their fields
abbrev pub IsOrdered : TableIr → Type 0
IsOrdered ti = IsSorted (lookup_entries ti.lookups)

lookups-ir :
    (ti : TableIr) (t : TableSchema)
    → IsBuilt ti t
    → IsSorted t.lookups
    → IsOrdered ti
    → t.lookups ≡ lookup_entries ti.lookups
lookups-ir ti t b sorted ordered =
    SameGet-eq t.lookups (lookup_entries ti.lookups) sorted ordered
      (λ n. ground (arith, get-lookup_entries ti.lookups t.lookups n b.lookups, b.only n))

-- the table of the database for a compiled table
abbrev Built : DatabaseSchema → TableIr → Type 0
Built db ti = (t : TableSchema) × (table ti.name db ≡ some t) × IsBuilt ti t

-- the tables under their names
abbrev pub ir_entries : List TableIr → Map Text TableIr
ir_entries = map (λ ti. (ti.name, ti))

entries : (db : DatabaseSchema) (ts : List TableIr) → All (Built db) ts → Map Text TableSchema
entries db [] d = []
entries db (ti ∷ ts) (b, d) = (ti.name, b.0) ∷ entries db ts d

get-entries :
    (db : DatabaseSchema) (ts : List TableIr) (d : All (Built db) ts) (n : Text)
    → get n (entries db ts d)
      ≡ (if listed n (map (λ (ti : TableIr). ti.name) ts) then table n db else none)
unfolding get entries
get-entries db [] d n = refl
get-entries db (ti ∷ ts) (b, d) n =
    ground (arith, b.1, get-entries db ts d n, same→eq n ti.name, same→eq ti.name n, same_self n)

Above-entries :
    (db : DatabaseSchema) (ts : List TableIr) (d : All (Built db) ts) (k : Text)
    → Above k (ir_entries ts)
    → Above k (entries db ts d)
unfolding entries
Above-entries db [] d k a = tt
Above-entries db (ti ∷ ts) (b, d) k (a, above) = (a, Above-entries db ts d k above)

entries-IsSorted :
    (db : DatabaseSchema) (ts : List TableIr) (d : All (Built db) ts)
    → IsSorted (ir_entries ts)
    → IsSorted (entries db ts d)
unfolding entries
entries-IsSorted db [] d s = tt
entries-IsSorted db (ti ∷ ts) (b, d) (a, s) =
    (Above-entries db ts d ti.name a, entries-IsSorted db ts d s)

hash_tables-ir :
    (db : DatabaseSchema) (v : IsValid db) (ts : List TableIr) (d : All (Built db) ts) (hash : ℕ)
    → All IsOrdered ts
    → hash_tables hash (values (entries db ts d)) ≡ ok (ir_hash_tables hash ts)
unfolding hash_tables ir_hash_tables entries
hash_tables-ir db v [] d hash o = refl
hash_tables-ir db v (ti ∷ ts) ((t, found, b), d) hash (o, os) =
    let sorted : IsSorted t.lookups = (v.tables_admissible ti.name t found).valid.lookups_sorted in
    rw (signature-ir ti t b (lookups-ir ti t b sorted o)) (hash_tables-ir db v ts d _ os)

-- Let a database schema be that of a compiled schema whose tables, and whose lookups in each table,
-- are declared in the order of their names. Then the compiler and the core compute the same hash.
pub schema_hash-ir_schema_hash :
    (ir : SchemaIr) (db : DatabaseSchema)
    → IsSchemaOf ir db
    → IsSorted (ir_entries ir.tables)
    → All IsOrdered ir.tables
    → schema_hash db ≡ ok (ir_schema_hash ir)
unfolding schema_hash ir_schema_hash
schema_hash-ir_schema_hash ir db i sorted ordered =
    let same_tables : db.tables ≡ entries db ir.tables i.declared =
      SameGet-eq db.tables (entries db ir.tables i.declared) i.valid.tables_sorted
        (entries-IsSorted db ir.tables i.declared sorted)
        (λ n. ground (arith, get-entries db ir.tables i.declared n, i.only n)) in
    let hashed : hash_tables fnv_offset_basis (values db.tables)
        ≡ ok (ir_hash_tables fnv_offset_basis ir.tables) =
      ap (λ m. hash_tables fnv_offset_basis (values m)) same_tables
      ∙ hash_tables-ir db i.valid ir.tables i.declared fnv_offset_basis ordered in
    rw hashed refl
