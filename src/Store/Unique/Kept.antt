-- ===== src/Store/Unique/Kept.antt =====
-- A put that passes the check of the unique lookups keeps them unique.
use sixpack.Prelude.{
  List, [], ◌∷◌, true, false, Option, none, some, ◌≡◌, refl, arith, ◌⊎◌, inl, inr, Bool-cases,
  Option-cases, ◌∙◌, sym, ap, subst,
}
use sixpack.Prelude.Outcome.{ok, Outcome-cases}
use sixpack.Prelude.Order.{pair_ord, same, same→eq, same_self}
use sixpack.Prelude.Text.{Text, text_ord}
use sixpack.Prelude.Map.{Map, Keys, get, insert, get-insert, contains_key, get-cons, get-nil}
use sixpack.Core.Value.{Value, FloatText}
use sixpack.Core.Record.{Record}
use sixpack.Core.Schema.Table.{TableSchema, LookupSpec, lookup_specs_with_implicit_id}
use sixpack.Store.Keys.{Key, value_to_lookup_key, record_id, record_keys}
use sixpack.Store.Runtime.{RuntimeSixb, first_lookup_id}
use sixpack.Store.Runtime.Lookups.{ids_at}
use sixpack.Store.Runtime.Has.{has_id, names_key}
use sixpack.Store.Runtime.Exact.{IsExact, live_keys, HasKeys}
use sixpack.Store.Unique.{check_key, check_lookups_of, validate_put_unique_lookup_conflicts}

abbrev pub Listed : LookupSpec → List LookupSpec → Type 0
Listed l [] = ⊥
Listed l (m ∷ ms) = (l ≡ m) ⊎ Listed l ms

-- a key that some row is indexed under has a first id, and that row is indexed under it
first_lookup_id-has :
    (name key j : Text) (s : RuntimeSixb)
    → has_id (name, key) j s.lookup_ids ≡ true
    → (i : Text) × (first_lookup_id name key s ≡ some i)
      × (has_id (name, key) i s.lookup_ids ≡ true)
unfolding first_lookup_id has_id ids_at contains_key
first_lookup_id-has name key j s h = go (get (name, key) s.lookup_ids) refl
  where
    go :
        (o : Option (Keys Text))
        → get (name, key) s.lookup_ids ≡ o
        → (i : Text) × (first_lookup_id name key s ≡ some i)
          × (has_id (name, key) i s.lookup_ids ≡ true)
    go none e = absurd (ground (arith, get-nil {V = Unit {0}} j))
    go (some []) e = absurd (ground (arith, get-nil {V = Unit {0}} j))
    go (some ((i, u) ∷ ids)) e = (i, ground arith, ground (arith, get-cons i i u ids, same_self i))

check_key-owner :
    (cache : RuntimeSixb) (id name key : Text) (batch : Map Key Text) (i : Text)
    {batch' : Map Key Text}
    → check_key cache id name key batch ≡ ok batch'
    → first_lookup_id name key cache ≡ some i
    → i ≡ id
unfolding check_key
check_key-owner cache id name key batch i h e = ground (arith, same→eq i id)

module _ {F : Type 0} ⦃float : FloatText F⦄ where
  check_first :
      (cache : RuntimeSixb) (id : Text) (fields : Map Text (Value F)) (m : LookupSpec)
      (ms : List LookupSpec) (batch : Map Key Text) (v : Value F) (i : Text) {batch' : Map Key Text}
      → check_lookups_of cache id fields (m ∷ ms) batch ≡ ok batch'
      → m.unique ≡ true
      → get m.field_name fields ≡ some v
      → first_lookup_id m.field_name (value_to_lookup_key v) cache ≡ some i
      → i ≡ id
  unfolding check_lookups_of
  check_first cache id fields m ms batch v i h u has first =
      elim (Outcome-cases (check_key cache id m.field_name (value_to_lookup_key v) batch)) [
        | inr (bad, e) ↦ absurd (ground arith)
        | inl (batch1, e) ↦
            check_key-owner cache id m.field_name (value_to_lookup_key v) batch i e first
      ]

  -- the loop goes on behind the first lookup
  check_rest :
      (cache : RuntimeSixb) (id : Text) (fields : Map Text (Value F)) (m : LookupSpec)
      (ms : List LookupSpec) (batch : Map Key Text) {batch' : Map Key Text}
      → check_lookups_of cache id fields (m ∷ ms) batch ≡ ok batch'
      → (batch1 : Map Key Text) × (check_lookups_of cache id fields ms batch1 ≡ ok batch')
  unfolding check_lookups_of
  check_rest cache id fields m ms batch h = elim (Bool-cases m.unique) [
    | inr many ↦ (batch, ground arith)
    | inl unique ↦ elim (Option-cases (get m.field_name fields)) [
      | inl missing ↦ absurd (ground arith)
      | inr (v, has) ↦
          elim (Outcome-cases (check_key cache id m.field_name (value_to_lookup_key v) batch)) [
            | inr (bad, e) ↦ absurd (ground arith)
            | inl (batch1, e) ↦ (batch1, ground arith)
          ]
    ]
  ]

  -- the row that has the key in a unique lookup is the one that is put
  check_lookups_of-owner :
      (cache : RuntimeSixb) (id : Text) (fields : Map Text (Value F)) (ls : List LookupSpec)
      (batch : Map Key Text) (l : LookupSpec) (v : Value F) (i : Text) {batch' : Map Key Text}
      → check_lookups_of cache id fields ls batch ≡ ok batch'
      → Listed l ls
      → l.unique ≡ true
      → get l.field_name fields ≡ some v
      → first_lookup_id l.field_name (value_to_lookup_key v) cache ≡ some i
      → i ≡ id
  unfolding check_lookups_of
  check_lookups_of-owner cache id fields [] batch l v i h listed u has first = absurd listed
  check_lookups_of-owner cache id fields (m ∷ ms) batch l v i h listed u has first = elim listed [
    | inl e ↦
        check_first cache id fields m ms batch v i h (subst (λ x. x.unique ≡ true) e u)
          (subst (λ x. get x.field_name fields ≡ some v) e has)
          (subst (λ x. first_lookup_id x.field_name (value_to_lookup_key v) cache ≡ some i) e first)
    | inr later ↦
        let (batch1, rest) = check_rest cache id fields m ms batch h in
        check_lookups_of-owner cache id fields ms batch1 l v i rest later u has first
  ]

  -- a key of a record is that of the value in the lookup's field
  names_key-value :
      (ls : List LookupSpec) (fields : Map Text (Value F)) (name key : Text) (ks : List Key)
      → record_keys ls fields ≡ ok ks
      → names_key (name, key) ks ≡ true
      → (v : Value F) × (get name fields ≡ some v) × (key ≡ value_to_lookup_key v)
  unfolding record_keys
  names_key-value [] fields name key ks e h = absurd (ground arith)
  names_key-value (l ∷ ls) fields name key ks e h = elim (Option-cases (get l.field_name fields)) [
    | inl missing ↦ absurd (ground arith)
    | inr (v, has) ↦ elim (Outcome-cases (record_keys ls fields)) [
      | inr (bad, f) ↦ absurd (ground arith)
      | inl (rest, made) ↦
          let q : Key = (name, key) in
          let k : Key = (l.field_name, value_to_lookup_key v) in
          elim (Bool-cases (same q k)) [
            | inl first ↦
                let e : q ≡ k = same→eq q k first in
                (v, ap (λ (x : Key). get x.0 fields) e ∙ has, ap (λ (x : Key). x.1) e)
            | inr other ↦ names_key-value ls fields name key rest made (ground (arith, other))
          ]
    ]
  ]

  -- in the unique lookups no key belongs to two live rows
  abbrev pub IsUnique : TableSchema → Map Text (Record F) → Type 0
  IsUnique t live =
      (l : LookupSpec)
      → Listed l (lookup_specs_with_implicit_id t)
      → l.unique ≡ true
      → (key i j : Text) → names_key (l.field_name, key) (live_keys t (get i live)) ≡ true
      → names_key (l.field_name, key) (live_keys t (get j live)) ≡ true
      → i ≡ j

  module _ (t : TableSchema) (live : Map Text (Record F)) (cache : RuntimeSixb) (r : Record F)
      (id : Text) (batch : Map Key Text) where
    -- another live row does not have the keys of the record
    owner :
        {batch' : Map Key Text} (ks : List Key)
        → IsExact t live cache
        → IsUnique t live
        → record_id r ≡ ok id
        → record_keys (lookup_specs_with_implicit_id t) r.fields ≡ ok ks
        → validate_put_unique_lookup_conflicts t cache r batch ≡ ok batch'
        → (l : LookupSpec) → Listed l (lookup_specs_with_implicit_id t)
        → l.unique ≡ true
        → (key j : Text) → names_key (l.field_name, key) ks ≡ true
        → names_key (l.field_name, key) (live_keys t (get j live)) ≡ true
        → j ≡ id
    unfolding validate_put_unique_lookup_conflicts
    owner {batch'} ks v u named has h l listed unique key j new old =
        let (value, found, same_key) =
          names_key-value (lookup_specs_with_implicit_id t) r.fields l.field_name key ks has new in
        let (i, first, has_i) =
          first_lookup_id-has l.field_name key j cache (v.exact (l.field_name, key) j ∙ old) in
        let i_id : i ≡ id =
          check_lookups_of-owner cache id r.fields (lookup_specs_with_implicit_id t) batch l value i
            {batch' = batch'} (ground arith) listed unique found
            (subst (λ k. first_lookup_id l.field_name k cache ≡ some i) same_key first) in
        u l listed unique key j i old (sym (v.exact (l.field_name, key) i) ∙ has_i) ∙ i_id

    -- Let the index be exact for live rows that share no key in a unique lookup, and let a record
    -- have an id and a value in every lookup field. If the check of a put of the record against the
    -- index passes, then the live rows with the record put share none either.
    pub put-IsUnique :
        {batch' : Map Key Text}
        → IsExact t live cache
        → IsUnique t live
        → record_id r ≡ ok id
        → HasKeys t r
        → validate_put_unique_lookup_conflicts t cache r batch ≡ ok batch'
        → IsUnique t (insert id r live)
    put-IsUnique v u named (ks, has) h l listed unique key i j hi hj =
        let kept : (k : Text)
            → same k id ≡ false
            → names_key (l.field_name, key) (live_keys t (get k (insert id r live))) ≡ true
            → names_key (l.field_name, key) (live_keys t (get k live)) ≡ true =
          λ k d e. ground (arith, get-insert id k r live) in
        let new : (k : Text)
            → same k id ≡ true
            → names_key (l.field_name, key) (live_keys t (get k (insert id r live))) ≡ true
            → names_key (l.field_name, key) ks ≡ true =
          λ k d e. ground (arith, get-insert id k r live, has) in
        elim (Bool-cases (same i id)) [
          | inl a ↦ elim (Bool-cases (same j id)) [
            | inl b ↦ same→eq i id a ∙ sym (same→eq j id b)
            | inr b ↦
                same→eq i id a
                ∙ sym (owner ks v u named has h l listed unique key j (new i a hi) (kept j b hj))
          ]
          | inr a ↦ elim (Bool-cases (same j id)) [
            | inl b ↦
                owner ks v u named has h l listed unique key i (new j b hj) (kept i a hi)
                ∙ sym (same→eq j id b)
            | inr b ↦ u l listed unique key i j (kept i a hi) (kept j b hj)
          ]
        ]
