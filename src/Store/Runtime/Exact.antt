-- ===== src/Store/Runtime/Exact.antt =====
-- The index against the live records of the table: what a full scan would find.
use sixpack.Prelude.{List, [], ◌∷◌, true, Option, none, some, ◌≡◌, refl, arith, is_some, ◌&&◌, ◌||◌}
use sixpack.Prelude.Outcome.{Outcome, ok, err, ◌>>=◌, >>=-eq-ok, ok_or}
use sixpack.Prelude.Order.{pair_ord, same}
use sixpack.Prelude.Text.{Text, text_ord}
use sixpack.Prelude.Map.{Map, get, insert, remove}
use sixpack.Prelude.Map.Sorted.{IsSorted}
use sixpack.Core.Value.{Value, FloatText}
use sixpack.Core.Record.{Record}
use sixpack.Core.Schema.Table.{TableSchema, LookupSpec, lookup_specs_with_implicit_id}
use sixpack.Format.Operation.{Operation}
use sixpack.Format.Sixb.{RowPointer}
use sixpack.Store.Error.{IoError}
use sixpack.Store.Keys.{Key, record_keys, value_to_lookup_key, missing_lookup_field}
use sixpack.Store.Runtime.{RuntimeSixb, insert_keys, remove_record_lookups}
use sixpack.Store.Runtime.Lookups.{LookupIds, add_id}
use sixpack.Store.Runtime.Has.{has_id, names_key, has_id-add_id, add_id-IsSorted}
use sixpack.Store.Runtime.Cleared.{
  Cleared, remove_lookup_keys-Cleared, remove_remembered_lookups-Cleared,
}

-- the loop of `insert_record_lookups` succeeds when every lookup field has a value
pub record Inserted (ks : List Key) (id : Text) (m : LookupIds)
    (o : Outcome IoError (LookupIds × List Key)) : Type 0 where
  pub after : LookupIds
  pub made : o ≡ ok (after, ks)
  pub sorted : IsSorted m → IsSorted after
  pub lookups :
      (q : Key) (j : Text) → has_id q j after ≡ ((names_key q ks && same j id) || has_id q j m)

abbrev found_keys : Outcome IoError (List Key) → List Key
found_keys (ok ks) = ks
found_keys (err e) = []

module _ {F : Type 0} ⦃float : FloatText F⦄ where
  pub insert_keys-Inserted :
      (ls : List LookupSpec) (id : Text) (fields : Map Text (Value F)) (m : LookupIds)
      (ks : List Key)
      → record_keys ls fields ≡ ok ks
      → Inserted ks id m (insert_keys ls id fields m)
  unfolding record_keys insert_keys
  insert_keys-Inserted [] id fields m ks e = record {
    after = m;
    made = ground arith;
    sorted = λ s. s;
    lookups = λ q j. ground arith;
  }
  insert_keys-Inserted (l ∷ ls) id fields m ks e =
      let (value, found, e1) =
        >>=-eq-ok (ok_or (missing_lookup_field l.field_name) (get l.field_name fields))
          (λ w. record_keys ls fields >>= λ rest. ok ((l.field_name, value_to_lookup_key w) ∷ rest))
          e in
      let (rest, collected, e2) =
        >>=-eq-ok (record_keys ls fields)
          (λ rest. ok ((l.field_name, value_to_lookup_key value) ∷ rest)) e1 in
      let k : Key = (l.field_name, value_to_lookup_key {F = F} value) in
      let d : Inserted rest id (add_id k id m) (insert_keys ls id fields (add_id k id m)) =
        insert_keys-Inserted ls id fields (add_id k id m) rest collected in
      record {
        after = d.after;
        made = rw found (rw d.made (ground arith));
        sorted = λ s. d.sorted (add_id-IsSorted k id m s);
        lookups = λ q j. ground (arith, d.lookups q j, has_id-add_id k id q j m);
      }

  -- the keys under which a live row belongs
  abbrev pub live_keys : TableSchema → Option (Record F) → List Key
  live_keys t none = []
  live_keys t (some r) = found_keys (record_keys (lookup_specs_with_implicit_id t) r.fields)

  -- every lookup of the table has a value in the record
  abbrev pub HasKeys : TableSchema → Record F → Type 0
  HasKeys t r = (ks : List Key) × (record_keys (lookup_specs_with_implicit_id t) r.fields ≡ ok ks)

  -- the index holds exactly the live rows, each under exactly its keys
  pub record IsExact (t : TableSchema) (live : Map Text (Record F)) (s : RuntimeSixb) : Type 0 where
    pub sorted : IsSorted s.lookup_ids
    pub rows : (j : Text) → is_some (get j s.rows_by_id) ≡ is_some (get j live)
    pub keyed : (j : Text) (r : Record F) → get j live ≡ some r → HasKeys t r
    pub exact :
        (q : Key) (j : Text) → has_id q j s.lookup_ids ≡ names_key q (live_keys t (get j live))
    pub remembered :
        (j : Text) (ks : List Key)
        → get j s.row_lookup_keys ≡ some ks
        → (q : Key) → has_id q j s.lookup_ids ≡ true
        → names_key q ks ≡ true

  -- what an operation does to the live records
  abbrev pub live_after : Operation → Text → Record F → Map Text (Record F) → Map Text (Record F)
  live_after Operation.put id r live = insert id r live
  live_after Operation.delete id r live = remove id live

  -- the old record is not at hand, or it is the live one
  abbrev pub IsOld : Text → Map Text (Record F) → Option (Record F) → Type 0
  IsOld id live none = Unit
  IsOld id live (some r) = get id live ≡ some r

  module _ (t : TableSchema) (live : Map Text (Record F)) where
    -- whatever rows the index lists, its lookups are those of the live records
    pub remove_record_lookups-Cleared :
        (id : Text) (old : Option (Record F)) (s : RuntimeSixb) (rows : Map Text RowPointer)
        → IsExact t live s
        → IsOld id live old
        → (s' : RuntimeSixb) × (remove_record_lookups t id old (record s { rows_by_id = rows })
            ≡ ok s')
          × Cleared id (record s { rows_by_id = rows }) s'
    unfolding remove_record_lookups
    remove_record_lookups-Cleared id none s rows v h = (
      _,
      refl,
      remove_remembered_lookups-Cleared id (record s { rows_by_id = rows }) v.sorted
          (v.remembered id),
    )
    remove_record_lookups-Cleared id (some r) s rows v h =
        let (ks, e) = v.keyed id r h in
        (
          _,
          rw e refl,
          remove_lookup_keys-Cleared id ks (record s { rows_by_id = rows }) v.sorted
              (λ q. ground (arith, v.exact q id, h, e)),
        )
