-- ===== src/Store/Runtime/Apply.antt =====
-- `apply_operation` keeps the index exact.
use sixpack.Prelude.{
  List, false, Option, some, if◌then◌else◌, ◌≡◌, refl, arith, Bool-cases, inl, inr,
}
use sixpack.Prelude.Outcome.{ok}
use sixpack.Prelude.Order.{pair_ord, same, same→eq}
use sixpack.Prelude.Text.{Text, text_ord}
use sixpack.Prelude.Map.{Map, get, insert, remove, contains_key, get-remove, get-insert}
use sixpack.Prelude.Map.Sorted.{IsSorted}
use sixpack.Core.Value.{FloatText}
use sixpack.Core.Record.{Record}
use sixpack.Core.Schema.Table.{TableSchema, lookup_specs_with_implicit_id}
use sixpack.Format.Operation.{Operation}
use sixpack.Format.Sixb.{RowPointer}
use sixpack.Store.Keys.{Key, record_keys, record_id}
use sixpack.Store.Runtime.{
  RuntimeSixb, insert_keys, insert_record_lookups, remove_record_lookups, apply_operation,
  remove_row_for_validation, remove_remembered_lookups,
}
use sixpack.Store.Runtime.Has.{has_id}
use sixpack.Store.Runtime.Cleared.{Cleared, remove_remembered_lookups-Cleared}
use sixpack.Store.Runtime.Exact.{
  Inserted, insert_keys-Inserted, IsExact, HasKeys, live_after, IsOld,
  remove_record_lookups-Cleared,
}

module _ {F : Type 0} ⦃float : FloatText F⦄ (t : TableSchema) (live : Map Text (Record F)) where
  -- an index that is ready for the new lookups of one row
  record Ready (id : Text) (s s' : RuntimeSixb) : Type 0 where
    sorted : IsSorted s'.lookup_ids
    rows : s'.rows_by_id ≡ s.rows_by_id
    lookups :
        (q : Key) (j : Text)
        → has_id q j s'.lookup_ids ≡ (if same j id then false else has_id q j s.lookup_ids)
    kept :
        (j : Text) (ks : List Key)
        → same j id ≡ false
        → get j s'.row_lookup_keys ≡ some ks
        → get j s.row_lookup_keys ≡ some ks

  -- a row that is not live has no lookups to clear
  absent-Cleared :
      (id : Text) (s : RuntimeSixb)
      → IsExact t live s
      → contains_key id s.rows_by_id ≡ false
      → (q : Key) (j : Text)
      → has_id q j s.lookup_ids ≡ (if same j id then false else has_id q j s.lookup_ids)
  unfolding contains_key
  absent-Cleared id s v h q j = ground (arith, v.exact q j, v.rows j, same→eq j id)

  deleted-IsExact :
      (id : Text) (s s' : RuntimeSixb)
      → IsExact t live s
      → Cleared id (record s { rows_by_id = remove id s.rows_by_id }) s'
      → IsExact t (remove id live) s'
  deleted-IsExact id s s' v c = record {
    sorted = c.sorted;
    rows = λ j.
        rw c.rows (ground (arith, v.rows j, get-remove id j s.rows_by_id, get-remove id j live));
    keyed = λ j r e. v.keyed j r (ground (arith, get-remove id j live));
    exact = λ q j. ground (arith, c.lookups q j, v.exact q j, get-remove id j live);
    remembered = λ j ks e q h. ground (
      arith,
      c.lookups q j,
      c.remembered j,
      λ (p : get j s.row_lookup_keys ≡ some ks). v.remembered j ks p q,
    );
  }

  -- the first step of a put
  ready :
      (id : Text) (old : Option (Record F)) (s : RuntimeSixb)
      → IsExact t live s
      → IsOld id live old
      → (s' : RuntimeSixb) × ((if contains_key id s.rows_by_id
            then remove_record_lookups t id old s
            else ok s)
          ≡ ok s')
        × Ready id s s'
  ready id old s v h = elim (Bool-cases (contains_key id s.rows_by_id)) [
    | inl e ↦
        let (s', made, c) = remove_record_lookups-Cleared t live id old s s.rows_by_id v h in
        (
          s',
          rw e made,
          record {
            sorted = c.sorted;
            rows = c.rows;
            lookups = c.lookups;
            kept = λ j ks d g. ground (arith, c.remembered j);
          },
        )
    | inr e ↦ (
      s,
      rw e refl,
      record {
        sorted = v.sorted;
        rows = refl;
        lookups = absent-Cleared id s v e;
        kept = λ j ks d g. g;
      },
    )
  ]

  put-IsExact :
      (id : Text) (r : Record F) (ptr : RowPointer) (ks : List Key) (s s' : RuntimeSixb)
      → IsExact t live s
      → Ready id s s'
      → record_keys (lookup_specs_with_implicit_id t) r.fields ≡ ok ks
      → (d : Inserted ks id s'.lookup_ids
          (insert_keys (lookup_specs_with_implicit_id t) id r.fields s'.lookup_ids))
      → IsExact t (insert id r live) (record s' {
        rows_by_id = insert id ptr s'.rows_by_id;
        lookup_ids = d.after;
        row_lookup_keys = insert id ks s'.row_lookup_keys;
      })
  put-IsExact id r ptr ks s s' v c has d = record {
    sorted = d.sorted c.sorted;
    rows = λ j.
        rw c.rows
          (ground (arith, v.rows j, get-insert id j ptr s.rows_by_id, get-insert id j r live));
    keyed = λ j w e. elim (Bool-cases (same j id)) [
      | inl g ↦ (ks, ground (arith, has, get-insert id j r live))
      | inr g ↦ v.keyed j w (ground (arith, get-insert id j r live))
    ];
    exact = λ q j.
        ground (arith, d.lookups q j, c.lookups q j, v.exact q j, get-insert id j r live, has);
    remembered = λ j ms e q h. ground (
      arith,
      d.lookups q j,
      c.lookups q j,
      get-insert id j ks s'.row_lookup_keys,
      c.kept j ms,
      λ (p : get j s.row_lookup_keys ≡ some ms). v.remembered j ms p q,
    );
  }

  -- Let the index be exact for the live records, let the record at hand have an id and, for a put,
  -- a value in every lookup field, and let the old record that is passed be the live one, if one is
  -- passed. Then the operation succeeds, and the index is exact for the live records after it: the
  -- row is stored under its new keys and under no other, or is gone, and no other row is touched.
  pub apply_operation-IsExact :
      (op : Operation) (id : Text) (r : Record F) (ptr : RowPointer) (old : Option (Record F))
      (s : RuntimeSixb)
      → IsExact t live s
      → record_id r ≡ ok id
      → (op ≡ Operation.put → HasKeys t r)
      → IsOld id live old
      → (s' : RuntimeSixb) × (apply_operation t op r ptr old s ≡ ok s')
        × IsExact t (live_after op id r live) s'
  unfolding apply_operation insert_record_lookups
  apply_operation-IsExact Operation.put id r ptr old s v named keyed is_old =
      let (ks, has) = keyed refl in
      let (s', made, c) = ready id old s v is_old in
      let d : Inserted ks id s'.lookup_ids
          (insert_keys (lookup_specs_with_implicit_id t) id r.fields s'.lookup_ids) =
        insert_keys-Inserted (lookup_specs_with_implicit_id t) id r.fields s'.lookup_ids ks has in
      (_, rw named (rw made (rw d.made refl)), put-IsExact id r ptr ks s s' v c has d)
  apply_operation-IsExact Operation.delete id r ptr old s v named keyed is_old =
      let (s', made, c) =
        remove_record_lookups-Cleared t live id old s (remove id s.rows_by_id) v is_old in
      (s', rw named made, deleted-IsExact id s s' v c)

  absent-removed :
      (id : Text) (s : RuntimeSixb)
      → IsExact t live s
      → contains_key id s.rows_by_id ≡ false
      → (j : Text) → get j (remove id live) ≡ get j live
  unfolding contains_key
  absent-removed id s v h j = ground (arith, get-remove id j live, same→eq j id, v.rows id)

  -- The validation index of a batch: taking a row out of an exact index leaves an index that is
  -- exact for the live records without the row, whether the row was live or not.
  pub remove_row_for_validation-IsExact :
      (id : Text) (s : RuntimeSixb)
      → IsExact t live s
      → IsExact t (remove id live) (remove_row_for_validation id s)
  unfolding remove_row_for_validation
  remove_row_for_validation-IsExact id s v = elim (Bool-cases (contains_key id s.rows_by_id)) [
    | inl e ↦ rw e (
        deleted-IsExact id s
          (remove_remembered_lookups id (record s { rows_by_id = remove id s.rows_by_id })) v
          (remove_remembered_lookups-Cleared id (record s { rows_by_id = remove id s.rows_by_id })
            v.sorted (v.remembered id)))
    | inr e ↦ rw e (record {
      sorted = v.sorted;
      rows = λ j. ground (arith, v.rows j, absent-removed id s v e j);
      keyed = λ j r h. v.keyed j r (ground (arith, absent-removed id s v e j));
      exact = λ q j. ground (arith, v.exact q j, absent-removed id s v e j);
      remembered = v.remembered;
    })
  ]
