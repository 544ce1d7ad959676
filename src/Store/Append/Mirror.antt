-- ===== src/Store/Append/Mirror.antt =====
-- The index after a batch against what a scan finds of it.
use sixpack.Prelude.{List, [], ◌∷◌, Option, none, some, ◌≡◌, refl, arith, sym, subst, inl, inr, map}
use sixpack.Prelude.Outcome.{ok, Outcome-cases}
use sixpack.Prelude.Text.{Text, text_ord}
use sixpack.Prelude.Map.{Map, get, insert, remove, get-insert, get-remove}
use sixpack.Core.Value.{FloatText}
use sixpack.Core.Record.{Record}
use sixpack.Core.Schema.Table.{TableSchema}
use sixpack.Format.Operation.{Operation}
use sixpack.Format.Sixb.{RowPointer}
use sixpack.Store.Keys.{record_id}
use sixpack.Store.Runtime.{
  RuntimeSixb, apply_operation, remove_record_lookups, insert_record_lookups, remove_lookup_keys,
  remove_remembered_lookups, remove_lookup_id_slow,
}
use sixpack.Store.Runtime.Exact.{IsExact, live_after, IsOld, HasKeys}
use sixpack.Store.Runtime.Apply.{apply_operation-IsExact}
use sixpack.Store.Batch.{AppendOperation}
use sixpack.Store.Scan.{LiveRow}
use sixpack.Store.Scan.Written.{Written}
use sixpack.Store.Append.{EncodedAppend}
use sixpack.Store.Append.Encoded.{id_of, written_op}

module _ {F : Type 0} where
  -- the live rows without their pointers
  unfoldable pub records : Map Text (LiveRow F) → Map Text (Record F)
  records [] = []
  records ((id, row) ∷ live) = (id, row.record_) ∷ records live

  abbrev pub ptr_at : Option (LiveRow F) → Option RowPointer
  ptr_at none = none
  ptr_at (some row) = some row.ptr

  pub records-insert :
      (id : Text) (row : LiveRow F) (live : Map Text (LiveRow F))
      → records (insert id row live) ≡ insert id row.record_ (records live)
  unfolding records insert
  records-insert id row [] = refl
  records-insert id row ((j, w) ∷ live) = ground (arith, records-insert id row live)

  pub records-remove :
      (id : Text) (live : Map Text (LiveRow F))
      → records (remove id live) ≡ remove id (records live)
  unfolding records remove
  records-remove id [] = refl
  records-remove id ((j, w) ∷ live) = ground (arith, records-remove id live)

  -- what an operation does to the live rows
  abbrev pub rows_after :
      Operation → Text → Record F → RowPointer → Map Text (LiveRow F) → Map Text (LiveRow F)
  rows_after Operation.put id r ptr live = insert id (record { record_ = r; ptr = ptr }) live
  rows_after Operation.delete id r ptr live = remove id live

module _ {F : Type 0} ⦃float : FloatText F⦄ where
  pub records-rows_after :
      (op : Operation) (id : Text) (r : Record F) (ptr : RowPointer) (live : Map Text (LiveRow F))
      → records (rows_after op id r ptr live) ≡ live_after op id r (records live)
  records-rows_after Operation.put id r ptr live =
      records-insert id (record { record_ = r; ptr = ptr }) live
  records-rows_after Operation.delete id r ptr live = records-remove id live

  -- what a batch does to the live records: its operations, one after another
  unfoldable pub live_batch : List (AppendOperation F) → Map Text (Record F) → Map Text (Record F)
  live_batch [] live = live
  live_batch (a ∷ ops) live =
      live_batch ops (live_after a.operation (id_of a.record_) a.record_ live)

  -- the operations as lines
  abbrev pub written_of : List (EncodedAppend F) → List (Written F)
  written_of = map (λ e. (e.line, written_op e.operation e.tx_id e.record_))

  module _ (t : TableSchema) where
    remove_record_lookups-rows :
        (id : Text) (old : Option (Record F)) (s s' : RuntimeSixb)
        → remove_record_lookups t id old s ≡ ok s'
        → (s'.rows_by_id ≡ s.rows_by_id) × (s'.source_hash ≡ s.source_hash)
    unfolding remove_record_lookups remove_lookup_keys remove_remembered_lookups
        remove_lookup_id_slow
    remove_record_lookups-rows id none s s' e = ground arith
    remove_record_lookups-rows id (some r) s s' e = ground arith

    apply_operation-rows_put :
        (id : Text) (r : Record F) (ptr : RowPointer) (old : Option (Record F)) (s s' : RuntimeSixb)
        → record_id r ≡ ok id
        → apply_operation t Operation.put r ptr old s ≡ ok s'
        → (s'.rows_by_id ≡ insert id ptr s.rows_by_id) × (s'.source_hash ≡ s.source_hash)
    unfolding apply_operation insert_record_lookups
    apply_operation-rows_put id r ptr old s s' named e =
        elim (Outcome-cases (remove_record_lookups t id old s)) [
          | inr (bad, f) ↦ ground (arith, f)
          | inl (s1, f) ↦ ground (arith, f, remove_record_lookups-rows id old s s1 f)
        ]

    apply_operation-rows_delete :
        (id : Text) (r : Record F) (ptr : RowPointer) (old : Option (Record F)) (s s' : RuntimeSixb)
        → record_id r ≡ ok id
        → apply_operation t Operation.delete r ptr old s ≡ ok s'
        → (s'.rows_by_id ≡ remove id s.rows_by_id) × (s'.source_hash ≡ s.source_hash)
    unfolding apply_operation
    apply_operation-rows_delete id r ptr old s s' named e =
        remove_record_lookups-rows id old (record s { rows_by_id = remove id s.rows_by_id }) s'
          (ground arith)

    -- the index holds the live records under their keys, each with the pointer of its row
    pub record IsMirror (live : Map Text (LiveRow F)) (cache : RuntimeSixb) : Type 0 where
      pub exact : IsExact t (records live) cache
      pub pointers : (j : Text) → get j cache.rows_by_id ≡ ptr_at (get j live)

    pub apply_operation-IsMirror :
        (op : Operation) (id : Text) (r : Record F) (ptr : RowPointer) (old : Option (Record F))
        (live : Map Text (LiveRow F)) (s : RuntimeSixb)
        → IsMirror live s
        → record_id r ≡ ok id
        → (op ≡ Operation.put → HasKeys t r)
        → IsOld id (records live) old
        → (s' : RuntimeSixb) × (apply_operation t op r ptr old s ≡ ok s')
          × IsMirror (rows_after op id r ptr live) s'
          × (s'.source_hash ≡ s.source_hash)
    apply_operation-IsMirror Operation.put id r ptr old live s m named keyed is_old =
        let (s', e, x) =
          apply_operation-IsExact t (records live) Operation.put id r ptr old s m.exact named keyed
            is_old in
        let (rows, source) = apply_operation-rows_put id r ptr old s s' named e in
        (
          s',
          e,
          record {
            exact =
                subst (λ l. IsExact t l s')
                  (sym (records-insert id (record { record_ = r; ptr = ptr }) live)) x;
            pointers = λ j. rw rows (
                ground (
                  arith,
                  m.pointers j,
                  get-insert id j ptr s.rows_by_id,
                  get-insert id j (record { record_ = r; ptr = ptr }) live,
                ));
          },
          source,
        )
    apply_operation-IsMirror Operation.delete id r ptr old live s m named keyed is_old =
        let (s', e, x) =
          apply_operation-IsExact t (records live) Operation.delete id r ptr old s m.exact named
            keyed is_old in
        let (rows, source) = apply_operation-rows_delete id r ptr old s s' named e in
        (
          s',
          e,
          record {
            exact = subst (λ l. IsExact t l s') (sym (records-remove id live)) x;
            pointers = λ j.
                rw rows (
                  ground (arith, m.pointers j, get-remove id j s.rows_by_id, get-remove id j live));
          },
          source,
        )
