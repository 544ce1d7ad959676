-- ===== src/Database/Resolve/Sound.antt =====
-- What a batch that `write_many` resolves promises the store.
use sixpack.Prelude.{
  List, [], ◌∷◌, ◌++◌, false, some, ◌≡◌, refl, arith, Option-cases, inl, inr, is_some,
  if◌then◌else◌,
}
use sixpack.Prelude.Outcome.{ok, Outcome-cases}
use sixpack.Prelude.Order.{same→eq}
use sixpack.Prelude.Text.{Text, text_ord, codes}
use sixpack.Prelude.Map.{
  Map, Keys, empty, get, insert, contains_key, get-insert, get-cons, get-nil, get-insert_self,
}
use sixpack.Prelude.Map.Sorted.{IsSorted, get-Above}
use sixpack.Core.Value.{Value, FloatText}
use sixpack.Core.Record.{Record, new_record, insert_field, insert_id}
use sixpack.Core.Schema.Table.{TableSchema}
use sixpack.Core.Schema.Database.{DatabaseSchema, table, validate_record}
use sixpack.Format.Operation.{Operation}
use sixpack.Store.Batch.{WriteBatch, AppendOperation, push, append_put, append_delete}
use sixpack.Database.Plan.{PlanEnvelope, PlanOp}
use sixpack.Database.Checks.{plan_record_id, ensure_untouched_id, validate_patch_plan}
use sixpack.Database.Resolve.{
  Snapshot, insert_fields, patched_row, record_from_plan_value, resolve_change,
  require_unique_row_in,
}

module _ {F : Type 0} where
  -- the new values come first, and the others stay
  pub get-insert_fields :
      (m : Map Text (Value F)) (r : Record F) (n : Text) {r' : Record F}
      → IsSorted m
      → insert_fields m r ≡ ok r'
      → (r'.table ≡ r.table)
        × (get n r'.fields ≡ (if is_some (get n m) then get n m else get n r.fields))
  unfolding insert_fields insert_field
  get-insert_fields [] r n s e = ground (arith, get-nil {V = Value F} n)
  get-insert_fields ((k, v) ∷ m) r n {r'} s e = ground (
    arith,
    get-insert_fields m (record r { fields = insert k v r.fields }) n {r' = r'} s.1,
    get-cons k n v m,
    get-insert k n v r.fields,
    get-Above k m s.0,
    same→eq n k,
  )

deleted_id :
    (F : Type 0) ⦃float : FloatText F⦄ (id name : Text)
    → plan_record_id (insert_id {F = F} id (new_record name)) ≡ ok id
unfolding plan_record_id insert_id
deleted_id F id name =
    ground (arith, get-insert_self (codes "id") (Value.id id) (empty {V = Value F}))

-- what a successful `ensure_untouched_id` has checked
ensure_untouched_id-eq-ok :
    (id : Text) (touched : Keys Text) {touched' : Keys Text}
    → ensure_untouched_id id touched ≡ ok touched'
    → (contains_key id touched ≡ false) × (touched' ≡ insert id tt touched)
unfolding ensure_untouched_id
ensure_untouched_id-eq-ok id touched h = ground arith

module _ {F : Type 0} ⦃float : FloatText F⦄ (db : DatabaseSchema) where
  -- an operation of the table on the row, whose record, if it is stored, the schema accepts
  pub record IsSound (name id : Text) (operation : AppendOperation F) : Type 0 where
    pub in_table : operation.record_.table ≡ name
    pub names_id : plan_record_id operation.record_ ≡ ok id
    pub stored : operation.operation ≡ Operation.put → validate_record operation.record_ db ≡ ok tt

  -- the operations, one for one, are sound for the ids
  abbrev pub AllSound : Text → List Text → List (AppendOperation F) → Type 0
  AllSound name [] [] = Unit
  AllSound name (id ∷ ids) (operation ∷ operations) =
      IsSound name id operation × AllSound name ids operations
  AllSound name [] (operation ∷ operations) = ⊥
  AllSound name (id ∷ ids) [] = ⊥

  -- what one round of the loop adds
  pub record Added (touched touched' : Keys Text) (b b' : WriteBatch F) : Type 0 where
    pub id : Text
    pub operation : AppendOperation F
    pub fresh : contains_key id touched ≡ false
    pub touches : touched' ≡ insert id tt touched
    pub adds : b' ≡ record b { operations = b.operations ++ (operation ∷ []) }
    pub sound : IsSound b.table id operation

  -- what a successful `push` has checked
  pub push-eq-ok :
      (operation : AppendOperation F) (b : WriteBatch F) {b' : WriteBatch F}
      → push operation b ≡ ok b'
      → (operation.record_.table ≡ b.table)
        × (b' ≡ record b { operations = b.operations ++ (operation ∷ []) })
  unfolding push
  push-eq-ok operation b {b'} h = ground (arith, same→eq operation.record_.table b.table)

  -- a patch that may be made does not change the id
  pub patched_row-id :
      (t : TableSchema) (p : PlanEnvelope F) (row patched : Record F) (id : Text)
      → IsSorted p.value
      → validate_patch_plan t p ≡ ok tt
      → plan_record_id row ≡ ok id
      → patched_row db row p ≡ ok patched
      → (plan_record_id patched ≡ ok id) × (validate_record patched db ≡ ok tt)
  unfolding validate_patch_plan contains_key plan_record_id patched_row
  patched_row-id t p row patched id s valid named made =
      ground (arith, get-insert_fields p.value row (codes "id") {r' = patched} s)

  module _ (snapshot : Snapshot F) (p : PlanEnvelope F) (touched touched' : Keys Text)
      (b b' : WriteBatch F) where
    -- the common end of the three changes
    added :
        (id : Text) (operation : AppendOperation F)
        → plan_record_id operation.record_ ≡ ok id
        → (operation.operation ≡ Operation.put → validate_record operation.record_ db ≡ ok tt)
        → ensure_untouched_id id touched ≡ ok touched'
        → push operation b ≡ ok b'
        → Added touched touched' b b'
    added id operation named stored untouched pushed =
        let (fresh, touches) = ensure_untouched_id-eq-ok id touched untouched in
        let (in_table, adds) = push-eq-ok operation b pushed in
        record {
          id = id;
          operation = operation;
          fresh = fresh;
          touches = touches;
          adds = adds;
          sound = record { in_table = in_table; names_id = named; stored = stored };
        }

    upsert-Added :
        (t : TableSchema)
        → table p.table db ≡ some t
        → p.op ≡ PlanOp.upsert
        → resolve_change db snapshot p touched b ≡ ok (touched', b')
        → Added touched touched' b b'
    unfolding resolve_change
    upsert-Added t known op h = elim (Outcome-cases (record_from_plan_value t.name p.value)) [
      | inr (e, bad) ↦ absurd (ground arith)
      | inl (r, made) ↦ elim (Outcome-cases (plan_record_id r)) [
        | inr (e, bad) ↦ absurd (ground arith)
        | inl (id, named) ↦
            added id (append_put r) named (λ q. ground arith) (ground arith) (ground arith)
      ]
    ]

    patch-Added :
        (t : TableSchema)
        → IsSorted p.value
        → table p.table db ≡ some t
        → p.op ≡ PlanOp.patch
        → resolve_change db snapshot p touched b ≡ ok (touched', b')
        → Added touched touched' b b'
    unfolding resolve_change
    patch-Added t s known op h = elim (Outcome-cases (require_unique_row_in db snapshot p)) [
      | inr (e, bad) ↦ absurd (ground arith)
      | inl (row, found) ↦ elim (Outcome-cases (plan_record_id row)) [
        | inr (e, bad) ↦ absurd (ground arith)
        | inl (id, named) ↦ elim (Outcome-cases (patched_row db row p)) [
          | inr (e, bad) ↦ absurd (ground arith)
          | inl (patched, made) ↦
              let (same_id, stored) =
                patched_row-id t p row patched id s (ground arith) named made in
              added id (append_put patched) same_id (λ q. stored) (ground arith) (ground arith)
        ]
      ]
    ]

    remove-Added :
        (t : TableSchema)
        → table p.table db ≡ some t
        → p.op ≡ PlanOp.remove
        → resolve_change db snapshot p touched b ≡ ok (touched', b')
        → Added touched touched' b b'
    unfolding resolve_change
    remove-Added t known op h = elim (Outcome-cases (require_unique_row_in db snapshot p)) [
      | inr (e, bad) ↦ absurd (ground arith)
      | inl (row, found) ↦ elim (Outcome-cases (plan_record_id row)) [
        | inr (e, bad) ↦ absurd (ground arith)
        | inl (id, named) ↦
            added id (append_delete (insert_id id (new_record t.name))) (deleted_id F id t.name)
              (λ q. absurd (cc)) (ground arith) (ground arith)
      ]
    ]

    pub resolve_change-Added :
        IsSorted p.value
        → resolve_change db snapshot p touched b ≡ ok (touched', b')
        → Added touched touched' b b'
    unfolding resolve_change
    resolve_change-Added s h = elim (Option-cases (table p.table db)) [
      | inl none_known ↦ absurd (ground arith)
      | inr (t, known) ↦ go t known p.op refl
    ]
      where
        go :
            (t : TableSchema)
            → table p.table db ≡ some t
            → (op : PlanOp) → p.op ≡ op
            → Added touched touched' b b'
        go t known PlanOp.upsert e = upsert-Added t known e h
        go t known PlanOp.patch e = patch-Added t s known e h
        go t known PlanOp.remove e = remove-Added t known e h
        go t known PlanOp.insert e = absurd (ground arith)
        go t known PlanOp.get e = absurd (ground arith)
        go t known PlanOp.find e = absurd (ground arith)
        go t known PlanOp.scan e = absurd (ground arith)
        go t known PlanOp.count e = absurd (ground arith)
