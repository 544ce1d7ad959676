-- ===== src/Database/Resolve/Distinct.antt =====
-- The batch of `write_many` touches each row at most once, and stores only what the schema accepts.
use sixpack.Prelude.{List, [], ◌∷◌, ◌++◌, ◌≡◌, refl, arith, subst, ◌∙◌, sym, inl, inr}
use sixpack.Prelude.Outcome.{ok, Outcome-cases}
use sixpack.Prelude.Order.{same→eq, same_self}
use sixpack.Prelude.Text.{Text, text_ord}
use sixpack.Prelude.Map.{Keys, empty, contains_key, insert, contains_key-insert, get-nil}
use sixpack.Prelude.Map.Sorted.{IsSorted}
use sixpack.Core.Value.{FloatText}
use sixpack.Core.Schema.Table.Valid.{listed, Distinct, listed-append, Distinct-append}
use sixpack.Core.Schema.Database.{DatabaseSchema}
use sixpack.Store.Batch.{WriteBatch, WriteBatchMode, AppendOperation, new_batch}
use sixpack.Database.Plan.{PlanEnvelope}
use sixpack.Database.Resolve.{Snapshot, resolve_change, resolve_changes, resolve_many}
use sixpack.Database.Resolve.Sound.{IsSound, AllSound, Added, resolve_change-Added}

-- the remembered ids with one more
next-exact :
    (ids : List Text) (touched touched' : Keys Text) (id : Text)
    → ((j : Text) → contains_key j touched ≡ listed j ids)
    → touched' ≡ insert id tt touched
    → (j : Text) → contains_key j touched' ≡ listed j (ids ++ (id ∷ []))
next-exact ids touched touched' id exact e j = rw e (
    ground (
      arith,
      exact j,
      contains_key-insert id j tt touched,
      listed-append j id ids,
      same→eq id j,
      same→eq j id,
      same_self j,
    ))

module _ {F : Type 0} ⦃float : FloatText F⦄ (db : DatabaseSchema) where
  AllSound-append :
      (name id : Text) (operation : AppendOperation F) (ids : List Text)
      (operations : List (AppendOperation F))
      → AllSound db name ids operations
      → IsSound db name id operation
      → AllSound db name (ids ++ (id ∷ [])) (operations ++ (operation ∷ []))
  AllSound-append name id operation [] [] a s = (s, tt)
  AllSound-append name id operation [] (o ∷ operations) a s = absurd a
  AllSound-append name id operation (i ∷ ids) [] a s = absurd a
  AllSound-append name id operation (i ∷ ids) (o ∷ operations) a s =
      (a.0, AllSound-append name id operation ids operations a.1 s)

  -- a batch of a table that holds one sound operation for each of the ids, in their order
  pub record IsResolved (name : Text) (ids : List Text) (b : WriteBatch F) : Type 0 where
    pub for_table : b.table ≡ name
    pub in_mode : b.mode ≡ WriteBatchMode.upsert
    pub distinct : Distinct ids
    pub sound : AllSound db name ids b.operations

  next-IsResolved :
      (name : Text) (ids : List Text) (touched touched' : Keys Text) (b b' : WriteBatch F)
      → IsResolved name ids b
      → ((j : Text) → contains_key j touched ≡ listed j ids)
      → (a : Added db touched touched' b b') → IsResolved name (ids ++ (a.id ∷ [])) b'
  next-IsResolved name ids touched touched' b b' v exact a =
      subst (IsResolved name (ids ++ (a.id ∷ []))) (sym a.adds) (record {
        for_table = v.for_table;
        in_mode = v.in_mode;
        distinct = Distinct-append a.id ids v.distinct (sym (exact a.id) ∙ a.fresh);
        sound =
            AllSound-append name a.id a.operation ids b.operations v.sound
              (subst (λ n. IsSound db n a.id a.operation) v.for_table a.sound);
      })

  -- the values of every plan are a map in key order
  abbrev pub AllSorted : List (PlanEnvelope F) → Type 0
  AllSorted [] = Unit
  AllSorted (p ∷ ps) = IsSorted p.value × AllSorted ps

  resolve_changes-IsResolved :
      (snapshot : Snapshot F) (name : Text) (plans : List (PlanEnvelope F)) (ids : List Text)
      (touched : Keys Text) (b : WriteBatch F) {b' : WriteBatch F}
      → AllSorted plans
      → IsResolved name ids b
      → ((j : Text) → contains_key j touched ≡ listed j ids)
      → resolve_changes db snapshot plans touched b ≡ ok b'
      → (all_ids : List Text) × IsResolved name all_ids b'
  unfolding resolve_changes
  resolve_changes-IsResolved snapshot name [] ids touched b s v exact h =
      (ids, subst (IsResolved name ids) (ground arith) v)
  resolve_changes-IsResolved snapshot name (p ∷ ps) ids touched b s v exact h =
      elim (Outcome-cases (resolve_change db snapshot p touched b)) [
        | inr (e, bad) ↦ absurd (ground arith)
        | inl ((touched', c), made) ↦
            let a : Added db touched touched' b c =
              resolve_change-Added db snapshot p touched touched' b c s.0 made in
            resolve_changes-IsResolved snapshot name ps (ids ++ (a.id ∷ [])) touched' c s.1
              (next-IsResolved name ids touched touched' b c v exact a)
              (next-exact ids touched touched' a.id exact a.touches) (ground arith)
      ]

  -- Let the values of each plan be in key order.
  -- Whatever the snapshot answers, a batch that `write_many` resolves is for the one table, in
  -- upsert mode, with one operation for each of some ids that are all different; each operation
  -- names its id, and the records that it stores are accepted by the schema. In particular no patch
  -- has changed an id.
  pub resolve_many-IsResolved :
      (snapshot : Snapshot F) (name : Text) (plans : List (PlanEnvelope F)) {b : WriteBatch F}
      → AllSorted plans
      → resolve_many db name plans snapshot ≡ ok b
      → (ids : List Text) × IsResolved name ids b
  unfolding resolve_many contains_key
  resolve_many-IsResolved snapshot name plans s h =
      resolve_changes-IsResolved snapshot name plans [] empty (new_batch name WriteBatchMode.upsert)
        s (record { for_table = refl; in_mode = refl; distinct = tt; sound = tt })
        (λ j. ground (arith, get-nil {V = Unit {0}} j)) h
