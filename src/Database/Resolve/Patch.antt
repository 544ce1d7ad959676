-- ===== src/Database/Resolve/Patch.antt =====
-- What a patch stores.
use sixpack.Prelude.{[], ◌∷◌, ◌≡◌, arith, inl, inr, is_some, if◌then◌else◌}
use sixpack.Prelude.Outcome.{ok, Outcome-cases}
use sixpack.Prelude.Text.{Text, text_ord}
use sixpack.Prelude.Map.{get}
use sixpack.Prelude.Map.Sorted.{IsSorted}
use sixpack.Core.Value.{FloatText}
use sixpack.Core.Record.{Record}
use sixpack.Core.Schema.Table.{TableSchema}
use sixpack.Core.Schema.Database.{DatabaseSchema, validate_record}
use sixpack.Store.Batch.{
  WriteBatch, WriteBatchMode, append_put, push, push_all, upsert_batch, new_batch,
}
use sixpack.Database.Plan.{PlanEnvelope}
use sixpack.Database.Checks.{plan_record_id, validate_patch_plan}
use sixpack.Database.Resolve.{Snapshot, patched_row, require_unique_row_in, resolve_patch}
use sixpack.Database.Resolve.Sound.{get-insert_fields, patched_row-id}

module _ {F : Type 0} ⦃float : FloatText F⦄ (db : DatabaseSchema) where
  -- the row that a plan finds, and the row that is stored in its place
  pub record IsPatched (t : TableSchema) (p : PlanEnvelope F) (snapshot : Snapshot F)
      (b : WriteBatch F) : Type 0 where
    pub row : Record F
    pub patched : Record F
    pub found : require_unique_row_in db snapshot p ≡ ok row
    pub only :
        b ≡ record (new_batch t.name WriteBatchMode.upsert) { operations = append_put patched ∷ [] }
    pub accepted : validate_record patched db ≡ ok tt
    pub same_id : (id : Text) → plan_record_id row ≡ ok id → plan_record_id patched ≡ ok id
    pub overlaid :
        (n : Text)
        → get n patched.fields
          ≡ (if is_some (get n p.value) then get n p.value else get n row.fields)

  patched_row-fields :
      (p : PlanEnvelope F) (row patched : Record F) (n : Text)
      → IsSorted p.value
      → patched_row db row p ≡ ok patched
      → (validate_record patched db ≡ ok tt)
        × (get n patched.fields
            ≡ (if is_some (get n p.value) then get n p.value else get n row.fields))
  unfolding patched_row
  patched_row-fields p row patched n s made =
      ground (arith, get-insert_fields p.value row n {r' = patched} s)

  -- Let a patch plan be valid and its values in key order. A batch that it resolves to is one put,
  -- of the row that the plan's unique lookup finds with the new values laid over it and nothing
  -- else changed; its id is the row's, and the schema accepts it.
  pub resolve_patch-IsPatched :
      (t : TableSchema) (p : PlanEnvelope F) (snapshot : Snapshot F) {b : WriteBatch F}
      → IsSorted p.value
      → validate_patch_plan t p ≡ ok tt
      → resolve_patch db t p snapshot ≡ ok b
      → IsPatched t p snapshot b
  unfolding resolve_patch upsert_batch push_all push
  resolve_patch-IsPatched t p snapshot s valid h =
      elim (Outcome-cases (require_unique_row_in db snapshot p)) [
        | inr (e, bad) ↦ absurd (ground arith)
        | inl (row, found) ↦ elim (Outcome-cases (patched_row db row p)) [
          | inr (e, bad) ↦ absurd (ground arith)
          | inl (patched, made) ↦ record {
            row = row;
            patched = patched;
            found = found;
            only = ground arith;
            accepted = (patched_row-fields p row patched [] s made).0;
            same_id = λ id named. (patched_row-id db t p row patched id s valid named made).0;
            overlaid = λ n. (patched_row-fields p row patched n s made).1;
          }
        ]
      ]
