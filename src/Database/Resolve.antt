-- ===== src/Database/Resolve.antt =====
-- packages/sixpack/src/database.rs: how a plan becomes a batch of puts and deletes against one
-- snapshot of the store.
pub mod Sound
pub mod Distinct
pub mod Patch
use sixpack.Prelude.{List, [], ◌∷◌, ◌++◌, Option, none, some}
use sixpack.Prelude.Outcome.{Outcome, ok, err, ◌>>=◌, ◌>>◌, ok_or, fault, map_err, ensure}
use sixpack.Prelude.Order.{same}
use sixpack.Prelude.Text.{Text, text_ord, codes}
use sixpack.Prelude.Map.{Map, Keys, empty, get}
use sixpack.Core.Value.{Value, FloatText}
use sixpack.Core.Record.{Record, new_record, insert_field, insert_id}
use sixpack.Core.Schema.Table.{TableSchema}
use sixpack.Core.Schema.Database.{DatabaseSchema, table, validate_record}
use sixpack.Store.Error.{IoError}
use sixpack.Store.Batch.{
  WriteBatch, WriteBatchMode, new_batch, push, upsert_batch, append_put, append_delete,
}
use sixpack.Database.Plan.{PlanEnvelope, PlanError, PlanOp, DatabaseError, invalid, not_found}
use sixpack.Database.Checks.{
  require_lookup_name, require_unique_lookup, require_lookup_key, validate_patch_plan,
  plan_record_id, ensure_untouched_id,
}
use sixpack.Database.Action.{Answer, plan_checked, io_checked, database_checked, schema_checked}

-- `WriteSnapshot::get_unique_lookup`: a table, a lookup and a key
abbrev pub Snapshot : Type 0 → Type 0
Snapshot F = Text → Text → Text → Outcome IoError (Option (Record F))

abbrev pub unknown_table_error : Text → PlanError
unknown_table_error name = invalid (codes "unknown table `" ++ (name ++ codes "`"))

abbrev lookup_or_missing : Option Text → Text
lookup_or_missing none = codes "<missing>"
lookup_or_missing (some lookup) = lookup

module _ {F : Type 0} where
  -- the loop over the new values of a row
  unfoldable pub insert_fields : Map Text (Value F) → Record F → Answer (Record F)
  insert_fields [] r = ok r
  insert_fields ((name, value) ∷ values) r = do
    r' ← map_err (λ e. fault (DatabaseError.schema e)) (insert_field name value r)
    insert_fields values r'

  unfoldable pub record_from_plan_value : Text → Map Text (Value F) → Answer (Record F)
  record_from_plan_value name values = insert_fields values (new_record name)

module _ {F : Type 0} ⦃float : FloatText F⦄ (db : DatabaseSchema) where
  -- `optional_unique_row_in`; with the store itself for a snapshot, `optional_unique_row`
  unfoldable pub optional_unique_row_in : Snapshot F → PlanEnvelope F → Answer (Option (Record F))
  optional_unique_row_in snapshot p = do
    t ← plan_checked (ok_or (unknown_table_error p.table) (table p.table db))
    lookup ← plan_checked (require_lookup_name p)
    plan_checked (require_unique_lookup t lookup)
    key ← plan_checked (require_lookup_key p lookup)
    io_checked (snapshot t.name lookup key)

  unfoldable pub require_unique_row_in : Snapshot F → PlanEnvelope F → Answer (Record F)
  require_unique_row_in snapshot p = do
    found ← optional_unique_row_in snapshot p
    plan_checked (
        ok_or
          (not_found (
            codes "row not found in `"
            ++ (p.table
                ++ (codes "` for unique lookup `" ++ (lookup_or_missing p.lookup ++ codes "`")))))
          found)

  -- the row that a patch stores
  unfoldable pub patched_row : Record F → PlanEnvelope F → Answer (Record F)
  patched_row row p = do
    patched ← insert_fields p.value row
    schema_checked (validate_record patched db)
    ok patched

  -- the resolver of a patch in `execute_plan`
  unfoldable pub resolve_patch : TableSchema → PlanEnvelope F → Snapshot F → Answer (WriteBatch F)
  resolve_patch t p snapshot = do
    row ← require_unique_row_in snapshot p
    patched ← patched_row row p
    io_checked (upsert_batch t.name (append_put patched ∷ []))

  -- the resolver of a removal in `execute_plan`
  unfoldable pub resolve_remove : TableSchema → PlanEnvelope F → Snapshot F → Answer (WriteBatch F)
  resolve_remove t p snapshot = do
    row ← require_unique_row_in snapshot p
    id ← database_checked (plan_record_id row)
    io_checked (upsert_batch t.name (append_delete (insert_id id (new_record t.name)) ∷ []))

  -- one round of the loop of `write_many`, with the ids that were touched
  unfoldable pub resolve_change :
      Snapshot F → PlanEnvelope F → Keys Text → WriteBatch F → Answer (Keys Text × WriteBatch F)
  resolve_change snapshot p touched b = do
    t ← plan_checked (ok_or (unknown_table_error p.table) (table p.table db))
    elim p.op [
      | PlanOp.upsert ↦ do
        r ← record_from_plan_value t.name p.value
        schema_checked (validate_record r db)
        id ← database_checked (plan_record_id r)
        touched' ← database_checked (ensure_untouched_id id touched)
        b' ← io_checked (push (append_put r) b)
        ok (touched', b')
      | PlanOp.patch ↦ do
        plan_checked (validate_patch_plan t p)
        row ← require_unique_row_in snapshot p
        id ← database_checked (plan_record_id row)
        touched' ← database_checked (ensure_untouched_id id touched)
        patched ← patched_row row p
        b' ← io_checked (push (append_put patched) b)
        ok (touched', b')
      | PlanOp.remove ↦ do
        row ← require_unique_row_in snapshot p
        id ← database_checked (plan_record_id row)
        touched' ← database_checked (ensure_untouched_id id touched)
        b' ← io_checked (push (append_delete (insert_id id (new_record t.name))) b)
        ok (touched', b')
      | _ ↦
          err (fault (DatabaseError.plan (invalid (codes "write_many only accepts state changes"))))
    ]

  -- the loop of `write_many`
  unfoldable pub resolve_changes :
      Snapshot F → List (PlanEnvelope F) → Keys Text → WriteBatch F → Answer (WriteBatch F)
  resolve_changes snapshot [] touched b = ok b
  resolve_changes snapshot (p ∷ ps) touched b = do
    next ← resolve_change snapshot p touched b
    resolve_changes snapshot ps next.0 next.1

  -- the resolver of `write_many`
  unfoldable pub resolve_many : Text → List (PlanEnvelope F) → Snapshot F → Answer (WriteBatch F)
  resolve_many name plans snapshot =
      resolve_changes snapshot plans empty (new_batch name WriteBatchMode.upsert)

  -- the loop of `insert_many`
  unfoldable pub check_records : Text → List (Record F) → Answer (Unit {0})
  check_records name [] = ok tt
  check_records name (r ∷ rs) = do
    plan_checked (
        ensure (same r.table name)
          (invalid (codes "insert_many records must all belong to the same table")))
    schema_checked (validate_record r db)
    check_records name rs

  -- the records of plans that all insert
  unfoldable pub inserted_records : List (PlanEnvelope F) → Answer (List (Record F))
  inserted_records [] = ok []
  inserted_records (p ∷ ps) = do
    t ← plan_checked (ok_or (unknown_table_error p.table) (table p.table db))
    r ← record_from_plan_value t.name p.value
    schema_checked (validate_record r db)
    rs ← inserted_records ps
    ok (r ∷ rs)
