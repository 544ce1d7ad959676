-- ===== src/Database/Execute.antt =====
-- packages/sixpack/src/database.rs: `execute_plan`, `write_many`, `insert_many` and the calls that
-- stand on them, over the operations of a store.
use sixpack.Prelude.{
  ℕ, List, [], ◌∷◌, Bool, true, false, not, Option, none, some, any, all, if◌then◌else◌,
}
use sixpack.Prelude.Outcome.{Outcome, ok, err, panic, fault, ok_or}
use sixpack.Prelude.Order.{same}
use sixpack.Prelude.Text.{Text, text_ord, codes}
use sixpack.Prelude.Map.{Map}
use sixpack.Core.Value.{Value, FloatText}
use sixpack.Core.Record.{Record, new_record, insert_id}
use sixpack.Core.Schema.Table.{TableSchema}
use sixpack.Core.Schema.Database.{DatabaseSchema, table, validate_record}
use sixpack.Format.Operation.{Operation}
use sixpack.Store.Error.{IoError, io_error, ErrorKind}
use sixpack.Store.Batch.{WriteBatch, AppendResult, upsert_batch, insert_only_batch}
use sixpack.Store.Page.{ReadPage}
use sixpack.Database.Plan.{
  PlanEnvelope, PlanPage, PlanOutcome, PlanOp, DatabaseError, invalid, new_plan, with_lookup,
  with_key, with_limit, with_values,
}
use sixpack.Database.Checks.{
  checked_limit, checked_cursor, next_cursor, require_lookup_name, require_lookup_key,
  require_declared_lookup, validate_patch_plan, plan_record_id, max_plan_limit,
}
use sixpack.Database.Action.{
  Answer, Action, ◌>>=◌, ◌>>◌, pure_step, plan_checked, io_checked, database_checked,
  schema_checked,
}
use sixpack.Database.Resolve.{
  Snapshot, unknown_table_error, record_from_plan_value, optional_unique_row_in, resolve_patch,
  resolve_remove, resolve_many, check_records, inserted_records,
}

-- The operations of `LocalStore` that the database calls. Reads see one state of the store.
pub record StoreCalls (F S : Type 0) : Type 0 where
  pub get_unique_lookup : DatabaseSchema → S → Snapshot F
  pub lookup_page :
      DatabaseSchema → Text → Text → Text → ℕ → ℕ → S → Outcome IoError (ReadPage (Record F))
  pub scan_page : DatabaseSchema → Text → ℕ → ℕ → S → Outcome IoError (ReadPage (Record F))
  pub count_lookup : DatabaseSchema → Text → Text → Text → S → Outcome IoError ℕ
  pub count_table : DatabaseSchema → Text → S → Outcome IoError ℕ
  pub resolve_and_append :
      DatabaseSchema → Text → (Snapshot F → Answer (WriteBatch F)) → Action S (List AppendResult)

abbrev is_op : PlanOp → PlanOp → Bool
is_op PlanOp.insert PlanOp.insert = true
is_op p q = false

-- `results.pop()`
abbrev pub last_result : List AppendResult → Option AppendResult
last_result [] = none
last_result (r ∷ []) = some r
last_result (r ∷ q ∷ rs) = last_result (q ∷ rs)

abbrev one_append_result : List AppendResult → Answer AppendResult
one_append_result results = io_checked (
    ok_or
      (io_error ErrorKind.invalid_data (codes "single-operation batch produced no append result"))
      (last_result results))

unfoldable pub one_database_append_result : List AppendResult → Answer AppendResult
one_database_append_result results =
    plan_checked
      (ok_or (invalid (codes "single write produced no append result")) (last_result results))

module _ {F S : Type 0} ⦃float : FloatText F⦄ (store : StoreCalls F S) (db : DatabaseSchema) where
  -- `LocalStore::append_batch` of packages/sixpack-store/src/store/write.rs
  unfoldable pub append_batch : WriteBatch F → Action S (List AppendResult)
  append_batch b = elim b.operations [
    | [] ↦ pure_step (ok [])
    | operation ∷ operations ↦ store.resolve_and_append db b.table (λ snapshot. ok b)
  ]

  -- `LocalStore::append`
  unfoldable pub append : Operation → Record F → Action S AppendResult
  append operation r = do
    b ←
        pure_step
          (io_checked (upsert_batch r.table (record { operation = operation; record_ = r } ∷ [])))
    results ← append_batch b
    pure_step (one_append_result results)

  -- `LocalStore::append_insert`
  unfoldable pub append_insert : Record F → Action S AppendResult
  append_insert r = do
    b ← pure_step (io_checked (insert_only_batch r.table (r ∷ [])))
    results ← append_batch b
    pure_step (one_append_result results)

  -- `LocalStore::append_insert_many`
  unfoldable pub append_insert_many : List (Record F) → Action S (List AppendResult)
  append_insert_many [] = pure_step (ok [])
  append_insert_many (first ∷ rest) = do
    b ← pure_step (io_checked (insert_only_batch first.table (first ∷ rest)))
    append_batch b

  -- `LocalStore::append_delete_id`
  unfoldable pub append_delete_id : Text → Text → Action S AppendResult
  append_delete_id name id = do
    t ← pure_step (
        io_checked
          (ok_or (io_error ErrorKind.invalid_input (codes "unknown table")) (table name db)))
    append Operation.delete (insert_id id (new_record t.name))

  -- `PlanOutcome::Rows` of a page
  abbrev page_outcome : ℕ → ℕ → ReadPage (Record F) → PlanOutcome F
  page_outcome cursor limit page =
      PlanOutcome.rows
        (record { rows = page.rows; next_cursor = next_cursor cursor limit page.total })

  unfoldable pub execute_find : TableSchema → PlanEnvelope F → Action S (PlanOutcome F)
  execute_find t p = do
    lookup ← pure_step (plan_checked (require_lookup_name p))
    pure_step (plan_checked (require_declared_lookup t lookup))
    key ← pure_step (plan_checked (require_lookup_key p lookup))
    limit ← pure_step (plan_checked (checked_limit p.limit))
    cursor ← pure_step (plan_checked (checked_cursor p.cursor))
    page ← λ s. pure_step (io_checked (store.lookup_page db t.name lookup key limit cursor s)) s
    pure_step (ok (page_outcome cursor limit page))

  unfoldable pub execute_scan : TableSchema → PlanEnvelope F → Action S (PlanOutcome F)
  execute_scan t p = do
    limit ← pure_step (plan_checked (checked_limit p.limit))
    cursor ← pure_step (plan_checked (checked_cursor p.cursor))
    page ← λ s. pure_step (io_checked (store.scan_page db t.name limit cursor s)) s
    pure_step (ok (page_outcome cursor limit page))

  unfoldable pub execute_count : TableSchema → PlanEnvelope F → Action S (PlanOutcome F)
  execute_count t p = elim p.lookup [
    | none ↦ do
      n ← λ s. pure_step (io_checked (store.count_table db t.name s)) s
      pure_step (ok (PlanOutcome.count n))
    | some lookup ↦ do
      pure_step (plan_checked (require_declared_lookup t lookup))
      key ← pure_step (plan_checked (require_lookup_key p lookup))
      n ← λ s. pure_step (io_checked (store.count_lookup db t.name lookup key s)) s
      pure_step (ok (PlanOutcome.count n))
  ]

  -- one write that a resolver makes from the snapshot
  abbrev resolved : TableSchema → (Snapshot F → Answer (WriteBatch F)) → Action S (PlanOutcome F)
  resolved t resolver = do
    results ← store.resolve_and_append db t.name resolver
    result ← pure_step (one_database_append_result results)
    pure_step (ok (PlanOutcome.append result))

  -- the record of an insert or an upsert
  abbrev planned_record : TableSchema → PlanEnvelope F → Action S (Record F)
  planned_record t p = do
    r ← pure_step (record_from_plan_value t.name p.value)
    pure_step (schema_checked (validate_record r db))
    pure_step (ok r)

  -- the match of `execute_plan`
  unfoldable pub execute_on : TableSchema → PlanEnvelope F → Action S (PlanOutcome F)
  execute_on t p = elim p.op [
    | PlanOp.insert ↦ do
      r ← planned_record t p
      result ← append_insert r
      pure_step (ok (PlanOutcome.append result))
    | PlanOp.upsert ↦ do
      r ← planned_record t p
      result ← append Operation.put r
      pure_step (ok (PlanOutcome.append result))
    | PlanOp.patch ↦ do
      pure_step (plan_checked (validate_patch_plan t p))
      resolved t (resolve_patch db t p)
    | PlanOp.remove ↦ resolved t (resolve_remove db t p)
    | PlanOp.get ↦ do
      row ← λ s. pure_step (optional_unique_row_in db (store.get_unique_lookup db s) p) s
      pure_step (ok (PlanOutcome.row row))
    | PlanOp.find ↦ execute_find t p
    | PlanOp.scan ↦ execute_scan t p
    | PlanOp.count ↦ execute_count t p
  ]

  unfoldable pub execute_plan : PlanEnvelope F → Action S (PlanOutcome F)
  execute_plan p = do
    t ← pure_step (plan_checked (ok_or (unknown_table_error p.table) (table p.table db)))
    execute_on t p

  unfoldable pub insert_many : List (Record F) → Action S (List AppendResult)
  insert_many [] = pure_step (ok [])
  insert_many (first ∷ rest) = do
    pure_step (check_records db first.table (first ∷ rest))
    append_insert_many (first ∷ rest)

  unfoldable pub write_many : List (PlanEnvelope F) → Action S (List AppendResult)
  write_many [] = pure_step (ok [])
  write_many (first ∷ rest) =
      let plans = first ∷ rest in
      let inserts = λ (p : PlanEnvelope F). is_op p.op PlanOp.insert in
      if any (λ p. not (same p.table first.table)) plans
      then pure_step (
          err (
            fault (
              DatabaseError.plan
                (invalid (codes "write_many changes must all belong to the same table")))))
      else if all inserts plans
      then (pure_step (inserted_records db plans) >>= insert_many)
      else if any inserts plans
      then pure_step (
          err (
            fault (
              DatabaseError.plan (
                invalid (
                  codes
                    "write_many insert changes cannot be mixed with other changes; use insert_many")))))
      else store.resolve_and_append db first.table (resolve_many db first.table plans)

  unfoldable pub delete_by_id : Text → Text → Action S AppendResult
  delete_by_id = append_delete_id

  unfoldable pub delete : Record F → Action S AppendResult
  delete r = do id ← pure_step (database_checked (plan_record_id r)); delete_by_id r.table id

  unfoldable pub apply : Operation → Record F → Action S AppendResult
  apply operation r = do pure_step (schema_checked (validate_record r db)); append operation r

  -- an answer of the wrong shape is `unreachable!`
  unfoldable pub get_by : Text → Text → Text → Action S (Option (Record F))
  get_by name field key = do
    outcome ←
        execute_plan
          (with_key field (Value.text key) (with_lookup field (new_plan PlanOp.get name)))
    elim outcome [ PlanOutcome.row row ↦ pure_step (ok row) | _ ↦ pure_step (err panic) ]

  unfoldable pub get_many_by : Text → Text → Text → Action S (List (Record F))
  get_many_by name field key = do
    outcome ← execute_plan (
        with_limit max_plan_limit
          (with_key field (Value.text key) (with_lookup field (new_plan PlanOp.find name))))
    elim outcome [ PlanOutcome.rows page ↦ pure_step (ok page.rows) | _ ↦ pure_step (err panic) ]

  unfoldable pub get_page_by : Text → Text → Text → ℕ → Option Text → Action S (PlanPage F)
  get_page_by name field key limit cursor = do
    outcome ←
        execute_plan
          (record (with_limit limit
            (with_key field (Value.text key) (with_lookup field (new_plan PlanOp.find name)))) {
              cursor = cursor;
            })
    elim outcome [ PlanOutcome.rows page ↦ pure_step (ok page) | _ ↦ pure_step (err panic) ]

  unfoldable pub patch_by_id : Text → Text → Map Text (Value F) → Action S AppendResult
  patch_by_id name id patch = do
    outcome ← execute_plan (
        with_values patch (
          with_key (codes "id") (Value.id id)
            (with_lookup (codes "id") (new_plan PlanOp.patch name))))
    elim outcome [ PlanOutcome.append result ↦ pure_step (ok result) | _ ↦ pure_step (err panic) ]

  unfoldable pub scan : Text → Option ℕ → Option Text → Action S (PlanPage F)
  scan name limit cursor = do
    outcome ← execute_plan (record (new_plan PlanOp.scan name) { limit = limit; cursor = cursor })
    elim outcome [ PlanOutcome.rows page ↦ pure_step (ok page) | _ ↦ pure_step (err panic) ]

  unfoldable pub count : Text → Action S ℕ
  count name = do
    outcome ← execute_plan (new_plan PlanOp.count name)
    elim outcome [ PlanOutcome.count n ↦ pure_step (ok n) | _ ↦ pure_step (err panic) ]
