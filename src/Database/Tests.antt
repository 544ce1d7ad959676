-- ===== src/Database/Tests.antt =====
-- A store that holds some rows of `users`, and the database's theorems on it.
use sixpack.Prelude.{take, ℕ, suc, [], ◌∷◌, List, some, none, ◌≡◌, refl, arith, length}
use sixpack.Prelude.Outcome.{ok, err, panic}
use sixpack.Prelude.Text.{Text, text_ord, codes, starts_with, contains}
use sixpack.Prelude.Order.{list_cmp}
use sixpack.Prelude.Map.{get, insert, contains_key}
use sixpack.Prelude.Decimal.{pos}
use sixpack.Core.Value.{Value, matches_value}
use sixpack.Core.Record.{Record, insert_field}
use sixpack.Core.Identifier.{ensure_public_field_name, is_schema_name}
use sixpack.Core.Schema.Database.{validate_record, check_present, check_values}
use sixpack.Core.Tests.{users, users_db, users_db-IsValid, ada, ada_id}
use sixpack.Format.Tests.{nat_float}
use sixpack.Store.Batch.{
  WriteBatch, WriteBatchMode, append_put, new_batch, push, push_all, upsert_batch,
}
use sixpack.Store.Page.{read_page}
use sixpack.Database.Plan.{PlanEnvelope, PlanOp, PlanOutcome, new_plan}
use sixpack.Database.Checks.{
  require_declared_lookup, max_plan_limit, checked_limit, validate_patch_plan, check_fields,
  plan_record_id, ensure_untouched_id, require_lookup_name, require_unique_lookup,
  require_lookup_key,
}
use sixpack.Database.Execute.{StoreCalls, execute_plan, execute_on, execute_count, get_many_by}
use sixpack.Database.Shape.{get_many_by-truncates}
use sixpack.Database.Request.{Answers, execute_plan-Answers}
use sixpack.Database.Resolve.{
  Snapshot, resolve_many, resolve_patch, resolve_changes, resolve_change, require_unique_row_in,
  optional_unique_row_in, patched_row, insert_fields,
}
use sixpack.Database.Resolve.Distinct.{IsResolved, resolve_many-IsResolved}
use sixpack.Database.Resolve.Patch.{IsPatched, resolve_patch-IsPatched}
use sixpack.Database.Pages.{scan_from, scan_from-all}

-- the rows are the state; every unique lookup finds `ada`, and no write goes through
abbrev row_store : StoreCalls ℕ (List (Record ℕ))
row_store = record {
  get_unique_lookup = λ db s name field key. ok (some ada);
  lookup_page = λ db name field key limit offset s. ok (read_page s limit offset);
  scan_page = λ db name limit offset s. ok (read_page s limit offset);
  count_lookup = λ db name field key s. ok (length s);
  count_table = λ db name s. ok (length s);
  resolve_and_append = λ db name resolver s. (s, err panic);
}

abbrev three_rows : List (Record ℕ)
three_rows = ada ∷ ada ∷ ada ∷ []

-- three rows in pages of two
scan_from-all_example :
    scan_from row_store users_db (suc (length three_rows)) (codes "users") 2 none three_rows
    ≡ (three_rows, ok three_rows)
scan_from-all_example =
    scan_from-all row_store users_db users (codes "users") 2 three_rows three_rows (λ offset. refl)
      users_db-IsValid.1 (unfold checked_limit in refl) (omega arith)

abbrev ada_snapshot : Snapshot ℕ
ada_snapshot = λ name field key. ok (some ada)

abbrev older : Value ℕ
older = Value.int (pos 37)

abbrev birthday : PlanEnvelope ℕ
birthday = record (new_plan PlanOp.patch (codes "users")) {
  lookup = some (codes "id");
  key = (codes "id", ada_id) ∷ [];
  value = (codes "age", older) ∷ [];
}

abbrev older_ada : Record ℕ
older_ada = record ada { fields = (codes "age", older) ∷ (codes "id", ada_id) ∷ [] }

abbrev older_batch : WriteBatch ℕ
older_batch = record (new_batch (codes "users") WriteBatchMode.upsert) {
  operations = append_put older_ada ∷ [];
}

birthday-valid : validate_patch_plan users birthday ≡ ok tt
unfolding validate_patch_plan contains_key get list_cmp check_fields
birthday-valid = refl

birthday-resolves : resolve_patch users_db users birthday ada_snapshot ≡ ok older_batch
unfolding resolve_patch upsert_batch push_all require_unique_row_in optional_unique_row_in get
    list_cmp require_lookup_name require_unique_lookup require_lookup_key patched_row insert_fields
    insert_field insert ensure_public_field_name starts_with is_schema_name contains contains_key
    validate_record check_present check_values matches_value push
birthday-resolves = refl

resolve_patch-IsPatched_example : IsPatched users_db users birthday ada_snapshot older_batch
resolve_patch-IsPatched_example =
    resolve_patch-IsPatched users_db users birthday ada_snapshot (tt, tt) birthday-valid
      birthday-resolves

birthdays-resolve :
    resolve_many users_db (codes "users") (birthday ∷ []) ada_snapshot ≡ ok older_batch
unfolding resolve_many resolve_changes resolve_change validate_patch_plan check_fields
    plan_record_id ensure_untouched_id require_unique_row_in optional_unique_row_in get list_cmp
    require_lookup_name require_unique_lookup require_lookup_key patched_row insert_fields
    insert_field insert ensure_public_field_name starts_with is_schema_name contains contains_key
    validate_record check_present check_values matches_value push
birthdays-resolve = refl

resolve_many-IsResolved_example :
    (ids : List Text) × IsResolved users_db (codes "users") ids older_batch
resolve_many-IsResolved_example =
    resolve_many-IsResolved users_db ada_snapshot (codes "users") (birthday ∷ []) ((tt, tt), tt)
      birthdays-resolve

abbrev count_users : PlanEnvelope ℕ
count_users = new_plan PlanOp.count (codes "users")

abbrev three : PlanOutcome ℕ
three = PlanOutcome.count 3

counted : execute_plan row_store users_db count_users three_rows ≡ (three_rows, ok three)
unfolding execute_plan execute_on execute_count get list_cmp
counted = refl

execute_plan-Answers_example : Answers PlanOp.count three
execute_plan-Answers_example =
    execute_plan-Answers row_store users_db count_users three_rows three_rows three counted

age-declared : require_declared_lookup users (codes "age") ≡ ok tt
unfolding require_declared_lookup get list_cmp
age-declared = refl

get_many_by-truncates_example :
    get_many_by row_store users_db (codes "users") (codes "age") (codes "36") three_rows
    ≡ (three_rows, ok (take max_plan_limit three_rows))
get_many_by-truncates_example =
    get_many_by-truncates row_store users_db users (codes "users") (codes "age") (codes "36")
      three_rows three_rows users_db-IsValid.1 age-declared (λ limit offset. refl)
