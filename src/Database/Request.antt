-- ===== src/Database/Request.antt =====
-- The typed requests of packages/sixpack/src/request.rs: `GetOne`, `GetMany`, `GetPage`, `GetCount`
-- and `WriteChange`. A request is its plan; `from_outcome` takes the answer out of the outcome.
use sixpack.Prelude.{ℕ, List, Option, ◌≡◌, refl}
use sixpack.Prelude.Outcome.{Outcome, ok, err}
use sixpack.Prelude.Text.{Text, codes}
use sixpack.Prelude.Map.{Map}
use sixpack.Core.Value.{Value, FloatText}
use sixpack.Core.Record.{Record}
use sixpack.Core.Schema.Database.{DatabaseSchema}
use sixpack.Store.Batch.{AppendResult}
use sixpack.Database.Plan.{
  PlanEnvelope, PlanOp, PlanOutcome, PlanPage, PlanError, invalid, new_plan, with_lookup, with_key,
  with_limit, with_values, with_record_value,
}
use sixpack.Database.Checks.{max_plan_limit}
use sixpack.Database.Execute.{StoreCalls, execute_plan}
use sixpack.Database.Shape.{Kind, kind, kind_of, execute_plan-kind}

-- the answer is in the outcome
abbrev pub Holds : {A : Type 0} → Outcome PlanError A → Type 0
Holds {A = A} o = (a : A) × (o ≡ ok a)

module _ {F : Type 0} where
  -- a plan that addresses rows by one lookup
  abbrev by_lookup : PlanOp → Text → Text → Value F → PlanEnvelope F
  by_lookup op table lookup value = with_key lookup value (with_lookup lookup (new_plan op table))

  unfoldable pub get_one : Text → Text → Value F → PlanEnvelope F
  get_one = by_lookup PlanOp.get

  unfoldable pub get_many : Text → Text → Value F → PlanEnvelope F
  get_many table lookup value = with_limit max_plan_limit (by_lookup PlanOp.find table lookup value)

  unfoldable pub get_page : Text → PlanEnvelope F
  get_page = new_plan PlanOp.scan

  unfoldable pub get_count_table : Text → PlanEnvelope F
  get_count_table = new_plan PlanOp.count

  unfoldable pub get_count_lookup : Text → Text → Value F → PlanEnvelope F
  get_count_lookup = by_lookup PlanOp.count

  unfoldable pub add_record : Record F → PlanEnvelope F
  add_record r = with_record_value r (new_plan PlanOp.insert r.table)

  unfoldable pub set_record : Record F → PlanEnvelope F
  set_record r = with_record_value r (new_plan PlanOp.upsert r.table)

  unfoldable pub edit : Text → Text → Value F → Map Text (Value F) → PlanEnvelope F
  edit table lookup key value = with_values value (by_lookup PlanOp.patch table lookup key)

  unfoldable pub remove : Text → Text → Value F → PlanEnvelope F
  remove = by_lookup PlanOp.remove

  -- `GetOne::from_outcome`
  unfoldable pub row_of : PlanOutcome F → Outcome PlanError (Option (Record F))
  row_of (PlanOutcome.row row) = ok row
  row_of o = err (invalid (codes "get selector returned non-row outcome"))

  -- `GetMany::from_outcome`
  unfoldable pub rows_of : PlanOutcome F → Outcome PlanError (List (Record F))
  rows_of (PlanOutcome.rows page) = ok page.rows
  rows_of o = err (invalid (codes "get selector returned non-rows outcome"))

  -- `GetPage::from_outcome`
  unfoldable pub page_of : PlanOutcome F → Outcome PlanError (PlanPage F)
  page_of (PlanOutcome.rows page) = ok page
  page_of o = err (invalid (codes "get selector returned non-page outcome"))

  -- `GetCount::from_outcome`
  unfoldable pub count_of : PlanOutcome F → Outcome PlanError ℕ
  count_of (PlanOutcome.count n) = ok n
  count_of o = err (invalid (codes "get selector returned non-count outcome"))

  -- `WriteChange::from_outcome`
  unfoldable pub append_of : PlanOutcome F → Outcome PlanError AppendResult
  append_of (PlanOutcome.append result) = ok result
  append_of o = err (invalid (codes "write change returned non-append outcome"))

  -- for each operation, whether its requests find their answer in the outcome
  abbrev pub Answers : PlanOp → PlanOutcome F → Type 0
  Answers PlanOp.insert o = Holds (append_of o)
  Answers PlanOp.upsert o = Holds (append_of o)
  Answers PlanOp.patch o = Holds (append_of o)
  Answers PlanOp.remove o = Holds (append_of o)
  Answers PlanOp.get o = Holds (row_of o)
  Answers PlanOp.find o = Holds (rows_of o) × Holds (page_of o)
  Answers PlanOp.scan o = Holds (page_of o)
  Answers PlanOp.count o = Holds (count_of o)

  Holds-append_of : (o : PlanOutcome F) → kind o ≡ Kind.an_append → Holds (append_of o)
  unfolding append_of
  Holds-append_of (PlanOutcome.append result) h = (_, refl)
  Holds-append_of (PlanOutcome.row row) h = absurd (cc)
  Holds-append_of (PlanOutcome.rows page) h = absurd (cc)
  Holds-append_of (PlanOutcome.count n) h = absurd (cc)

  Holds-row_of : (o : PlanOutcome F) → kind o ≡ Kind.a_row → Holds (row_of o)
  unfolding row_of
  Holds-row_of (PlanOutcome.append result) h = absurd (cc)
  Holds-row_of (PlanOutcome.row row) h = (_, refl)
  Holds-row_of (PlanOutcome.rows page) h = absurd (cc)
  Holds-row_of (PlanOutcome.count n) h = absurd (cc)

  Holds-rows_of : (o : PlanOutcome F) → kind o ≡ Kind.a_page → Holds (rows_of o)
  unfolding rows_of
  Holds-rows_of (PlanOutcome.append result) h = absurd (cc)
  Holds-rows_of (PlanOutcome.row row) h = absurd (cc)
  Holds-rows_of (PlanOutcome.rows page) h = (_, refl)
  Holds-rows_of (PlanOutcome.count n) h = absurd (cc)

  Holds-page_of : (o : PlanOutcome F) → kind o ≡ Kind.a_page → Holds (page_of o)
  unfolding page_of
  Holds-page_of (PlanOutcome.append result) h = absurd (cc)
  Holds-page_of (PlanOutcome.row row) h = absurd (cc)
  Holds-page_of (PlanOutcome.rows page) h = (_, refl)
  Holds-page_of (PlanOutcome.count n) h = absurd (cc)

  Holds-count_of : (o : PlanOutcome F) → kind o ≡ Kind.a_count → Holds (count_of o)
  unfolding count_of
  Holds-count_of (PlanOutcome.append result) h = absurd (cc)
  Holds-count_of (PlanOutcome.row row) h = absurd (cc)
  Holds-count_of (PlanOutcome.rows page) h = absurd (cc)
  Holds-count_of (PlanOutcome.count n) h = (_, refl)

  kind-Answers : (op : PlanOp) (o : PlanOutcome F) → kind o ≡ kind_of op → Answers op o
  kind-Answers PlanOp.insert o h = Holds-append_of o h
  kind-Answers PlanOp.upsert o h = Holds-append_of o h
  kind-Answers PlanOp.patch o h = Holds-append_of o h
  kind-Answers PlanOp.remove o h = Holds-append_of o h
  kind-Answers PlanOp.get o h = Holds-row_of o h
  kind-Answers PlanOp.find o h = (Holds-rows_of o h, Holds-page_of o h)
  kind-Answers PlanOp.scan o h = Holds-page_of o h
  kind-Answers PlanOp.count o h = Holds-count_of o h

-- Whatever the store answers: when the plan of a request succeeds, the request finds its answer in
-- the outcome. An append for the four writes, a row for a get, the rows of a page for a find, a page
-- for a find and a scan, and a number for a count; the errors about an outcome of another shape and
-- the `unreachable!` of the calls that take an outcome apart do not arise.
pub execute_plan-Answers :
    {F S : Type 0} ⦃float : FloatText F⦄ (store : StoreCalls F S) (db : DatabaseSchema)
    (p : PlanEnvelope F) (s s' : S) (o : PlanOutcome F)
    → execute_plan store db p s ≡ (s', ok o)
    → Answers p.op o
execute_plan-Answers store db p s s' o h =
    kind-Answers p.op o (execute_plan-kind store db p s s' o h)
