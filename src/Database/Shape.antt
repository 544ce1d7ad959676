-- ===== src/Database/Shape.antt =====
-- The shape of a plan's outcome, on which the calls of packages/sixpack/src/database.rs rely where
-- they write `unreachable!`, and what `get_many_by` leaves out.
use sixpack.Prelude.{ℕ, List, some, ◌≡◌, refl, arith, Option-cases, inl, inr, take}
use sixpack.Prelude.Outcome.{ok}
use sixpack.Prelude.Text.{Text, text_ord}
use sixpack.Prelude.Map.{empty, get-insert_self}
use sixpack.Core.Value.{Value, FloatText}
use sixpack.Core.Record.{Record}
use sixpack.Core.Schema.Table.{TableSchema}
use sixpack.Core.Schema.Database.{DatabaseSchema, table}
use sixpack.Store.Page.{read_page}
use sixpack.Database.Plan.{PlanEnvelope, PlanOp, PlanOutcome}
use sixpack.Store.Keys.{value_to_lookup_key}
use sixpack.Database.Checks.{
  require_declared_lookup, require_lookup_name, require_lookup_key, checked_limit, checked_cursor,
  max_plan_limit,
}
use sixpack.Database.Execute.{
  StoreCalls, execute_plan, execute_on, execute_find, execute_scan, execute_count, get_many_by,
}

pub data Kind : Type 0 where
  an_append a_row a_page a_count : Kind

-- what a plan of each operation answers
abbrev pub kind_of : PlanOp → Kind
kind_of PlanOp.insert = an_append
kind_of PlanOp.upsert = an_append
kind_of PlanOp.patch = an_append
kind_of PlanOp.remove = an_append
kind_of PlanOp.get = a_row
kind_of PlanOp.find = a_page
kind_of PlanOp.scan = a_page
kind_of PlanOp.count = a_count

abbrev pub kind : {F : Type 0} → PlanOutcome F → Kind
kind (PlanOutcome.append result) = an_append
kind (PlanOutcome.row row) = a_row
kind (PlanOutcome.rows page) = a_page
kind (PlanOutcome.count n) = a_count

module _ {F S : Type 0} ⦃float : FloatText F⦄ (store : StoreCalls F S) (db : DatabaseSchema) where
  find-kind :
      (t : TableSchema) (p : PlanEnvelope F) (s s' : S) (o : PlanOutcome F)
      → execute_find store db t p s ≡ (s', ok o)
      → kind o ≡ a_page
  unfolding execute_find
  find-kind t p s s' o h = ground arith

  scan-kind :
      (t : TableSchema) (p : PlanEnvelope F) (s s' : S) (o : PlanOutcome F)
      → execute_scan store db t p s ≡ (s', ok o)
      → kind o ≡ a_page
  unfolding execute_scan
  scan-kind t p s s' o h = ground arith

  count-kind :
      (t : TableSchema) (p : PlanEnvelope F) (s s' : S) (o : PlanOutcome F)
      → execute_count store db t p s ≡ (s', ok o)
      → kind o ≡ a_count
  unfolding execute_count
  count-kind t p s s' o h = ground arith

  on-kind :
      (t : TableSchema) (p : PlanEnvelope F) (op : PlanOp) (s s' : S) (o : PlanOutcome F)
      → p.op ≡ op
      → execute_on store db t p s ≡ (s', ok o)
      → kind o ≡ kind_of op
  unfolding execute_on
  on-kind t p PlanOp.insert s s' o e h = ground arith
  on-kind t p PlanOp.upsert s s' o e h = ground arith
  on-kind t p PlanOp.patch s s' o e h = ground arith
  on-kind t p PlanOp.remove s s' o e h = ground arith
  on-kind t p PlanOp.get s s' o e h = ground arith
  on-kind t p PlanOp.find s s' o e h = find-kind t p s s' o (ground arith)
  on-kind t p PlanOp.scan s s' o e h = scan-kind t p s s' o (ground arith)
  on-kind t p PlanOp.count s s' o e h = count-kind t p s s' o (ground arith)

  -- Whatever the store answers, a plan that succeeds has an outcome of the kind that its operation
  -- names: appends for the four writes, a row for a get, a page for a find or a scan, a number for
  -- a count. The calls that take an outcome apart never meet another one.
  pub execute_plan-kind :
      (p : PlanEnvelope F) (s s' : S) (o : PlanOutcome F)
      → execute_plan store db p s ≡ (s', ok o)
      → kind o ≡ kind_of p.op
  unfolding execute_plan
  execute_plan-kind p s s' o h = elim (Option-cases (table p.table db)) [
    | inl e ↦ absurd (ground arith)
    | inr (t, e) ↦ on-kind t p p.op s s' o refl (ground arith)
  ]

  -- Let a lookup be declared for a known table, and let the store serve the pages of the rows that
  -- have a key in it. `get_many_by` returns the first thousand of them, without an error or a cursor
  -- when there are more.
  pub get_many_by-truncates :
      (t : TableSchema) (name field key : Text) (s : S) (rows : List (Record F))
      → table name db ≡ some t
      → require_declared_lookup t field ≡ ok tt
      → ((limit offset : ℕ)
          → store.lookup_page db t.name field key limit offset s ≡ ok (read_page rows limit offset))
      → get_many_by store db name field key s ≡ (s, ok (take max_plan_limit rows))
  unfolding get_many_by execute_plan execute_on execute_find require_lookup_name require_lookup_key
      checked_limit checked_cursor value_to_lookup_key read_page
  get_many_by-truncates t name field key s rows known declared serves =
      let wanted : Value F = Value.text key in
      rw (known, declared, get-insert_self field wanted (empty {V = Value F}), serves 1000 0) refl
