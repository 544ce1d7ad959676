-- ===== src/Database/Plan.antt =====
-- packages/sixpack/src/request.rs: the errors of the database and the envelope of a plan.
use sixpack.Prelude.{ℕ, List, Option, none, some}
use sixpack.Prelude.Text.{Text, text_ord}
use sixpack.Prelude.Map.{Map, empty, insert as insert_entry}
use sixpack.Core.Value.{Value}
use sixpack.Core.Error.{SchemaError}
use sixpack.Core.Record.{Record}
use sixpack.Store.Error.{IoError}
use sixpack.Store.Batch.{AppendResult}

pub data PlanError : Type 0 where
  invalid : Text → PlanError
  not_found : Text → PlanError

pub data DatabaseError : Type 0 where
  io : IoError → DatabaseError
  schema : SchemaError → DatabaseError
  plan : PlanError → DatabaseError

pub data PlanOp : Type 0 where
  insert upsert patch remove get find scan count : PlanOp

pub record PlanEnvelope (F : Type 0) : Type 0 where
  pub op : PlanOp
  pub table : Text
  pub lookup : Option Text
  pub key : Map Text (Value F)
  pub value : Map Text (Value F)
  pub limit : Option ℕ
  pub cursor : Option Text

module _ {F : Type 0} where
  -- `PlanEnvelope::new`
  abbrev pub new_plan : PlanOp → Text → PlanEnvelope F
  new_plan op table = record {
    op = op;
    table = table;
    lookup = none;
    key = empty;
    value = empty;
    limit = none;
    cursor = none;
  }

  abbrev pub with_lookup : Text → PlanEnvelope F → PlanEnvelope F
  with_lookup lookup p = record p { lookup = some lookup }

  abbrev pub with_key : Text → Value F → PlanEnvelope F → PlanEnvelope F
  with_key name value p = record p { key = insert_entry name value p.key }

  abbrev pub with_value : Text → Value F → PlanEnvelope F → PlanEnvelope F
  with_value name value p = record p { value = insert_entry name value p.value }

  abbrev pub with_record_value : Record F → PlanEnvelope F → PlanEnvelope F
  with_record_value r p = record p { value = r.fields }

  abbrev pub with_values : Map Text (Value F) → PlanEnvelope F → PlanEnvelope F
  with_values values p = record p { value = values }

  abbrev pub with_limit : ℕ → PlanEnvelope F → PlanEnvelope F
  with_limit limit p = record p { limit = some limit }

  abbrev pub with_cursor : Text → PlanEnvelope F → PlanEnvelope F
  with_cursor cursor p = record p { cursor = some cursor }

pub record PlanPage (F : Type 0) : Type 0 where
  pub rows : List (Record F)
  pub next_cursor : Option Text

pub data PlanOutcome (F : Type 0) : Type 0 where
  append : AppendResult → PlanOutcome F
  row : Option (Record F) → PlanOutcome F
  rows : PlanPage F → PlanOutcome F
  count : ℕ → PlanOutcome F
