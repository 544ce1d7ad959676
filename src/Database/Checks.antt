-- ===== src/Database/Checks.antt =====
-- packages/sixpack/src/database.rs: the checks of a plan before the store is called.
use sixpack.Prelude.{
  ℕ, ◌+◌, List, [], ◌∷◌, ◌++◌, Bool, true, false, not, Option, none, some, if◌then◌else◌, ltb, ◌==◌,
  ◌||◌, is_some, min,
}
use sixpack.Prelude.Outcome.{Outcome, ok, err, ◌>>=◌, ◌>>◌, ok_or, ensure}
use sixpack.Prelude.Order.{same}
use sixpack.Prelude.Text.{Text, text_ord, codes, is_empty}
use sixpack.Prelude.Decimal.{print_nat, parse_nat, u64_max}
use sixpack.Prelude.Map.{Map, Keys, get, contains_key, insert, keys}
use sixpack.Core.Value.{Value, FloatText, value_type, type_name}
use sixpack.Core.Record.{Record}
use sixpack.Core.Schema.Table.{TableSchema, field, lookup}
use sixpack.Store.Error.{io_error, ErrorKind}
use sixpack.Store.Keys.{value_to_lookup_key}
use sixpack.Database.Plan.{PlanError, DatabaseError, PlanEnvelope, invalid}

abbrev pub default_plan_limit : ℕ
default_plan_limit = 100

abbrev pub max_plan_limit : ℕ
max_plan_limit = 1000

abbrev pub limit_or_default : Option ℕ → ℕ
limit_or_default none = default_plan_limit
limit_or_default (some limit) = limit

unfoldable pub checked_limit : Option ℕ → Outcome PlanError ℕ
checked_limit asked =
    let limit = limit_or_default asked in
    if limit == 0 || ltb max_plan_limit limit
    then err (invalid (codes "limit must be between 1 and 1000"))
    else ok limit

-- `parse::<usize>`; the source adds the parser's own error to the message
unfoldable pub checked_cursor : Option Text → Outcome PlanError ℕ
checked_cursor none = ok 0
checked_cursor (some value) =
    if is_empty value
    then ok 0
    else ok_or (invalid (codes "invalid cursor")) (parse_nat u64_max value)

-- `usize::saturating_add` of 64 bits
abbrev pub saturating_add : ℕ → ℕ → ℕ
saturating_add a b = min (a + b) u64_max

unfoldable pub next_cursor : ℕ → ℕ → ℕ → Option Text
next_cursor offset limit total =
    let next = saturating_add offset limit in if ltb next total then some (print_nat next) else none

abbrev pub unknown_field_message : Text → Text → Text
unknown_field_message name table =
    codes "unknown field `" ++ (name ++ (codes "` for table `" ++ (table ++ codes "`")))

-- the loop of `validate_patch_plan`
unfoldable pub check_fields : TableSchema → List Text → Outcome PlanError (Unit {0})
check_fields t [] = ok tt
check_fields t (name ∷ names) =
    if is_some (field name t)
    then check_fields t names
    else err (invalid (unknown_field_message name t.name))

abbrev is_empty_map : {V : Type 0} → Map Text V → Bool
is_empty_map [] = true
is_empty_map (e ∷ m) = false

abbrev pub unknown_lookup_message : Text → Text → Text
unknown_lookup_message lookup table =
    codes "unknown lookup `" ++ (lookup ++ (codes "` for table `" ++ (table ++ codes "`")))

unfoldable pub require_unique_lookup : TableSchema → Text → Outcome PlanError (Unit {0})
require_unique_lookup t name = if same name (codes "id") then ok tt else do
  spec ← ok_or (invalid (unknown_lookup_message name t.name)) (lookup name t)
  ensure spec.unique (
      invalid (
        codes "lookup `"
        ++ (name ++ (codes "` for table `" ++ (t.name ++ codes "` is not unique")))))

unfoldable pub require_declared_lookup : TableSchema → Text → Outcome PlanError (Unit {0})
require_declared_lookup t name =
    if same name (codes "id") || is_some (lookup name t)
    then ok tt
    else err (invalid (unknown_lookup_message name t.name))

unfoldable pub ensure_untouched_id : Text → Keys Text → Outcome DatabaseError (Keys Text)
ensure_untouched_id id touched =
    if contains_key id touched
    then err (
        DatabaseError.plan
          (invalid (codes "write_many touches row `" ++ (id ++ codes "` more than once"))))
    else ok (insert id tt touched)

module _ {F : Type 0} ⦃float : FloatText F⦄ where
  unfoldable pub validate_patch_plan : TableSchema → PlanEnvelope F → Outcome PlanError (Unit {0})
  validate_patch_plan t p = do
    ensure (not (is_empty_map p.value)) (invalid (codes "patch value cannot be empty"))
    ensure (not (contains_key (codes "id") p.value)) (invalid (codes "patch cannot change id"))
    check_fields t (keys p.value)

  unfoldable pub require_lookup_name : PlanEnvelope F → Outcome PlanError Text
  require_lookup_name p = ok_or (invalid (codes "plan missing lookup")) p.lookup

  unfoldable pub require_lookup_key : PlanEnvelope F → Text → Outcome PlanError Text
  require_lookup_key p name = do
    value ← ok_or (invalid (codes "plan missing key `" ++ (name ++ codes "`"))) (get name p.key)
    ok (value_to_lookup_key value)

  -- `record_id` of database.rs, which takes no number and no Boolean for an id
  unfoldable pub plan_record_id : Record F → Outcome DatabaseError Text
  plan_record_id r = elim (get (codes "id") r.fields) [
    | none ↦ err (DatabaseError.io (io_error ErrorKind.invalid_input (codes "record missing id")))
    | some (Value.id v) ↦ ok v
    | some (Value.text v) ↦ ok v
    | some v ↦ err (
        DatabaseError.io (
          io_error ErrorKind.invalid_input
            (codes "record id must be id/text, got " ++ type_name (value_type v))))
  ]
