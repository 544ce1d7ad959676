-- ===== src/Database/Action.antt =====
-- What a call of the database returns, and the calls that change the store: the store is passed
-- on, also when the call fails.
use sixpack.Prelude.Outcome.{Outcome, ok, err, Fault, panic, fault, map_err}
use sixpack.Core.Error.{SchemaError}
use sixpack.Store.Error.{IoError}
use sixpack.Database.Plan.{PlanError, DatabaseError}

abbrev pub Answer : Type 0 → Type 0
Answer A = Outcome (Fault DatabaseError) A

-- the conversions `From` of request.rs that `?` applies
abbrev pub plan_checked : {A : Type 0} → Outcome PlanError A → Answer A
plan_checked = map_err (λ e. fault (DatabaseError.plan e))

abbrev pub io_checked : {A : Type 0} → Outcome IoError A → Answer A
io_checked = map_err (λ e. fault (DatabaseError.io e))

abbrev pub database_checked : {A : Type 0} → Outcome DatabaseError A → Answer A
database_checked = map_err fault

abbrev schema_fault : Fault SchemaError → Fault DatabaseError
schema_fault panic = panic
schema_fault (fault e) = fault (DatabaseError.schema e)

abbrev pub schema_checked : {A : Type 0} → Outcome (Fault SchemaError) A → Answer A
schema_checked = map_err schema_fault

abbrev pub Action : Type 0 → Type 0 → Type 0
Action S A = S → S × Answer A

module _ {S : Type 0} {A B : Type 0} where
  abbrev continue : (A → Action S B) → S × Answer A → S × Answer B
  continue next (s, err e) = (s, err e)
  continue next (s, ok a) = next a s

  infixl 5 ◌>>=◌
  abbrev pub ◌>>=◌ : Action S A → (A → Action S B) → Action S B
  (call >>= next) s = continue next (call s)

  infixl 5 ◌>>◌
  abbrev pub ◌>>◌ : Action S A → Action S B → Action S B
  call >> after = call >>= λ _. after

-- a step that leaves the store alone
abbrev pub pure_step : {S A : Type 0} → Answer A → Action S A
pure_step a s = (s, a)
