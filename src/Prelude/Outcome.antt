-- ===== src/Prelude/Outcome.antt =====
-- A fallible call: Rust's `Result<A, E>` with its `?` operator as bind.
use mathlib.Core.Path.{◌≡◌, refl}
use mathlib.Core.Logic.{◌⊎◌, inl, inr}
use mathlib.Core.Option.{Option, none, some}
use mathlib.Core.Bool.{Bool, true, false}

pub data Outcome {ℓ κ} (E : Type ℓ) (A : Type κ) : Type (ℓ ⊔ κ) where
  ok : A → Outcome E A
  err : E → Outcome E A

module _ {ℓ κ μ} {E : Type ℓ} {A : Type κ} {B : Type μ} where
  infixl 5 ◌>>=◌
  abbrev pub ◌>>=◌ : Outcome E A → (A → Outcome E B) → Outcome E B
  err stopped >>= next = err stopped
  ok found >>= next = next found

  infixl 5 ◌>>◌
  abbrev pub ◌>>◌ : Outcome E A → Outcome E B → Outcome E B
  call >> after = call >>= λ _. after

  -- inversion of a successful `?`
  pub >>=-eq-ok :
      (call : Outcome E A) (next : A → Outcome E B) {b : B}
      → (call >>= next) ≡ ok b
      → (found : A) × (call ≡ ok found) × (next found ≡ ok b)
  >>=-eq-ok (err stopped) next h = cc
  >>=-eq-ok (ok found) next h = (found, refl, h)

-- the last step of a chain that only returns
pub >>=-ok {ℓ κ} : {E : Type ℓ} {A : Type κ} (call : Outcome E A) → (call >>= λ a. ok a) ≡ call
>>=-ok (err stopped) = refl
>>=-ok (ok found) = refl

-- `Option::ok_or_else`
abbrev pub ok_or {ℓ κ} : {E : Type ℓ} {A : Type κ} → E → Option A → Outcome E A
ok_or e none = err e
ok_or e (some a) = ok a

-- `Result::map_err`
abbrev pub map_err {ℓ κ μ} :
    {E : Type ℓ} {F : Type κ} {A : Type μ} → (E → F) → Outcome E A → Outcome F A
map_err f (ok a) = ok a
map_err f (err e) = err (f e)

-- `expect` on a `None` panics.
pub data Panic : Type 0 where
  panicked : Panic

-- a call that may panic, and may return an error
pub data Fault {ℓ} (E : Type ℓ) : Type ℓ where
  panic : Fault E
  fault : E → Fault E

abbrev pub expect {ℓ} : {A : Type ℓ} → Option A → Outcome Panic A
expect = ok_or panicked

abbrev pub may_panic {ℓ κ} : {E : Type ℓ} {A : Type κ} → Outcome Panic A → Outcome (Fault E) A
may_panic = map_err (λ p. panic)

abbrev pub may_fail {ℓ κ} : {E : Type ℓ} {A : Type κ} → Outcome E A → Outcome (Fault E) A
may_fail = map_err fault

-- `if !test { return Err(e) }`
abbrev pub ensure {ℓ} : {E : Type ℓ} → Bool → E → Outcome E (Unit {0})
ensure true e = ok tt
ensure false e = err e

-- Only errors are mapped.
pub map_err-ok {ℓ κ μ} :
    {E : Type ℓ} {F : Type κ} {A : Type μ} (f : E → F) (m : Outcome E A) {a : A}
    → map_err f m ≡ ok a
    → m ≡ ok a
map_err-ok f (ok a) h = cc
map_err-ok f (err e) h = cc

pub Outcome-cases {ℓ κ} :
    {E : Type ℓ} {A : Type κ} (call : Outcome E A)
    → ((a : A) × (call ≡ ok a)) ⊎ ((e : E) × (call ≡ err e))
Outcome-cases (ok a) = inl (a, refl)
Outcome-cases (err e) = inr (e, refl)
