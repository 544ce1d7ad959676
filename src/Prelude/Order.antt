-- ===== src/Prelude/Order.antt =====
-- Key types with a total order (`Ord` of Rust), the order of pairs and of lists.
use Prim.Native.Nat.{ℕ, compare, Ordering}
use Prim.Native.Nat.Ordering.{lt, eq, gt}
use mathlib.Core.Path.{◌≡◌, refl}
use mathlib.Core.Logic.{◌↔◌}
use mathlib.Core.Bool.{Bool, true, false}
use mathlib.Core.List.{List, [], ◌∷◌}
use native.Mathlib.Omega.{arith}

pub record Ord {ℓ} (K : Type ℓ) : Type ℓ where
  pub cmp : K → K → Ordering
  pub cmp_self : (a : K) → cmp a a ≡ eq
  pub cmp_eq : (a b : K) → cmp a b ≡ eq → a ≡ b
  pub cmp_gt : (a b : K) → cmp a b ≡ gt → cmp b a ≡ lt
  pub cmp_lt : (a b : K) → cmp a b ≡ lt → cmp b a ≡ gt
  pub cmp_trans : (a b c : K) → cmp a b ≡ lt → cmp b c ≡ lt → cmp a c ≡ lt

-- `==` of a key type
abbrev pub same {ℓ} : {K : Type ℓ} ⦃o : Ord K⦄ → K → K → Bool
same ⦃o⦄ a b = elim (o.cmp a b) [ eq ↦ true | _ ↦ false ]

infix 50 ◌≺◌
abbrev pub ◌≺◌ {ℓ} : {K : Type ℓ} ⦃o : Ord K⦄ → K → K → Type 0
◌≺◌ ⦃o⦄ a b = o.cmp a b ≡ lt

module _ {ℓ} {K : Type ℓ} ⦃o : Ord K⦄ where
  pub same→eq : (a b : K) → same a b ≡ true → a ≡ b
  same→eq a b h = ground (arith, o.cmp_eq a b)

  pub same_self : (a : K) → same a a ≡ true
  same_self a = ground (arith, o.cmp_self a)

  pub eq→same : (a b : K) → a ≡ b → same a b ≡ true
  eq→same a b h = ground (arith, o.cmp_self a)

  pub same_iff : (a b : K) → (same a b ≡ true) ↔ (a ≡ b)
  same_iff a b = (same→eq a b, eq→same a b)

pub nat_cmp_laws :
    (a b c : ℕ)
    → (compare a a ≡ eq)
      × (compare a b ≡ eq → a ≡ b)
      × (compare a b ≡ gt → compare b a ≡ lt)
      × (compare a b ≡ lt → compare b a ≡ gt)
      × (compare a b ≡ lt → compare b c ≡ lt → compare a c ≡ lt)
nat_cmp_laws a b c = ground arith

instance abbrev pub nat_ord : Ord ℕ
nat_ord = record {
  cmp = compare;
  cmp_self = λ a. (nat_cmp_laws a a a).0;
  cmp_eq = λ a b. (nat_cmp_laws a b a).1;
  cmp_gt = λ a b. (nat_cmp_laws a b a).2;
  cmp_lt = λ a b. (nat_cmp_laws a b a).3;
  cmp_trans = λ a b c. (nat_cmp_laws a b c).4;
}

-- `Ordering::then_with`
abbrev pub then_cmp : Ordering → Ordering → Ordering
then_cmp eq next = next
then_cmp lt next = lt
then_cmp gt next = gt

module _ {ℓ κ} {A : Type ℓ} {B : Type κ} ⦃a : Ord A⦄ ⦃b : Ord B⦄ where
  -- tuples compare lexicographically
  abbrev pub pair_cmp : A × B → A × B → Ordering
  pair_cmp x y = then_cmp (a.cmp x.0 y.0) (b.cmp x.1 y.1)

  pub pair_cmp_self : (x : A × B) → pair_cmp x x ≡ eq
  pair_cmp_self x = ground (arith, a.cmp_self x.0, b.cmp_self x.1)

  pub pair_cmp-eq : (x y : A × B) → pair_cmp x y ≡ eq → x ≡ y
  pair_cmp-eq x y h = ground (arith, a.cmp_eq x.0 y.0, b.cmp_eq x.1 y.1)

  pub pair_cmp-gt : (x y : A × B) → pair_cmp x y ≡ gt → pair_cmp y x ≡ lt
  pair_cmp-gt x y h =
      ground (arith, a.cmp_eq x.0 y.0, a.cmp_self x.0, a.cmp_gt x.0 y.0, b.cmp_gt x.1 y.1)

  pub pair_cmp-lt : (x y : A × B) → pair_cmp x y ≡ lt → pair_cmp y x ≡ gt
  pair_cmp-lt x y h =
      ground (arith, a.cmp_eq x.0 y.0, a.cmp_self x.0, a.cmp_lt x.0 y.0, b.cmp_lt x.1 y.1)

  pub pair_cmp_trans : (x y z : A × B) → pair_cmp x y ≡ lt → pair_cmp y z ≡ lt → pair_cmp x z ≡ lt
  pair_cmp_trans x y z h k = ground (
    arith,
    a.cmp_eq x.0 y.0,
    a.cmp_eq y.0 z.0,
    a.cmp_self x.0,
    a.cmp_trans x.0 y.0 z.0,
    b.cmp_trans x.1 y.1 z.1,
  )

  instance abbrev pub pair_ord : Ord (A × B)
  pair_ord = record {
    cmp = pair_cmp;
    cmp_self = pair_cmp_self;
    cmp_eq = pair_cmp-eq;
    cmp_gt = pair_cmp-gt;
    cmp_lt = pair_cmp-lt;
    cmp_trans = pair_cmp_trans;
  }

module _ {ℓ} {A : Type ℓ} ⦃a : Ord A⦄ where
  -- sequences compare lexicographically, a prefix first
  unfoldable pub list_cmp : List A → List A → Ordering
  list_cmp [] [] = eq
  list_cmp [] (y ∷ ys) = lt
  list_cmp (x ∷ xs) [] = gt
  list_cmp (x ∷ xs) (y ∷ ys) = then_cmp (a.cmp x y) (list_cmp xs ys)

  pub list_cmp_self : (xs : List A) → list_cmp xs xs ≡ eq
  unfolding list_cmp
  list_cmp_self [] = refl
  list_cmp_self (x ∷ xs) = ground (arith, a.cmp_self x, list_cmp_self xs)

  pub list_cmp-eq : (xs ys : List A) → list_cmp xs ys ≡ eq → xs ≡ ys
  unfolding list_cmp
  list_cmp-eq [] [] h = refl
  list_cmp-eq [] (y ∷ ys) h = cc
  list_cmp-eq (x ∷ xs) [] h = cc
  list_cmp-eq (x ∷ xs) (y ∷ ys) h = ground (arith, a.cmp_eq x y, list_cmp-eq xs ys)

  pub list_cmp-gt : (xs ys : List A) → list_cmp xs ys ≡ gt → list_cmp ys xs ≡ lt
  unfolding list_cmp
  list_cmp-gt [] [] h = cc
  list_cmp-gt [] (y ∷ ys) h = cc
  list_cmp-gt (x ∷ xs) [] h = refl
  list_cmp-gt (x ∷ xs) (y ∷ ys) h =
      ground (arith, a.cmp_eq x y, a.cmp_self x, a.cmp_gt x y, list_cmp-gt xs ys)

  pub list_cmp-lt : (xs ys : List A) → list_cmp xs ys ≡ lt → list_cmp ys xs ≡ gt
  unfolding list_cmp
  list_cmp-lt [] [] h = cc
  list_cmp-lt [] (y ∷ ys) h = refl
  list_cmp-lt (x ∷ xs) [] h = cc
  list_cmp-lt (x ∷ xs) (y ∷ ys) h =
      ground (arith, a.cmp_eq x y, a.cmp_self x, a.cmp_lt x y, list_cmp-lt xs ys)

  pub list_cmp_trans :
      (xs ys zs : List A) → list_cmp xs ys ≡ lt → list_cmp ys zs ≡ lt → list_cmp xs zs ≡ lt
  unfolding list_cmp
  list_cmp_trans [] [] zs h k = cc
  list_cmp_trans [] (y ∷ ys) [] h k = cc
  list_cmp_trans [] (y ∷ ys) (z ∷ zs) h k = refl
  list_cmp_trans (x ∷ xs) [] zs h k = cc
  list_cmp_trans (x ∷ xs) (y ∷ ys) [] h k = cc
  list_cmp_trans (x ∷ xs) (y ∷ ys) (z ∷ zs) h k =
      ground (
        arith,
        a.cmp_eq x y,
        a.cmp_eq y z,
        a.cmp_self x,
        a.cmp_trans x y z,
        list_cmp_trans xs ys zs,
      )

  instance abbrev pub list_ord : Ord (List A)
  list_ord = record {
    cmp = list_cmp;
    cmp_self = list_cmp_self;
    cmp_eq = list_cmp-eq;
    cmp_gt = list_cmp-gt;
    cmp_lt = list_cmp-lt;
    cmp_trans = list_cmp_trans;
  }
