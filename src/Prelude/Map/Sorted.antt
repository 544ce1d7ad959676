-- ===== src/Prelude/Map/Sorted.antt =====
-- The keys of a map ascend, so iteration meets each key once and in order.
use Prim.Native.Nat.Ordering.{lt}
use mathlib.Core.List.{[], ◌∷◌}
use mathlib.Core.Option.{none, some}
use mathlib.Core.Path.{◌≡◌, refl, sym, subst, subst₂}
use native.Mathlib.Omega.{arith}
use sixpack.Prelude.Order.{Ord}
use sixpack.Prelude.Map.{Map, get, insert, remove}

module _ {ℓ κ} {K : Type ℓ} {V : Type κ} ⦃o : Ord K⦄ where
  -- every key of the map is above `k`
  abbrev pub Above : K → Map K V → Type 0
  Above k [] = Unit
  Above k ((j, v) ∷ m) = (o.cmp k j ≡ lt) × Above k m

  abbrev pub IsSorted : Map K V → Type 0
  IsSorted [] = Unit
  IsSorted ((k, v) ∷ m) = Above k m × IsSorted m

  Above-insert :
      (j k : K) (v : V) (m : Map K V) → o.cmp j k ≡ lt → Above j m → Above j (insert k v m)
  unfolding insert
  Above-insert j k v [] h a = (h, tt)
  Above-insert j k v ((i, w) ∷ m) h a = ground (arith, Above-insert j k v m h)

  Above-trans : (j k : K) (m : Map K V) → o.cmp j k ≡ lt → Above k m → Above j m
  Above-trans j k [] h a = tt
  Above-trans j k ((i, w) ∷ m) h a = (o.cmp_trans j k i h a.0, Above-trans j k m h a.1)

  -- `BTreeMap::insert` keeps the keys in order.
  pub insert-IsSorted : (k : K) (v : V) (m : Map K V) → IsSorted m → IsSorted (insert k v m)
  unfolding insert
  insert-IsSorted k v [] s = (tt, tt)
  insert-IsSorted k v ((j, w) ∷ m) s = ground (
    arith,
    o.cmp_eq k j,
    o.cmp_gt k j,
    Above-trans k j m,
    Above-insert j k v m,
    insert-IsSorted k v m s.1,
  )

  Above-remove : (j k : K) (m : Map K V) → Above j m → Above j (remove k m)
  unfolding remove
  Above-remove j k [] a = tt
  Above-remove j k ((i, w) ∷ m) a = ground (arith, Above-remove j k m a.1)

  -- `BTreeMap::remove` keeps the keys in order.
  pub remove-IsSorted : (k : K) (m : Map K V) → IsSorted m → IsSorted (remove k m)
  unfolding remove
  remove-IsSorted k [] s = tt
  remove-IsSorted k ((j, w) ∷ m) s = ground (arith, Above-remove j k m s.0, remove-IsSorted k m s.1)

  pub get-Above : (k : K) (m : Map K V) → Above k m → get k m ≡ none
  unfolding get
  get-Above k [] a = refl
  get-Above k ((j, w) ∷ m) a = ground (arith, get-Above k m a.1)

  -- an entry behind the first is still found
  pub get-tail :
      (k n : K) (v w : V) (m : Map K V) → Above k m → get n m ≡ some w → get n ((k, v) ∷ m) ≡ some w
  unfolding get
  get-tail k n v w m a h = ground (arith, o.cmp_eq n k, get-Above k m a)

  abbrev SameGet : Map K V → Map K V → Type (ℓ ⊔ κ)
  SameGet m n = (k : K) → get k m ≡ get k n

  SameGet-tail :
      (k : K) (v : V) (m n : Map K V)
      → Above k m
      → Above k n
      → SameGet ((k, v) ∷ m) ((k, v) ∷ n)
      → SameGet m n
  unfolding get
  SameGet-tail k v m n a b h i = ground (arith, h i, o.cmp_eq i k, get-Above k m a, get-Above k n b)

  -- the head entry of a sorted map is found by no lookup in a map that lies above it
  SameGet-head :
      (k j : K) (v w : V) (m n : Map K V)
      → Above k m
      → Above j n
      → SameGet ((k, v) ∷ m) ((j, w) ∷ n)
      → (k ≡ j) × (v ≡ w)
  unfolding get
  SameGet-head k j v w m n a b h = ground (
    arith,
    h k,
    h j,
    o.cmp_self k,
    o.cmp_self j,
    o.cmp_eq k j,
    o.cmp_gt k j,
    o.cmp_lt k j,
    get-Above k n,
    get-Above j m,
    Above-trans k j n,
    Above-trans j k m,
  )

  -- Two sorted maps with the same lookups are the same map.
  pub SameGet-eq : (m n : Map K V) → IsSorted m → IsSorted n → SameGet m n → m ≡ n
  SameGet-eq [] [] s t h = refl
  SameGet-eq [] ((j, w) ∷ n) s t h = unfold get in ground (arith, h j, o.cmp_self j)
  SameGet-eq ((k, v) ∷ m) [] s t h = unfold get in ground (arith, h k, o.cmp_self k)
  SameGet-eq ((k, v) ∷ m) ((j, w) ∷ n) s t h =
      let (p, q) = SameGet-head k j v w m n s.0 t.0 h in
      let b : Above k n = subst (λ x. Above x n) (sym p) t.0 in
      let same : SameGet ((k, v) ∷ m) ((k, v) ∷ n) =
        subst₂ (λ x y. SameGet ((k, v) ∷ m) ((x, y) ∷ n)) (sym p) (sym q) h in
      cc (p, q, SameGet-eq m n s.1 t.1 (SameGet-tail k v m n s.0 b same))
