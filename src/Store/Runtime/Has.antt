-- ===== src/Store/Runtime/Has.antt =====
-- What the changes of the lookup index do to the ids of a key.
use sixpack.Prelude.{
  List, [], ◌∷◌, Bool, true, false, if◌then◌else◌, ◌≡◌, refl, arith, ◌&&◌, ◌||◌, any, Option-cases,
  inl, inr,
}
use sixpack.Prelude.Order.{pair_ord, same, same→eq}
use sixpack.Prelude.Text.{Text, text_ord}
use sixpack.Prelude.Map.{
  Keys, get, insert, remove, contains_key, get-insert, get-remove, get-nil, get-cons,
  contains_key-insert,
}
use sixpack.Prelude.Map.Sorted.{IsSorted, Above, get-Above, insert-IsSorted, remove-IsSorted}
use sixpack.Store.Keys.{Key}
use sixpack.Store.Runtime.{remove_keys}
use sixpack.Store.Runtime.Lookups.{LookupIds, ids_at, add_id, no_ids, remove_key, remove_everywhere}

-- the row is indexed under the key
unfoldable pub has_id : Key → Text → LookupIds → Bool
has_id k id m = contains_key id (ids_at k m)

abbrev pub names_key : Key → List Key → Bool
names_key k ks = any (λ j. same k j) ks

contains_key-remove :
    (i j : Text) (ids : Keys Text)
    → contains_key j (remove i ids) ≡ (if same j i then false else contains_key j ids)
unfolding contains_key
contains_key-remove i j ids = ground (arith, get-remove i j ids)

no_ids-contains_key : (j : Text) (ids : Keys Text) → no_ids ids ≡ true → contains_key j ids ≡ false
unfolding contains_key
no_ids-contains_key j [] h = ground (arith, get-nil {V = Unit {0}} j)
no_ids-contains_key j (e ∷ ids) h = cc

pub has_id-add_id :
    (k : Key) (i : Text) (q : Key) (j : Text) (m : LookupIds)
    → has_id q j (add_id k i m) ≡ ((same q k && same j i) || has_id q j m)
unfolding has_id add_id ids_at
has_id-add_id k i q j m = ground (
  arith,
  get-insert k q (insert i tt (ids_at k m)) m,
  same→eq q k,
  contains_key-insert i j tt (ids_at k m),
)

pub has_id-remove_key :
    (k : Key) (i : Text) (q : Key) (j : Text) (m : LookupIds)
    → has_id q j (remove_key i k m) ≡ (if same q k && same j i then false else has_id q j m)
unfolding has_id remove_key ids_at
has_id-remove_key k i q j m = elim (Option-cases (get k m)) [
  | inl e ↦ ground (arith, e, same→eq q k, no_ids-contains_key j [] refl)
  | inr (ids, e) ↦ ground (
    arith,
    e,
    same→eq q k,
    get-remove k q m,
    get-insert k q (remove i ids) m,
    contains_key-remove i j ids,
    no_ids-contains_key j [] refl,
    no_ids-contains_key j (remove i ids),
  )
]

pub has_id-remove_keys :
    (i : Text) (ks : List Key) (q : Key) (j : Text) (m : LookupIds)
    → has_id q j (remove_keys i ks m) ≡ (if names_key q ks && same j i then false else has_id q j m)
unfolding remove_keys
has_id-remove_keys i [] q j m = ground arith
has_id-remove_keys i (k ∷ ks) q j m =
    ground (arith, has_id-remove_keys i ks q j (remove_key i k m), has_id-remove_key k i q j m)

Above-remove_everywhere :
    (k : Key) (i : Text) (m : LookupIds) → Above k m → Above k (remove_everywhere i m)
unfolding remove_everywhere
Above-remove_everywhere k i [] a = tt
Above-remove_everywhere k i ((q, ids) ∷ m) a = ground (arith, Above-remove_everywhere k i m a.1)

pub has_id-remove_everywhere :
    (i : Text) (q : Key) (j : Text) (m : LookupIds)
    → IsSorted m
    → has_id q j (remove_everywhere i m) ≡ (if same j i then false else has_id q j m)
unfolding has_id remove_everywhere ids_at
has_id-remove_everywhere i q j [] s =
    ground (arith, get-nil {V = Keys Text} q, no_ids-contains_key j [] refl)
has_id-remove_everywhere i q j ((k, ids) ∷ m) s = ground (
  arith,
  has_id-remove_everywhere i q j m s.1,
  get-cons k q ids m,
  get-cons k q (remove i ids) (remove_everywhere i m),
  contains_key-remove i j ids,
  no_ids-contains_key j [] refl,
  no_ids-contains_key j (remove i ids),
  get-Above k m s.0,
  same→eq q k,
)

pub remove_everywhere-IsSorted :
    (i : Text) (m : LookupIds) → IsSorted m → IsSorted (remove_everywhere i m)
unfolding remove_everywhere
remove_everywhere-IsSorted i [] s = tt
remove_everywhere-IsSorted i ((k, ids) ∷ m) s =
    ground (arith, Above-remove_everywhere k i m s.0, remove_everywhere-IsSorted i m s.1)

remove_key-IsSorted :
    (i : Text) (k : Key) (m : LookupIds) → IsSorted m → IsSorted (remove_key i k m)
unfolding remove_key
remove_key-IsSorted i k m s = elim (Option-cases (get k m)) [
  | inl e ↦ ground (arith, e)
  | inr (ids, e) ↦ ground (arith, e, remove-IsSorted k m s, insert-IsSorted k (remove i ids) m s)
]

pub remove_keys-IsSorted :
    (i : Text) (ks : List Key) (m : LookupIds) → IsSorted m → IsSorted (remove_keys i ks m)
unfolding remove_keys
remove_keys-IsSorted i [] m s = s
remove_keys-IsSorted i (k ∷ ks) m s =
    remove_keys-IsSorted i ks (remove_key i k m) (remove_key-IsSorted i k m s)

pub add_id-IsSorted : (k : Key) (i : Text) (m : LookupIds) → IsSorted m → IsSorted (add_id k i m)
unfolding add_id
add_id-IsSorted k i m s = insert-IsSorted k _ m s
