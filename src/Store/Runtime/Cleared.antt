-- ===== src/Store/Runtime/Cleared.antt =====
-- The three ways in which the index forgets the lookups of a row do the same thing.
use sixpack.Prelude.{List, true, false, Option, none, some, if◌then◌else◌, ◌≡◌, refl, arith}
use sixpack.Prelude.Order.{pair_ord, same, same→eq}
use sixpack.Prelude.Text.{Text, text_ord}
use sixpack.Prelude.Map.{get, remove, get-remove}
use sixpack.Prelude.Map.Sorted.{IsSorted}
use sixpack.Store.Keys.{Key}
use sixpack.Store.Runtime.{
  RuntimeSixb, remove_lookup_keys, remove_lookup_id_slow, remove_remembered_lookups,
}
use sixpack.Store.Runtime.Has.{
  has_id, names_key, has_id-remove_keys, has_id-remove_everywhere, remove_everywhere-IsSorted,
  remove_keys-IsSorted,
}

-- `s'` is `s` without the lookups of one row
pub record Cleared (id : Text) (s s' : RuntimeSixb) : Type 0 where
  pub sorted : IsSorted s'.lookup_ids
  pub rows : s'.rows_by_id ≡ s.rows_by_id
  pub lookups :
      (q : Key) (j : Text)
      → has_id q j s'.lookup_ids ≡ (if same j id then false else has_id q j s.lookup_ids)
  pub remembered :
      (j : Text) → get j s'.row_lookup_keys ≡ (if same j id then none else get j s.row_lookup_keys)

-- every key under which the row is indexed is listed
abbrev pub Covers : Text → List Key → RuntimeSixb → Type 0
Covers id ks s = (q : Key) → has_id q id s.lookup_ids ≡ true → names_key q ks ≡ true

pub remove_lookup_keys-Cleared :
    (id : Text) (ks : List Key) (s : RuntimeSixb)
    → IsSorted s.lookup_ids
    → Covers id ks s
    → Cleared id s (remove_lookup_keys id ks s)
unfolding remove_lookup_keys
remove_lookup_keys-Cleared id ks s sorted covers = record {
  sorted = remove_keys-IsSorted id ks s.lookup_ids sorted;
  rows = refl;
  lookups =
      λ q j. ground (arith, has_id-remove_keys id ks q j s.lookup_ids, covers q, same→eq j id);
  remembered = λ j. get-remove id j s.row_lookup_keys;
}

remove_lookup_id_slow-Cleared :
    (id : Text) (s : RuntimeSixb)
    → IsSorted s.lookup_ids
    → Cleared id s (remove_lookup_id_slow id s)
unfolding remove_lookup_id_slow
remove_lookup_id_slow-Cleared id s sorted = record {
  sorted = remove_everywhere-IsSorted id s.lookup_ids sorted;
  rows = refl;
  lookups = λ q j. has_id-remove_everywhere id q j s.lookup_ids sorted;
  remembered = λ j. get-remove id j s.row_lookup_keys;
}

pub remove_remembered_lookups-Cleared :
    (id : Text) (s : RuntimeSixb)
    → IsSorted s.lookup_ids
    → ((ks : List Key) → get id s.row_lookup_keys ≡ some ks → Covers id ks s)
    → Cleared id s (remove_remembered_lookups id s)
unfolding remove_remembered_lookups
remove_remembered_lookups-Cleared id s sorted covers = go (get id s.row_lookup_keys) refl
  where
    forgotten : RuntimeSixb
    forgotten = record s { row_lookup_keys = remove id s.row_lookup_keys }

    go :
        (o : Option (List Key))
        → get id s.row_lookup_keys ≡ o
        → Cleared id s (elim o [
          | some ks ↦ remove_lookup_keys id ks forgotten
          | none ↦ remove_lookup_id_slow id s
        ])
    go none e = remove_lookup_id_slow-Cleared id s sorted
    go (some ks) e =
        let c : Cleared id forgotten (remove_lookup_keys id ks forgotten) =
          remove_lookup_keys-Cleared id ks forgotten sorted (covers ks e) in
        record {
          sorted = c.sorted;
          rows = c.rows;
          lookups = c.lookups;
          remembered = λ j. ground (arith, c.remembered j, get-remove id j s.row_lookup_keys);
        }
