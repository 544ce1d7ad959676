-- ===== src/Store/Runtime/Lookups.antt =====
-- The map of packages/sixpack-store/src/store/index.rs from a lookup key to the ids of its rows:
-- the changes of one key, and of one id everywhere.
use sixpack.Prelude.{[], ◌∷◌, Bool, true, false, none, some, if◌then◌else◌}
use sixpack.Prelude.Order.{pair_ord}
use sixpack.Prelude.Text.{Text, text_ord}
use sixpack.Prelude.Map.{Map, Keys, get, insert, remove}
use sixpack.Store.Keys.{Key}

abbrev pub LookupIds : Type 0
LookupIds = Map Key (Keys Text)

-- the ids of a key, none when the key is not there (`or_default`)
unfoldable pub ids_at : Key → LookupIds → Keys Text
ids_at k m = elim (get k m) [ none ↦ [] | some ids ↦ ids ]

-- `lookup_ids.entry(key).or_default().insert(id)`
unfoldable pub add_id : Key → Text → LookupIds → LookupIds
unfolding ids_at
add_id k id m = insert k (insert id tt (ids_at k m)) m

-- `is_empty` of a set
abbrev pub no_ids : Keys Text → Bool
no_ids [] = true
no_ids (e ∷ ids) = false

-- one round of the loop of `remove_lookup_keys`
unfoldable pub remove_key : Text → Key → LookupIds → LookupIds
remove_key id k m = elim (get k m) [
  | none ↦ m
  | some ids ↦ let left = remove id ids in if no_ids left then remove k m else insert k left m
]

-- the id is taken from every set, and the sets that are then empty are dropped
unfoldable pub remove_everywhere : Text → LookupIds → LookupIds
remove_everywhere id [] = []
remove_everywhere id ((k, ids) ∷ m) =
    let rest = remove_everywhere id m in
    let left = remove id ids in if no_ids left then rest else (k, left) ∷ rest
