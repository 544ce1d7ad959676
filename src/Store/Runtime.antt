-- ===== src/Store/Runtime.antt =====
-- packages/sixpack-store/src/store/index.rs: the mutable index of one table.
pub mod Lookups
pub mod Has
pub mod Cleared
pub mod Exact
pub mod Apply
use sixpack.Prelude.{
  ℕ, List, [], ◌∷◌, Bool, Option, none, some, length, is_some, map, ◌++◌, if◌then◌else◌,
}
use sixpack.Prelude.Outcome.{Outcome, ok, ◌>>=◌, ok_or}
use sixpack.Prelude.Text.{Text, text_ord}
use sixpack.Prelude.Order.{pair_ord}
use sixpack.Prelude.Map.{Map, Keys, empty, get, contains_key, insert, remove, keys}
use sixpack.Core.Value.{Value, FloatText}
use sixpack.Core.Record.{Record}
use sixpack.Core.Schema.Table.{TableSchema, LookupSpec, lookup_specs_with_implicit_id}
use sixpack.Format.Operation.{Operation}
use sixpack.Format.Sixb.{RowPointer, SixbRowEntry, SixbLookupEntry, SixbCache}
use sixpack.Store.Error.{IoError}
use sixpack.Store.Keys.{Key, record_id, record_keys, value_to_lookup_key, missing_lookup_field}
use Lookups.{LookupIds, add_id, remove_key, remove_everywhere, ids_at}

pub record RuntimeSixb : Type 0 where
  pub version : ℕ
  pub table : Text
  pub schema_hash : Text
  pub source_hash : Text
  pub rows_by_id : Map Text RowPointer
  pub lookup_ids : LookupIds
  pub row_lookup_keys : Map Text (List Key)

unfoldable pub has_row : Text → RuntimeSixb → Bool
has_row id s = contains_key id s.rows_by_id

-- `ids.first()`: the least id
unfoldable pub first_lookup_id : Text → Text → RuntimeSixb → Option Text
first_lookup_id field_name key s = elim (get (field_name, key) s.lookup_ids) [
  | none ↦ none
  | some [] ↦ none
  | some ((id, u) ∷ ids) ↦ some id
]

unfoldable pub row_entry : Text → RuntimeSixb → Option SixbRowEntry
row_entry id s = elim (get id s.rows_by_id) [
  | none ↦ none
  | some ptr ↦ some (record { id = id; ptr = ptr })
]

unfoldable pub row_entries : RuntimeSixb → List SixbRowEntry
row_entries s = map (λ e. record { id = e.0; ptr = e.1 }) s.rows_by_id

unfoldable pub lookup_entries : Text → Text → RuntimeSixb → List SixbLookupEntry
lookup_entries field_name key s =
    map (λ id. record { field_name = field_name; key = key; id = id })
      (keys (ids_at (field_name, key) s.lookup_ids))

unfoldable pub lookup_count : Text → Text → RuntimeSixb → ℕ
lookup_count field_name key s = length (ids_at (field_name, key) s.lookup_ids)

unfoldable pub row_count : RuntimeSixb → ℕ
row_count s = length s.rows_by_id

-- the loop over the keys of `remove_lookup_keys`
unfoldable pub remove_keys : Text → List Key → LookupIds → LookupIds
remove_keys id [] m = m
remove_keys id (k ∷ ks) m = remove_keys id ks (remove_key id k m)

unfoldable pub remove_lookup_keys : Text → List Key → RuntimeSixb → RuntimeSixb
remove_lookup_keys id ks s = record s {
  lookup_ids = remove_keys id ks s.lookup_ids;
  row_lookup_keys = remove id s.row_lookup_keys;
}

unfoldable pub remove_lookup_id_slow : Text → RuntimeSixb → RuntimeSixb
remove_lookup_id_slow id s = record s {
  lookup_ids = remove_everywhere id s.lookup_ids;
  row_lookup_keys = remove id s.row_lookup_keys;
}

-- `remove_record_lookups` without an old record: by the keys that are remembered for the row, or by
-- a walk over the whole index
unfoldable pub remove_remembered_lookups : Text → RuntimeSixb → RuntimeSixb
remove_remembered_lookups id s = elim (get id s.row_lookup_keys) [
  | some ks ↦ remove_lookup_keys id ks (record s { row_lookup_keys = remove id s.row_lookup_keys })
  | none ↦ remove_lookup_id_slow id s
]

-- The source returns a `Result` that is always `Ok`.
unfoldable pub remove_row_for_validation : Text → RuntimeSixb → RuntimeSixb
remove_row_for_validation id s =
    if contains_key id s.rows_by_id
    then remove_remembered_lookups id (record s { rows_by_id = remove id s.rows_by_id })
    else s

module _ {F : Type 0} ⦃float : FloatText F⦄ where
  -- the loop of `insert_record_lookups`: the index, and the keys pushed
  unfoldable pub insert_keys :
      List LookupSpec
      → Text
      → Map Text (Value F)
      → LookupIds
      → Outcome IoError (LookupIds × List Key)
  insert_keys [] id fields m = ok (m, [])
  insert_keys (l ∷ ls) id fields m = do
    value ← ok_or (missing_lookup_field l.field_name) (get l.field_name fields)
    let key : Key = (l.field_name, value_to_lookup_key value)
    rest ← insert_keys ls id fields (add_id key id m)
    ok (rest.0, key ∷ rest.1)

  unfoldable pub insert_record_lookups :
      TableSchema → Text → Record F → RuntimeSixb → Outcome IoError RuntimeSixb
  insert_record_lookups t id r s = do
    inserted ← insert_keys (lookup_specs_with_implicit_id t) id r.fields s.lookup_ids
    ok (record s {
      lookup_ids = inserted.0;
      row_lookup_keys = insert id inserted.1 s.row_lookup_keys;
    })

  unfoldable pub remove_record_lookups :
      TableSchema → Text → Option (Record F) → RuntimeSixb → Outcome IoError RuntimeSixb
  remove_record_lookups t id (some old) s = do
    ks ← record_keys (lookup_specs_with_implicit_id t) old.fields
    ok (remove_lookup_keys id ks s)
  remove_record_lookups t id none s = ok (remove_remembered_lookups id s)

  unfoldable pub apply_operation :
      TableSchema
      → Operation
      → Record F
      → RowPointer
      → Option (Record F)
      → RuntimeSixb
      → Outcome IoError RuntimeSixb
  apply_operation t Operation.put r ptr old s = do
    id ← record_id r
    s' ← if contains_key id s.rows_by_id then remove_record_lookups t id old s else ok s
    insert_record_lookups t id r (record s' { rows_by_id = insert id ptr s'.rows_by_id })
  apply_operation t Operation.delete r ptr old s = do
    id ← record_id r
    remove_record_lookups t id old (record s { rows_by_id = remove id s.rows_by_id })
