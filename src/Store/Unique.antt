-- ===== src/Store/Unique.antt =====
-- Unique lookups: `validate_put_unique_lookup_conflicts` of
-- packages/sixpack-store/src/store/files.rs.
pub mod Kept
use sixpack.Prelude.{
  List, [], ◌∷◌, ◌++◌, Bool, true, false, Option, none, some, ◌≡◌, refl, arith, if◌then◌else◌, not,
  ◌⊎◌, inl, inr, Bool-cases, Option-cases, ◌∙◌, sym, is_some, ◌&&◌, ap, subst,
}
use sixpack.Prelude.Outcome.{Outcome, ok, err, ◌>>=◌, ◌>>◌, ok_or, ensure, Outcome-cases}
use sixpack.Prelude.Order.{pair_ord, same, same→eq, same_self}
use sixpack.Prelude.Text.{Text, text_ord, codes}
use sixpack.Prelude.Map.{Map, Keys, get, insert, get-insert, contains_key, get-cons, get-nil}
use sixpack.Core.Value.{Value, FloatText}
use sixpack.Core.Record.{Record}
use sixpack.Core.Schema.Table.{TableSchema, LookupSpec, lookup_specs_with_implicit_id}
use sixpack.Store.Error.{IoError, io_error, ErrorKind}
use sixpack.Store.Keys.{Key, value_to_lookup_key, missing_lookup_field, record_id, record_keys}
use sixpack.Store.Runtime.{RuntimeSixb, first_lookup_id}
use sixpack.Store.Runtime.Lookups.{LookupIds, ids_at}
use sixpack.Store.Runtime.Has.{has_id, names_key}
use sixpack.Store.Runtime.Exact.{IsExact, live_keys, HasKeys}

-- the id is there and is another one
abbrev other_id : Text → Option Text → Bool
other_id id none = false
other_id id (some i) = not (same i id)

abbrev id_or_nil : Option Text → Text
id_or_nil none = []
id_or_nil (some i) = i

abbrev taken_message : Text → Text → Text → Text
taken_message name key owner =
    codes "unique lookup `"
    ++ (name
        ++ (codes "` key `"
            ++ (key ++ (codes "` is already used by row `" ++ (owner ++ codes "`")))))

abbrev shared_message : Text → Text
shared_message name =
    codes "unique lookup `" ++ (name ++ codes "` key is used by multiple rows in one batch")

-- one unique lookup: the ids of the batch after it
unfoldable pub check_key :
    RuntimeSixb → Text → Text → Text → Map Key Text → Outcome IoError (Map Key Text)
check_key cache id name key batch = do
  ensure (not (other_id id (first_lookup_id name key cache))) (
      io_error ErrorKind.already_exists
        (taken_message name key (id_or_nil (first_lookup_id name key cache))))
  ensure (not (other_id id (get (name, key) batch)))
      (io_error ErrorKind.already_exists (shared_message name))
  ok (insert (name, key) id batch)

module _ {F : Type 0} ⦃float : FloatText F⦄ where
  -- the loop over the unique lookups
  unfoldable pub check_lookups_of :
      RuntimeSixb
      → Text
      → Map Text (Value F)
      → List LookupSpec
      → Map Key Text
      → Outcome IoError (Map Key Text)
  check_lookups_of cache id fields [] batch = ok batch
  check_lookups_of cache id fields (l ∷ ls) batch = elim l.unique [
    | false ↦ check_lookups_of cache id fields ls batch
    | true ↦ do
      value ← ok_or (missing_lookup_field l.field_name) (get l.field_name fields)
      batch' ← check_key cache id l.field_name (value_to_lookup_key value) batch
      check_lookups_of cache id fields ls batch'
  ]

  unfoldable pub validate_put_unique_lookup_conflicts :
      TableSchema → RuntimeSixb → Record F → Map Key Text → Outcome IoError (Map Key Text)
  validate_put_unique_lookup_conflicts t cache r batch = do
    id ← record_id r
    check_lookups_of cache id r.fields (lookup_specs_with_implicit_id t) batch
