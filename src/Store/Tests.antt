-- ===== src/Store/Tests.antt =====
-- The index of a table with a row or two.
use sixpack.Prelude.{arith, ℕ, [], ◌∷◌, subst, some, none, ◌≡◌, refl}
use sixpack.Prelude.Outcome.{ok}
use sixpack.Prelude.Text.{Text, text_ord, codes}
use sixpack.Prelude.Order.{pair_ord, list_cmp}
use sixpack.Prelude.Map.{remove, Map, get, insert, get-insert_self, contains_key}
use sixpack.Core.Record.{Record}
use sixpack.Prelude.Decimal.{print_int}
use sixpack.Core.Value.{Value}
use sixpack.Core.Tests.{users, ada, ada_age}
use sixpack.Core.Schema.Table.{lookup_specs_with_implicit_id}
use sixpack.Format.Operation.{Operation}
use sixpack.Format.Sixb.{RowPointer}
use sixpack.Format.Tests.{nat_float}
use sixpack.Store.Keys.{Key, record_id, record_keys, value_to_lookup_key}
use Prim.Native.Nat.Ordering.{lt}
use sixpack.Store.Chunk.{
  chunk_path, encode_reverse_base36, encode_fixed_base36, base36_digits, chunk_path-order,
}
use sixpack.Store.Unique.{validate_put_unique_lookup_conflicts, check_lookups_of, check_key}
use sixpack.Store.Unique.Kept.{IsUnique, put-IsUnique}
use sixpack.Store.Runtime.{
  remove_row_for_validation, RuntimeSixb, first_lookup_id, apply_operation, insert_record_lookups,
  insert_keys,
}
use sixpack.Store.Runtime.Lookups.{ids_at, add_id}
use sixpack.Store.Runtime.Has.{has_id}
use sixpack.Store.Runtime.Exact.{IsExact, HasKeys, live_after}
use sixpack.Store.Runtime.Apply.{apply_operation-IsExact, remove_row_for_validation-IsExact}

abbrev no_rows : RuntimeSixb
no_rows = record {
  version = 1;
  table = codes "users";
  schema_hash = [];
  source_hash = [];
  rows_by_id = [];
  lookup_ids = [];
  row_lookup_keys = [];
}

abbrev none_live : Map Text (Record ℕ)
none_live = []

no_rows-IsExact : IsExact users none_live no_rows
unfolding get has_id ids_at contains_key
no_rows-IsExact = record {
  sorted = tt;
  rows = λ j. refl;
  keyed = λ j r e. absurd (cc);
  exact = λ q j. refl;
  remembered = λ j ks e. absurd (cc);
}

abbrev ada_pointer : RowPointer
ada_pointer = record { chunk_name = codes "zzz.6"; offset = 90; len = 12; tx_id = 1 }

ada-HasKeys : HasKeys users ada
unfolding record_keys lookup_specs_with_implicit_id get list_cmp
ada-HasKeys = (_, refl)

ada-record_id : record_id ada ≡ ok (codes "a\t1")
unfolding record_id value_to_lookup_key get list_cmp
ada-record_id = refl

abbrev ada_live : Map Text (Record ℕ)
ada_live = insert (codes "a\t1") ada none_live

with_ada :
    (s : RuntimeSixb) × (apply_operation users Operation.put ada ada_pointer none no_rows ≡ ok s)
    × IsExact users ada_live s
with_ada =
    apply_operation-IsExact users none_live Operation.put (codes "a\t1") ada ada_pointer none
      no_rows no_rows-IsExact ada-record_id (λ e. ada-HasKeys) tt

-- the row is put a second time, over its old record
apply_operation-IsExact_example :
    (s : RuntimeSixb) × (apply_operation users Operation.put ada ada_pointer (some ada) with_ada.0
      ≡ ok s)
    × IsExact users (live_after Operation.put (codes "a\t1") ada ada_live) s
apply_operation-IsExact_example =
    apply_operation-IsExact users ada_live Operation.put (codes "a\t1") ada ada_pointer (some ada)
      with_ada.0 with_ada.2 ada-record_id (λ e. ada-HasKeys)
      (get-insert_self (codes "a\t1") ada none_live)

abbrev no_keys : Map Key Text
no_keys = []

none-IsUnique : IsUnique users none_live
unfolding get
none-IsUnique l listed unique key i j hi hj = absurd (cc)

ada-passes :
    validate_put_unique_lookup_conflicts users no_rows ada no_keys
    ≡ ok (insert (codes "id", codes "a\t1") (codes "a\t1") no_keys)
unfolding validate_put_unique_lookup_conflicts check_lookups_of check_key record_id
    value_to_lookup_key get list_cmp first_lookup_id lookup_specs_with_implicit_id
ada-passes = refl

ada-IsUnique : IsUnique users ada_live
ada-IsUnique =
    put-IsUnique users none_live no_rows ada (codes "a\t1") no_keys no_rows-IsExact none-IsUnique
      ada-record_id ada-HasKeys ada-passes

-- the index with the row of `ada`
abbrev one_row : RuntimeSixb
one_row = record no_rows {
  rows_by_id = (codes "a\t1", ada_pointer) ∷ [];
  lookup_ids =
      ((codes "age", codes "36"), (codes "a\t1", tt) ∷ [])
      ∷ ((codes "id", codes "a\t1"), (codes "a\t1", tt) ∷ [])
      ∷ [];
  row_lookup_keys =
      (codes "a\t1", (codes "id", codes "a\t1") ∷ (codes "age", codes "36") ∷ []) ∷ [];
}

ada_stored : apply_operation users Operation.put ada ada_pointer none no_rows ≡ ok one_row
unfolding apply_operation record_id value_to_lookup_key get list_cmp lookup_specs_with_implicit_id
    contains_key insert insert_record_lookups insert_keys add_id print_int
ada_stored = refl

one_row-IsExact : IsExact users ada_live one_row
one_row-IsExact =
    let same : with_ada.0 ≡ one_row = cc (with_ada.1, ada_stored) in
    subst (IsExact users ada_live) same with_ada.2

-- a second row, with the age of the first
abbrev bob : Record ℕ
bob = record ada { fields = (codes "age", ada_age) ∷ (codes "id", Value.id (codes "b")) ∷ [] }

bob-passes :
    validate_put_unique_lookup_conflicts users one_row bob no_keys
    ≡ ok (insert (codes "id", codes "b") (codes "b") no_keys)
unfolding validate_put_unique_lookup_conflicts check_lookups_of check_key record_id
    value_to_lookup_key get list_cmp first_lookup_id lookup_specs_with_implicit_id
bob-passes = refl

bob-HasKeys : HasKeys users bob
unfolding record_keys lookup_specs_with_implicit_id get list_cmp
bob-HasKeys = (_, refl)

bob-record_id : record_id bob ≡ ok (codes "b")
unfolding record_id value_to_lookup_key get list_cmp
bob-record_id = refl

put-IsUnique_example : IsUnique users (insert (codes "b") bob ada_live)
put-IsUnique_example =
    put-IsUnique users ada_live one_row bob (codes "b") no_keys one_row-IsExact ada-IsUnique
      bob-record_id bob-HasKeys bob-passes

-- the first two files
chunk_path-order_example :
    (p : Text) × (q : Text) × (chunk_path 0 ≡ ok p)
    × (chunk_path 1 ≡ ok q)
    × (text_ord.cmp q p ≡ lt)
chunk_path-order_example = chunk_path-order 0 1 (omega arith) (omega arith)

first_chunk : chunk_path 0 ≡ ok (codes "zzz.6")
unfolding chunk_path encode_reverse_base36 encode_fixed_base36 base36_digits
first_chunk = refl

remove_row_for_validation-IsExact_example :
    IsExact users
      (remove (codes "a\t1") ada_live)
      (remove_row_for_validation (codes "a\t1") with_ada.0)
remove_row_for_validation-IsExact_example =
    remove_row_for_validation-IsExact users ada_live (codes "a\t1") with_ada.0 with_ada.2
