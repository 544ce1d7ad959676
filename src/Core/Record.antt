-- ===== src/Core/Record.antt =====
-- packages/sixpack-core/src/record.rs: a row of one table.
use sixpack.Prelude.{◌≡◌, arith}
use sixpack.Prelude.Outcome.{Outcome, ok, ◌>>◌}
use sixpack.Prelude.Text.{Text, text_ord, codes}
use sixpack.Prelude.Map.{Map, empty, insert}
use sixpack.Prelude.Map.Sorted.{IsSorted, insert-IsSorted}
use sixpack.Core.Value.{Value}
use sixpack.Core.Error.{SchemaError}
use sixpack.Core.Identifier.{ensure_public_field_name}

pub record Record (F : Type 0) : Type 0 where
  pub table : Text
  pub fields : Map Text (Value F)

module _ {F : Type 0} where
  -- `Record::new`
  abbrev pub new_record : Text → Record F
  new_record table = record { table = table; fields = empty }

  -- `with_field` and `insert_field`
  unfoldable pub insert_field : Text → Value F → Record F → Outcome SchemaError (Record F)
  insert_field name value r = do
    ensure_public_field_name name
    ok (record r { fields = insert name value r.fields })

  -- `with_id` and `insert_id`
  unfoldable pub insert_id : Text → Record F → Record F
  insert_id id r = record r { fields = insert (codes "id") (Value.id id) r.fields }

  pub insert_id-IsSorted :
      (id : Text) (r : Record F) → IsSorted r.fields → IsSorted (insert_id id r).fields
  unfolding insert_id
  insert_id-IsSorted id r h = insert-IsSorted (codes "id") (Value.id id) r.fields h

  pub insert_field-IsSorted :
      (name : Text) (value : Value F) (r : Record F) {r' : Record F}
      → insert_field name value r ≡ ok r'
      → IsSorted r.fields
      → IsSorted r'.fields
  unfolding insert_field
  insert_field-IsSorted name value r e h = ground (arith, insert-IsSorted name value r.fields h)
