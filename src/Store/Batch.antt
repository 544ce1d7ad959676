-- ===== src/Store/Batch.antt =====
-- packages/sixpack-store/src/store/types.rs: operations and batches, and the check of one operation,
-- `validate_storage_operation` of files.rs.
use sixpack.Prelude.{ℕ, List, [], ◌∷◌, ◌++◌, none, some, if◌then◌else◌}
use sixpack.Prelude.Outcome.{
  Outcome, ok, err, ◌>>=◌, ◌>>◌, ensure, Fault, panic, fault, map_err, may_fail,
}
use sixpack.Prelude.Order.{same}
use sixpack.Prelude.Text.{Text, text_ord, codes}
use sixpack.Prelude.Map.{get}
use sixpack.Core.Value.{Value, value_type, type_name}
use sixpack.Core.Error.{SchemaError, display}
use sixpack.Core.Record.{Record}
use sixpack.Core.Schema.Table.{TableSchema}
use sixpack.Core.Schema.Database.{DatabaseSchema, validate_record}
use sixpack.Format.Operation.{Operation}
use sixpack.Store.Error.{IoError, io_error, ErrorKind}

pub record AppendResult : Type 0 where
  pub tx_id : ℕ
  pub operation : Operation
  pub bytes_written : ℕ

pub data WriteBatchMode : Type 0 where
  insert_only upsert : WriteBatchMode

pub record AppendOperation (F : Type 0) : Type 0 where
  pub operation : Operation
  pub record_ : Record F

pub record WriteBatch (F : Type 0) : Type 0 where
  pub table : Text
  pub mode : WriteBatchMode
  pub operations : List (AppendOperation F)

abbrev pub invalid_record : Fault SchemaError → Fault IoError
invalid_record panic = panic
invalid_record (fault e) = fault (io_error ErrorKind.invalid_input (display e))

module _ {F : Type 0} where
  abbrev pub append_put : Record F → AppendOperation F
  append_put r = record { operation = Operation.put; record_ = r }

  abbrev pub append_delete : Record F → AppendOperation F
  append_delete r = record { operation = Operation.delete; record_ = r }

  abbrev pub new_batch : Text → WriteBatchMode → WriteBatch F
  new_batch table mode = record { table = table; mode = mode; operations = [] }

  -- Adds one operation, rejecting cross-table batches.
  unfoldable pub push : AppendOperation F → WriteBatch F → Outcome IoError (WriteBatch F)
  push operation b =
      if same operation.record_.table b.table
      then ok (record b { operations = b.operations ++ (operation ∷ []) })
      else err (
          io_error ErrorKind.invalid_input
            (codes "write batch operations must all belong to the same table"))

  -- the loops of `insert_only` and `upsert`
  unfoldable pub push_all : List (AppendOperation F) → WriteBatch F → Outcome IoError (WriteBatch F)
  push_all [] b = ok b
  push_all (operation ∷ operations) b = do b' ← push operation b; push_all operations b'

  abbrev puts : List (Record F) → List (AppendOperation F)
  puts [] = []
  puts (r ∷ rs) = append_put r ∷ puts rs

  unfoldable pub insert_only_batch : Text → List (Record F) → Outcome IoError (WriteBatch F)
  insert_only_batch table records =
      push_all (puts records) (new_batch table WriteBatchMode.insert_only)

  unfoldable pub upsert_batch : Text → List (AppendOperation F) → Outcome IoError (WriteBatch F)
  upsert_batch table operations = push_all operations (new_batch table WriteBatchMode.upsert)

  unfoldable pub validate_storage_operation :
      DatabaseSchema → TableSchema → AppendOperation F → Outcome (Fault IoError) (Unit {0})
  validate_storage_operation schema t append = do
    may_fail (
        ensure (same append.record_.table t.name) (
          io_error ErrorKind.invalid_input
            (codes "storage operation table does not match its batch")))
    elim append.operation [
      | Operation.put ↦ map_err invalid_record (validate_record append.record_ schema)
      | Operation.delete ↦ elim (get (codes "id") append.record_.fields) [
        | some (Value.id v) ↦ ok tt
        | some v ↦ err (
            fault (
              io_error ErrorKind.invalid_input (
                codes "delete id must use `id`, found `"
                ++ (type_name (value_type v) ++ codes "`"))))
        | none ↦
            err (fault (io_error ErrorKind.invalid_input (codes "delete operation is missing id")))
      ]
    ]
