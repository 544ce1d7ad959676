-- ===== src/Core/Error.antt =====
-- packages/sixpack-core/src/error.rs: what a schema or a record can be refused for, and the
-- messages.
use sixpack.Prelude.{◌++◌}
use sixpack.Prelude.Text.{Text, codes}
use sixpack.Core.Value.{PrimitiveType, type_name}

pub data SchemaError : Type 0 where
  invalid_workspace_name : Text → SchemaError
  invalid_table_name : Text → SchemaError
  reserved_field_name : Text → SchemaError
  invalid_field_name : Text → SchemaError
  unknown_table : Text → SchemaError
  -- table, field
  unknown_field : Text → Text → SchemaError
  -- table, field, expected, found
  type_mismatch : Text → Text → PrimitiveType → PrimitiveType → SchemaError
  duplicate_field : Text → Text → SchemaError
  duplicate_lookup : Text → Text → SchemaError
  duplicate_table : Text → SchemaError
  missing_id_field : Text → SchemaError
  id_field_must_be_id : Text → SchemaError
  unknown_lookup_field : Text → Text → SchemaError
  missing_field : Text → Text → SchemaError

-- `Display for SchemaError`
unfoldable pub display : SchemaError → Text
display (invalid_workspace_name name) =
    codes "invalid workspace name `" ++ (name ++ codes "`; use letters, digits, `-`, or `_`")
display (invalid_table_name name) =
    codes "invalid table name `" ++ (name ++ codes "`; use lowercase snake_case")
display (reserved_field_name field) =
    codes "field name is reserved for internal storage metadata: " ++ field
display (invalid_field_name field) = codes "invalid field name: " ++ field
display (unknown_table table) = codes "unknown table: " ++ table
display (unknown_field table field) =
    codes "table `" ++ (table ++ (codes "` has no field `" ++ (field ++ codes "`")))
display (type_mismatch table field expected found) =
    codes "table `"
    ++ (table
        ++ (codes "` field `"
            ++ (field
                ++ (codes "` type mismatch: expected "
                    ++ (type_name expected ++ (codes ", found " ++ type_name found))))))
display (duplicate_field table field) =
    codes "table `" ++ (table ++ (codes "` already defines field `" ++ (field ++ codes "`")))
display (duplicate_lookup table field) =
    codes "table `" ++ (table ++ (codes "` already defines lookup `" ++ (field ++ codes "`")))
display (duplicate_table table) = codes "table `" ++ (table ++ codes "` already exists")
display (missing_id_field table) =
    codes "table `" ++ (table ++ codes "` must include an `id` field")
display (id_field_must_be_id table) =
    codes "table `" ++ (table ++ codes "` field `id` must use primitive type `id`")
display (unknown_lookup_field table field) =
    codes "table `" ++ (table ++ (codes "` lookup `" ++ (field ++ codes "` has no field")))
display (missing_field table field) =
    codes "table `" ++ (table ++ (codes "` is missing required field `" ++ (field ++ codes "`")))
