-- ===== src/Core/Identifier.antt =====
-- packages/sixpack-core/src/identifier.rs and workspace.rs: validated names. A validated name is
-- its text; what the newtypes promise is proved in `Safe`.
pub mod Safe
use sixpack.Prelude.{ℕ, Bool, true, false, not, ◌&&◌, ◌||◌, [], ◌∷◌, all, ◌==◌, if◌then◌else◌}
use sixpack.Prelude.Outcome.{Outcome, ok, err, ◌>>=◌, ◌>>◌}
use sixpack.Prelude.Text.{
  Text, text_ord, codes, is_empty, starts_with, contains, is_ascii_lowercase, is_ascii_digit,
  is_ascii_alphanumeric,
}
use sixpack.Prelude.Order.{same}
use sixpack.Core.Error.{
  SchemaError, invalid_workspace_name, invalid_table_name, reserved_field_name, invalid_field_name,
}

unfoldable pub validate_workspace_name : Text → Outcome SchemaError (Unit {0})
validate_workspace_name name =
    if not (is_empty name)
      && not (same name (codes "."))
      && not (same name (codes ".."))
      && not (starts_with name (codes "_"))
      && all (λ byte. is_ascii_alphanumeric byte || byte == b'-' || byte == b'_') name
    then ok tt
    else err (invalid_workspace_name name)

abbrev pub is_name_byte : ℕ → Bool
is_name_byte byte = is_ascii_lowercase byte || is_ascii_digit byte || byte == b'_'

unfoldable pub is_schema_name : Text → Bool
is_schema_name [] = false
is_schema_name (first ∷ bytes) =
    not (contains (first ∷ bytes) (codes "__"))
    && is_ascii_lowercase first
    && all is_name_byte bytes

-- `WorkspaceName::new`
unfoldable pub workspace_name : Text → Outcome SchemaError Text
unfolding validate_workspace_name
workspace_name name = do validate_workspace_name name; ok name

-- `TableName::new`
unfoldable pub table_name : Text → Outcome SchemaError Text
table_name name = if is_schema_name name then ok name else err (invalid_table_name name)

-- `FieldName::new`
unfoldable pub field_name : Text → Outcome SchemaError Text
field_name name =
    if starts_with name (codes "_")
    then err (reserved_field_name name)
    else if is_schema_name name
    then ok name
    else err (invalid_field_name name)

-- `ensure_public_field_name` of error.rs
unfoldable pub ensure_public_field_name : Text → Outcome SchemaError (Unit {0})
unfolding field_name
ensure_public_field_name name =
    if is_empty name
    then err (invalid_field_name (codes "<empty>"))
    else if starts_with name (codes "_")
    then err (reserved_field_name name)
    else do field_name name; ok tt
