-- ===== src/Core/Value/Names.antt =====
-- Primitive types by their schema names: the `From<&str>` of value.rs and the table of
-- type_declarations.rs.
use sixpack.Prelude.{true, List, [], ◌∷◌, Option, none, some, ◌≡◌, refl, if◌then◌else◌, ◌↔◌, arith}
use sixpack.Prelude.Text.{Text, codes, text_ord}
use sixpack.Prelude.Order.{same, list_cmp}
use sixpack.Core.Value.{PrimitiveType, Value, value_type, matches_value, type_name}

-- An unknown name is read as `text`.
unfoldable pub from_name : Text → PrimitiveType
from_name s =
    if same s (codes "id")
    then PrimitiveType.id
    else if same s (codes "text")
    then PrimitiveType.text
    else if same s (codes "int")
    then PrimitiveType.int
    else if same s (codes "float")
    then PrimitiveType.float
    else if same s (codes "bool")
    then PrimitiveType.bool
    else PrimitiveType.text

pub record PrimitiveTypeDecl : Type 0 where
  pub schema_name : Text
  pub rust_name : Text
  pub rust_expr : Text
  pub rust_docs : Text

pub for_type : PrimitiveType → PrimitiveTypeDecl
for_type PrimitiveType.id = record {
  schema_name = codes "id";
  rust_name = codes "String";
  rust_expr = codes "String";
  rust_docs = codes "Stable string identifier";
}
for_type PrimitiveType.text = record {
  schema_name = codes "text";
  rust_name = codes "String";
  rust_expr = codes "String";
  rust_docs = codes "UTF-8 text";
}
for_type PrimitiveType.int = record {
  schema_name = codes "int";
  rust_name = codes "i64";
  rust_expr = codes "i64";
  rust_docs = codes "Signed integer";
}
for_type PrimitiveType.float = record {
  schema_name = codes "float";
  rust_name = codes "f64";
  rust_expr = codes "f64";
  rust_docs = codes "Floating point number";
}
for_type PrimitiveType.bool = record {
  schema_name = codes "bool";
  rust_name = codes "bool";
  rust_expr = codes "bool";
  rust_docs = codes "Boolean";
}

primitive_type_declarations : List PrimitiveTypeDecl
unfolding for_type
primitive_type_declarations =
    for_type PrimitiveType.id
    ∷ for_type PrimitiveType.text
    ∷ for_type PrimitiveType.int
    ∷ for_type PrimitiveType.float
    ∷ for_type PrimitiveType.bool
    ∷ []

unfoldable rust_type_name : PrimitiveType → Text
unfolding for_type
rust_type_name k = (for_type k).rust_expr

find_in : List PrimitiveTypeDecl → Text → Option PrimitiveTypeDecl
find_in [] s = none
find_in (d ∷ ds) s = if same d.schema_name s then some d else find_in ds s

pub find_decl : Text → Option PrimitiveTypeDecl
unfolding find_in primitive_type_declarations
find_decl s = find_in primitive_type_declarations s

-- Each primitive type is found again by its schema name, by the conversion and in the table of
-- declarations.
pub name_round_trip :
    (k : PrimitiveType)
    → (from_name (type_name k) ≡ k) × (find_decl (type_name k) ≡ some (for_type k))
unfolding from_name type_name find_decl list_cmp
name_round_trip PrimitiveType.id = (refl, refl)
name_round_trip PrimitiveType.text = (refl, refl)
name_round_trip PrimitiveType.int = (refl, refl)
name_round_trip PrimitiveType.float = (refl, refl)
name_round_trip PrimitiveType.bool = (refl, refl)

-- A type matches exactly the values whose type it is.
pub matches_value_iff :
    {F : Type 0} (k : PrimitiveType) (v : Value F) → (matches_value k v ≡ true) ↔ (value_type v ≡ k)
unfolding matches_value value_type
matches_value_iff k v = ground arith
