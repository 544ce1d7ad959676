-- ===== src/Core/Value.antt =====
-- packages/sixpack-core/src/value.rs and type_declarations.rs: primitive types and typed values.
-- The type `F` stands for `f64`.
pub mod Names
use sixpack.Prelude.{Bool, true, false, Option}
use sixpack.Prelude.Text.{Text, codes}
use sixpack.Prelude.Decimal.{ℤ}

pub data PrimitiveType : Type 0 where
  id text int float bool : PrimitiveType

pub data Value (F : Type 0) : Type 0 where
  id : Text → Value F
  text : Text → Value F
  int : ℤ → Value F
  float : F → Value F
  bool : Bool → Value F

unfoldable pub value_type : {F : Type 0} → Value F → PrimitiveType
value_type (Value.id v) = PrimitiveType.id
value_type (Value.text v) = PrimitiveType.text
value_type (Value.int v) = PrimitiveType.int
value_type (Value.float v) = PrimitiveType.float
value_type (Value.bool v) = PrimitiveType.bool

unfoldable pub matches_value : {F : Type 0} → PrimitiveType → Value F → Bool
matches_value PrimitiveType.id (Value.id v) = true
matches_value PrimitiveType.text (Value.text v) = true
matches_value PrimitiveType.int (Value.int v) = true
matches_value PrimitiveType.float (Value.float v) = true
matches_value PrimitiveType.bool (Value.bool v) = true
matches_value k v = false

-- `From<PrimitiveType> for &'static str`, which `Display` writes too.
unfoldable pub type_name : PrimitiveType → Text
type_name PrimitiveType.id = codes "id"
type_name PrimitiveType.text = codes "text"
type_name PrimitiveType.int = codes "int"
type_name PrimitiveType.float = codes "float"
type_name PrimitiveType.bool = codes "bool"

-- `to_string` and `str::parse` of `f64`
pub record FloatText (F : Type 0) : Type 0 where
  pub print : F → Text
  pub parse : Text → Option F

abbrev pub bool_name : Bool → Text
bool_name true = codes "true"
bool_name false = codes "false"
