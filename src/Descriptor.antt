-- ===== src/Descriptor.antt =====
-- internal/binary/descriptor.go: component type descriptors. A descriptor refers to another by
-- its index in a type table, so none of these types is recursive.
use Prim.Native.String.{String}
use component_model.Prelude.{ℕ, List, Bool, Option}

-- The primitive type names, which the source keeps as strings; `other` is any other string.
pub data PrimName : Type 0 where
  bool s8 u8 s16 u16 s32 u32 s64 u64 f32 f64 char string error_context : PrimName
  other : String → PrimName

-- An empty `Primitive`, a nil `TypeIndex` is `none`.
pub record TypeRef : Type 0 where
  pub primitive : Option PrimName
  pub type_index : Option ℕ

pub record RecordField : Type 0 where
  pub name : String
  pub type : TypeRef

pub record VariantCase : Type 0 where
  pub name : String
  pub type : Option TypeRef

-- `FuncParam` and `FuncResult` have the same fields.
pub record FuncParam : Type 0 where
  pub name : String
  pub type : TypeRef

pub record FuncResults : Type 0 where
  pub unnamed : Option TypeRef
  pub named : List FuncParam

pub record FuncDesc : Type 0 where
  pub params : List FuncParam
  pub results : FuncResults
  pub async : Bool

-- What an instance, component or resource descriptor holds plays no part in the layout.
pub data TypeDesc : Type 0 where
  primitive_desc : PrimName → TypeDesc
  record_desc : List RecordField → TypeDesc
  variant_desc : List VariantCase → TypeDesc
  list_desc : TypeRef → TypeDesc
  tuple_desc : List TypeRef → TypeDesc
  flags_desc : List String → TypeDesc
  enum_desc : List String → TypeDesc
  option_desc : TypeRef → TypeDesc
  result_desc : Option TypeRef → Option TypeRef → TypeDesc
  own_desc borrow_desc : ℕ → TypeDesc
  stream_desc future_desc : Option TypeRef → TypeDesc
  func_desc : FuncDesc → TypeDesc
  instance_desc component_desc resource_desc : TypeDesc
