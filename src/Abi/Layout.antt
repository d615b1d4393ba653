-- ===== src/Abi/Layout.antt =====
-- internal/abi/layout.go: alignment and size of component types in linear memory. An error keeps
-- its kind, the values that its text shows and the labels that callers put in front of it.
pub mod Validate
pub mod Align
pub mod Size
pub mod Bounds
pub mod Multiple
pub mod Ends
pub mod EndsAlign
pub mod EndsSize
pub mod Total
pub mod Despecialize
pub mod Fuel
pub mod Inside
mod Runs
use Prim.Native.String.{String}
use component_model.Prelude.{
  ℕ, zero, suc, ◌+◌, ◌-◌, ◌*◌, ◌/◌, ◌%◌, ◌^◌, List, [], ◌∷◌, Option, none, some, Bool, true, false,
  ◌||◌, ltb, leb, ◌==◌, if◌then◌else◌, Result, ok, err, stuck, ◌>>=◌, ◌>>◌,
}
use component_model.Descriptor.{PrimName, TypeDesc, TypeRef}

pub data Error : Type 0 where
  depth_exceeded no_primitive_nor_index nil_reference unknown_descriptor : Error
  unsupported : TypeDesc → Error
  type_cycle requires_resolver resolved_to_nil : ℕ → Error
  align_overflow add_overflow : ℕ → ℕ → Error
  -- `none` is the empty string, which stands for no discriminant type.
  unknown_primitive : Option PrimName → Error
  invalid_flags invalid_enum : ℕ → Error
  invalid_context : String → Error
  in_field in_case : String → Error → Error
  in_element : ℕ → Error → Error
  in_ok in_err : Error → Error

-- `none` is the nil `TypeDesc`, a `none` resolver the nil function.
abbrev pub Resolver : Type 0
Resolver = Option (ℕ → Option TypeDesc)

abbrev pub max_layout_type_depth : ℕ
max_layout_type_depth = 64

abbrev pub max_uint32 : ℕ
max_uint32 = 2 ^ 32 - 1

unfoldable pub checked_align : ℕ → ℕ → Result Error ℕ
checked_align offset alignment =
    if alignment == 0
    then ok offset
    else (let sum = offset + alignment - 1 in
        if ltb max_uint32 sum
        then err (align_overflow offset alignment)
        else ok (sum / alignment * alignment % 2 ^ 32))

-- `Align` answers with a sentinel where the result does not fit.
pub align : ℕ → ℕ → ℕ
unfolding checked_align
align offset alignment = elim (checked_align offset alignment) [
  | ok aligned ↦ aligned
  | _ ↦ max_uint32
]

unfoldable pub checked_add : ℕ → ℕ → Result Error ℕ
checked_add a b = if ltb max_uint32 (a + b) then err (add_overflow a b) else ok (a + b)

-- `math.Ceil(math.Log2(float64(n)) / 8)` for 1 ≤ n < 2 ^ 32: the least k with n ≤ 256 ^ k.
abbrev pub log_cases : ℕ → ℕ
log_cases n =
    if leb n 1
    then 0
    else (if leb n 256
        then 1
        else (if leb n (256 ^ 2) then 2 else (if leb n (256 ^ 3) then 3 else 4)))

unfoldable pub discriminant_type : ℕ → Option PrimName
discriminant_type num_cases =
    if num_cases == 0 || ltb max_uint32 num_cases then none else (elim (log_cases num_cases) [
      | zero ↦ some PrimName.u8
      | suc zero ↦ some PrimName.u8
      | suc (suc zero) ↦ some PrimName.u16
      | _ ↦ some PrimName.u32
    ])

unfoldable pub alignment_primitive : Option PrimName → Result Error ℕ
alignment_primitive (some PrimName.bool) = ok 1
alignment_primitive (some PrimName.s8) = ok 1
alignment_primitive (some PrimName.u8) = ok 1
alignment_primitive (some PrimName.s16) = ok 2
alignment_primitive (some PrimName.u16) = ok 2
alignment_primitive (some PrimName.s32) = ok 4
alignment_primitive (some PrimName.u32) = ok 4
alignment_primitive (some PrimName.f32) = ok 4
alignment_primitive (some PrimName.char) = ok 4
alignment_primitive (some PrimName.s64) = ok 8
alignment_primitive (some PrimName.u64) = ok 8
alignment_primitive (some PrimName.f64) = ok 8
alignment_primitive (some PrimName.string) = ok 4
alignment_primitive (some PrimName.error_context) = ok 4
alignment_primitive p = err (unknown_primitive p)

unfoldable pub size_primitive : Option PrimName → Result Error ℕ
size_primitive (some PrimName.bool) = ok 1
size_primitive (some PrimName.s8) = ok 1
size_primitive (some PrimName.u8) = ok 1
size_primitive (some PrimName.s16) = ok 2
size_primitive (some PrimName.u16) = ok 2
size_primitive (some PrimName.s32) = ok 4
size_primitive (some PrimName.u32) = ok 4
size_primitive (some PrimName.f32) = ok 4
size_primitive (some PrimName.char) = ok 4
size_primitive (some PrimName.s64) = ok 8
size_primitive (some PrimName.u64) = ok 8
size_primitive (some PrimName.f64) = ok 8
size_primitive (some PrimName.string) = ok 8
size_primitive (some PrimName.error_context) = ok 4
size_primitive p = err (unknown_primitive p)

-- `resolveType`; a nil answer of the resolver is passed on as the nil descriptor.
unfoldable pub resolve_type : Resolver → Option TypeRef → Result Error (Option TypeDesc)
resolve_type resolve none = err nil_reference
resolve_type resolve (some ref) = elim ref.primitive [
  | some prim ↦ ok (some (TypeDesc.primitive_desc prim))
  | none ↦ elim ref.type_index [
    | none ↦ err no_primitive_nor_index
    | some idx ↦ elim resolve [ none ↦ err (requires_resolver idx) | some table ↦ ok (table idx) ]
  ]
]

-- `alignmentFlagsNumLabels` and `sizeFlagsNumLabels` have one body.
unfoldable pub flags_width : ℕ → Result Error ℕ
flags_width num_labels =
    if num_labels == 0 || ltb 32 num_labels
    then err (invalid_flags num_labels)
    else (if leb num_labels 8 then ok 1 else (if leb num_labels 16 then ok 2 else ok 4))
