-- ===== src/Abi/Layout/Size.antt =====
-- internal/abi/layout.go: `Size` and the functions below it.
use component_model.Prelude.{
  ℕ, zero, suc, List, [], ◌∷◌, Option, none, some, Result, ok, err, stuck, ◌>>=◌, ◌>>◌, length, max,
}
use component_model.Descriptor.{TypeDesc, TypeRef, RecordField, VariantCase}
use component_model.Abi.Layout.{
  Error, unknown_descriptor, unsupported, invalid_enum, Resolver, discriminant_type, size_primitive,
  resolve_type, flags_width, checked_align, checked_add,
}
use component_model.Abi.Layout.Align.{
  Measure, larger, measure_ref, alignment_record, alignment_tuple, max_case_alignment,
  alignment_variant, alignment_unchecked,
}
use component_model.Abi.Layout.Validate.{validate_layout_type, layout_fuel}

unfoldable pub size_enum_num_cases : ℕ → Result Error ℕ
size_enum_num_cases num_cases = elim (discriminant_type num_cases) [
  | none ↦ err (invalid_enum num_cases)
  | some disc ↦ size_primitive (some disc)
]

-- The alignment and the size of a type that is referred to.
module _ (resolve : Resolver) (below_align below_size : Measure) where
  -- Pad to the alignment, then add the size: the place of one field.
  unfoldable pub place : ℕ → TypeRef → Result Error ℕ
  place offset ref = do
    t ← resolve_type resolve (some ref)
    align ← below_align t
    start ← checked_align offset align
    size ← below_size t
    checked_add start size

  unfoldable pub fields_end : List RecordField → ℕ → Result Error ℕ
  fields_end [] offset = ok offset
  fields_end (f ∷ fields) offset = do next ← place offset f.type; fields_end fields next

  unfoldable pub size_record : List RecordField → Result Error ℕ
  size_record fields = do
    offset ← fields_end fields 0
    record_align ← alignment_record resolve below_align fields 1
    checked_align offset record_align

  unfoldable pub elements_end : List TypeRef → ℕ → Result Error ℕ
  elements_end [] offset = ok offset
  elements_end (e ∷ elements) offset = do next ← place offset e; elements_end elements next

  unfoldable pub size_tuple : List TypeRef → Result Error ℕ
  size_tuple elements = do
    offset ← elements_end elements 0
    tuple_align ← alignment_tuple resolve below_align elements 1
    checked_align offset tuple_align

  unfoldable pub max_case_size : List VariantCase → ℕ → Result Error ℕ
  max_case_size [] max_size = ok max_size
  max_case_size (c ∷ cases) max_size = elim c.type [
    | none ↦ max_case_size cases max_size
    | some ref ↦
        measure_ref resolve below_size ref >>= λ size. max_case_size cases (larger max_size size)
  ]

  unfoldable pub size_variant : List VariantCase → Result Error ℕ
  size_variant cases = do
    disc_size ← size_primitive (discriminant_type (length cases))
    max_case_align ← max_case_alignment resolve below_align cases 1
    payload ← checked_align disc_size max_case_align
    max_size ← max_case_size cases 0
    offset ← checked_add payload max_size
    variant_align ← alignment_variant resolve below_align cases
    checked_align offset variant_align

  unfoldable pub size_option : TypeRef → Result Error ℕ
  size_option element = do
    t ← resolve_type resolve (some element)
    elem_size ← below_size t
    elem_align ← below_align t
    payload ← checked_align 1 elem_align
    offset ← checked_add payload elem_size
    checked_align offset (max 1 elem_align)

  -- One arm of a result: the running maxima of the payloads' sizes and alignments.
  unfoldable pub widen : Option TypeRef → ℕ × ℕ → Result Error (ℕ × ℕ)
  widen none (max_size, max_align) = ok (max_size, max_align)
  widen (some ref) (max_size, max_align) = do
    t ← resolve_type resolve (some ref)
    size ← below_size t
    align ← below_align t
    ok (larger max_size size, larger max_align align)

  -- The payload behind the discriminant byte, and the padding at the end.
  unfoldable pub payload_end : ℕ × ℕ → Result Error ℕ
  payload_end (max_size, max_align) = do
    payload ← checked_align 1 max_align
    offset ← checked_add payload max_size
    checked_align offset (max 1 max_align)

  unfoldable pub size_result : Option TypeRef → Option TypeRef → Result Error ℕ
  size_result ok_type err_type = do
    first ← widen ok_type (0, 1)
    both ← widen err_type first
    payload_end both

  unfoldable pub size_kind : Measure
  size_kind none = err unknown_descriptor
  size_kind (some (TypeDesc.primitive_desc prim)) = size_primitive (some prim)
  size_kind (some (TypeDesc.record_desc fields)) = size_record fields
  size_kind (some (TypeDesc.variant_desc cases)) = size_variant cases
  size_kind (some (TypeDesc.list_desc element)) = ok 8
  size_kind (some (TypeDesc.tuple_desc elements)) = size_tuple elements
  size_kind (some (TypeDesc.flags_desc names)) = flags_width (length names)
  size_kind (some (TypeDesc.enum_desc cases)) = size_enum_num_cases (length cases)
  size_kind (some (TypeDesc.option_desc element)) = size_option element
  size_kind (some (TypeDesc.result_desc ok_type err_type)) = size_result ok_type err_type
  size_kind (some (TypeDesc.own_desc resource)) = ok 4
  size_kind (some (TypeDesc.borrow_desc resource)) = ok 4
  size_kind (some (TypeDesc.stream_desc element)) = ok 4
  size_kind (some (TypeDesc.future_desc element)) = ok 4
  size_kind (some t) = err (unsupported t)

unfoldable pub size_unchecked : ℕ → Resolver → Measure
size_unchecked zero resolve t = stuck
size_unchecked (suc fuel) resolve t =
    size_kind resolve (λ d. alignment_unchecked fuel resolve d) (λ d. size_unchecked fuel resolve d)
      t

unfoldable pub size : Option TypeDesc → Resolver → Result Error ℕ
size t resolve = validate_layout_type t resolve >> size_unchecked layout_fuel resolve t
