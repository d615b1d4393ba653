-- ===== src/Abi/Layout/Align.antt =====
-- internal/abi/layout.go: `Alignment` and the functions below it. The first argument of the
-- helpers is the computation on a type that is referred to, which is the recursive call.
use component_model.Prelude.{
  ℕ, zero, suc, List, [], ◌∷◌, Option, none, some, ltb, if◌then◌else◌, Result, ok, err, stuck,
  ◌>>=◌, ◌>>◌, length,
}
use component_model.Descriptor.{TypeDesc, TypeRef, RecordField, VariantCase}
use component_model.Abi.Layout.{
  Error, unknown_descriptor, unsupported, invalid_enum, Resolver, discriminant_type,
  alignment_primitive, resolve_type, flags_width,
}
use component_model.Abi.Layout.Validate.{validate_layout_type, layout_fuel}

abbrev pub Measure : Type 0
Measure = Option TypeDesc → Result Error ℕ

-- `if align > maxAlign { maxAlign = align }`
abbrev pub larger : ℕ → ℕ → ℕ
larger so_far x = if ltb so_far x then x else so_far

unfoldable pub alignment_enum : ℕ → Result Error ℕ
alignment_enum num_cases = elim (discriminant_type num_cases) [
  | none ↦ err (invalid_enum num_cases)
  | some disc ↦ alignment_primitive (some disc)
]

module _ (resolve : Resolver) (below : Measure) where
  unfoldable pub measure_ref : TypeRef → Result Error ℕ
  measure_ref ref = resolve_type resolve (some ref) >>= below

  -- An absent payload counts for nothing.
  unfoldable pub alignment_optional : Option TypeRef → ℕ → Result Error ℕ
  alignment_optional none max_align = ok max_align
  alignment_optional (some ref) max_align = do align ← measure_ref ref; ok (larger max_align align)

  unfoldable pub alignment_record : List RecordField → ℕ → Result Error ℕ
  alignment_record [] max_align = ok max_align
  alignment_record (f ∷ fields) max_align = do
    align ← measure_ref f.type
    alignment_record fields (larger max_align align)

  unfoldable pub alignment_tuple : List TypeRef → ℕ → Result Error ℕ
  alignment_tuple [] max_align = ok max_align
  alignment_tuple (e ∷ elements) max_align = do
    align ← measure_ref e
    alignment_tuple elements (larger max_align align)

  unfoldable pub max_case_alignment : List VariantCase → ℕ → Result Error ℕ
  max_case_alignment [] max_align = ok max_align
  max_case_alignment (c ∷ cases) max_align = do
    max_align' ← alignment_optional c.type max_align
    max_case_alignment cases max_align'

  unfoldable pub alignment_variant : List VariantCase → Result Error ℕ
  alignment_variant cases = do
    disc_align ← alignment_primitive (discriminant_type (length cases))
    max_case_align ← max_case_alignment cases 1
    ok (larger disc_align max_case_align)

  -- `alignmentPrimitive("u8")` is 1.
  unfoldable pub alignment_option : TypeRef → Result Error ℕ
  alignment_option element = do elem_align ← measure_ref element; ok (larger 1 elem_align)

  unfoldable pub alignment_result : Option TypeRef → Option TypeRef → Result Error ℕ
  alignment_result ok_type err_type = do
    ok_align ← alignment_optional ok_type 1
    max_align ← alignment_optional err_type ok_align
    ok (larger 1 max_align)

  unfoldable pub alignment_kind : Measure
  alignment_kind none = err unknown_descriptor
  alignment_kind (some (TypeDesc.primitive_desc prim)) = alignment_primitive (some prim)
  alignment_kind (some (TypeDesc.record_desc fields)) = alignment_record fields 1
  alignment_kind (some (TypeDesc.variant_desc cases)) = alignment_variant cases
  alignment_kind (some (TypeDesc.list_desc element)) = ok 4
  alignment_kind (some (TypeDesc.tuple_desc elements)) = alignment_tuple elements 1
  alignment_kind (some (TypeDesc.flags_desc names)) = flags_width (length names)
  alignment_kind (some (TypeDesc.enum_desc cases)) = alignment_enum (length cases)
  alignment_kind (some (TypeDesc.option_desc element)) = alignment_option element
  alignment_kind (some (TypeDesc.result_desc ok_type err_type)) = alignment_result ok_type err_type
  alignment_kind (some (TypeDesc.own_desc resource)) = ok 4
  alignment_kind (some (TypeDesc.borrow_desc resource)) = ok 4
  alignment_kind (some (TypeDesc.stream_desc element)) = ok 4
  alignment_kind (some (TypeDesc.future_desc element)) = ok 4
  alignment_kind (some t) = err (unsupported t)

-- The recursion has no bound of its own in the source: it relies on the validation before it.
unfoldable pub alignment_unchecked : ℕ → Resolver → Measure
alignment_unchecked zero resolve t = stuck
alignment_unchecked (suc fuel) resolve t =
    alignment_kind resolve (λ d. alignment_unchecked fuel resolve d) t

unfoldable pub alignment : Option TypeDesc → Resolver → Result Error ℕ
alignment t resolve = validate_layout_type t resolve >> alignment_unchecked layout_fuel resolve t
