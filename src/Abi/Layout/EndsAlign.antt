-- ===== src/Abi/Layout/EndsAlign.antt =====
-- internal/abi/layout.go: an alignment ends if the computation ends on each type referred to.
use component_model.Prelude.{
  ℕ, ◌≡◌, List, [], ◌∷◌, Option, none, some, inl, inr, arith, length, All, ok, Ends, Ends-bind,
  Option-cases,
}
use component_model.Descriptor.{PrimName, TypeDesc, TypeRef, RecordField, VariantCase}
use component_model.Abi.Layout.{
  checked_align, checked_add, discriminant_type, alignment_primitive, size_primitive, flags_width,
  Resolver, resolve_type,
}
use component_model.Abi.Layout.Align.{
  Measure, larger, alignment_enum, measure_ref, alignment_optional, alignment_record,
  alignment_tuple, max_case_alignment, alignment_variant, alignment_option, alignment_result,
  alignment_kind, alignment,
}
use component_model.Abi.Layout.Size.{size_enum_num_cases}

pub checked_align-Ends : (offset alignment : ℕ) → Ends (checked_align offset alignment)
unfolding checked_align
checked_align-Ends offset alignment = ground arith

pub checked_add-Ends : (a b : ℕ) → Ends (checked_add a b)
unfolding checked_add
checked_add-Ends a b = ground arith

pub alignment_primitive-Ends : (p : Option PrimName) → Ends (alignment_primitive p)
unfolding alignment_primitive
alignment_primitive-Ends p = ground arith

pub size_primitive-Ends : (p : Option PrimName) → Ends (size_primitive p)
unfolding size_primitive
size_primitive-Ends p = ground arith

pub flags_width-Ends : (n : ℕ) → Ends (flags_width n)
unfolding flags_width
flags_width-Ends n = ground arith

alignment_enum-Ends : (n : ℕ) → Ends (alignment_enum n)
unfolding alignment_enum
alignment_enum-Ends n = elim (Option-cases (discriminant_type n)) [
  | inl absent ↦ rw (absent, alignment_enum) tt
  | inr (d, found) ↦ rw (found, alignment_enum) (alignment_primitive-Ends (some d))
]

pub size_enum-Ends : (n : ℕ) → Ends (size_enum_num_cases n)
unfolding size_enum_num_cases
size_enum-Ends n = elim (Option-cases (discriminant_type n)) [
  | inl absent ↦ rw (absent, size_enum_num_cases) tt
  | inr (d, found) ↦ rw (found, size_enum_num_cases) (size_primitive-Ends (some d))
]

pub resolve_type-Ends :
    (resolve : Resolver) (ref : Option TypeRef) → Ends (resolve_type resolve ref)
unfolding resolve_type
resolve_type-Ends resolve ref = ground arith

module _ (resolve : Resolver) (ba bs : Measure) where
  -- Both computations end on whatever the reference resolves to.
  abbrev pub Good : TypeRef → Type 0
  Good ref =
      (t : Option TypeDesc) → resolve_type resolve (some ref) ≡ ok t → Ends (ba t) × Ends (bs t)

  abbrev pub GoodOptional : Option TypeRef → Type 0
  GoodOptional none = Unit {0}
  GoodOptional (some ref) = Good ref

  abbrev pub GoodKind : TypeDesc → Type 0
  GoodKind (TypeDesc.record_desc fields) = All (λ (f : RecordField). Good f.type) fields
  GoodKind (TypeDesc.variant_desc cases) = All (λ (c : VariantCase). GoodOptional c.type) cases
  GoodKind (TypeDesc.tuple_desc elements) = All Good elements
  GoodKind (TypeDesc.option_desc element) = Good element
  GoodKind (TypeDesc.result_desc o p) = GoodOptional o × GoodOptional p
  GoodKind t = Unit {0}

  measure_align-Ends : (ref : TypeRef) → Good ref → Ends (measure_ref resolve ba ref)
  unfolding measure_ref
  measure_align-Ends ref g =
      Ends-bind _ ba (resolve_type-Ends resolve (some ref)) (λ t e. (g t e).0)

  pub measure_size-Ends : (ref : TypeRef) → Good ref → Ends (measure_ref resolve bs ref)
  unfolding measure_ref
  measure_size-Ends ref g = Ends-bind _ bs (resolve_type-Ends resolve (some ref)) (λ t e. (g t e).1)

  alignment_optional-Ends :
      (o : Option TypeRef) (m : ℕ) → GoodOptional o → Ends (alignment_optional resolve ba o m)
  unfolding alignment_optional
  alignment_optional-Ends none m g = tt
  alignment_optional-Ends (some ref) m g = Ends-bind _ _ (measure_align-Ends ref g) (λ _ _. tt)

  pub alignment_record-Ends :
      (fields : List RecordField) (m : ℕ)
      → All (λ (f : RecordField). Good f.type) fields
      → Ends (alignment_record resolve ba fields m)
  unfolding alignment_record
  alignment_record-Ends [] m g = tt
  alignment_record-Ends (f ∷ fields) m g =
      Ends-bind _ _ (measure_align-Ends f.type g.0)
        (λ x _. alignment_record-Ends fields (larger m x) g.1)

  pub alignment_tuple-Ends :
      (elements : List TypeRef) (m : ℕ)
      → All Good elements
      → Ends (alignment_tuple resolve ba elements m)
  unfolding alignment_tuple
  alignment_tuple-Ends [] m g = tt
  alignment_tuple-Ends (r ∷ elements) m g =
      Ends-bind _ _ (measure_align-Ends r g.0)
        (λ x _. alignment_tuple-Ends elements (larger m x) g.1)

  pub max_case_alignment-Ends :
      (cases : List VariantCase) (m : ℕ)
      → All (λ (c : VariantCase). GoodOptional c.type) cases
      → Ends (max_case_alignment resolve ba cases m)
  unfolding max_case_alignment
  max_case_alignment-Ends [] m g = tt
  max_case_alignment-Ends (c ∷ cases) m g =
      Ends-bind _ _ (alignment_optional-Ends c.type m g.0)
        (λ x _. max_case_alignment-Ends cases x g.1)

  pub alignment_variant-Ends :
      (cases : List VariantCase)
      → All (λ (c : VariantCase). GoodOptional c.type) cases
      → Ends (alignment_variant resolve ba cases)
  unfolding alignment_variant
  alignment_variant-Ends cases g =
      Ends-bind _ _ (alignment_primitive-Ends (discriminant_type (length cases)))
        λ d _. Ends-bind _ _ (max_case_alignment-Ends cases 1 g) λ m _. tt

  pub alignment_kind-Ends : (t : TypeDesc) → GoodKind t → Ends (alignment_kind resolve ba (some t))
  unfolding alignment_kind alignment_option alignment_result
  alignment_kind-Ends (TypeDesc.primitive_desc prim) g = alignment_primitive-Ends (some prim)
  alignment_kind-Ends (TypeDesc.record_desc fields) g = alignment_record-Ends fields 1 g
  alignment_kind-Ends (TypeDesc.variant_desc cases) g = alignment_variant-Ends cases g
  alignment_kind-Ends (TypeDesc.tuple_desc elements) g = alignment_tuple-Ends elements 1 g
  alignment_kind-Ends (TypeDesc.flags_desc names) g = flags_width-Ends (length names)
  alignment_kind-Ends (TypeDesc.enum_desc cases) g = alignment_enum-Ends (length cases)
  alignment_kind-Ends (TypeDesc.option_desc element) g =
      Ends-bind _ _ (measure_align-Ends element g) (λ _ _. tt)
  alignment_kind-Ends (TypeDesc.result_desc o p) g =
      Ends-bind _ _ (alignment_optional-Ends o 1 g.0)
        λ x _. Ends-bind _ _ (alignment_optional-Ends p x g.1) λ _ _. tt
  alignment_kind-Ends t g = tt
