-- ===== src/Abi/Layout/EndsSize.antt =====
-- internal/abi/layout.go: a size ends if both computations end on each type referred to.
use component_model.Prelude.{
  ℕ, List, [], ◌∷◌, Option, none, some, inl, inr, length, All, max, Ends, Ends-bind, Option-cases,
}
use component_model.Descriptor.{TypeDesc, TypeRef, RecordField, VariantCase}
use component_model.Abi.Layout.{discriminant_type, Resolver}
use component_model.Abi.Layout.Align.{Measure, larger}
use component_model.Abi.Layout.Size.{
  place, fields_end, size_record, elements_end, size_tuple, max_case_size, size_variant,
  size_option, widen, payload_end, size_result, size_kind,
}
use component_model.Abi.Layout.EndsAlign.{
  Good, GoodOptional, GoodKind, checked_align-Ends, checked_add-Ends, size_primitive-Ends,
  size_enum-Ends, flags_width-Ends, resolve_type-Ends, measure_size-Ends, alignment_record-Ends,
  alignment_tuple-Ends, max_case_alignment-Ends, alignment_variant-Ends,
}

module _ (resolve : Resolver) (ba bs : Measure) where
  place-Ends :
      (offset : ℕ) (ref : TypeRef) → Good resolve ba bs ref → Ends (place resolve ba bs offset ref)
  unfolding place
  place-Ends offset ref g = Ends-bind _ _ (resolve_type-Ends resolve (some ref)) λ t e.
      Ends-bind _ _ (g t e).0 λ a _.
        Ends-bind _ _ (checked_align-Ends offset a)
          λ start _. Ends-bind _ _ (g t e).1 λ s _. checked_add-Ends start s

  fields_end-Ends :
      (fields : List RecordField) (offset : ℕ)
      → All (λ (f : RecordField). Good resolve ba bs f.type) fields
      → Ends (fields_end resolve ba bs fields offset)
  unfolding fields_end
  fields_end-Ends [] offset g = tt
  fields_end-Ends (f ∷ fields) offset g =
      Ends-bind _ _ (place-Ends offset f.type g.0) (λ next _. fields_end-Ends fields next g.1)

  elements_end-Ends :
      (elements : List TypeRef) (offset : ℕ)
      → All (Good resolve ba bs) elements
      → Ends (elements_end resolve ba bs elements offset)
  unfolding elements_end
  elements_end-Ends [] offset g = tt
  elements_end-Ends (r ∷ elements) offset g =
      Ends-bind _ _ (place-Ends offset r g.0) (λ next _. elements_end-Ends elements next g.1)

  max_case_size-Ends :
      (cases : List VariantCase) (m : ℕ)
      → All (λ (c : VariantCase). GoodOptional resolve ba bs c.type) cases
      → Ends (max_case_size resolve ba bs cases m)
  unfolding max_case_size
  max_case_size-Ends [] m g = tt
  max_case_size-Ends (c ∷ cases) m g = elim (Option-cases c.type) [
    | inl absent ↦ rw (absent, max_case_size) (max_case_size-Ends cases m g.1)
    | inr (ref, found) ↦
        rw (found, max_case_size)
          (Ends-bind _ _ (measure_size-Ends resolve ba bs ref (rw found at g.0))
            (λ s _. max_case_size-Ends cases (larger m s) g.1))
  ]

  size_record-Ends :
      (fields : List RecordField)
      → GoodKind resolve ba bs (TypeDesc.record_desc fields)
      → Ends (size_record resolve ba bs fields)
  unfolding size_record
  size_record-Ends fields g = Ends-bind _ _ (fields_end-Ends fields 0 g) λ offset _.
      Ends-bind _ _ (alignment_record-Ends resolve ba bs fields 1 g)
        λ a _. checked_align-Ends offset a

  size_tuple-Ends :
      (elements : List TypeRef)
      → GoodKind resolve ba bs (TypeDesc.tuple_desc elements)
      → Ends (size_tuple resolve ba bs elements)
  unfolding size_tuple
  size_tuple-Ends elements g = Ends-bind _ _ (elements_end-Ends elements 0 g) λ offset _.
      Ends-bind _ _ (alignment_tuple-Ends resolve ba bs elements 1 g)
        λ a _. checked_align-Ends offset a

  size_variant-Ends :
      (cases : List VariantCase)
      → GoodKind resolve ba bs (TypeDesc.variant_desc cases)
      → Ends (size_variant resolve ba bs cases)
  unfolding size_variant
  size_variant-Ends cases g =
      Ends-bind _ _ (size_primitive-Ends (discriminant_type (length cases))) λ d _.
        Ends-bind _ _ (max_case_alignment-Ends resolve ba bs cases 1 g) λ m _.
          Ends-bind _ _ (checked_align-Ends d m) λ payload _.
            Ends-bind _ _ (max_case_size-Ends cases 0 g) λ largest _.
              Ends-bind _ _ (checked_add-Ends payload largest) λ offset _.
                Ends-bind _ _ (alignment_variant-Ends resolve ba bs cases g)
                  λ a _. checked_align-Ends offset a

  size_option-Ends : (ref : TypeRef) → Good resolve ba bs ref → Ends (size_option resolve ba bs ref)
  unfolding size_option
  size_option-Ends ref g = Ends-bind _ _ (resolve_type-Ends resolve (some ref)) λ t e.
      Ends-bind _ _ (g t e).1 λ s _. Ends-bind _ _ (g t e).0 λ a _.
        Ends-bind _ _ (checked_align-Ends 1 a) λ payload _.
          Ends-bind _ _ (checked_add-Ends payload s) λ offset _. checked_align-Ends offset (max 1 a)

  widen-Ends :
      (o : Option TypeRef) (p : ℕ × ℕ)
      → GoodOptional resolve ba bs o
      → Ends (widen resolve ba bs o p)
  unfolding widen
  widen-Ends none p g = tt
  widen-Ends (some ref) p g =
      Ends-bind _ _ (resolve_type-Ends resolve (some ref))
        λ t e. Ends-bind _ _ (g t e).1 λ s _. Ends-bind _ _ (g t e).0 λ a _. tt

  payload_end-Ends : (p : ℕ × ℕ) → Ends (payload_end resolve ba bs p)
  unfolding payload_end
  payload_end-Ends p = Ends-bind _ _ (checked_align-Ends 1 p.1) λ payload _.
      Ends-bind _ _ (checked_add-Ends payload p.0) λ offset _. checked_align-Ends offset (max 1 p.1)

  size_result-Ends :
      (o p : Option TypeRef)
      → GoodKind resolve ba bs (TypeDesc.result_desc o p)
      → Ends (size_result resolve ba bs o p)
  unfolding size_result
  size_result-Ends o p g =
      Ends-bind _ _ (widen-Ends o (0, 1) g.0)
        λ first _. Ends-bind _ _ (widen-Ends p first g.1) λ both _. payload_end-Ends both

  pub size_kind-Ends :
      (t : TypeDesc) → GoodKind resolve ba bs t → Ends (size_kind resolve ba bs (some t))
  unfolding size_kind
  size_kind-Ends (TypeDesc.primitive_desc prim) g = size_primitive-Ends (some prim)
  size_kind-Ends (TypeDesc.record_desc fields) g = size_record-Ends fields g
  size_kind-Ends (TypeDesc.variant_desc cases) g = size_variant-Ends cases g
  size_kind-Ends (TypeDesc.tuple_desc elements) g = size_tuple-Ends elements g
  size_kind-Ends (TypeDesc.flags_desc names) g = flags_width-Ends (length names)
  size_kind-Ends (TypeDesc.enum_desc cases) g = size_enum-Ends (length cases)
  size_kind-Ends (TypeDesc.option_desc element) g = size_option-Ends element g
  size_kind-Ends (TypeDesc.result_desc o p) g = size_result-Ends o p g
  size_kind-Ends t g = tt
