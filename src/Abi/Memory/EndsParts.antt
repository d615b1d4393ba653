-- ===== src/Abi/Memory/EndsParts.antt =====
-- internal/abi/memory.go: the fields, elements and payloads of a store come to an end, if the values
-- below them do.
use component_model.Prelude.{
  ℕ, ◌+◌, ◌%◌, ◌-◌, ◌≤◌, ◌∙◌, ap, ok-bind, ◌≡◌, arith, List, [], ◌∷◌, Option, none, some, not, ltb,
  ◌==◌, ok, wrap-eq-ok, Ends, Ends-bind, Ends-wrap, get_elem?,
}
use component_model.Descriptor.{TypeDesc, TypeRef, RecordField, VariantCase}
use component_model.Abi.Layout.{Resolver, resolve_type}
use component_model.Abi.Layout.Align.{
  alignment, alignment_unchecked, max_case_alignment, Measure, measure_ref, alignment_optional,
}
use component_model.Abi.Layout.Size.{size}
use component_model.Abi.Layout.EndsAlign.{checked_align-Ends, checked_add-Ends, resolve_type-Ends}
use component_model.Abi.Layout.Total.{alignment-size-Ends}
use component_model.Abi.Value.{Value, slice, Values, nil, cons, count_values}
use component_model.Abi.Memory.{Memory, MemError, Realloc, layout}
use component_model.Abi.Memory.Load.{arm_alignment, result_payload}
use component_model.Abi.Memory.Store.{
  Stored, store_each, alloc_store_list, alloc_store_any_list, store_list, store_field, store_fields,
  store_elements, store_payload, store_case,
}
use component_model.Abi.Memory.Blocks.{layout-ok}
use component_model.Abi.Memory.Elements.{unchecked-alignment}
use component_model.Abi.Layout.Validate.{layout_fuel}
use component_model.Abi.Layout.Fuel.{max_case_alignment-Keeps, alignment_unchecked-more}
use component_model.Abi.Layout.Inside.{case-alignment}
use component_model.Abi.Memory.Ends.{
  Answers, grow-Ends, check-Ends, layout-Ends, if-Ends, checked_byte_length-Ends, store_pair-Ends,
}
use component_model.Abi.Memory.Fits.{FitsRef, FitsArm, FitsFields, FitsElements, FitsEach}

-- The type passed the computation of its alignment, within the depth of a validated type.
abbrev pub HasAlignment : Resolver → Option TypeDesc → Type 0
HasAlignment resolve t =
    (n : ℕ) × (a : ℕ) × (n ≤ layout_fuel) × (alignment_unchecked n resolve t ≡ ok a)

abbrev pub ArmAlignment : Resolver → Option TypeRef → Type 0
ArmAlignment resolve none = Unit {0}
ArmAlignment resolve (some ref) =
    (t : Option TypeDesc) → resolve_type resolve (some ref) ≡ ok t → HasAlignment resolve t

pub aligned-HasAlignment :
    (resolve : Resolver) (t : Option TypeDesc) (a : ℕ)
    → alignment t resolve ≡ ok a
    → HasAlignment resolve t
aligned-HasAlignment resolve t a e =
    (layout_fuel, a, omega arith, unchecked-alignment t resolve a e)

-- The parts of a type have alignments if the whole has one.
module _ (resolve : Resolver) (n : ℕ) (within : n ≤ layout_fuel) where
  abbrev aligns : Measure
  aligns = λ d. alignment_unchecked n resolve d

  pub measured-ArmAlignment :
      (ref : TypeRef) (x : ℕ)
      → measure_ref resolve aligns ref ≡ ok x
      → ArmAlignment resolve (some ref)
  unfolding measure_ref
  measured-ArmAlignment ref x e t found = (n, x, within, rw found at e)

  pub optional-ArmAlignment :
      (arm : Option TypeRef) (m x : ℕ)
      → alignment_optional resolve aligns arm m ≡ ok x
      → ArmAlignment resolve arm
  unfolding alignment_optional
  optional-ArmAlignment none m x e = tt
  optional-ArmAlignment (some ref) m x e =
      ok-bind (measure_ref resolve aligns ref) _ e
        λ y measured rest. measured-ArmAlignment ref y measured

  pub case-ArmAlignment :
      (cases : List VariantCase) (m x idx : ℕ) (c : VariantCase) (arm : Option TypeRef)
      → max_case_alignment resolve aligns cases m ≡ ok x
      → get_elem? cases idx ≡ some c
      → c.type ≡ arm
      → ArmAlignment resolve arm
  case-ArmAlignment cases m x idx c none e at present = tt
  case-ArmAlignment cases m x idx c (some ref) e at present =
      let (y, measured, _) = case-alignment resolve aligns cases m x idx c ref e at present in
      measured-ArmAlignment ref y measured

  pub max_case_alignment-whole :
      (cases : List VariantCase) (m x : ℕ)
      → max_case_alignment resolve aligns cases m ≡ ok x
      → max_case_alignment resolve (λ d. alignment_unchecked layout_fuel resolve d) cases m ≡ ok x
  max_case_alignment-whole cases m x e =
      ap (λ k. max_case_alignment resolve (λ d. alignment_unchecked k resolve d) cases m)
        (omega arith)
      ∙ max_case_alignment-Keeps resolve _ _
          (λ t. alignment_unchecked-more (layout_fuel - n) n resolve t) cases m x e

module _ (realloc : Realloc) (answers : Answers realloc) (resolve : Resolver)
    (below : Memory → ℕ → Option TypeDesc → Value → Stored)
    (Held : Option TypeDesc → Value → Type 0)
    (h : (mem : Memory) (p : ℕ) (t : Option TypeDesc) (v : Value)
      → HasAlignment resolve t
      → Held t v
      → Ends (below mem p t v)) where
  pub ref-Held :
      (ref : TypeRef) (t : Option TypeDesc) (v : Value)
      → resolve_type resolve (some ref) ≡ ok t
      → FitsRef resolve Held ref v
      → Held t v
  unfolding FitsRef
  ref-Held ref t v e held = rw e at held

  pub resolved-Ends : (ref : TypeRef) → Ends (layout (resolve_type resolve (some ref)))
  resolved-Ends ref = layout-Ends _ (resolve_type-Ends resolve (some ref))

  pub aligned-Ends : (t : Option TypeDesc) → Ends (layout (alignment t resolve))
  aligned-Ends t = layout-Ends _ (alignment-size-Ends t resolve).0

  sized-Ends : (t : Option TypeDesc) → Ends (layout (size t resolve))
  sized-Ends t = layout-Ends _ (alignment-size-Ends t resolve).1

  pub store_field-Ends :
      (label : MemError → MemError) (mem : Memory) (offset : ℕ) (ref : TypeRef) (v : Value)
      → FitsRef resolve Held ref v
      → Ends (store_field realloc resolve below label mem offset ref v)
  unfolding store_field
  store_field-Ends label mem offset ref v held =
      Ends-bind _ _ (Ends-wrap _ _ (resolved-Ends ref)) λ t e.
        let found = layout-ok _ (wrap-eq-ok _ _ e) in
        Ends-bind _ _ (aligned-Ends t) λ align e1.
          Ends-bind _ _ (Ends-wrap _ _ (layout-Ends _ (checked_align-Ends offset align)))
            λ start e2.
              Ends-bind _ _
                (Ends-wrap _ _ (
                  h mem start t v (aligned-HasAlignment resolve t align (layout-ok _ e1))
                    (ref-Held ref t v found held)))
                λ after e3. Ends-bind _ _ (sized-Ends t) λ s e4.
                  Ends-bind _ _ (Ends-wrap _ _ (layout-Ends _ (checked_add-Ends start s)))
                    λ next e5. tt

  pub store_fields-Ends :
      (mem : Memory) (fields : List RecordField) (offset : ℕ) (vs : Values)
      → FitsFields resolve Held fields vs
      → Ends (store_fields realloc resolve below mem fields offset vs)
  unfolding store_fields FitsFields
  store_fields-Ends mem [] offset nil held = tt
  store_fields-Ends mem [] offset (cons v vs) held = tt
  store_fields-Ends mem (f ∷ fields) offset nil held = tt
  store_fields-Ends mem (f ∷ fields) offset (cons v vs) (first, rest) =
      Ends-bind _ _ (store_field-Ends _ mem offset f.type v first)
        λ (after, next) e. store_fields-Ends after fields next vs rest

  pub store_elements-Ends :
      (mem : Memory) (i : ℕ) (elements : List TypeRef) (offset : ℕ) (vs : Values)
      → FitsElements resolve Held elements vs
      → Ends (store_elements realloc resolve below mem i elements offset vs)
  unfolding store_elements FitsElements
  store_elements-Ends mem i [] offset nil held = tt
  store_elements-Ends mem i [] offset (cons v vs) held = tt
  store_elements-Ends mem i (x ∷ elements) offset nil held = tt
  store_elements-Ends mem i (x ∷ elements) offset (cons v vs) (first, rest) =
      Ends-bind _ _ (store_field-Ends _ mem offset x v first)
        λ (after, next) e. store_elements-Ends after (i + 1) elements next vs rest

  store_each-Ends :
      (mem : Memory) (element : TypeRef) (t : Option TypeDesc) (s i : ℕ) (vs : Values) (p : ℕ)
      → resolve_type resolve (some element) ≡ ok t
      → HasAlignment resolve t
      → FitsEach resolve Held element vs
      → Ends (store_each realloc resolve below mem t s i vs p)
  unfolding store_each FitsEach
  store_each-Ends mem element t s i nil p found aligned held = tt
  store_each-Ends mem element t s i (cons v vs) p found aligned (first, rest) =
      Ends-bind _ _ (Ends-wrap _ _ (h mem p t v aligned (ref-Held element t v found first)))
        λ after e.
          Ends-bind _ _
            (if-Ends (count_values vs == 0) _ _ tt
              (Ends-wrap _ _ (layout-Ends _ (checked_add-Ends p s))))
            λ next e1. store_each-Ends after element t s (i + 1) vs next found aligned rest

  alloc_store_list-Ends :
      (mem : Memory) (element : TypeRef) (t : Option TypeDesc) (vs : Values)
      → resolve_type resolve (some element) ≡ ok t
      → FitsEach resolve Held element vs
      → Ends (alloc_store_list realloc resolve below mem vs t)
  unfolding alloc_store_list
  alloc_store_list-Ends mem element t vs found held = Ends-bind _ _ (sized-Ends t) λ s e.
      Ends-bind _ _ (aligned-Ends t) λ align e1. check-Ends _ _ _ (
        Ends-bind _ _ (checked_byte_length-Ends (count_values vs) s) λ n e2.
          Ends-bind _ _ (Ends-wrap _ _ (grow-Ends realloc answers 0 0 align n mem)) λ (q, grown) e3.
            check-Ends (q % align == 0) _ _ (
              check-Ends (not (ltb grown.size (q + n))) _ _ (
                Ends-bind _ _
                  (store_each-Ends grown element t s 0 vs q found
                    (aligned-HasAlignment resolve t align (layout-ok _ e1)) held)
                  λ after e4. tt)))

  pub list-Ends :
      (mem : Memory) (p : ℕ) (element : TypeRef) (vs : Values)
      → FitsEach resolve Held element vs
      → Ends (store_list realloc resolve below mem p (slice vs) element)
  unfolding store_list alloc_store_any_list
  list-Ends mem p element vs held = Ends-bind _ _ (resolved-Ends element) λ t e.
      Ends-bind _ _
        (Ends-wrap _ _ (
          Ends-bind _ _ (alloc_store_list-Ends mem element t vs (layout-ok _ e) held)
            λ (q, after) e1. tt))
        λ (q, n, after) e2. store_pair-Ends _ _ after p q n

  pub payload-Ends :
      (label : MemError → MemError) (mem : Memory) (arm : Option TypeRef) (offset : ℕ) (v : Value)
      → ArmAlignment resolve arm
      → FitsArm resolve Held arm v
      → Ends (store_payload realloc resolve below label mem arm offset v)
  unfolding store_payload FitsArm
  payload-Ends label mem none offset v aligned held = tt
  payload-Ends label mem (some ref) offset v aligned held = Ends-bind _ _ (resolved-Ends ref) λ t e.
      Ends-wrap _ _
        (h mem offset t v (aligned t (layout-ok _ e)) (ref-Held ref t v (layout-ok _ e) held))

  pub case-Ends :
      (mem : Memory) (idx : ℕ) (arm : Option TypeRef) (offset : ℕ) (v : Value)
      → ArmAlignment resolve arm
      → FitsArm resolve Held arm v
      → Ends (store_case realloc resolve below mem idx arm offset v)
  unfolding store_case FitsArm
  case-Ends mem idx none offset v aligned held = tt
  case-Ends mem idx (some ref) offset v aligned held = Ends-bind _ _ (resolved-Ends ref) λ t e.
      check-Ends _ _ _ (
        Ends-wrap _ _
          (h mem offset t v (aligned t (layout-ok _ e)) (ref-Held ref t v (layout-ok _ e) held)))

  arm_alignment-Ends : (arm : Option TypeRef) (m : ℕ) → Ends (arm_alignment resolve arm m)
  unfolding arm_alignment
  arm_alignment-Ends none m = tt
  arm_alignment-Ends (some ref) m =
      Ends-bind _ _ (resolved-Ends ref) λ t e. Ends-bind _ _ (aligned-Ends t) λ a e1. tt

  pub result_payload-Ends :
      (ok_type err_type : Option TypeRef) (p : ℕ) → Ends (result_payload resolve ok_type err_type p)
  unfolding result_payload
  result_payload-Ends ok_type err_type p =
      Ends-bind _ _ (layout-Ends _ (checked_add-Ends p 1)) λ offset e.
        Ends-bind _ _ (arm_alignment-Ends ok_type 1) λ a e1.
          Ends-bind _ _ (arm_alignment-Ends err_type a)
            λ b e2. layout-Ends _ (checked_align-Ends offset b)
