-- ===== src/Abi/Layout/Fuel.antt =====
-- internal/abi/layout.go: a layout that was computed within some depth of calls is computed within
-- any larger depth, and so it does not depend on where in a type the computation starts.
use component_model.Prelude.{
  ◌-◌, ◌≤◌, inl, inr, Option-cases, ℕ, zero, suc, ◌+◌, ◌≡◌, ap, sym, arith, List, [], ◌∷◌, Option,
  none, some, ok, Keeps, Keeps-bind, ok-bind, ok-injective, ◌∙◌,
}
use mathlib.Core.Path.{subst}
use component_model.Descriptor.{TypeDesc, TypeRef, RecordField, VariantCase}
use component_model.Abi.Layout.{Resolver, resolve_type}
use component_model.Abi.Layout.Align.{
  Measure, measure_ref, alignment_optional, alignment_record, alignment_tuple, max_case_alignment,
  alignment_variant, alignment_option, alignment_result, alignment_kind, alignment_unchecked,
  alignment,
}
use component_model.Abi.Layout.Size.{
  place, fields_end, size_record, elements_end, size_tuple, max_case_size, size_variant,
  size_option, widen, payload_end, size_result, size_kind, size_unchecked, size,
}
use component_model.Abi.Layout.Validate.{layout_fuel, validate_layout_type}

abbrev KeepsAll : Measure → Measure → Type 0
KeepsAll below above = (t : Option TypeDesc) → Keeps (below t) (above t)

module _ (resolve : Resolver) (below above : Measure) (keeps : KeepsAll below above) where
  measure_ref-Keeps :
      (ref : TypeRef) → Keeps (measure_ref resolve below ref) (measure_ref resolve above ref)
  unfolding measure_ref
  measure_ref-Keeps ref = Keeps-bind (resolve_type resolve (some ref)) _ (λ a e. e) keeps

  pub alignment_optional-Keeps :
      (ref : Option TypeRef) (m : ℕ)
      → Keeps (alignment_optional resolve below ref m) (alignment_optional resolve above ref m)
  unfolding alignment_optional
  alignment_optional-Keeps none m = λ a e. e
  alignment_optional-Keeps (some ref) m = Keeps-bind _ _ (measure_ref-Keeps ref) λ align a e. e

  alignment_record-Keeps :
      (fields : List RecordField) (m : ℕ)
      → Keeps (alignment_record resolve below fields m) (alignment_record resolve above fields m)
  unfolding alignment_record
  alignment_record-Keeps [] m = λ a e. e
  alignment_record-Keeps (f ∷ fields) m =
      Keeps-bind _ _ (measure_ref-Keeps f.type) λ align. alignment_record-Keeps fields _

  alignment_tuple-Keeps :
      (elements : List TypeRef) (m : ℕ)
      → Keeps (alignment_tuple resolve below elements m) (alignment_tuple resolve above elements m)
  unfolding alignment_tuple
  alignment_tuple-Keeps [] m = λ a e. e
  alignment_tuple-Keeps (x ∷ elements) m =
      Keeps-bind _ _ (measure_ref-Keeps x) λ align. alignment_tuple-Keeps elements _

  pub max_case_alignment-Keeps :
      (cases : List VariantCase) (m : ℕ)
      → Keeps (max_case_alignment resolve below cases m) (max_case_alignment resolve above cases m)
  unfolding max_case_alignment
  max_case_alignment-Keeps [] m = λ a e. e
  max_case_alignment-Keeps (c ∷ cases) m =
      Keeps-bind _ _ (alignment_optional-Keeps c.type m) λ align. max_case_alignment-Keeps cases _

  alignment_variant-Keeps :
      (cases : List VariantCase)
      → Keeps (alignment_variant resolve below cases) (alignment_variant resolve above cases)
  unfolding alignment_variant
  alignment_variant-Keeps cases =
      Keeps-bind _ _ (λ a e. e)
        λ disc. Keeps-bind _ _ (max_case_alignment-Keeps cases 1) λ align a e. e

  alignment_kind-Keeps : KeepsAll (alignment_kind resolve below) (alignment_kind resolve above)
  unfolding alignment_kind alignment_option alignment_result
  alignment_kind-Keeps (some (TypeDesc.record_desc fields)) = alignment_record-Keeps fields 1
  alignment_kind-Keeps (some (TypeDesc.variant_desc cases)) = alignment_variant-Keeps cases
  alignment_kind-Keeps (some (TypeDesc.tuple_desc elements)) = alignment_tuple-Keeps elements 1
  alignment_kind-Keeps (some (TypeDesc.option_desc element)) =
      Keeps-bind _ _ (measure_ref-Keeps element) λ align a e. e
  alignment_kind-Keeps (some (TypeDesc.result_desc ok_type err_type)) =
      Keeps-bind _ _ (alignment_optional-Keeps ok_type 1)
        λ first. Keeps-bind _ _ (alignment_optional-Keeps err_type first) λ both a e. e
  alignment_kind-Keeps t = λ a e. e

pub alignment_unchecked-suc :
    (fuel : ℕ) (resolve : Resolver) (t : Option TypeDesc)
    → Keeps (alignment_unchecked fuel resolve t) (alignment_unchecked (suc fuel) resolve t)
unfolding alignment_unchecked
alignment_unchecked-suc zero resolve t = λ a e. cc
alignment_unchecked-suc (suc fuel) resolve t =
    alignment_kind-Keeps resolve _ _ (λ d. alignment_unchecked-suc fuel resolve d) t

module _ (resolve : Resolver) (below above below_size above_size : Measure)
    (aligns : KeepsAll below above) (sizes : KeepsAll below_size above_size) where
  place-Keeps :
      (offset : ℕ) (ref : TypeRef)
      → Keeps
          (place resolve below below_size offset ref)
          (place resolve above above_size offset ref)
  unfolding place
  place-Keeps offset ref =
      Keeps-bind _ _ (λ a e. e)
        λ t.
          Keeps-bind _ _ (aligns t)
            λ align. Keeps-bind _ _ (λ a e. e) λ start. Keeps-bind _ _ (sizes t) λ s a e. e

  fields_end-Keeps :
      (fields : List RecordField) (offset : ℕ)
      → Keeps
          (fields_end resolve below below_size fields offset)
          (fields_end resolve above above_size fields offset)
  unfolding fields_end
  fields_end-Keeps [] offset = λ a e. e
  fields_end-Keeps (f ∷ fields) offset =
      Keeps-bind _ _ (place-Keeps offset f.type) λ next. fields_end-Keeps fields next

  elements_end-Keeps :
      (elements : List TypeRef) (offset : ℕ)
      → Keeps
          (elements_end resolve below below_size elements offset)
          (elements_end resolve above above_size elements offset)
  unfolding elements_end
  elements_end-Keeps [] offset = λ a e. e
  elements_end-Keeps (x ∷ elements) offset =
      Keeps-bind _ _ (place-Keeps offset x) λ next. elements_end-Keeps elements next

  max_case_size-Keeps :
      (cases : List VariantCase) (m : ℕ)
      → Keeps
          (max_case_size resolve below below_size cases m)
          (max_case_size resolve above above_size cases m)
  unfolding max_case_size
  max_case_size-Keeps [] m = λ a e. e
  max_case_size-Keeps (c ∷ cases) m = elim (Option-cases c.type) [
    | inl absent ↦ rw absent (max_case_size-Keeps cases m)
    | inr (ref, present) ↦
        rw present (
          Keeps-bind _ _ (measure_ref-Keeps resolve _ _ sizes ref) λ s. max_case_size-Keeps cases _)
  ]

  widen-Keeps :
      (ref : Option TypeRef) (widest : ℕ × ℕ)
      → Keeps
          (widen resolve below below_size ref widest)
          (widen resolve above above_size ref widest)
  unfolding widen
  widen-Keeps none (max_size, max_align) = λ a e. e
  widen-Keeps (some ref) (max_size, max_align) =
      Keeps-bind _ _ (λ a e. e)
        λ t. Keeps-bind _ _ (sizes t) λ s. Keeps-bind _ _ (aligns t) λ align a e. e

  size_variant-Keeps :
      (cases : List VariantCase)
      → Keeps
          (size_variant resolve below below_size cases)
          (size_variant resolve above above_size cases)
  unfolding size_variant
  size_variant-Keeps cases =
      Keeps-bind _ _ (λ a e. e)
        λ disc. Keeps-bind _ _ (max_case_alignment-Keeps resolve _ _ aligns cases 1) λ align.
          Keeps-bind _ _ (λ a e. e)
            λ payload. Keeps-bind _ _ (max_case_size-Keeps cases 0) λ widest.
              Keeps-bind _ _ (λ a e. e)
                λ offset.
                  Keeps-bind _ _ (alignment_variant-Keeps resolve _ _ aligns cases) λ whole a e. e

  size_kind-Keeps :
      KeepsAll (size_kind resolve below below_size) (size_kind resolve above above_size)
  unfolding size_kind size_record size_tuple size_option size_result payload_end
  size_kind-Keeps (some (TypeDesc.record_desc fields)) =
      Keeps-bind _ _ (fields_end-Keeps fields 0)
        λ offset. Keeps-bind _ _ (alignment_record-Keeps resolve _ _ aligns fields 1) λ align a e. e
  size_kind-Keeps (some (TypeDesc.variant_desc cases)) = size_variant-Keeps cases
  size_kind-Keeps (some (TypeDesc.tuple_desc elements)) =
      Keeps-bind _ _ (elements_end-Keeps elements 0) λ offset.
        Keeps-bind _ _ (alignment_tuple-Keeps resolve _ _ aligns elements 1) λ align a e. e
  size_kind-Keeps (some (TypeDesc.option_desc element)) =
      Keeps-bind _ _ (λ a e. e)
        λ t. Keeps-bind _ _ (sizes t) λ s. Keeps-bind _ _ (aligns t) λ align a e. e
  size_kind-Keeps (some (TypeDesc.result_desc ok_type err_type)) =
      Keeps-bind _ _ (widen-Keeps ok_type (0, 1))
        λ first. Keeps-bind _ _ (widen-Keeps err_type first) λ both a e. e
  size_kind-Keeps t = λ a e. e

pub size_unchecked-suc :
    (fuel : ℕ) (resolve : Resolver) (t : Option TypeDesc)
    → Keeps (size_unchecked fuel resolve t) (size_unchecked (suc fuel) resolve t)
unfolding size_unchecked
size_unchecked-suc zero resolve t = λ a e. cc
size_unchecked-suc (suc fuel) resolve t =
    size_kind-Keeps resolve _ _ _ _ (λ d. alignment_unchecked-suc fuel resolve d)
      (λ d. size_unchecked-suc fuel resolve d) t

pub alignment_unchecked-more :
    (k fuel : ℕ) (resolve : Resolver) (t : Option TypeDesc)
    → Keeps (alignment_unchecked fuel resolve t) (alignment_unchecked (k + fuel) resolve t)
alignment_unchecked-more zero fuel resolve t =
    λ a e. subst (λ n. alignment_unchecked n resolve t ≡ ok a) (omega arith) e
alignment_unchecked-more (suc k) fuel resolve t = λ a e.
    subst (λ n. alignment_unchecked n resolve t ≡ ok a) (omega arith)
      (alignment_unchecked-suc (k + fuel) resolve t a
        (alignment_unchecked-more k fuel resolve t a e))

pub size_unchecked-more :
    (k fuel : ℕ) (resolve : Resolver) (t : Option TypeDesc)
    → Keeps (size_unchecked fuel resolve t) (size_unchecked (k + fuel) resolve t)
size_unchecked-more zero fuel resolve t =
    λ a e. subst (λ n. size_unchecked n resolve t ≡ ok a) (omega arith) e
size_unchecked-more (suc k) fuel resolve t = λ a e.
    subst (λ n. size_unchecked n resolve t ≡ ok a) (omega arith)
      (size_unchecked-suc (k + fuel) resolve t a (size_unchecked-more k fuel resolve t a e))

-- The layout of a part of a type, within the depth that is left there, is the layout of the part
-- taken by itself.
pub alignment-part :
    (n : ℕ) (resolve : Resolver) (t : Option TypeDesc) {a b : ℕ}
    → n ≤ layout_fuel
    → alignment t resolve ≡ ok a
    → alignment_unchecked n resolve t ≡ ok b
    → a ≡ b
unfolding alignment
alignment-part n resolve t {a} {b} within whole part =
    ok-bind (validate_layout_type t resolve) _ whole λ u valid e.
      let more = alignment_unchecked-more (layout_fuel - n) n resolve t b part in
      ok-injective (sym e ∙ ap (λ k. alignment_unchecked k resolve t) (omega arith) ∙ more)

pub size-part :
    (n : ℕ) (resolve : Resolver) (t : Option TypeDesc) {a b : ℕ}
    → n ≤ layout_fuel
    → size t resolve ≡ ok a
    → size_unchecked n resolve t ≡ ok b
    → a ≡ b
unfolding size
size-part n resolve t {a} {b} within whole part =
    ok-bind (validate_layout_type t resolve) _ whole λ u valid e.
      let more = size_unchecked-more (layout_fuel - n) n resolve t b part in
      ok-injective (sym e ∙ ap (λ k. size_unchecked k resolve t) (omega arith) ∙ more)

-- The alignment of the payloads, which the source computes once more without the validation.
pub max_case_alignment-part :
    (n : ℕ) (resolve : Resolver) (cases : List VariantCase) (m : ℕ) {a b : ℕ}
    → n ≤ layout_fuel
    → max_case_alignment resolve (λ d. alignment_unchecked layout_fuel resolve d) cases m ≡ ok a
    → max_case_alignment resolve (λ d. alignment_unchecked n resolve d) cases m ≡ ok b
    → a ≡ b
max_case_alignment-part n resolve cases m {a} {b} within whole part =
    let more =
      max_case_alignment-Keeps resolve _ _
        (λ t. alignment_unchecked-more (layout_fuel - n) n resolve t) cases m b part in
    ok-injective (
      sym whole
      ∙ ap (λ k. max_case_alignment resolve (λ d. alignment_unchecked k resolve d) cases m)
          (omega arith)
      ∙ more)
