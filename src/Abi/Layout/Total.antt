-- ===== src/Abi/Layout/Total.antt =====
-- internal/abi/layout.go: after a validation that succeeds, the computation of an alignment and a
-- size ends within the fuel, which the source does not have.
use component_model.Prelude.{
  ℕ, zero, suc, ◌+◌, ◌≤◌, ◌≡◌, List, [], ◌∷◌, Option, none, some, inl, inr, arith, ok, ok-bind,
  wrap, Ends, Ends-bind, wrap-eq-ok, Bool-cases, ltb,
}
use component_model.Descriptor.{PrimName, TypeDesc, TypeRef, RecordField, VariantCase}
use component_model.Abi.Layout.{
  Resolver, in_field, in_case, in_element, in_ok, max_layout_type_depth,
}
use component_model.Abi.Layout.Align.{Measure, alignment_kind, alignment_unchecked, alignment}
use component_model.Abi.Layout.Size.{size_kind, size_unchecked, size}
use component_model.Abi.Layout.Validate.{
  validate_layout_type, layout_fuel, validate_ref, validate_optional, validate_fields,
  validate_cases, validate_elements, validate_kind, validate_layout_desc, Visit,
}
use component_model.Abi.Layout.Ends.{ref_cases, validate_layout_type-Ends}
use component_model.Abi.Layout.EndsAlign.{
  Good, GoodOptional, GoodKind, alignment_kind-Ends, alignment_primitive-Ends, size_primitive-Ends,
}
use component_model.Abi.Layout.EndsSize.{size_kind-Ends}

module _ (resolve : Resolver) (ba bs : Measure) (visit : Visit)
    (names : (p : PrimName)
      → Ends (ba (some (TypeDesc.primitive_desc p))) × Ends (bs (some (TypeDesc.primitive_desc p))))
    (deep : (t : TypeDesc) (on_path : List ℕ)
      → visit t on_path ≡ ok tt
      → Ends (ba (some t)) × Ends (bs (some t))) where
  ref-Good :
      (on_path : List ℕ) (ref : TypeRef)
      → validate_ref resolve visit on_path ref ≡ ok tt
      → Good resolve ba bs ref
  ref-Good on_path ref e t r = elim (ref_cases resolve visit on_path ref) [
    | inl (p, _, found) ↦ let same : t ≡ some (TypeDesc.primitive_desc p) = cc in rw same (names p)
    | inr (inl (x, failed)) ↦ cc
    | inr (inr (d, inner, checked, found)) ↦
        let same : t ≡ some d = cc in rw same (deep d inner (cc))
  ]

  optional-Good :
      (on_path : List ℕ) (o : Option TypeRef)
      → validate_optional resolve visit on_path o ≡ ok tt
      → GoodOptional resolve ba bs o
  unfolding validate_optional
  optional-Good on_path none e = tt
  optional-Good on_path (some ref) e = ref-Good on_path ref e

  fields-Good :
      (on_path : List ℕ) (fields : List RecordField)
      → validate_fields resolve visit on_path fields ≡ ok tt
      → GoodKind resolve ba bs (TypeDesc.record_desc fields)
  unfolding validate_fields
  fields-Good on_path [] e = tt
  fields-Good on_path (f ∷ fields) e =
      ok-bind (wrap (in_field f.name) (validate_ref resolve visit on_path f.type)) _ e
        λ x ex e1. (ref-Good on_path f.type (wrap-eq-ok _ _ ex), fields-Good on_path fields e1)

  cases-Good :
      (on_path : List ℕ) (cases : List VariantCase)
      → validate_cases resolve visit on_path cases ≡ ok tt
      → GoodKind resolve ba bs (TypeDesc.variant_desc cases)
  unfolding validate_cases
  cases-Good on_path [] e = tt
  cases-Good on_path (c ∷ cases) e =
      ok-bind (wrap (in_case c.name) (validate_optional resolve visit on_path c.type)) _ e
        λ x ex e1. (optional-Good on_path c.type (wrap-eq-ok _ _ ex), cases-Good on_path cases e1)

  elements-Good :
      (on_path : List ℕ) (i : ℕ) (elements : List TypeRef)
      → validate_elements resolve visit on_path i elements ≡ ok tt
      → GoodKind resolve ba bs (TypeDesc.tuple_desc elements)
  unfolding validate_elements
  elements-Good on_path i [] e = tt
  elements-Good on_path i (r ∷ elements) e =
      ok-bind (wrap (in_element i) (validate_ref resolve visit on_path r)) _ e λ x ex e1.
        (ref-Good on_path r (wrap-eq-ok _ _ ex), elements-Good on_path (i + 1) elements e1)

  pub kind-Good :
      (on_path : List ℕ) (t : TypeDesc)
      → validate_kind resolve visit on_path t ≡ ok tt
      → GoodKind resolve ba bs t
  unfolding validate_kind
  kind-Good on_path (TypeDesc.record_desc fields) e = fields-Good on_path fields e
  kind-Good on_path (TypeDesc.variant_desc cases) e = cases-Good on_path cases e
  kind-Good on_path (TypeDesc.tuple_desc elements) e = elements-Good on_path 0 elements e
  kind-Good on_path (TypeDesc.option_desc element) e = ref-Good on_path element e
  kind-Good on_path (TypeDesc.result_desc o p) e =
      ok-bind (wrap in_ok (validate_optional resolve visit on_path o)) _ e
        λ x ex e1. (optional-Good on_path o (wrap-eq-ok _ _ ex), optional-Good on_path p e1)
  kind-Good on_path t e = tt

primitives-end :
    (fuel : ℕ) (resolve : Resolver) (p : PrimName)
    → 1 ≤ fuel
    → Ends (alignment_unchecked fuel resolve (some (TypeDesc.primitive_desc p)))
      × Ends (size_unchecked fuel resolve (some (TypeDesc.primitive_desc p)))
unfolding alignment_unchecked size_unchecked alignment_kind size_kind
primitives-end zero resolve p h = absurd (omega arith)
primitives-end (suc fuel) resolve p h =
    (alignment_primitive-Ends (some p), size_primitive-Ends (some p))

checked-Ends :
    (resolve : Resolver) (fuel : ℕ) (t : TypeDesc) (depth : ℕ) (on_path : List ℕ)
    → 66 ≤ fuel + depth
    → validate_layout_desc resolve fuel t depth on_path ≡ ok tt
    → Ends (alignment_unchecked fuel resolve (some t)) × Ends (size_unchecked fuel resolve (some t))
unfolding validate_layout_desc alignment_unchecked size_unchecked
checked-Ends resolve zero t depth on_path h e = cc
checked-Ends resolve (suc fuel) t depth on_path h e =
    elim (Bool-cases (ltb max_layout_type_depth depth)) [
      | inl deep ↦ absurd (ground arith)
      | inr shallow ↦
          let good =
            kind-Good resolve (λ d. alignment_unchecked fuel resolve d)
              (λ d. size_unchecked fuel resolve d) _
              (λ p. primitives-end fuel resolve p (ground arith))
              (λ d inner. checked-Ends resolve fuel d (depth + 1) inner (omega arith)) on_path t
              (rw shallow at e) in
          (alignment_kind-Ends resolve _ _ t good, size_kind-Ends resolve _ _ t good)
    ]

validated-Ends :
    (t : Option TypeDesc) (resolve : Resolver)
    → validate_layout_type t resolve ≡ ok tt
    → Ends (alignment_unchecked layout_fuel resolve t) × Ends (size_unchecked layout_fuel resolve t)
unfolding validate_layout_type alignment_unchecked size_unchecked alignment_kind size_kind
validated-Ends none resolve e = (tt, tt)
validated-Ends (some t) resolve e = checked-Ends resolve layout_fuel t 0 [] (omega arith) e

-- `Alignment` and `Size` end with a value or an error on every descriptor and every resolver, also
-- on a type table with cycles.
pub alignment-size-Ends :
    (t : Option TypeDesc) (resolve : Resolver) → Ends (alignment t resolve) × Ends (size t resolve)
unfolding alignment size
alignment-size-Ends t resolve = (
  Ends-bind (validate_layout_type t resolve) _ (validate_layout_type-Ends t resolve)
      (λ done e. (validated-Ends t resolve e).0),
  Ends-bind (validate_layout_type t resolve) _ (validate_layout_type-Ends t resolve)
      (λ done e. (validated-Ends t resolve e).1),
)
