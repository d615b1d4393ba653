-- ===== src/Abi/Layout/Ends.antt =====
-- internal/abi/layout.go: the validation of a type ends, and a type that passes it has layouts
-- whose computation ends, although that recursion has no bound of its own.
use component_model.Prelude.{
  ℕ, zero, suc, ◌+◌, ◌≤◌, ◌≡◌, List, [], ◌∷◌, Option, none, some, ◌⊎◌, inl, inr, arith, ok, err,
  Option-cases, Ends, Ends-bind, Ends-wrap, Bool-cases, ltb,
}
use component_model.Descriptor.{PrimName, TypeDesc, TypeRef, RecordField, VariantCase}
use component_model.Abi.Layout.{
  Error, Resolver, resolve_type, type_cycle, requires_resolver, resolved_to_nil,
  no_primitive_nor_index, max_layout_type_depth,
}
use component_model.Abi.Layout.Validate.{
  validate_layout_type, layout_fuel, validate_ref, validate_optional, validate_fields,
  validate_cases, validate_elements, validate_kind, validate_layout_desc, Visit, is_visiting,
}

-- The three ways of a reference: to a primitive, to an error of the check, to a table entry.
abbrev pub RefCase : Resolver → Visit → List ℕ → TypeRef → Type 0
RefCase resolve visit on_path ref =
    ((p : PrimName) × (validate_ref resolve visit on_path ref ≡ ok tt)
      × (resolve_type resolve (some ref) ≡ ok (some (TypeDesc.primitive_desc p))))
    ⊎ ((e : Error) × (validate_ref resolve visit on_path ref ≡ err e))
    ⊎ ((d : TypeDesc) × (inner : List ℕ) × (validate_ref resolve visit on_path ref ≡ visit d inner)
        × (resolve_type resolve (some ref) ≡ ok (some d)))

indexed-RefCase :
    (resolve : Resolver) (visit : Visit) (on_path : List ℕ) (ref : TypeRef) (idx : ℕ)
    → ref.primitive ≡ none
    → ref.type_index ≡ some idx
    → RefCase resolve visit on_path ref
unfolding validate_ref resolve_type
indexed-RefCase none visit on_path ref idx p i = elim (Bool-cases (is_visiting on_path idx)) [
  | inl old ↦ inr (inl (type_cycle idx, ground arith))
  | inr new ↦ inr (inl (requires_resolver idx, ground arith))
]
indexed-RefCase (some table) visit on_path ref idx p i =
    elim (Bool-cases (is_visiting on_path idx)) [
      | inl old ↦ inr (inl (type_cycle idx, ground arith))
      | inr new ↦ elim (Option-cases (table idx)) [
        | inl nothing ↦ inr (inl (resolved_to_nil idx, ground arith))
        | inr (d, found) ↦ inr (inr (d, idx ∷ on_path, ground arith, ground arith))
      ]
    ]

pub ref_cases :
    (resolve : Resolver) (visit : Visit) (on_path : List ℕ) (ref : TypeRef)
    → RefCase resolve visit on_path ref
unfolding validate_ref resolve_type
ref_cases resolve visit on_path ref = elim (Option-cases ref.primitive) [
  | inr (prim, named) ↦ inl (prim, ground arith, ground arith)
  | inl absent ↦ elim (Option-cases ref.type_index) [
    | inl neither ↦ inr (inl (no_primitive_nor_index, ground arith))
    | inr (idx, at) ↦ indexed-RefCase resolve visit on_path ref idx absent at
  ]
]

module _ (resolve : Resolver) (visit : Visit)
    (h : (t : TypeDesc) (on_path : List ℕ) → Ends (visit t on_path)) where
  validate_ref-Ends :
      (on_path : List ℕ) (ref : TypeRef) → Ends (validate_ref resolve visit on_path ref)
  validate_ref-Ends on_path ref = elim (ref_cases resolve visit on_path ref) [
    | inl (p, e, _) ↦ rw e tt
    | inr (inl (x, e)) ↦ rw e tt
    | inr (inr (d, inner, e, _)) ↦ rw e (h d inner)
  ]

  validate_optional-Ends :
      (on_path : List ℕ) (o : Option TypeRef) → Ends (validate_optional resolve visit on_path o)
  unfolding validate_optional
  validate_optional-Ends on_path none = tt
  validate_optional-Ends on_path (some ref) = validate_ref-Ends on_path ref

  validate_fields-Ends :
      (on_path : List ℕ) (fields : List RecordField)
      → Ends (validate_fields resolve visit on_path fields)
  unfolding validate_fields
  validate_fields-Ends on_path [] = tt
  validate_fields-Ends on_path (f ∷ fields) =
      Ends-bind _ _ (Ends-wrap _ _ (validate_ref-Ends on_path f.type))
        (λ _ _. validate_fields-Ends on_path fields)

  validate_cases-Ends :
      (on_path : List ℕ) (cases : List VariantCase)
      → Ends (validate_cases resolve visit on_path cases)
  unfolding validate_cases
  validate_cases-Ends on_path [] = tt
  validate_cases-Ends on_path (c ∷ cases) =
      Ends-bind _ _ (Ends-wrap _ _ (validate_optional-Ends on_path c.type))
        (λ _ _. validate_cases-Ends on_path cases)

  validate_elements-Ends :
      (on_path : List ℕ) (i : ℕ) (elements : List TypeRef)
      → Ends (validate_elements resolve visit on_path i elements)
  unfolding validate_elements
  validate_elements-Ends on_path i [] = tt
  validate_elements-Ends on_path i (e ∷ elements) =
      Ends-bind _ _ (Ends-wrap _ _ (validate_ref-Ends on_path e))
        (λ _ _. validate_elements-Ends on_path (i + 1) elements)

  validate_kind-Ends :
      (on_path : List ℕ) (t : TypeDesc) → Ends (validate_kind resolve visit on_path t)
  unfolding validate_kind
  validate_kind-Ends on_path (TypeDesc.record_desc fields) = validate_fields-Ends on_path fields
  validate_kind-Ends on_path (TypeDesc.variant_desc cases) = validate_cases-Ends on_path cases
  validate_kind-Ends on_path (TypeDesc.tuple_desc elements) =
      validate_elements-Ends on_path 0 elements
  validate_kind-Ends on_path (TypeDesc.option_desc element) = validate_ref-Ends on_path element
  validate_kind-Ends on_path (TypeDesc.result_desc o p) =
      Ends-bind _ _ (Ends-wrap _ _ (validate_optional-Ends on_path o))
        (λ _ _. validate_optional-Ends on_path p)
  validate_kind-Ends on_path t = tt

validate_layout_desc-Ends :
    (resolve : Resolver) (fuel : ℕ) (t : TypeDesc) (depth : ℕ) (on_path : List ℕ)
    → depth ≤ 65
    → 66 ≤ fuel + depth
    → Ends (validate_layout_desc resolve fuel t depth on_path)
unfolding validate_layout_desc
validate_layout_desc-Ends resolve zero t depth on_path h k = absurd (omega arith)
validate_layout_desc-Ends resolve (suc fuel) t depth on_path h k =
    elim (Bool-cases (ltb max_layout_type_depth depth)) [
      | inl deep ↦ rw deep tt
      | inr shallow ↦ rw shallow (
          validate_kind-Ends resolve _
            (λ d inner.
              validate_layout_desc-Ends resolve fuel d (depth + 1) inner (ground arith)
                (ground arith))
            on_path t)
    ]

-- The validation ends on every descriptor and every resolver, cyclic ones included.
pub validate_layout_type-Ends :
    (t : Option TypeDesc) (resolve : Resolver) → Ends (validate_layout_type t resolve)
unfolding validate_layout_type
validate_layout_type-Ends none resolve = tt
validate_layout_type-Ends (some t) resolve =
    validate_layout_desc-Ends resolve layout_fuel t 0 [] (omega arith) (omega arith)
