-- ===== src/Abi/Layout/Validate.antt =====
-- internal/abi/layout.go, `validateLayoutDesc`: the guard against deep and cyclic types that
-- stands before every computation of a layout.
use component_model.Prelude.{
  ℕ, zero, suc, ◌+◌, List, [], ◌∷◌, Option, none, some, Bool, false, ltb, ◌==◌, ◌||◌, if◌then◌else◌,
  Result, ok, err, stuck, ◌>>◌, wrap,
}
use component_model.Descriptor.{TypeDesc, TypeRef, RecordField, VariantCase}
use component_model.Abi.Layout.{
  Error, depth_exceeded, no_primitive_nor_index, type_cycle, requires_resolver, resolved_to_nil,
  in_field, in_case, in_element, in_ok, Resolver, max_layout_type_depth,
}

abbrev pub Done : Type 0
Done = Result Error (Unit {0})

unfoldable pub is_visiting : List ℕ → ℕ → Bool
is_visiting [] idx = false
is_visiting (i ∷ visiting) idx = i == idx || is_visiting visiting idx

-- The check of a type with the indices on the path to it. The source keeps them in one map, from
-- which it deletes an index when the call below it returns.
abbrev pub Visit : Type 0
Visit = TypeDesc → List ℕ → Done

module _ (resolve : Resolver) where
  unfoldable pub validate_ref : Visit → List ℕ → TypeRef → Done
  unfolding is_visiting
  validate_ref below visiting ref = elim ref.primitive [
    | some prim ↦ ok tt
    | none ↦ elim ref.type_index [
      | none ↦ err no_primitive_nor_index
      | some idx ↦ if is_visiting visiting idx then err (type_cycle idx) else (elim resolve [
        | none ↦ err (requires_resolver idx)
        | some table ↦ elim (table idx) [
          | none ↦ err (resolved_to_nil idx)
          | some resolved ↦ below resolved (idx ∷ visiting)
        ]
      ])
    ]
  ]

  unfoldable pub validate_optional : Visit → List ℕ → Option TypeRef → Done
  validate_optional below visiting none = ok tt
  validate_optional below visiting (some ref) = validate_ref below visiting ref

  unfoldable pub validate_fields : Visit → List ℕ → List RecordField → Done
  validate_fields below visiting [] = ok tt
  validate_fields below visiting (f ∷ fields) =
      wrap (in_field f.name) (validate_ref below visiting f.type)
      >> validate_fields below visiting fields

  unfoldable pub validate_cases : Visit → List ℕ → List VariantCase → Done
  validate_cases below visiting [] = ok tt
  validate_cases below visiting (c ∷ cases) =
      wrap (in_case c.name) (validate_optional below visiting c.type)
      >> validate_cases below visiting cases

  unfoldable pub validate_elements : Visit → List ℕ → ℕ → List TypeRef → Done
  validate_elements below visiting i [] = ok tt
  validate_elements below visiting i (e ∷ elements) =
      wrap (in_element i) (validate_ref below visiting e)
      >> validate_elements below visiting (i + 1) elements

  -- The `switch`: only these kinds are entered. A list's element is not, since a list is a
  -- pointer and a length whatever it holds.
  unfoldable pub validate_kind : Visit → List ℕ → TypeDesc → Done
  validate_kind below visiting (TypeDesc.record_desc fields) = validate_fields below visiting fields
  validate_kind below visiting (TypeDesc.variant_desc cases) = validate_cases below visiting cases
  validate_kind below visiting (TypeDesc.tuple_desc elements) =
      validate_elements below visiting 0 elements
  validate_kind below visiting (TypeDesc.option_desc element) = validate_ref below visiting element
  validate_kind below visiting (TypeDesc.result_desc ok_type err_type) =
      wrap in_ok (validate_optional below visiting ok_type)
      >> validate_optional below visiting err_type
  validate_kind below visiting t = ok tt

  -- The fuel bounds the depth of calls; the check on `depth` ends them before it is used up.
  unfoldable pub validate_layout_desc : ℕ → TypeDesc → ℕ → List ℕ → Done
  validate_layout_desc zero t depth visiting = stuck
  validate_layout_desc (suc fuel) t depth visiting =
      if ltb max_layout_type_depth depth
      then err depth_exceeded
      else validate_kind (λ d on_path. validate_layout_desc fuel d (depth + 1) on_path) visiting t

-- One level for each depth from 0 to 64, and one to find the depth exceeded.
abbrev pub layout_fuel : ℕ
layout_fuel = max_layout_type_depth + 2

unfoldable pub validate_layout_type : Option TypeDesc → Resolver → Done
validate_layout_type none resolve = ok tt
validate_layout_type (some t) resolve = validate_layout_desc resolve layout_fuel t 0 []
