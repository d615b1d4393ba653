-- ===== src/Abi/Flatten/Runs.antt =====
-- internal/abi/flatten.go: runs on small types.
use component_model.Prelude.{◌≡◌, refl, List, [], ◌∷◌, none, some, false, ok, Ends}
use component_model.Descriptor.{PrimName, TypeDesc, TypeRef, VariantCase, FuncParam, FuncDesc}
use component_model.Abi.Layout.{resolve_type, discriminant_type}
use component_model.Abi.Layout.Validate.{
  validate_layout_type, layout_fuel, validate_layout_desc, validate_kind, validate_cases,
  validate_optional, validate_ref,
}
use component_model.Abi.Layout.Despecialize.{despecialize}
use component_model.Abi.Flatten.{
  i32, i64, f32, f64, lower, join_core_types, candidates, max_len, join_positions,
  flatten_primitive, flatten_ref, case_flats, flatten_variant, flatten_kind, flatten,
  flatten_params, flatten_results, flatten_func,
}
use component_model.Abi.Flatten.Join.{
  join_fold, join_cases, join_core_types-fold, join_positions-cases,
}
use component_model.Abi.Flatten.Despecialize.{flatten-despecialize}
use component_model.Abi.Flatten.Limits.{WithinLimits, flatten_func-WithinLimits}
use component_model.Abi.Flatten.Ends.{flatten-Ends}

abbrev named : PrimName → TypeRef
named p = record { primitive = some p; type_index = none }

-- `variant { a(f32), b(u64), c, d(string) }`
abbrev shape : List VariantCase
shape =
    record { name = "a"; type = some (named PrimName.f32) }
    ∷ record { name = "b"; type = some (named PrimName.u64) }
    ∷ record { name = "c"; type = none }
    ∷ record { name = "d"; type = some (named PrimName.string) }
    ∷ []

shape-flat :
    flatten layout_fuel none (some (TypeDesc.variant_desc shape)) ≡ ok (i32 ∷ i64 ∷ i32 ∷ [])
unfolding flatten flatten_kind flatten_variant case_flats flatten_ref resolve_type discriminant_type
    flatten_primitive join_positions max_len candidates join_core_types
shape-flat = refl

shape-valid : validate_layout_type (some (TypeDesc.variant_desc shape)) none ≡ ok tt
unfolding validate_layout_type validate_layout_desc validate_kind validate_cases validate_optional
    validate_ref
shape-valid = refl

abbrev text : FuncParam
text = record { name = "s"; type = named PrimName.string }

-- Nine strings are 18 core values, and the result is another two.
abbrev concat : FuncDesc
concat = record {
  params = text ∷ text ∷ text ∷ text ∷ text ∷ text ∷ text ∷ text ∷ text ∷ [];
  results = record { unnamed = some (named PrimName.string); named = [] };
  async = false;
}

concat-lower : flatten_func layout_fuel concat none lower ≡ ok (i32 ∷ i32 ∷ [], [])
unfolding flatten_func flatten_params flatten_results flatten_ref resolve_type flatten flatten_kind
    flatten_primitive
concat-lower = refl

join_core_types-fold_example :
    join_core_types (f32 ∷ i32 ∷ f64 ∷ []) ≡ join_fold f32 (i32 ∷ f64 ∷ [])
join_core_types-fold_example = join_core_types-fold f32 (i32 ∷ f64 ∷ [])

join_positions-cases_example :
    join_positions
      (max_len ((f32 ∷ []) ∷ (i32 ∷ i64 ∷ []) ∷ []))
      0
      ((f32 ∷ []) ∷ (i32 ∷ i64 ∷ []) ∷ [])
    ≡ join_cases [] ((f32 ∷ []) ∷ (i32 ∷ i64 ∷ []) ∷ [])
join_positions-cases_example = join_positions-cases ((f32 ∷ []) ∷ (i32 ∷ i64 ∷ []) ∷ [])

flatten-despecialize_example :
    flatten 3 none (
      some (
        despecialize
          (TypeDesc.result_desc (some (named PrimName.f32)) (some (named PrimName.u64)))))
    ≡ flatten 3 none
        (some (TypeDesc.result_desc (some (named PrimName.f32)) (some (named PrimName.u64))))
flatten-despecialize_example =
    flatten-despecialize 3 none
      (TypeDesc.result_desc (some (named PrimName.f32)) (some (named PrimName.u64)))

flatten_func-WithinLimits_example : WithinLimits lower (i32 ∷ i32 ∷ [], [])
flatten_func-WithinLimits_example =
    flatten_func-WithinLimits layout_fuel concat none lower (i32 ∷ i32 ∷ [], []) concat-lower

flatten-Ends_example : Ends (flatten layout_fuel none (some (TypeDesc.variant_desc shape)))
flatten-Ends_example = flatten-Ends (TypeDesc.variant_desc shape) none shape-valid
