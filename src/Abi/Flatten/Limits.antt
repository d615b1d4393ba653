-- ===== src/Abi/Flatten/Limits.antt =====
-- internal/abi/flatten.go, `FlattenFunc`: how many core values a core function takes and returns.
use component_model.Prelude.{
  ℕ, ◌≤◌, ◌≡◌, refl, List, [], ◌∷◌, ltb, if◌then◌else◌, arith, ok, ok-bind, ok-injective, length,
  length-append, Bool-cases, inl, inr,
}
use mathlib.Core.Path.{subst}
use component_model.Descriptor.{FuncDesc}
use component_model.Abi.Layout.{Resolver}
use component_model.Abi.Flatten.{
  CoreType, i32, Context, lift, lower, other, spill, spill_results, flatten_func, flatten_results,
  flatten_params, max_flat_params, max_flat_results,
}

-- The bounds that hold of both contexts, and the one of `lift`.
abbrev pub WithinLimits : Context → List CoreType × List CoreType → Type 0
WithinLimits context (params, results) =
    (length results ≤ 1)
    × (length params ≤ 17)
    × (context ≡ lift → length params ≤ 16)
    × (length params ≡ 17 → results ≡ [])

kept_le :
    (params : List CoreType)
    → length (if ltb max_flat_params (length params) then i32 ∷ [] else params) ≤ 16
kept_le params = ground arith

spill_results-WithinLimits :
    (context : Context) (params results : List CoreType) (r : List CoreType × List CoreType)
    → length params ≤ 16
    → spill_results context params results ≡ ok r
    → WithinLimits context r
spill_results-WithinLimits lift params results r h e =
    subst (WithinLimits lift) (ok-injective e)
      (omega arith, omega arith, (λ _. h), (λ full. absurd (omega arith)))
spill_results-WithinLimits lower params results r h e =
    subst (WithinLimits lower) (ok-injective e)
      (omega arith, omega (arith, length-append params (i32 ∷ [])), (λ never. cc), (λ _. refl))
spill_results-WithinLimits (other c) params results r h e = cc

spill-WithinLimits :
    (context : Context) (params results : List CoreType) (r : List CoreType × List CoreType)
    → spill context params results ≡ ok r
    → WithinLimits context r
spill-WithinLimits context params results r e =
    elim (Bool-cases (ltb max_flat_results (length results))) [
      | inl many ↦ spill_results-WithinLimits context _ results r (kept_le params) (rw many at e)
      | inr few ↦ subst (WithinLimits context) (ok-injective (rw few at e)) (
        ground arith,
        omega (arith, kept_le params),
        (λ _. kept_le params),
        (λ full. absurd (omega (arith, kept_le params))),
      )
    ]

-- Whatever the function type, a flattened function returns one core value at most. When it is
-- lifted it takes 16 at most; otherwise it takes 17 at most, and returns nothing if it takes 17.
pub flatten_func-WithinLimits :
    (fuel : ℕ) (f : FuncDesc) (resolve : Resolver) (context : Context)
    (r : List CoreType × List CoreType)
    → flatten_func fuel f resolve context ≡ ok r
    → WithinLimits context r
unfolding flatten_func
flatten_func-WithinLimits fuel f resolve context r e =
    ok-bind (flatten_params fuel resolve f.params) _ e λ params _ e1.
      ok-bind (flatten_results fuel resolve f.results) _ e1
        λ results _ e2. spill-WithinLimits context params results r e2
