-- ===== src/Abi/Flatten/Despecialize.antt =====
-- internal/abi/flatten.go: a tuple, an option and a result are flattened by functions of their own,
-- where the Canonical ABI takes them for a record and for variants.
use component_model.Prelude.{
  ℕ, zero, suc, ◌≡◌, refl, List, [], ◌∷◌, Option, none, some, inl, inr, arith, ok, length, max, map,
  Result-cases,
}
use component_model.Descriptor.{TypeDesc, TypeRef}
use component_model.Abi.Layout.{Resolver, discriminant_type}
use component_model.Abi.Layout.Despecialize.{despecialize}
use component_model.Abi.Flatten.{
  CoreType, i32, Flat, max_len, join_positions, flatten_primitive, flatten_ref, flatten_record,
  flatten_tuple, case_flats, flatten_variant, flatten_option, flatten_arm, flatten_result,
  flatten_kind, flatten,
}
use component_model.Abi.Flatten.Join.{join_flats, join_cases, join_positions-cases}

join_one : (x : List CoreType) → join_positions (max_len (x ∷ [])) 0 (x ∷ []) ≡ x
unfolding join_cases join_flats
join_one x = join_positions-cases (x ∷ [])

join_two :
    (x y : List CoreType)
    → join_positions (max (length y) (max (length x) 0)) 0 (x ∷ y ∷ []) ≡ join_flats x y
unfolding max_len join_cases join_flats
join_two x y =
    let same : max (length y) (max (length x) 0) ≡ max_len (x ∷ y ∷ []) = omega arith in
    rw same (join_positions-cases (x ∷ y ∷ []))

join_flats-nil : (x : List CoreType) → join_flats x [] ≡ x
unfolding join_flats
join_flats-nil [] = refl
join_flats-nil (x ∷ xs) = refl

disc_u8 : flatten_primitive (discriminant_type 2) ≡ ok (i32 ∷ [])
unfolding flatten_primitive discriminant_type
disc_u8 = refl

module _ (resolve : Resolver) (below : Option TypeDesc → Flat) where
  tuple_record :
      (elements : List TypeRef)
      → flatten_record resolve below (map (λ e. record { name = "field"; type = e }) elements)
        ≡ flatten_tuple resolve below elements
  unfolding flatten_record flatten_tuple
  tuple_record [] = refl
  tuple_record (e ∷ elements) = rw (tuple_record elements) refl

  option_variant :
      (ref : TypeRef)
      → flatten_variant resolve below
          (record { name = "none"; type = none } ∷ record { name = "some"; type = some ref } ∷ [])
        ≡ flatten_option resolve below ref
  unfolding flatten_variant flatten_option case_flats
  option_variant ref = elim (Result-cases (flatten_ref resolve below ref)) [
    | inl (x, e) ↦ rw (disc_u8, e, join_one x) refl
    | inr (inl (x, e)) ↦ rw (disc_u8, e) refl
    | inr (inr e) ↦ rw (disc_u8, e) refl
  ]

  result_variant :
      (o p : Option TypeRef)
      → flatten_variant resolve below
          (record { name = "ok"; type = o } ∷ record { name = "error"; type = p } ∷ [])
        ≡ flatten_result resolve below o p
  unfolding flatten_variant flatten_result flatten_arm case_flats max_len join_positions join_flats
      join_cases
  result_variant none none = rw disc_u8 refl
  result_variant none (some q) = elim (Result-cases (flatten_ref resolve below q)) [
    | inl (y, f) ↦ rw (disc_u8, f, join_one y, join_two [] y) refl
    | inr (inl (y, f)) ↦ rw (disc_u8, f) refl
    | inr (inr f) ↦ rw (disc_u8, f) refl
  ]
  result_variant (some r) none = elim (Result-cases (flatten_ref resolve below r)) [
    | inl (x, e) ↦ rw (disc_u8, e, join_one x, join_two x [], join_flats-nil x) refl
    | inr (inl (x, e)) ↦ rw (disc_u8, e) refl
    | inr (inr e) ↦ rw (disc_u8, e) refl
  ]
  result_variant (some r) (some q) = elim (Result-cases (flatten_ref resolve below r)) [
    | inl (x, e) ↦ elim (Result-cases (flatten_ref resolve below q)) [
      | inl (y, f) ↦ rw (disc_u8, e, f, join_two x y) (rw (join_positions-cases (x ∷ y ∷ [])) refl)
      | inr (inl (y, f)) ↦ rw (disc_u8, e, f) refl
      | inr (inr f) ↦ rw (disc_u8, e, f) refl
    ]
    | inr (inl (x, e)) ↦ rw (disc_u8, e) refl
    | inr (inr e) ↦ rw (disc_u8, e) refl
  ]

  kind_despecialized :
      (t : TypeDesc)
      → flatten_kind resolve below (some (despecialize t)) ≡ flatten_kind resolve below (some t)
  unfolding despecialize flatten_kind
  kind_despecialized (TypeDesc.tuple_desc elements) = tuple_record elements
  kind_despecialized (TypeDesc.option_desc ref) = option_variant ref
  kind_despecialized (TypeDesc.result_desc o p) = result_variant o p
  kind_despecialized t = refl

-- A tuple, an option and a result flatten to the core types of the record or the variant that the
-- Canonical ABI takes them for, and fail with the same error; the fuel is the same on both sides.
pub flatten-despecialize :
    (fuel : ℕ) (resolve : Resolver) (t : TypeDesc)
    → flatten fuel resolve (some (despecialize t)) ≡ flatten fuel resolve (some t)
unfolding flatten
flatten-despecialize zero resolve t = refl
flatten-despecialize (suc fuel) resolve t =
    kind_despecialized resolve (λ d. flatten fuel resolve d) t
