-- ===== src/Abi/Flatten/Ends.antt =====
-- internal/abi/flatten.go: the recursion of `Flatten` ends on the types that pass the validation of
-- internal/abi/layout.go, which bounds their depth.
use component_model.Prelude.{
  ℕ, zero, suc, ◌+◌, ◌≤◌, ◌≡◌, List, [], ◌∷◌, Option, none, some, inl, inr, arith, Result, ok, err,
  stuck, ◌>>=◌, Ends, Ends-bind, Bool-cases, ltb, All, length,
}
use component_model.Descriptor.{PrimName, TypeDesc, TypeRef, RecordField, VariantCase}
use component_model.Abi.Layout.{Error, Resolver, discriminant_type, max_layout_type_depth}
use component_model.Abi.Layout.Validate.{validate_layout_type, layout_fuel, validate_layout_desc}
use component_model.Abi.Layout.EndsAlign.{Good, GoodOptional, GoodKind, resolve_type-Ends}
use component_model.Abi.Layout.Align.{Measure}
use component_model.Abi.Layout.Total.{kind-Good}
use component_model.Abi.Flatten.{
  Flat, flatten_primitive, flatten_flags, flatten_enum, flatten_ref, flatten_record, flatten_tuple,
  case_flats, flatten_variant, flatten_option, flatten_arm, flatten_result, flatten_kind, flatten,
}

flatten_primitive-Ends : (p : Option PrimName) → Ends (flatten_primitive p)
unfolding flatten_primitive
flatten_primitive-Ends p = ground arith

-- How many core values there are, for the lemmas on layouts, which speak of numbers.
abbrev count : Flat → Result Error ℕ
count r = r >>= λ types. ok (length types)

count-Ends : (r : Flat) → Ends (count r) → Ends r
count-Ends (ok x) h = tt
count-Ends (err x) h = tt
count-Ends stuck h = h

module _ (resolve : Resolver) (below : Option TypeDesc → Flat) where
  abbrev counted : Measure
  counted t = count (below t)

  flatten_ref-Ends :
      (ref : TypeRef) → Good resolve counted counted ref → Ends (flatten_ref resolve below ref)
  unfolding flatten_ref
  flatten_ref-Ends ref g =
      Ends-bind _ below (resolve_type-Ends resolve (some ref)) λ t e. count-Ends (below t) (g t e).0

  flatten_arm-Ends :
      (o : Option TypeRef)
      → GoodOptional resolve counted counted o
      → Ends (flatten_arm resolve below o)
  unfolding flatten_arm
  flatten_arm-Ends none g = tt
  flatten_arm-Ends (some ref) g = flatten_ref-Ends ref g

  flatten_record-Ends :
      (fields : List RecordField)
      → All (λ (f : RecordField). Good resolve counted counted f.type) fields
      → Ends (flatten_record resolve below fields)
  unfolding flatten_record
  flatten_record-Ends [] g = tt
  flatten_record-Ends (f ∷ fields) g =
      Ends-bind _ _ (flatten_ref-Ends f.type g.0)
        λ x _. Ends-bind _ _ (flatten_record-Ends fields g.1) λ _ _. tt

  flatten_tuple-Ends :
      (elements : List TypeRef)
      → All (Good resolve counted counted) elements
      → Ends (flatten_tuple resolve below elements)
  unfolding flatten_tuple
  flatten_tuple-Ends [] g = tt
  flatten_tuple-Ends (r ∷ elements) g =
      Ends-bind _ _ (flatten_ref-Ends r g.0)
        λ x _. Ends-bind _ _ (flatten_tuple-Ends elements g.1) λ _ _. tt

  case_flats-Ends :
      (cases : List VariantCase)
      → All (λ (c : VariantCase). GoodOptional resolve counted counted c.type) cases
      → Ends (case_flats resolve below cases)
  unfolding case_flats
  case_flats-Ends [] g = tt
  case_flats-Ends (c ∷ cases) g = with_first c.type g.0 (case_flats-Ends cases g.1)
    where
      with_first :
          (o : Option TypeRef)
          → GoodOptional resolve counted counted o
          → Ends (case_flats resolve below cases)
          → Ends (case_flats resolve below (record { name = c.name; type = o } ∷ cases))
      with_first none h rest = rest
      with_first (some ref) h rest =
          Ends-bind _ _ (flatten_ref-Ends ref h) λ x _. Ends-bind _ _ rest λ _ _. tt

  flatten_kind-Ends :
      (t : TypeDesc)
      → GoodKind resolve counted counted t
      → Ends (flatten_kind resolve below (some t))
  unfolding flatten_kind flatten_option flatten_result flatten_variant flatten_flags flatten_enum
  flatten_kind-Ends (TypeDesc.primitive_desc prim) g = flatten_primitive-Ends (some prim)
  flatten_kind-Ends (TypeDesc.record_desc fields) g = flatten_record-Ends fields g
  flatten_kind-Ends (TypeDesc.variant_desc cases) g =
      Ends-bind _ _ (flatten_primitive-Ends (discriminant_type (length cases)))
        λ d _. Ends-bind _ _ (case_flats-Ends cases g) λ _ _. tt
  flatten_kind-Ends (TypeDesc.tuple_desc elements) g = flatten_tuple-Ends elements g
  flatten_kind-Ends (TypeDesc.flags_desc names) g = ground arith
  flatten_kind-Ends (TypeDesc.enum_desc cases) g = ground arith
  flatten_kind-Ends (TypeDesc.option_desc element) g =
      Ends-bind _ _ (flatten_ref-Ends element g) (λ _ _. tt)
  flatten_kind-Ends (TypeDesc.result_desc o p) g =
      Ends-bind _ _ (flatten_arm-Ends o g.0) λ x _. Ends-bind _ _ (flatten_arm-Ends p g.1) λ _ _. tt
  flatten_kind-Ends t g = tt

primitives-end :
    (fuel : ℕ) (resolve : Resolver) (p : PrimName)
    → 1 ≤ fuel
    → Ends (count (flatten fuel resolve (some (TypeDesc.primitive_desc p))))
unfolding flatten flatten_kind
primitives-end zero resolve p h = absurd (omega arith)
primitives-end (suc fuel) resolve p h = Ends-bind _ _ (flatten_primitive-Ends (some p)) (λ _ _. tt)

checked-Ends :
    (resolve : Resolver) (fuel : ℕ) (t : TypeDesc) (depth : ℕ) (on_path : List ℕ)
    → 66 ≤ fuel + depth
    → validate_layout_desc resolve fuel t depth on_path ≡ ok tt
    → Ends (flatten fuel resolve (some t))
unfolding validate_layout_desc flatten
checked-Ends resolve zero t depth on_path h e = cc
checked-Ends resolve (suc fuel) t depth on_path h e =
    elim (Bool-cases (ltb max_layout_type_depth depth)) [
      | inl deep ↦ absurd (ground arith)
      | inr shallow ↦
          flatten_kind-Ends resolve (λ d. flatten fuel resolve d) t
            (kind-Good resolve _ _ _
              (λ p. let end = primitives-end fuel resolve p (ground arith) in (end, end))
              (λ d inner ok_below.
                let end =
                  Ends-bind _ _
                    (checked-Ends resolve fuel d (depth + 1) inner (omega arith) ok_below)
                    (λ _ _. tt) in
                (end, end))
              on_path t (rw shallow at e))
    ]

-- `Flatten` ends with core types or an error, within the depth that the validation allows, on
-- every descriptor that passes the validation, with every resolver.
pub flatten-Ends :
    (t : TypeDesc) (resolve : Resolver)
    → validate_layout_type (some t) resolve ≡ ok tt
    → Ends (flatten layout_fuel resolve (some t))
unfolding validate_layout_type
flatten-Ends t resolve e = checked-Ends resolve layout_fuel t 0 [] (omega arith) e
