-- ===== src/Abi/Memory/EndsStore.antt =====
-- internal/abi/memory.go: `Store` comes to an end on a value that its type holds.
use component_model.Prelude.{
  ℕ, zero, suc, refl, ◌+◌, ◌≤◌, ok-bind, Bool-cases, ◌≡◌, arith, List, Option, some, Option-cases,
  inl, inr, Bool, true, false, not, ltb, ◌==◌, if◌then◌else◌, ok, Ends, Ends-bind, Ends-wrap,
  length, get_elem?,
}
use component_model.Descriptor.{TypeDesc, TypeRef, VariantCase}
use component_model.Abi.Layout.{Resolver, discriminant_type}
use component_model.Abi.Layout.Align.{
  alignment, alignment_unchecked, max_case_alignment, Measure, alignment_optional, alignment_kind,
  alignment_variant, alignment_result,
}
use component_model.Abi.Layout.EndsAlign.{checked_align-Ends, checked_add-Ends, size_primitive-Ends}
use component_model.Abi.Layout.Total.{alignment-size-Ends}
use component_model.Abi.Value.{Value, slice, count_values, nil_value, variant_value, result_value}
use component_model.Abi.Memory.{Memory, MemError, Realloc, layout, check, is_aligned}
use component_model.Abi.Memory.Load.{variant_payload, check_place}
use component_model.Abi.Memory.Store.{
  Stored, store_record, store_tuple, store_variant, store_option, store_result, store_kind,
  store_value, store, is_nil_value,
}
use component_model.Abi.Memory.EndsParts.{
  HasAlignment, aligned-HasAlignment, optional-ArmAlignment, case-ArmAlignment,
  max_case_alignment-whole, store_fields-Ends, store_elements-Ends, list-Ends, payload-Ends,
  case-Ends, result_payload-Ends, resolved-Ends, aligned-Ends, ref-Held,
}
use component_model.Abi.Memory.Blocks.{layout-ok}
use component_model.Abi.Layout.Validate.{layout_fuel}
use component_model.Abi.Layout.{alignment_primitive}
use component_model.Abi.Memory.Ends.{
  Answers, store_primitive-Ends, check-Ends, layout-Ends, store_int-Ends, store_uint32-Ends,
  store_flags-Ends, store_enum-Ends,
}
use component_model.Abi.Memory.Fits.{FitsRef, FitsArm, FitsCase, FitsOption, FitsKind, Fits}

test-Ends : (b : Bool) (e : MemError) → Ends (check b e)
test-Ends true e = tt
test-Ends false e = tt

-- A value of an option that is not `nil` is one of its element.
some-Fits :
    (resolve : Resolver) (Held : Option TypeDesc → Value → Type 0) (element : TypeRef) (v : Value)
    → is_nil_value v ≡ false
    → FitsOption resolve Held element v
    → FitsRef resolve Held element v
unfolding is_nil_value FitsOption
some-Fits resolve Held element nil_value e held = cc
some-Fits resolve Held element v e held = held

module _ (realloc : Realloc) (answers : Answers realloc) (resolve : Resolver)
    (below : Memory → ℕ → Option TypeDesc → Value → Stored)
    (Held : Option TypeDesc → Value → Type 0)
    (h : (mem : Memory) (p : ℕ) (t : Option TypeDesc) (v : Value)
      → HasAlignment resolve t
      → Held t v
      → Ends (below mem p t v))
    (n : ℕ) (within : n ≤ layout_fuel) where
  abbrev aligns : Measure
  aligns = λ d. alignment_unchecked n resolve d

  variant_payload-Ends :
      (cases : List VariantCase) (p s m : ℕ)
      → max_case_alignment resolve aligns cases 1 ≡ ok m
      → Ends (variant_payload resolve cases p s)
  unfolding variant_payload
  variant_payload-Ends cases p s m e =
      Ends-bind _ _ (layout-Ends _ (checked_add-Ends p s)) λ offset e1.
        Ends-bind _ _
          (layout-Ends
            (max_case_alignment resolve (λ d. alignment_unchecked layout_fuel resolve d) cases 1)
            (rw (max_case_alignment-whole resolve n within cases 1 m e) tt))
          λ align e2. layout-Ends _ (checked_align-Ends offset align)

  variant-Ends :
      (mem : Memory) (p idx : ℕ) (payload : Value) (cases : List VariantCase) (a : ℕ)
      → alignment_variant resolve aligns cases ≡ ok a
      → FitsCase resolve Held (get_elem? cases idx) payload
      → Ends (store_variant realloc resolve below mem p (variant_value idx payload) cases)
  unfolding store_variant alignment_variant FitsCase
  variant-Ends mem p idx payload cases a e held =
      ok-bind (alignment_primitive (discriminant_type (length cases))) _ e λ disc e1 rest.
        ok-bind (max_case_alignment resolve aligns cases 1) _ rest λ m e2 last.
          elim (Option-cases (get_elem? cases idx)) [
            | inl absent ↦ rw absent tt
            | inr (c, at) ↦
                let fits = rw at at held in
                rw at (
                  Ends-bind _ _
                    (layout-Ends _ (size_primitive-Ends (discriminant_type (length cases))))
                    λ s e3. Ends-bind _ _ (store_int-Ends mem p idx s) λ after e4.
                      Ends-bind _ _ (variant_payload-Ends cases p s m e2) λ offset e5.
                        case-Ends realloc answers resolve below Held h after idx c.type offset
                          payload
                          (case-ArmAlignment resolve n within cases 1 m idx c c.type e2 at refl)
                          fits)
          ]

  option-Ends :
      (mem : Memory) (p : ℕ) (v : Value) (element : TypeRef)
      → FitsOption resolve Held element v
      → Ends (store_option realloc resolve below mem p v element)
  unfolding store_option
  option-Ends mem p v element held =
      Ends-bind _ _ (resolved-Ends realloc answers resolve below Held h element) λ t e.
        Ends-bind _ _ (store_int-Ends mem p _ 1) λ after e1.
          Ends-bind _ _ (layout-Ends _ (checked_add-Ends p 1)) λ offset e2.
            Ends-bind _ _ (aligned-Ends realloc answers resolve below Held h t) λ align e3.
              Ends-bind _ _ (layout-Ends _ (checked_align-Ends offset align)) λ start e4.
                elim (Bool-cases (is_nil_value v)) [
                  | inl absent ↦ rw absent tt
                  | inr present ↦ rw present (
                      Ends-wrap _ _ (
                        h after start t v (aligned-HasAlignment resolve t align (layout-ok _ e3)) (
                          ref-Held realloc answers resolve below Held h element t v (layout-ok _ e)
                            (some-Fits resolve Held element v present held))))
                ]

  result-Ends :
      (mem : Memory) (p : ℕ) (is_err : Bool) (v : Value) (ok_type err_type : Option TypeRef) (a : ℕ)
      → alignment_result resolve aligns ok_type err_type ≡ ok a
      → FitsArm resolve Held (if is_err then err_type else ok_type) v
      → Ends (store_result realloc resolve below mem p (result_value is_err v) ok_type err_type)
  unfolding store_result alignment_result
  result-Ends mem p is_err v ok_type err_type a e held =
      ok-bind (alignment_optional resolve aligns ok_type 1) _ e λ x e1 rest.
        ok-bind (alignment_optional resolve aligns err_type x) _ rest λ y e2 last.
          Ends-bind _ _ (store_int-Ends mem p _ 1) λ after e3.
            Ends-bind _ _
              (result_payload-Ends realloc answers resolve below Held h ok_type err_type p)
              λ offset e4. elim (Bool-cases is_err) [
                | inl failed ↦
                    let fits = rw failed at held in
                    rw failed (
                      payload-Ends realloc answers resolve below Held h _ after err_type offset v
                        (optional-ArmAlignment resolve n within err_type x y e2) fits)
                | inr fine ↦
                    let fits = rw fine at held in
                    rw fine (
                      payload-Ends realloc answers resolve below Held h _ after ok_type offset v
                        (optional-ArmAlignment resolve n within ok_type 1 x e1) fits)
              ]

  kind-Ends :
      (mem : Memory) (p : ℕ) (t : Option TypeDesc) (v : Value) (a : ℕ)
      → alignment_kind resolve aligns t ≡ ok a
      → FitsKind resolve Held t v
      → Ends (store_kind realloc resolve below mem p t v)
  unfolding store_kind store_record store_tuple alignment_kind FitsKind
  kind-Ends mem p (some (TypeDesc.primitive_desc prim)) v a e held =
      store_primitive-Ends realloc answers mem p prim v
  kind-Ends mem p (some (TypeDesc.list_desc element)) (slice vs) a e (few, held) =
      list-Ends realloc answers resolve below Held h mem p element vs held
  kind-Ends mem p (some (TypeDesc.record_desc fields)) (slice vs) a e held =
      check-Ends (count_values vs == length fields) _ _
        (store_fields-Ends realloc answers resolve below Held h mem fields p vs held)
  kind-Ends mem p (some (TypeDesc.variant_desc cases)) (variant_value idx payload) a e held =
      variant-Ends mem p idx payload cases a e held
  kind-Ends mem p (some (TypeDesc.tuple_desc elements)) (slice vs) a e held =
      check-Ends (count_values vs == length elements) _ _
        (store_elements-Ends realloc answers resolve below Held h mem 0 elements p vs held)
  kind-Ends mem p (some (TypeDesc.flags_desc names)) v a e held = store_flags-Ends mem p v _
  kind-Ends mem p (some (TypeDesc.enum_desc cases)) v a e held = store_enum-Ends mem p v _
  kind-Ends mem p (some (TypeDesc.option_desc element)) v a e held =
      option-Ends mem p v element held
  kind-Ends mem p (some (TypeDesc.result_desc o r)) (result_value false v) a e held =
      result-Ends mem p false v o r a e held
  kind-Ends mem p (some (TypeDesc.result_desc o r)) (result_value true v) a e held =
      result-Ends mem p true v o r a e held
  kind-Ends mem p (some (TypeDesc.own_desc resource)) v a e held = store_uint32-Ends mem p v 4
  kind-Ends mem p (some (TypeDesc.borrow_desc resource)) v a e held = store_uint32-Ends mem p v 4
  kind-Ends mem p (some (TypeDesc.stream_desc element)) v a e held = store_uint32-Ends mem p v 4
  kind-Ends mem p (some (TypeDesc.future_desc element)) v a e held = store_uint32-Ends mem p v 4
  kind-Ends mem p t v a e held = absurd held

module _ (realloc : Realloc) (answers : Answers realloc) (resolve : Resolver) where
  store_value-Ends :
      (fuel : ℕ) (mem : Memory) (p : ℕ) (t : Option TypeDesc) (v : Value)
      → HasAlignment resolve t
      → Fits fuel resolve t v
      → Ends (store_value fuel realloc resolve mem p t v)
  unfolding store_value Fits alignment_unchecked
  store_value-Ends zero mem p t v aligned held = absurd held
  store_value-Ends (suc fuel) mem p t v (zero, a, within, e) held = cc
  store_value-Ends (suc fuel) mem p t v (suc n, a, within, e) held =
      kind-Ends realloc answers resolve (λ m q d w. store_value fuel realloc resolve m q d w)
        (λ d w. Fits fuel resolve d w) (λ m q d w ha fits. store_value-Ends fuel m q d w ha fits) n
        (omega arith) mem p t v a e held

  -- If the allocator of the guest comes back from each call, then `Store` of a value in the range of
  -- its type comes to an end with a memory or an error, for each memory, place and type table: the
  -- depth of its calls is at most the depth at which the value fits the type.
  pub store-Ends :
      (fuel : ℕ) (mem : Memory) (p : ℕ) (t : Option TypeDesc) (v : Value)
      → Fits fuel resolve t v
      → Ends (store fuel mem p t v resolve realloc)
  unfolding store check_place
  store-Ends fuel mem p t v held = Ends-bind (check_place mem p t resolve) _ (placed mem p t) λ u e.
      ok-bind (layout (alignment t resolve)) _ e λ a e1 rest.
        store_value-Ends fuel mem p t v (aligned-HasAlignment resolve t a (layout-ok _ e1)) held
    where
      placed : (mem : Memory) (p : ℕ) (t : Option TypeDesc) → Ends (check_place mem p t resolve)
      placed mem p t = Ends-bind _ _ (layout-Ends _ (alignment-size-Ends t resolve).0) λ a e.
          check-Ends (is_aligned p a) _ _ (
            Ends-bind _ _ (layout-Ends _ (alignment-size-Ends t resolve).1)
              λ s e1. test-Ends (not (ltb mem.size (p + s))) _)
