-- ===== src/Abi/Layout/Multiple.antt =====
-- internal/abi/layout.go: what has a size has an alignment, and the size is a multiple of it.
use component_model.Prelude.{
  ℕ, zero, suc, ◌%◌, ◌^◌, ◌<◌, ◌≡◌, refl, List, Option, none, some, inl, inr, arith, length, Result,
  ok, ok-bind, Option-cases, max,
}
use component_model.Descriptor.{PrimName, TypeDesc, TypeRef, RecordField, VariantCase}
use component_model.Abi.Layout.{
  Error, checked_align, checked_add, discriminant_type, alignment_primitive, size_primitive,
  flags_width, Resolver, resolve_type,
}
use component_model.Abi.Layout.Align.{
  Measure, larger, alignment_enum, measure_ref, alignment_optional, alignment_record,
  alignment_tuple, max_case_alignment, alignment_variant, alignment_option, alignment_result,
  alignment_kind, alignment_unchecked, alignment,
}
use component_model.Abi.Layout.Size.{
  size_enum_num_cases, fields_end, size_record, elements_end, size_tuple, max_case_size,
  size_variant, size_option, widen, payload_end, size_result, size_kind, size_unchecked, size,
}
use component_model.Abi.Layout.Validate.{validate_layout_type, layout_fuel}
use component_model.Abi.Layout.Bounds.{
  IsAlign, checked_align-multiple, kind-IsAlign, alignment_unchecked-IsAlign,
}

-- An alignment that the computation `r` finds, of which the size `s` is a multiple.
abbrev pub Divides : Result Error ℕ → ℕ → Type 0
Divides r s = (a : ℕ) × (r ≡ ok a) × (s % a ≡ 0) × (s < 2 ^ 32)

primitive-Divides :
    (p : PrimName) (s : ℕ)
    → size_primitive (some p) ≡ ok s
    → Divides (alignment_primitive (some p)) s
unfolding size_primitive alignment_primitive
primitive-Divides PrimName.bool s e = (1, refl, ground arith, ground arith)
primitive-Divides PrimName.s8 s e = (1, refl, ground arith, ground arith)
primitive-Divides PrimName.u8 s e = (1, refl, ground arith, ground arith)
primitive-Divides PrimName.s16 s e = (2, refl, ground arith, ground arith)
primitive-Divides PrimName.u16 s e = (2, refl, ground arith, ground arith)
primitive-Divides PrimName.s64 s e = (8, refl, ground arith, ground arith)
primitive-Divides PrimName.u64 s e = (8, refl, ground arith, ground arith)
primitive-Divides PrimName.f64 s e = (8, refl, ground arith, ground arith)
primitive-Divides (PrimName.other name) s e = cc
primitive-Divides p s e = (4, refl, ground arith, ground arith)

enum-Divides : (n s : ℕ) → size_enum_num_cases n ≡ ok s → Divides (alignment_enum n) s
unfolding size_enum_num_cases alignment_enum
enum-Divides n s e = elim (Option-cases (discriminant_type n)) [
  | inl absent ↦ absurd (ground arith)
  | inr (disc, found) ↦ rw (found, alignment_enum) (primitive-Divides disc s (ground arith))
]

flags-Divides : (n s : ℕ) → flags_width n ≡ ok s → Divides (flags_width n) s
unfolding flags_width
flags-Divides n s e = (s, e, ground arith, ground arith)

-- The last step of every composite: the end of the payload is padded to the alignment.
padded :
    (r : Result Error ℕ) (offset a s : ℕ)
    → r ≡ ok a
    → IsAlign a
    → checked_align offset a ≡ ok s
    → Divides r s
padded r offset a s found aligned e =
    let both = checked_align-multiple offset a aligned e in (a, found, both.0, both.1)

larger-max : (a : ℕ) → max 1 a ≡ larger 1 a
larger-max a = ground arith

module _ (resolve : Resolver) (ba bs : Measure)
    (h : (t : Option TypeDesc) (a : ℕ) → ba t ≡ ok a → IsAlign a) where
  record-Divides :
      (fields : List RecordField) (s : ℕ)
      → size_record resolve ba bs fields ≡ ok s
      → Divides (alignment_record resolve ba fields 1) s
  unfolding size_record alignment_kind
  record-Divides fields s e = ok-bind (fields_end resolve ba bs fields 0) _ e (λ offset _ e1.
      ok-bind (alignment_record resolve ba fields 1) _ e1 (λ a found e2.
        padded _ offset a s found
          (kind-IsAlign resolve ba h (some (TypeDesc.record_desc fields)) found) e2))

  tuple-Divides :
      (elements : List TypeRef) (s : ℕ)
      → size_tuple resolve ba bs elements ≡ ok s
      → Divides (alignment_tuple resolve ba elements 1) s
  unfolding size_tuple alignment_kind
  tuple-Divides elements s e = ok-bind (elements_end resolve ba bs elements 0) _ e (λ offset _ e1.
      ok-bind (alignment_tuple resolve ba elements 1) _ e1 (λ a found e2.
        padded _ offset a s found
          (kind-IsAlign resolve ba h (some (TypeDesc.tuple_desc elements)) found) e2))

  variant-Divides :
      (cases : List VariantCase) (s : ℕ)
      → size_variant resolve ba bs cases ≡ ok s
      → Divides (alignment_variant resolve ba cases) s
  unfolding size_variant alignment_kind
  variant-Divides cases s e =
      ok-bind (size_primitive (discriminant_type (length cases))) _ e (λ disc _ e1.
        ok-bind (max_case_alignment resolve ba cases 1) _ e1 (λ m _ e2.
          ok-bind (checked_align disc m) _ e2 (λ payload _ e3.
            ok-bind (max_case_size resolve ba bs cases 0) _ e3 (λ largest _ e4.
              ok-bind (checked_add payload largest) _ e4 (λ offset _ e5.
                ok-bind (alignment_variant resolve ba cases) _ e5 (λ a found e6.
                  padded _ offset a s found
                    (kind-IsAlign resolve ba h (some (TypeDesc.variant_desc cases)) found) e6))))))

  option-Divides :
      (ref : TypeRef) (s : ℕ)
      → size_option resolve ba bs ref ≡ ok s
      → Divides (alignment_option resolve ba ref) s
  unfolding size_option alignment_kind alignment_option measure_ref
  option-Divides ref s e = ok-bind (resolve_type resolve (some ref)) _ e (λ t et e1.
      ok-bind (bs t) _ e1 (λ size _ e2. ok-bind (ba t) _ e2 (λ a ea e3.
        ok-bind (checked_align 1 a) _ e3 (λ payload _ e4.
          ok-bind (checked_add payload size) _ e4 (λ offset _ e5.
            let found : alignment_option resolve ba ref ≡ ok (larger 1 a) = rw (et, ea) in
            padded _ offset (larger 1 a) s found
              (kind-IsAlign resolve ba h (some (TypeDesc.option_desc ref)) found)
              (rw (← larger-max a) e5))))))

  widen-alignment :
      (o : Option TypeRef) (p q : ℕ × ℕ)
      → widen resolve ba bs o p ≡ ok q
      → alignment_optional resolve ba o p.1 ≡ ok q.1
  unfolding widen alignment_optional measure_ref
  widen-alignment none p q e = ground arith
  widen-alignment (some ref) p q e = ok-bind (resolve_type resolve (some ref)) _ e (λ t et e1.
      ok-bind (bs t) _ e1
        (λ size _ e2. ok-bind (ba t) _ e2 (λ a ea e3. rw (et, ea) (ground arith))))

  result-Divides :
      (o p : Option TypeRef) (s : ℕ)
      → size_result resolve ba bs o p ≡ ok s
      → Divides (alignment_result resolve ba o p) s
  unfolding size_result payload_end alignment_kind alignment_result
  result-Divides o p s e = ok-bind (widen resolve ba bs o (0, 1)) _ e (λ first ef e1.
      ok-bind (widen resolve ba bs p first) _ e1 (λ both eb e2.
        ok-bind (checked_align 1 both.1) _ e2 (λ payload _ e3.
          ok-bind (checked_add payload both.0) _ e3 (λ offset _ e4.
            let found : alignment_result resolve ba o p ≡ ok (larger 1 both.1) =
              rw (widen-alignment o (0, 1) first ef, widen-alignment p first both eb) in
            padded _ offset (larger 1 both.1) s found
              (kind-IsAlign resolve ba h (some (TypeDesc.result_desc o p)) found)
              (rw (← larger-max both.1) e4)))))

  kind-Divides :
      (t : Option TypeDesc) (s : ℕ)
      → size_kind resolve ba bs t ≡ ok s
      → Divides (alignment_kind resolve ba t) s
  unfolding size_kind alignment_kind
  kind-Divides none s e = cc
  kind-Divides (some (TypeDesc.primitive_desc prim)) s e = primitive-Divides prim s e
  kind-Divides (some (TypeDesc.record_desc fields)) s e = record-Divides fields s e
  kind-Divides (some (TypeDesc.variant_desc cases)) s e = variant-Divides cases s e
  kind-Divides (some (TypeDesc.list_desc element)) s e = (4, refl, ground arith, ground arith)
  kind-Divides (some (TypeDesc.tuple_desc elements)) s e = tuple-Divides elements s e
  kind-Divides (some (TypeDesc.flags_desc names)) s e = flags-Divides (length names) s e
  kind-Divides (some (TypeDesc.enum_desc cases)) s e = enum-Divides (length cases) s e
  kind-Divides (some (TypeDesc.option_desc element)) s e = option-Divides element s e
  kind-Divides (some (TypeDesc.result_desc o p)) s e = result-Divides o p s e
  kind-Divides (some (TypeDesc.func_desc f)) s e = cc
  kind-Divides (some TypeDesc.instance_desc) s e = cc
  kind-Divides (some TypeDesc.component_desc) s e = cc
  kind-Divides (some TypeDesc.resource_desc) s e = cc
  kind-Divides (some t) s e = (4, refl, ground arith, ground arith)

unchecked-Divides :
    (fuel : ℕ) (resolve : Resolver) (t : Option TypeDesc) (s : ℕ)
    → size_unchecked fuel resolve t ≡ ok s
    → Divides (alignment_unchecked fuel resolve t) s
unfolding size_unchecked alignment_unchecked
unchecked-Divides zero resolve t s e = cc
unchecked-Divides (suc fuel) resolve t s e =
    kind-Divides resolve (λ d. alignment_unchecked fuel resolve d)
      (λ d. size_unchecked fuel resolve d) (λ d a. alignment_unchecked-IsAlign fuel resolve d a) t s
      e

-- Whatever type has a size has an alignment, which is 1, 2, 4 or 8; the size is a multiple of it
-- and below 2 ^ 32.
pub size-multiple :
    (t : Option TypeDesc) (resolve : Resolver) (s : ℕ)
    → size t resolve ≡ ok s
    → (a : ℕ) × (alignment t resolve ≡ ok a) × IsAlign a × (s % a ≡ 0) × (s < 2 ^ 32)
unfolding size alignment
size-multiple t resolve s e = ok-bind (validate_layout_type t resolve) _ e (λ done checked e1.
    let (a, found, multiple, below) = unchecked-Divides layout_fuel resolve t s e1 in
    (
      a,
      rw checked found,
      alignment_unchecked-IsAlign layout_fuel resolve t a found,
      multiple,
      below,
    ))
