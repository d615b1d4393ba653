-- ===== src/Abi/Layout/Bounds.antt =====
-- The alignments and sizes that internal/abi/layout.go computes: powers of two up to eight, and
-- multiples of the alignment below 2 ^ 32.
use component_model.Prelude.{
  ℕ, zero, suc, ◌+◌, ◌%◌, ◌^◌, ◌≤◌, ◌<◌, ◌≡◌, refl, List, [], ◌∷◌, Option, none, some, ◌⊎◌, inl,
  inr, arith, lt-cases, Option-cases, ◌-◌, ◌*◌, ◌/◌, length, ok, err, ok-bind,
}
use component_model.Descriptor.{PrimName, TypeDesc, TypeRef, RecordField, VariantCase}
use component_model.Abi.Layout.{
  align_overflow, checked_align, checked_add, discriminant_type, alignment_primitive, flags_width,
  Resolver, resolve_type,
}
use component_model.Abi.Layout.Align.{
  Measure, larger, alignment_enum, measure_ref, alignment_optional, alignment_record,
  alignment_tuple, max_case_alignment, alignment_variant, alignment_option, alignment_result,
  alignment_kind, alignment_unchecked,
}

abbrev pub IsAlign : ℕ → Type 0
IsAlign a = (a ≡ 1) ⊎ (a ≡ 2) ⊎ (a ≡ 4) ⊎ (a ≡ 8)

-- For a power of two up to eight, `checkedAlign` answers with the least multiple that is not below
-- the offset, or with an overflow if every such multiple is 2 ^ 32 or more.
pub checked_align_least :
    (offset alignment : ℕ)
    → offset < 2 ^ 32
    → IsAlign alignment
    → ((r : ℕ) × (checked_align offset alignment ≡ ok r)
        × (r % alignment ≡ 0)
        × (offset ≤ r)
        × (r < offset + alignment)
        × (r < 2 ^ 32))
      ⊎ ((checked_align offset alignment ≡ err (align_overflow offset alignment))
          × ((m : ℕ) → offset ≤ m → m % alignment ≡ 0 → 2 ^ 32 ≤ m))
unfolding checked_align
checked_align_least offset alignment h a = elim (lt-cases (offset + alignment - 1) (2 ^ 32)) [
  | inl fits ↦ inl (
    (offset + alignment - 1) / alignment * alignment,
    ground arith,
    ground arith,
    ground arith,
    ground arith,
    ground arith,
  )
  | inr over ↦ inr (ground arith, λ m below multiple. ground arith)
]

pub checked_align-multiple :
    (offset alignment : ℕ) {r : ℕ}
    → IsAlign alignment
    → checked_align offset alignment ≡ ok r
    → (r % alignment ≡ 0) × (r < 2 ^ 32)
unfolding checked_align
checked_align-multiple offset alignment a e = ground arith

pub checked_add_lt : (a b : ℕ) {r : ℕ} → checked_add a b ≡ ok r → (r ≡ a + b) × (r < 2 ^ 32)
unfolding checked_add
checked_add_lt a b e = ground arith

pub larger-IsAlign : (a b : ℕ) → IsAlign a → IsAlign b → IsAlign (larger a b)
larger-IsAlign a b ha hb = ground arith

module _ {a : ℕ} where
  alignment_primitive-IsAlign : (p : Option PrimName) → alignment_primitive p ≡ ok a → IsAlign a
  unfolding alignment_primitive
  alignment_primitive-IsAlign p e = ground arith

  flags_width-IsAlign : (n : ℕ) → flags_width n ≡ ok a → IsAlign a
  unfolding flags_width
  flags_width-IsAlign n e = ground arith

  alignment_enum-IsAlign : (n : ℕ) → alignment_enum n ≡ ok a → IsAlign a
  unfolding alignment_enum
  alignment_enum-IsAlign n e = elim (Option-cases (discriminant_type n)) [
    | inl absent ↦ ground arith
    | inr (disc, found) ↦ ground (arith, alignment_primitive-IsAlign (some disc))
  ]

module _ (resolve : Resolver) (below : Measure)
    (h : (t : Option TypeDesc) (a : ℕ) → below t ≡ ok a → IsAlign a) where
  pub ref-IsAlign : (ref : TypeRef) {a : ℕ} → measure_ref resolve below ref ≡ ok a → IsAlign a
  unfolding measure_ref
  ref-IsAlign ref e = ok-bind (resolve_type resolve (some ref)) below e (λ t _. h t _)

  pub optional-IsAlign :
      (o : Option TypeRef) (m : ℕ) {a : ℕ}
      → IsAlign m
      → alignment_optional resolve below o m ≡ ok a
      → IsAlign a
  unfolding alignment_optional
  optional-IsAlign none m hm e = ground arith
  optional-IsAlign (some ref) m hm e =
      ok-bind (measure_ref resolve below ref) _ e (λ x ex ea. ground (arith, ref-IsAlign ref ex))

  record-IsAlign :
      (fields : List RecordField) (m : ℕ) {a : ℕ}
      → IsAlign m
      → alignment_record resolve below fields m ≡ ok a
      → IsAlign a
  unfolding alignment_record
  record-IsAlign [] m hm e = ground arith
  record-IsAlign (f ∷ fields) m hm e = ok-bind (measure_ref resolve below f.type) _ e (λ x ex ea.
      record-IsAlign fields (larger m x) (larger-IsAlign m x hm (ref-IsAlign f.type ex)) ea)

  tuple-IsAlign :
      (elements : List TypeRef) (m : ℕ) {a : ℕ}
      → IsAlign m
      → alignment_tuple resolve below elements m ≡ ok a
      → IsAlign a
  unfolding alignment_tuple
  tuple-IsAlign [] m hm e = ground arith
  tuple-IsAlign (r ∷ elements) m hm e =
      ok-bind (measure_ref resolve below r) _ e (λ x ex ea.
        tuple-IsAlign elements (larger m x) (larger-IsAlign m x hm (ref-IsAlign r ex)) ea)

  pub cases-IsAlign :
      (cases : List VariantCase) (m : ℕ) {a : ℕ}
      → IsAlign m
      → max_case_alignment resolve below cases m ≡ ok a
      → IsAlign a
  unfolding max_case_alignment
  cases-IsAlign [] m hm e = ground arith
  cases-IsAlign (c ∷ cases) m hm e =
      ok-bind (alignment_optional resolve below c.type m) _ e
        (λ x ex ea. cases-IsAlign cases x (optional-IsAlign c.type m hm ex) ea)

  pub variant-IsAlign :
      (cases : List VariantCase) {a : ℕ} → alignment_variant resolve below cases ≡ ok a → IsAlign a
  unfolding alignment_variant
  variant-IsAlign cases e =
      ok-bind (alignment_primitive (discriminant_type (length cases))) _ e (λ d ed e1.
        ok-bind (max_case_alignment resolve below cases 1) _ e1 (λ m em e2. ground (
          arith,
          larger-IsAlign d m (alignment_primitive-IsAlign _ ed)
              (cases-IsAlign cases 1 (inl refl) em),
        )))

  option-IsAlign : (ref : TypeRef) {a : ℕ} → alignment_option resolve below ref ≡ ok a → IsAlign a
  unfolding alignment_option
  option-IsAlign ref e =
      ok-bind (measure_ref resolve below ref) _ e (λ x ex ea. ground (arith, ref-IsAlign ref ex))

  result-IsAlign :
      (o p : Option TypeRef) {a : ℕ} → alignment_result resolve below o p ≡ ok a → IsAlign a
  unfolding alignment_result
  result-IsAlign o p e = ok-bind (alignment_optional resolve below o 1) _ e (λ x ex e1.
      ok-bind (alignment_optional resolve below p x) _ e1
        (λ y ey e2. ground (arith, optional-IsAlign p x (optional-IsAlign o 1 (inl refl) ex) ey)))

  pub kind-IsAlign :
      (t : Option TypeDesc) {a : ℕ} → alignment_kind resolve below t ≡ ok a → IsAlign a
  unfolding alignment_kind
  kind-IsAlign none e = cc
  kind-IsAlign (some (TypeDesc.primitive_desc prim)) e = alignment_primitive-IsAlign (some prim) e
  kind-IsAlign (some (TypeDesc.record_desc fields)) e = record-IsAlign fields 1 (inl refl) e
  kind-IsAlign (some (TypeDesc.variant_desc cases)) e = variant-IsAlign cases e
  kind-IsAlign (some (TypeDesc.tuple_desc elements)) e = tuple-IsAlign elements 1 (inl refl) e
  kind-IsAlign (some (TypeDesc.flags_desc names)) e = flags_width-IsAlign (length names) e
  kind-IsAlign (some (TypeDesc.enum_desc cases)) e = alignment_enum-IsAlign (length cases) e
  kind-IsAlign (some (TypeDesc.option_desc element)) e = option-IsAlign element e
  kind-IsAlign (some (TypeDesc.result_desc o p)) e = result-IsAlign o p e
  kind-IsAlign (some t) e = ground arith

-- Every alignment is 1, 2, 4 or 8.
pub alignment_unchecked-IsAlign :
    (fuel : ℕ) (resolve : Resolver) (t : Option TypeDesc) (a : ℕ)
    → alignment_unchecked fuel resolve t ≡ ok a
    → IsAlign a
unfolding alignment_unchecked
alignment_unchecked-IsAlign zero resolve t a e = cc
alignment_unchecked-IsAlign (suc fuel) resolve t a e =
    kind-IsAlign resolve (λ d. alignment_unchecked fuel resolve d)
      (λ d b. alignment_unchecked-IsAlign fuel resolve d b) t e
