-- ===== src/Abi/Layout/Despecialize.antt =====
-- internal/abi/layout.go: the ABI defines an option, a result and a tuple as a variant, a variant
-- and a record. The source computes their layouts by functions of their own.
use component_model.Prelude.{
  ℕ, zero, suc, ◌≡◌, refl, List, [], ◌∷◌, Option, none, some, inl, arith, Result, ok, ◌>>=◌,
  ok-bind, max, map, ap, ◌∙◌, ok-injective,
}
use mathlib.Core.Path.{fun_ext, subst}
use Prim.Native.String.{String}
use component_model.Descriptor.{TypeDesc, TypeRef, VariantCase}
use component_model.Abi.Layout.{
  Error, checked_align, checked_add, discriminant_type, alignment_primitive, size_primitive,
  Resolver, resolve_type,
}
use component_model.Abi.Layout.Align.{
  Measure, larger, measure_ref, alignment_optional, alignment_record, alignment_tuple,
  max_case_alignment, alignment_variant, alignment_unchecked,
}
use component_model.Abi.Layout.Size.{
  place, fields_end, size_record, elements_end, size_tuple, max_case_size, size_variant,
  size_option, widen, payload_end, size_result, size_kind, size_unchecked,
}
use component_model.Abi.Layout.Bounds.{IsAlign, larger-IsAlign, alignment_unchecked-IsAlign}

-- The Canonical ABI's despecialization of a descriptor.
unfoldable pub despecialize : TypeDesc → TypeDesc
despecialize (TypeDesc.tuple_desc elements) =
    TypeDesc.record_desc (map (λ e. record { name = "field"; type = e }) elements)
despecialize (TypeDesc.option_desc element) =
    TypeDesc.variant_desc
      (record { name = "none"; type = none } ∷ record { name = "some"; type = some element } ∷ [])
despecialize (TypeDesc.result_desc o p) =
    TypeDesc.variant_desc
      (record { name = "ok"; type = o } ∷ record { name = "error"; type = p } ∷ [])
despecialize t = t

-- The two ways of the source to take a maximum agree above 1.
larger_eq-max : (a : ℕ) → larger 1 a ≡ max 1 a
larger_eq-max a = ground arith

max_one : (a : ℕ) → IsAlign a → max 1 a ≡ a
max_one a h = ground arith

larger-zero : (x : ℕ) → larger 0 x ≡ x
larger-zero x = ground arith

module _ (resolve : Resolver) (ba bs : Measure)
    (h : (t : Option TypeDesc) (a : ℕ) → ba t ≡ ok a → IsAlign a) where
  tuple_alignment :
      (elements : List TypeRef) (m : ℕ)
      → alignment_record resolve ba (map (λ e. record { name = "field"; type = e }) elements) m
        ≡ alignment_tuple resolve ba elements m
  unfolding alignment_record alignment_tuple
  tuple_alignment [] m = refl
  tuple_alignment (e ∷ elements) m =
      ap (λ (k : ℕ → Result Error ℕ). measure_ref resolve ba e >>= k)
        (fun_ext (λ x. tuple_alignment elements (larger m x)))

  tuple_end :
      (elements : List TypeRef) (offset : ℕ)
      → fields_end resolve ba bs (map (λ e. record { name = "field"; type = e }) elements) offset
        ≡ elements_end resolve ba bs elements offset
  unfolding fields_end elements_end
  tuple_end [] offset = refl
  tuple_end (e ∷ elements) offset =
      ap (λ (k : ℕ → Result Error ℕ). place resolve ba bs offset e >>= k)
        (fun_ext (λ next. tuple_end elements next))

  tuple_size :
      (elements : List TypeRef)
      → size_record resolve ba bs (map (λ e. record { name = "field"; type = e }) elements)
        ≡ size_tuple resolve ba bs elements
  unfolding size_record size_tuple
  tuple_size elements = rw (tuple_end elements 0, tuple_alignment elements 1) refl

  option_size :
      (ref : TypeRef) (s : ℕ)
      → size_option resolve ba bs ref ≡ ok s
      → size_kind resolve ba bs (some (despecialize (TypeDesc.option_desc ref))) ≡ ok s
  unfolding despecialize size_kind size_option size_variant max_case_alignment max_case_size
      alignment_variant alignment_optional measure_ref discriminant_type size_primitive
      alignment_primitive
  option_size ref s e = ok-bind (resolve_type resolve (some ref)) _ e (λ t et e1.
      ok-bind (bs t) _ e1 (λ size es e2. ok-bind (ba t) _ e2 (λ a ea e3.
        ok-bind (checked_align 1 a) _ e3 (λ payload ep e4.
          ok-bind (checked_add payload size) _ e4 (λ offset eo e5.
            let one : larger 1 a ≡ a = ground (arith, h t a ea) in
            let pad : checked_align offset a ≡ ok s = rw (max_one a (h t a ea)) at e5 in
            rw (et, ea, es) (simp (one, larger-zero size, ep, eo) pad))))))

  -- One arm of a result does to the maxima what one case of a variant does.
  arm :
      (name : String) (o : Option TypeRef) (cases : List VariantCase) (p q : ℕ × ℕ)
      → IsAlign p.1
      → widen resolve ba bs o p ≡ ok q
      → (max_case_size resolve ba bs (record { name = name; type = o } ∷ cases) p.0
          ≡ max_case_size resolve ba bs cases q.0)
        × (max_case_alignment resolve ba (record { name = name; type = o } ∷ cases) p.1
            ≡ max_case_alignment resolve ba cases q.1)
        × IsAlign q.1
  unfolding widen max_case_size max_case_alignment alignment_optional measure_ref
  arm name none cases p q hp e =
      let same : p ≡ q = ground arith in
      (
        ap (λ (x : ℕ × ℕ). max_case_size resolve ba bs cases x.0) same,
        ap (λ (x : ℕ × ℕ). max_case_alignment resolve ba cases x.1) same,
        subst (λ (x : ℕ × ℕ). IsAlign x.1) same hp,
      )
  arm name (some ref) cases p q hp e = ok-bind (resolve_type resolve (some ref)) _ e (λ t et e1.
      ok-bind (bs t) _ e1 (λ size es e2. ok-bind (ba t) _ e2 (λ a ea e3.
        let same : (larger p.0 size, larger p.1 a) ≡ q = ok-injective e3 in
        (
          rw (et, es) (ap (λ (x : ℕ × ℕ). max_case_size resolve ba bs cases x.0) same),
          rw (et, ea) (ap (λ (x : ℕ × ℕ). max_case_alignment resolve ba cases x.1) same),
          subst (λ (x : ℕ × ℕ). IsAlign x.1) same (larger-IsAlign p.1 a hp (h t a ea)),
        ))))

  result_size :
      (o p : Option TypeRef) (s : ℕ)
      → size_result resolve ba bs o p ≡ ok s
      → size_kind resolve ba bs (some (despecialize (TypeDesc.result_desc o p))) ≡ ok s
  unfolding despecialize size_kind size_result payload_end size_variant alignment_variant
      discriminant_type size_primitive alignment_primitive
  result_size o p s e = ok-bind (widen resolve ba bs o (0, 1)) _ e (λ first ef e1.
      ok-bind (widen resolve ba bs p first) _ e1 (λ both eb e2.
        ok-bind (checked_align 1 both.1) _ e2 (λ payload ep e3.
          ok-bind (checked_add payload both.0) _ e3 (λ offset eo e4.
            let (s1, a1, i1) =
              arm "ok" o (record { name = "error"; type = p } ∷ []) (0, 1) first (inl refl) ef in
            let (s2, a2, i2) = arm "error" p [] first both i1 eb in
            let sizes : max_case_size resolve ba bs
                  (record { name = "ok"; type = o } ∷ record { name = "error"; type = p } ∷ []) 0
                ≡ ok both.0 =
              s1 ∙ s2 ∙ (unfold max_case_size in refl) in
            let aligns : max_case_alignment resolve ba
                  (record { name = "ok"; type = o } ∷ record { name = "error"; type = p } ∷ []) 1
                ≡ ok both.1 =
              a1 ∙ a2 ∙ (unfold max_case_alignment in refl) in
            let one : larger 1 both.1 ≡ both.1 = ground (arith, i2) in
            let pad : checked_align offset both.1 ≡ ok s = rw (max_one both.1 i2) at e4 in
            simp (sizes, aligns, one, ep, eo) pad))))

-- A type that has a size has the same size after despecialization: the functions of the source's
-- own for tuples, options and results lay values out as the records and variants that the
-- Canonical ABI defines them by.
pub size-despecialize :
    (fuel : ℕ) (resolve : Resolver) (t : TypeDesc) (s : ℕ)
    → size_unchecked fuel resolve (some t) ≡ ok s
    → size_unchecked fuel resolve (some (despecialize t)) ≡ ok s
unfolding size_unchecked despecialize size_kind
size-despecialize zero resolve t s e = cc
size-despecialize (suc fuel) resolve (TypeDesc.tuple_desc elements) s e =
    tuple_size resolve (λ d. alignment_unchecked fuel resolve d)
      (λ d. size_unchecked fuel resolve d) (λ d a. alignment_unchecked-IsAlign fuel resolve d a)
      elements
    ∙ e
size-despecialize (suc fuel) resolve (TypeDesc.option_desc element) s e =
    option_size resolve (λ d. alignment_unchecked fuel resolve d)
      (λ d. size_unchecked fuel resolve d) (λ d a. alignment_unchecked-IsAlign fuel resolve d a)
      element s e
size-despecialize (suc fuel) resolve (TypeDesc.result_desc o p) s e =
    result_size resolve (λ d. alignment_unchecked fuel resolve d)
      (λ d. size_unchecked fuel resolve d) (λ d a. alignment_unchecked-IsAlign fuel resolve d a) o p
      s e
size-despecialize (suc fuel) resolve t s e = e
