-- ===== src/Abi/Memory/Reads.antt =====
-- internal/abi/memory.go: which bytes a load depends on.
use component_model.Prelude.{
  ℕ, zero, suc, ◌+◌, ◌<◌, ◌≡◌, ◌∙◌, refl, ap, arith, List, [], ◌∷◌, Option, none, some, Bool, true,
  false, Bool-cases, inl, inr, ltb, Result, ok, err, stuck, ◌>>=◌, wrap, length, not,
}
use component_model.Descriptor.{PrimName, TypeDesc, TypeRef, RecordField, VariantCase}
use component_model.Abi.Layout.Size.{size}
use component_model.Abi.Layout.Align.{alignment}
use component_model.Abi.Layout.{Resolver, resolve_type, size_primitive, discriminant_type}
use component_model.Abi.Memory.{
  Memory, MemError, layout, check, checked_byte_length, is_aligned, misaligned, list_overflow,
  too_many_elements, max_list_elements, in_list, in_field, in_element, checked_range, load_word,
  load_int,
}
use component_model.Abi.Memory.Words.{little_endian-agree, bytes_of-agree}
use component_model.Abi.Memory.Load.{
  Loaded, load_string_from_range, load_pair, load_string, load_primitive, load_flags, load_enum,
  load_field, load_fields, load_elements, load_each, load_list_from_range, load_list, load_payload,
  load_variant, load_option, load_result, load_kind, load_value, load, check_place,
}

then_same {ℓ κ μ} :
    {E : Type ℓ} {A : Type κ} {B : Type μ} (m : Result E A) {f g : A → Result E B}
    → ((a : A) → f a ≡ g a)
    → (m >>= f) ≡ (m >>= g)
then_same (ok a) h = h a
then_same (err e) h = refl
then_same stuck h = refl

bind_same {ℓ κ μ} :
    {E : Type ℓ} {A : Type κ} {B : Type μ} {m n : Result E A} {f g : A → Result E B}
    → m ≡ n
    → ((a : A) → f a ≡ g a)
    → (m >>= f) ≡ (n >>= g)
bind_same {m} {n} {f} {g} e h = ap (λ r. r >>= f) e ∙ then_same n h

module _ (mem : Memory) (bytes : ℕ → ℕ) (same : (k : ℕ) → k < mem.size → bytes k ≡ mem.byte k) where
  abbrev other : Memory
  other = record mem { byte = bytes }

  load_word-agree : (p n : ℕ) → load_word other p n ≡ load_word mem p n
  unfolding load_word checked_range
  load_word-agree p n = elim (Bool-cases (ltb mem.size (p + n))) [
    | inl outside ↦ rw outside refl
    | inr inside ↦
        let read =
          little_endian-agree n p bytes mem.byte (λ k above below. same k (ground arith)) in
        rw (inside, read) refl
  ]

  load_int-agree : (p n : ℕ) (signed : Bool) → load_int other p n signed ≡ load_int mem p n signed
  unfolding load_int
  load_int-agree p n signed = bind_same (load_word-agree p n) λ v. refl

  load_string_from_range-agree :
      (p n : ℕ) → load_string_from_range other p n ≡ load_string_from_range mem p n
  unfolding load_string_from_range
  load_string_from_range-agree p n = elim (Bool-cases (ltb mem.size (p + n))) [
    | inl outside ↦ rw outside refl
    | inr inside ↦
        let read = bytes_of-agree n p bytes mem.byte (λ k above below. same k (ground arith)) in
        rw (inside, read) refl
  ]

  load_pair-agree :
      (label : MemError → MemError) (p : ℕ) → load_pair other label p ≡ load_pair mem label p
  unfolding load_pair
  load_pair-agree label p =
      bind_same (load_word-agree p 4)
        λ first. then_same _ λ q. bind_same (load_word-agree q 4) λ second. refl

  load_primitive-agree :
      (p : ℕ) (prim : PrimName) → load_primitive other p prim ≡ load_primitive mem p prim
  unfolding load_primitive load_string
  load_primitive-agree p PrimName.bool = bind_same (load_word-agree p 1) λ v. refl
  load_primitive-agree p PrimName.u8 = load_int-agree p 1 false
  load_primitive-agree p PrimName.u16 = load_int-agree p 2 false
  load_primitive-agree p PrimName.u32 = load_int-agree p 4 false
  load_primitive-agree p PrimName.s8 = load_int-agree p 1 true
  load_primitive-agree p PrimName.s16 = load_int-agree p 2 true
  load_primitive-agree p PrimName.s32 = load_int-agree p 4 true
  load_primitive-agree p PrimName.u64 = load_int-agree p 8 false
  load_primitive-agree p PrimName.s64 = load_int-agree p 8 true
  load_primitive-agree p PrimName.f32 = bind_same (load_word-agree p 4) λ v. refl
  load_primitive-agree p PrimName.f64 = bind_same (load_word-agree p 8) λ v. refl
  load_primitive-agree p PrimName.char = bind_same (load_word-agree p 4) λ v. refl
  load_primitive-agree p PrimName.string =
      bind_same (load_pair-agree _ p) λ (first, second). load_string_from_range-agree first second
  load_primitive-agree p PrimName.error_context = load_int-agree p 4 false
  load_primitive-agree p (PrimName.other name) = refl

  module _ (resolve : Resolver) (below : ℕ → Option TypeDesc → Loaded) where
    load_fields-agree :
        (fields : List RecordField) (offset : ℕ)
        → load_fields other resolve below fields offset
          ≡ load_fields mem resolve below fields offset
    unfolding load_fields load_field
    load_fields-agree [] offset = refl
    load_fields-agree (f ∷ fields) offset =
        then_same (load_field mem resolve below (in_field f.name) offset f.type)
          λ (v, next). bind_same (load_fields-agree fields next) λ vs. refl

    load_elements-agree :
        (i : ℕ) (elements : List TypeRef) (offset : ℕ)
        → load_elements other resolve below i elements offset
          ≡ load_elements mem resolve below i elements offset
    unfolding load_elements load_field
    load_elements-agree i [] offset = refl
    load_elements-agree i (x ∷ elements) offset =
        then_same (load_field mem resolve below (in_element i) offset x)
          λ (v, next). bind_same (load_elements-agree (i + 1) elements next) λ vs. refl

    load_each-agree :
        (count : ℕ) (t : Option TypeDesc) (s i p : ℕ)
        → load_each other resolve below count t s i p ≡ load_each mem resolve below count t s i p
    unfolding load_each
    load_each-agree zero t s i p = refl
    load_each-agree (suc count) t s i p =
        then_same (wrap (in_element i) (below p t))
          λ v. then_same _ λ next. bind_same (load_each-agree count t s (i + 1) next) λ vs. refl

    load_list_from_range-agree :
        (p count : ℕ) (t : Option TypeDesc)
        → load_list_from_range other resolve below p count t
          ≡ load_list_from_range mem resolve below p count t
    unfolding load_list_from_range
    load_list_from_range-agree p count t = then_same (layout (size t resolve)) λ s.
        then_same (layout (alignment t resolve)) λ a.
          then_same (wrap in_list (checked_byte_length count s)) λ n.
            then_same (check (not (ltb max_list_elements count)) (too_many_elements count)) λ u.
              then_same (check (not (ltb mem.size (p + n))) (list_overflow p n mem.size)) λ u1.
                then_same (check (is_aligned p a) (misaligned p a))
                  λ u2. bind_same (load_each-agree count t s 0 p) λ vs. refl

    load_list-agree :
        (p : ℕ) (element : TypeRef)
        → load_list other resolve below p element ≡ load_list mem resolve below p element
    unfolding load_list
    load_list-agree p element = then_same (layout (resolve_type resolve (some element))) λ t.
        bind_same (load_pair-agree _ p) λ (first, second). load_list_from_range-agree first second t

    load_variant-agree :
        (p : ℕ) (cases : List VariantCase)
        → load_variant other resolve below p cases ≡ load_variant mem resolve below p cases
    unfolding load_variant load_payload
    load_variant-agree p cases =
        then_same (layout (size_primitive (discriminant_type (length cases))))
          λ s. bind_same (load_word-agree p s) λ idx. refl

    load_option-agree :
        (p : ℕ) (element : TypeRef)
        → load_option other resolve below p element ≡ load_option mem resolve below p element
    unfolding load_option
    load_option-agree p element =
        then_same (layout (resolve_type resolve (some element)))
          λ t. bind_same (load_word-agree p 1) λ disc. refl

    load_result-agree :
        (p : ℕ) (ok_type err_type : Option TypeRef)
        → load_result other resolve below p ok_type err_type
          ≡ load_result mem resolve below p ok_type err_type
    unfolding load_result load_payload
    load_result-agree p ok_type err_type = bind_same (load_word-agree p 1) λ disc. refl

    load_kind-agree :
        (p : ℕ) (t : Option TypeDesc)
        → load_kind other resolve below p t ≡ load_kind mem resolve below p t
    unfolding load_kind load_flags load_enum
    load_kind-agree p none = refl
    load_kind-agree p (some (TypeDesc.primitive_desc prim)) = load_primitive-agree p prim
    load_kind-agree p (some (TypeDesc.list_desc element)) = load_list-agree p element
    load_kind-agree p (some (TypeDesc.record_desc fields)) =
        bind_same (load_fields-agree fields p) λ vs. refl
    load_kind-agree p (some (TypeDesc.variant_desc cases)) = load_variant-agree p cases
    load_kind-agree p (some (TypeDesc.tuple_desc elements)) =
        bind_same (load_elements-agree 0 elements p) λ vs. refl
    load_kind-agree p (some (TypeDesc.flags_desc names)) = then_same _ λ s. load_int-agree p s false
    load_kind-agree p (some (TypeDesc.enum_desc cases)) =
        then_same _ λ s. bind_same (load_word-agree p s) λ idx. refl
    load_kind-agree p (some (TypeDesc.option_desc element)) = load_option-agree p element
    load_kind-agree p (some (TypeDesc.result_desc o r)) = load_result-agree p o r
    load_kind-agree p (some (TypeDesc.own_desc resource)) = load_int-agree p 4 false
    load_kind-agree p (some (TypeDesc.borrow_desc resource)) = load_int-agree p 4 false
    load_kind-agree p (some (TypeDesc.stream_desc element)) = load_int-agree p 4 false
    load_kind-agree p (some (TypeDesc.future_desc element)) = load_int-agree p 4 false
    load_kind-agree p (some t) = refl

load_value-agree :
    (mem : Memory) (bytes : ℕ → ℕ) (same : (k : ℕ) → k < mem.size → bytes k ≡ mem.byte k)
    (resolve : Resolver) (fuel p : ℕ) (t : Option TypeDesc)
    → load_value fuel (record mem { byte = bytes }) resolve p t ≡ load_value fuel mem resolve p t
unfolding load_value
load_value-agree mem bytes same resolve zero p t = refl
load_value-agree mem bytes same resolve (suc fuel) p t =
    load_kind-agree mem bytes same resolve
      (λ q d. load_value fuel (record mem { byte = bytes }) resolve q d) p t
    ∙ λ i. load_kind mem resolve (λ q d. load_value-agree mem bytes same resolve fuel q d i) p t

-- `Load` reads inside the memory only, whatever pointers and lengths the guest has put there: bytes
-- at or above the size of the memory do not change its answer, errors included.
pub load-agree :
    (fuel : ℕ) (mem : Memory) (bytes : ℕ → ℕ) (p : ℕ) (t : Option TypeDesc) (resolve : Resolver)
    → ((k : ℕ) → k < mem.size → bytes k ≡ mem.byte k)
    → load fuel (record mem { byte = bytes }) p t resolve ≡ load fuel mem p t resolve
unfolding load check_place
load-agree fuel mem bytes p t resolve same =
    then_same _ λ u. load_value-agree mem bytes same resolve fuel p t
