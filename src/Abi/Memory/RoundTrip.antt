-- ===== src/Abi/Memory/RoundTrip.antt =====
-- internal/abi/memory.go: what `Store` wrote, `Load` reads back, for every type.
use component_model.Prelude.{
  ℕ, zero, suc, ◌+◌, ◌%◌, ◌≤◌, ◌≡◌, refl, arith, Option, some, true, false, ◌==◌, ok, List, length,
  ok-bind,
}
use component_model.Descriptor.{TypeDesc, TypeRef, RecordField}
use component_model.Abi.Layout.{Resolver}
use component_model.Abi.Layout.Align.{
  Measure, alignment_record, alignment_tuple, alignment_kind, alignment_unchecked, alignment,
}
use component_model.Abi.Layout.Size.{
  fields_end, elements_end, size_kind, size_record, size_tuple, size_unchecked, size,
}
use component_model.Abi.Layout.Validate.{layout_fuel}
use component_model.Abi.Layout.Bounds.{IsAlign, kind-IsAlign, alignment_unchecked-IsAlign}
use component_model.Abi.Layout.Inside.{checked_align-above}
use component_model.Abi.Value.{Value, Values, slice, variant_value, result_value, count_values}
use component_model.Abi.Memory.{Memory, Realloc, layout, is_aligned}
use component_model.Abi.Memory.Fits.{FitsFields, FitsElements, FitsKind, Fits}
use component_model.Abi.Memory.Load.{
  Loaded, load_fields, load_elements, load_kind, load_value, load, check_place,
}
use component_model.Abi.Memory.Store.{
  Stored, store_record, store_tuple, store_kind, store_value, store,
}
use component_model.Abi.Memory.Wrote.{Wrote, Wrote-wider, Live, Fresh, OutOfRange}
use component_model.Abi.Memory.Scalars.{check-holds}
use component_model.Abi.Memory.Simple.{
  at_size, store_primitive-Wrote, store_handle-Wrote, store_flags-Wrote, store_enum-Wrote,
}
use component_model.Abi.Memory.Fields.{Recovers, fields-Wrote, elements-Wrote}
use component_model.Abi.Memory.Elements.{list-Wrote, unchecked-alignment, unchecked-size}
use component_model.Abi.Memory.Blocks.{layout-ok}
use component_model.Abi.Memory.Arms.{option-Wrote}
use component_model.Abi.Memory.Cases.{variant-Wrote}
use component_model.Abi.Memory.ResultArms.{result-Wrote}

-- The checks of a place look at the size of the memory only.
check_place-size :
    (p : ℕ) (t : Option TypeDesc) (resolve : Resolver) (mem after : Memory)
    → after.size ≡ mem.size
    → check_place after p t resolve ≡ check_place mem p t resolve
unfolding check_place
check_place-size p t resolve mem after same = rw same refl

aligned-multiple : (p a : ℕ) → IsAlign a → is_aligned p a ≡ true → p % a ≡ 0
unfolding is_aligned
aligned-multiple p a ha e = ground arith

plus_zero : (p : ℕ) → p + 0 ≡ p
plus_zero p = omega arith

module _ (live : ℕ → ℕ → Type 0) (realloc : Realloc) (fresh : Fresh live realloc)
    (resolve : Resolver) where
  module _ (loads : Memory → ℕ → Option TypeDesc → Loaded)
      (stores : Memory → ℕ → Option TypeDesc → Value → Stored)
      (fits : Option TypeDesc → Value → Type 0) (recovers : Recovers live resolve loads stores fits)
      (n : ℕ) (within : n ≤ layout_fuel) (mem after : Memory) (p a s : ℕ) where
    abbrev aligns : Measure
    aligns = λ d. alignment_unchecked n resolve d

    abbrev sizes : Measure
    sizes = λ d. size_unchecked n resolve d

    record-Wrote :
        (fields : List RecordField) (vs : Values)
        → IsAlign a
        → p % a ≡ 0
        → alignment_record resolve aligns fields 1 ≡ ok a
        → size_record resolve aligns sizes fields ≡ ok s
        → FitsFields resolve fits fields vs
        → Live live mem p (p + s)
        → store_record realloc resolve stores mem p (slice vs) fields ≡ ok after
        → Wrote live mem after p
            (p + s)
            (λ m. load_fields m resolve (λ q d. loads m q d) fields p ≡ ok vs)
    unfolding size_record store_record
    record-Wrote fields vs ha multiple aligned sized held here e =
        ok-bind (fields_end resolve aligns sizes fields 0) _ sized λ end e_end s1.
          let padded = checked_align-above end a ha (rw aligned at s1) in
          let (_, stored) = check-holds (count_values vs == length fields) _ _ e in
          Wrote-wider live (omega arith) (omega arith) (λ m size l. rw (plus_zero p) at l)
            (fields-Wrote live realloc resolve loads stores fits recovers n within mem p a fields 1
              0 end vs after ha multiple aligned e_end held
              (λ k (l, h). here k (omega arith, omega arith)) (rw (plus_zero p) stored))

    tuple-Wrote :
        (elements : List TypeRef) (vs : Values)
        → IsAlign a
        → p % a ≡ 0
        → alignment_tuple resolve aligns elements 1 ≡ ok a
        → size_tuple resolve aligns sizes elements ≡ ok s
        → FitsElements resolve fits elements vs
        → Live live mem p (p + s)
        → store_tuple realloc resolve stores mem p (slice vs) elements ≡ ok after
        → Wrote live mem after p
            (p + s)
            (λ m. load_elements m resolve (λ q d. loads m q d) 0 elements p ≡ ok vs)
    unfolding size_tuple store_tuple
    tuple-Wrote elements vs ha multiple aligned sized held here e =
        ok-bind (elements_end resolve aligns sizes elements 0) _ sized λ end e_end s1.
          let padded = checked_align-above end a ha (rw aligned at s1) in
          let (_, stored) = check-holds (count_values vs == length elements) _ _ e in
          Wrote-wider live (omega arith) (omega arith) (λ m size l. rw (plus_zero p) at l)
            (elements-Wrote live realloc resolve loads stores fits recovers n within 0 mem p a
              elements 1 0 end vs after ha multiple aligned e_end held
              (λ k (l, h). here k (omega arith, omega arith)) (rw (plus_zero p) stored))

    kind-Wrote :
        (t : Option TypeDesc) (v : Value)
        → IsAlign a
        → p % a ≡ 0
        → alignment_kind resolve aligns t ≡ ok a
        → size_kind resolve aligns sizes t ≡ ok s
        → FitsKind resolve fits t v
        → Live live mem p (p + s)
        → store_kind realloc resolve stores mem p t v ≡ ok after
        → Wrote live mem after p (p + s) (λ m. load_kind m resolve (λ q d. loads m q d) p t ≡ ok v)
    unfolding alignment_kind size_kind FitsKind store_kind load_kind
    kind-Wrote (some (TypeDesc.primitive_desc prim)) v ha multiple aligned sized held here e =
        store_primitive-Wrote live realloc fresh mem p after prim v s held sized here e
    kind-Wrote (some (TypeDesc.list_desc element)) (slice vs) ha multiple aligned sized (few, held)
          here e =
        at_size live realloc fresh mem p after sized here λ h.
          list-Wrote live realloc resolve loads stores fits recovers mem p element vs after fresh
            few held h e
    kind-Wrote (some (TypeDesc.record_desc fields)) (slice vs) ha multiple aligned sized held here
          e =
        Wrote-wider live (omega arith) (omega arith) (λ m size l. rw l refl)
          (record-Wrote fields vs ha multiple aligned sized held here e)
    kind-Wrote (some (TypeDesc.tuple_desc elements)) (slice vs) ha multiple aligned sized held here
          e =
        Wrote-wider live (omega arith) (omega arith) (λ m size l. rw l refl)
          (tuple-Wrote elements vs ha multiple aligned sized held here e)
    kind-Wrote (some (TypeDesc.variant_desc cases)) (variant_value idx v) ha multiple aligned sized
          held here e =
        variant-Wrote live realloc resolve loads stores fits recovers n within mem p s a idx cases v
          after aligned sized multiple held here e
    kind-Wrote (some (TypeDesc.flags_desc names)) v ha multiple aligned sized held here e =
        store_flags-Wrote live realloc fresh mem p after (length names) v s held sized here e
    kind-Wrote (some (TypeDesc.enum_desc cases)) v ha multiple aligned sized held here e =
        store_enum-Wrote live realloc fresh mem p after (length cases) v s held sized here e
    kind-Wrote (some (TypeDesc.option_desc element)) v ha multiple aligned sized held here e =
        option-Wrote live realloc resolve loads stores fits recovers n within mem p s a element v
          after aligned sized multiple held here e
    kind-Wrote (some (TypeDesc.result_desc ok_type err_type)) (result_value false v) ha multiple
          aligned sized held here e =
        result-Wrote live realloc resolve loads stores fits recovers n within mem p s a ok_type
          err_type false v after aligned sized multiple held here e
    kind-Wrote (some (TypeDesc.result_desc ok_type err_type)) (result_value true v) ha multiple
          aligned sized held here e =
        result-Wrote live realloc resolve loads stores fits recovers n within mem p s a ok_type
          err_type true v after aligned sized multiple held here e
    kind-Wrote (some (TypeDesc.own_desc resource)) v ha multiple aligned sized held here e =
        at_size live realloc fresh mem p after sized here
          λ h. store_handle-Wrote live realloc fresh mem p after v held h e
    kind-Wrote (some (TypeDesc.borrow_desc resource)) v ha multiple aligned sized held here e =
        at_size live realloc fresh mem p after sized here
          λ h. store_handle-Wrote live realloc fresh mem p after v held h e
    kind-Wrote (some (TypeDesc.stream_desc element)) v ha multiple aligned sized held here e =
        at_size live realloc fresh mem p after sized here
          λ h. store_handle-Wrote live realloc fresh mem p after v held h e
    kind-Wrote (some (TypeDesc.future_desc element)) v ha multiple aligned sized held here e =
        at_size live realloc fresh mem p after sized here
          λ h. store_handle-Wrote live realloc fresh mem p after v held h e
    kind-Wrote t v ha multiple aligned sized held here e = absurd held

  abbrev pub RecoversWithin : ℕ → Type 0
  RecoversWithin fuel =
      Recovers live resolve (λ m q t. load_value fuel m resolve q t)
        (λ m q t v. store_value fuel realloc resolve m q t v) (λ t v. Fits fuel resolve t v)

  one_level : (fuel : ℕ) → RecoversWithin fuel → RecoversWithin (suc fuel)
  unfolding store_value load_value Fits alignment_unchecked size_unchecked
  one_level fuel below zero within mem after q a s t v aligned sized place held here e = cc
  one_level fuel below (suc n) within mem after q a s t v aligned sized place held here e =
      kind-Wrote (λ m p d. load_value fuel m resolve p d)
        (λ m p d w. store_value fuel realloc resolve m p d w) (λ d w. Fits fuel resolve d w) below n
        (omega arith) mem after q a s t v
        (kind-IsAlign resolve (λ d. alignment_unchecked n resolve d)
          (λ d x. alignment_unchecked-IsAlign n resolve d x) t aligned)
        place aligned sized held here e

  pub store_value-Recovers : (fuel : ℕ) → RecoversWithin fuel
  unfolding Fits
  store_value-Recovers zero n within mem after q a s t v aligned sized place held here e =
      absurd held
  store_value-Recovers (suc fuel) n within mem after q a s t v aligned sized place held here e =
      one_level fuel (store_value-Recovers fuel) n within mem after q a s t v aligned sized place
        held here e

  -- With an allocator that hands out blocks that are not in use, for a value in the range of its type
  -- and a place in use: if `Store` answers, then `Load` on its memory answers with that value, and
  -- the other bytes in use are as they were.
  pub load-store :
      (fuel : ℕ) (mem after : Memory) (p s : ℕ) (t : Option TypeDesc) (v : Value)
      → Fits fuel resolve t v
      → size t resolve ≡ ok s
      → Live live mem p (p + s)
      → store fuel mem p t v resolve realloc ≡ ok after
      → (load fuel after p t resolve ≡ ok v)
        × ((k : ℕ) → live mem.world k → OutOfRange p (p + s) k → after.byte k ≡ mem.byte k)
  unfolding store load check_place is_aligned
  load-store fuel mem after p s t v held sized here e =
      ok-bind (check_place mem p t resolve) _ e λ u placed stored.
        ok-bind (layout (alignment t resolve)) _ placed λ a e_a rest.
          let (aligned, _) = check-holds (is_aligned p a) _ _ rest in
          let found = unchecked-alignment t resolve a (layout-ok _ e_a) in
          let ha = alignment_unchecked-IsAlign layout_fuel resolve t a found in
          let w =
            store_value-Recovers fuel layout_fuel (omega arith) mem after p a s t v found
              (unchecked-size t resolve s sized) (aligned-multiple p a ha aligned) held here
              stored in
          (
            rw (check_place-size p t resolve mem after w.same_size, placed)
                (w.reads after w.same_size (λ k l within. refl)),
            w.keeps,
          )
