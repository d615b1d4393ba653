-- ===== src/Abi/Memory/Elements.antt =====
-- internal/abi/memory.go: lists, stored in a new block and loaded again, given that the store and
-- the load of an element agree.
use component_model.Prelude.{
  ℕ, zero, suc, ◌+◌, ◌*◌, ◌%◌, ◌≤◌, ◌<◌, ◌^◌, ◌≡◌, ◌⊎◌, inl, inr, refl, sym, arith, Option, some,
  false, not, ltb, leb, ◌==◌, if◌then◌else◌, ok, ok-bind, ok-injective, wrap, wrap-eq-ok,
}
use mathlib.Core.Path.{subst}
use component_model.Descriptor.{TypeDesc, TypeRef}
use component_model.Abi.Layout.{Resolver, resolve_type, checked_add, max_uint32}
use component_model.Abi.Layout.Align.{alignment_unchecked, alignment}
use component_model.Abi.Layout.Size.{size_unchecked, size}
use component_model.Abi.Layout.Validate.{layout_fuel, validate_layout_type}
use component_model.Abi.Layout.Bounds.{IsAlign, checked_add_lt}
use component_model.Abi.Layout.Multiple.{size-multiple}
use component_model.Abi.Value.{Value, Values, nil, cons, slice, count_values}
use component_model.Abi.Memory.{
  Memory, MemError, Realloc, in_element, in_realloc, in_list, layout, is_aligned,
  checked_byte_length, max_list_elements, grow, byte_length_overflow,
}
use component_model.Abi.Memory.Fits.{FitsRef, FitsEach}
use component_model.Abi.Memory.Load.{Loaded, load_each, load_list_from_range, load_list}
use component_model.Abi.Memory.Store.{
  Stored, store_each, alloc_store_list, alloc_store_any_list, store_list, store_pair,
}
use component_model.Abi.Memory.Wrote.{
  Wrote, Wrote-then, Wrote-wider, Wrote-nothing, Wrote-block, Live, Fresh,
}
use component_model.Abi.Memory.Scalars.{check-holds}
use component_model.Abi.Memory.Blocks.{layout-ok, grow-Fresh, store_pair-Wrote}
use component_model.Abi.Memory.Fields.{Recovers}

-- The layouts without the validation before them.
pub unchecked-alignment :
    (t : Option TypeDesc) (resolve : Resolver) (a : ℕ)
    → alignment t resolve ≡ ok a
    → alignment_unchecked layout_fuel resolve t ≡ ok a
unfolding alignment
unchecked-alignment t resolve a e =
    ok-bind (validate_layout_type t resolve) _ e λ u valid rest. rest

pub unchecked-size :
    (t : Option TypeDesc) (resolve : Resolver) (s : ℕ)
    → size t resolve ≡ ok s
    → size_unchecked layout_fuel resolve t ≡ ok s
unfolding size
unchecked-size t resolve s e = ok-bind (validate_layout_type t resolve) _ e λ u valid rest. rest

byte_length-product :
    (count s : ℕ) {len : ℕ} → checked_byte_length count s ≡ ok len → count * s ≡ len
unfolding checked_byte_length
byte_length-product count s e = ground arith

IsAlign-next : (q s a : ℕ) → IsAlign a → q % a ≡ 0 → s % a ≡ 0 → (q + s) % a ≡ 0
IsAlign-next q s a ha hq hs = ground arith

-- Where the next element stands, if there is one.
next-element :
    (label : MemError → MemError) (count q s a next : ℕ)
    → IsAlign a
    → q % a ≡ 0
    → s % a ≡ 0
    → (if count == 0 then ok q else wrap label (layout (checked_add q s))) ≡ ok next
    → (next % a ≡ 0)
      × ((q + s ≤ next) ⊎ (next + count * s ≤ q))
      × (q ≤ next)
      × (next + count * s ≤ q + suc count * s)
next-element label zero q s a next ha hq hs e =
    let same = ok-injective e in
    (rw (sym same) hq, inr (omega (arith, same)), omega (arith, same), omega (arith, same))
next-element label (suc count) q s a next ha hq hs e =
    let nonzero : (suc count == 0) ≡ false = ground arith in
    let (same, small) =
      checked_add_lt q s (layout-ok (checked_add q s) (wrap-eq-ok label _ (rw nonzero at e))) in
    (
      rw same (IsAlign-next q s a ha hq hs),
      inl (omega (arith, same)),
      omega (arith, same),
      omega (arith, same),
    )

module _ (live : ℕ → ℕ → Type 0) (realloc : Realloc) (resolve : Resolver)
    (loads : Memory → ℕ → Option TypeDesc → Loaded)
    (stores : Memory → ℕ → Option TypeDesc → Value → Stored)
    (fits : Option TypeDesc → Value → Type 0)
    (recovers : Recovers live resolve loads stores fits) where
  module _ (t : Option TypeDesc) (element : TypeRef) (a s : ℕ)
      (found : resolve_type resolve (some element) ≡ ok t) (aligned : alignment t resolve ≡ ok a)
      (sized : size t resolve ≡ ok s) (ha : IsAlign a) (multiple : s % a ≡ 0) where
    each-Wrote :
        (mem : Memory) (i : ℕ) (vs : Values) (q : ℕ) (after : Memory)
        → q % a ≡ 0
        → FitsEach resolve fits element vs
        → Live live mem q (q + count_values vs * s)
        → store_each realloc resolve stores mem t s i vs q ≡ ok after
        → Wrote live mem after q
            (q + count_values vs * s)
            (λ m. load_each m resolve (λ p d. loads m p d) (count_values vs) t s i q ≡ ok vs)
    unfolding FitsEach FitsRef store_each load_each count_values
    each-Wrote mem i nil q after place held here e =
        subst
          (λ z.
            Wrote live mem z q (q + 0 * s)
              (λ m. load_each m resolve (λ p d. loads m p d) 0 t s i q ≡ ok nil))
          (ok-injective e) (Wrote-nothing live mem q (q + 0 * s) (λ m. refl))
    each-Wrote mem i (cons v vs) q after place (held, more) here e =
        ok-bind (wrap (in_element i) (stores mem q t v)) _ e λ m1 e1 r1.
          ok-bind
            (if count_values vs == 0 then ok q else wrap (in_element i) (layout (checked_add q s)))
            _ r1
            λ next e_next r2.
              let first =
                recovers layout_fuel (omega arith) mem m1 q a s t v
                  (unchecked-alignment t resolve a aligned) (unchecked-size t resolve s sized) place
                  (rw (FitsRef, found) at held) (λ k (l, h). here k (l, omega arith))
                  (wrap-eq-ok (in_element i) _ e1) in
              let (next_place, apart, above, below) =
                next-element (in_element i) (count_values vs) q s a next ha place multiple e_next in
              let rest =
                each-Wrote m1 (i + 1) vs next after next_place more
                  (λ k (l, h). first.stays_live k (here k (omega arith, omega arith))) r2 in
              Wrote-wider live (omega arith) (omega arith)
                (λ m size (one, others). rw (one, e_next, others) refl)
                (Wrote-then live here (omega arith, omega arith, omega arith, omega arith) apart
                  first rest)

    block-Wrote :
        (mem : Memory) (p q : ℕ) (vs : Values) (after : Memory)
        → Fresh live realloc
        → count_values vs ≤ max_list_elements
        → FitsEach resolve fits element vs
        → alloc_store_list realloc resolve stores mem vs t ≡ ok (q, after)
        → (q < 2 ^ 32)
          × Wrote live mem after p p (λ m.
            load_list_from_range m resolve (λ r d. loads m r d) q (count_values vs) t
            ≡ ok (slice vs))
    unfolding alloc_store_list load_list_from_range is_aligned
    block-Wrote mem p q vs after fresh few held e =
        let e0 = rw (sized, aligned) at e in
        let (_, e1) =
          check-holds (leb (count_values vs) max_uint32) (byte_length_overflow (count_values vs) 0)
            _ e0 in
        ok-bind (checked_byte_length (count_values vs) s) _ e1 λ len e_len e2.
          ok-bind (wrap in_realloc (grow realloc 0 0 a len mem)) _ e2 λ (q1, grown) g e3.
            let (block, size) =
              grow-Fresh live realloc a len mem grown q1 fresh (wrap-eq-ok in_realloc _ g) in
            let (place, e4) = check-holds (q1 % a == 0) _ _ e3 in
            let (inside, e5) = check-holds (not (ltb grown.size (q1 + len))) _ _ e4 in
            ok-bind (store_each realloc resolve stores grown t s 0 vs q1) _ e5 λ m1 e_each e6.
              let product = byte_length-product (count_values vs) s e_len in
              let (pointer, kept, stays, free, now_live) = block in
              let elements =
                each-Wrote grown 0 vs q1 m1 (ground arith) held
                  (λ k (l, h). now_live k (l, omega (arith, product))) e_each in
              let block_written =
                Wrote-block live q1 (count_values vs * s) p size kept stays
                  (λ k (l, h). free k (l, omega (arith, product))) elements in
              let few_enough : ltb max_list_elements (count_values vs) ≡ false = ground arith in
              let nonzero : (a == 0) ≡ false = ground arith in
              subst
                (λ (r : ℕ × Memory).
                  (r.0 < 2 ^ 32)
                  × Wrote live mem r.1 p p (λ m.
                    load_list_from_range m resolve (λ x d. loads m x d) r.0 (count_values vs) t
                    ≡ ok (slice vs)))
                (ok-injective e6)
                (
                  pointer,
                  Wrote-wider live (omega arith) (omega arith)
                      (λ m size'
                          (l : load_each m resolve (λ x d. loads m x d) (count_values vs) t s 0 q1
                            ≡ ok vs).
                        let fits_in : ltb m.size (q1 + len) ≡ false = ground arith in
                        rw (sized, aligned, e_len, few_enough, fits_in, nonzero, place, l) refl)
                      block_written,
                )

  pub list-Wrote :
      (mem : Memory) (p : ℕ) (element : TypeRef) (vs : Values) (after : Memory)
      → Fresh live realloc
      → count_values vs ≤ max_list_elements
      → FitsEach resolve fits element vs
      → Live live mem p (p + 8)
      → store_list realloc resolve stores mem p (slice vs) element ≡ ok after
      → Wrote live mem after p
          (p + 8)
          (λ m. load_list m resolve (λ q d. loads m q d) p element ≡ ok (slice vs))
  unfolding store_list load_list alloc_store_any_list alloc_store_list
  list-Wrote mem p element vs after fresh few held here e =
      ok-bind (layout (resolve_type resolve (some element))) _ e λ t e_t e1.
        ok-bind (wrap in_list (alloc_store_any_list realloc resolve stores mem (slice vs) t)) _ e1
          λ (q, count, m1) e_any e2.
            let found = layout-ok _ e_t in
            ok-bind (alloc_store_list realloc resolve stores mem vs t) _
              (wrap-eq-ok in_list _ e_any)
              λ (q1, m2) e_list e_same. ok-bind (layout (size t resolve)) _ e_list λ s e_s rest.
                let sized = layout-ok _ e_s in
                let (a, aligned, ha, multiple, _) = size-multiple t resolve s sized in
                let (pointer, block) =
                  block-Wrote t element a s found aligned sized ha multiple mem p q1 vs m2 fresh few
                    held e_list in
                let pair_stored =
                  subst
                    (λ (r : ℕ × ℕ × Memory). store_pair (λ x. x) in_list r.2 p r.0 r.1 ≡ ok after)
                    (sym (ok-injective e_same)) e2 in
                let pair =
                  store_pair-Wrote live (λ x. x) in_list in_list m2 p q1 (count_values vs) pointer
                    (omega arith) (λ k within. block.stays_live k (here k within)) pair_stored in
                Wrote-wider live (omega arith) (omega arith)
                  (λ m size (l, read). rw (found, read, l) refl)
                  (Wrote-then live here (omega arith, omega arith, omega arith, omega arith)
                    (inl (omega arith)) block pair)
