-- ===== src/Abi/Memory/Cases.antt =====
-- internal/abi/memory.go: variants, stored and loaded again, given that the
-- store and the load of a payload agree.
use component_model.Prelude.{
  ℕ, ◌+◌, ◌%◌, ◌≤◌, ◌≡◌, inl, inr, refl, arith, List, Option, none, some, ok, length, get_elem?,
  get_elem?-lt, ok-bind, ok-injective, Option-cases,
}
use component_model.Descriptor.{TypeDesc, TypeRef, VariantCase}
use component_model.Abi.Layout.{
  Resolver, checked_align, checked_add, discriminant_type, size_primitive, alignment_primitive,
}
use component_model.Abi.Layout.Align.{
  Measure, max_case_alignment, alignment_variant, alignment_unchecked,
}
use component_model.Abi.Layout.Size.{max_case_size, size_variant, size_unchecked}
use component_model.Abi.Layout.Validate.{layout_fuel}
use component_model.Abi.Layout.Bounds.{
  IsAlign, checked_add_lt, alignment_unchecked-IsAlign, ref-IsAlign, cases-IsAlign, variant-IsAlign,
}
use component_model.Abi.Layout.Fuel.{max_case_alignment-part}
use component_model.Abi.Layout.Inside.{
  IsAlign-divides, checked_align-shift, checked_align-above, case-alignment, case-size,
}
use component_model.Abi.Value.{Value, variant_value}
use component_model.Abi.Memory.{Memory, Realloc, in_case, layout, load_word, store_int}
use component_model.Abi.Memory.Fits.{FitsArm, FitsCase}
use component_model.Abi.Memory.Load.{Loaded, variant_payload, load_variant}
use component_model.Abi.Memory.Store.{Stored, store_variant}
use component_model.Abi.Memory.Wrote.{Wrote, Wrote-then, Wrote-wider, Live}
use component_model.Abi.Memory.Scalars.{store_unsigned}
use component_model.Abi.Memory.Simple.{discriminant-covers}
use component_model.Abi.Memory.Blocks.{layout-ok}
use component_model.Abi.Memory.Fields.{Recovers}
use component_model.Abi.Memory.Arms.{Room, case-Wrote}

module _ (live : ℕ → ℕ → Type 0) (realloc : Realloc) (resolve : Resolver)
    (loads : Memory → ℕ → Option TypeDesc → Loaded)
    (stores : Memory → ℕ → Option TypeDesc → Value → Stored)
    (fits : Option TypeDesc → Value → Type 0) (recovers : Recovers live resolve loads stores fits)
    (n : ℕ) (within : n ≤ layout_fuel) where
  abbrev aligns : Measure
  aligns = λ d. alignment_unchecked n resolve d

  abbrev sizes : Measure
  sizes = λ d. size_unchecked n resolve d

  abbrev RoomFor : Option TypeRef → ℕ → ℕ → Type 0
  RoomFor = Room live realloc resolve loads stores fits recovers n within

  isalign : (t : Option TypeDesc) (a : ℕ) → alignment_unchecked n resolve t ≡ ok a → IsAlign a
  isalign t a e = alignment_unchecked-IsAlign n resolve t a e

  case-Room :
      (start hi mca ms idx : ℕ) (cases : List VariantCase) (c : VariantCase)
      → IsAlign mca
      → max_case_alignment resolve aligns cases 1 ≡ ok mca
      → max_case_size resolve aligns sizes cases 0 ≡ ok ms
      → get_elem? cases idx ≡ some c
      → start % mca ≡ 0
      → start + ms ≤ hi
      → (arm : Option TypeRef) → c.type ≡ arm
      → RoomFor arm start hi
  case-Room start hi mca ms idx cases c h_mca e_mca e_ms at place inside none present = tt
  case-Room start hi mca ms idx cases c h_mca e_mca e_ms at place inside (some ref) present =
      let (x, e_x, small) = case-alignment resolve aligns cases 1 mca idx c ref e_mca at present in
      let (y, e_y, short) = case-size resolve aligns sizes cases 0 ms idx c ref e_ms at present in
      (
        x,
        y,
        e_x,
        e_y,
        IsAlign-divides start x mca (ref-IsAlign resolve aligns isalign ref e_x) h_mca small place,
        omega arith,
      )

  -- The payload of a variant stands behind the discriminant and within the size.
  variant-Room :
      (p total a ds start idx : ℕ) (cases : List VariantCase) (c : VariantCase)
      → alignment_variant resolve aligns cases ≡ ok a
      → size_variant resolve aligns sizes cases ≡ ok total
      → p % a ≡ 0
      → size_primitive (discriminant_type (length cases)) ≡ ok ds
      → get_elem? cases idx ≡ some c
      → variant_payload resolve cases p ds ≡ ok start
      → (p + ds ≤ start) × (start ≤ p + total) × RoomFor c.type start (p + total)
  unfolding alignment_variant size_variant variant_payload
  variant-Room p total a ds start idx cases c aligned sized multiple e_ds at e_start =
      ok-bind (layout (checked_add p ds)) _ e_start λ o e_o r1.
        ok-bind
          (layout
            (max_case_alignment resolve (λ d. alignment_unchecked layout_fuel resolve d) cases 1))
          _ r1
          λ al e_al r2.
            ok-bind (max_case_alignment resolve aligns cases 1) _ (rw (size_variant, e_ds) at sized)
              λ mca e_mca s1. ok-bind (checked_align ds mca) _ s1 λ r e_r s2.
                ok-bind (max_case_size resolve aligns sizes cases 0) _ s2 λ ms e_ms s3.
                  ok-bind (checked_add r ms) _ s3 λ offset e_offset s4.
                    ok-bind (alignment_variant resolve aligns cases) _ s4 λ va e_va s5.
                      ok-bind (alignment_primitive (discriminant_type (length cases))) _ aligned
                        λ da e_da a1.
                          let (o_at, _) = checked_add_lt p ds (layout-ok _ e_o) in
                          let same =
                            max_case_alignment-part n resolve cases 1 within (layout-ok _ e_al)
                              e_mca in
                          let h_mca =
                            cases-IsAlign resolve aligns isalign cases 1 (inl refl) e_mca in
                          let h_a = variant-IsAlign resolve aligns isalign cases aligned in
                          let whole = ok-injective (rw e_mca at a1) in
                          let (start_at, above, _, place) =
                            checked_align-shift p ds mca h_mca
                              (IsAlign-divides p mca a h_mca h_a (ground arith) multiple) e_r
                              (rw (o_at, same) at (layout-ok _ r2)) in
                          let (offset_at, _) = checked_add_lt r ms e_offset in
                          let fits_in =
                            checked_align-above offset va
                              (variant-IsAlign resolve aligns isalign cases e_va) s5 in
                          (
                            omega (arith, start_at),
                            omega (arith, start_at, offset_at),
                            case-Room start (p + total) mca ms idx cases c h_mca e_mca e_ms at place
                                (omega (arith, start_at, offset_at)) c.type refl,
                          )

  pub variant-Wrote :
      (mem : Memory) (p total a idx : ℕ) (cases : List VariantCase) (v : Value) (after : Memory)
      → alignment_variant resolve aligns cases ≡ ok a
      → size_variant resolve aligns sizes cases ≡ ok total
      → p % a ≡ 0
      → FitsCase resolve fits (get_elem? cases idx) v
      → Live live mem p (p + total)
      → store_variant realloc resolve stores mem p (variant_value idx v) cases ≡ ok after
      → Wrote live mem after p
          (p + total)
          (λ m. load_variant m resolve (λ q d. loads m q d) p cases ≡ ok (variant_value idx v))
  unfolding FitsCase store_variant load_variant
  variant-Wrote mem p total a idx cases v after aligned sized multiple held here e =
      elim (Option-cases (get_elem? cases idx)) [
        | inl missing ↦ absurd (rw (FitsCase, missing) at held)
        | inr (c, at) ↦
            let held_c : FitsArm resolve fits c.type v = rw (FitsCase, at) at held in
            ok-bind (layout (size_primitive (discriminant_type (length cases)))) _
              (rw (store_variant, at) at e)
              λ ds e_ds e1. ok-bind (store_int mem p idx ds) _ e1 λ m1 e_m1 e2.
                ok-bind (variant_payload resolve cases p ds) _ e2 λ start e_start e3.
                  let sized_disc = layout-ok _ e_ds in
                  let (behind, inside, room) =
                    variant-Room p total a ds start idx cases c aligned sized multiple sized_disc at
                      e_start in
                  let disc =
                    store_unsigned live mem p idx ds {R = λ m. load_word m p ds ≡ ok idx}
                      (discriminant-covers (length cases) idx ds sized_disc
                        (get_elem?-lt cases idx at))
                      (λ m l. l) (λ k (l, h). here k (l, omega arith)) e_m1 in
                  let payload =
                    case-Wrote live realloc resolve loads stores fits recovers n within
                      (in_case idx) m1 idx start (p + total) c.type v after room held_c
                      (λ k (l, h). disc.stays_live k (here k (omega arith, h))) e3 in
                  Wrote-wider live (omega arith) (omega arith)
                    (λ m size (d, l). rw (e_ds, d, at, e_start, l) refl)
                    (Wrote-then live here (omega arith, omega arith, omega arith, omega arith)
                      (inl behind) disc payload)
      ]
