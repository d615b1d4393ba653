-- ===== src/Abi/Memory/Arms.antt =====
-- internal/abi/memory.go: payloads and options, stored and loaded again, given that the
-- store and the load of a payload agree.
use component_model.Prelude.{
  ℕ, ◌+◌, ◌%◌, ◌≤◌, ◌≡◌, ◌⊎◌, inl, inr, refl, sym, ap, arith, Option, none, some, false, not,
  if◌then◌else◌, ok, max, ok-bind, ok-injective, wrap-eq-ok,
}
use mathlib.Core.Path.{subst}
use component_model.Descriptor.{TypeDesc, TypeRef}
use component_model.Abi.Layout.{Resolver, resolve_type, checked_align, checked_add}
use component_model.Abi.Layout.Align.{
  Measure, larger, measure_ref, alignment_option, alignment_unchecked, alignment,
}
use component_model.Abi.Layout.Size.{size_option, size_unchecked}
use component_model.Abi.Layout.Validate.{layout_fuel}
use component_model.Abi.Layout.Bounds.{
  IsAlign, checked_add_lt, larger-IsAlign, alignment_unchecked-IsAlign,
}
use component_model.Abi.Layout.Fuel.{alignment-part}
use component_model.Abi.Layout.Inside.{IsAlign-divides, checked_align-shift, checked_align-above}
use component_model.Abi.Value.{Value, nil_value}
use component_model.Abi.Memory.{
  Memory, MemError, Realloc, in_case, in_some, layout, load_word, store_int,
}
use component_model.Abi.Memory.Fits.{FitsRef, FitsArm, FitsOption}
use component_model.Abi.Memory.Load.{Loaded, load_payload, load_option}
use component_model.Abi.Memory.Store.{Stored, store_payload, store_case, store_option, is_nil_value}
use component_model.Abi.Memory.Wrote.{Wrote, Wrote-then, Wrote-wider, Wrote-nothing, Live}
use component_model.Abi.Memory.Scalars.{check-holds, store_unsigned}
use component_model.Abi.Memory.Blocks.{layout-ok}
use component_model.Abi.Memory.Fields.{Recovers}

larger-above : (ea a : ℕ) → larger 1 ea ≡ a → ea ≤ a
larger-above ea a e = ground arith

pub max-IsAlign : (ea : ℕ) → IsAlign ea → IsAlign (max 1 ea)
max-IsAlign ea h = ground arith

module _ (live : ℕ → ℕ → Type 0) (realloc : Realloc) (resolve : Resolver)
    (loads : Memory → ℕ → Option TypeDesc → Loaded)
    (stores : Memory → ℕ → Option TypeDesc → Value → Stored)
    (fits : Option TypeDesc → Value → Type 0) (recovers : Recovers live resolve loads stores fits)
    (n : ℕ) (within : n ≤ layout_fuel) where
  abbrev pub aligns : Measure
  aligns = λ d. alignment_unchecked n resolve d

  abbrev pub sizes : Measure
  sizes = λ d. size_unchecked n resolve d

  -- A place that the payload of an arm may stand at.
  abbrev pub Room : Option TypeRef → ℕ → ℕ → Type 0
  Room none q hi = Unit {0}
  Room (some ref) q hi =
      (x : ℕ) × (y : ℕ) × (measure_ref resolve aligns ref ≡ ok x)
      × (measure_ref resolve sizes ref ≡ ok y)
      × (q % x ≡ 0)
      × (q + y ≤ hi)

  pub ref-Wrote :
      (mem : Memory) (q hi : ℕ) (ref : TypeRef) (t : Option TypeDesc) (v : Value) (after : Memory)
      → Room (some ref) q hi
      → resolve_type resolve (some ref) ≡ ok t
      → FitsRef resolve fits ref v
      → Live live mem q hi
      → stores mem q t v ≡ ok after
      → Wrote live mem after q hi (λ m. loads m q t ≡ ok v)
  unfolding measure_ref FitsRef
  ref-Wrote mem q hi ref t v after (x, y, aligned, sized, place, inside) found held here e =
      Wrote-wider live (omega arith) inside (λ m size l. l)
        (recovers n within mem after q x y t v (rw (measure_ref, found) at aligned)
          (rw (measure_ref, found) at sized) place (rw (FitsRef, found) at held)
          (λ k (l, h). here k (l, omega arith)) e)

  pub payload-Wrote :
      (label other : MemError → MemError) (mem : Memory) (q hi : ℕ) (arm : Option TypeRef)
      (v : Value) (after : Memory)
      → Room arm q hi
      → FitsArm resolve fits arm v
      → Live live mem q hi
      → store_payload realloc resolve stores label mem arm q v ≡ ok after
      → Wrote live mem after q hi
          (λ m. load_payload m resolve (λ p d. loads m p d) other arm q ≡ ok v)
  unfolding store_payload load_payload FitsArm
  payload-Wrote label other mem q hi none v after room held here e =
      subst
        (λ z.
          Wrote live mem z q hi
            (λ m. load_payload m resolve (λ p d. loads m p d) other none q ≡ ok v))
        (ok-injective e) (Wrote-nothing live mem q hi (λ m. ap ok (sym held)))
  payload-Wrote label other mem q hi (some ref) v after room held here e =
      ok-bind (layout (resolve_type resolve (some ref))) _ e λ t e_t e1.
        let found = layout-ok _ e_t in
        Wrote-wider live (omega arith) (omega arith)
          (λ m size (l : loads m q t ≡ ok v). rw (found, l) refl)
          (ref-Wrote mem q hi ref t v after room found held here (wrap-eq-ok label _ e1))

  pub case-Wrote :
      (other : MemError → MemError) (mem : Memory) (idx q hi : ℕ) (arm : Option TypeRef) (v : Value)
      (after : Memory)
      → Room arm q hi
      → FitsArm resolve fits arm v
      → Live live mem q hi
      → store_case realloc resolve stores mem idx arm q v ≡ ok after
      → Wrote live mem after q hi
          (λ m. load_payload m resolve (λ p d. loads m p d) other arm q ≡ ok v)
  unfolding store_case store_payload
  case-Wrote other mem idx q hi none v after room held here e =
      payload-Wrote (in_case idx) other mem q hi none v after room held here e
  case-Wrote other mem idx q hi (some ref) v after room held here e =
      ok-bind (layout (resolve_type resolve (some ref))) _ e λ t e_t e1.
        let (_, e2) = check-holds (not (is_nil_value v)) _ _ e1 in
        payload-Wrote (in_case idx) other mem q hi (some ref) v after room held here (rw e_t e2)

  -- A value of an option is nil, or one of the element that is not.
  nil-cases :
      (element : TypeRef) (v : Value)
      → FitsOption resolve fits element v
      → (v ≡ nil_value) ⊎ ((is_nil_value v ≡ false) × FitsRef resolve fits element v)
  unfolding FitsOption is_nil_value
  nil-cases element nil_value held = inl refl
  nil-cases element v held = inr (refl, held)

  -- The payload of an option stands behind the discriminant and within the size.
  option-Room :
      (p total a o al start : ℕ) (element : TypeRef) (t : Option TypeDesc)
      → alignment_option resolve aligns element ≡ ok a
      → size_option resolve aligns sizes element ≡ ok total
      → p % a ≡ 0
      → resolve_type resolve (some element) ≡ ok t
      → checked_add p 1 ≡ ok o
      → alignment t resolve ≡ ok al
      → checked_align o al ≡ ok start
      → (p + 1 ≤ start) × (start ≤ p + total) × Room (some element) start (p + total)
  unfolding alignment_option size_option measure_ref
  option-Room p total a o al start element t aligned sized multiple found o_ok al_ok start_ok =
      ok-bind (size_unchecked n resolve t) _ (rw (size_option, found) at sized) λ es e_es s1.
        ok-bind (alignment_unchecked n resolve t) _ s1 λ ea e_ea s2.
          ok-bind (checked_align 1 ea) _ s2 λ r e_r s3.
            ok-bind (checked_add r es) _ s3 λ offset e_offset s4.
              let (o_at, _) = checked_add_lt p 1 o_ok in
              let same = alignment-part n resolve t within al_ok e_ea in
              let h_ea = alignment_unchecked-IsAlign n resolve t ea e_ea in
              let whole =
                ok-injective (rw (alignment_option, measure_ref, found, e_ea) at aligned) in
              let (start_at, above, _, place) =
                checked_align-shift p 1 ea h_ea
                  (IsAlign-divides p ea a h_ea
                    (rw (sym whole) (larger-IsAlign 1 ea (inl refl) h_ea)) (larger-above ea a whole)
                    multiple)
                  e_r (rw (o_at, same) at start_ok) in
              let (offset_at, _) = checked_add_lt r es e_offset in
              let fits_in = checked_align-above offset (max 1 ea) (max-IsAlign ea h_ea) s4 in
              (
                omega (arith, start_at),
                omega (arith, start_at, offset_at),
                (
                  ea,
                  es,
                  rw (measure_ref, found, e_ea) refl,
                  rw (measure_ref, found, e_es) refl,
                  place,
                  omega (arith, start_at, offset_at, fits_in),
                ),
              )

  pub option-Wrote :
      (mem : Memory) (p total a : ℕ) (element : TypeRef) (v : Value) (after : Memory)
      → alignment_option resolve aligns element ≡ ok a
      → size_option resolve aligns sizes element ≡ ok total
      → p % a ≡ 0
      → FitsOption resolve fits element v
      → Live live mem p (p + total)
      → store_option realloc resolve stores mem p v element ≡ ok after
      → Wrote live mem after p
          (p + total)
          (λ m. load_option m resolve (λ q d. loads m q d) p element ≡ ok v)
  unfolding store_option load_option is_nil_value
  option-Wrote mem p total a element v after aligned sized multiple held here e =
      ok-bind (layout (resolve_type resolve (some element))) _ e λ t e_t e1.
        ok-bind (store_int mem p (if is_nil_value v then 0 else 1) 1) _ e1 λ m1 e_m1 e2.
          ok-bind (layout (checked_add p 1)) _ e2 λ o e_o e3.
            ok-bind (layout (alignment t resolve)) _ e3 λ al e_al e4.
              ok-bind (layout (checked_align o al)) _ e4 λ start e_start e5.
                let found = layout-ok _ e_t in
                let (behind, inside, room) =
                  option-Room p total a o al start element t aligned sized multiple found
                    (layout-ok _ e_o) (layout-ok _ e_al) (layout-ok _ e_start) in
                elim (nil-cases element v held) [
                  | inl nothing ↦
                      let disc =
                        store_unsigned live mem p 0 1
                          {R = λ m.
                            load_option m resolve (λ q d. loads m q d) p element ≡ ok nil_value}
                          (omega arith) (λ m l. rw (e_t, l, e_o, e_al, e_start) refl)
                          (λ k (l, h). here k (l, omega arith)) (rw nothing at e_m1) in
                      let same : m1 ≡ after = ok-injective (rw nothing at e5) in
                      rw (nothing, sym same)
                        (Wrote-wider live (omega arith) (omega arith) (λ m size l. l) disc)
                  | inr (present, held') ↦
                      let disc =
                        store_unsigned live mem p 1 1 {R = λ m. load_word m p 1 ≡ ok 1}
                          (omega arith) (λ m l. l) (λ k (l, h). here k (l, omega arith))
                          (rw present at e_m1) in
                      let payload =
                        ref-Wrote m1 start (p + total) element t v after room found held'
                          (λ k (l, h). disc.stays_live k (here k (omega arith, h)))
                          (wrap-eq-ok in_some _ (rw present at e5)) in
                      Wrote-wider live (omega arith) (omega arith)
                        (λ m size (d, read).
                          let l : loads m start t ≡ ok v = read in
                          rw (e_t, d, e_o, e_al, e_start, l) refl)
                        (Wrote-then live here (omega arith, omega arith, omega arith, omega arith)
                          (inl behind) disc payload)
                ]
