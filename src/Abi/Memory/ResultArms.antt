-- ===== src/Abi/Memory/ResultArms.antt =====
-- internal/abi/memory.go: results, stored and loaded again, given that the
-- store and the load of a payload agree.
use component_model.Prelude.{
  ℕ, ◌+◌, ◌%◌, ◌≤◌, ◌<◌, ◌≡◌, inl, refl, sym, ap, ◌∙◌, arith, Option, none, some, Bool, true, false,
  if◌then◌else◌, ok, max, ok-bind, ok-injective,
}
use component_model.Descriptor.{TypeDesc, TypeRef}
use component_model.Abi.Layout.{Resolver, resolve_type, checked_align, checked_add}
use component_model.Abi.Layout.Align.{
  Measure, larger, measure_ref, alignment_optional, alignment_result, alignment_unchecked,
  alignment,
}
use component_model.Abi.Layout.Size.{widen, payload_end, size_result, size_unchecked}
use component_model.Abi.Layout.Validate.{layout_fuel}
use component_model.Abi.Layout.Bounds.{
  IsAlign, checked_add_lt, larger-IsAlign, alignment_unchecked-IsAlign, ref-IsAlign,
  optional-IsAlign,
}
use component_model.Abi.Layout.Fuel.{alignment-part}
use component_model.Abi.Layout.Inside.{
  IsAlign-divides, checked_align-shift, checked_align-above, widen-least, widen-counts,
}
use component_model.Abi.Value.{Value, result_value}
use component_model.Abi.Memory.{
  Memory, MemError, Realloc, in_ok, in_err, layout, load_word, store_int,
}
use component_model.Abi.Memory.Fits.{FitsArm}
use component_model.Abi.Memory.Load.{
  Loaded, arm_alignment, result_payload, load_payload, load_result,
}
use component_model.Abi.Memory.Store.{Stored, store_payload, store_result}
use component_model.Abi.Memory.Wrote.{Wrote, Wrote-then, Wrote-wider, Live}
use component_model.Abi.Memory.Scalars.{store_unsigned}
use component_model.Abi.Memory.Blocks.{layout-ok}
use component_model.Abi.Memory.Fields.{Recovers}
use component_model.Abi.Memory.Arms.{Room, payload-Wrote, max-IsAlign}

module _ (live : ℕ → ℕ → Type 0) (realloc : Realloc) (resolve : Resolver)
    (loads : Memory → ℕ → Option TypeDesc → Loaded)
    (stores : Memory → ℕ → Option TypeDesc → Value → Stored)
    (fits : Option TypeDesc → Value → Type 0) (recovers : Recovers live resolve loads stores fits)
    (n : ℕ) (within : n ≤ layout_fuel) where
  abbrev aligns : Measure
  aligns = λ d. alignment_unchecked n resolve d

  abbrev sizes : Measure
  sizes = λ d. size_unchecked n resolve d

  abbrev RoomFor : Option TypeRef → ℕ → ℕ → Type 0
  RoomFor = Room live realloc resolve loads stores fits recovers n within

  isalign : (t : Option TypeDesc) (a : ℕ) → alignment_unchecked n resolve t ≡ ok a → IsAlign a
  isalign t a e = alignment_unchecked-IsAlign n resolve t a e

  -- The alignment of an arm is the same in the memory functions and in the layout.
  arm_alignment-part :
      (arm : Option TypeRef) (m b w : ℕ)
      → arm_alignment resolve arm m ≡ ok b
      → alignment_optional resolve aligns arm m ≡ ok w
      → b ≡ w
  unfolding arm_alignment alignment_optional measure_ref
  arm_alignment-part none m b w e1 e2 = omega (arith, ok-injective e1, ok-injective e2)
  arm_alignment-part (some ref) m b w e1 e2 =
      ok-bind (layout (resolve_type resolve (some ref))) _ e1 λ t e_t r1.
        ok-bind (layout (alignment t resolve)) _ r1 λ al e_al r2.
          let found = layout-ok _ e_t in
          ok-bind (alignment_unchecked n resolve t) _ (rw (measure_ref, found) at e2) λ x e_x r3.
            let same = alignment-part n resolve t within (layout-ok _ e_al) e_x in
            sym (ok-injective r2) ∙ ap (larger m) same ∙ ok-injective r3

  widen-alignment :
      (arm : Option TypeRef) (k m : ℕ) (w : ℕ × ℕ)
      → widen resolve aligns sizes arm (k, m) ≡ ok w
      → alignment_optional resolve aligns arm m ≡ ok w.1
  unfolding widen alignment_optional measure_ref
  widen-alignment none k m w e = ap (λ (x : ℕ × ℕ). ok x.1) (ok-injective e)
  widen-alignment (some ref) k m w e = ok-bind (resolve_type resolve (some ref)) _ e λ t found r1.
      ok-bind (size_unchecked n resolve t) _ r1 λ y e_y r2.
        ok-bind (alignment_unchecked n resolve t) _ r2
          λ x e_x r3. rw (found, e_x) (ap (λ (z : ℕ × ℕ). ok z.1) (ok-injective r3))

  arm-Room :
      (arm : Option TypeRef) (k m : ℕ) (w : ℕ × ℕ) (widest_size widest_align start hi : ℕ)
      → widen resolve aligns sizes arm (k, m) ≡ ok w
      → w.0 ≤ widest_size
      → w.1 ≤ widest_align
      → IsAlign widest_align
      → start % widest_align ≡ 0
      → start + widest_size ≤ hi
      → RoomFor arm start hi
  arm-Room none k m w ws wa start hi e small low ha place inside = tt
  arm-Room (some ref) k m w ws wa start hi e small low ha place inside =
      let (y, x, e_y, short, e_x, fine) = widen-counts resolve aligns sizes ref k m w e in
      (
        x,
        y,
        e_x,
        e_y,
        IsAlign-divides start x wa (ref-IsAlign resolve aligns isalign ref e_x) ha (omega arith)
            place,
        omega arith,
      )

  result-Room :
      (p total a start : ℕ) (ok_type err_type : Option TypeRef)
      → alignment_result resolve aligns ok_type err_type ≡ ok a
      → size_result resolve aligns sizes ok_type err_type ≡ ok total
      → p % a ≡ 0
      → result_payload resolve ok_type err_type p ≡ ok start
      → (p + 1 ≤ start)
        × (start ≤ p + total)
        × RoomFor ok_type start (p + total)
        × RoomFor err_type start (p + total)
  unfolding alignment_result size_result payload_end result_payload
  result-Room p total a start ok_type err_type aligned sized multiple e_start =
      ok-bind (layout (checked_add p 1)) _ e_start λ o e_o r1.
        ok-bind (arm_alignment resolve ok_type 1) _ r1 λ ok_align e_ok r2.
          ok-bind (arm_alignment resolve err_type ok_align) _ r2 λ top e_top r3.
            ok-bind (widen resolve aligns sizes ok_type (0, 1)) _ sized λ first e_first s1.
              ok-bind (widen resolve aligns sizes err_type first) _ s1 λ both e_both s2.
                ok-bind (checked_align 1 both.1) _ s2 λ r e_r s3.
                  ok-bind (checked_add r both.0) _ s3 λ offset e_offset s4.
                    let ok_opt = widen-alignment ok_type 0 1 first e_first in
                    let err_opt = widen-alignment err_type first.0 first.1 both e_both in
                    let same1 = arm_alignment-part ok_type 1 ok_align first.1 e_ok ok_opt in
                    let same2 =
                      arm_alignment-part err_type first.1 top both.1 (rw same1 at e_top) err_opt in
                    let h_first =
                      optional-IsAlign resolve aligns isalign ok_type 1 (inl refl) ok_opt in
                    let h_both =
                      optional-IsAlign resolve aligns isalign err_type first.1 h_first err_opt in
                    let whole = ok-injective (rw (alignment_result, ok_opt, err_opt) at aligned) in
                    let (o_at, _) = checked_add_lt p 1 (layout-ok _ e_o) in
                    let (start_at, above, _, place) =
                      checked_align-shift p 1 both.1 h_both
                        (IsAlign-divides p both.1 a h_both
                          (rw (sym whole) (larger-IsAlign 1 both.1 (inl refl) h_both))
                          (ground arith) multiple)
                        e_r (rw (o_at, same2) at (layout-ok _ r3)) in
                    let (offset_at, _) = checked_add_lt r both.0 e_offset in
                    let fits_in =
                      checked_align-above offset (max 1 both.1) (max-IsAlign both.1 h_both) s4 in
                    let (grows, rises) =
                      widen-least resolve aligns sizes err_type first.0 first.1 both e_both in
                    (
                      omega (arith, start_at),
                      omega (arith, start_at, offset_at),
                      arm-Room ok_type 0 1 first both.0 both.1 start (p + total) e_first grows rises
                          h_both place (omega (arith, start_at, offset_at)),
                      arm-Room err_type first.0 first.1 both both.0 both.1 start (p + total) e_both
                          (omega arith) (omega arith) h_both place
                          (omega (arith, start_at, offset_at)),
                    )

  -- A discriminant byte, and the payload behind it.
  arm-Wrote :
      (label other : MemError → MemError) (disc : ℕ) (mem m1 : Memory) (p start hi : ℕ)
      (arm : Option TypeRef) (v : Value) (after : Memory)
      → disc < 256
      → p + 1 ≤ start
      → start ≤ hi
      → RoomFor arm start hi
      → FitsArm resolve fits arm v
      → Live live mem p hi
      → store_int mem p disc 1 ≡ ok m1
      → store_payload realloc resolve stores label m1 arm start v ≡ ok after
      → Wrote live mem after p hi (λ m.
        (load_word m p 1 ≡ ok disc)
        × (load_payload m resolve (λ q d. loads m q d) other arm start ≡ ok v))
  arm-Wrote label other disc mem m1 p start hi arm v after small behind inside room held here e1
        e2 =
      let first =
        store_unsigned live mem p disc 1 {R = λ m. load_word m p 1 ≡ ok disc} small (λ m l. l)
          (λ k (l, h). here k (l, omega arith)) e1 in
      Wrote-then live here (omega arith, omega arith, omega arith, omega arith) (inl behind) first
        (payload-Wrote live realloc resolve loads stores fits recovers n within label other m1 start
          hi arm v after room held (λ k (l, h). first.stays_live k (here k (omega arith, h))) e2)

  pub result-Wrote :
      (mem : Memory) (p total a : ℕ) (ok_type err_type : Option TypeRef) (is_err : Bool) (v : Value)
      (after : Memory)
      → alignment_result resolve aligns ok_type err_type ≡ ok a
      → size_result resolve aligns sizes ok_type err_type ≡ ok total
      → p % a ≡ 0
      → FitsArm resolve fits (if is_err then err_type else ok_type) v
      → Live live mem p (p + total)
      → store_result realloc resolve stores mem p (result_value is_err v) ok_type err_type
        ≡ ok after
      → Wrote live mem after p (p + total) (λ m.
        load_result m resolve (λ q d. loads m q d) p ok_type err_type ≡ ok (result_value is_err v))
  unfolding store_result load_result
  result-Wrote mem p total a ok_type err_type true v after aligned sized multiple held here e =
      ok-bind (store_int mem p 1 1) _ e λ m1 e_m1 e1.
        ok-bind (result_payload resolve ok_type err_type p) _ e1 λ start e_start e2.
          let (behind, inside, ok_room, err_room) =
            result-Room p total a start ok_type err_type aligned sized multiple e_start in
          Wrote-wider live (omega arith) (omega arith) (λ m size (d, l). rw (d, e_start, l) refl)
            (arm-Wrote in_err in_err 1 mem m1 p start (p + total) err_type v after (omega arith)
              behind inside err_room held here e_m1 e2)
  result-Wrote mem p total a ok_type err_type false v after aligned sized multiple held here e =
      ok-bind (store_int mem p 0 1) _ e λ m1 e_m1 e1.
        ok-bind (result_payload resolve ok_type err_type p) _ e1 λ start e_start e2.
          let (behind, inside, ok_room, err_room) =
            result-Room p total a start ok_type err_type aligned sized multiple e_start in
          Wrote-wider live (omega arith) (omega arith) (λ m size (d, l). rw (d, e_start, l) refl)
            (arm-Wrote in_ok in_ok 0 mem m1 p start (p + total) ok_type v after (omega arith) behind
              inside ok_room held here e_m1 e2)
