-- ===== src/Abi/Memory/Fields.antt =====
-- internal/abi/memory.go: the fields of a record and the elements of a tuple, stored one behind the
-- other and loaded again, given that the store and the load of each part agree.
use component_model.Prelude.{
  ℕ, ◌+◌, ◌%◌, ◌≤◌, ◌≡◌, inl, refl, sym, ◌∙◌, arith, List, [], ◌∷◌, Option, some, ok, ok-bind,
  ok-injective, wrap, wrap-eq-ok,
}
use mathlib.Core.Path.{subst}
use component_model.Descriptor.{TypeDesc, TypeRef, RecordField}
use component_model.Abi.Layout.{Resolver, resolve_type, checked_align, checked_add}
use component_model.Abi.Layout.Align.{
  Measure, larger, measure_ref, alignment_record, alignment_tuple, alignment_unchecked, alignment,
}
use component_model.Abi.Layout.Size.{place, fields_end, elements_end, size_unchecked, size}
use component_model.Abi.Layout.Validate.{layout_fuel}
use component_model.Abi.Layout.Bounds.{IsAlign, checked_add_lt, alignment_unchecked-IsAlign}
use component_model.Abi.Layout.Fuel.{alignment-part, size-part}
use component_model.Abi.Layout.Inside.{
  IsAlign-divides, checked_align-shift, checked_align-above, alignment_record-least,
  alignment_tuple-least,
}
use component_model.Abi.Value.{Value, Values, nil, cons}
use component_model.Abi.Memory.{Memory, MemError, Realloc, in_field, in_element, layout}
use component_model.Abi.Memory.Fits.{FitsRef, FitsFields, FitsElements}
use component_model.Abi.Memory.Load.{Loaded, load_field, load_fields, load_elements}
use component_model.Abi.Memory.Store.{Stored, store_field, store_fields, store_elements}
use component_model.Abi.Memory.Wrote.{Wrote, Wrote-then, Wrote-wider, Wrote-nothing, Live}
use component_model.Abi.Memory.Blocks.{layout-ok}

-- A load finds what a store wrote, for values that fit, at an aligned address and within the size
-- of the type, however deep in a type the layout is computed.
abbrev pub Recovers :
    (ℕ → ℕ → Type 0)
    → Resolver
    → (Memory → ℕ → Option TypeDesc → Loaded)
    → (Memory → ℕ → Option TypeDesc → Value → Stored)
    → (Option TypeDesc → Value → Type 0)
    → Type 0
Recovers live resolve loads stores fits =
    (n : ℕ)
    → n ≤ layout_fuel
    → (mem after : Memory) (q a s : ℕ) (t : Option TypeDesc) (v : Value)
    → alignment_unchecked n resolve t ≡ ok a
    → size_unchecked n resolve t ≡ ok s
    → q % a ≡ 0
    → fits t v
    → Live live mem q (q + s)
    → stores mem q t v ≡ ok after
    → Wrote live mem after q (q + s) (λ m. loads m q t ≡ ok v)

module _ (live : ℕ → ℕ → Type 0) (realloc : Realloc) (resolve : Resolver)
    (loads : Memory → ℕ → Option TypeDesc → Loaded)
    (stores : Memory → ℕ → Option TypeDesc → Value → Stored)
    (fits : Option TypeDesc → Value → Type 0) (recovers : Recovers live resolve loads stores fits)
    (n : ℕ) (within : n ≤ layout_fuel) where
  abbrev aligns : Measure
  aligns = λ d. alignment_unchecked n resolve d

  abbrev sizes : Measure
  sizes = λ d. size_unchecked n resolve d

  measure_ref-IsAlign : (ref : TypeRef) (a : ℕ) → measure_ref resolve aligns ref ≡ ok a → IsAlign a
  unfolding measure_ref
  measure_ref-IsAlign ref a e =
      ok-bind (resolve_type resolve (some ref)) _ e
        λ t found. alignment_unchecked-IsAlign n resolve t a

  place-above :
      (offset : ℕ) (ref : TypeRef) (next : ℕ)
      → place resolve aligns sizes offset ref ≡ ok next
      → offset ≤ next
  unfolding place
  place-above offset ref next e = ok-bind (resolve_type resolve (some ref)) _ e λ t found e1.
      ok-bind (alignment_unchecked n resolve t) _ e1 λ a aligned e2.
        ok-bind (checked_align offset a) _ e2 λ start e_start e3.
          ok-bind (size_unchecked n resolve t) _ e3 λ s sized e4. omega (
            arith,
            checked_align-above offset a (alignment_unchecked-IsAlign n resolve t a aligned)
                e_start,
            (checked_add_lt start s e4).0,
          )

  fields_end-above :
      (fields : List RecordField) (offset end : ℕ)
      → fields_end resolve aligns sizes fields offset ≡ ok end
      → offset ≤ end
  unfolding fields_end
  fields_end-above [] offset end e = omega (arith, ok-injective e)
  fields_end-above (f ∷ fields) offset end e =
      ok-bind (place resolve aligns sizes offset f.type) _ e λ next placed rest.
        omega (arith, place-above offset f.type next placed, fields_end-above fields next end rest)

  elements_end-above :
      (elements : List TypeRef) (offset end : ℕ)
      → elements_end resolve aligns sizes elements offset ≡ ok end
      → offset ≤ end
  unfolding elements_end
  elements_end-above [] offset end e = omega (arith, ok-injective e)
  elements_end-above (x ∷ elements) offset end e =
      ok-bind (place resolve aligns sizes offset x) _ e λ next placed rest.
        omega (arith, place-above offset x next placed, elements_end-above elements next end rest)

  field-Wrote :
      (label other : MemError → MemError) (mem : Memory) (p offset a next : ℕ) (ref : TypeRef)
      (v : Value) (after : Memory) (hi : ℕ)
      → measure_ref resolve aligns ref ≡ ok a
      → p % a ≡ 0
      → place resolve aligns sizes offset ref ≡ ok next
      → FitsRef resolve fits ref v
      → Live live mem (p + offset) (p + next)
      → store_field realloc resolve stores label mem (p + offset) ref v ≡ ok (after, hi)
      → (hi ≡ p + next)
        × Wrote live mem after
            (p + offset)
            (p + next)
            (λ m. load_field m resolve (λ q t. loads m q t) other (p + offset) ref ≡ ok (v, hi))
  unfolding measure_ref place FitsRef store_field load_field
  field-Wrote label other mem p offset a next ref v after hi aligned multiple placed held here e =
      ok-bind (wrap label (layout (resolve_type resolve (some ref)))) _ e λ t e_t r1.
        ok-bind (layout (alignment t resolve)) _ r1 λ al e_al r2.
          ok-bind (wrap label (layout (checked_align (p + offset) al))) _ r2 λ start e_start r3.
            ok-bind (wrap label (stores mem start t v)) _ r3 λ m1 e_store r4.
              ok-bind (layout (size t resolve)) _ r4 λ fs e_fs r5.
                ok-bind (wrap label (layout (checked_add start fs))) _ r5 λ nx e_nx r6.
                  let found = layout-ok _ (wrap-eq-ok label _ e_t) in
                  let a_ok : alignment_unchecked n resolve t ≡ ok a =
                    rw (measure_ref, found) at aligned in
                  let same_a = alignment-part n resolve t within (layout-ok _ e_al) a_ok in
                  ok-bind (alignment_unchecked n resolve t) _ (rw (place, found) at placed)
                    λ a' e_a' p1. ok-bind (checked_align offset a') _ p1 λ r e_r p2.
                      ok-bind (size_unchecked n resolve t) _ p2 λ s e_s p3.
                        let same_s = size-part n resolve t within (layout-ok _ e_fs) e_s in
                        let start_ok = layout-ok _ (wrap-eq-ok label _ e_start) in
                        let added = layout-ok _ (wrap-eq-ok label _ e_nx) in
                        let same = ok-injective (sym e_a' ∙ a_ok) in
                        let (start_at, above, _, start_multiple) =
                          checked_align-shift p offset a
                            (alignment_unchecked-IsAlign n resolve t a a_ok) multiple
                            (rw same at e_r) (rw same_a at start_ok) in
                        let (next_at, _) = checked_add_lt r s p3 in
                        let (nx_at, _) = checked_add_lt start fs added in
                        let written =
                          recovers n within mem m1 start a s t v a_ok e_s start_multiple
                            (rw (FitsRef, found) at held)
                            (λ k (l, h).
                              here k (omega (arith, start_at), omega (arith, start_at, next_at)))
                            (wrap-eq-ok label _ e_store) in
                        subst
                          (λ (x : Memory × ℕ).
                            (x.1 ≡ p + next)
                            × Wrote live mem x.0 (p + offset) (p + next) (λ m.
                              load_field m resolve (λ q d. loads m q d) other (p + offset) ref
                              ≡ ok (v, x.1)))
                          (ok-injective r6)
                          (
                            omega (arith, start_at, next_at, nx_at, same_s),
                            Wrote-wider live (omega (arith, start_at))
                                (omega (arith, start_at, next_at))
                                (λ m size (l : loads m start t ≡ ok v).
                                  rw (load_field, found, e_al, start_ok, l, e_fs, added) refl)
                                written,
                          )

  pub fields-Wrote :
      (mem : Memory) (p a : ℕ) (fields : List RecordField) (m offset end : ℕ) (vs : Values)
      (after : Memory)
      → IsAlign a
      → p % a ≡ 0
      → alignment_record resolve aligns fields m ≡ ok a
      → fields_end resolve aligns sizes fields offset ≡ ok end
      → FitsFields resolve fits fields vs
      → Live live mem (p + offset) (p + end)
      → store_fields realloc resolve stores mem fields (p + offset) vs ≡ ok after
      → Wrote live mem after
          (p + offset)
          (p + end)
          (λ m. load_fields m resolve (λ q t. loads m q t) fields (p + offset) ≡ ok vs)
  unfolding alignment_record fields_end FitsFields store_fields load_fields
  fields-Wrote mem p a [] m offset end nil after ha multiple aligned placed held here e =
      subst
        (λ z.
          Wrote live mem z (p + offset) (p + end)
            (λ m. load_fields m resolve (λ q t. loads m q t) [] (p + offset) ≡ ok nil))
        (ok-injective e) (Wrote-nothing live mem (p + offset) (p + end) (λ m. refl))
  fields-Wrote mem p a (f ∷ fields) m offset end (cons v vs) after ha multiple aligned placed
        (held, rest) here e =
      ok-bind (measure_ref resolve aligns f.type) _ aligned λ x e_x aligned'.
        ok-bind (place resolve aligns sizes offset f.type) _ placed λ next e_next placed'.
          ok-bind (store_field realloc resolve stores (in_field f.name) mem (p + offset) f.type v) _
            e
            λ (m1, hi) e_m1 e'.
              let counted = alignment_record-least resolve aligns fields (larger m x) a aligned' in
              let x_multiple =
                IsAlign-divides p x a (measure_ref-IsAlign f.type x e_x) ha (ground arith)
                  multiple in
              let above = place-above offset f.type next e_next in
              let below = fields_end-above fields next end placed' in
              let (hi_at, first) =
                field-Wrote (in_field f.name) (in_field f.name) mem p offset x next f.type v m1 hi
                  e_x x_multiple e_next held (λ k (l, h). here k (l, omega arith)) e_m1 in
              let others =
                fields-Wrote m1 p a fields (larger m x) next end vs after ha multiple aligned'
                  placed' rest (λ k (l, h). first.stays_live k (here k (omega arith, h)))
                  (rw hi_at at e') in
              Wrote-wider live (omega arith) (omega arith)
                (λ m size (one, more). rw (one, hi_at, more) refl)
                (Wrote-then live here (omega arith, omega arith, omega arith, omega arith)
                  (inl (omega arith)) first others)
  fields-Wrote mem p a fields m offset end vs after ha multiple aligned placed held here e =
      absurd held

  pub elements-Wrote :
      (i : ℕ) (mem : Memory) (p a : ℕ) (elements : List TypeRef) (m offset end : ℕ) (vs : Values)
      (after : Memory)
      → IsAlign a
      → p % a ≡ 0
      → alignment_tuple resolve aligns elements m ≡ ok a
      → elements_end resolve aligns sizes elements offset ≡ ok end
      → FitsElements resolve fits elements vs
      → Live live mem (p + offset) (p + end)
      → store_elements realloc resolve stores mem i elements (p + offset) vs ≡ ok after
      → Wrote live mem after
          (p + offset)
          (p + end)
          (λ m. load_elements m resolve (λ q t. loads m q t) i elements (p + offset) ≡ ok vs)
  unfolding alignment_tuple elements_end FitsElements store_elements load_elements
  elements-Wrote i mem p a [] m offset end nil after ha multiple aligned placed held here e =
      subst
        (λ z.
          Wrote live mem z (p + offset) (p + end)
            (λ m. load_elements m resolve (λ q t. loads m q t) i [] (p + offset) ≡ ok nil))
        (ok-injective e) (Wrote-nothing live mem (p + offset) (p + end) (λ m. refl))
  elements-Wrote i mem p a (f ∷ elements) m offset end (cons v vs) after ha multiple aligned placed
        (held, rest) here e =
      ok-bind (measure_ref resolve aligns f) _ aligned λ x e_x aligned'.
        ok-bind (place resolve aligns sizes offset f) _ placed λ next e_next placed'.
          ok-bind (store_field realloc resolve stores (in_element i) mem (p + offset) f v) _ e
            λ (m1, hi) e_m1 e'.
              let counted = alignment_tuple-least resolve aligns elements (larger m x) a aligned' in
              let x_multiple =
                IsAlign-divides p x a (measure_ref-IsAlign f x e_x) ha (ground arith) multiple in
              let above = place-above offset f next e_next in
              let below = elements_end-above elements next end placed' in
              let (hi_at, first) =
                field-Wrote (in_element i) (in_element i) mem p offset x next f v m1 hi e_x
                  x_multiple e_next held (λ k (l, h). here k (l, omega arith)) e_m1 in
              let others =
                elements-Wrote (i + 1) m1 p a elements (larger m x) next end vs after ha multiple
                  aligned' placed' rest (λ k (l, h). first.stays_live k (here k (omega arith, h)))
                  (rw hi_at at e') in
              Wrote-wider live (omega arith) (omega arith)
                (λ m size (one, more). rw (one, hi_at, more) refl)
                (Wrote-then live here (omega arith, omega arith, omega arith, omega arith)
                  (inl (omega arith)) first others)
  elements-Wrote i mem p a elements m offset end vs after ha multiple aligned placed held here e =
      absurd held
