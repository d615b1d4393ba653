-- ===== src/Abi/Layout/Inside.antt =====
-- internal/abi/layout.go: a part of a type keeps its alignment at every address that the whole is
-- aligned to, and the arms of a variant are no larger than the room for the payload.
use component_model.Prelude.{
  ℕ, zero, suc, ◌+◌, ◌%◌, ◌≤◌, ◌≡◌, refl, List, [], ◌∷◌, Option, none, some, inl, inr, arith,
  Option-cases, ok, ok-bind, ok-injective, get_elem?,
}
use mathlib.Core.Path.{subst}
use component_model.Descriptor.{TypeRef, RecordField, VariantCase}
use component_model.Abi.Layout.{checked_align, Resolver, resolve_type}
use component_model.Abi.Layout.Align.{
  Measure, larger, measure_ref, alignment_optional, alignment_record, alignment_tuple,
  max_case_alignment,
}
use component_model.Abi.Layout.Size.{max_case_size, widen}
use component_model.Abi.Layout.Bounds.{IsAlign}

pub IsAlign-divides : (p a b : ℕ) → IsAlign a → IsAlign b → a ≤ b → p % b ≡ 0 → p % a ≡ 0
IsAlign-divides p a b ha hb small multiple = ground arith

-- At an aligned address padding adds what it adds at the start.
pub checked_align-shift :
    (p offset a : ℕ) {r q : ℕ}
    → IsAlign a
    → p % a ≡ 0
    → checked_align offset a ≡ ok r
    → checked_align (p + offset) a ≡ ok q
    → (q ≡ p + r) × (offset ≤ r) × (r % a ≡ 0) × (q % a ≡ 0)
unfolding checked_align
checked_align-shift p offset a ha multiple e1 e2 = ground arith

pub checked_align-above :
    (offset a : ℕ) {r : ℕ} → IsAlign a → checked_align offset a ≡ ok r → offset ≤ r
unfolding checked_align
checked_align-above offset a ha e = ground arith

module _ (resolve : Resolver) (below : Measure) where
  pub alignment_optional-least :
      (ref : Option TypeRef) (m a : ℕ) → alignment_optional resolve below ref m ≡ ok a → m ≤ a
  unfolding alignment_optional
  alignment_optional-least none m a e = omega (arith, ok-injective e)
  alignment_optional-least (some ref) m a e =
      ok-bind (measure_ref resolve below ref) _ e λ x found rest. ground arith

  pub alignment_record-least :
      (fields : List RecordField) (m a : ℕ) → alignment_record resolve below fields m ≡ ok a → m ≤ a
  unfolding alignment_record
  alignment_record-least [] m a e = omega (arith, ok-injective e)
  alignment_record-least (f ∷ fields) m a e =
      ok-bind (measure_ref resolve below f.type) _ e
        λ x found rest. ground (arith, alignment_record-least fields (larger m x) a rest)

  pub alignment_tuple-least :
      (elements : List TypeRef) (m a : ℕ) → alignment_tuple resolve below elements m ≡ ok a → m ≤ a
  unfolding alignment_tuple
  alignment_tuple-least [] m a e = omega (arith, ok-injective e)
  alignment_tuple-least (x ∷ elements) m a e =
      ok-bind (measure_ref resolve below x) _ e
        λ y found rest. ground (arith, alignment_tuple-least elements (larger m y) a rest)

  max_case_alignment-least :
      (cases : List VariantCase) (m a : ℕ) → max_case_alignment resolve below cases m ≡ ok a → m ≤ a
  unfolding max_case_alignment
  max_case_alignment-least [] m a e = omega (arith, ok-injective e)
  max_case_alignment-least (c ∷ cases) m a e =
      ok-bind (alignment_optional resolve below c.type m) _ e λ x found rest.
        omega (
          arith,
          alignment_optional-least c.type m x found,
          max_case_alignment-least cases x a rest,
        )

  -- The alignment of a payload is counted in.
  pub alignment_optional-counts :
      (ref : TypeRef) (m a : ℕ)
      → alignment_optional resolve below (some ref) m ≡ ok a
      → (x : ℕ) × (measure_ref resolve below ref ≡ ok x) × (x ≤ a)
  unfolding alignment_optional
  alignment_optional-counts ref m a e =
      ok-bind (measure_ref resolve below ref) _ e λ x found rest. (x, found, ground arith)

  pub case-alignment :
      (cases : List VariantCase) (m a idx : ℕ) (c : VariantCase) (ref : TypeRef)
      → max_case_alignment resolve below cases m ≡ ok a
      → get_elem? cases idx ≡ some c
      → c.type ≡ some ref
      → (x : ℕ) × (measure_ref resolve below ref ≡ ok x) × (x ≤ a)
  unfolding max_case_alignment
  case-alignment [] m a idx c ref e at present = cc
  case-alignment (d ∷ cases) m a zero c ref e at present =
      ok-bind (alignment_optional resolve below d.type m) _ e λ y found rest.
        let here : d.type ≡ some ref = cc in
        let (x, measured, small) = alignment_optional-counts ref m y (rw here at found) in
        (x, measured, omega (arith, max_case_alignment-least cases y a rest))
  case-alignment (d ∷ cases) m a (suc idx) c ref e at present =
      ok-bind (alignment_optional resolve below d.type m) _ e
        λ y found rest. case-alignment cases y a idx c ref rest at present

module _ (resolve : Resolver) (below_align below_size : Measure) where
  max_case_size-least :
      (cases : List VariantCase) (m s : ℕ)
      → max_case_size resolve below_align below_size cases m ≡ ok s
      → m ≤ s
  unfolding max_case_size
  max_case_size-least [] m s e = omega (arith, ok-injective e)
  max_case_size-least (c ∷ cases) m s e = elim (Option-cases c.type) [
    | inl absent ↦ max_case_size-least cases m s (rw (max_case_size, absent) at e)
    | inr (ref, present) ↦
        ok-bind (measure_ref resolve below_size ref) _ (rw (max_case_size, present) at e)
          λ x found rest. ground (arith, max_case_size-least cases (larger m x) s rest)
  ]

  pub case-size :
      (cases : List VariantCase) (m s idx : ℕ) (c : VariantCase) (ref : TypeRef)
      → max_case_size resolve below_align below_size cases m ≡ ok s
      → get_elem? cases idx ≡ some c
      → c.type ≡ some ref
      → (x : ℕ) × (measure_ref resolve below_size ref ≡ ok x) × (x ≤ s)
  unfolding max_case_size
  case-size [] m s idx c ref e at present = cc
  case-size (d ∷ cases) m s zero c ref e at present =
      let here : d.type ≡ some ref = cc in
      ok-bind (measure_ref resolve below_size ref) _ (rw (max_case_size, here) at e)
        λ x found rest. (x, found, ground (arith, max_case_size-least cases (larger m x) s rest))
  case-size (d ∷ cases) m s (suc idx) c ref e at present = elim (Option-cases d.type) [
    | inl absent ↦ case-size cases m s idx c ref (rw (max_case_size, absent) at e) at present
    | inr (other, there) ↦
        ok-bind (measure_ref resolve below_size other) _ (rw (max_case_size, there) at e)
          λ x found rest. case-size cases (larger m x) s idx c ref rest at present
  ]

  pub widen-least :
      (ref : Option TypeRef) (m n : ℕ) (widest : ℕ × ℕ)
      → widen resolve below_align below_size ref (m, n) ≡ ok widest
      → (m ≤ widest.0) × (n ≤ widest.1)
  unfolding widen
  widen-least none m n widest e =
      subst (λ (w : ℕ × ℕ). (m ≤ w.0) × (n ≤ w.1)) (ok-injective e) (omega arith, omega arith)
  widen-least (some ref) m n widest e = ok-bind (resolve_type resolve (some ref)) _ e λ t found e1.
      ok-bind (below_size t) _ e1 λ s sized e2. ok-bind (below_align t) _ e2 λ a aligned e3.
        subst (λ (w : ℕ × ℕ). (m ≤ w.0) × (n ≤ w.1)) (ok-injective e3) (ground arith, ground arith)

  pub widen-counts :
      (ref : TypeRef) (m n : ℕ) (widest : ℕ × ℕ)
      → widen resolve below_align below_size (some ref) (m, n) ≡ ok widest
      → (s : ℕ) × (a : ℕ) × (measure_ref resolve below_size ref ≡ ok s)
        × (s ≤ widest.0)
        × (measure_ref resolve below_align ref ≡ ok a)
        × (a ≤ widest.1)
  unfolding widen measure_ref
  widen-counts ref m n widest e = ok-bind (resolve_type resolve (some ref)) _ e λ t found e1.
      ok-bind (below_size t) _ e1 λ s sized e2. ok-bind (below_align t) _ e2 λ a aligned e3.
        subst
          (λ (w : ℕ × ℕ).
            (x : ℕ) × (y : ℕ) × (measure_ref resolve below_size ref ≡ ok x)
            × (x ≤ w.0)
            × (measure_ref resolve below_align ref ≡ ok y)
            × (y ≤ w.1))
          (ok-injective e3)
          (s, a, rw (found, sized) refl, ground arith, rw (found, aligned) refl, ground arith)
