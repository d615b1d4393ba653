-- ===== src/Abi/Flatten/Join.antt =====
-- internal/abi/flatten.go, `joinCoreTypes` and the loop of `flattenVariant`: position by position
-- over all cases they do what the Canonical ABI does case by case.
use component_model.Prelude.{
  ℕ, zero, suc, ◌+◌, ◌≤◌, ◌<◌, ◌≡◌, refl, List, [], ◌∷◌, Option, none, some, true, ◌&&◌, ltb,
  if◌then◌else◌, arith, length, get_elem?, lt-cases, inl, inr,
}
use component_model.Abi.Flatten.{
  CoreType, i32, i64, f32, f64, same_type, is_i32_or_f32, all_same, all_i32_or_f32, join_core_types,
  candidates, max_len, join_positions,
}

-- The ABI's `join` of two core types.
unfoldable pub join : CoreType → CoreType → CoreType
join a b = if same_type b a then a else (if is_i32_or_f32 a && is_i32_or_f32 b then i32 else i64)

unfoldable pub join_fold : CoreType → List CoreType → CoreType
join_fold a [] = a
join_fold a (t ∷ types) = join_fold (join a t) types

-- The ABI's loop over the cases: a case joins what it shares with the cases before and adds the
-- rest of its own.
unfoldable pub join_flats : List CoreType → List CoreType → List CoreType
join_flats [] ys = ys
join_flats (x ∷ xs) [] = x ∷ xs
join_flats (x ∷ xs) (y ∷ ys) = join x y ∷ join_flats xs ys

unfoldable pub join_cases : List CoreType → List (List CoreType) → List CoreType
join_cases flat [] = flat
join_cases flat (c ∷ cases) = join_cases (join_flats flat c) cases

all_i32-i32_or_f32 :
    (types : List CoreType) → all_same i32 types ≡ true → all_i32_or_f32 types ≡ true
all_i32-i32_or_f32 [] e = refl
all_i32-i32_or_f32 (i32 ∷ types) e = all_i32-i32_or_f32 types e
all_i32-i32_or_f32 (i64 ∷ types) e = cc
all_i32-i32_or_f32 (f32 ∷ types) e = cc
all_i32-i32_or_f32 (f64 ∷ types) e = cc

fold_lem :
    (a : CoreType) (types : List CoreType)
    → (if all_same a types
        then a
        else (if is_i32_or_f32 a && all_i32_or_f32 types then i32 else i64))
      ≡ join_fold a types
unfolding join_fold join
fold_lem a [] = refl
fold_lem a (t ∷ types) = ground (arith, fold_lem (join a t) types, all_i32-i32_or_f32 types)

-- On any types, whether the same or not, the joint test of all of them is the ABI's `join` folded
-- over them in order.
pub join_core_types-fold :
    (a : CoreType) (types : List CoreType) → join_core_types (a ∷ types) ≡ join_fold a types
unfolding join_core_types
join_core_types-fold a types = ground (arith, fold_lem a types)

-- A case may be too short for a position.
abbrev join_option : Option CoreType → Option CoreType → Option CoreType
join_option none b = b
join_option (some a) none = some a
join_option (some a) (some b) = some (join a b)

join_option-none : (o : Option CoreType) → o ≡ join_option o none
join_option-none none = refl
join_option-none (some a) = refl

join_flats-at :
    (xs ys : List CoreType) (i : ℕ)
    → get_elem? (join_flats xs ys) i ≡ join_option (get_elem? xs i) (get_elem? ys i)
unfolding join_flats
join_flats-at [] ys i = refl
join_flats-at (x ∷ xs) [] zero = refl
join_flats-at (x ∷ xs) [] (suc i) = join_option-none (get_elem? xs i)
join_flats-at (x ∷ xs) (y ∷ ys) zero = refl
join_flats-at (x ∷ xs) (y ∷ ys) (suc i) = join_flats-at xs ys i

abbrev option_fold : Option CoreType → List CoreType → Option CoreType
option_fold none [] = none
option_fold none (t ∷ types) = some (join_fold t types)
option_fold (some a) types = some (join_fold a types)

option_fold-none : (o : Option CoreType) → o ≡ option_fold o []
unfolding join_fold
option_fold-none none = refl
option_fold-none (some a) = refl

join_cases-at :
    (flat : List CoreType) (flats : List (List CoreType)) (i : ℕ)
    → get_elem? (join_cases flat flats) i ≡ option_fold (get_elem? flat i) (candidates i flats)
unfolding join_cases candidates join_fold
join_cases-at flat [] i = option_fold-none (get_elem? flat i)
join_cases-at flat (c ∷ flats) i =
    ground (arith, join_cases-at (join_flats flat c) flats i, join_flats-at flat c i)

get_elem?-short : (xs : List CoreType) (i : ℕ) → length xs ≤ i → get_elem? xs i ≡ none
get_elem?-short [] i h = refl
get_elem?-short (x ∷ xs) zero h = absurd (omega arith)
get_elem?-short (x ∷ xs) (suc i) h = get_elem?-short xs i (omega arith)

get_elem?-long :
    (xs : List CoreType) (i : ℕ) → i < length xs → (t : CoreType) × (get_elem? xs i ≡ some t)
get_elem?-long [] i h = absurd (omega arith)
get_elem?-long (x ∷ xs) zero h = (x, refl)
get_elem?-long (x ∷ xs) (suc i) h = get_elem?-long xs i (omega arith)

candidates-short :
    (flats : List (List CoreType)) (i : ℕ) → max_len flats ≤ i → candidates i flats ≡ []
unfolding max_len candidates
candidates-short [] i h = refl
candidates-short (flat ∷ flats) i h =
    rw (candidates, get_elem?-short flat i (omega arith)) (candidates-short flats i (omega arith))

candidates-long :
    (flats : List (List CoreType)) (i : ℕ)
    → i < max_len flats
    → (t : CoreType) × (types : List CoreType) × (candidates i flats ≡ t ∷ types)
unfolding max_len candidates
candidates-long [] i h = absurd (omega arith)
candidates-long (flat ∷ flats) i h = elim (lt-cases i (length flat)) [
  | inl inside ↦
      let (t, found) = get_elem?-long flat i inside in (t, candidates i flats, ground arith)
  | inr outside ↦
      let (t, types, found) = candidates-long flats i (omega arith) in
      (t, types, ground (arith, get_elem?-short flat i outside))
]

join_positions-at :
    (count i k : ℕ) (flats : List (List CoreType))
    → i + count ≤ max_len flats
    → get_elem? (join_positions count i flats) k
      ≡ (if ltb k count then option_fold none (candidates (i + k) flats) else none)
unfolding join_positions
join_positions-at zero i k flats h = ground arith
join_positions-at (suc count) i zero flats h =
    let (t, types, found) = candidates-long flats i (omega arith) in
    ground (arith, join_core_types-fold t types)
join_positions-at (suc count) i (suc k) flats h =
    let (t, types, found) = candidates-long flats i (omega arith) in
    let same : i + 1 + k ≡ i + suc k = omega arith in
    let later = rw same at (join_positions-at count (i + 1) k flats (omega arith)) in ground arith

pub ext_at : (xs ys : List CoreType) → ((k : ℕ) → get_elem? xs k ≡ get_elem? ys k) → xs ≡ ys
ext_at [] [] h = refl
ext_at [] (y ∷ ys) h = let at = h 0 in cc
ext_at (x ∷ xs) [] h = let at = h 0 in cc
ext_at (x ∷ xs) (y ∷ ys) h =
    let same : x ≡ y = let at = h 0 in cc in let rest = ext_at xs ys (λ k. h (suc k)) in cc

-- The joined payload of a variant, computed position by position over all cases, is what the ABI's
-- loop over the cases gives.
pub join_positions-cases :
    (flats : List (List CoreType)) → join_positions (max_len flats) 0 flats ≡ join_cases [] flats
join_positions-cases flats = ext_at _ _ λ k. ground (
  arith,
  join_positions-at (max_len flats) 0 k flats (omega arith),
  join_cases-at [] flats k,
  candidates-short flats k,
)
