-- ===== src/Abi/Flatten.antt =====
-- internal/abi/flatten.go: the core WebAssembly values that a component value is passed as.
pub mod Join
pub mod Despecialize
pub mod Limits
pub mod Ends
mod Runs
use Prim.Native.String.{String}
use component_model.Prelude.{
  ℕ, zero, suc, ◌+◌, List, [], ◌∷◌, ◌++◌, Option, none, some, Bool, true, false, ◌&&◌, ◌||◌, ltb,
  ◌==◌, if◌then◌else◌, Result, ok, err, stuck, ◌>>=◌, length, max, get_elem?,
}
use component_model.Descriptor.{
  PrimName, TypeDesc, TypeRef, RecordField, VariantCase, FuncParam, FuncResults, FuncDesc,
}
use component_model.Abi.Layout.{
  Error, unknown_descriptor, unsupported, invalid_enum, invalid_flags, invalid_context,
  unknown_primitive, Resolver, discriminant_type, resolve_type,
}

abbrev pub max_flat_params : ℕ
max_flat_params = 16

abbrev pub max_flat_results : ℕ
max_flat_results = 1

pub data CoreType : Type 0 where
  i32 i64 f32 f64 : CoreType

abbrev pub same_type : CoreType → CoreType → Bool
same_type i32 i32 = true
same_type i64 i64 = true
same_type f32 f32 = true
same_type f64 f64 = true
same_type a b = false

abbrev pub is_i32_or_f32 : CoreType → Bool
is_i32_or_f32 i32 = true
is_i32_or_f32 f32 = true
is_i32_or_f32 t = false

-- The two flags of the loop of `joinCoreTypes`.
abbrev pub all_same : CoreType → List CoreType → Bool
all_same a [] = true
all_same a (t ∷ types) = same_type t a && all_same a types

abbrev pub all_i32_or_f32 : List CoreType → Bool
all_i32_or_f32 [] = true
all_i32_or_f32 (t ∷ types) = is_i32_or_f32 t && all_i32_or_f32 types

unfoldable pub join_core_types : List CoreType → CoreType
join_core_types [] = i32
join_core_types (a ∷ types) =
    if all_same a (a ∷ types) then a else (if all_i32_or_f32 (a ∷ types) then i32 else i64)

-- The types at position `i` of the cases that are long enough.
unfoldable pub candidates : ℕ → List (List CoreType) → List CoreType
candidates i [] = []
candidates i (flat ∷ flats) =
    let rest = candidates i flats in elim (get_elem? flat i) [ none ↦ rest | some t ↦ t ∷ rest ]

unfoldable pub max_len : List (List CoreType) → ℕ
max_len [] = 0
max_len (flat ∷ flats) = max (length flat) (max_len flats)

-- The loop over the positions, `count` of them from `i` on.
unfoldable pub join_positions : ℕ → ℕ → List (List CoreType) → List CoreType
unfolding candidates join_core_types
join_positions zero i flats = []
join_positions (suc count) i flats =
    let rest = join_positions count (i + 1) flats in
    elim (candidates i flats) [ [] ↦ rest | t ∷ types ↦ join_core_types (t ∷ types) ∷ rest ]

abbrev pub Flat : Type 0
Flat = Result Error (List CoreType)

unfoldable pub flatten_primitive : Option PrimName → Flat
flatten_primitive (some PrimName.bool) = ok (i32 ∷ [])
flatten_primitive (some PrimName.u8) = ok (i32 ∷ [])
flatten_primitive (some PrimName.u16) = ok (i32 ∷ [])
flatten_primitive (some PrimName.u32) = ok (i32 ∷ [])
flatten_primitive (some PrimName.s8) = ok (i32 ∷ [])
flatten_primitive (some PrimName.s16) = ok (i32 ∷ [])
flatten_primitive (some PrimName.s32) = ok (i32 ∷ [])
flatten_primitive (some PrimName.s64) = ok (i64 ∷ [])
flatten_primitive (some PrimName.u64) = ok (i64 ∷ [])
flatten_primitive (some PrimName.f32) = ok (f32 ∷ [])
flatten_primitive (some PrimName.f64) = ok (f64 ∷ [])
flatten_primitive (some PrimName.char) = ok (i32 ∷ [])
flatten_primitive (some PrimName.string) = ok (i32 ∷ i32 ∷ [])
flatten_primitive (some PrimName.error_context) = ok (i32 ∷ [])
flatten_primitive p = err (unknown_primitive p)

unfoldable pub flatten_flags : ℕ → Flat
flatten_flags num_labels =
    if num_labels == 0 || ltb 32 num_labels then err (invalid_flags num_labels) else ok (i32 ∷ [])

unfoldable pub flatten_enum : ℕ → Flat
flatten_enum num_cases = if num_cases == 0 then err (invalid_enum 0) else ok (i32 ∷ [])

-- `below` is the recursive call of `Flatten`.
module _ (resolve : Resolver) (below : Option TypeDesc → Flat) where
  unfoldable pub flatten_ref : TypeRef → Flat
  flatten_ref ref = resolve_type resolve (some ref) >>= below

  unfoldable pub flatten_record : List RecordField → Flat
  flatten_record [] = ok []
  flatten_record (f ∷ fields) = do
    f_flat ← flatten_ref f.type
    rest ← flatten_record fields
    ok (f_flat ++ rest)

  unfoldable pub flatten_tuple : List TypeRef → Flat
  flatten_tuple [] = ok []
  flatten_tuple (e ∷ elements) = do
    e_flat ← flatten_ref e
    rest ← flatten_tuple elements
    ok (e_flat ++ rest)

  -- The cases that have a payload.
  unfoldable pub case_flats : List VariantCase → Result Error (List (List CoreType))
  case_flats [] = ok []
  case_flats (c ∷ cases) = elim c.type [
    | none ↦ case_flats cases
    | some ref ↦ do c_flat ← flatten_ref ref; rest ← case_flats cases; ok (c_flat ∷ rest)
  ]

  unfoldable pub flatten_variant : List VariantCase → Flat
  unfolding join_positions max_len
  flatten_variant cases = do
    disc_flat ← flatten_primitive (discriminant_type (length cases))
    flats ← case_flats cases
    ok (disc_flat ++ join_positions (max_len flats) 0 flats)

  unfoldable pub flatten_option : TypeRef → Flat
  flatten_option element = do elem_flat ← flatten_ref element; ok (i32 ∷ elem_flat)

  -- An absent arm leaves its slice nil.
  unfoldable pub flatten_arm : Option TypeRef → Flat
  flatten_arm none = ok []
  flatten_arm (some ref) = flatten_ref ref

  unfoldable pub flatten_result : Option TypeRef → Option TypeRef → Flat
  unfolding join_positions
  flatten_result ok_type err_type = do
    ok_flat ← flatten_arm ok_type
    err_flat ← flatten_arm err_type
    ok (
        i32
        ∷ join_positions (max (length err_flat) (max (length ok_flat) 0)) 0
            (ok_flat ∷ err_flat ∷ []))

  unfoldable pub flatten_kind : Option TypeDesc → Flat
  flatten_kind none = err unknown_descriptor
  flatten_kind (some (TypeDesc.primitive_desc prim)) = flatten_primitive (some prim)
  flatten_kind (some (TypeDesc.list_desc element)) = ok (i32 ∷ i32 ∷ [])
  flatten_kind (some (TypeDesc.record_desc fields)) = flatten_record fields
  flatten_kind (some (TypeDesc.variant_desc cases)) = flatten_variant cases
  flatten_kind (some (TypeDesc.tuple_desc elements)) = flatten_tuple elements
  flatten_kind (some (TypeDesc.flags_desc names)) = flatten_flags (length names)
  flatten_kind (some (TypeDesc.enum_desc cases)) = flatten_enum (length cases)
  flatten_kind (some (TypeDesc.option_desc element)) = flatten_option element
  flatten_kind (some (TypeDesc.result_desc ok_type err_type)) = flatten_result ok_type err_type
  flatten_kind (some (TypeDesc.own_desc resource)) = ok (i32 ∷ [])
  flatten_kind (some (TypeDesc.borrow_desc resource)) = ok (i32 ∷ [])
  flatten_kind (some (TypeDesc.stream_desc element)) = ok (i32 ∷ [])
  flatten_kind (some (TypeDesc.future_desc element)) = ok (i32 ∷ [])
  flatten_kind (some t) = err (unsupported t)

-- The fuel bounds the depth of calls, for which the source has no bound.
unfoldable pub flatten : ℕ → Resolver → Option TypeDesc → Flat
flatten zero resolve t = stuck
flatten (suc fuel) resolve t = flatten_kind resolve (λ d. flatten fuel resolve d) t

pub data Context : Type 0 where
  lift lower : Context
  other : String → Context

-- The parameters, or the named results, one after the other.
unfoldable pub flatten_params : ℕ → Resolver → List FuncParam → Flat
unfolding flatten_ref
flatten_params fuel resolve [] = ok []
flatten_params fuel resolve (p ∷ params) = do
  p_flat ← flatten_ref resolve (λ d. flatten fuel resolve d) p.type
  rest ← flatten_params fuel resolve params
  ok (p_flat ++ rest)

unfoldable pub flatten_results : ℕ → Resolver → FuncResults → Flat
unfolding flatten_ref flatten_params
flatten_results fuel resolve results = elim results.unnamed [
  | some ref ↦ flatten_ref resolve (λ d. flatten fuel resolve d) ref
  | none ↦ flatten_params fuel resolve results.named
]

-- The spill-to-memory rules.
abbrev pub spill_results :
    Context → List CoreType → List CoreType → Result Error (List CoreType × List CoreType)
spill_results lift params results = ok (params, i32 ∷ [])
spill_results lower params results = ok (params ++ (i32 ∷ []), [])
spill_results (other context) params results = err (invalid_context context)

abbrev pub spill :
    Context → List CoreType → List CoreType → Result Error (List CoreType × List CoreType)
spill context params results =
    let kept = if ltb max_flat_params (length params) then i32 ∷ [] else params in
    if ltb max_flat_results (length results)
    then spill_results context kept results
    else ok (kept, results)

unfoldable pub flatten_func :
    ℕ → FuncDesc → Resolver → Context → Result Error (List CoreType × List CoreType)
unfolding flatten_params flatten_results
flatten_func fuel f resolve context = do
  params ← flatten_params fuel resolve f.params
  results ← flatten_results fuel resolve f.results
  spill context params results
