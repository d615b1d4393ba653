-- ===== src/Abi/Memory/Runs.antt =====
-- internal/abi/memory.go: runs of stores and loads on concrete values.
use component_model.Prelude.{
  ℕ, ◌+◌, ◌-◌, ◌*◌, ◌/◌, ◌^◌, ◌≤◌, ◌<◌, ◌≡◌, inl, inr, refl, arith, List, [], ◌∷◌, Option, none,
  some, Bool, true, false, ltb, ◌||◌, ◌==◌, Bool-cases, if◌then◌else◌, Result, ok, err, stuck, Ends,
  ok-injective, ltb,
}
use mathlib.Core.Path.{subst}
use component_model.Descriptor.{PrimName, TypeDesc, TypeRef}
use component_model.Abi.Layout.{
  Resolver, alignment_primitive, checked_add, checked_align, max_uint32, resolve_type,
  size_primitive,
}
use component_model.Abi.Layout.Validate.{
  is_visiting, validate_elements, validate_kind, validate_layout_desc, validate_layout_type,
  validate_ref,
}
use component_model.Abi.Layout.Align.{
  alignment, alignment_kind, alignment_tuple, alignment_unchecked, measure_ref,
}
use component_model.Abi.Layout.Size.{
  elements_end, place, size, size_kind, size_tuple, size_unchecked,
}
use component_model.Abi.Memory.{
  unexpected_value, Memory, boxed, bytes_of, checked_byte_length, checked_range, copy_bytes, grow,
  is_aligned, is_word_size, little_endian, load_int, load_word, put_little_endian, store_int,
}
use component_model.Abi.Memory.Utf8.{after_lead, utf8_from, utf8_valid}
use component_model.Abi.Memory.Load.{
  Loaded, check_place, load, load_each, load_elements, load_field, load_kind, load_list,
  load_list_from_range, load_pair, load_primitive, load_string, load_string_from_range, load_value,
}
use component_model.Abi.Memory.Store.{
  Stored, alloc_store_any_list, alloc_store_bytes, alloc_store_list, int_byte_size, is_byte_type,
  length32, store, store_each, store_elements, store_field, store_kind, store_list, store_pair,
  store_primitive, store_string, store_tuple, store_uint32, store_value,
}
use component_model.Abi.Value.{Value, cons, count_values, nil, slice, string_value, uint32_value}
use component_model.Abi.Memory.Fits.{Fits, FitsEach, FitsElements, FitsKind, FitsPrimitive, FitsRef}
use component_model.Abi.Memory.Wrote.{Fresh, IsBlock, OutOfRange}
use component_model.Abi.Memory.RoundTrip.{load-store}
use component_model.Abi.Memory.Ends.{Answers, if-Ends}
use component_model.Abi.Memory.EndsStore.{store-Ends}
use component_model.Abi.Memory.Reads.{load-agree}
use component_model.Abi.Memory.SignedBytes.{load-signed_byte}

-- An allocator that never frees: `world` is the first address that was not given out.
abbrev above : ℕ → ℕ → ℕ
above world align = (world + align - 1) / align * align

bump : ℕ → ℕ → ℕ → ℕ → Memory → Result ℕ (ℕ × Memory)
bump old old_size align n mem =
    let q = above mem.world align in
    if ltb q mem.world || ltb max_uint32 q then err 0 else ok (q, record mem { world = q + n })

abbrev BelowTop : ℕ → ℕ → Type 0
BelowTop world k = k < world

bump-Fresh : Fresh BelowTop (some bump)
unfolding bump
bump-Fresh align n mem after q e =
    let q0 = above mem.world align in
    elim (Bool-cases (ltb q0 mem.world || ltb max_uint32 q0)) [
      | inl full ↦ absurd (ground (arith, rw full at e))
      | inr fits ↦
          let room : (mem.world ≤ q0) × (q0 < 2 ^ 32) = ground arith in
          subst (λ (r : ℕ × Memory). IsBlock BelowTop mem r.1 r.0 n) (ok-injective (rw fits at e))
            (
              room.1,
              λ k l. refl,
              λ k l. omega (arith, room),
              λ k (lo, hi) l. absurd (omega (arith, room)),
              λ k (lo, hi). hi,
            )
    ]

abbrev primitive : PrimName → TypeRef
primitive prim = record { primitive = some prim; type_index = none }

abbrev entry_type : TypeDesc
entry_type =
    TypeDesc.tuple_desc
      (primitive PrimName.u8 ∷ primitive PrimName.string ∷ primitive PrimName.u32 ∷ [])

abbrev table : Resolver
table = some (λ i. if ltb i 1 then some entry_type else none)

abbrev list_type : Option TypeDesc
list_type = some (TypeDesc.list_desc (record { primitive = none; type_index = some 0 }))

abbrev entry : ℕ → List ℕ → ℕ → Value
entry a s b = slice (cons (uint32_value a) (cons (string_value s) (cons (uint32_value b) nil)))

abbrev two_entries : Value
two_entries = slice (cons (entry 7 (104 ∷ 105 ∷ []) 1000) (cons (entry 255 [] 0) nil))

abbrev start : Memory
start = record { size = 4096; byte = λ k. 0; world = 24 }

abbrev stored : Stored
stored = store 5 start 8 list_type two_entries table (some bump)

abbrev after_stored : Stored → Memory
after_stored (ok m) = m
after_stored r = start

is_stored : Stored → Bool
is_stored (ok m) = true
is_stored r = false

memory-after : (r : Stored) → is_stored r ≡ true → r ≡ ok (after_stored r)
unfolding is_stored
memory-after (ok m) e = refl
memory-after (err x) e = cc
memory-after stuck e = cc

abbrev reread : Loaded
reread = load 5 (after_stored stored) 8 list_type table

stored_entries : is_stored stored ≡ true
unfolding is_stored store store_value store_kind store_list store_pair alloc_store_any_list
    alloc_store_list alloc_store_bytes length32 store_each store_tuple store_elements store_field
    store_primitive store_uint32 store_string int_byte_size is_byte_type grow put_little_endian
    store_int copy_bytes bump is_aligned checked_range checked_byte_length is_word_size check_place
    count_values checked_align checked_add alignment_primitive size_primitive resolve_type
    validate_layout_type validate_layout_desc validate_kind validate_elements validate_ref
    is_visiting alignment alignment_unchecked alignment_kind alignment_tuple measure_ref size
    size_unchecked size_kind size_tuple elements_end place
stored_entries = refl

reread_entries : reread ≡ ok two_entries
unfolding load load_value load_kind load_list load_pair load_list_from_range load_each load_elements
    load_field load_primitive load_string load_string_from_range little_endian load_word boxed
    load_int bytes_of utf8_valid utf8_from after_lead store store_value store_kind store_list
    store_pair alloc_store_any_list alloc_store_list alloc_store_bytes length32 store_each
    store_tuple store_elements store_field store_primitive store_uint32 store_string int_byte_size
    is_byte_type grow put_little_endian store_int copy_bytes bump is_aligned checked_range
    checked_byte_length is_word_size check_place count_values checked_align checked_add
    alignment_primitive size_primitive resolve_type validate_layout_type validate_layout_desc
    validate_kind validate_elements validate_ref is_visiting alignment alignment_unchecked
    alignment_kind alignment_tuple measure_ref size size_unchecked size_kind size_tuple elements_end
    place
reread_entries = refl

two_entries-Fits : Fits 5 table list_type two_entries
unfolding Fits FitsKind FitsEach FitsRef FitsElements FitsPrimitive count_values utf8_valid
    utf8_from after_lead resolve_type
two_entries-Fits = (
  omega arith,
  (
    (omega arith, ((omega arith, refl), (omega arith, tt))),
    ((omega arith, ((omega arith, refl), (omega arith, tt))), tt),
  ),
)

load-store_example :
    (load 5 (after_stored stored) 8 list_type table ≡ ok two_entries)
    × ((k : ℕ) → k < 24 → OutOfRange 8 16 k → (after_stored stored).byte k ≡ 0)
unfolding checked_align checked_add alignment_primitive size_primitive resolve_type
    validate_layout_type validate_layout_desc validate_kind validate_elements validate_ref
    is_visiting alignment alignment_unchecked alignment_kind alignment_tuple measure_ref size
    size_unchecked size_kind size_tuple elements_end place
load-store_example =
    load-store BelowTop (some bump) bump-Fresh table 5 start (after_stored stored) 8 8 list_type
      two_entries two_entries-Fits refl (λ k (lo, hi). omega arith)
      (memory-after stored stored_entries)

bump-Answers : Answers (some bump)
unfolding bump
bump-Answers old old_size align n mem =
    let q0 = above mem.world align in if-Ends (ltb q0 mem.world || ltb max_uint32 q0) _ _ tt tt

store-Ends_example : Ends (store 5 start 8 list_type two_entries table (some bump))
store-Ends_example =
    store-Ends (some bump) bump-Answers table 5 start 8 list_type two_entries two_entries-Fits

load-signed_byte_example :
    (load_primitive start 9 PrimName.s8 ≡ ok (uint32_value 0))
    × (store_primitive none start 9 PrimName.s8 (uint32_value 0)
        ≡ err (unexpected_value (uint32_value 0)))
load-signed_byte_example = load-signed_byte none start start 9 9 (omega arith) (omega arith)

-- A string of two bytes at the end of a small memory, and zeros behind it.
abbrev text : Memory
text = record {
  size = 16;
  byte = λ k. if k == 0 then 14 else (if k == 4 then 2 else (if ltb k 14 then 0 else 104));
  world = 0;
}

abbrev shorter : ℕ → ℕ
shorter k = if ltb k 16 then text.byte k else 0

load-agree_example :
    load 1 (record text { byte = shorter }) 0 (some (TypeDesc.primitive_desc PrimName.string)) none
    ≡ load 1 text 0 (some (TypeDesc.primitive_desc PrimName.string)) none
load-agree_example =
    load-agree 1 text shorter 0 (some (TypeDesc.primitive_desc PrimName.string)) none
      (λ k inside. ground arith)
