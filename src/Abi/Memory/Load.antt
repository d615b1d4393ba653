-- ===== src/Abi/Memory/Load.antt =====
-- internal/abi/memory.go: `Load` and the functions below it.
use component_model.Prelude.{
  ℕ, zero, suc, ◌+◌, List, [], ◌∷◌, Option, none, some, true, false, not, ltb, leb, ◌==◌, ◌&&◌,
  if◌then◌else◌, Result, ok, err, stuck, ◌>>=◌, ◌>>◌, wrap, length, get_elem?,
}
use component_model.Descriptor.{PrimName, TypeDesc, TypeRef, RecordField, VariantCase}
use component_model.Abi.Layout.{
  Resolver, resolve_type, checked_align, checked_add, discriminant_type, size_primitive,
  flags_width,
}
use component_model.Abi.Layout.Align.{larger, max_case_alignment, alignment_unchecked, alignment}
use component_model.Abi.Layout.Validate.{layout_fuel}
use component_model.Abi.Layout.Size.{size_enum_num_cases, size}
use component_model.Abi.Value.{
  Value, nil_value, bool_value, uint32_value, int32_value, float32_value, float64_value,
  string_value, slice, variant_value, result_value, Values, nil, cons,
}
use component_model.Abi.Memory.{
  Memory, MemError, layout, buffer_overflow, misaligned, string_overflow, list_overflow,
  too_many_elements, invalid_discriminant, char_out_of_range, surrogate_half, case_out_of_range,
  invalid_utf8, unknown_prim, unsupported_type, in_field, in_element, in_case, in_ok, in_err,
  in_list, in_string, max_list_elements, checked_byte_length, check, is_aligned, load_word,
  load_int, bytes_of,
}
use component_model.Abi.Memory.Utf8.{utf8_valid}

abbrev pub Loaded : Type 0
Loaded = Result MemError Value

unfoldable pub load_char : ℕ → Loaded
load_char i =
    if leb 0x110000 i
    then err (char_out_of_range i)
    else (if leb 0xD800 i && leb i 0xDFFF then err (surrogate_half i) else ok (int32_value i))

module _ (mem : Memory) where
  unfoldable pub load_string_from_range : ℕ → ℕ → Loaded
  unfolding utf8_valid bytes_of
  load_string_from_range p byte_len =
      if ltb mem.size (p + byte_len)
      then err (string_overflow p byte_len mem.size)
      else (if utf8_valid (bytes_of mem.byte p byte_len)
          then ok (string_value (bytes_of mem.byte p byte_len))
          else err (invalid_utf8 p byte_len))

  -- The pointer and the length that stand at an address.
  unfoldable pub load_pair : (MemError → MemError) → ℕ → Result MemError (ℕ × ℕ)
  unfolding load_word checked_add
  load_pair label p = do
    first ← load_word mem p 4
    len_ptr ← wrap label (layout (checked_add p 4))
    second ← load_word mem len_ptr 4
    ok (first, second)

  unfoldable pub load_string : ℕ → Loaded
  unfolding load_pair load_string_from_range
  load_string p = do (first, second) ← load_pair in_string p; load_string_from_range first second

  unfoldable pub load_primitive : ℕ → PrimName → Loaded
  unfolding load_word load_int load_char load_string
  load_primitive p PrimName.bool = do v ← load_word mem p 1; ok (bool_value (not (v == 0)))
  load_primitive p PrimName.u8 = load_int mem p 1 false
  load_primitive p PrimName.u16 = load_int mem p 2 false
  load_primitive p PrimName.u32 = load_int mem p 4 false
  load_primitive p PrimName.s8 = load_int mem p 1 true
  load_primitive p PrimName.s16 = load_int mem p 2 true
  load_primitive p PrimName.s32 = load_int mem p 4 true
  load_primitive p PrimName.u64 = load_int mem p 8 false
  load_primitive p PrimName.s64 = load_int mem p 8 true
  load_primitive p PrimName.f32 = do bits ← load_word mem p 4; ok (float32_value bits)
  load_primitive p PrimName.f64 = do bits ← load_word mem p 8; ok (float64_value bits)
  load_primitive p PrimName.char = do v ← load_word mem p 4; load_char v
  load_primitive p PrimName.string = load_string p
  load_primitive p PrimName.error_context = load_int mem p 4 false
  load_primitive p (PrimName.other name) = err (unknown_prim (PrimName.other name))

  unfoldable pub load_flags : ℕ → ℕ → Loaded
  unfolding flags_width load_int
  load_flags p num_labels = do
    flags_size ← layout (flags_width num_labels)
    load_int mem p flags_size false

  unfoldable pub load_enum : ℕ → ℕ → Loaded
  unfolding size_enum_num_cases load_word
  load_enum p num_cases = do
    enum_size ← layout (size_enum_num_cases num_cases)
    idx ← load_word mem p enum_size
    if leb num_cases idx then err (case_out_of_range idx num_cases) else ok (uint32_value idx)

-- `Alignment` of the type of an arm, if it has one: the running maximum.
unfoldable pub arm_alignment : Resolver → Option TypeRef → ℕ → Result MemError ℕ
unfolding resolve_type alignment
arm_alignment resolve none max_align = ok max_align
arm_alignment resolve (some ref) max_align = do
  t ← layout (resolve_type resolve (some ref))
  align ← layout (alignment t resolve)
  ok (larger max_align align)

-- Where the payload of a variant, an option or a result stands, behind a discriminant.
unfoldable pub payload_offset : ℕ → ℕ → ℕ → Result MemError ℕ
unfolding checked_add checked_align
payload_offset p disc_size align = do
  offset ← layout (checked_add p disc_size)
  layout (checked_align offset align)

unfoldable pub variant_payload : Resolver → List VariantCase → ℕ → ℕ → Result MemError ℕ
unfolding max_case_alignment alignment_unchecked payload_offset checked_add checked_align
variant_payload resolve cases p disc_size = do
  offset ← layout (checked_add p disc_size)
  align ←
      layout (max_case_alignment resolve (λ d. alignment_unchecked layout_fuel resolve d) cases 1)
  layout (checked_align offset align)

unfoldable pub result_payload : Resolver → Option TypeRef → Option TypeRef → ℕ → Result MemError ℕ
unfolding arm_alignment checked_add checked_align
result_payload resolve ok_type err_type p = do
  offset ← layout (checked_add p 1)
  ok_align ← arm_alignment resolve ok_type 1
  max_align ← arm_alignment resolve err_type ok_align
  layout (checked_align offset max_align)

-- `below` is the recursive call of `loadValue`.
module _ (mem : Memory) (resolve : Resolver) (below : ℕ → Option TypeDesc → Loaded) where
  -- One field or element: its value, and the offset behind it.
  unfoldable pub load_field : (MemError → MemError) → ℕ → TypeRef → Result MemError (Value × ℕ)
  unfolding resolve_type alignment checked_align size checked_add
  load_field label offset ref = do
    t ← wrap label (layout (resolve_type resolve (some ref)))
    align ← layout (alignment t resolve)
    start ← wrap label (layout (checked_align offset align))
    v ← wrap label (below start t)
    field_size ← layout (size t resolve)
    next ← wrap label (layout (checked_add start field_size))
    ok (v, next)

  unfoldable pub load_fields : List RecordField → ℕ → Result MemError Values
  unfolding load_field
  load_fields [] offset = ok nil
  load_fields (f ∷ fields) offset = do
    (v, next) ← load_field (in_field f.name) offset f.type
    rest ← load_fields fields next
    ok (cons v rest)

  unfoldable pub load_elements : ℕ → List TypeRef → ℕ → Result MemError Values
  unfolding load_field
  load_elements i [] offset = ok nil
  load_elements i (e ∷ elements) offset = do
    (v, next) ← load_field (in_element i) offset e
    rest ← load_elements (i + 1) elements next
    ok (cons v rest)

  -- The elements of a list; the pointer does not move behind the last one.
  unfoldable pub load_each : ℕ → Option TypeDesc → ℕ → ℕ → ℕ → Result MemError Values
  unfolding checked_add
  load_each zero t elem_size i p = ok nil
  load_each (suc count) t elem_size i p = do
    v ← wrap (in_element i) (below p t)
    next ← (if count == 0 then ok p else wrap (in_element i) (layout (checked_add p elem_size)))
    rest ← load_each count t elem_size (i + 1) next
    ok (cons v rest)

  unfoldable pub load_list_from_range : ℕ → ℕ → Option TypeDesc → Loaded
  unfolding size alignment checked_byte_length load_each is_aligned
  load_list_from_range p count t = do
    elem_size ← layout (size t resolve)
    elem_align ← layout (alignment t resolve)
    byte_len ← wrap in_list (checked_byte_length count elem_size)
    check (not (ltb max_list_elements count)) (too_many_elements count)
    check (not (ltb mem.size (p + byte_len))) (list_overflow p byte_len mem.size)
    check (is_aligned p elem_align) (misaligned p elem_align)
    vs ← load_each count t elem_size 0 p
    ok (slice vs)

  unfoldable pub load_list : ℕ → TypeRef → Loaded
  unfolding resolve_type load_pair load_list_from_range
  load_list p element = do
    t ← layout (resolve_type resolve (some element))
    (first, second) ← load_pair mem in_list p
    load_list_from_range first second t

  -- The payload of a case or an arm that has one.
  unfoldable pub load_payload : (MemError → MemError) → Option TypeRef → ℕ → Loaded
  unfolding resolve_type
  load_payload label none offset = ok nil_value
  load_payload label (some ref) offset = do
    t ← layout (resolve_type resolve (some ref))
    wrap label (below offset t)

  unfoldable pub load_variant : ℕ → List VariantCase → Loaded
  unfolding discriminant_type size_primitive load_word variant_payload load_payload
  load_variant p cases = do
    disc_size ← layout (size_primitive (discriminant_type (length cases)))
    idx ← load_word mem p disc_size
    c ← elim (get_elem? cases idx) [
      | none ↦ err (case_out_of_range idx (length cases))
      | some c ↦ ok c
    ]
    offset ← variant_payload resolve cases p disc_size
    payload ← load_payload (in_case idx) c.type offset
    ok (variant_value idx payload)

  unfoldable pub load_option : ℕ → TypeRef → Loaded
  unfolding resolve_type load_word alignment payload_offset checked_add checked_align
  load_option p element = do
    t ← layout (resolve_type resolve (some element))
    disc ← load_word mem p 1
    offset ← layout (checked_add p 1)
    align ← layout (alignment t resolve)
    start ← layout (checked_align offset align)
    (if disc == 0
        then ok nil_value
        else (if disc == 1 then below start t else err (invalid_discriminant disc)))

  unfoldable pub load_result : ℕ → Option TypeRef → Option TypeRef → Loaded
  unfolding load_word result_payload load_payload
  load_result p ok_type err_type = do
    disc ← load_word mem p 1
    offset ← result_payload resolve ok_type err_type p
    is_err ←
        (if disc == 0
          then ok false
          else (if disc == 1 then ok true else err (invalid_discriminant disc)))
    v ← (if is_err then load_payload in_err err_type offset else load_payload in_ok ok_type offset)
    ok (result_value is_err v)

  unfoldable pub load_kind : ℕ → Option TypeDesc → Loaded
  unfolding load_primitive load_list load_fields load_variant load_elements load_flags load_enum
      load_option load_result load_int
  load_kind p none = err (unsupported_type none)
  load_kind p (some (TypeDesc.primitive_desc prim)) = load_primitive mem p prim
  load_kind p (some (TypeDesc.list_desc element)) = load_list p element
  load_kind p (some (TypeDesc.record_desc fields)) = do vs ← load_fields fields p; ok (slice vs)
  load_kind p (some (TypeDesc.variant_desc cases)) = load_variant p cases
  load_kind p (some (TypeDesc.tuple_desc elements)) = do
    vs ← load_elements 0 elements p
    ok (slice vs)
  load_kind p (some (TypeDesc.flags_desc names)) = load_flags mem p (length names)
  load_kind p (some (TypeDesc.enum_desc cases)) = load_enum mem p (length cases)
  load_kind p (some (TypeDesc.option_desc element)) = load_option p element
  load_kind p (some (TypeDesc.result_desc ok_type err_type)) = load_result p ok_type err_type
  load_kind p (some (TypeDesc.own_desc resource)) = load_int mem p 4 false
  load_kind p (some (TypeDesc.borrow_desc resource)) = load_int mem p 4 false
  load_kind p (some (TypeDesc.stream_desc element)) = load_int mem p 4 false
  load_kind p (some (TypeDesc.future_desc element)) = load_int mem p 4 false
  load_kind p (some t) = err (unsupported_type (some t))

-- The fuel bounds the depth of calls, for which the source has no bound.
unfoldable pub load_value : ℕ → Memory → Resolver → ℕ → Option TypeDesc → Loaded
unfolding load_kind
load_value zero mem resolve p t = stuck
load_value (suc fuel) mem resolve p t =
    load_kind mem resolve (λ q d. load_value fuel mem resolve q d) p t

-- The checks of `Load`, which `Store` makes too.
unfoldable pub check_place : Memory → ℕ → Option TypeDesc → Resolver → Result MemError (Unit {0})
unfolding alignment size is_aligned
check_place mem p t resolve = do
  align ← layout (alignment t resolve)
  check (is_aligned p align) (misaligned p align)
  s ← layout (size t resolve)
  check (not (ltb mem.size (p + s))) (buffer_overflow p s mem.size)

unfoldable pub load : ℕ → Memory → ℕ → Option TypeDesc → Resolver → Loaded
unfolding check_place load_value
load fuel mem p t resolve = check_place mem p t resolve >> load_value fuel mem resolve p t
