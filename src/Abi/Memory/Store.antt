-- ===== src/Abi/Memory/Store.antt =====
-- internal/abi/memory.go: `Store` and the functions below it.
use component_model.Prelude.{
  ℕ, zero, suc, ◌+◌, ◌%◌, ◌^◌, List, ◌∷◌, Option, none, some, Bool, true, false, not, ltb, leb,
  ◌==◌, ◌&&◌, if◌then◌else◌, Result, ok, err, stuck, ◌>>=◌, ◌>>◌, wrap, length, take, get_elem?,
}
use component_model.Descriptor.{PrimName, TypeDesc, TypeRef, RecordField, VariantCase}
use component_model.Abi.Layout.{
  Resolver, resolve_type, checked_align, checked_add, discriminant_type, size_primitive,
  flags_width, max_uint32,
}
use component_model.Abi.Layout.Align.{alignment}
use component_model.Abi.Layout.Size.{size_enum_num_cases, size}
use component_model.Abi.Value.{
  Value, nil_value, bool_value, uint32_value, int32_value, uint64_value, int64_value, float32_value,
  float64_value, string_value, raw_bytes, slice, variant_value, result_value, Values, nil, cons,
  count_values,
}
use component_model.Abi.Memory.{
  Memory, MemError, Realloc, layout, alloc_out_of_bounds, byte_length_overflow, char_out_of_range,
  surrogate_half, case_out_of_range, unknown_prim, unsupported_type, unexpected_value, wrong_count,
  needs_payload, realloc_misaligned, in_field, in_element, in_case, in_ok, in_err, in_some, in_list,
  in_string, in_realloc, check, checked_byte_length, grow, store_int, copy_bytes,
}
use component_model.Abi.Memory.Load.{variant_payload, result_payload, check_place}

abbrev pub Stored : Type 0
Stored = Result MemError Memory

unfoldable pub int_byte_size : PrimName → ℕ
int_byte_size PrimName.u8 = 1
int_byte_size PrimName.s8 = 1
int_byte_size PrimName.u16 = 2
int_byte_size PrimName.s16 = 2
int_byte_size prim = 4

-- `uint32(len(bs))`.
unfoldable pub length32 : List ℕ → ℕ
length32 bs = length bs % 2 ^ 32

-- The bytes of a string or of a `[]byte` in a new block: its address and the memory after.
-- `copy` stops at the end of the block.
unfoldable pub alloc_store_bytes : Realloc → Memory → List ℕ → Result MemError (ℕ × Memory)
unfolding grow copy_bytes length32
alloc_store_bytes realloc mem bs = do
  (new_ptr, after) ← wrap in_realloc (grow realloc 0 0 1 (length32 bs) mem)
  check (not (ltb after.size (new_ptr + length32 bs))) (alloc_out_of_bounds new_ptr (length32 bs))
  ok (new_ptr, record after { byte = copy_bytes new_ptr (take (length32 bs) bs) after.byte })

-- A pointer and a length at an address. The caller labels the errors of the two stores and of the
-- sum between them.
unfoldable pub store_pair :
    (MemError → MemError) → (MemError → MemError) → Memory → ℕ → ℕ → ℕ → Stored
unfolding store_int checked_add
store_pair on_store label mem p first second = do
  after ← wrap on_store (store_int mem p first 4)
  len_ptr ← wrap label (layout (checked_add p 4))
  wrap on_store (store_int after len_ptr second 4)

unfoldable pub store_string : Realloc → Memory → ℕ → List ℕ → Stored
unfolding alloc_store_bytes store_pair length32
store_string realloc mem p s = do
  (new_ptr, after) ← wrap in_string (alloc_store_bytes realloc mem s)
  store_pair in_string in_string after p new_ptr (length32 s)

unfoldable pub store_char : Memory → ℕ → ℕ → Stored
unfolding store_int
store_char mem p r = do
  check (ltb r 0x110000) (char_out_of_range r)
  check (not (leb 0xD800 r && leb r 0xDFFF)) (surrogate_half r)
  store_int mem p r 4

-- The four type assertions that the source makes of a number, each followed by a store.
unfoldable pub store_uint32 : Memory → ℕ → Value → ℕ → Stored
unfolding store_int
store_uint32 mem p (uint32_value u) nbytes = store_int mem p u nbytes
store_uint32 mem p v nbytes = err (unexpected_value v)

unfoldable pub store_int32 : Memory → ℕ → Value → ℕ → Stored
unfolding store_int
store_int32 mem p (int32_value i) nbytes = store_int mem p i nbytes
store_int32 mem p v nbytes = err (unexpected_value v)

module _ (realloc : Realloc) (mem : Memory) (p : ℕ) where
  unfoldable pub store_primitive : PrimName → Value → Stored
  unfolding store_int store_uint32 store_int32 store_char store_string int_byte_size
  store_primitive PrimName.bool (bool_value b) = store_int mem p (if b then 1 else 0) 1
  store_primitive PrimName.u8 v = store_uint32 mem p v (int_byte_size PrimName.u8)
  store_primitive PrimName.u16 v = store_uint32 mem p v (int_byte_size PrimName.u16)
  store_primitive PrimName.u32 v = store_uint32 mem p v (int_byte_size PrimName.u32)
  store_primitive PrimName.s8 v = store_int32 mem p v (int_byte_size PrimName.s8)
  store_primitive PrimName.s16 v = store_int32 mem p v (int_byte_size PrimName.s16)
  store_primitive PrimName.s32 v = store_int32 mem p v (int_byte_size PrimName.s32)
  store_primitive PrimName.u64 (uint64_value u) = store_int mem p u 8
  store_primitive PrimName.s64 (int64_value i) = store_int mem p i 8
  store_primitive PrimName.f32 (float32_value bits) = store_int mem p bits 4
  store_primitive PrimName.f64 (float64_value bits) = store_int mem p bits 8
  store_primitive PrimName.char (int32_value r) = store_char mem p r
  store_primitive PrimName.string (string_value s) = store_string realloc mem p s
  store_primitive PrimName.error_context v = store_uint32 mem p v 4
  store_primitive (PrimName.other name) v = err (unknown_prim (PrimName.other name))
  store_primitive prim v = err (unexpected_value v)

unfoldable pub store_flags : Memory → ℕ → Value → ℕ → Stored
unfolding flags_width store_int
store_flags mem p (uint32_value bits) num_labels = do
  flags_size ← layout (flags_width num_labels)
  store_int mem p bits flags_size
store_flags mem p v num_labels = err (unexpected_value v)

unfoldable pub store_enum : Memory → ℕ → Value → ℕ → Stored
unfolding size_enum_num_cases store_int
store_enum mem p (uint32_value idx) num_cases = do
  check (ltb idx num_cases) (case_out_of_range idx num_cases)
  enum_size ← layout (size_enum_num_cases num_cases)
  store_int mem p idx enum_size
store_enum mem p v num_cases = err (unexpected_value v)

-- `byteListValue` asks for the type `u8`.
unfoldable pub is_byte_type : Option TypeDesc → Bool
is_byte_type (some (TypeDesc.primitive_desc PrimName.u8)) = true
is_byte_type t = false

-- A `nil` interface.
unfoldable pub is_nil_value : Value → Bool
is_nil_value nil_value = true
is_nil_value v = false

-- `below` is the recursive call of `storeValue`.
module _ (realloc : Realloc) (resolve : Resolver)
    (below : Memory → ℕ → Option TypeDesc → Value → Stored) where
  -- The elements of a list; the pointer does not move behind the last one.
  unfoldable pub store_each : Memory → Option TypeDesc → ℕ → ℕ → Values → ℕ → Stored
  unfolding checked_add count_values
  store_each mem t elem_size i nil p = ok mem
  store_each mem t elem_size i (cons v vs) p = do
    after ← wrap (in_element i) (below mem p t v)
    next ←
        (if count_values vs == 0
          then ok p
          else wrap (in_element i) (layout (checked_add p elem_size)))
    store_each after t elem_size (i + 1) vs next

  unfoldable pub alloc_store_list : Memory → Values → Option TypeDesc → Result MemError (ℕ × Memory)
  unfolding size alignment count_values checked_byte_length grow store_each
  alloc_store_list mem vs t = do
    elem_size ← layout (size t resolve)
    elem_align ← layout (alignment t resolve)
    check (leb (count_values vs) max_uint32) (byte_length_overflow (count_values vs) 0)
    byte_len ← checked_byte_length (count_values vs) elem_size
    (new_ptr, grown) ← wrap in_realloc (grow realloc 0 0 elem_align byte_len mem)
    check (new_ptr % elem_align == 0) (realloc_misaligned new_ptr elem_align)
    check (not (ltb grown.size (new_ptr + byte_len))) (alloc_out_of_bounds new_ptr byte_len)
    after ← store_each grown t elem_size 0 vs new_ptr
    ok (new_ptr, after)

  -- The address of the elements, their number, and the memory after.
  unfoldable pub alloc_store_any_list :
      Memory → Value → Option TypeDesc → Result MemError (ℕ × ℕ × Memory)
  unfolding is_byte_type alloc_store_bytes alloc_store_list count_values length32
  alloc_store_any_list mem (raw_bytes bs) t = do
    check (is_byte_type t) (unexpected_value (raw_bytes bs))
    (new_ptr, after) ← alloc_store_bytes realloc mem bs
    ok (new_ptr, length32 bs, after)
  alloc_store_any_list mem (slice vs) t = do
    (new_ptr, after) ← alloc_store_list mem vs t
    ok (new_ptr, count_values vs, after)
  alloc_store_any_list mem v t = err (unexpected_value v)

  unfoldable pub store_list : Memory → ℕ → Value → TypeRef → Stored
  unfolding resolve_type alloc_store_any_list store_pair
  store_list mem p v element = do
    t ← layout (resolve_type resolve (some element))
    (new_ptr, count, after) ← wrap in_list (alloc_store_any_list mem v t)
    store_pair (λ e. e) in_list after p new_ptr count

  -- One field or element: the memory after, and the offset behind it.
  unfoldable pub store_field :
      (MemError → MemError) → Memory → ℕ → TypeRef → Value → Result MemError (Memory × ℕ)
  unfolding resolve_type alignment checked_align size checked_add
  store_field label mem offset ref v = do
    t ← wrap label (layout (resolve_type resolve (some ref)))
    align ← layout (alignment t resolve)
    start ← wrap label (layout (checked_align offset align))
    after ← wrap label (below mem start t v)
    field_size ← layout (size t resolve)
    next ← wrap label (layout (checked_add start field_size))
    ok (after, next)

  -- The caller has compared the lengths.
  unfoldable pub store_fields : Memory → List RecordField → ℕ → Values → Stored
  unfolding store_field
  store_fields mem (f ∷ fields) offset (cons v vs) = do
    (after, next) ← store_field (in_field f.name) mem offset f.type v
    store_fields after fields next vs
  store_fields mem fields offset vs = ok mem

  unfoldable pub store_elements : Memory → ℕ → List TypeRef → ℕ → Values → Stored
  unfolding store_field
  store_elements mem i (e ∷ elements) offset (cons v vs) = do
    (after, next) ← store_field (in_element i) mem offset e v
    store_elements after (i + 1) elements next vs
  store_elements mem i elements offset vs = ok mem

  unfoldable pub store_record : Memory → ℕ → Value → List RecordField → Stored
  unfolding count_values store_fields
  store_record mem p (slice vs) fields = do
    check (count_values vs == length fields) (wrong_count (length fields) (count_values vs))
    store_fields mem fields p vs
  store_record mem p v fields = err (unexpected_value v)

  unfoldable pub store_tuple : Memory → ℕ → Value → List TypeRef → Stored
  unfolding count_values store_elements
  store_tuple mem p (slice vs) elements = do
    check (count_values vs == length elements) (wrong_count (length elements) (count_values vs))
    store_elements mem 0 elements p vs
  store_tuple mem p v elements = err (unexpected_value v)

  -- The payload of an arm that has one.
  unfoldable pub store_payload :
      (MemError → MemError) → Memory → Option TypeRef → ℕ → Value → Stored
  unfolding resolve_type
  store_payload label mem none offset v = ok mem
  store_payload label mem (some ref) offset v = do
    t ← layout (resolve_type resolve (some ref))
    wrap label (below mem offset t v)

  -- A case with a type does not take a `nil` payload.
  unfoldable pub store_case : Memory → ℕ → Option TypeRef → ℕ → Value → Stored
  unfolding resolve_type is_nil_value
  store_case mem idx none offset v = ok mem
  store_case mem idx (some ref) offset v = do
    t ← layout (resolve_type resolve (some ref))
    check (not (is_nil_value v)) (needs_payload idx)
    wrap (in_case idx) (below mem offset t v)

  unfoldable pub store_variant : Memory → ℕ → Value → List VariantCase → Stored
  unfolding discriminant_type size_primitive store_int variant_payload store_case
  store_variant mem p (variant_value idx payload) cases = do
    c ← elim (get_elem? cases idx) [
      | none ↦ err (case_out_of_range idx (length cases))
      | some c ↦ ok c
    ]
    disc_size ← layout (size_primitive (discriminant_type (length cases)))
    after ← store_int mem p idx disc_size
    offset ← variant_payload resolve cases p disc_size
    store_case after idx c.type offset payload
  store_variant mem p v cases = err (unexpected_value v)

  unfoldable pub store_option : Memory → ℕ → Value → TypeRef → Stored
  unfolding resolve_type is_nil_value store_int alignment checked_add checked_align
  store_option mem p v element = do
    t ← layout (resolve_type resolve (some element))
    after ← store_int mem p (if is_nil_value v then 0 else 1) 1
    offset ← layout (checked_add p 1)
    align ← layout (alignment t resolve)
    start ← layout (checked_align offset align)
    (if is_nil_value v then ok after else wrap in_some (below after start t v))

  unfoldable pub store_result : Memory → ℕ → Value → Option TypeRef → Option TypeRef → Stored
  unfolding store_int result_payload store_payload
  store_result mem p (result_value is_err v) ok_type err_type = do
    after ← store_int mem p (if is_err then 1 else 0) 1
    offset ← result_payload resolve ok_type err_type p
    (if is_err
        then store_payload in_err after err_type offset v
        else store_payload in_ok after ok_type offset v)
  store_result mem p v ok_type err_type = err (unexpected_value v)

  unfoldable pub store_kind : Memory → ℕ → Option TypeDesc → Value → Stored
  unfolding store_primitive store_list store_record store_variant store_tuple store_flags store_enum
      store_option store_result store_uint32
  store_kind mem p none v = err (unsupported_type none)
  store_kind mem p (some (TypeDesc.primitive_desc prim)) v = store_primitive realloc mem p prim v
  store_kind mem p (some (TypeDesc.list_desc element)) v = store_list mem p v element
  store_kind mem p (some (TypeDesc.record_desc fields)) v = store_record mem p v fields
  store_kind mem p (some (TypeDesc.variant_desc cases)) v = store_variant mem p v cases
  store_kind mem p (some (TypeDesc.tuple_desc elements)) v = store_tuple mem p v elements
  store_kind mem p (some (TypeDesc.flags_desc names)) v = store_flags mem p v (length names)
  store_kind mem p (some (TypeDesc.enum_desc cases)) v = store_enum mem p v (length cases)
  store_kind mem p (some (TypeDesc.option_desc element)) v = store_option mem p v element
  store_kind mem p (some (TypeDesc.result_desc ok_type err_type)) v =
      store_result mem p v ok_type err_type
  store_kind mem p (some (TypeDesc.own_desc resource)) v = store_uint32 mem p v 4
  store_kind mem p (some (TypeDesc.borrow_desc resource)) v = store_uint32 mem p v 4
  store_kind mem p (some (TypeDesc.stream_desc element)) v = store_uint32 mem p v 4
  store_kind mem p (some (TypeDesc.future_desc element)) v = store_uint32 mem p v 4
  store_kind mem p (some t) v = err (unsupported_type (some t))

-- The fuel bounds the depth of calls, for which the source has no bound.
unfoldable pub store_value : ℕ → Realloc → Resolver → Memory → ℕ → Option TypeDesc → Value → Stored
unfolding store_kind
store_value zero realloc resolve mem p t v = stuck
store_value (suc fuel) realloc resolve mem p t v =
    store_kind realloc resolve (λ after q d w. store_value fuel realloc resolve after q d w) mem p t
      v

unfoldable pub store : ℕ → Memory → ℕ → Option TypeDesc → Value → Resolver → Realloc → Stored
unfolding check_place store_value
store fuel mem p t v resolve realloc =
    check_place mem p t resolve >> store_value fuel realloc resolve mem p t v
