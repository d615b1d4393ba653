-- ===== src/Abi/Memory/Ends.antt =====
-- internal/abi/memory.go: the numbers, the strings and the blocks of a store come to an end, if the
-- allocator of the guest does.
use component_model.Prelude.{
  ℕ, ◌+◌, ◌*◌, ◌>>◌, List, none, some, Bool, true, false, not, ltb, leb, ◌&&◌, if◌then◌else◌,
  Result, ok, err, stuck, Ends, Ends-bind, Ends-wrap,
}
use component_model.Descriptor.{PrimName}
use component_model.Abi.Layout.{Error, max_uint32}
use component_model.Abi.Layout.EndsAlign.{checked_add-Ends, flags_width-Ends, size_enum-Ends}
use component_model.Abi.Value.{
  Value, uint32_value, int32_value, uint64_value, int64_value, string_value, bool_value,
  float32_value, float64_value,
}
use component_model.Abi.Memory.{
  Memory, MemError, Realloc, layout, check, checked_byte_length, grow, reallocated, store_int,
  checked_range, is_word_size,
}
use component_model.Abi.Memory.Store.{
  alloc_store_bytes, store_pair, store_string, store_char, store_uint32, store_int32,
  store_primitive, store_flags, store_enum, length32,
}

-- The allocator of the guest comes back from every call.
abbrev pub Answers : Realloc → Type 0
Answers none = Unit {0}
Answers (some call) =
    (old old_size align n : ℕ) (mem : Memory) → Ends (call old old_size align n mem)

pub check-Ends {ℓ} :
    {A : Type ℓ} (b : Bool) (e : MemError) (r : Result MemError A) → Ends r → Ends (check b e >> r)
check-Ends true e r h = h
check-Ends false e r h = tt

pub layout-Ends {ℓ} : {A : Type ℓ} (r : Result Error A) → Ends r → Ends (layout r)
layout-Ends (ok a) h = tt
layout-Ends (err e) h = tt
layout-Ends stuck h = absurd h

pub if-Ends {ℓ κ} :
    {E : Type ℓ} {A : Type κ} (b : Bool) (r s : Result E A)
    → Ends r
    → Ends s
    → Ends (if b then r else s)
if-Ends true r s hr hs = hr
if-Ends false r s hr hs = hs

checked_range-Ends : (mem_len p n : ℕ) → Ends (checked_range mem_len p n)
unfolding checked_range
checked_range-Ends mem_len p n = if-Ends (ltb mem_len (p + n)) _ _ tt tt

pub store_int-Ends : (mem : Memory) (p v nbytes : ℕ) → Ends (store_int mem p v nbytes)
unfolding store_int
store_int-Ends mem p v nbytes =
    Ends-bind (checked_range mem.size p nbytes) _ (checked_range-Ends mem.size p nbytes)
      λ u e. if-Ends (is_word_size nbytes) _ _ tt tt

pub checked_byte_length-Ends : (n s : ℕ) → Ends (checked_byte_length n s)
unfolding checked_byte_length
checked_byte_length-Ends n s = if-Ends (ltb max_uint32 (n * s)) _ _ tt tt

pub store_pair-Ends :
    (on_store label : MemError → MemError) (mem : Memory) (p first second : ℕ)
    → Ends (store_pair on_store label mem p first second)
unfolding store_pair
store_pair-Ends on_store label mem p first second =
    Ends-bind _ _ (Ends-wrap _ _ (store_int-Ends mem p first 4)) λ after e.
      Ends-bind _ _ (Ends-wrap _ _ (layout-Ends _ (checked_add-Ends p 4)))
        λ q e1. Ends-wrap _ _ (store_int-Ends after q second 4)

pub store_uint32-Ends : (mem : Memory) (p : ℕ) (v : Value) (n : ℕ) → Ends (store_uint32 mem p v n)
unfolding store_uint32
store_uint32-Ends mem p (uint32_value u) n = store_int-Ends mem p u n
store_uint32-Ends mem p v n = tt

store_int32-Ends : (mem : Memory) (p : ℕ) (v : Value) (n : ℕ) → Ends (store_int32 mem p v n)
unfolding store_int32
store_int32-Ends mem p (int32_value i) n = store_int-Ends mem p i n
store_int32-Ends mem p v n = tt

pub store_flags-Ends : (mem : Memory) (p : ℕ) (v : Value) (n : ℕ) → Ends (store_flags mem p v n)
unfolding store_flags
store_flags-Ends mem p (uint32_value bits) n =
    Ends-bind _ _ (layout-Ends _ (flags_width-Ends n)) λ s e. store_int-Ends mem p bits s
store_flags-Ends mem p v n = tt

pub store_enum-Ends : (mem : Memory) (p : ℕ) (v : Value) (n : ℕ) → Ends (store_enum mem p v n)
unfolding store_enum
store_enum-Ends mem p (uint32_value idx) n =
    check-Ends (ltb idx n) _ _
      (Ends-bind _ _ (layout-Ends _ (size_enum-Ends n)) λ s e1. store_int-Ends mem p idx s)
store_enum-Ends mem p v n = tt

store_char-Ends : (mem : Memory) (p r : ℕ) → Ends (store_char mem p r)
unfolding store_char
store_char-Ends mem p r =
    check-Ends (ltb r 0x110000) _ _
      (check-Ends (not (leb 0xD800 r && leb r 0xDFFF)) _ _ (store_int-Ends mem p r 4))

reallocated-Ends : (n : ℕ) (r : Result ℕ (ℕ × Memory)) → Ends r → Ends (reallocated n r)
reallocated-Ends n (ok (q, m)) h = tt
reallocated-Ends n (err e) h = tt
reallocated-Ends n stuck h = absurd h

grow_from :
    (realloc : Realloc)
    → Answers realloc
    → (old old_size align n : ℕ) (mem : Memory) → Ends (grow realloc old old_size align n mem)
unfolding grow
grow_from none answers old old_size align n mem = tt
grow_from (some call) answers old old_size align n mem =
    reallocated-Ends mem.size (call old old_size align n mem) (answers old old_size align n mem)

module _ (realloc : Realloc) (answers : Answers realloc) where
  pub grow-Ends :
      (old old_size align n : ℕ) (mem : Memory) → Ends (grow realloc old old_size align n mem)
  grow-Ends old old_size align n mem = grow_from realloc answers old old_size align n mem

  store_string-Ends : (mem : Memory) (p : ℕ) (s : List ℕ) → Ends (store_string realloc mem p s)
  unfolding store_string alloc_store_bytes
  store_string-Ends mem p s =
      Ends-bind _ _
        (Ends-wrap _ _ (
          Ends-bind _ _ (Ends-wrap _ _ (grow-Ends 0 0 1 (length32 s) mem))
            λ (q, m) e. check-Ends (not (ltb m.size (q + length32 s))) _ (ok _) tt))
        λ (q, after) e. store_pair-Ends _ _ after p q _

  pub store_primitive-Ends :
      (mem : Memory) (p : ℕ) (prim : PrimName) (v : Value)
      → Ends (store_primitive realloc mem p prim v)
  unfolding store_primitive
  store_primitive-Ends mem p PrimName.bool (bool_value b) = store_int-Ends mem p _ 1
  store_primitive-Ends mem p PrimName.u8 v = store_uint32-Ends mem p v _
  store_primitive-Ends mem p PrimName.u16 v = store_uint32-Ends mem p v _
  store_primitive-Ends mem p PrimName.u32 v = store_uint32-Ends mem p v _
  store_primitive-Ends mem p PrimName.s8 v = store_int32-Ends mem p v _
  store_primitive-Ends mem p PrimName.s16 v = store_int32-Ends mem p v _
  store_primitive-Ends mem p PrimName.s32 v = store_int32-Ends mem p v _
  store_primitive-Ends mem p PrimName.u64 (uint64_value u) = store_int-Ends mem p u 8
  store_primitive-Ends mem p PrimName.s64 (int64_value i) = store_int-Ends mem p i 8
  store_primitive-Ends mem p PrimName.f32 (float32_value bits) = store_int-Ends mem p bits 4
  store_primitive-Ends mem p PrimName.f64 (float64_value bits) = store_int-Ends mem p bits 8
  store_primitive-Ends mem p PrimName.char (int32_value r) = store_char-Ends mem p r
  store_primitive-Ends mem p PrimName.string (string_value t) = store_string-Ends mem p t
  store_primitive-Ends mem p PrimName.error_context v = store_uint32-Ends mem p v 4
  store_primitive-Ends mem p prim v = tt
