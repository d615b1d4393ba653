-- ===== src/Abi/Memory.antt =====
-- internal/abi/memory.go: the linear memory of a guest, the integers in it, and its allocator. The
-- allocator is guest code and a parameter. A memory holds a byte at each address; `size` is the
-- length of the slice that the source works on, and `world` the state that the allocator alone uses.
-- On an error the source leaves the bytes it has written; the callers give up the call, so the model
-- answers with the error only.
pub mod Utf8
pub mod Load
pub mod Store
pub mod Words
pub mod Wrote
pub mod Fits
pub mod Scalars
pub mod Blocks
pub mod Simple
pub mod Fields
pub mod Elements
pub mod Arms
pub mod Cases
pub mod ResultArms
pub mod RoundTrip
pub mod Reads
pub mod Ends
pub mod EndsParts
pub mod EndsStore
pub mod SignedBytes
mod Runs
use Prim.Native.String.{String}
use component_model.Prelude.{
  ℕ, zero, suc, ◌+◌, ◌-◌, ◌*◌, ◌/◌, ◌%◌, ◌^◌, List, [], ◌∷◌, Option, none, some, Bool, true, false,
  ltb, leb, ◌==◌, ◌||◌, ◌&&◌, if◌then◌else◌, Result, ok, err, stuck, ◌>>=◌, ◌>>◌,
}
use component_model.Descriptor.{PrimName, TypeDesc}
use component_model.Abi.Layout.{Error, max_uint32}
use component_model.Abi.Value.{Value, uint32_value, int32_value, uint64_value, int64_value}

pub record Memory : Type 0 where
  pub size : ℕ
  pub byte : ℕ → ℕ
  pub world : ℕ

pub data MemError : Type 0 where
  -- An error of the layout, passed on.
  layout_error : Error → MemError
  misaligned : ℕ → ℕ → MemError
  -- The pointer, the size and the length of the memory.
  buffer_overflow list_overflow string_overflow : ℕ → ℕ → ℕ → MemError
  alloc_out_of_bounds : ℕ → ℕ → MemError
  byte_length_overflow : ℕ → ℕ → MemError
  too_many_elements invalid_nbytes invalid_discriminant char_out_of_range surrogate_half :
      ℕ → MemError
  case_out_of_range : ℕ → ℕ → MemError
  invalid_utf8 : ℕ → ℕ → MemError
  unknown_prim : PrimName → MemError
  unsupported_type : Option TypeDesc → MemError
  -- A value of another Go type than the one that the type calls for.
  unexpected_value : Value → MemError
  wrong_count : ℕ → ℕ → MemError
  needs_payload : ℕ → MemError
  no_realloc : MemError
  realloc_failed : ℕ → MemError
  realloc_misaligned : ℕ → ℕ → MemError
  in_field : String → MemError → MemError
  in_element in_case : ℕ → MemError → MemError
  in_ok in_err in_some in_list in_string in_realloc : MemError → MemError

abbrev pub max_list_elements : ℕ
max_list_elements = 2 ^ 20

-- An error of the layout as one of the memory.
abbrev pub layout {ℓ} : {A : Type ℓ} → Result Error A → Result MemError A
layout (ok a) = ok a
layout (err e) = err (layout_error e)
layout stuck = stuck

-- An early return unless the test holds.
abbrev pub check : Bool → MemError → Result MemError (Unit {0})
check true e = ok tt
check false e = err e

-- The source skips the test when the alignment is 0.
unfoldable pub is_aligned : ℕ → ℕ → Bool
is_aligned p align = align == 0 || p % align == 0

-- `checkedRange`, without the two bounds that it answers, `ptr` and `ptr + size`.
unfoldable pub checked_range : ℕ → ℕ → ℕ → Result MemError (Unit {0})
checked_range mem_len ptr size =
    if ltb mem_len (ptr + size) then err (buffer_overflow ptr size mem_len) else ok tt

unfoldable pub checked_byte_length : ℕ → ℕ → Result MemError ℕ
checked_byte_length length elem_size =
    if ltb max_uint32 (length * elem_size)
    then err (byte_length_overflow length elem_size)
    else ok (length * elem_size)

-- What `cabi_realloc` answers to the old block, the alignment and the new size: a pointer and the
-- memory after it, or an error. `none` is a module that exports no such function.
abbrev pub Realloc : Type 0
Realloc = Option (ℕ → ℕ → ℕ → ℕ → Memory → Result ℕ (ℕ × Memory))

-- The slice that the source holds does not grow with the memory.
abbrev pub reallocated : ℕ → Result ℕ (ℕ × Memory) → Result MemError (ℕ × Memory)
reallocated size (ok (p, after)) = ok (p, record after { size = size })
reallocated size (err e) = err (realloc_failed e)
reallocated size stuck = stuck

unfoldable pub grow : Realloc → ℕ → ℕ → ℕ → ℕ → Memory → Result MemError (ℕ × Memory)
grow none orig_ptr orig_size align new_size mem = err no_realloc
grow (some call) orig_ptr orig_size align new_size mem =
    reallocated mem.size (call orig_ptr orig_size align new_size mem)

-- `n` bytes from an address on as a little-endian number, and back.
unfoldable pub little_endian : ℕ → (ℕ → ℕ) → ℕ → ℕ
little_endian zero byte p = 0
little_endian (suc n) byte p = byte p + 256 * little_endian n byte (p + 1)

unfoldable pub put_little_endian : ℕ → ℕ → ℕ → (ℕ → ℕ) → ℕ → ℕ
put_little_endian zero p v byte = byte
put_little_endian (suc n) p v byte =
    put_little_endian n (p + 1) (v / 256) (λ k. if k == p then v % 256 else byte k)

unfoldable pub is_word_size : ℕ → Bool
is_word_size nbytes = nbytes == 1 || nbytes == 2 || nbytes == 4 || nbytes == 8

-- `readU32LE`, and `loadInt` where the caller takes the number out of the value at once.
unfoldable pub load_word : Memory → ℕ → ℕ → Result MemError ℕ
unfolding is_word_size
load_word mem p nbytes =
    checked_range mem.size p nbytes
    >> (if is_word_size nbytes
        then ok (little_endian nbytes mem.byte p)
        else err (invalid_nbytes nbytes))

-- `int32(int8(b))` and the like: the sign bit is copied up to the width of the target.
unfoldable pub sign_extend_from : ℕ → ℕ → ℕ → ℕ
sign_extend_from bits width v = if ltb v (2 ^ (bits - 1)) then v else v + (2 ^ width - 2 ^ bits)

-- The Go value that `loadInt` makes of the number. A signed byte below 0x80 falls through to the
-- unsigned answer.
unfoldable pub boxed : ℕ → Bool → ℕ → Value
unfolding sign_extend_from
boxed nbytes true v =
    if nbytes == 8
    then int64_value v
    else (if nbytes == 1 && ltb v 0x80
        then uint32_value v
        else int32_value (sign_extend_from (8 * nbytes) 32 v))
boxed nbytes false v = if nbytes == 8 then uint64_value v else uint32_value v

unfoldable pub load_int : Memory → ℕ → ℕ → Bool → Result MemError Value
unfolding load_word boxed
load_int mem p nbytes signed = do v ← load_word mem p nbytes; ok (boxed nbytes signed v)

unfoldable pub store_int : Memory → ℕ → ℕ → ℕ → Result MemError Memory
unfolding is_word_size
store_int mem p v nbytes =
    checked_range mem.size p nbytes
    >> (if is_word_size nbytes
        then ok (record mem { byte = put_little_endian nbytes p v mem.byte })
        else err (invalid_nbytes nbytes))

-- The bytes of a range, and `copy(mem[start:end], bytes)`.
unfoldable pub bytes_of : (ℕ → ℕ) → ℕ → ℕ → List ℕ
bytes_of byte p zero = []
bytes_of byte p (suc n) = byte p ∷ bytes_of byte (p + 1) n

unfoldable pub copy_bytes : ℕ → List ℕ → (ℕ → ℕ) → ℕ → ℕ
copy_bytes p [] byte = byte
copy_bytes p (b ∷ bs) byte = copy_bytes (p + 1) bs (λ k. if k == p then b else byte k)
