-- ===== src/Abi/Memory/SignedBytes.antt =====
-- internal/abi/memory.go: `loadInt` on a signed byte that is not negative.
use component_model.Prelude.{ℕ, ◌+◌, ◌*◌, ◌≤◌, ◌<◌, ◌≡◌, refl, arith, true, false, ltb, ok, err}
use component_model.Descriptor.{PrimName}
use component_model.Abi.Value.{uint32_value}
use component_model.Abi.Memory.{
  Memory, Realloc, unexpected_value, checked_range, is_word_size, little_endian, load_word, boxed,
  load_int,
}
use component_model.Abi.Memory.Load.{load_primitive}
use component_model.Abi.Memory.Store.{store_int32, store_primitive}

-- A load of an s8 gives a byte below 128 as a uint32, at every place inside the memory, and a
-- store of an s8 refuses that value, whatever the memory.
pub load-signed_byte :
    (realloc : Realloc) (mem other : Memory) (p q : ℕ)
    → p + 1 ≤ mem.size
    → mem.byte p < 128
    → (load_primitive mem p PrimName.s8 ≡ ok (uint32_value (mem.byte p)))
      × (store_primitive realloc other q PrimName.s8 (uint32_value (mem.byte p))
          ≡ err (unexpected_value (uint32_value (mem.byte p))))
unfolding load_primitive load_int load_word checked_range little_endian boxed is_word_size
    store_primitive store_int32
load-signed_byte realloc mem other p q inside small =
    let fits : ltb mem.size (p + 1) ≡ false = ground arith in
    let one_byte : mem.byte p + 256 * 0 ≡ mem.byte p = omega arith in
    let low : ltb (mem.byte p) 0x80 ≡ true = ground arith in (rw (fits, one_byte, low) refl, refl)
