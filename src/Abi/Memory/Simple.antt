-- ===== src/Abi/Memory/Simple.antt =====
-- internal/abi/memory.go: `storePrimitive`, `storeString`, `storeFlags`, `storeEnum` and handles, and
-- the loads that go with them.
use component_model.Prelude.{
  ℕ, ◌+◌, ◌%◌, ◌<◌, ◌^◌, ◌≡◌, inl, inr, refl, sym, arith, List, some, true, false, ltb, leb, ◌==◌,
  Result, ok, length, ok-bind, ok-injective, Option-cases, wrap, wrap-eq-ok,
}
use mathlib.Core.Path.{subst}
use component_model.Descriptor.{PrimName}
use component_model.Abi.Layout.{Error, size_primitive, flags_width, discriminant_type}
use component_model.Abi.Layout.Size.{size_enum_num_cases}
use component_model.Abi.Value.{
  Value, uint32_value, string_value, bool_value, int32_value, uint64_value, int64_value,
  float32_value, float64_value,
}
use component_model.Abi.Memory.{Memory, Realloc, in_string, load_int, boxed, sign_extend_from}
use component_model.Abi.Memory.Utf8.{utf8_valid}
use component_model.Abi.Memory.Fits.{FitsPrimitive, FitsHandle, FitsFlags, FitsEnum}
use component_model.Abi.Memory.Load.{
  load_primitive, load_string, load_string_from_range, load_flags, load_enum,
}
use component_model.Abi.Memory.Store.{
  store_primitive, store_string, alloc_store_bytes, length32, store_uint32, store_int32,
  store_flags, store_enum, int_byte_size,
}
use component_model.Abi.Memory.Wrote.{Wrote, Wrote-then, Wrote-wider, Fresh, Live}
use component_model.Abi.Memory.Scalars.{
  check-holds, store_unsigned, store_char-Wrote, store_signed-Wrote, store_byte-Wrote,
  store_bool-Wrote,
}
use component_model.Abi.Memory.Blocks.{store_pair-Wrote, alloc_store_bytes-Wrote}

flags_width-narrow : (n s : ℕ) → flags_width n ≡ ok s → (s == 8) ≡ false
unfolding flags_width
flags_width-narrow n s e = ground arith

-- The discriminant is wide enough for every case.
pub discriminant-covers :
    (n idx s : ℕ) → size_primitive (discriminant_type n) ≡ ok s → idx < n → idx < 256 ^ s
unfolding discriminant_type size_primitive
discriminant-covers n idx s e below = ground arith

size_enum-covers : (n idx s : ℕ) → size_enum_num_cases n ≡ ok s → idx < n → idx < 256 ^ s
unfolding size_enum_num_cases
size_enum-covers n idx s e below = elim (Option-cases (discriminant_type n)) [
  | inl absent ↦ absurd (ground arith)
  | inr (disc, present) ↦
      discriminant-covers n idx s (rw present (rw (size_enum_num_cases, present) at e)) below
]

module _ (live : ℕ → ℕ → Type 0) (realloc : Realloc) (fresh : Fresh live realloc) where
  store_string-Wrote :
      (mem : Memory) (p : ℕ) (s : List ℕ) (after : Memory)
      → length s < 2 ^ 32
      → utf8_valid s ≡ true
      → Live live mem p (p + 8)
      → store_string realloc mem p s ≡ ok after
      → Wrote live mem after p (p + 8) (λ m. load_string m p ≡ ok (string_value s))
  unfolding store_string load_string length32 load_string_from_range
  store_string-Wrote mem p s after small valid here e =
      ok-bind (wrap in_string (alloc_store_bytes realloc mem s)) _ e λ (q, m1) allocated rest.
        let whole : length s % 2 ^ 32 ≡ length s = omega arith in
        let (pointer, block) =
          alloc_store_bytes-Wrote live realloc mem p s q m1 fresh small
            (wrap-eq-ok in_string _ allocated) in
        let pair =
          store_pair-Wrote live in_string in_string in_string m1 p q (length s) pointer small
            (λ k within. block.stays_live k (here k within)) (rw whole at rest) in
        Wrote-wider live (omega arith) (omega arith)
          (λ m size ((inside, bytes), found).
            let fits : ltb m.size (q + length s) ≡ false = ground arith in
            rw (found, fits, bytes, valid) refl)
          (Wrote-then live here (omega arith, omega arith, omega arith, omega arith)
            (inl (omega arith)) block pair)

  module _ (mem : Memory) (p : ℕ) (after : Memory) where
    -- A size that is known in advance.
    pub at_size :
        {R : Memory → Type 0} {n s : ℕ}
        → ◌≡◌ {A = Result Error ℕ} (ok n) (ok s)
        → Live live mem p (p + s)
        → (Live live mem p (p + n) → Wrote live mem after p (p + n) R)
        → Wrote live mem after p (p + s) R
    at_size {R} {n} {s} sized here w =
        let same = ok-injective sized in
        subst (λ k. Wrote live mem after p (p + k) R) same
          (w (subst (λ k. Live live mem p (p + k)) (sym same) here))

    pub store_handle-Wrote :
        (v : Value)
        → FitsHandle v
        → Live live mem p (p + 4)
        → store_uint32 mem p v 4 ≡ ok after
        → Wrote live mem after p (p + 4) (λ m. load_int m p 4 false ≡ ok v)
    unfolding store_uint32 load_int boxed
    store_handle-Wrote (uint32_value u) fits here e =
        store_unsigned live mem p u 4 fits (λ m l. rw l refl) here e
    store_handle-Wrote v fits here e = cc

    extend_whole : (i : ℕ) → i < 2 ^ 32 → sign_extend_from 32 32 i ≡ i
    unfolding sign_extend_from
    extend_whole i small = ground arith

    pub store_primitive-Wrote :
        (prim : PrimName) (v : Value) (s : ℕ)
        → FitsPrimitive prim v
        → size_primitive (some prim) ≡ ok s
        → Live live mem p (p + s)
        → store_primitive realloc mem p prim v ≡ ok after
        → Wrote live mem after p (p + s) (λ m. load_primitive m p prim ≡ ok v)
    unfolding FitsPrimitive size_primitive store_primitive load_primitive store_uint32 store_int32
        int_byte_size load_int boxed
    store_primitive-Wrote PrimName.u8 (uint32_value u) s fits sized here e =
        at_size sized here λ h. store_unsigned live mem p u 1 fits (λ m l. rw l refl) h e
    store_primitive-Wrote PrimName.u16 (uint32_value u) s fits sized here e =
        at_size sized here λ h. store_unsigned live mem p u 2 fits (λ m l. rw l refl) h e
    store_primitive-Wrote PrimName.u32 (uint32_value u) s fits sized here e =
        at_size sized here λ h. store_unsigned live mem p u 4 fits (λ m l. rw l refl) h e
    store_primitive-Wrote PrimName.s32 (int32_value i) s fits sized here e =
        at_size sized here
          λ h. store_unsigned live mem p i 4 fits (λ m l. rw (l, extend_whole i fits) refl) h e
    store_primitive-Wrote PrimName.u64 (uint64_value u) s fits sized here e =
        at_size sized here λ h. store_unsigned live mem p u 8 fits (λ m l. rw l refl) h e
    store_primitive-Wrote PrimName.s64 (int64_value i) s fits sized here e =
        at_size sized here λ h. store_unsigned live mem p i 8 fits (λ m l. rw l refl) h e
    store_primitive-Wrote PrimName.f32 (float32_value b) s fits sized here e =
        at_size sized here λ h. store_unsigned live mem p b 4 fits (λ m l. rw l refl) h e
    store_primitive-Wrote PrimName.f64 (float64_value b) s fits sized here e =
        at_size sized here λ h. store_unsigned live mem p b 8 fits (λ m l. rw l refl) h e
    store_primitive-Wrote PrimName.error_context (uint32_value u) s fits sized here e =
        at_size sized here λ h. store_unsigned live mem p u 4 fits (λ m l. rw l refl) h e
    store_primitive-Wrote PrimName.bool (bool_value i) s fits sized here e =
        at_size sized here λ h. store_bool-Wrote live realloc mem p after i h e
    store_primitive-Wrote PrimName.s8 (int32_value i) s fits sized here e =
        at_size sized here λ h. store_byte-Wrote live realloc mem p after i h fits e
    store_primitive-Wrote PrimName.s16 (int32_value i) s fits sized here e =
        at_size sized here λ h. store_signed-Wrote live realloc mem p after i h fits e
    store_primitive-Wrote PrimName.char (int32_value i) s fits sized here e =
        at_size sized here λ h. store_char-Wrote live realloc mem p after i h e
    store_primitive-Wrote PrimName.string (string_value bs) s (small, valid) sized here e =
        at_size sized here λ h. store_string-Wrote mem p bs after small valid h e
    store_primitive-Wrote prim v s fits sized here e = absurd fits

    pub store_flags-Wrote :
        (num_labels : ℕ) (v : Value) (s : ℕ)
        → FitsFlags num_labels v
        → flags_width num_labels ≡ ok s
        → Live live mem p (p + s)
        → store_flags mem p v num_labels ≡ ok after
        → Wrote live mem after p (p + s) (λ m. load_flags m p num_labels ≡ ok v)
    unfolding store_flags load_flags load_int boxed
    store_flags-Wrote num_labels (uint32_value bits) s fits sized here e =
        let narrow : (s == 8) ≡ false = flags_width-narrow num_labels s sized in
        store_unsigned live mem p bits s (rw sized at fits) (λ m l. rw (sized, l, narrow) refl) here
          (rw sized at e)
    store_flags-Wrote num_labels v s fits sized here e = cc

    pub store_enum-Wrote :
        (num_cases : ℕ) (v : Value) (s : ℕ)
        → FitsEnum v
        → size_enum_num_cases num_cases ≡ ok s
        → Live live mem p (p + s)
        → store_enum mem p v num_cases ≡ ok after
        → Wrote live mem after p (p + s) (λ m. load_enum m p num_cases ≡ ok v)
    unfolding store_enum load_enum
    store_enum-Wrote num_cases (uint32_value idx) s fits sized here e =
        let (below, rest) = check-holds (ltb idx num_cases) _ _ e in
        let inside : leb num_cases idx ≡ false = ground arith in
        let small = size_enum-covers num_cases idx s sized (ground arith) in
        store_unsigned live mem p idx s small (λ m l. rw (sized, l, inside) refl) here
          (rw sized at rest)
    store_enum-Wrote num_cases v s fits sized here e = cc
