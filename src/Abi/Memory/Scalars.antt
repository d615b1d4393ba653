-- ===== src/Abi/Memory/Scalars.antt =====
-- internal/abi/memory.go: numbers, strings and the other primitives, stored and loaded again.
use component_model.Prelude.{
  ℕ, ◌+◌, ◌-◌, ◌%◌, ◌≤◌, ◌<◌, ◌^◌, ◌≡◌, ◌⊎◌, inl, inr, refl, ap, ◌∙◌, arith, Bool, true, false, not,
  ltb, leb, ◌&&◌, if◌then◌else◌, Result, ok, ◌>>◌, ok-injective, Bool-cases,
}
use mathlib.Core.Path.{subst}
use component_model.Descriptor.{PrimName}
use component_model.Abi.Value.{Value, bool_value, int32_value}
use component_model.Abi.Memory.{
  Memory, MemError, Realloc, check, checked_range, is_word_size, little_endian, put_little_endian,
  load_word, load_int, boxed, sign_extend_from, store_int,
}
use component_model.Abi.Memory.Words.{
  put_little_endian-outside, little_endian-put_little_endian, little_endian-put_one,
  little_endian-put_two, little_endian-agree,
}
use component_model.Abi.Memory.Fits.{IsNegative}
use component_model.Abi.Memory.Load.{load_primitive, load_char}
use component_model.Abi.Memory.Store.{store_char}
use component_model.Abi.Memory.Wrote.{Wrote, Wrote-wider, Live}

-- What a successful check says.
pub check-holds {ℓ} :
    {A : Type ℓ} (b : Bool) (e : MemError) (rest : Result MemError A) {a : A}
    → (check b e >> rest) ≡ ok a
    → (b ≡ true) × (rest ≡ ok a)
check-holds true e rest h = (refl, h)
check-holds false e rest h = cc

-- A store of a number checked its range and its width.
store_int-ok :
    (mem : Memory) (p v n : ℕ) {after : Memory}
    → store_int mem p v n ≡ ok after
    → (p + n ≤ mem.size)
      × (is_word_size n ≡ true)
      × (record mem { byte = put_little_endian n p v mem.byte } ≡ after)
unfolding store_int checked_range
store_int-ok mem p v n e = elim (Bool-cases (ltb mem.size (p + n))) [
  | inl over ↦ absurd (ground arith)
  | inr inside ↦ elim (Bool-cases (is_word_size n)) [
    | inl word ↦ (ground arith, word, ok-injective (rw (inside, word) at e))
    | inr other ↦ absurd (ground arith)
  ]
]

load_word-ok :
    (m : Memory) (p n : ℕ)
    → p + n ≤ m.size
    → is_word_size n ≡ true
    → load_word m p n ≡ ok (little_endian n m.byte p)
unfolding load_word checked_range
load_word-ok m p n inside word = ground arith

module _ (live : ℕ → ℕ → Type 0) where
  pub store_int-Wrote :
      (mem : Memory) (p v n w : ℕ) {after : Memory}
      → little_endian n (put_little_endian n p v mem.byte) p ≡ w
      → Live live mem p (p + n)
      → store_int mem p v n ≡ ok after
      → Wrote live mem after p (p + n) (λ m. load_word m p n ≡ ok w)
  store_int-Wrote mem p v n w back here e =
      let (inside, word, same) = store_int-ok mem p v n e in
      subst (λ after. Wrote live mem after p (p + n) (λ m. load_word m p n ≡ ok w)) same
        (record {
          same_size = refl;
          keeps = λ k l out. put_little_endian-outside n p v mem.byte k out;
          stays_live = λ k l. l;
          reads = λ m size agree.
              load_word-ok m p n (omega (arith, size)) word
              ∙ ap ok (
                  little_endian-agree n p _ _
                    (λ k above under. agree k (here k (above, under)) (inl (above, under)))
                  ∙ back);
        })

  -- The same with what a load makes of the number.
  store_number :
      (mem : Memory) (p v n w : ℕ) {after : Memory} {R : Memory → Type 0}
      → little_endian n (put_little_endian n p v mem.byte) p ≡ w
      → ((m : Memory) → load_word m p n ≡ ok w → R m)
      → Live live mem p (p + n)
      → store_int mem p v n ≡ ok after
      → Wrote live mem after p (p + n) R
  store_number mem p v n w back loads here e =
      Wrote-wider live (omega arith) (omega arith) (λ m size. loads m)
        (store_int-Wrote mem p v n w back here e)

  pub store_unsigned :
      (mem : Memory) (p v n : ℕ) {after : Memory} {R : Memory → Type 0}
      → v < 256 ^ n
      → ((m : Memory) → load_word m p n ≡ ok v → R m)
      → Live live mem p (p + n)
      → store_int mem p v n ≡ ok after
      → Wrote live mem after p (p + n) R
  store_unsigned mem p v n small loads here e =
      store_number mem p v n v (little_endian-put_little_endian n p v mem.byte small) loads here e

  module _ (realloc : Realloc) (mem : Memory) (p : ℕ) (after : Memory) where
    abbrev pub PrimitiveWrote : PrimName → Value → ℕ → Type 0
    PrimitiveWrote prim v s = Wrote live mem after p (p + s) (λ m. load_primitive m p prim ≡ ok v)

    pub store_char-Wrote :
        (r : ℕ)
        → Live live mem p (p + 4)
        → store_char mem p r ≡ ok after
        → PrimitiveWrote PrimName.char (int32_value r) 4
    unfolding store_char load_primitive load_char
    store_char-Wrote r here e =
        let (below, e1) = check-holds (ltb r 0x110000) _ _ e in
        let (whole, e2) = check-holds (not (leb 0xD800 r && leb r 0xDFFF)) _ _ e1 in
        let inside : leb 0x110000 r ≡ false = ground arith in
        let scalar : (leb 0xD800 r && leb r 0xDFFF) ≡ false = ground arith in
        store_unsigned mem p r 4 (ground arith) (λ m l. rw (l, inside, scalar) refl) here e2

    pub store_signed-Wrote :
        (i : ℕ)
        → Live live mem p (p + 2)
        → (i < 2 ^ 15) ⊎ IsNegative 16 i
        → store_int mem p i 2 ≡ ok after
        → PrimitiveWrote PrimName.s16 (int32_value i) 2
    unfolding load_primitive load_int boxed sign_extend_from
    store_signed-Wrote i here fits e =
        let back = little_endian-put_two p i mem.byte in
        let extended : sign_extend_from 16 32 (i % 2 ^ 16) ≡ i = ground arith in
        store_number mem p i 2 (i % 2 ^ 16) back (λ m l. rw (l, extended) refl) here e

    pub store_byte-Wrote :
        (i : ℕ)
        → Live live mem p (p + 1)
        → IsNegative 8 i
        → store_int mem p i 1 ≡ ok after
        → PrimitiveWrote PrimName.s8 (int32_value i) 1
    unfolding load_primitive load_int boxed sign_extend_from
    store_byte-Wrote i here fits e =
        let back = little_endian-put_one p i mem.byte in
        let top : ltb (i % 2 ^ 8) 0x80 ≡ false = ground arith in
        let extended : i % 2 ^ 8 + (2 ^ 32 - 2 ^ 8) ≡ i = ground arith in
        store_number mem p i 1 (i % 2 ^ 8) back (λ m l. rw (l, top, extended) refl) here e

    pub store_bool-Wrote :
        (b : Bool)
        → Live live mem p (p + 1)
        → store_int mem p (if b then 1 else 0) 1 ≡ ok after
        → PrimitiveWrote PrimName.bool (bool_value b) 1
    unfolding load_primitive
    store_bool-Wrote true here e = store_unsigned mem p 1 1 (omega arith) (λ m l. rw l refl) here e
    store_bool-Wrote false here e = store_unsigned mem p 0 1 (omega arith) (λ m l. rw l refl) here e
