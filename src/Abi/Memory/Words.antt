-- ===== src/Abi/Memory/Words.antt =====
-- internal/abi/memory.go: little-endian numbers and byte strings in a memory, put and read back.
use component_model.Prelude.{
  ℕ, zero, suc, ◌+◌, ◌/◌, ◌%◌, ◌^◌, ◌≤◌, ◌<◌, ◌≡◌, ◌⊎◌, inl, refl, ap, ◌∙◌, arith, List, [], ◌∷◌,
  ◌==◌, if◌then◌else◌, length,
}
use native.Mathlib.Nat.{pow-suc}
use component_model.Abi.Memory.{little_endian, put_little_endian, bytes_of, copy_bytes}

-- Outside its range a write changes nothing.
pub put_little_endian-outside :
    (n p v : ℕ) (byte : ℕ → ℕ) (k : ℕ)
    → (k < p) ⊎ (p + n ≤ k)
    → put_little_endian n p v byte k ≡ byte k
unfolding put_little_endian
put_little_endian-outside zero p v byte k h = refl
put_little_endian-outside (suc n) p v byte k h =
    put_little_endian-outside n (p + 1) (v / 256) _ k (grind arith) ∙ ground arith

pub copy_bytes-outside :
    (p : ℕ) (bs : List ℕ) (byte : ℕ → ℕ) (k : ℕ)
    → (k < p) ⊎ (p + length bs ≤ k)
    → copy_bytes p bs byte k ≡ byte k
unfolding copy_bytes
copy_bytes-outside p [] byte k h = refl
copy_bytes-outside p (b ∷ bs) byte k h =
    copy_bytes-outside (p + 1) bs _ k (grind arith) ∙ ground arith

-- What is read depends on the bytes of the range alone.
pub little_endian-agree :
    (n p : ℕ) (byte byte' : ℕ → ℕ)
    → ((k : ℕ) → p ≤ k → k < p + n → byte k ≡ byte' k)
    → little_endian n byte p ≡ little_endian n byte' p
unfolding little_endian
little_endian-agree zero p byte byte' same = refl
little_endian-agree (suc n) p byte byte' same =
    let first = same p (omega arith) (omega arith) in
    let rest =
      little_endian-agree n (p + 1) byte byte'
        (λ k above below. same k (omega arith) (omega arith)) in
    omega (arith, first, rest)

pub bytes_of-agree :
    (n p : ℕ) (byte byte' : ℕ → ℕ)
    → ((k : ℕ) → p ≤ k → k < p + n → byte k ≡ byte' k)
    → bytes_of byte p n ≡ bytes_of byte' p n
unfolding bytes_of
bytes_of-agree zero p byte byte' same = refl
bytes_of-agree (suc n) p byte byte' same =
    let first = same p (omega arith) (omega arith) in
    let rest =
      bytes_of-agree n (p + 1) byte byte' (λ k above below. same k (omega arith) (omega arith)) in
    ap (λ b. b ∷ bytes_of byte (p + 1) n) first ∙ ap (λ bs. byte' p ∷ bs) rest

-- A number that was put is read back, as much of it as the bytes hold.
pub little_endian-put_little_endian :
    (n p v : ℕ) (byte : ℕ → ℕ) → v < 256 ^ n → little_endian n (put_little_endian n p v byte) p ≡ v
unfolding little_endian put_little_endian
little_endian-put_little_endian zero p v byte h = omega arith
little_endian-put_little_endian (suc n) p v byte h =
    let put = λ (k : ℕ). if k == p then v % 256 else byte k in
    let here : put p ≡ v % 256 = ground arith in
    let first = put_little_endian-outside n (p + 1) (v / 256) put p (inl (omega arith)) ∙ here in
    let rest =
      little_endian-put_little_endian n (p + 1) (v / 256) put (omega (arith, pow-suc 256 n)) in
    omega (arith, first, rest)

pub bytes_of-copy_bytes :
    (p : ℕ) (bs : List ℕ) (byte : ℕ → ℕ) → bytes_of (copy_bytes p bs byte) p (length bs) ≡ bs
unfolding bytes_of copy_bytes
bytes_of-copy_bytes p [] byte = refl
bytes_of-copy_bytes p (b ∷ bs) byte =
    let put = λ (k : ℕ). if k == p then b else byte k in
    let here : put p ≡ b = ground arith in
    let first = copy_bytes-outside (p + 1) bs put p (inl (omega arith)) ∙ here in
    ap (λ c. c ∷ bytes_of (copy_bytes (p + 1) bs put) (p + 1) (length bs)) first
    ∙ ap (λ cs. b ∷ cs) (bytes_of-copy_bytes (p + 1) bs put)

-- Of a number that is too large the low bytes are put.
pub little_endian-put_one :
    (p v : ℕ) (byte : ℕ → ℕ) → little_endian 1 (put_little_endian 1 p v byte) p ≡ v % 256
unfolding little_endian put_little_endian
little_endian-put_one p v byte =
    let put = λ (k : ℕ). if k == p then v % 256 else byte k in
    let here : put p ≡ v % 256 = ground arith in omega (arith, here)

pub little_endian-put_two :
    (p v : ℕ) (byte : ℕ → ℕ) → little_endian 2 (put_little_endian 2 p v byte) p ≡ v % 256 ^ 2
unfolding little_endian put_little_endian
little_endian-put_two p v byte =
    let put = λ (k : ℕ). if k == p then v % 256 else byte k in
    let here : put p ≡ v % 256 = ground arith in
    let first = put_little_endian-outside 1 (p + 1) (v / 256) put p (inl (omega arith)) in
    let second = little_endian-put_one (p + 1) (v / 256) put in omega (arith, here, first, second)
