-- ===== src/Leb128/Load64.antt =====
-- `LoadUint64` of internal/leb128/leb128.go on any bytes.
use component_model.Prelude.{
  ℕ, zero, suc, ◌+◌, ◌*◌, ◌%◌, ◌^◌, ◌≤◌, ◌<◌, ◌≡◌, refl, ap, ◌∙◌, List, [], ◌∷◌, err, arith, All,
  some, lt-cases, inl, inr,
}
use component_model.Prelude.Bits.{low_seven}
use component_model.Leb128.{overflow64, IsByte, load_uint64_loop, load_uint64}
use component_model.Leb128.Spelled.{
  spelled, bounded, shifted, shifted_next, shifted_zero, spelled_end, spelled_go, bounded-cons,
  or_group, group_fits, pow_mono,
}

load_uint64_last :
    (k b : ℕ) (buf : List ℕ) (i s ret : ℕ)
    → b < 128
    → i ≤ 9
    → s ≡ 7 * i
    → ret < 2 ^ s
    → load_uint64_loop (suc k) (b ∷ buf) i s ret
      ≡ bounded overflow64 (2 ^ 64) (suc k) (b ∷ buf) (shifted i s ret (some (b, 1)))
unfolding load_uint64_loop
load_uint64_last k b buf i s ret hb hi hs hr = elim (lt-cases i 9) [
  | inl early ↦
      ground
        (arith, group_fits s ret b hb hr, pow_mono (s + 7) 63 (omega arith), or_group 64 s ret b hr)
  | inr late ↦
      let e : s ≡ 63 = omega arith in
      ground (arith, ap (λ (t : ℕ). 2 ^ t) e, ap (λ (t : ℕ). b * 2 ^ t) e, or_group 64 s ret b hr)
]

load_uint64_inner :
    (k b : ℕ) (buf : List ℕ) (i s ret : ℕ)
    → IsByte b
    → 128 ≤ b
    → i ≤ 8
    → s ≡ 7 * i
    → ret < 2 ^ s
    → load_uint64_loop (suc k) (b ∷ buf) i s ret
      ≡ load_uint64_loop k buf (i + 1) (s + 7) (ret + b % 128 * 2 ^ s)
unfolding load_uint64_loop
load_uint64_inner k b buf i s ret hb h hi hs hr = ground (
  arith,
  low_seven b,
  group_fits s ret (b % 128) (omega arith) hr,
  pow_mono (s + 7) 63 (omega arith),
  or_group 64 s ret (b % 128) hr,
)

-- On the last round a byte with its top bit set ends the loop with an overflow.
load_uint64_cut :
    (b : ℕ) (buf : List ℕ) (i s ret : ℕ)
    → 128 ≤ b
    → load_uint64_loop 1 (b ∷ buf) i s ret ≡ err overflow64
unfolding load_uint64_loop
load_uint64_cut b buf i s ret h = ground arith

load_uint64_loop-bounded :
    (k : ℕ) (buf : List ℕ) (i s ret : ℕ)
    → All IsByte buf
    → k + i ≡ 10
    → s ≡ 7 * i
    → ret < 2 ^ s
    → load_uint64_loop k buf i s ret
      ≡ bounded overflow64 (2 ^ 64) k buf (shifted i s ret (spelled k buf))
load_uint64_loop-bounded zero buf i s ret hb hk hs hr =
    unfold load_uint64_loop spelled in ground arith
load_uint64_loop-bounded (suc k) [] i s ret hb hk hs hr =
    unfold load_uint64_loop spelled in ground arith
load_uint64_loop-bounded (suc zero) (b ∷ buf) i s ret hb hk hs hr = elim (lt-cases b 128) [
  | inl ends ↦
      rw (spelled_end zero b buf ends)
        (load_uint64_last zero b buf i s ret ends (omega arith) hs hr)
  | inr goes ↦
      rw (spelled_go zero b buf goes, load_uint64_cut b buf i s ret goes)
        (unfold spelled in ground arith)
]
load_uint64_loop-bounded (suc (suc k)) (b ∷ buf) i s ret hb hk hs hr = elim (lt-cases b 128) [
  | inl ends ↦
      rw (spelled_end (suc k) b buf ends)
        (load_uint64_last (suc k) b buf i s ret ends (omega arith) hs hr)
  | inr goes ↦
      rw (spelled_go (suc k) b buf goes, shifted_next i s ret b (spelled (suc k) buf))
        (load_uint64_inner (suc k) b buf i s ret hb.0 goes (omega arith) hs hr
          ∙ load_uint64_loop-bounded (suc k) buf (i + 1) (s + 7) (ret + b % 128 * 2 ^ s) hb.1
              (omega arith) (omega arith) (group_fits s ret (b % 128) (omega arith) hr)
          ∙ bounded-cons overflow64 (2 ^ 64) (suc k) b buf
              (shifted (i + 1) (s + 7) (ret + b % 128 * 2 ^ s) (spelled (suc k) buf)))
]

-- `LoadUint64` on any bytes: if one of the first 10 has its top bit clear, the number that the
-- bytes up to it spell and their count, or an overflow if the number is 2 ^ 64 or more; else end
-- of file if there are fewer than 10 bytes, and an overflow if not.
pub load_uint64-bounded :
    (buf : List ℕ)
    → All IsByte buf
    → load_uint64 buf ≡ bounded overflow64 (2 ^ 64) 10 buf (spelled 10 buf)
unfolding load_uint64
load_uint64-bounded [] h = unfold spelled in refl
load_uint64-bounded (b ∷ buf) h =
    load_uint64_loop-bounded 10 (b ∷ buf) 0 0 0 h refl refl (omega arith)
    ∙ ap (bounded overflow64 (2 ^ 64) 10 (b ∷ buf)) (shifted_zero (spelled 10 (b ∷ buf)))
