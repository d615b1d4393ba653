-- ===== src/Leb128/Signed/Excess.antt =====
-- What the overflow checks of internal/leb128/leb128.go do not look at.
use component_model.Prelude.{
  ℕ, ◌+◌, ◌≤◌, ◌<◌, ◌≡◌, refl, List, ◌∷◌, arith, bit_and, bit_or, sym, ◌∙◌,
}
use component_model.Prelude.Bits.{top_bit, agree_below, agree_below→eq, low_seven}
use component_model.Leb128.Signed.{load_int32, load_int32_loop, int32_finish, shl}

abbrev Continues : ℕ → Type 0
Continues b = (128 ≤ b) × (b < 256)

unused_same : (e : ℕ) → e < 64 → bit_and (e + 64) 0b00110000 ≡ bit_and e 0b00110000
unfolding agree_below
unused_same = agree_below→eq (λ e. bit_and (e + 64) 0b00110000) (λ e. bit_and e 0b00110000) 64 refl

-- The fifth byte of an int32 contributes bits 0 to 3 and its bits 4 and 5 are checked; bit 6 is
-- neither used nor checked.
fifth_byte :
    (e : ℕ) (rest : List ℕ) (ret : ℕ)
    → e < 64
    → load_int32_loop ((e + 64) ∷ rest) 4 28 ret ≡ load_int32_loop (e ∷ rest) 4 28 ret
unfolding load_int32_loop int32_finish
fifth_byte e rest ret h =
    ground (arith, unused_same e h, low_seven e, low_seven (e + 64), top_bit e, top_bit (e + 64))

-- A byte with its top bit set only adds its group.
continued32 :
    (b : ℕ) (buf : List ℕ) (i s ret : ℕ)
    → Continues b
    → load_int32_loop (b ∷ buf) i s ret
      ≡ load_int32_loop buf (i + 1) (s + 7) (bit_or ret (shl 32 (bit_and b 0x7f) s))
unfolding load_int32_loop
continued32 b buf i s ret h = ground (arith, top_bit b)

abbrev group32 : ℕ → ℕ → ℕ → ℕ
group32 ret b s = bit_or ret (shl 32 (bit_and b 0x7f) s)

four_groups : ℕ → ℕ → ℕ → ℕ → ℕ
four_groups a b c d = group32 (group32 (group32 (group32 0 a 0) b 7) c 14) d 21

after_four :
    (a b c d : ℕ) (buf : List ℕ)
    → Continues a
    → Continues b
    → Continues c
    → Continues d
    → load_int32 (a ∷ b ∷ c ∷ d ∷ buf) ≡ load_int32_loop buf 4 28 (four_groups a b c d)
unfolding load_int32 four_groups
after_four a b c d buf ha hb hc hd =
    continued32 a (b ∷ c ∷ d ∷ buf) 0 0 0 ha
    ∙ continued32 b (c ∷ d ∷ buf) 1 7 (group32 0 a 0) hb
    ∙ continued32 c (d ∷ buf) 2 14 (group32 (group32 0 a 0) b 7) hc
    ∙ continued32 d buf 3 21 (group32 (group32 (group32 0 a 0) b 7) c 14) hd

-- `LoadInt32` does not look at bit 6 of a fifth byte: after four bytes with the top bit set it
-- answers the same with the bit set as with the bit clear.
pub load_int32-excess :
    (a b c d e : ℕ) (rest : List ℕ)
    → Continues a
    → Continues b
    → Continues c
    → Continues d
    → e < 64
    → load_int32 (a ∷ b ∷ c ∷ d ∷ (e + 64) ∷ rest) ≡ load_int32 (a ∷ b ∷ c ∷ d ∷ e ∷ rest)
load_int32-excess a b c d e rest ha hb hc hd he =
    after_four a b c d ((e + 64) ∷ rest) ha hb hc hd
    ∙ fifth_byte e rest (four_groups a b c d) he
    ∙ sym (after_four a b c d (e ∷ rest) ha hb hc hd)
