-- ===== src/Prelude/Bits.antt =====
-- `bit_and` and `bit_or` as arithmetic: tables over a byte, and the law of `bit_or` for two
-- numbers whose bits do not meet.
use Prim.Native.Nat.{
  ℕ, zero, suc, ◌+◌, ◌-◌, ◌*◌, ◌/◌, ◌%◌, ◌^◌, ◌≤◌, ◌<◌, min, max, bit_and, bit_or, digits,
  bit_or-bitwise, bit_and-bitwise,
}
use mathlib.Core.Path.{◌≡◌, refl, sym, ap, ◌∙◌}
use mathlib.Core.Bool.{Bool, true, ◌&&◌}
use native.Mathlib.Omega.{arith}
use native.Mathlib.Nat.{pow-suc}
use component_model.Prelude.Tests.{◌==◌}

-- Two functions agree on every number below a bound, checked by evaluation.
module _ (f g : ℕ → ℕ) where
  unfoldable pub agree_below : ℕ → Bool
  agree_below zero = true
  agree_below (suc n) = (f n == g n) && agree_below n

  pub agree_below→eq : (n : ℕ) → agree_below n ≡ true → (i : ℕ) → i < n → f i ≡ g i
  unfolding agree_below
  agree_below→eq zero e i h = absurd (omega arith)
  agree_below→eq (suc n) e i h = ground (arith, agree_below→eq n (ground arith) i)

pub low_seven : (b : ℕ) → b < 256 → bit_and b 0x7f ≡ b % 128
unfolding agree_below
low_seven = agree_below→eq _ _ 256 refl

pub top_bit : (b : ℕ) → b < 256 → bit_and b 0x80 ≡ b / 128 * 128
unfolding agree_below
top_bit = agree_below→eq _ _ 256 refl

pub sign_bit : (b : ℕ) → b < 256 → bit_and b 0x40 ≡ b / 64 % 2 * 64
unfolding agree_below
sign_bit = agree_below→eq _ _ 256 refl

pub high_nibble : (b : ℕ) → b < 256 → bit_and b 0xf0 ≡ b / 16 * 16
unfolding agree_below
high_nibble = agree_below→eq _ _ 256 refl

pub set_top_bit : (b : ℕ) → b < 128 → bit_or b 0x80 ≡ b + 128
unfolding agree_below
set_top_bit = agree_below→eq _ _ 128 refl

-- The recursion that the operations stand for, on the fuel `n`: fuel beyond the first number
-- changes nothing, and so the lowest digit splits off.
module _ (tail : ℕ → ℕ) (bit : ℕ → ℕ → ℕ) where
  one_more_round : (n x y : ℕ) → x ≤ n → digits tail bit (suc n) x y ≡ digits tail bit n x y
  one_more_round zero zero y below = refl
  one_more_round zero (suc x) y below = absurd (omega arith)
  one_more_round (suc n) zero y below = refl
  one_more_round (suc n) (suc x) y below =
      ap (λ (rest : ℕ). rest * 2 + bit (suc x % 2) (y % 2))
        (one_more_round n (suc x / 2) (y / 2) (omega arith))

  more_rounds : (k n x y : ℕ) → x ≤ n → digits tail bit (k + n) x y ≡ digits tail bit n x y
  more_rounds zero n x y below = let none_more : 0 + n ≡ n = omega arith in rw none_more refl
  more_rounds (suc k) n x y below =
      let one_first : suc k + n ≡ suc (k + n) = omega arith in
      rw one_first (one_more_round (k + n) x y (omega arith) ∙ more_rounds k n x y below)

  lowest_digit :
      (x y : ℕ)
      → digits tail bit (suc x) (suc x) y
        ≡ digits tail bit (suc x / 2) (suc x / 2) (y / 2) * 2 + bit (suc x % 2) (y % 2)
  lowest_digit x y =
      let split : x - suc x / 2 + suc x / 2 ≡ x = omega arith in
      let rounds =
        rw split at (more_rounds (x - suc x / 2) (suc x / 2) (suc x / 2) (y / 2) (omega arith)) in
      ap (λ (rest : ℕ). rest * 2 + bit (suc x % 2) (y % 2)) rounds

or_zero : (y : ℕ) → bit_or 0 y ≡ y
or_zero = bit_or-bitwise 0

or_split : (x y : ℕ) → bit_or x y ≡ bit_or (x / 2) (y / 2) * 2 + max (x % 2) (y % 2)
or_split zero y = omega (arith, or_zero y, or_zero (y / 2))
or_split (suc x) y =
    bit_or-bitwise (suc x) y
    ∙ lowest_digit (λ d. d) max x y
    ∙ ap (λ (rest : ℕ). rest * 2 + max (suc x % 2) (y % 2))
        (sym (bit_or-bitwise (suc x / 2) (y / 2)))

double_shift : (b s : ℕ) → b * 2 ^ suc s ≡ b * 2 ^ s * 2
double_shift b s = omega (arith, ap (λ (t : ℕ). b * t) (pow-suc 2 s))

half_shift : (b s : ℕ) → b * 2 ^ suc s / 2 ≡ b * 2 ^ s
half_shift b s = omega (arith, double_shift b s)

-- The bits of `a` lie below position `s`, those of `b * 2 ^ s` do not.
pub bit_or_disjoint : (s a b : ℕ) → a < 2 ^ s → bit_or a (b * 2 ^ s) ≡ a + b * 2 ^ s
bit_or_disjoint zero zero b h = omega (arith, or_zero (b * 1))
bit_or_disjoint zero (suc a) b h = absurd (omega arith)
bit_or_disjoint (suc s) a b h = omega (
  arith,
  double_shift b s,
  pow-suc 2 s,
  or_split a (b * 2 ^ suc s),
  ap (bit_or (a / 2)) (half_shift b s),
  bit_or_disjoint s (a / 2) b (omega (arith, pow-suc 2 s)),
)

and_split : (x y : ℕ) → bit_and x y ≡ bit_and (x / 2) (y / 2) * 2 + min (x % 2) (y % 2)
and_split zero y = omega (arith, bit_and-bitwise 0 y, bit_and-bitwise 0 (y / 2))
and_split (suc x) y =
    bit_and-bitwise (suc x) y
    ∙ lowest_digit (λ d. zero) min x y
    ∙ ap (λ (rest : ℕ). rest * 2 + min (suc x % 2) (y % 2))
        (sym (bit_and-bitwise (suc x / 2) (y / 2)))

no_digits : (n x : ℕ) → digits (λ d. zero) min n x 0 ≡ 0
no_digits zero x = refl
no_digits (suc n) zero = refl
no_digits (suc n) (suc x) = omega (arith, no_digits n (suc x / 2))

-- `value & 0x7f` of a word of any width.
pub low_seven_any : (x : ℕ) → bit_and x 0x7f ≡ x % 128
low_seven_any x =
    let upper = x / 16 in
    let nothing : bit_and (upper / 2 / 2 / 2) 0 ≡ 0 =
      bit_and-bitwise _ 0 ∙ no_digits _ (upper / 2 / 2 / 2) in
    let upper_three : bit_and upper 7 ≡ upper % 8 =
      omega
        (arith, and_split upper 7, and_split (upper / 2) 3, and_split (upper / 2 / 2) 1, nothing) in
    let four : x / 2 / 2 / 2 / 2 ≡ x / 16 = omega arith in
    omega (
      arith,
      and_split x 127,
      and_split (x / 2) 63,
      and_split (x / 2 / 2) 31,
      and_split (x / 2 / 2 / 2) 15,
      ap (λ (u : ℕ). bit_and u 7) four,
      upper_three,
    )
