-- ===== src/Leb128/Spelled.antt =====
-- A reading of LEB128 bytes as a number with no bound, and the arithmetic that the decoders of
-- internal/leb128/leb128.go share.
use component_model.Prelude.{
  ℕ, zero, suc, ◌+◌, ◌*◌, ◌%◌, ◌^◌, ◌≤◌, ◌<◌, ◌≡◌, refl, ap, bit_or, List, [], ◌∷◌, ltb,
  if◌then◌else◌, Result, ok, err, arith, length, Option, none, some,
}
use component_model.Prelude.Bits.{bit_or_disjoint}
use component_model.Leb128.{Error, eof}
use native.Mathlib.Nat.{mod-eq_of_lt, pow-le-pow_right}
use native.Mathlib.Numerals.{towards_suc}

abbrev pub next_group : ℕ → Option (ℕ × ℕ) → Option (ℕ × ℕ)
next_group b none = none
next_group b (some (v, n)) = some (b % 128 + 128 * v, n + 1)

-- The number that the first at most `k` bytes of `buf` spell, and how many bytes it takes; `none`
-- if none of them ends it.
unfoldable pub spelled : ℕ → List ℕ → Option (ℕ × ℕ)
spelled zero buf = none
spelled (suc k) [] = none
spelled (suc k) (b ∷ buf) = if ltb b 128 then some (b, 1) else next_group b (spelled k buf)

-- What a decoder owes on what the bytes spell: the number if it is below the limit.
abbrev pub bounded : Error → ℕ → ℕ → List ℕ → Option (ℕ × ℕ) → Result Error (ℕ × ℕ)
bounded overflow limit k buf none = if ltb (length buf) k then err eof else err overflow
bounded overflow limit k buf (some (v, n)) = if ltb v limit then ok (v, n) else err overflow

-- The same after `i` groups with the value `ret` below bit `s`.
abbrev pub shifted : ℕ → ℕ → ℕ → Option (ℕ × ℕ) → Option (ℕ × ℕ)
shifted i s ret none = none
shifted i s ret (some (v, n)) = some (ret + v * 2 ^ s, i + n)

pub or_group :
    (w s ret g : ℕ)
    → ret < 2 ^ s
    → ret + g * 2 ^ s < 2 ^ w
    → bit_or ret (g * 2 ^ s % 2 ^ w) ≡ ret + g * 2 ^ s
or_group w s ret g h fits =
    let small : g * 2 ^ s < 2 ^ w = omega arith in
    rw (mod-eq_of_lt small) (bit_or_disjoint s ret g h)

pub shift_seven : (s : ℕ) → 2 ^ (s + 7) ≡ 128 * 2 ^ s
shift_seven s = simp towards_suc (omega arith)

-- One more group of seven bits stays below the next position.
pub group_fits : (s ret g : ℕ) → g < 128 → ret < 2 ^ s → ret + g * 2 ^ s < 2 ^ (s + 7)
group_fits s ret g hg hr = rw (shift_seven s) (grind arith)

pub pow_mono : (s m : ℕ) → s ≤ m → 2 ^ s ≤ 2 ^ m
pow_mono s m h = pow-le-pow_right {n = 2} (omega arith) h

pub shifted_next :
    (i s ret b : ℕ) (o : Option (ℕ × ℕ))
    → shifted i s ret (next_group b o) ≡ shifted (i + 1) (s + 7) (ret + b % 128 * 2 ^ s) o
shifted_next i s ret b none = refl
shifted_next i s ret b (some (v, n)) = ground (arith, ap (λ (t : ℕ). v * t) (shift_seven s))

pub shifted_zero : (o : Option (ℕ × ℕ)) → shifted 0 0 0 o ≡ o
shifted_zero none = refl
shifted_zero (some (v, n)) = ground arith

pub spelled_end : (k b : ℕ) (buf : List ℕ) → b < 128 → spelled (suc k) (b ∷ buf) ≡ some (b, 1)
unfolding spelled
spelled_end k b buf h = ground arith

pub spelled_go :
    (k b : ℕ) (buf : List ℕ) → 128 ≤ b → spelled (suc k) (b ∷ buf) ≡ next_group b (spelled k buf)
unfolding spelled
spelled_go k b buf h = ground arith

pub bounded-cons :
    (overflow : Error) (limit k b : ℕ) (buf : List ℕ) (o : Option (ℕ × ℕ))
    → bounded overflow limit k buf o ≡ bounded overflow limit (suc k) (b ∷ buf) o
bounded-cons overflow limit k b buf none = ground arith
bounded-cons overflow limit k b buf (some (v, n)) = refl
