-- ===== src/Base/Bits.antt =====
-- `|` of numbers whose bits do not overlap is a sum, and `&` with a mask is a remainder. The
-- libraries define both operations by their binary digits.
use Prim.Native.Nat.{
  ℕ, zero, suc, ◌+◌, ◌*◌, ◌/◌, ◌%◌, ◌^◌, ◌≤◌, ◌<◌, min, max, bit_or, bit_and, digits,
}
use Prim.Native.Nat.{bit_or-bitwise, bit_and-bitwise}
use mathlib.Core.Path.{◌≡◌, refl, ap, sym, ◌∙◌}
use native.Mathlib.Nat.{pow-suc}
use native.Mathlib.Omega.{arith}

module _ (rest : ℕ → ℕ) (op : ℕ → ℕ → ℕ) where
  -- Rounds beyond the size of the left number change nothing.
  same_digits :
      (b a room room' : ℕ)
      → a ≤ room'
      → a ≤ room
      → digits rest op room a b ≡ digits rest op room' a b
  same_digits b (suc a) zero room' h h' = absurd (omega arith)
  same_digits b (suc a) room zero h h' = absurd (omega arith)
  same_digits b zero zero zero h h' = refl
  same_digits b zero (suc room) zero h h' = refl
  same_digits b zero zero (suc room') h h' = refl
  same_digits b zero (suc room) (suc room') h h' = refl
  same_digits b (suc a) (suc room) (suc room') h h' =
      ap (λ d. d * 2 + op (suc a % 2) (b % 2))
        (same_digits (b / 2) (suc a / 2) room room' (omega arith) (omega arith))

  halve :
      (a b : ℕ)
      → digits rest op (suc a) (suc a) b
        ≡ digits rest op (suc a / 2) (suc a / 2) (b / 2) * 2 + op (suc a % 2) (b % 2)
  halve a b =
      ap (λ d. d * 2 + op (suc a % 2) (b % 2))
        (same_digits (b / 2) (suc a / 2) a (suc a / 2) (omega arith) (omega arith))

bit_or_halves : (a b : ℕ) → bit_or a b ≡ bit_or (a / 2) (b / 2) * 2 + max (a % 2) (b % 2)
bit_or_halves zero b = ground (arith, bit_or-bitwise 0 b, bit_or-bitwise 0 (b / 2))
bit_or_halves (suc a) b =
    bit_or-bitwise (suc a) b
    ∙ halve (λ b. b) max a b
    ∙ ap (λ d. d * 2 + max (suc a % 2) (b % 2)) (sym (bit_or-bitwise (suc a / 2) (b / 2)))

bit_and_halves : (a b : ℕ) → bit_and a b ≡ bit_and (a / 2) (b / 2) * 2 + min (a % 2) (b % 2)
bit_and_halves zero b = ground (arith, bit_and-bitwise 0 b, bit_and-bitwise 0 (b / 2))
bit_and_halves (suc a) b =
    bit_and-bitwise (suc a) b
    ∙ halve (λ b. zero) min a b
    ∙ ap (λ d. d * 2 + min (suc a % 2) (b % 2)) (sym (bit_and-bitwise (suc a / 2) (b / 2)))

double_shift : (k g : ℕ) → g * 2 ^ suc k ≡ 2 * (g * 2 ^ k)
double_shift k g = omega (arith, ap (λ (t : ℕ). g * t) (pow-suc 2 k))

-- `acc | (g << k)` where `acc` lies below bit `k`.
pub bit_or_shifted : (k acc g : ℕ) → acc < 2 ^ k → bit_or acc (g * 2 ^ k) ≡ acc + g * 2 ^ k
bit_or_shifted zero zero g h = omega (arith, bit_or-bitwise 0 (g * 1))
bit_or_shifted zero (suc acc) g h = absurd (omega arith)
bit_or_shifted (suc k) acc g h = ground (
  arith,
  bit_or_halves acc (g * 2 ^ suc k),
  double_shift k g,
  pow-suc 2 k,
  bit_or_shifted k (acc / 2) g,
)

-- `a & 0`
and_nothing : (k a : ℕ) → a ≤ k → bit_and a 0 ≡ 0
and_nothing k zero h = bit_and-bitwise 0 0
and_nothing zero (suc a) h = absurd (omega arith)
and_nothing (suc k) (suc a) h =
    let deeper = and_nothing k (suc a / 2) (omega arith) in
    omega (arith, deeper, bit_and_halves (suc a) 0)

bit_and-one : (a : ℕ) → bit_and a 1 ≡ a % 2
bit_and-one a = omega (arith, bit_and_halves a 1, and_nothing (a / 2) (a / 2) (omega arith))

pub bit_and_15 : (a : ℕ) → bit_and a 15 ≡ a % 16
bit_and_15 a = omega (
  arith,
  bit_and_halves a 15,
  bit_and_halves (a / 2) 7,
  bit_and_halves (a / 2 / 2) 3,
  bit_and-one (a / 2 / 2 / 2),
)

-- `a & 0x7f`
pub bit_and_127 : (a : ℕ) → bit_and a 127 ≡ a % 128
bit_and_127 a = omega (
  arith,
  bit_and_halves a 127,
  bit_and_halves (a / 2) 63,
  bit_and_halves (a / 2 / 2) 31,
  bit_and_15 (a / 2 / 2 / 2),
)

bit_and_8 : (a : ℕ) → bit_and a 8 ≡ a / 8 % 2 * 8
bit_and_8 a = omega (
  arith,
  bit_and_halves a 8,
  bit_and_halves (a / 2) 4,
  bit_and_halves (a / 2 / 2) 2,
  bit_and-one (a / 2 / 2 / 2),
)

-- `a & 0x80`
pub bit_and_128 : (a : ℕ) → bit_and a 128 ≡ a / 128 % 2 * 128
bit_and_128 a = omega (
  arith,
  bit_and_halves a 128,
  bit_and_halves (a / 2) 64,
  bit_and_halves (a / 2 / 2) 32,
  bit_and_halves (a / 2 / 2 / 2) 16,
  bit_and_8 (a / 2 / 2 / 2 / 2),
)
