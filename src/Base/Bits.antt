-- ===== src/Base/Bits.antt =====
-- The bit operations as arithmetic. `bitwise` defines them by a recursion on binary digits
-- whose fuel is the first operand; the laws below are free of it.
use Prim.Native.Nat.{ℕ, zero, suc, ◌+◌, ◌-◌, ◌*◌, ◌/◌, ◌%◌, ◌^◌, ◌≤◌, ◌<◌, min, max}
use Prim.Native.Nat.{bit_and, bit_or, digits, bit_and-bitwise, bit_or-bitwise}
use mathlib.Core.Path.{◌≡◌, refl, ap, ◌∙◌}
use native.Mathlib.Nat.{
  pow-suc, one-le-pow, div-add-mod, mod-lt, mod-eq_of_lt, mul-add-mod_self_left,
}
use native.Mathlib.Omega.{arith}

-- The recursion takes as many steps as the operand has digits, however much fuel is left.
pub digits-enough :
    (z : ℕ → ℕ) (f : ℕ → ℕ → ℕ) (k n a b : ℕ) → a ≤ k → a ≤ n → digits z f k a b ≡ digits z f n a b
digits-enough z f zero zero a b p q = refl
digits-enough z f zero (suc n) zero b p q = refl
digits-enough z f zero (suc n) (suc a) b p q = absurd (omega arith)
digits-enough z f (suc k) zero zero b p q = refl
digits-enough z f (suc k) zero (suc a) b p q = absurd (omega arith)
digits-enough z f (suc k) (suc n) zero b p q = refl
digits-enough z f (suc k) (suc n) (suc a) b p q =
    ap (λ r. r * 2 + f (suc a % 2) (b % 2))
      (digits-enough z f k n (suc a / 2) (b / 2) (omega arith) (omega arith))

pub bit_or-halves : (a b : ℕ) → bit_or a b ≡ bit_or (a / 2) (b / 2) * 2 + max (a % 2) (b % 2)
bit_or-halves zero b = omega (arith, bit_or-bitwise 0 b, bit_or-bitwise 0 (b / 2))
bit_or-halves (suc a) b = omega (
  arith,
  bit_or-bitwise (suc a) b,
  bit_or-bitwise (suc a / 2) (b / 2),
  digits-enough (λ y. y) max a (suc a / 2) (suc a / 2) (b / 2) (omega arith) (omega arith),
)

pub bit_and-halves : (a b : ℕ) → bit_and a b ≡ bit_and (a / 2) (b / 2) * 2 + min (a % 2) (b % 2)
bit_and-halves zero b = omega (arith, bit_and-bitwise 0 b, bit_and-bitwise 0 (b / 2))
bit_and-halves (suc a) b = omega (
  arith,
  bit_and-bitwise (suc a) b,
  bit_and-bitwise (suc a / 2) (b / 2),
  digits-enough (λ y. 0) min a (suc a / 2) (suc a / 2) (b / 2) (omega arith) (omega arith),
)

-- Halving `k` times ends below any bound, so a bound on the operand serves as the induction.
bit_or-zero_below : (k a : ℕ) → a ≤ k → bit_or a 0 ≡ a
bit_or-zero_below k zero h = refl
bit_or-zero_below zero (suc a) h = absurd (omega arith)
bit_or-zero_below (suc k) (suc a) h =
    omega (arith, bit_or-halves (suc a) 0, bit_or-zero_below k (suc a / 2) (omega arith))

pub bit_or-zero : (a : ℕ) → bit_or a 0 ≡ a
bit_or-zero a = bit_or-zero_below a a (omega arith)

bit_and-zero_below : (k a : ℕ) → a ≤ k → bit_and a 0 ≡ 0
bit_and-zero_below k zero h = refl
bit_and-zero_below zero (suc a) h = absurd (omega arith)
bit_and-zero_below (suc k) (suc a) h =
    omega (arith, bit_and-halves (suc a) 0, bit_and-zero_below k (suc a / 2) (omega arith))

pub bit_and-zero : (a : ℕ) → bit_and a 0 ≡ 0
bit_and-zero a = bit_and-zero_below a a (omega arith)

pub double-pow : (k q : ℕ) → q * 2 ^ suc k ≡ q * 2 ^ k * 2
double-pow k q = omega (arith, ap (λ (t : ℕ). q * t) (pow-suc 2 k))

-- Or-ing a value into the low bits that a shift left free is addition.
pub bit_or_low : (k q r : ℕ) → r < 2 ^ k → bit_or (q * 2 ^ k) r ≡ q * 2 ^ k + r
bit_or_low zero q r h = ground (arith, bit_or-zero q)
bit_or_low (suc k) q r h =
    ground
      (arith, bit_or-halves (q * 2 ^ suc k) r, double-pow k q, pow-suc 2 k, bit_or_low k q (r / 2))

-- The remainder by `2 * p`, by its lowest binary digit.
pub mod-double : (a p : ℕ) → 0 < p → a % (2 * p) ≡ a / 2 % p * 2 + a % 2
mod-double a p pos =
    ap (λ t. t % (2 * p)) split ∙ mul-add-mod_self_left (2 * p) (a / 2 / p) low ∙ mod-eq_of_lt fits
  where
    low : ℕ
    low = a / 2 % p * 2 + a % 2

    split : a ≡ 2 * p * (a / 2 / p) + low
    split = omega (arith, div-add-mod (a / 2) p)

    fits : low < 2 * p
    fits = omega (arith, mod-lt (a / 2) pos)

-- Masking with `2 ^ k - 1` keeps the remainder.
pub bit_and_mask : (k a : ℕ) → bit_and a (2 ^ k - 1) ≡ a % 2 ^ k
bit_and_mask zero a = omega (arith, bit_and-zero a)
bit_and_mask (suc k) a = ground (
  arith,
  bit_and-halves a (2 ^ suc k - 1),
  pow-suc 2 k,
  one-le-pow k 2,
  bit_and_mask k (a / 2),
  mod-double a (2 ^ k),
)
