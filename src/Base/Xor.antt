-- ===== src/Base/Xor.antt =====
-- Laws of `bit_xor`, from the recursion on binary digits that it stands for.
use Prim.Native.Nat.{
  ℕ, zero, suc, ◌+◌, ◌*◌, ◌/◌, ◌%◌, ◌^◌, ◌≤◌, ◌<◌, bit_xor, differ, bit_xor-bitwise,
}
use mathlib.Core.Path.{◌≡◌, refl, sym, ap, ◌∙◌}
use mathlib.Core.Path.{ap₂}
use native.Mathlib.Nat.{pow-suc}
use native.Mathlib.Omega.{arith}
use tsanalytics.Base.Bits.{digits-enough, double-pow}

differ_lem : (x y : ℕ) → x < 2 → y < 2 → differ x y ≡ (x + y) % 2
differ_lem zero y p q = omega arith
differ_lem (suc zero) zero p q = refl
differ_lem (suc zero) (suc zero) p q = refl
differ_lem (suc zero) (suc (suc y)) p q = absurd (omega arith)
differ_lem (suc (suc x)) y p q = absurd (omega arith)

zero-bit_xor : (b : ℕ) → bit_xor 0 b ≡ b
zero-bit_xor b = bit_xor-bitwise 0 b

pub bit_xor-halves : (a b : ℕ) → bit_xor a b ≡ bit_xor (a / 2) (b / 2) * 2 + (a + b) % 2
bit_xor-halves zero b = omega (arith, zero-bit_xor b, zero-bit_xor (b / 2))
bit_xor-halves (suc a) b = omega (
  arith,
  bit_xor-bitwise (suc a) b,
  bit_xor-bitwise (suc a / 2) (b / 2),
  digits-enough (λ y. y) differ a (suc a / 2) (suc a / 2) (b / 2) (omega arith) (omega arith),
  differ_lem (suc a % 2) (b % 2) (omega arith) (omega arith),
)

-- The two halves of the result.
half : (a b : ℕ) → bit_xor a b / 2 ≡ bit_xor (a / 2) (b / 2)
half a b = omega (arith, bit_xor-halves a b)

low : (a b : ℕ) → bit_xor a b % 2 ≡ (a + b) % 2
low a b = omega (arith, bit_xor-halves a b)

comm_below : (k a b : ℕ) → a ≤ k → b ≤ k → bit_xor a b ≡ bit_xor b a
comm_below zero zero zero p q = refl
comm_below zero (suc a) b p q = absurd (omega arith)
comm_below zero zero (suc b) p q = absurd (omega arith)
comm_below (suc k) a b p q = omega (
  arith,
  bit_xor-halves a b,
  bit_xor-halves b a,
  comm_below k (a / 2) (b / 2) (omega arith) (omega arith),
)

pub bit_xor_comm : (a b : ℕ) → bit_xor a b ≡ bit_xor b a
bit_xor_comm a b = comm_below (a + b) a b (omega arith) (omega arith)

assoc_below :
    (k a b c : ℕ) → a ≤ k → b ≤ k → c ≤ k → bit_xor (bit_xor a b) c ≡ bit_xor a (bit_xor b c)
assoc_below zero a b c p q r =
    let a0 : a ≡ 0 = omega arith in
    let b0 : b ≡ 0 = omega arith in let c0 : c ≡ 0 = omega arith in rw (a0, b0, c0)
assoc_below (suc k) a b c p q r = omega (
  arith,
  bit_xor-halves (bit_xor a b) c,
  bit_xor-halves a (bit_xor b c),
  low a b,
  low b c,
  ap (λ t. bit_xor t (c / 2)) (half a b),
  ap (bit_xor (a / 2)) (half b c),
  assoc_below k (a / 2) (b / 2) (c / 2) (omega arith) (omega arith) (omega arith),
)

pub bit_xor_assoc : (a b c : ℕ) → bit_xor (bit_xor a b) c ≡ bit_xor a (bit_xor b c)
bit_xor_assoc a b c = assoc_below (a + b + c) a b c (omega arith) (omega arith) (omega arith)

pub bit_xor-zero : (a : ℕ) → bit_xor a 0 ≡ a
bit_xor-zero a = bit_xor_comm a 0 ∙ zero-bit_xor a

self_below : (k a : ℕ) → a ≤ k → bit_xor a a ≡ 0
self_below zero a p = let a0 : a ≡ 0 = omega arith in rw a0
self_below (suc k) a p = omega (arith, bit_xor-halves a a, self_below k (a / 2) (omega arith))

bit_xor_self : (a : ℕ) → bit_xor a a ≡ 0
bit_xor_self a = self_below a a (omega arith)

-- What is put in twice is gone.
pub bit_xor_twice : (a b : ℕ) → bit_xor (bit_xor a b) b ≡ a
bit_xor_twice a b = bit_xor_assoc a b b ∙ ap (bit_xor a) (bit_xor_self b) ∙ bit_xor-zero a

pub bit_xor_cancel_right : (a b c : ℕ) → bit_xor a c ≡ bit_xor b c → a ≡ b
bit_xor_cancel_right a b c e = sym (bit_xor_twice a c) ∙ ap (λ t. bit_xor t c) e ∙ bit_xor_twice b c

pub bit_xor_cancel_left : (a b c : ℕ) → bit_xor c a ≡ bit_xor c b → a ≡ b
bit_xor_cancel_left a b c e = bit_xor_cancel_right a b c (bit_xor_comm a c ∙ e ∙ bit_xor_comm c b)

pub bit_xor-double : (a b : ℕ) → bit_xor (a * 2) (b * 2) ≡ bit_xor a b * 2
bit_xor-double a b =
    let a' : a * 2 / 2 ≡ a = omega arith in
    let b' : b * 2 / 2 ≡ b = omega arith in
    omega (arith, bit_xor-halves (a * 2) (b * 2), ap₂ bit_xor a' b')

pub bit_xor-lt : (k a b : ℕ) → a < 2 ^ k → b < 2 ^ k → bit_xor a b < 2 ^ k
bit_xor-lt zero a b p q =
    let a0 : a ≡ 0 = omega arith in let b0 : b ≡ 0 = omega arith in rw (a0, b0) (omega arith)
bit_xor-lt (suc k) a b p q = omega (
  arith,
  pow-suc 2 k,
  bit_xor-halves a b,
  bit_xor-lt k (a / 2) (b / 2) (omega (arith, pow-suc 2 k)) (omega (arith, pow-suc 2 k)),
)

-- Two fields side by side, each for itself.
pub bit_xor_fields :
    (k q r s t : ℕ)
    → r < 2 ^ k
    → t < 2 ^ k
    → bit_xor (q * 2 ^ k + r) (s * 2 ^ k + t) ≡ bit_xor q s * 2 ^ k + bit_xor r t
bit_xor_fields zero q r s t p h =
    let r0 : r ≡ 0 = omega arith in
    let t0 : t ≡ 0 = omega arith in
    let q' : q * 2 ^ 0 + 0 ≡ q = omega arith in
    let s' : s * 2 ^ 0 + 0 ≡ s = omega arith in rw (r0, t0, q', s') (omega arith)
bit_xor_fields (suc k) q r s t p h =
    let upper : (q * 2 ^ suc k + r) / 2 ≡ q * 2 ^ k + r / 2 = omega (arith, double-pow k q) in
    let lower : (s * 2 ^ suc k + t) / 2 ≡ s * 2 ^ k + t / 2 = omega (arith, double-pow k s) in
    omega (
      arith,
      bit_xor-halves (q * 2 ^ suc k + r) (s * 2 ^ suc k + t),
      ap₂ bit_xor upper lower,
      bit_xor_fields k q (r / 2) s (t / 2) (omega (arith, pow-suc 2 k))
          (omega (arith, pow-suc 2 k)),
      bit_xor-halves r t,
      double-pow k q,
      double-pow k s,
      double-pow k (bit_xor q s),
    )
