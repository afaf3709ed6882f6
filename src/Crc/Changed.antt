-- ===== src/Crc/Changed.antt =====
-- A changed byte changes the CRC in front of which it stands, and a CRC of which it is part.
use tsanalytics.Base.{
  ℕ, zero, suc, ◌+◌, ◌*◌, ◌/◌, ◌%◌, ◌^◌, ◌<◌, ◌≡◌, ◌≢◌, refl, sym, ap, ◌∙◌, bit_xor, List, [], ◌∷◌,
  ◌++◌, length, IsBytes, byte_at, arith, bit_xor-halves, bit_xor-lt, bit_xor_cancel_right,
  bit_xor_cancel_left,
}
use tsanalytics.Crc.Bitwise.{crc_bit, crc_bits, crc_byte, crc_bitwise, crc_bit-lt, crc_byte-lt}

-- The polynomial is odd, so the lowest bit tells what was shifted out.
crc_bit-top : (c : ℕ) → crc_bit c % 2 ≡ c / 2 ^ 31 % 2
unfolding crc_bit
crc_bit-top c = omega (arith, bit_xor-halves (c % 2 ^ 31 * 2) (c / 2 ^ 31 * 0x04c11db7))

crc_bit_inj : (c d : ℕ) → c < 2 ^ 32 → d < 2 ^ 32 → crc_bit c ≡ crc_bit d → c ≡ d
unfolding crc_bit
crc_bit_inj c d h k e = omega (
  arith,
  top,
  bit_xor_cancel_right (c % 2 ^ 31 * 2) (d % 2 ^ 31 * 2) (d / 2 ^ 31 * 0x04c11db7) same,
)
  where
    top : c / 2 ^ 31 ≡ d / 2 ^ 31
    top = omega (arith, crc_bit-top c, crc_bit-top d, ap (λ (t : ℕ). t % 2) e)

    same :
        bit_xor (c % 2 ^ 31 * 2) (d / 2 ^ 31 * 0x04c11db7)
        ≡ bit_xor (d % 2 ^ 31 * 2) (d / 2 ^ 31 * 0x04c11db7)
    same = ap (λ t. bit_xor (c % 2 ^ 31 * 2) (t * 0x04c11db7)) (sym top) ∙ e

crc_bits_inj : (n c d : ℕ) → c < 2 ^ 32 → d < 2 ^ 32 → crc_bits n c ≡ crc_bits n d → c ≡ d
unfolding crc_bits
crc_bits_inj zero c d h k e = e
crc_bits_inj (suc n) c d h k e =
    crc_bit_inj c d h k (crc_bits_inj n (crc_bit c) (crc_bit d) (crc_bit-lt c h) (crc_bit-lt d k) e)

put_in-lt : (c byte : ℕ) → c < 2 ^ 32 → byte < 256 → bit_xor c (byte * 2 ^ 24) < 2 ^ 32
put_in-lt c byte h b = bit_xor-lt 32 c (byte * 2 ^ 24) h (omega arith)

crc_bitwise_inj :
    (bytes : List ℕ) (c d : ℕ)
    → IsBytes bytes
    → c < 2 ^ 32
    → d < 2 ^ 32
    → crc_bitwise c bytes ≡ crc_bitwise d bytes
    → c ≡ d
unfolding crc_bitwise
crc_bitwise_inj [] c d b h k e = e
crc_bitwise_inj (x ∷ xs) c d b h k e = bit_xor_cancel_right c d (x * 2 ^ 24) (
    crc_bits_inj 8 (bit_xor c (x * 2 ^ 24)) (bit_xor d (x * 2 ^ 24)) (put_in-lt c x h b.0)
      (put_in-lt d x k b.0)
      (crc_bitwise_inj xs (crc_byte c x) (crc_byte d x) b.1 (crc_byte-lt c x h b.0)
        (crc_byte-lt d x k b.0) e))

pub crc_bitwise-lt :
    (bytes : List ℕ) (c : ℕ) → IsBytes bytes → c < 2 ^ 32 → crc_bitwise c bytes < 2 ^ 32
unfolding crc_bitwise
crc_bitwise-lt [] c b h = h
crc_bitwise-lt (x ∷ xs) c b h = crc_bitwise-lt xs (crc_byte c x) b.1 (crc_byte-lt c x h b.0)

-- A CRC as the four bytes at the end of a section.
abbrev pub crc_bytes : ℕ → List ℕ
crc_bytes c = c / 2 ^ 24 ∷ c / 2 ^ 16 % 256 ∷ c / 2 ^ 8 % 256 ∷ c % 256 ∷ []

pub crc_bytes-IsBytes : (c : ℕ) → c < 2 ^ 32 → IsBytes (crc_bytes c)
crc_bytes-IsBytes c h = (omega arith, (omega arith, (omega arith, (omega arith, tt))))

-- The list with `y` in place of its byte `i`.
unfoldable pub set_at : ℕ → ℕ → List ℕ → List ℕ
set_at i y [] = []
set_at zero y (x ∷ xs) = y ∷ xs
set_at (suc i) y (x ∷ xs) = x ∷ set_at i y xs

pub length-set_at : (i y : ℕ) (xs : List ℕ) → length (set_at i y xs) ≡ length xs
unfolding set_at
length-set_at i y [] = refl
length-set_at zero y (x ∷ xs) = refl
length-set_at (suc i) y (x ∷ xs) = omega (arith, length-set_at i y xs)

pub set_at-IsBytes : (i y : ℕ) (xs : List ℕ) → y < 256 → IsBytes xs → IsBytes (set_at i y xs)
unfolding set_at
set_at-IsBytes i y [] h b = b
set_at-IsBytes zero y (x ∷ xs) h b = (h, b.1)
set_at-IsBytes (suc i) y (x ∷ xs) h b = (b.0, set_at-IsBytes i y xs h b.1)

-- The bytes in front of the changed one are as they were.
pub byte_at-set_at : (i j y : ℕ) (xs : List ℕ) → j < i → byte_at (set_at i y xs) j ≡ byte_at xs j
unfolding set_at
byte_at-set_at i j y [] h = refl
byte_at-set_at zero j y (x ∷ xs) h = absurd (omega arith)
byte_at-set_at (suc i) zero y (x ∷ xs) h = refl
byte_at-set_at (suc i) (suc j) y (x ∷ xs) h = byte_at-set_at i j y xs (omega arith)

pub set_at-append_left :
    (i y : ℕ) (xs ys : List ℕ) → i < length xs → set_at i y (xs ++ ys) ≡ set_at i y xs ++ ys
unfolding set_at
set_at-append_left i y [] ys h = absurd (omega arith)
set_at-append_left zero y (x ∷ xs) ys h = refl
set_at-append_left (suc i) y (x ∷ xs) ys h =
    ap (λ t. x ∷ t) (set_at-append_left i y xs ys (omega arith))

pub set_at-append_right :
    (i k y : ℕ) (xs ys : List ℕ) → i ≡ length xs + k → set_at i y (xs ++ ys) ≡ xs ++ set_at k y ys
unfolding set_at
set_at-append_right i k y [] ys e = ap (λ n. set_at n y ys) (omega arith)
set_at-append_right zero k y (x ∷ xs) ys e = absurd (omega arith)
set_at-append_right (suc i) k y (x ∷ xs) ys e =
    ap (λ t. x ∷ t) (set_at-append_right i k y xs ys (omega arith))

-- A changed byte changes the CRC.
pub crc_bitwise-set_at :
    (i y : ℕ) (xs : List ℕ) (c : ℕ)
    → i < length xs
    → y < 256
    → IsBytes xs
    → c < 2 ^ 32
    → crc_bitwise c xs ≡ crc_bitwise c (set_at i y xs)
    → y ≡ byte_at xs i
unfolding crc_bitwise set_at
crc_bitwise-set_at i y [] c h k b lt e = absurd (omega arith)
crc_bitwise-set_at zero y (x ∷ xs) c h k b lt e = omega (
  arith,
  bit_xor_cancel_left (x * 2 ^ 24) (y * 2 ^ 24) c (
      crc_bits_inj 8 (bit_xor c (x * 2 ^ 24)) (bit_xor c (y * 2 ^ 24)) (put_in-lt c x lt b.0)
        (put_in-lt c y lt k)
        (crc_bitwise_inj xs (crc_byte c x) (crc_byte c y) b.1 (crc_byte-lt c x lt b.0)
          (crc_byte-lt c y lt k) e)),
)
crc_bitwise-set_at (suc i) y (x ∷ xs) c h k b lt e =
    crc_bitwise-set_at i y xs (crc_byte c x) (omega arith) k b.1 (crc_byte-lt c x lt b.0) e

four_bytes :
    {a b c d a' b' c' d' : ℕ}
    → a ≡ a'
    → b ≡ b'
    → c ≡ c'
    → d ≡ d'
    → Path (List ℕ) (a ∷ b ∷ c ∷ d ∷ []) (a' ∷ b' ∷ c' ∷ d' ∷ [])
four_bytes p q r s = λ j. p j ∷ q j ∷ r j ∷ s j ∷ []

-- Another byte in the CRC makes it another CRC.
pub set_at-crc_bytes :
    (i y c : ℕ)
    → i < 4
    → y < 256
    → c < 2 ^ 32
    → y ≢ byte_at (crc_bytes c) i
    → (d : ℕ) × (d < 2 ^ 32) × (d ≢ c) × (set_at i y (crc_bytes c) ≡ crc_bytes d)
unfolding set_at
set_at-crc_bytes zero y c h k lt ne = (
  y * 2 ^ 24 + c % 2 ^ 24,
  omega arith,
  omega arith,
  four_bytes (omega arith) (omega arith) (omega arith) (omega arith),
)
set_at-crc_bytes (suc zero) y c h k lt ne = (
  c / 2 ^ 24 * 2 ^ 24 + y * 2 ^ 16 + c % 2 ^ 16,
  omega arith,
  omega arith,
  four_bytes (omega arith) (omega arith) (omega arith) (omega arith),
)
set_at-crc_bytes (suc (suc zero)) y c h k lt ne = (
  c / 2 ^ 16 * 2 ^ 16 + y * 2 ^ 8 + c % 2 ^ 8,
  omega arith,
  omega arith,
  four_bytes (omega arith) (omega arith) (omega arith) (omega arith),
)
set_at-crc_bytes (suc (suc (suc zero))) y c h k lt ne = (
  c / 2 ^ 8 * 2 ^ 8 + y,
  omega arith,
  omega arith,
  four_bytes (omega arith) (omega arith) (omega arith) (omega arith),
)
set_at-crc_bytes (suc (suc (suc (suc i)))) y c h k lt ne = absurd (omega arith)
