-- ===== src/GetBit/Field.antt =====
-- A buffer as a sequence of bits, most significant first, and the fields of a loaded word.
use native.Mathlib.Nat.{one-le-pow, pow-suc, mod-lt, div-eq_of_lt, div-div-eq-div-mul}
use native.Mathlib.Nat.{
  add-zero, div-add-mod, mul-add-mod_self_left, mul-add-div, mod-eq_of_lt, pow-succ',
}
use mathlib.Core.Path.{ap₂}
use tsanalytics.Base.{
  ℕ, zero, suc, ◌+◌, ◌-◌, ◌*◌, ◌/◌, ◌%◌, ◌^◌, ◌≤◌, ◌<◌, ◌≡◌, refl, sym, ◌∙◌, ap, List, IsBytes,
  byte_at, byte_at-lt, mod-double, u64, ◌<<<◌, ◌>>>◌, arith,
}
use tsanalytics.GetBit.Word.{word}

-- Bit `k` of the buffer.
abbrev pub bit : List ℕ → ℕ → ℕ
bit buf k = byte_at buf (k / 8) / 2 ^ (7 - k % 8) % 2

-- The number that the `n` bits from `k` on spell, the first one the highest.
pub bits : List ℕ → ℕ → ℕ → ℕ
bits buf k zero = 0
bits buf k (suc n) = bits buf k n * 2 + bit buf (k + n)

-- `n` bits spell a number below `2 ^ n`.
pub bits-lt : (buf : List ℕ) (k n : ℕ) → bits buf k n < 2 ^ n
unfolding bits
bits-lt buf k zero = omega arith
bits-lt buf k (suc n) = omega (arith, bits-lt buf k n, pow-suc 2 n)

-- The field in the loaded word: the bits before it cut off, those behind it shifted out.
unfoldable pub field : List ℕ → ℕ → ℕ → ℕ
field buf boff gbit = word buf (boff / 8) % 2 ^ (64 - boff % 8) / 2 ^ (64 - boff % 8 - gbit)

add-suc' : (a b : ℕ) → a + suc b ≡ suc (a + b)
add-suc' a b = omega arith

pow-add : (a b : ℕ) → 2 ^ (a + b) ≡ 2 ^ a * 2 ^ b
pow-add a zero = rw (add-zero a) (omega arith)
pow-add a (suc b) = rw (add-suc' a b, pow-suc 2 (a + b), pow-suc 2 b, pow-add a b) (omega arith)

-- Shifting left in 64 bits and back cuts the highest `f` bits off.
pub cut : (f w : ℕ) → f < 8 → u64 (w <<< f) >>> f ≡ w % 2 ^ (64 - f)
cut zero w h = omega arith
cut (suc zero) w h = omega arith
cut (suc (suc zero)) w h = omega arith
cut (suc (suc (suc zero))) w h = omega arith
cut (suc (suc (suc (suc zero)))) w h = omega arith
cut (suc (suc (suc (suc (suc zero))))) w h = omega arith
cut (suc (suc (suc (suc (suc (suc zero)))))) w h = omega arith
cut (suc (suc (suc (suc (suc (suc (suc zero))))))) w h = omega arith
cut (suc (suc (suc (suc (suc (suc (suc (suc f)))))))) w h = absurd (omega arith)

bytes_lt :
    (buf : List ℕ) (p : ℕ)
    → IsBytes buf
    → (byte_at buf p < 256)
      × (byte_at buf (p + 1) < 256)
      × (byte_at buf (p + 2) < 256)
      × (byte_at buf (p + 3) < 256)
      × (byte_at buf (p + 4) < 256)
      × (byte_at buf (p + 5) < 256)
      × (byte_at buf (p + 6) < 256)
      × (byte_at buf (p + 7) < 256)
bytes_lt buf p b = (
  byte_at-lt buf p b,
  byte_at-lt buf (p + 1) b,
  byte_at-lt buf (p + 2) b,
  byte_at-lt buf (p + 3) b,
  byte_at-lt buf (p + 4) b,
  byte_at-lt buf (p + 5) b,
  byte_at-lt buf (p + 6) b,
  byte_at-lt buf (p + 7) b,
)

-- The byte `q` places into the word.
word-byte :
    (buf : List ℕ) (p q : ℕ)
    → IsBytes buf
    → q < 8
    → word buf p / 2 ^ (56 - q * 8) % 256 ≡ byte_at buf (p + q)
unfolding word
word-byte buf p zero b h = omega (arith, bytes_lt buf p b, ap (byte_at buf) (add-zero p))
word-byte buf p (suc zero) b h = omega (arith, bytes_lt buf p b)
word-byte buf p (suc (suc zero)) b h = omega (arith, bytes_lt buf p b)
word-byte buf p (suc (suc (suc zero))) b h = omega (arith, bytes_lt buf p b)
word-byte buf p (suc (suc (suc (suc zero)))) b h = omega (arith, bytes_lt buf p b)
word-byte buf p (suc (suc (suc (suc (suc zero))))) b h = omega (arith, bytes_lt buf p b)
word-byte buf p (suc (suc (suc (suc (suc (suc zero)))))) b h = omega (arith, bytes_lt buf p b)
word-byte buf p (suc (suc (suc (suc (suc (suc (suc zero))))))) b h = omega (arith, bytes_lt buf p b)
word-byte buf p (suc (suc (suc (suc (suc (suc (suc (suc q)))))))) b h = absurd (omega arith)

byte_bit : (x r : ℕ) → r < 8 → x / 2 ^ (7 - r) % 2 ≡ x % 256 / 2 ^ (7 - r) % 2
byte_bit x zero h = omega arith
byte_bit x (suc zero) h = omega arith
byte_bit x (suc (suc zero)) h = omega arith
byte_bit x (suc (suc (suc zero))) h = omega arith
byte_bit x (suc (suc (suc (suc zero)))) h = omega arith
byte_bit x (suc (suc (suc (suc (suc zero))))) h = omega arith
byte_bit x (suc (suc (suc (suc (suc (suc zero)))))) h = omega arith
byte_bit x (suc (suc (suc (suc (suc (suc (suc zero))))))) h = omega arith
byte_bit x (suc (suc (suc (suc (suc (suc (suc (suc r)))))))) h = absurd (omega arith)

-- A bit of the word is a bit of the buffer.
word-bit :
    (buf : List ℕ) (p j : ℕ)
    → IsBytes buf
    → j < 64
    → word buf p / 2 ^ (63 - j) % 2 ≡ bit buf (p * 8 + j)
word-bit buf p j b h =
    ap (λ t. word buf p / t % 2) (ap (λ t. 2 ^ t) apart ∙ pow-add (56 - j / 8 * 8) (7 - j % 8))
    ∙ ap (λ t. t % 2)
        (sym (div-div-eq-div-mul (word buf p) (2 ^ (56 - j / 8 * 8)) (2 ^ (7 - j % 8))))
    ∙ byte_bit (word buf p / 2 ^ (56 - j / 8 * 8)) (j % 8) (omega arith)
    ∙ ap (λ t. t / 2 ^ (7 - j % 8) % 2) (word-byte buf p (j / 8) b (omega arith))
    ∙ ap₂ (λ k r. byte_at buf k / 2 ^ (7 - r) % 2) (omega arith) (omega arith)
  where
    apart : 63 - j ≡ 56 - j / 8 * 8 + (7 - j % 8)
    apart = omega arith

mod-mul-div : (w p q : ℕ) → 0 < p → 0 < q → w % (p * q) / p ≡ w / p % q
mod-mul-div w p q hp hq =
    ap (λ t. t / p)
      (ap (λ t. t % (p * q)) split
        ∙ mul-add-mod_self_left (p * q) (w / p / q) low
        ∙ mod-eq_of_lt fits)
    ∙ mul-add-div hp (w / p % q) (w % p)
    ∙ omega (arith, div-eq_of_lt (mod-lt w hp))
  where
    low : ℕ
    low = p * (w / p % q) + w % p

    split : w ≡ p * q * (w / p / q) + low
    split = omega (arith, div-add-mod w p, ap (λ (t : ℕ). p * t) (div-add-mod (w / p) q))

    fits : low < p * q
    fits = grind (arith, mod-lt w hp, mod-lt (w / p) hq)

-- Bits below the cut are those of the uncut number.
mod_bit : (w m d : ℕ) → w % 2 ^ (m + suc d) / 2 ^ m % 2 ≡ w / 2 ^ m % 2
mod_bit w m d =
    ap (λ t. w % t / 2 ^ m % 2) (pow-add m (suc d))
    ∙ ap (λ t. t % 2)
        (mod-mul-div w (2 ^ m) (2 ^ suc d) (one-le-pow m 2 (omega arith))
          (one-le-pow (suc d) 2 (omega arith)))
    ∙ ap (λ t. w / 2 ^ m % t % 2) (pow-succ' 2 d)
    ∙ omega (arith, mod-double (w / 2 ^ m) (2 ^ d) (one-le-pow d 2 (omega arith)))

-- One more bit of the field is one more digit.
field-suc :
    (w m n : ℕ) → w % 2 ^ (m + suc n) / 2 ^ m ≡ w % 2 ^ (m + suc n) / 2 ^ suc m * 2 + w / 2 ^ m % 2
field-suc w m n = omega (arith, mod_bit w m n, halves)
  where
    x : ℕ
    x = w % 2 ^ (m + suc n)

    halves : x / 2 ^ suc m ≡ x / 2 ^ m / 2
    halves = ap (λ t. x / t) (pow-suc 2 m) ∙ sym (div-div-eq-div-mul x (2 ^ m) 2)

-- The field in the word is the number that its bits spell.
field_in_word :
    (buf : List ℕ) (p f n : ℕ)
    → IsBytes buf
    → f < 8
    → f + n ≤ 64
    → word buf p % 2 ^ (64 - f) / 2 ^ (64 - f - n) ≡ bits buf (p * 8 + f) n
unfolding bits
field_in_word buf p f zero b hf h =
    ap (λ t. word buf p % 2 ^ (64 - f) / 2 ^ t) (omega arith)
    ∙ div-eq_of_lt (mod-lt (word buf p) (one-le-pow (64 - f) 2 (omega arith)))
field_in_word buf p f (suc n) b hf h =
    ap₂ (λ s t. word buf p % 2 ^ s / 2 ^ t) top low
    ∙ field-suc (word buf p) m n
    ∙ ap₂ (λ s t. s * 2 + t)
        (ap₂ (λ s t. word buf p % 2 ^ s / 2 ^ t) (sym top) (omega arith)
          ∙ field_in_word buf p f n b hf (omega arith))
        (ap (λ t. word buf p / 2 ^ t % 2) (omega arith)
          ∙ word-bit buf p (f + n) b (omega arith)
          ∙ ap (bit buf) (omega arith))
  where
    m : ℕ
    m = 64 - f - suc n

    top : 64 - f ≡ m + suc n
    top = omega arith

    low : 64 - f - suc n ≡ m
    low = refl

pub field-bits :
    (buf : List ℕ) (boff gbit : ℕ)
    → IsBytes buf
    → boff % 8 + gbit ≤ 64
    → field buf boff gbit ≡ bits buf boff gbit
unfolding field
field-bits buf boff gbit b h =
    field_in_word buf (boff / 8) (boff % 8) gbit b (omega arith) h
    ∙ ap (λ k. bits buf k gbit) (omega arith)
