-- ===== src/GetBit/Stream.antt =====
-- `getBit` as a reading of the buffer's bits.
use native.Mathlib.Decide.{dec_lt}
use tsanalytics.Base.{
  ℕ, zero, suc, ◌+◌, ◌-◌, ◌*◌, ◌/◌, ◌%◌, ◌^◌, ◌≤◌, ◌<◌, ◌≡◌, ◌∙◌, ap, List, none, some, length,
  IsBytes, get_elem?-eq-get_or, get_elem?_past, ◌-u64◌, ◌>>=◌, arith,
}
use tsanalytics.GetBit.{load_word, get_bit}
use tsanalytics.GetBit.Word.{word, load_word-eq}
use mathlib.Core.Path.{ap₂}
use tsanalytics.GetBit.Field.{bits, field, cut, field-bits}

-- The call is defined: eight bytes from the field's first one on are in the buffer, the field
-- ends inside them, and the offset behind it is a 64-bit value.
pub record Fits (buf : List ℕ) (boff gbit : ℕ) : Type 0 where
  pub room : boff / 8 + 8 ≤ length buf
  pub pos : 1 ≤ gbit
  pub narrow : boff % 8 + gbit ≤ 64
  pub small : boff + gbit < 2 ^ 64

-- `getBit` through the loaded word.
pub get_bit-field :
    (buf : List ℕ) (boff gbit : ℕ)
    → IsBytes buf
    → Fits buf boff gbit
    → get_bit buf boff gbit ≡ some (field buf boff gbit, boff + gbit)
unfolding get_bit field
get_bit-field buf boff gbit b fits =
    rw (load_word-eq buf b (boff / 8) fits.room, ◌>>=◌, within, amount)
      (ground (arith, cut (boff % 8) (word buf (boff / 8))))
  where
    within : boff - boff / 8 * 8 ≡ boff % 8
    within = omega arith

    amount : 64 -u64 (boff % 8) -u64 gbit ≡ 64 - boff % 8 - gbit
    amount = omega arith

-- Without eight bytes from the field's first one on, whatever its width, the loop runs past
-- the buffer.
load_word_past :
    (buf : List ℕ) (p left i tnum : ℕ)
    → 1 ≤ i
    → p + (i - 1) ≤ length buf
    → length buf < p + (i - 1) + left
    → load_word buf p left i tnum ≡ none
unfolding load_word
load_word_past buf p zero i tnum pos read past = absurd (omega arith)
load_word_past buf p (suc left) i tnum pos read past = elim (dec_lt (p + i - 1) (length buf)) [
  | yes inside ↦
      rw (get_elem?-eq-get_or buf (p + i - 1) 0 inside)
        (load_word_past buf p left (i + 1) _ (omega arith) (omega arith) (omega arith))
  | no outside ↦ rw (get_elem?_past buf (p + i - 1) (omega arith))
]

load_word-none : (buf : List ℕ) (p : ℕ) → length buf < p + 8 → load_word buf p 8 1 0 ≡ none
unfolding load_word
load_word-none buf p past = elim (dec_lt (length buf) p) [
  | yes beyond ↦ rw (get_elem?_past buf (p + 1 - 1) (omega arith))
  | no within ↦ (load_word_past buf p 8 1 0 (omega arith) (omega arith) (omega arith))
]

-- On a buffer of bytes, where eight bytes from the field's first one on are in the buffer, the
-- field is not empty and ends inside them, and the offset behind it has 64 bits: `getBit` returns
-- the number that the `gbit` bits from `boff` on spell, most significant bit first, and moves the
-- offset behind them.
pub get_bit-bits :
    (buf : List ℕ) (boff gbit : ℕ)
    → IsBytes buf
    → Fits buf boff gbit
    → get_bit buf boff gbit ≡ some (bits buf boff gbit, boff + gbit)
get_bit-bits buf boff gbit b fits =
    get_bit-field buf boff gbit b fits
    ∙ ap (λ v. some (v, boff + gbit)) (field-bits buf boff gbit b fits.narrow)

-- With fewer than eight bytes from the field's first one on, `getBit` reads past the buffer,
-- also where the field itself lies inside it.
pub get_bit-none :
    (buf : List ℕ) (boff gbit : ℕ) → length buf < boff / 8 + 8 → get_bit buf boff gbit ≡ none
unfolding get_bit
get_bit-none buf boff gbit past = rw (load_word-none buf (boff / 8) past)

-- A field that begins `c` bits into byte `k`.
pub get_at :
    (buf : List ℕ) (b : IsBytes buf) (boff k c gbit : ℕ) {v off : ℕ}
    → boff ≡ k * 8 + c
    → (c < 8) × (1 ≤ gbit) × (c + gbit ≤ 64)
    → (k + 8 ≤ length buf) × (k ≤ 2 ^ 40)
    → word buf k % 2 ^ (64 - c) / 2 ^ (64 - c - gbit) ≡ v
    → boff + gbit ≡ off
    → get_bit buf boff gbit ≡ some (v, off)
get_at buf b boff k c gbit e narrow room is_v is_off =
    get_bit-field buf boff gbit b (omega arith) ∙ ap₂ (λ v o. some (v, o)) (value ∙ is_v) is_off
  where
    at_byte : boff / 8 ≡ k
    at_byte = omega arith

    at_bit : boff % 8 ≡ c
    at_bit = omega arith

    value : field buf boff gbit ≡ word buf k % 2 ^ (64 - c) / 2 ^ (64 - c - gbit)
    value =
        unfold field in ap₂ (λ p q. word buf p % 2 ^ (64 - q) / 2 ^ (64 - q - gbit)) at_byte at_bit
