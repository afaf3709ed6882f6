-- ===== src/GetBit/Word.antt =====
-- The word that `getBit` loads, and the field as a quotient and a remainder of it.
use native.Mathlib.Nat.{one-le-pow, pow-suc, mod-eq_of_lt, le_trans, pow-le-pow_right}
use native.Mathlib.Numerals.{towards_suc}
use tsanalytics.Base.{
  ℕ, ◌+◌, ◌-◌, ◌*◌, ◌^◌, ◌≤◌, ◌<◌, bit_or, ◌≡◌, ap, List, some, get_elem?, length, IsBytes, byte_at,
  byte_at-lt, get_elem?-eq-get_or, bit_or_low, u64, ◌<<<◌, ◌>>=◌, arith,
}
use tsanalytics.GetBit.{load_word}

-- The eight bytes from `p` on, the first one the highest.
unfoldable pub word : List ℕ → ℕ → ℕ
word buf p =
    byte_at buf p * 2 ^ 56
    + byte_at buf (p + 1) * 2 ^ 48
    + byte_at buf (p + 2) * 2 ^ 40
    + byte_at buf (p + 3) * 2 ^ 32
    + byte_at buf (p + 4) * 2 ^ 24
    + byte_at buf (p + 5) * 2 ^ 16
    + byte_at buf (p + 6) * 2 ^ 8
    + byte_at buf (p + 7)

pow-add_eight : (k : ℕ) → 2 ^ (k + 8) ≡ 2 ^ k * 256
pow-add_eight k = simp towards_suc (simp pow-suc (omega arith))

-- One round: the byte is or-ed below what has been read so far.
or_byte :
    (k d b : ℕ)
    → b < 256
    → k ≤ 56
    → bit_or (d * 2 ^ (k + 8)) (u64 (b <<< k)) ≡ (d * 256 + b) * 2 ^ k
or_byte k d b small narrow =
    rw (mod-eq_of_lt below)
      (rw (bit_or_low (k + 8) d (b * 2 ^ k) fits) (rw (pow-add_eight k) (omega arith)))
  where
    fits : b * 2 ^ k < 2 ^ (k + 8)
    fits = rw (pow-add_eight k) (grind (arith, one-le-pow k 2))

    below : b * 2 ^ k < 2 ^ 64
    below = le_trans fits (pow-le-pow_right {n = 2} (omega arith) {j = 64} (omega arith))

-- The accumulator after all eight rounds.
assemble :
    (b0 b1 b2 b3 b4 b5 b6 b7 : ℕ)
    → (b0 < 256)
      × (b1 < 256)
      × (b2 < 256)
      × (b3 < 256)
      × (b4 < 256)
      × (b5 < 256)
      × (b6 < 256)
      × (b7 < 256)
    → bit_or
        (bit_or
          (bit_or
            (bit_or
              (bit_or
                (bit_or (bit_or (bit_or 0 (u64 (b0 <<< 56))) (u64 (b1 <<< 48))) (u64 (b2 <<< 40)))
                (u64 (b3 <<< 32)))
              (u64 (b4 <<< 24)))
            (u64 (b5 <<< 16)))
          (u64 (b6 <<< 8)))
        (u64 (b7 <<< 0))
      ≡ b0 * 2 ^ 56
        + b1 * 2 ^ 48
        + b2 * 2 ^ 40
        + b3 * 2 ^ 32
        + b4 * 2 ^ 24
        + b5 * 2 ^ 16
        + b6 * 2 ^ 8
        + b7
assemble b0 b1 b2 b3 b4 b5 b6 b7 h =
    let d1 = 0 * 256 + b0 in
    let d2 = d1 * 256 + b1 in
    let d3 = d2 * 256 + b2 in
    let d4 = d3 * 256 + b3 in
    let d5 = d4 * 256 + b4 in
    let d6 = d5 * 256 + b5 in
    let d7 = d6 * 256 + b6 in
    rw
      (
        or_byte 56 0 b0 h.0 (omega arith),
        or_byte 48 d1 b1 h.1 (omega arith),
        or_byte 40 d2 b2 h.2 (omega arith),
        or_byte 32 d3 b3 h.3 (omega arith),
        or_byte 24 d4 b4 h.4 (omega arith),
        or_byte 16 d5 b5 h.5 (omega arith),
        or_byte 8 d6 b6 h.6 (omega arith),
        or_byte 0 d7 b7 h.7 (omega arith),
      )
      (omega arith)

module _ (buf : List ℕ) (bytes : IsBytes buf) where
  pub word-lt : (p : ℕ) → word buf p < 2 ^ 64
  unfolding word
  word-lt p = omega (arith, λ (i : ℕ). byte_at-lt buf i bytes)

  byte_read : (i k : ℕ) → i ≡ k → k < length buf → get_elem? buf i ≡ some (byte_at buf k)
  byte_read i k e h = rw e (get_elem?-eq-get_or buf k 0 h)

  -- The eight rounds of the loop assemble the word.
  pub load_word-eq : (p : ℕ) → p + 8 ≤ length buf → load_word buf p 8 1 0 ≡ some (word buf p)
  unfolding load_word word
  load_word-eq p room =
      rw
        (
          byte_read (p + 1 - 1) p (omega arith) (omega arith),
          byte_read (p + 2 - 1) (p + 1) (omega arith) (omega arith),
          byte_read (p + 3 - 1) (p + 2) (omega arith) (omega arith),
          byte_read (p + 4 - 1) (p + 3) (omega arith) (omega arith),
          byte_read (p + 5 - 1) (p + 4) (omega arith) (omega arith),
          byte_read (p + 6 - 1) (p + 5) (omega arith) (omega arith),
          byte_read (p + 7 - 1) (p + 6) (omega arith) (omega arith),
          byte_read (p + 8 - 1) (p + 7) (omega arith) (omega arith),
          ◌>>=◌,
        )
        (ap some (
          assemble _ _ _ _ _ _ _ _ (
            lt p,
            lt (p + 1),
            lt (p + 2),
            lt (p + 3),
            lt (p + 4),
            lt (p + 5),
            lt (p + 6),
            lt (p + 7),
          )))
    where
      lt : (i : ℕ) → byte_at buf i < 256
      lt i = byte_at-lt buf i bytes
