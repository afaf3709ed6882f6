-- ===== src/Analysis/Buffers.antt =====
-- The position and the time as text: they fit the 32 bytes that the loop keeps them in.
use native.Mathlib.Nat.{div-le_self}
use native.Mathlib.Numerals.{unary_clauses}
use tsanalytics.Base.{
  ℕ, zero, suc, ◌*◌, ◌/◌, ◌%◌, ◌^◌, ◌≤◌, ◌<◌, ◌≡◌, inl, inr, sym, ap, ltb, digit, ◌∙◌, Bool-cases,
  List, [], ◌∷◌, length, length-append, digits, drop, drop-IsBytes, u64, IsBytes, arith,
}
use tsanalytics.DropList.Short.{Fits}
use tsanalytics.Time.{tm_to_text}
use tsanalytics.Time.Text.{length-timed}
use tsanalytics.Tot.{Tot}
use tsanalytics.Tot.Timed.{Outcome, valid, invalid, shifted}
use tsanalytics.Analysis.{percent}

-- A number below 10 ^ m has at most m digits.
length-digits : (left m n : ℕ) → n < 10 ^ suc m → length (digits left 10 n) ≤ suc m
unfolding digits
length-digits zero m n h = omega arith
length-digits (suc left) zero n h = ground arith
length-digits (suc left) (suc m) n h = elim (Bool-cases (ltb n 10)) [
  | inl small ↦ rw small (omega arith)
  | inr large ↦ rw large (
      omega (
        arith,
        length-append (digits left 10 (n / 10)) (digit (n % 10) ∷ []),
        length-digits left m (n / 10) (omega (arith, simp unary_clauses at h)),
      ))
]

-- The position in the file, in percent.
pub percent-Fits : (total i : ℕ) → Fits (percent total i)
percent-Fits total i = omega (
  arith,
  length-digits 64 19 (u64 (i * 100) / total) (omega (arith, div-le_self (u64 (i * 100)) total)),
)

-- The time of a valid table.
pub Outcome-Fits :
    (buf : List ℕ) (out tot : Tot)
    → IsBytes buf
    → 15 ≤ length buf
    → tot.disable ≡ 0
    → Outcome buf out tot
    → Fits (tm_to_text tot.tm)
Outcome-Fits buf out tot b room on (valid table syntax short enabled e) = omega (
  arith,
  ap (λ t. length (tm_to_text t)) (e ∙ sym (shifted out buf b room)),
  length-timed out.tm (drop 3 buf) (drop-IsBytes 3 buf b),
)
Outcome-Fits buf out tot b room on (invalid why disabled same) =
    absurd (omega (arith, on, disabled))
