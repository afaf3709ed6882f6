-- ===== src/Time/Digits.antt =====
-- `hex_to_digi` reads the two hexadecimal digits of a byte as decimal ones.
use tsanalytics.Base.{
  all_below, all_below-apply, ℕ, ◌+◌, ◌*◌, ◌/◌, ◌%◌, ◌<◌, ◌≡◌, refl, ◌==◌, ltb, if◌then◌else◌, Bool,
  true, ==_iff, digits,
}
use tsanalytics.Time.{atoi_from, hex_to_digi}

-- Two digits up to nine give their decimal number. A letter ends the number: behind a digit it
-- leaves that digit, and in front it leaves 0.
abbrev pub digits_value : ℕ → ℕ
digits_value x =
    if ltb (x / 16) 10 then (if ltb (x % 16) 10 then x / 16 * 10 + x % 16 else x / 16) else 0

is_digits_value : ℕ → Bool
is_digits_value x = hex_to_digi x == digits_value x

every_byte : all_below 256 is_digits_value ≡ true
unfolding all_below is_digits_value hex_to_digi atoi_from digits
every_byte = refl

-- For every byte, `hex_to_digi` is the decimal number of its two hexadecimal digits, if both are
-- up to nine, else the first digit if that is up to nine, and else 0.
pub hex_to_digi-digits_value : (x : ℕ) → x < 256 → hex_to_digi x ≡ digits_value x
unfolding is_digits_value
hex_to_digi-digits_value x h =
    (==_iff (hex_to_digi x) (digits_value x)).0 (all_below-apply 256 is_digits_value x every_byte h)
