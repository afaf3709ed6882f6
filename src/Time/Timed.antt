-- ===== src/Time/Timed.antt =====
-- `time_to_tm` as a function of the target's bytes.
use tsanalytics.Base.{
  ℕ, ◌+◌, ◌*◌, ◌≤◌, ◌<◌, ◌≡◌, refl, List, some, length, IsBytes, byte_at, byte_at-lt, u8, u16,
  arith,
}
use native.Mathlib.Nat.{mod-eq_of_lt}
use tsanalytics.GetBit.{get_bit}
use tsanalytics.GetBit.Word.{word}
use tsanalytics.GetBit.Stream.{get_at}
use tsanalytics.Reader.{◌>>=◌, run}
use tsanalytics.Time.{Tm, hex_to_digi, mjd_to_tm, time_to_tm}

-- The date and the time in five bytes from `k` on: 16 bits of date, and three bytes of digits.
abbrev pub timed : Tm → List ℕ → ℕ → Tm
timed tm buf k = record (mjd_to_tm tm (byte_at buf k * 256 + byte_at buf (k + 1))) {
  tm_hour = hex_to_digi (byte_at buf (k + 2));
  tm_min = hex_to_digi (byte_at buf (k + 3));
  tm_sec = hex_to_digi (byte_at buf (k + 4));
}

module _ (tm : Tm) (target : List ℕ) (b : IsBytes target) (room : 12 ≤ length target) where
  lt : (i : ℕ) → byte_at target i < 256
  lt i = byte_at-lt target i b

  get_mjd : get_bit target 0 16 ≡ some (byte_at target 0 * 256 + byte_at target 1, 16)
  unfolding word
  get_mjd = get_at target b 0 0 0 16 refl (omega arith) (omega arith) (omega (arith, lt)) refl

  get_hour : get_bit target 16 8 ≡ some (byte_at target 2, 24)
  unfolding word
  get_hour = get_at target b 16 2 0 8 refl (omega arith) (omega arith) (omega (arith, lt)) refl

  get_min : get_bit target 24 8 ≡ some (byte_at target 3, 32)
  unfolding word
  get_min = get_at target b 24 3 0 8 refl (omega arith) (omega arith) (omega (arith, lt)) refl

  get_sec : get_bit target 32 8 ≡ some (byte_at target 4, 40)
  unfolding word
  get_sec = get_at target b 32 4 0 8 refl (omega arith) (omega arith) (omega (arith, lt)) refl

  mjd_small :
      u16 (byte_at target 0 * 256 + byte_at target 1) ≡ byte_at target 0 * 256 + byte_at target 1
  mjd_small = omega (arith, lt 0, lt 1)

  byte_small : (i : ℕ) → u8 (byte_at target i) ≡ byte_at target i
  byte_small i = mod-eq_of_lt (lt i)

  -- The date and the time in the target's first five bytes; twelve of them are read.
  pub time_to_tm-timed : time_to_tm tm target ≡ some (timed tm target 0)
  unfolding time_to_tm
  time_to_tm-timed = rw (
    get_mjd,
    run,
    ◌>>=◌,
    get_hour,
    get_min,
    get_sec,
    mjd_small,
    byte_small 2,
    byte_small 3,
    byte_small 4,
  )
