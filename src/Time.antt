-- ===== src/Time.antt =====
-- m2tlib/util.c: the five bytes that give a date and a time, and their text.
pub mod Digits
pub mod Calendar
pub mod Days
pub mod Timed
pub mod Text
use tsanalytics.Base.{
  ℕ, zero, ◌+◌, ◌-◌, ◌*◌, ◌/◌, ◌%◌, ltb, leb, ◌&&◌, if◌then◌else◌, List, [], ◌∷◌, ◌++◌, Option, u8,
  u16, ℤ, pos_part, neg_part, sub_ℕ, codes, decimal, hexadecimal, zero_padded,
}
use tsanalytics.Reader.{◌>>=◌, return, get, run}

-- The members of `struct tm` that the program uses.
pub record Tm : Type 0 where
  pub tm_sec : ℕ
  pub tm_min : ℕ
  pub tm_hour : ℕ
  pub tm_mday : ℕ
  pub tm_mon : ℕ
  pub tm_year : ℤ

-- `atoi` of a text that begins with digits, with the value of those before it.
pub atoi_from : ℕ → List ℕ → ℕ
atoi_from acc [] = acc
atoi_from acc (c ∷ rest) =
    let value = atoi_from (acc * 10 + (c - 48)) rest in if leb 48 c && leb c 57 then value else acc

-- `sprintf(str, "%X", x)` and `atoi(str)`
pub hex_to_digi : ℕ → ℕ
hex_to_digi x = u8 (atoi_from 0 (hexadecimal x))

-- `mjd` has 16 bits at each call, where `int` holds every value and none but the year is
-- negative.
unfoldable pub mjd_to_tm : Tm → ℕ → Tm
mjd_to_tm tm mjd =
    let jd = mjd + 2400001 in
    let a = (4 * jd - 17918) / 146097 in
    let b = (3 * a + 2) / 4 in
    let jd' = 4 * (jd + b - 37) in
    let dtmp = 10 * ((jd' - 237) % 1461 / 4) + 5 in
    record tm {
      tm_year = sub_ℕ (jd' / 1461) (4712 + 1900);
      tm_mon = (dtmp / 306 + 2) % 12;
      tm_mday = dtmp % 306 / 10 + 1;
    }

unfoldable pub time_to_tm : Tm → List ℕ → Option Tm
time_to_tm tm target = run (do
  mjd ← get target 16
  let tm' = mjd_to_tm tm (u16 mjd)
  hour ← get target 8
  min ← get target 8
  sec ← get target 8
  return (record tm' {
    tm_hour = hex_to_digi (u8 hour);
    tm_min = hex_to_digi (u8 min);
    tm_sec = hex_to_digi (u8 sec);
  }))

-- `tm_year + 1900`, where that is not negative.
abbrev pub full_year : ℤ → ℕ
full_year year = pos_part year + 1900 - neg_part year

-- `strftime` with `%Y-%m-%d %H:%M:%S`
pub tm_to_text : Tm → List ℕ
tm_to_text tm =
    decimal (full_year tm.tm_year)
    ++ codes "-"
    ++ zero_padded 2 (decimal (tm.tm_mon + 1))
    ++ codes "-"
    ++ zero_padded 2 (decimal tm.tm_mday)
    ++ codes " "
    ++ zero_padded 2 (decimal tm.tm_hour)
    ++ codes ":"
    ++ zero_padded 2 (decimal tm.tm_min)
    ++ codes ":"
    ++ zero_padded 2 (decimal tm.tm_sec)
