-- ===== src/Time/Calendar.antt =====
-- `mjd_to_tm` against the Gregorian calendar.
use tsanalytics.Base.{
  ℕ, zero, suc, ◌+◌, ◌-◌, ◌*◌, ◌/◌, ◌%◌, ◌≤◌, ◌<◌, ◌≡◌, ◌==◌, leb, ltb, not, ltb→lt, leb→le, ==_iff,
  ◌||◌, ◌&&◌, if◌then◌else◌, Bool, true, arith, get_or, [], ◌∷◌, ℤ, pos, negsuc, sub_ℕ,
}
use tsanalytics.Time.{Tm, full_year}

-- The Gregorian calendar.
abbrev pub is_leap : ℕ → Bool
is_leap y = (y % 4 == 0) && (not (y % 100 == 0) || (y % 400 == 0))

-- January is month 1.
abbrev pub days_in_month : ℕ → ℕ → ℕ
days_in_month y m =
    let february = if is_leap y then 29 else 28 in
    get_or (0 ∷ 31 ∷ february ∷ 31 ∷ 30 ∷ 31 ∷ 30 ∷ 31 ∷ 31 ∷ 30 ∷ 31 ∷ 30 ∷ 31 ∷ []) m 0

-- The days in front of month `m` of year `y`, and in front of year `y`.
abbrev pub days_before_month : ℕ → ℕ → ℕ
days_before_month y zero = 0
days_before_month y (suc zero) = 0
days_before_month y (suc (suc m)) = days_before_month y (suc m) + days_in_month y (suc m)

abbrev pub days_before_year : ℕ → ℕ
days_before_year y = (y - 1) * 365 + (y - 1) / 4 - (y - 1) / 100 + (y - 1) / 400

-- The number of a day, counted from the first day of year 1.
abbrev pub ordinal : ℕ → ℕ → ℕ → ℕ
ordinal y m d = days_before_year y + days_before_month y m + d

-- The Modified Julian Date counts the days from 17 November 1858.
abbrev pub mjd_epoch : ℕ
mjd_epoch = ordinal 1858 11 17

-- A date of the calendar, from `year` 1858 on.
pub record IsDate (tm : Tm) (year : ℕ) : Type 0 where
  pub year_is : tm.tm_year ≡ sub_ℕ year 1900
  pub years : (1858 ≤ year) × (year ≤ 2038)
  pub month : tm.tm_mon < 12
  pub day : (1 ≤ tm.tm_mday) × (tm.tm_mday ≤ days_in_month year (tm.tm_mon + 1))

-- The test for such a date, and for its distance from the epoch.
unfoldable pub is_day : Tm → ℕ → Bool
is_day tm mjd =
    let year = full_year tm.tm_year in
    leb 1858 year
    && leb year 2038
    && ltb tm.tm_mon 12
    && leb 1 tm.tm_mday
    && leb tm.tm_mday (days_in_month year (tm.tm_mon + 1))
    && (ordinal year (tm.tm_mon + 1) tm.tm_mday == mjd_epoch + mjd)

full_year-sub_ℕ : (z : ℤ) → 1858 ≤ full_year z → z ≡ sub_ℕ (full_year z) 1900
full_year-sub_ℕ (pos n) h = ground arith
full_year-sub_ℕ (negsuc n) h = ground arith

-- `ground` would compute the calendar: the tests are taken apart over variables.
six :
    (a b c d e f : Bool)
    → (a && b && c && d && e && f) ≡ true
    → (a ≡ true) × (b ≡ true) × (c ≡ true) × (d ≡ true) × (e ≡ true) × (f ≡ true)
six a b c d e f h = ground arith

pub is_day-IsDate :
    (tm : Tm) (mjd : ℕ)
    → is_day tm mjd ≡ true
    → IsDate tm (full_year tm.tm_year)
      × (ordinal (full_year tm.tm_year) (tm.tm_mon + 1) tm.tm_mday ≡ mjd_epoch + mjd)
unfolding is_day
is_day-IsDate tm mjd h =
    let (low, high, month, first, last, day) = six _ _ _ _ _ _ h in
    (
      record {
        year_is = full_year-sub_ℕ tm.tm_year (leb→le _ _ low);
        years = (leb→le _ _ low, leb→le _ _ high);
        month = ltb→lt _ _ month;
        day = (leb→le _ _ first, leb→le _ _ last);
      },
      (==_iff _ _).0 day,
    )
