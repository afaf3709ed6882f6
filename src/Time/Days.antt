-- ===== src/Time/Days.antt =====
-- `mjd_to_tm` at every 16-bit Modified Julian Date.
use tsanalytics.Base.{ℕ, ◌+◌, ◌<◌, ◌≡◌, refl, Bool, true, sub_ℕ}
use tsanalytics.Time.{Tm, mjd_to_tm, full_year}
use tsanalytics.Base.{all_below, all_below-apply}
use tsanalytics.Time.Calendar.{IsDate, ordinal, mjd_epoch, is_day, is_day-IsDate}

abbrev some_tm : Tm
some_tm = record {
  tm_sec = 0;
  tm_min = 0;
  tm_hour = 0;
  tm_mday = 0;
  tm_mon = 0;
  tm_year = sub_ℕ 0 0;
}

is_right : ℕ → Bool
is_right mjd = is_day (mjd_to_tm some_tm mjd) mjd

every_day : all_below 65536 is_right ≡ true
unfolding all_below is_right is_day mjd_to_tm
every_day = refl

some_day :
    (mjd : ℕ)
    → mjd < 65536
    → let tm = mjd_to_tm some_tm mjd in
      IsDate tm (full_year tm.tm_year)
      × (ordinal (full_year tm.tm_year) (tm.tm_mon + 1) tm.tm_mday ≡ mjd_epoch + mjd)
unfolding is_right
some_day mjd small =
    is_day-IsDate (mjd_to_tm some_tm mjd) mjd (all_below-apply 65536 is_right mjd every_day small)

-- Every 16-bit Modified Julian Date becomes the date of the Gregorian calendar that lies so many
-- days behind 17 November 1858. The time of day stays as it was.
pub mjd_to_tm-ordinal :
    (tm : Tm) (mjd : ℕ)
    → mjd < 65536
    → let tm' = mjd_to_tm tm mjd in
      (year : ℕ) × IsDate tm' year
      × (ordinal year (tm'.tm_mon + 1) tm'.tm_mday ≡ mjd_epoch + mjd)
      × (tm'.tm_hour ≡ tm.tm_hour)
      × (tm'.tm_min ≡ tm.tm_min)
      × (tm'.tm_sec ≡ tm.tm_sec)
unfolding mjd_to_tm
mjd_to_tm-ordinal tm mjd small =
    let (date, day) = some_day mjd small in
    (
      full_year (mjd_to_tm some_tm mjd).tm_year,
      record { year_is = date.year_is; years = date.years; month = date.month; day = date.day },
      day,
      refl,
      refl,
      refl,
    )
