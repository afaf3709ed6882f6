-- ===== src/Tests/Clock.antt =====
-- The date, the time and the table that carries them.
use tsanalytics.Base.{
  ℕ, ◌+◌, length, byte_at, ap, sym, ◌∙◌, ◌≡◌, refl, List, [], ◌∷◌, some, IsBytes, arith,
}
use tsanalytics.Tests.Data.{padded, padded-IsBytes, no_tot}
use tsanalytics.Time.{Tm, hex_to_digi, mjd_to_tm, full_year, time_to_tm, tm_to_text}
use tsanalytics.Time.Timed.{timed, time_to_tm-timed}
use tsanalytics.Time.Text.{time_to_tm-text, time_to_tm-same_text}
use tsanalytics.Time.Digits.{hex_to_digi-digits_value}
use tsanalytics.Time.Calendar.{IsDate, ordinal, mjd_epoch}
use tsanalytics.Time.Days.{mjd_to_tm-ordinal}
use tsanalytics.Tot.{Tot, st_tot}
use tsanalytics.Tot.Timed.{Outcome, st_tot-Outcome}
use tsanalytics.Analysis.{tm_zero}

mjd_to_tm_example :
    let tm = mjd_to_tm tm_zero 57754 in
    (year : ℕ) × IsDate tm year
    × (ordinal year (tm.tm_mon + 1) tm.tm_mday ≡ mjd_epoch + 57754)
    × (tm.tm_hour ≡ 0)
    × (tm.tm_min ≡ 0)
    × (tm.tm_sec ≡ 0)
mjd_to_tm_example = mjd_to_tm-ordinal tm_zero 57754 (omega arith)

-- The day is 1 January 2017.
new_year : full_year ((mjd_to_tm tm_zero 57754).tm_year) ≡ 2017
unfolding mjd_to_tm
new_year = refl

abbrev tot_section : List ℕ
tot_section = padded (0x73 ∷ 0x70 ∷ 11 ∷ 0xe1 ∷ 0x9a ∷ 0x12 ∷ 0x34 ∷ 0x56 ∷ []) 191

tot_section-IsBytes : IsBytes tot_section
tot_section-IsBytes =
    padded-IsBytes (0x73 ∷ 0x70 ∷ 11 ∷ 0xe1 ∷ 0x9a ∷ 0x12 ∷ 0x34 ∷ 0x56 ∷ []) 191 (omega arith)

st_tot-Outcome_example :
    (tot : Tot) × (st_tot no_tot tot_section ≡ some tot) × Outcome tot_section no_tot tot
st_tot-Outcome_example = st_tot-Outcome no_tot tot_section tot_section-IsBytes (omega arith)

-- The time of a table, and the same with a letter for its seconds.
abbrev clock : List ℕ
clock = padded (0xe1 ∷ 0x9a ∷ 0x12 ∷ 0x34 ∷ 0x5a ∷ []) 7

abbrev same_clock : List ℕ
same_clock = padded (0xe1 ∷ 0x9a ∷ 0x12 ∷ 0x34 ∷ 0x05 ∷ []) 7

clock-IsBytes : IsBytes clock
clock-IsBytes = padded-IsBytes (0xe1 ∷ 0x9a ∷ 0x12 ∷ 0x34 ∷ 0x5a ∷ []) 7 (omega arith)

same_clock-IsBytes : IsBytes same_clock
same_clock-IsBytes = padded-IsBytes (0xe1 ∷ 0x9a ∷ 0x12 ∷ 0x34 ∷ 0x05 ∷ []) 7 (omega arith)

time_to_tm-text_example :
    (tm : Tm) × (time_to_tm tm_zero clock ≡ some tm) × (length (tm_to_text tm) ≡ 19)
time_to_tm-text_example = time_to_tm-text tm_zero clock clock-IsBytes (omega arith)

-- The number of the digit 5 with a letter behind it is 5.
same_seconds : hex_to_digi 0x5a ≡ hex_to_digi 0x05
same_seconds =
    hex_to_digi-digits_value 0x5a (omega arith) ∙ sym (hex_to_digi-digits_value 0x05 (omega arith))

same_clock-text : tm_to_text (timed tm_zero clock 0) ≡ tm_to_text (timed tm_zero same_clock 0)
same_clock-text = ap (λ s. tm_to_text (record (timed tm_zero clock 0) { tm_sec = s })) same_seconds

time_to_tm-same_text_example :
    (byte_at clock 0 ≡ byte_at same_clock 0)
    × (byte_at clock 1 ≡ byte_at same_clock 1)
    × (hex_to_digi 0x12 ≡ hex_to_digi 0x12)
    × (hex_to_digi 0x34 ≡ hex_to_digi 0x34)
    × (hex_to_digi 0x5a ≡ hex_to_digi 0x05)
time_to_tm-same_text_example =
    time_to_tm-same_text tm_zero tm_zero clock same_clock clock-IsBytes same_clock-IsBytes
      (omega arith) (omega arith) (timed tm_zero clock 0) (timed tm_zero same_clock 0)
      (time_to_tm-timed tm_zero clock clock-IsBytes (omega arith))
      (time_to_tm-timed tm_zero same_clock same_clock-IsBytes (omega arith)) same_clock-text
