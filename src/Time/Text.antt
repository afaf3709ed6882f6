-- ===== src/Time/Text.antt =====
-- The text of a time: what it looks like, and that it tells times apart.
use tsanalytics.Base.{
  ℕ, suc, ◌+◌, sub_ℕ, ◌*◌, ◌/◌, ◌%◌, ◌≤◌, ◌<◌, ◌≡◌, refl, sym, ap, ◌∙◌, List, [], ◌∷◌, ◌++◌, some,
  length, digits, decimal, zero_padded, IsBytes, byte_at, byte_at-lt, arith,
}
use mathlib.Core.Option.{some-injective}
use mathlib.Core.Path.{ap₂}
use native.Mathlib.Decide.{dec_lt}
use tsanalytics.Time.Calendar.{days_in_month, ordinal, mjd_epoch}
use tsanalytics.Time.Days.{mjd_to_tm-ordinal}
use tsanalytics.Time.Digits.{digits_value, hex_to_digi-digits_value}
use tsanalytics.Time.Timed.{timed, time_to_tm-timed}
use tsanalytics.Time.{Tm, tm_to_text, time_to_tm, full_year, hex_to_digi, mjd_to_tm}

-- One digit, and one more behind the others.
digits_one : (left n : ℕ) → n < 10 → digits (suc left) 10 n ≡ (n + 48) ∷ []
unfolding digits
digits_one left n h = ground arith

digits_more :
    (left n : ℕ) → 10 ≤ n → digits (suc left) 10 n ≡ digits left 10 (n / 10) ++ ((n % 10 + 48) ∷ [])
unfolding digits
digits_more left n h = ground arith

-- Two digits, as `%02d` prints them, and four.
two : (n : ℕ) → n < 100 → zero_padded 2 (decimal n) ≡ (n / 10 + 48) ∷ (n % 10 + 48) ∷ []
two n h = elim (dec_lt n 10) [
  | yes small ↦ rw (digits_one 63 n small) (ground arith)
  | no large ↦ rw (digits_more 63 n (omega arith), digits_one 62 (n / 10) (omega arith)) refl
]

four :
    (n : ℕ)
    → 1000 ≤ n
    → n < 10000
    → decimal n
      ≡ (n / 10 / 10 / 10 + 48) ∷ (n / 10 / 10 % 10 + 48) ∷ (n / 10 % 10 + 48) ∷ (n % 10 + 48) ∷ []
four n low high =
    rw
      (
        digits_more 63 n (omega arith),
        digits_more 62 (n / 10) (omega arith),
        digits_more 61 (n / 10 / 10) (omega arith),
        digits_one 60 (n / 10 / 10 / 10) (omega arith),
      )
      refl

-- The codes of a time's text.
abbrev stamp : ℕ → ℕ → ℕ → ℕ → ℕ → ℕ → List ℕ
stamp y mo d h mi s =
    (y / 10 / 10 / 10 + 48)
    ∷ (y / 10 / 10 % 10 + 48)
    ∷ (y / 10 % 10 + 48)
    ∷ (y % 10 + 48)
    ∷ 45
    ∷ (mo / 10 + 48)
    ∷ (mo % 10 + 48)
    ∷ 45
    ∷ (d / 10 + 48)
    ∷ (d % 10 + 48)
    ∷ 32
    ∷ (h / 10 + 48)
    ∷ (h % 10 + 48)
    ∷ 58
    ∷ (mi / 10 + 48)
    ∷ (mi % 10 + 48)
    ∷ 58
    ∷ (s / 10 + 48)
    ∷ (s % 10 + 48)
    ∷ []

-- A date of the calendar's range, with a time of day in two digits each.
record IsShown (tm : Tm) : Type 0 where
  date : (1858 ≤ full_year tm.tm_year) × (full_year tm.tm_year ≤ 2038)
  month : tm.tm_mon < 12
  day : tm.tm_mday ≤ 31
  hour : tm.tm_hour < 100
  min : tm.tm_min < 100
  sec : tm.tm_sec < 100

tm_to_text-stamp :
    (tm : Tm)
    → IsShown tm
    → tm_to_text tm
      ≡ stamp (full_year tm.tm_year) (tm.tm_mon + 1) tm.tm_mday tm.tm_hour tm.tm_min tm.tm_sec
unfolding tm_to_text
tm_to_text-stamp tm i = rw (
  four (full_year tm.tm_year) (omega (arith, i.date)) (omega (arith, i.date)),
  two (tm.tm_mon + 1) (omega (arith, i.month)),
  two tm.tm_mday (omega (arith, i.day)),
  two tm.tm_hour i.hour,
  two tm.tm_min i.min,
  two tm.tm_sec i.sec,
)

digits_value-lt : (x : ℕ) → x < 256 → digits_value x < 100
digits_value-lt x h = ground arith

hex_to_digi-lt : (x : ℕ) → x < 256 → hex_to_digi x < 100
hex_to_digi-lt x h = rw (hex_to_digi-digits_value x h) (digits_value-lt x h)

days_in_month-le : (y m : ℕ) → days_in_month y m ≤ 31
days_in_month-le y m = ground arith

full_year_is : (y : ℕ) → 1858 ≤ y → full_year (sub_ℕ y 1900) ≡ y
full_year_is y h = ground arith

module _ (tm : Tm) (target : List ℕ) (b : IsBytes target) where
  lt : (i : ℕ) → byte_at target i < 256
  lt i = byte_at-lt target i b

  timed-IsShown : IsShown (timed tm target 0)
  timed-IsShown =
      let (year, date, day, h, m, s) =
        mjd_to_tm-ordinal tm (byte_at target 0 * 256 + byte_at target 1) (omega (arith, lt)) in
      record {
        date = rw (date.year_is, full_year_is year date.years.0) date.years;
        month = date.month;
        day = omega (arith, date.day, days_in_month-le year ((timed tm target 0).tm_mon + 1));
        hour = hex_to_digi-lt (byte_at target 2) (lt 2);
        min = hex_to_digi-lt (byte_at target 3) (lt 3);
        sec = hex_to_digi-lt (byte_at target 4) (lt 4);
      }

  timed-ordinal :
      let t = timed tm target 0 in
      ordinal (full_year t.tm_year) (t.tm_mon + 1) t.tm_mday
      ≡ mjd_epoch + (byte_at target 0 * 256 + byte_at target 1)
  timed-ordinal =
      let mjd : ℕ = byte_at target 0 * 256 + byte_at target 1 in
      let (year, date, day, h, m, s) = mjd_to_tm-ordinal tm mjd (omega (arith, lt)) in
      let t = mjd_to_tm tm mjd in
      ap (λ y. ordinal y (t.tm_mon + 1) t.tm_mday)
        (ap full_year date.year_is ∙ full_year_is year date.years.0)
      ∙ day

  pub length-timed : length (tm_to_text (timed tm target 0)) ≡ 19
  length-timed = ap length (tm_to_text-stamp (timed tm target 0) timed-IsShown)

  -- For a target of at least twelve bytes `time_to_tm` returns, whatever they are, and the text of
  -- its time has exactly the 19 characters that the block of `tm_to_text` has room for.
  pub time_to_tm-text :
      12 ≤ length target
      → (tm' : Tm) × (time_to_tm tm target ≡ some tm') × (length (tm_to_text tm') ≡ 19)
  time_to_tm-text room = (
    timed tm target 0,
    time_to_tm-timed tm target b room,
    ap length (tm_to_text-stamp (timed tm target 0) timed-IsShown),
  )

-- A text shows each part of its time.
stamp-injective :
    (y mo d h mi s y' mo' d' h' mi' s' : ℕ)
    → mo < 100
    → mo' < 100
    → d < 100
    → d' < 100
    → h < 100
    → h' < 100
    → mi < 100
    → mi' < 100
    → s < 100
    → s' < 100
    → stamp y mo d h mi s ≡ stamp y' mo' d' h' mi' s'
    → (y ≡ y') × (mo ≡ mo') × (d ≡ d') × (h ≡ h') × (mi ≡ mi') × (s ≡ s')
stamp-injective y mo d h mi s y' mo' d' h' mi' s' b0 b1 b2 b3 b4 b5 b6 b7 b8 b9 e = (
  omega (arith, at 0, at 1, at 2, at 3),
  omega (arith, at 5, at 6),
  omega (arith, at 8, at 9),
  omega (arith, at 11, at 12),
  omega (arith, at 14, at 15),
  omega (arith, at 17, at 18),
)
  where
    at : (i : ℕ) → byte_at (stamp y mo d h mi s) i ≡ byte_at (stamp y' mo' d' h' mi' s') i
    at i = ap (λ t. byte_at t i) e

same_parts :
    (t t' : Tm)
    → IsShown t
    → IsShown t'
    → tm_to_text t ≡ tm_to_text t'
    → (full_year t.tm_year ≡ full_year t'.tm_year)
      × (t.tm_mon + 1 ≡ t'.tm_mon + 1)
      × (t.tm_mday ≡ t'.tm_mday)
      × (t.tm_hour ≡ t'.tm_hour)
      × (t.tm_min ≡ t'.tm_min)
      × (t.tm_sec ≡ t'.tm_sec)
same_parts t t' i i' e =
    stamp-injective (full_year t.tm_year) (t.tm_mon + 1) t.tm_mday t.tm_hour t.tm_min t.tm_sec
      (full_year t'.tm_year) (t'.tm_mon + 1) t'.tm_mday t'.tm_hour t'.tm_min t'.tm_sec
      (omega (arith, i.month)) (omega (arith, i'.month)) (omega (arith, i.day))
      (omega (arith, i'.day)) i.hour i'.hour i.min i'.min i.sec i'.sec
      (sym (tm_to_text-stamp t i) ∙ e ∙ tm_to_text-stamp t' i')

module _ (tm tm' : Tm) (a b : List ℕ) (good : IsBytes a) (good' : IsBytes b) (room : 12 ≤ length a)
    (room' : 12 ≤ length b) where
  -- Two targets of at least twelve bytes whose times have the same text give the same date and the same time of day: the first two bytes of the targets are
  -- the same, and so are the numbers that `hex_to_digi` makes of the next three.
  pub time_to_tm-same_text :
      (t t' : Tm)
      → time_to_tm tm a ≡ some t
      → time_to_tm tm' b ≡ some t'
      → tm_to_text t ≡ tm_to_text t'
      → (byte_at a 0 ≡ byte_at b 0)
        × (byte_at a 1 ≡ byte_at b 1)
        × (t.tm_hour ≡ t'.tm_hour)
        × (t.tm_min ≡ t'.tm_min)
        × (t.tm_sec ≡ t'.tm_sec)
  time_to_tm-same_text t t' e e' same =
      let shown = timed-IsShown tm a good in
      let shown' = timed-IsShown tm' b good' in
      let is : timed tm a 0 ≡ t = some-injective _ _ (sym (time_to_tm-timed tm a good room) ∙ e) in
      let is' : timed tm' b 0 ≡ t' =
        some-injective _ _ (sym (time_to_tm-timed tm' b good' room') ∙ e') in
      let texts : tm_to_text (timed tm a 0) ≡ tm_to_text (timed tm' b 0) =
        ap tm_to_text is ∙ same ∙ ap tm_to_text (sym is') in
      let (y, mo, d, h, mi, s) = same_parts (timed tm a 0) (timed tm' b 0) shown shown' texts in
      let day : byte_at a 0 * 256 + byte_at a 1 ≡ byte_at b 0 * 256 + byte_at b 1 = omega (
        arith,
        timed-ordinal tm a good,
        timed-ordinal tm' b good',
        ap₂ (λ v (w : ℕ × ℕ). ordinal v w.0 w.1) y (ap₂ (λ v w. (v, w)) mo d),
      ) in
      (
        omega (arith, day, byte_at-lt a 1 good, byte_at-lt b 1 good'),
        omega (arith, day, byte_at-lt a 1 good, byte_at-lt b 1 good'),
        rw (← is, ← is') h,
        rw (← is, ← is') mi,
        rw (← is, ← is') s,
      )
