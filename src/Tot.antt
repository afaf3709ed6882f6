-- ===== src/Tot.antt =====
-- m2tlib/tot.c: the table that carries the date and the time.
pub mod Timed
use tsanalytics.Base.{ℕ, ◌==◌, not, ltb, ◌||◌, if◌then◌else◌, List, Option, drop, u8, u16}
use tsanalytics.Reader.{◌>>=◌, return, get, lift, run}
use tsanalytics.Time.{Tm, time_to_tm}

-- `TS_TOT`
pub record Tot : Type 0 where
  pub table_id : ℕ
  pub section_syntax_indicator : ℕ
  pub section_length : ℕ
  pub jst_time : List ℕ
  pub tm : Tm
  pub mjd : ℕ
  pub disable : ℕ

-- The new `*out`.
pub st_tot : Tot → List ℕ → Option Tot
st_tot out buf = run (do
  table ← get buf 8
  syntax ← get buf 1
  gomi₁ ← get buf 1
  gomi₂ ← get buf 2
  len ← get buf 12
  let out' = record out {
    table_id = u8 table;
    section_syntax_indicator = u8 syntax;
    section_length = u16 len;
  }
  if not (u8 table == 0x73) || (u8 syntax == 1) || ltb 1021 (u16 len)
      then return (record out' { disable = 1 })
      else (do
        tm ← lift (time_to_tm out.tm (drop 3 buf))
        return (record out' { disable = 0; tm = tm })))
