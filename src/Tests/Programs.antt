-- ===== src/Tests/Programs.antt =====
-- The program association table.
use tsanalytics.Base.{
  ℕ, zero, suc, ◌+◌, ◌*◌, ◌≡◌, ◌≢◌, ◌<◌, refl, List, [], ◌∷◌, none, some, IsBytes, arith,
}
use tsanalytics.Tests.Data.{padded, padded-IsBytes, no_pat}
use tsanalytics.Pat.{Pat, st_pat, get_pmt_pid}
use tsanalytics.Pat.Entry.{program_at}
use tsanalytics.Pat.Table.{Listed, st_pat-Listed, get_pmt_pid-first, st_pat-none}

-- A section with the network's PID and the map of program 0x400.
abbrev section_front : List ℕ
section_front =
    0 ∷ 0xb0 ∷ 17 ∷ 0x7f ∷ 0xe0 ∷ 0xc1 ∷ 0 ∷ 0 ∷ 0 ∷ 0 ∷ 0xe0 ∷ 0x10 ∷ 4 ∷ 0 ∷ 0xe1 ∷ 0xf0 ∷ []

abbrev pat_section : List ℕ
pat_section = padded section_front 190

pat_section-IsBytes : IsBytes pat_section
pat_section-IsBytes = padded-IsBytes section_front 190 (omega arith)

st_pat-Listed_example :
    (pat : Pat) × (st_pat no_pat pat_section ≡ some pat) × Listed pat_section pat
st_pat-Listed_example =
    st_pat-Listed pat_section pat_section-IsBytes (omega arith) (omega arith) no_pat

get_pmt_pid-first_example :
    (pat : Pat) × (st_pat no_pat pat_section ≡ some pat) × (get_pmt_pid pat 0x400 ≡ 0x1f0)
get_pmt_pid-first_example =
    get_pmt_pid-first pat_section pat_section-IsBytes (omega arith) (omega arith) no_pat 0x400 1
      (omega arith) (omega arith) refl before
  where
    before : (j : ℕ) → j < 1 → program_at pat_section (8 + j * 4) ≢ 0x400
    before zero h e = omega arith
    before (suc j) h e = omega arith

-- A section of five bytes behind its length.
abbrev short_section : List ℕ
short_section = padded (0 ∷ 0xb0 ∷ 5 ∷ []) 193

st_pat-none_example : st_pat no_pat short_section ≡ none
st_pat-none_example =
    st_pat-none no_pat short_section (padded-IsBytes (0 ∷ 0xb0 ∷ 5 ∷ []) 193 (omega arith))
      (omega arith) (omega arith) (omega arith)
