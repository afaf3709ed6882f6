-- ===== src/Tot/Timed.antt =====
-- `st_tot` as a function of the section's bytes.
use tsanalytics.Base.{
  ℕ, ◌/◌, ◌≤◌, ◌<◌, ◌≡◌, ◌≢◌, ◌⊎◌, inl, inr, refl, ap, ◌∙◌, ◌==◌, not, ltb, ◌||◌, Bool-cases, List,
  some, length, length-drop, get_or-drop, drop, drop-IsBytes, IsBytes, byte_at, byte_at-lt, u8, u16,
  arith,
}
use tsanalytics.Reader.{◌>>=◌, lift, run}
use tsanalytics.Crc.Total.{section_length}
use tsanalytics.SectionHeader.{get_table, get_syntax, get_zero, get_reserved, get_length}
use tsanalytics.Time.{time_to_tm}
use tsanalytics.Time.Timed.{timed, time_to_tm-timed}
use tsanalytics.Tot.{Tot, st_tot}

-- What a section leaves in `*out`, by whether it is a valid table of the time.
pub data Outcome (buf : List ℕ) (out tot : Tot) : Type 0 where
  valid :
      byte_at buf 0 ≡ 0x73
      → byte_at buf 1 / 128 ≡ 0
      → section_length buf ≤ 1021
      → tot.disable ≡ 0
      → tot.tm ≡ timed out.tm buf 3
      → Outcome buf out tot
  invalid :
      (byte_at buf 0 ≢ 0x73) ⊎ ((byte_at buf 1 / 128 ≡ 1) ⊎ (1021 < section_length buf))
      → tot.disable ≡ 1
      → tot.tm ≡ out.tm
      → Outcome buf out tot

module _ (out : Tot) (buf : List ℕ) (b : IsBytes buf) (room : 15 ≤ length buf) where
  lt : (i : ℕ) → byte_at buf i < 256
  lt i = byte_at-lt buf i b

  table_small : u8 (byte_at buf 0) ≡ byte_at buf 0
  table_small = omega (arith, lt 0)

  syntax_small : u8 (byte_at buf 1 / 128) ≡ byte_at buf 1 / 128
  syntax_small = omega (arith, lt 1)

  length_small : u16 (section_length buf) ≡ section_length buf
  length_small = omega (arith, lt 1, lt 2)

  pub shifted : timed out.tm (drop 3 buf) 0 ≡ timed out.tm buf 3
  shifted = simp (get_or-drop 3 buf)

  read_time : time_to_tm out.tm (drop 3 buf) ≡ some (timed out.tm buf 3)
  read_time =
      time_to_tm-timed out.tm (drop 3 buf) (drop-IsBytes 3 buf b) (omega (arith, length-drop 3 buf))
      ∙ ap some shifted

  -- For a section of at least fifteen bytes in its block, `st_tot` returns. A section with table
  -- id 0x73, a syntax indicator of 0 and a length up to 1021 is valid and gives the date and the
  -- time of its five bytes; any other is disabled and leaves the time as it was.
  pub st_tot-Outcome : (tot : Tot) × (st_tot out buf ≡ some tot) × Outcome buf out tot
  unfolding st_tot
  st_tot-Outcome =
      elim (Bool-cases (
        not (byte_at buf 0 == 0x73)
        || (byte_at buf 1 / 128 == 1)
        || ltb 1021 (section_length buf))) [
          | inl e ↦ (
            record out {
              table_id = u8 (byte_at buf 0);
              section_syntax_indicator = u8 (byte_at buf 1 / 128);
              section_length = u16 (section_length buf);
              disable = 1;
            },
            rw (
              get_table buf b room,
              run,
              ◌>>=◌,
              get_syntax buf b room,
              get_zero buf b room,
              get_reserved buf b room,
              get_length buf b room,
              table_small,
              syntax_small,
              length_small,
              e,
            ),
            invalid (ground arith) refl refl,
          )
          | inr e ↦ (
            record out {
              table_id = u8 (byte_at buf 0);
              section_syntax_indicator = u8 (byte_at buf 1 / 128);
              section_length = u16 (section_length buf);
              disable = 0;
              tm = timed out.tm buf 3;
            },
            rw
                (
                  get_table buf b room,
                  run,
                  ◌>>=◌,
                  get_syntax buf b room,
                  get_zero buf b room,
                  get_reserved buf b room,
                  get_length buf b room,
                  table_small,
                  syntax_small,
                  length_small,
                  e,
                  read_time,
                  lift,
                )
                (λ i. some (record out {
                  table_id = table_small i;
                  section_syntax_indicator = syntax_small i;
                  section_length = length_small i;
                  disable = 0;
                  tm = timed out.tm buf 3;
                })),
            valid (ground arith) (ground (arith, lt 1)) (ground arith) refl refl,
          )
        ]
