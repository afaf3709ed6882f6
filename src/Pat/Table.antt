-- ===== src/Pat/Table.antt =====
-- `st_pat` as a function of the section's bytes, and what becomes of its list of nodes.
use tsanalytics.Base.{
  ℕ, ◌+◌, ◌-◌, ◌*◌, ◌/◌, ◌%◌, ◌≤◌, ◌<◌, ◌≡◌, ◌≢◌, refl, ap, ◌∙◌, List, [], none, some, length,
  IsBytes, byte_at, byte_at-lt, u16, arith,
}
use tsanalytics.Crc.Total.{section_length}
use tsanalytics.Pat.{Pat, count_pids, st_pat, read_pids, get_pmt_pid, free_pat_pids}
use tsanalytics.Pat.Header.{filled, st_pat-entries, st_pat_past}
use tsanalytics.Pat.Entry.{program_at, pid_at, entries, read_pids-entries, read_pids-none}
use tsanalytics.Pat.Search.{find_pmt-entries, find_pmt-none, free_pids-entries}

-- The number of entries between the section's header and its CRC.
abbrev pub entry_count : List ℕ → ℕ
entry_count buf = (section_length buf - 9) / 4

-- The table that a section holds.
pub record Listed (buf : List ℕ) (pat : Pat) : Type 0 where
  pub table : pat.table_id ≡ byte_at buf 0
  pub syntax : pat.section_syntax_indicator ≡ byte_at buf 1 / 128
  pub length : pat.section_length ≡ section_length buf
  pub stream : pat.transport_stream_id ≡ byte_at buf 3 * 256 + byte_at buf 4
  pub version : pat.version_number ≡ byte_at buf 5 / 2 % 32
  pub current : pat.current_next_indicator ≡ byte_at buf 5 % 2
  pub section : pat.section_number ≡ byte_at buf 6
  pub last : pat.last_section_number ≡ byte_at buf 7
  pub count : pat.num_of_pids ≡ entry_count buf
  pub pids : pat.pids ≡ entries buf (entry_count buf) 8

module _ (buf : List ℕ) (b : IsBytes buf) (long : 9 ≤ section_length buf)
    (room : section_length buf + 8 ≤ length buf) where
  lt : (i : ℕ) → byte_at buf i < 256
  lt i = byte_at-lt buf i b

  counted : count_pids (u16 (section_length buf)) ≡ entry_count buf
  unfolding count_pids
  counted = ground (arith, lt 1, lt 2)

  -- For a section with its header and its CRC, and at least five bytes behind it in the block,
  -- `st_pat` returns, with the header's fields and one node for each entry, in order. A list that
  -- `*out` had before is dropped.
  pub st_pat-Listed : (out : Pat) → (pat : Pat) × (st_pat out buf ≡ some pat) × Listed buf pat
  st_pat-Listed out = (
    filled buf b (omega arith) out (entry_count buf) (entries buf (entry_count buf) 8),
    st_pat-entries buf b (omega arith) out (entries buf (entry_count buf) 8) _ (
          ap (λ n. read_pids buf n (8 * 8)) counted
          ∙ read_pids-entries buf b (entry_count buf) 8 (omega arith) (omega (arith, lt 1, lt 2)))
        ∙ ap (λ n. some (filled buf b (omega arith) out n (entries buf (entry_count buf) 8)))
            counted,
    record {
      table = omega (arith, lt);
      syntax = omega (arith, lt);
      length = omega (arith, lt);
      stream = omega (arith, lt);
      version = omega (arith, lt);
      current = omega (arith, lt);
      section = omega (arith, lt);
      last = omega (arith, lt);
      count = refl;
      pids = refl;
    },
  )

  -- In a section with its header and its CRC, and at least five bytes behind it in the block, the
  -- first entry with the number of a service, which is not 0, gives the PID of its map.
  pub get_pmt_pid-first :
      (out : Pat) (service_id i : ℕ)
      → service_id ≢ 0
      → i < entry_count buf
      → program_at buf (8 + i * 4) ≡ service_id
      → ((j : ℕ) → j < i → program_at buf (8 + j * 4) ≢ service_id)
      → (pat : Pat) × (st_pat out buf ≡ some pat)
        × (get_pmt_pid pat service_id ≡ pid_at buf (8 + i * 4))
  unfolding get_pmt_pid
  get_pmt_pid-first out service_id i some_id inside found before =
      let (pat, e, listed) = st_pat-Listed out in
      (
        pat,
        e,
        rw (listed.count, listed.pids)
            (find_pmt-entries buf (entry_count buf) 8 i service_id some_id inside found before),
      )

  -- In a section with its header and its CRC, and at least five bytes behind it in the block, a
  -- service that no entry names gives 0, and so does the service number 0.
  get_pmt_pid-none :
      (out : Pat) (service_id : ℕ)
      → ((j : ℕ) → j < entry_count buf → program_at buf (8 + j * 4) ≡ service_id → service_id ≡ 0)
      → (pat : Pat) × (st_pat out buf ≡ some pat) × (get_pmt_pid pat service_id ≡ 0)
  unfolding get_pmt_pid
  get_pmt_pid-none out service_id unnamed =
      let (pat, e, listed) = st_pat-Listed out in
      (
        pat,
        e,
        rw (listed.count, listed.pids) (find_pmt-none buf (entry_count buf) 8 service_id unnamed),
      )

  -- `free_pat_pids` frees every node that `st_pat` made for a section with its header and its
  -- CRC, and at least five bytes behind it in the block.
  free_pat_pids-st_pat :
      (out : Pat)
      → (pat : Pat) × (st_pat out buf ≡ some pat)
        × (free_pat_pids pat ≡ (record pat { pids = [] }, []))
  unfolding free_pat_pids
  free_pat_pids-st_pat out =
      let (pat, e, listed) = st_pat-Listed out in
      (pat, e, rw (listed.count, listed.pids, free_pids-entries buf (entry_count buf) 8))

-- With a section length below 6, the count of entries is negative and wraps to 65534 or more:
-- `st_pat` reads past the block, if that has from 15 to 200000 bytes.
pub st_pat-none :
    (out : Pat) (buf : List ℕ)
    → IsBytes buf
    → section_length buf < 6
    → 15 ≤ length buf
    → length buf ≤ 200000
    → st_pat out buf ≡ none
st_pat-none out buf b short header small = st_pat_past buf b header out (
    read_pids-none buf b (count_pids (u16 (section_length buf))) 8 (omega (arith, many, few))
      (omega (arith, many)) (omega (arith, few)))
  where
    many : 65534 ≤ count_pids (u16 (section_length buf))
    many = unfold count_pids in ground arith

    few : count_pids (u16 (section_length buf)) < 65536
    few = unfold count_pids in ground arith
