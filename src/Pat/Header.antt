-- ===== src/Pat/Header.antt =====
-- The fields in front of the entries of the table.
use tsanalytics.Base.{
  ℕ, ◌+◌, ◌*◌, ◌/◌, ◌%◌, ◌≤◌, ◌≡◌, List, none, some, length, IsBytes, byte_at, u8, u16,
}
use tsanalytics.Reader.{◌>>=◌, run}
use tsanalytics.Crc.Total.{section_length}
use tsanalytics.Pat.{PatPid, Pat, count_pids, read_pids, st_pat}
use tsanalytics.SectionHeader.{
  get_table, get_syntax, get_zero, get_reserved, get_length, get_stream, get_reserved', get_version,
  get_current, get_section, get_last,
}

module _ (buf : List ℕ) (b : IsBytes buf) (header : 15 ≤ length buf) where
  abbrev pub filled : Pat → ℕ → List PatPid → Pat
  filled out count pids = record out {
    table_id = u8 (byte_at buf 0);
    section_syntax_indicator = u8 (byte_at buf 1 / 128);
    section_length = u16 (section_length buf);
    transport_stream_id = u16 (byte_at buf 3 * 256 + byte_at buf 4);
    version_number = u8 (byte_at buf 5 / 2 % 32);
    current_next_indicator = u8 (byte_at buf 5 % 2);
    section_number = u8 (byte_at buf 6);
    last_section_number = u8 (byte_at buf 7);
    num_of_pids = count;
    pids = pids;
  }

  -- The loop begins behind the header. Where it returns, so does `st_pat`, and where it reads
  -- past the buffer, so does `st_pat`.
  pub st_pat-entries :
      (out : Pat) (pids : List PatPid) (off : ℕ)
      → read_pids buf (count_pids (u16 (section_length buf))) (8 * 8) ≡ some (pids, off)
      → st_pat out buf ≡ some (filled out (count_pids (u16 (section_length buf))) pids)
  unfolding st_pat
  st_pat-entries out pids off e = rw (
    get_table, run, ◌>>=◌, get_syntax, get_zero, get_reserved, get_length, get_stream,
    get_reserved', get_version, get_current, get_section, get_last, e,
  )

  pub st_pat_past :
      (out : Pat)
      → read_pids buf (count_pids (u16 (section_length buf))) (8 * 8) ≡ none
      → st_pat out buf ≡ none
  unfolding st_pat
  st_pat_past out e = rw (
    get_table, run, ◌>>=◌, get_syntax, get_zero, get_reserved, get_length, get_stream,
    get_reserved', get_version, get_current, get_section, get_last, e,
  )
