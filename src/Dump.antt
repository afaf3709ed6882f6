-- ===== src/Dump.antt =====
-- The functions that print a structure for debugging, in m2tlib and drop_list.c, as the text that
-- each prints.
pub mod Tables
use tsanalytics.Base.{
  ℕ, zero, suc, ◌+◌, ◌%◌, ◌^◌, ◌==◌, if◌then◌else◌, List, [], ◌∷◌, ◌++◌, Option, none, some, ◌>>=◌,
  get_elem?, codes, decimal, hexadecimal, zero_padded, not,
}
use tsanalytics.Time.{tm_to_text}
use tsanalytics.Json.{int_text}
use tsanalytics.DropCount.{Counts}
use tsanalytics.DropList.{Entry}
use tsanalytics.Pat.{PatPid, Pat}
use tsanalytics.Pmt.{Stream, Pmt}
use tsanalytics.Eit.{Descriptor, Event, Eit}

-- `%02X`, `%04X` and `%06X`.
abbrev padded_hex : ℕ → ℕ → List ℕ
padded_hex width n = zero_padded width (hexadecimal n)

-- The bytes from `i` on, with so many to go: 15 on a line.
pub dump_bytes : List ℕ → ℕ → ℕ → Option (List ℕ)
dump_bytes p zero i = some []
dump_bytes p (suc left) i = do
  b ← get_elem? p i
  behind ← dump_bytes p left (i + 1)
  some (padded_hex 2 b ++ (codes " " ++ ((if (i + 1) % 15 == 0 then codes "\n" else []) ++ behind)))

-- `packetdump(p, size)` with the bytes at `p`, whose address `%X` takes as an `unsigned int`.
pub packetdump : ℕ → List ℕ → ℕ → Option (List ℕ)
packetdump address p size = do
  bytes ← dump_bytes p size 0
  some (
      codes "--------------------------------------------\n"
      ++ codes "START:0x"
      ++ hexadecimal (address % 2 ^ 32)
      ++ codes " SIZE:"
      ++ int_text size
      ++ codes "\n"
      ++ codes "00 01 02 03 04 05 06 07 08 09 0A 0B 0C 0E 0F\n"
      ++ codes "--------------------------------------------\n"
      ++ bytes
      ++ codes "\nDUMP DONE\n")

-- The loop of `dump_drop_count` at PID `i`, with so many to go.
pub dump_counts : ℕ → ℕ → Counts → List ℕ
dump_counts zero i counts = []
dump_counts (suc left) i counts =
    let p = counts i in
    let rest = dump_counts left (i + 1) counts in
    if not (p.use_flag == 0)
    then codes "PID=0x"
      ++ padded_hex 4 i
      ++ codes " total="
      ++ int_text p.total
      ++ codes " d="
      ++ int_text p.drop
      ++ codes " e="
      ++ int_text p.error
      ++ codes " scrambling="
      ++ int_text p.scrambling
      ++ codes "\n"
      ++ rest
    else rest

pub dump_drop_count : Counts → List ℕ
dump_drop_count counts = dump_counts 8192 0 counts

-- The loop of `dump_drop_list`, with so many rounds to go.
pub dump_entries : ℕ → List Entry → List ℕ
dump_entries zero entries = []
dump_entries (suc left) [] = []
dump_entries (suc left) (p ∷ rest) =
    p.key
    ++ codes ": drop="
    ++ int_text p.drop
    ++ codes " error="
    ++ int_text p.error
    ++ codes " scrambling="
    ++ int_text p.scrambling
    ++ codes "\n"
    ++ dump_entries left rest

pub dump_drop_list : List Entry → List ℕ
dump_drop_list [] = codes "DROP LIST IS EMPTY\n"
dump_drop_list (p ∷ rest) = dump_entries 10000 (p ∷ rest)

-- The loop of `dump_pat`, with so many rounds to go; a list that ends before is read at `NULL`.
pub dump_pids : ℕ → List PatPid → Option (List ℕ)
dump_pids zero pids = some []
dump_pids (suc left) [] = none
dump_pids (suc left) (p ∷ rest) = do
  behind ← dump_pids left rest
  some (
      codes "        PID ProgNum:0x"
      ++ padded_hex 4 p.program_number
      ++ codes " NetPID:0x"
      ++ padded_hex 4 p.network_pid
      ++ codes " MapPID:0x"
      ++ padded_hex 4 p.program_map_pid
      ++ codes "\n"
      ++ behind)

pub dump_pat : Pat → Option (List ℕ)
dump_pat out = do
  pids ← dump_pids out.num_of_pids out.pids
  some (
      pids
      ++ codes "TABLE=0x"
      ++ padded_hex 2 out.table_id
      ++ codes " SecLen="
      ++ decimal out.section_length
      ++ codes " NumID="
      ++ decimal out.num_of_pids
      ++ codes "\n")

-- The loop of `dump_pmt`, likewise.
pub dump_streams : ℕ → List Stream → Option (List ℕ)
dump_streams zero streams = some []
dump_streams (suc left) [] = none
dump_streams (suc left) (p ∷ rest) = do
  behind ← dump_streams left rest
  some (
      codes "stream_type=0x"
      ++ padded_hex 2 p.stream_type
      ++ codes " elementary_PID=0x"
      ++ padded_hex 4 p.elementary_pid
      ++ codes "\n"
      ++ behind)

pub dump_pmt : Pmt → Option (List ℕ)
dump_pmt pmt = do
  streams ← dump_streams pmt.num_of_streams pmt.streams
  some (
      codes "ProgNum=0x"
      ++ padded_hex 4 pmt.program_number
      ++ codes " table_id=0x"
      ++ padded_hex 2 pmt.table_id
      ++ codes "\n"
      ++ streams)

-- The loops of `dump_eit` over the descriptors of an event and over the events, at most 100 each.
pub dump_descs : ℕ → ℕ → List Descriptor → List ℕ
dump_descs zero j descs = []
dump_descs (suc left) j [] = []
dump_descs (suc left) j (d ∷ rest) =
    codes "                "
    ++ zero_padded 2 (decimal j)
    ++ codes ": descTag=0x"
    ++ padded_hex 2 d.descriptor_tag
    ++ codes " descLen="
    ++ decimal d.descriptor_length
    ++ codes "\n"
    ++ dump_descs left (j + 1) rest

pub dump_events : ℕ → ℕ → List Event → List ℕ
dump_events zero i events = []
dump_events (suc left) i [] = []
dump_events (suc left) i (ev ∷ rest) =
    codes "        "
    ++ zero_padded 2 (decimal i)
    ++ codes ": event_id=0x"
    ++ padded_hex 4 ev.event_id
    ++ codes " Start="
    ++ tm_to_text ev.start_time_tm
    ++ codes " Dur="
    ++ padded_hex 6 ev.duration
    ++ codes " LoopLen="
    ++ decimal ev.descriotors_loop_length
    ++ codes "\n"
    ++ dump_descs 100 0 ev.desc
    ++ dump_events left (i + 1) rest

pub dump_eit : Eit → List ℕ
dump_eit out =
    codes "EIT: table_id=0x"
    ++ hexadecimal out.table_id
    ++ codes " SecLen="
    ++ decimal out.section_length
    ++ codes "\n"
    ++ dump_events 100 0 out.events
