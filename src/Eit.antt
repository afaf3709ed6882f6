-- ===== src/Eit.antt =====
-- m2tlib/eit.c: the event information table, with the descriptors of its events.
pub mod Encode
pub mod Descs
pub mod Loop
pub mod Source
pub mod Table
pub mod Release
use tsanalytics.Base.{
  ℕ, zero, suc, ◌+◌, ◌-◌, ◌*◌, ◌/◌, ◌^◌, ◌==◌, not, ltb, leb, ◌&&◌, ◌||◌, if◌then◌else◌, true,
  false, Bool, pos, List, [], ◌∷◌, ◌++◌, Option, none, some, length, take, drop, replicate, u8, u16,
  u32, u64,
}
use tsanalytics.Reader.{Reader, ◌>>=◌, ◌>>◌, return, get, skip, lift, run}
use tsanalytics.Time.{Tm, hex_to_digi, time_to_tm}

-- `TS_DESCRIPTOR` without its link.
pub record Descriptor : Type 0 where
  pub descriptor_tag : ℕ
  pub descriptor_length : ℕ
  pub payload : List ℕ

-- `TS_EIT_EVENTS` without its link, its descriptors as the list of their nodes.
pub record Event : Type 0 where
  pub event_id : ℕ
  pub start_time : List ℕ
  pub start_time_tm : Tm
  pub duration : ℕ
  pub duration_sec : ℕ
  pub running_status : ℕ
  pub free_ca_mode : ℕ
  pub descriotors_loop_length : ℕ
  pub desc : List Descriptor

-- `TS_EIT`, its events as the list of their nodes.
pub record Eit : Type 0 where
  pub table_id : ℕ
  pub section_syntax_indicator : ℕ
  pub section_length : ℕ
  pub service_id : ℕ
  pub version_number : ℕ
  pub current_next_indicator : ℕ
  pub section_number : ℕ
  pub last_section_number : ℕ
  pub transport_stream_id : ℕ
  pub original_network_id : ℕ
  pub segment_last_section_number : ℕ
  pub last_table_id : ℕ
  pub events : List Event

-- `memcpy( dst, buf+(boff/8), n )`; a read past the buffer is undefined.
unfoldable pub bytes_at : List ℕ → ℕ → Reader (List ℕ)
bytes_at buf n boff =
    if leb (boff / 8 + n) (length buf) then some (take n (drop (boff / 8) buf), boff) else none

-- One descriptor.
pub read_desc : List ℕ → Reader Descriptor
read_desc buf = do
  tag ← get buf 8
  len ← get buf 8
  payload ← bytes_at buf (u8 len)
  skip (u8 len * 8)
  return (record { descriptor_tag = u8 tag; descriptor_length = u8 len; payload = payload })

-- The loop over the descriptors, with so many rounds to go.
pub desc_loop : ℕ → List ℕ → ℕ → ℕ → Reader (List Descriptor)
desc_loop zero buf loop_length loaded_desc boff = some ([], boff)
desc_loop (suc left) buf loop_length loaded_desc boff = elim (leb loop_length loaded_desc) [
  | true ↦ some ([], boff)
  | false ↦
      (do
        d ← read_desc buf
        rest ← desc_loop left buf loop_length (u64 (loaded_desc + d.descriptor_length + 2))
        return (d ∷ rest))
        boff
]

-- A `struct tm` from `calloc`.
abbrev pub tm_cleared : Tm
tm_cleared = record {
  tm_sec = 0;
  tm_min = 0;
  tm_hour = 0;
  tm_mday = 0;
  tm_mon = 0;
  tm_year = pos 0;
}

-- `boff -= 24`
abbrev pub back_24 : Reader (Unit {0})
back_24 boff = some (tt, boff - 24)

-- An event up to its descriptors. `getBit` loads eight bytes from the array of five, whose
-- content behind it does not matter: zeros stand for it. The three calls for the duration may
-- come in any order: they are taken from left to right.
unfoldable pub read_event : List ℕ → Reader Event
read_event buf = do
  id ← get buf 16
  start ← bytes_at buf 5
  skip 40
  tm ← lift (time_to_tm tm_cleared (start ++ replicate 16 0))
  duration ← get buf 24
  back_24
  hours ← get buf 8
  minutes ← get buf 8
  seconds ← get buf 8
  running ← get buf 3
  free_ca ← get buf 1
  len ← get buf 12
  return (record {
    event_id = u16 id;
    start_time = start;
    start_time_tm = tm;
    duration = u32 duration;
    duration_sec =
        hex_to_digi (u8 hours) * 3600 + hex_to_digi (u8 minutes) * 60 + hex_to_digi (u8 seconds);
    running_status = u8 running;
    free_ca_mode = u8 free_ca;
    descriotors_loop_length = u16 len;
    desc = [];
  })

-- The loop over the events, with so many rounds to go: the events of the list, and those from
-- `calloc` that nothing points to when the loop ends. At the break, for an event whose
-- descriptors are longer than the section, that event is neither put into the list nor freed.
unfoldable pub event_loop : ℕ → List ℕ → ℕ → ℕ → Reader (List Event × List Event)
event_loop zero buf section_length loaded boff = some (([], []), boff)
event_loop (suc left) buf section_length loaded boff = elim (leb section_length loaded) [
  | true ↦ some (([], []), boff)
  | false ↦ elim (read_event buf boff) [
    | none ↦ none
    | some (ev, boff') ↦ elim (ltb section_length ev.descriotors_loop_length) [
      | true ↦ some (([], ev ∷ []), boff')
      | false ↦
          (do
            desc ← desc_loop 100 buf ev.descriotors_loop_length 0
            (rest, lost) ←
                event_loop left buf section_length
                  (u64 (loaded + (12 + ev.descriotors_loop_length)))
            return (record ev { desc = desc } ∷ rest, lost))
            boff'
    ]
  ]
]

-- The tables of events, present, following and scheduled.
abbrev pub eit_ok : ℕ → ℕ → ℕ → Bool
eit_ok table syntax len =
    ((table == 0x4e) || (leb 0x50 table && leb table 0x5f)) && ((syntax == 1) && leb len 4093)

-- The result, the new `*out`, and the events that are lost.
pub st_eit : Eit → List ℕ → Option (ℕ × (Eit × List Event))
st_eit out buf = run (do
  table ← get buf 8
  syntax ← get buf 1
  gomi₁ ← get buf 1
  gomi₂ ← get buf 2
  len ← get buf 12
  service ← get buf 16
  gomi₃ ← get buf 2
  version ← get buf 5
  current ← get buf 1
  section ← get buf 8
  last ← get buf 8
  stream ← get buf 16
  network ← get buf 16
  segment ← get buf 8
  last_table ← get buf 8
  let out' : Eit = record {
    table_id = u8 table;
    section_syntax_indicator = u8 syntax;
    section_length = u16 len;
    service_id = u16 service;
    version_number = u8 version;
    current_next_indicator = u8 current;
    section_number = u8 section;
    last_section_number = u8 last;
    transport_stream_id = u16 stream;
    original_network_id = u16 network;
    segment_last_section_number = u8 segment;
    last_table_id = u8 last_table;
    events = [];
  }
  if eit_ok (u8 table) (u8 syntax) (u16 len)
      then (do
        (events, lost) ← event_loop 100 buf (u16 len) 16
        return (1, (record out' { events = events }, lost)))
      else return (0, (out', [])))

-- The loop of `free_eit` over descriptors, and the one over events: what is not freed when their
-- rounds are used up.
pub free_descs : ℕ → List Descriptor → List Descriptor
free_descs zero desc = desc
free_descs (suc left) [] = []
free_descs (suc left) (d ∷ rest) = free_descs left rest

pub free_events : ℕ → List Event → List Descriptor × List Event
free_events zero events = ([], events)
free_events (suc left) [] = ([], [])
free_events (suc left) (ev ∷ rest) =
    let (descs, events) = free_events left rest in (free_descs 100 ev.desc ++ descs, events)

-- `memset(out, 0, sizeof(out))` clears eight bytes: the six fields in front. `events` still
-- points to the nodes that have been freed.
pub free_eit : Eit → Eit × (List Descriptor × List Event)
free_eit out = (
  record out {
    table_id = 0;
    section_syntax_indicator = 0;
    section_length = 0;
    service_id = 0;
    version_number = 0;
    current_next_indicator = 0;
  },
  free_events 100 out.events,
)
