-- ===== src/Eit/Source.antt =====
-- A table of events with its fields, as the bytes of a whole section.
use tsanalytics.Base.{
  ℕ, ◌+◌, ◌*◌, ◌/◌, ◌%◌, ◌≤◌, ◌<◌, ◌≡◌, ◌⊎◌, List, [], ◌∷◌, ◌++◌, length, IsBytes, arith,
}
use tsanalytics.Eit.{Eit}
use tsanalytics.Eit.Encode.{EventSource, AllEvents, events_of, encode_events}

-- An event table: the fields of its section, and its CRC as bytes.
pub record Source : Type 0 where
  pub id : ℕ
  pub service : ℕ
  pub version : ℕ
  pub current : ℕ
  pub section : ℕ
  pub last : ℕ
  pub ts_id : ℕ
  pub network : ℕ
  pub segment : ℕ
  pub last_table : ℕ
  pub events : List EventSource
  pub crc : List ℕ

-- `section_length`
abbrev pub content : Source → ℕ
content s = 11 + length (encode_events s.events) + length s.crc

pub record IsSource (s : Source) : Type 0 where
  pub id : (s.id ≡ 0x4e) ⊎ ((0x50 ≤ s.id) × (s.id ≤ 0x5f))
  pub service : s.service < 65536
  pub version : s.version < 32
  pub current : s.current < 2
  pub section : s.section < 256
  pub last : s.last < 256
  pub ts_id : s.ts_id < 65536
  pub network : s.network < 65536
  pub segment : s.segment < 256
  pub last_table : s.last_table < 256
  pub events : AllEvents s.events
  pub few : length s.events ≤ 100
  pub crc : IsBytes s.crc
  pub four : length s.crc ≡ 4
  pub short : content s ≤ 4093

-- The bytes in front of the events, with the reserved bits set.
abbrev pub front : Source → List ℕ
front s =
    s.id
    ∷ (240 + content s / 256)
    ∷ content s % 256
    ∷ s.service / 256
    ∷ s.service % 256
    ∷ (192 + s.version * 2 + s.current)
    ∷ s.section
    ∷ s.last
    ∷ s.ts_id / 256
    ∷ s.ts_id % 256
    ∷ s.network / 256
    ∷ s.network % 256
    ∷ s.segment
    ∷ s.last_table
    ∷ []

abbrev pub encode : Source → List ℕ
encode s = front s ++ (encode_events s.events ++ s.crc)

-- What the parser is to give for it.
abbrev pub table : Source → Eit
table s = record {
  table_id = s.id;
  section_syntax_indicator = 1;
  section_length = content s;
  service_id = s.service;
  version_number = s.version;
  current_next_indicator = s.current;
  section_number = s.section;
  last_section_number = s.last;
  transport_stream_id = s.ts_id;
  original_network_id = s.network;
  segment_last_section_number = s.segment;
  last_table_id = s.last_table;
  events = events_of s.events;
}

pub id-lt : (s : Source) → IsSource s → s.id < 256
id-lt s i = grind (arith, i.id)

pub front-IsBytes : (s : Source) → IsSource s → IsBytes (front s)
front-IsBytes s i = (
  id-lt s i,
  (
    omega (arith, i.short),
    (
      omega arith,
      (
        omega (arith, i.service),
        (
          omega arith,
          (
            omega (arith, i.version, i.current),
            (
              i.section,
              (
                i.last,
                (
                  omega (arith, i.ts_id),
                  (
                    omega arith,
                    (omega (arith, i.network), (omega arith, (i.segment, (i.last_table, tt)))),
                  ),
                ),
              ),
            ),
          ),
        ),
      ),
    ),
  ),
)
