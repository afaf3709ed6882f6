-- ===== src/Pmt/Source.antt =====
-- A program map with its fields, as the bytes of a whole section.
use tsanalytics.Base.{
  ℕ, ◌+◌, ◌-◌, ◌*◌, ◌/◌, ◌%◌, ◌≤◌, ◌<◌, ◌≡◌, List, [], ◌∷◌, ◌++◌, length, length-append, IsBytes,
  arith,
}
use tsanalytics.Pmt.{Pmt}
use tsanalytics.Pmt.Encode.{StreamSource, AllSources, streams_of, encode_streams}

-- A program map: the fields of its section, its descriptors and its CRC as bytes.
pub record Source : Type 0 where
  pub program : ℕ
  pub version : ℕ
  pub current : ℕ
  pub section : ℕ
  pub last : ℕ
  pub pcr : ℕ
  pub info : List ℕ
  pub streams : List StreamSource
  pub crc : List ℕ

-- `section_length`
abbrev pub content : Source → ℕ
content s = 9 + length s.info + length (encode_streams s.streams) + length s.crc

pub record IsSource (s : Source) : Type 0 where
  pub program : s.program < 65536
  pub version : s.version < 32
  pub current : s.current < 2
  pub section : s.section < 256
  pub last : s.last < 256
  pub pcr : s.pcr < 8192
  pub info : IsBytes s.info
  pub streams : AllSources s.streams
  pub crc : IsBytes s.crc
  pub four : length s.crc ≡ 4
  pub short : content s < 4096

-- The bytes in front of the streams, with the reserved bits set.
abbrev pub front : Source → List ℕ
front s =
    2
    ∷ (176 + content s / 256)
    ∷ content s % 256
    ∷ s.program / 256
    ∷ s.program % 256
    ∷ (192 + s.version * 2 + s.current)
    ∷ s.section
    ∷ s.last
    ∷ (224 + s.pcr / 256)
    ∷ s.pcr % 256
    ∷ (240 + length s.info / 256)
    ∷ length s.info % 256
    ∷ s.info

abbrev pub encode : Source → List ℕ
encode s = front s ++ (encode_streams s.streams ++ s.crc)

-- What the parser is to give for it.
abbrev pub table : Source → Pmt
table s = record {
  table_id = 2;
  section_syntax_indicator = 1;
  section_length = content s;
  program_number = s.program;
  version_number = s.version;
  current_next_indicator = s.current;
  section_number = s.section;
  last_section_number = s.last;
  pcr_pid = s.pcr;
  program_info_length = length s.info;
  streams = streams_of s.streams;
  end_of_streams = content s - 4;
  num_of_streams = length (streams_of s.streams);
}

pub front-IsBytes : (s : Source) → IsSource s → IsBytes (front s)
front-IsBytes s i = (
  omega arith,
  (
    omega (arith, i.short),
    (
      omega arith,
      (
        omega (arith, i.program),
        (
          omega arith,
          (
            omega (arith, i.version, i.current),
            (
              i.section,
              (
                i.last,
                (
                  omega (arith, i.pcr),
                  (omega arith, (omega (arith, i.short), (omega arith, i.info))),
                ),
              ),
            ),
          ),
        ),
      ),
    ),
  ),
)

pub length-encode_streams : (ss : List StreamSource) → length ss ≤ length (encode_streams ss)
length-encode_streams [] = omega arith
length-encode_streams (s ∷ ss) =
    omega (arith, length-encode_streams ss, length-append s.info (encode_streams ss))
