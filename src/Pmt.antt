-- ===== src/Pmt.antt =====
-- m2tlib/pmt.c: the program map table, with the streams of a program.
pub mod Encode
pub mod Streams
pub mod Source
pub mod Table
use tsanalytics.Base.{
  ℕ, zero, suc, ◌+◌, ◌-◌, ◌*◌, ◌/◌, ◌^◌, ltb, true, false, List, [], ◌∷◌, Option, none, some,
  length, u8, u16, u64,
}
use tsanalytics.Reader.{Reader, ◌>>=◌, ◌>>◌, return, get, skip, run}

-- `TS_PMT_STREAMS` without its link.
pub record Stream : Type 0 where
  pub stream_type : ℕ
  pub elementary_pid : ℕ
  pub es_info_length : ℕ
  pub crc_32 : ℕ

-- `TS_PMT`, the linked list as the list of its nodes.
pub record Pmt : Type 0 where
  pub table_id : ℕ
  pub section_syntax_indicator : ℕ
  pub section_length : ℕ
  pub program_number : ℕ
  pub version_number : ℕ
  pub current_next_indicator : ℕ
  pub section_number : ℕ
  pub last_section_number : ℕ
  pub pcr_pid : ℕ
  pub program_info_length : ℕ
  pub streams : List Stream
  pub end_of_streams : ℕ
  pub num_of_streams : ℕ

-- One node, cleared by `calloc` and filled in; its descriptors are skipped.
pub read_stream : List ℕ → Reader Stream
read_stream buf = do
  type ← get buf 8
  gomi₁ ← get buf 3
  pid ← get buf 13
  gomi₂ ← get buf 4
  len ← get buf 12
  skip (u16 len * 8)
  return (record {
    stream_type = u8 type;
    elementary_pid = u16 pid;
    es_info_length = u16 len;
    crc_32 = 0;
  })

-- The loop `while( boff/8 < out->end_of_streams )`, with fuel.
pub read_streams : ℕ → List ℕ → ℕ → Reader (List Stream)
read_streams zero buf end boff = none
read_streams (suc fuel) buf end boff = elim (ltb (boff / 8) end) [
  | true ↦ (do p ← read_stream buf; rest ← read_streams fuel buf end; return (p ∷ rest)) boff
  | false ↦ some ([], boff)
]

-- The new `*out`. `section_length - 4` is an `int`, widened to 64 bits. A round takes at least
-- five bytes, and each lies in the buffer.
pub st_pmt : Pmt → List ℕ → Option Pmt
st_pmt out buf = run (do
  table ← get buf 8
  syntax ← get buf 1
  gomi₁ ← get buf 1
  gomi₂ ← get buf 2
  len ← get buf 12
  program ← get buf 16
  gomi₃ ← get buf 2
  version ← get buf 5
  current ← get buf 1
  section ← get buf 8
  last ← get buf 8
  gomi₄ ← get buf 3
  pcr ← get buf 13
  gomi₅ ← get buf 4
  info ← get buf 12
  skip (u16 info * 8)
  let end = u64 (2 ^ 64 + u16 len - 4)
  streams ← read_streams (suc (length buf)) buf end
  return (record {
    table_id = u8 table;
    section_syntax_indicator = u8 syntax;
    section_length = u16 len;
    program_number = u16 program;
    version_number = u8 version;
    current_next_indicator = u8 current;
    section_number = u8 section;
    last_section_number = u8 last;
    pcr_pid = u16 pcr;
    program_info_length = u16 info;
    streams = streams;
    end_of_streams = end;
    num_of_streams = length streams;
  }))
