-- ===== src/Pat.antt =====
-- m2tlib/pat.c: the program association table, with the PID of each program's map.
pub mod Entry
pub mod Search
pub mod Header
pub mod Table
pub mod Front
use tsanalytics.Base.{
  ℕ, zero, suc, ◌-◌, ◌/◌, ◌^◌, ◌==◌, ltb, not, ◌&&◌, if◌then◌else◌, List, [], ◌∷◌, Option, u8, u16,
}
use tsanalytics.Reader.{Reader, ◌>>=◌, return, get, run}

-- `TS_PAT_PIDS` without its link.
pub record PatPid : Type 0 where
  pub program_number : ℕ
  pub network_pid : ℕ
  pub program_map_pid : ℕ

-- `TS_PAT`, the linked list as the list of its nodes.
pub record Pat : Type 0 where
  pub table_id : ℕ
  pub section_syntax_indicator : ℕ
  pub section_length : ℕ
  pub transport_stream_id : ℕ
  pub version_number : ℕ
  pub current_next_indicator : ℕ
  pub section_number : ℕ
  pub last_section_number : ℕ
  pub num_of_pids : ℕ
  pub pids : List PatPid
  pub pmt_pid : ℕ

-- `( out->section_length -5 -4 ) /4` in `int`, whose division cuts toward 0, stored in 16 bits.
pub count_pids : ℕ → ℕ
count_pids len = if ltb len 9 then u16 (2 ^ 16 - (9 - len) / 4) else u16 ((len - 9) / 4)

-- One node, cleared by `calloc` and filled in.
pub read_pid : List ℕ → Reader PatPid
read_pid buf = do
  number ← get buf 16
  gomi ← get buf 3
  if u16 number == 0
      then (do
        pid ← get buf 13
        return (record { program_number = u16 number; network_pid = u16 pid; program_map_pid = 0 }))
      else (do
        pid ← get buf 13
        return (record { program_number = u16 number; network_pid = 0; program_map_pid = u16 pid }))

-- The loop, with so many rounds to go.
pub read_pids : List ℕ → ℕ → Reader (List PatPid)
read_pids buf zero = return []
read_pids buf (suc left) = do p ← read_pid buf; rest ← read_pids buf left; return (p ∷ rest)

-- The new `*out`. A list that `*out` had before is not freed here.
pub st_pat : Pat → List ℕ → Option Pat
st_pat out buf = run (do
  table ← get buf 8
  syntax ← get buf 1
  gomi₁ ← get buf 1
  gomi₂ ← get buf 2
  len ← get buf 12
  stream ← get buf 16
  gomi₃ ← get buf 2
  version ← get buf 5
  current ← get buf 1
  section ← get buf 8
  last ← get buf 8
  let count = count_pids (u16 len)
  pids ← read_pids buf count
  return (record out {
    table_id = u8 table;
    section_syntax_indicator = u8 syntax;
    section_length = u16 len;
    transport_stream_id = u16 stream;
    version_number = u8 version;
    current_next_indicator = u8 current;
    section_number = u8 section;
    last_section_number = u8 last;
    num_of_pids = count;
    pids = pids;
  }))

-- The loop of `get_pmt_pid`, with so many rounds to go.
pub find_pmt : ℕ → List PatPid → ℕ → ℕ
find_pmt zero pids service_id = 0
find_pmt (suc left) [] service_id = 0
find_pmt (suc left) (p ∷ rest) service_id =
    let behind = find_pmt left rest service_id in
    if not (p.program_number == 0) && service_id == p.program_number
    then p.program_map_pid
    else behind

pub get_pmt_pid : Pat → ℕ → ℕ
get_pmt_pid ptr service_id = find_pmt ptr.num_of_pids ptr.pids service_id

-- The loop of `free_pat_pids`: the nodes that it does not free.
pub free_pids : ℕ → List PatPid → List PatPid
free_pids zero pids = pids
free_pids (suc left) [] = []
free_pids (suc left) (p ∷ rest) = free_pids left rest

-- The new `*out`, and the nodes that are lost.
pub free_pat_pids : Pat → Pat × List PatPid
free_pat_pids out = (record out { pids = [] }, free_pids out.num_of_pids out.pids)
