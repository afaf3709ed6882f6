-- ===== src/Head.antt =====
-- m2tlib/head.c: `st_head`, the header of a transport stream packet.
pub mod Decode
use tsanalytics.Base.{
  ℕ, ◌+◌, ◌==◌, not, bit_and, if◌then◌else◌, List, Option, none, some, drop, u8, u16,
}
use tsanalytics.Reader.{Reader, ◌>>=◌, ◌>>◌, return, get, lift, run}
use tsanalytics.Adapt.{Adapt, adapt_zero, extract_adaptation_field}

-- `TS_HEAD`
pub record Head : Type 0 where
  pub sync_byte : ℕ
  pub transport_error_indicator : ℕ
  pub payload_unit_start_indicator : ℕ
  pub transport_priority : ℕ
  pub pid : ℕ
  pub transport_scrambling_control : ℕ
  pub adaptation_field_control : ℕ
  pub continuity_counter : ℕ
  pub payload_start_pos : ℕ
  pub adaptation_field_length : ℕ
  pub adapt : Adapt

-- `memset(ptr, 0, sizeof(ptr))` clears as many bytes as a pointer has, 8 on the 64-bit targets.
-- In the struct these are the fields in front of `continuity_counter`, which lies at offset 8.
pub clear_front : Head → Head
clear_front ptr = record ptr {
  sync_byte = 0;
  transport_error_indicator = 0;
  payload_unit_start_indicator = 0;
  transport_priority = 0;
  pid = 0;
  transport_scrambling_control = 0;
  adaptation_field_control = 0;
}

-- The length of the adaptation field and where the payload starts.
pub read_layout : List ℕ → ℕ → Reader (ℕ × ℕ)
read_layout buf control =
    if control == 0x1
    then return (0, 4)
    else if control == 0x2
    then (do len ← get buf 8; return (u16 len, 0))
    else if control == 0x3
    then (do len ← get buf 8; return (u16 len, u16 (4 + u16 len)))
    else return (0, 4)

-- The part of the function behind the check of the sync byte.
pub read_head : List ℕ → ℕ → Reader Head
read_head buf sync = do
  error ← get buf 1
  start ← get buf 1
  priority ← get buf 1
  pid ← get buf 13
  scrambling ← get buf 2
  control ← get buf 2
  counter ← get buf 4
  (len, pos) ← read_layout buf (u8 control)
  let pos' = if u8 start == 1 then u16 (pos + 1) else pos
  adapt ← lift (
      if bit_and (u8 control) 2 == 0
      then some adapt_zero
      else extract_adaptation_field (drop 4 buf))
  return (record {
    sync_byte = sync;
    transport_error_indicator = u8 error;
    payload_unit_start_indicator = u8 start;
    transport_priority = u8 priority;
    pid = u16 pid;
    transport_scrambling_control = u8 scrambling;
    adaptation_field_control = u8 control;
    continuity_counter = u8 counter;
    payload_start_pos = pos';
    adaptation_field_length = len;
    adapt = adapt;
  })

-- The new `*ptr`. A packet without the sync byte leaves part of the old one.
pub st_head : Head → List ℕ → Option Head
st_head ptr buf = run (do
  sync ← get buf 8
  let sync_byte = u8 sync
  if not (sync_byte == 0x47)
      then return (record (clear_front ptr) { sync_byte = sync_byte })
      else read_head buf sync_byte)
