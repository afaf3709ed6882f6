-- ===== src/Analysis.antt =====
-- tsanalytics.c: the loop of `tsanalytics` over the packets of a file, and its end.
pub mod Sync
pub mod Sound
pub mod Parsers
pub mod Safety
pub mod Totals
pub mod Unharmed
pub mod Buffers
pub mod Texts
pub mod Aside
pub mod Deliver
pub mod Phases
pub mod Broadcast
use tsanalytics.Base.{
  ℕ, zero, suc, ◌+◌, ◌-◌, ◌*◌, ◌/◌, ◌==◌, not, ◌||◌, ltb, if◌then◌else◌, List, [], ◌∷◌, Option,
  some, ◌>>=◌, length, take, drop, replicate, none, u64, sub_ℕ, codes, decimal,
}
use tsanalytics.Digest.{packets}
use tsanalytics.Head.{Head, st_head}
use tsanalytics.DropCount.{DropCount, Counts, update, drop_check_and_count, mark_last_drop_count}
use tsanalytics.DropList.{Entry, add_drop_list}
use tsanalytics.Packet.{Cell, Store, put, st_packet, free_packet_list_all}
use tsanalytics.Pat.{Pat, st_pat}
use tsanalytics.Time.{Tm, tm_to_text}
use tsanalytics.Tot.{Tot, st_tot}

-- What the locals that the function does not initialise hold: the heads of the loop and of
-- `drop_check_and_count`, and the tables.
pub record Locals : Type 0 where
  pub head : Head
  pub before_head : Head
  pub tot : Tot
  pub pat : Pat

abbrev sync_err_repeat_limit : ℕ
sync_err_repeat_limit = 100

-- `memset( &first_tot, 0, sizeof(first_tot))`
abbrev pub tm_zero : Tm
tm_zero = record {
  tm_sec = 0;
  tm_min = 0;
  tm_hour = 0;
  tm_mday = 0;
  tm_mon = 0;
  tm_year = sub_ℕ 0 0;
}

abbrev pub count_zero : DropCount
count_zero = record {
  total = 0;
  drop = 0;
  error = 0;
  scrambling = 0;
  now_drop = 0;
  now_error = 0;
  now_scrambling = 0;
  offset = 0;
  repeat = 0;
  last = 0;
  use_flag = 0;
  before_packet = replicate 188 0;
}

-- Two PIDs are read: those of the PAT and of the TOT.
abbrev pub cell_zero : ℕ → Cell
cell_zero pid = record {
  enable = if (pid == 0x0) || (pid == 0x14) then 1 else 0;
  payload = none;
  size = 0;
  copybytes = 0;
  crc_check = 0;
  loading = 0;
}

-- The variables of the loop, but for the contexts of the hashes.
pub record State : Type 0 where
  pub counts : Counts
  pub store : Store
  pub current_tot : List ℕ
  pub drop_list_tot : List Entry
  pub drop_list_per : List Entry
  pub first_tot : Tm
  pub last_tot : Tm
  pub sync_error : ℕ
  pub sync_err_repeat : ℕ
  pub this_is_not_ts : ℕ
  pub pat : Pat

unfoldable pub initial : Locals → State
initial l = record {
  counts = λ q. count_zero;
  store = record { cells = cell_zero; live = 0 };
  current_tot = codes "unknown";
  drop_list_tot = [];
  drop_list_per = [];
  first_tot = tm_zero;
  last_tot = tm_zero;
  sync_error = 0;
  sync_err_repeat = 0;
  this_is_not_ts = 0;
  pat = l.pat;
}

-- `sprintf(current_per, "%d", (p_cnt*100/packet_count) )`
abbrev pub percent : ℕ → ℕ → List ℕ
percent packet_count p_cnt = decimal (u64 (p_cnt * 100) / packet_count)

-- The branch for a packet without the sync byte.
pub miss_sync : State → State
miss_sync s = record s {
  sync_error = u64 (s.sync_error + 1);
  this_is_not_ts = if ltb sync_err_repeat_limit s.sync_err_repeat then 1 else s.this_is_not_ts;
  sync_err_repeat = s.sync_err_repeat + 1;
}

-- The packet is counted, and a defect goes to both lists.
pub count_packet : Locals → List ℕ → ℕ → List ℕ → State → Option State
count_packet l current_per pid buf s = do
  let count = s.counts pid
  let counted = update s.counts pid (record count { total = u64 (count.total + 1) })
  (good, counts') ← drop_check_and_count l.head l.before_head counted buf
  let s' = record s { counts = counts' }
  some (
      if good == 0
      then record s' {
        drop_list_tot = add_drop_list s.drop_list_tot s.current_tot (counts' pid);
        drop_list_per = add_drop_list s.drop_list_per current_per (counts' pid);
      }
      else s')

-- A new time from the TOT.
pub set_time : Tm → State → State
set_time tm s = record s {
  current_tot = tm_to_text tm;
  first_tot = if s.first_tot.tm_mday == 0 then tm else s.first_tot;
  last_tot = tm;
}

-- The parser of a complete section. A table in no block is read at `NULL`.
pub use_section : Locals → ℕ → State → Option State
use_section l pid s =
    if pid == 0x00
    then (do
      block ← (s.store.cells pid).payload
      pat ← st_pat s.pat block
      let cell = record (s.store.cells pid) { enable = 0 }
      some (record s { pat = pat; store = put s.store pid cell }))
    else if pid == 0x14
    then (do
      block ← (s.store.cells pid).payload
      tot ← st_tot l.tot block
      some (if tot.disable == 0 then set_time tot.tm s else s))
    else some s

-- The part of the body behind the counting.
pub collect : Locals → Head → List ℕ → State → Option State
collect l head buf s =
    if (head.transport_error_indicator == 0x1) || (head.adaptation_field_control == 0x2)
    then some s
    else if (s.store.cells head.pid).enable == 0
    then some s
    else do
      (done, store) ← st_packet s.store buf
      let s' = record s { store = store }
      if done == 0 then some s' else use_section l head.pid s'

-- The body of the loop behind the hashes.
pub step : Locals → List ℕ → List ℕ → State → Option State
step l current_per buf s = if s.this_is_not_ts == 1 then some s else do
  head ← st_head l.head buf
  if not (head.sync_byte == 0x47) then some (miss_sync s) else (do
    s' ← count_packet l current_per head.pid buf (record s { sync_err_repeat = 0 })
    collect l head buf s')

-- The loop at `p_cnt`, over the packets that are left.
pub scan : Locals → ℕ → ℕ → List (List ℕ) → State → Option State
scan l packet_count p_cnt [] s = some s
scan l packet_count p_cnt (buf ∷ rest) s = do
  s' ← step l (percent packet_count p_cnt) buf s
  scan l packet_count (p_cnt + 1) rest s'

-- The loop on a file, with the mark of the last PID and the release of the sections behind it.
pub analyze : Locals → List ℕ → Option State
analyze l file = do
  let packet_count = length file / 188
  s ← scan l packet_count 0 (packets packet_count file) (initial l)
  some (record s { counts = mark_last_drop_count s.counts; store = free_packet_list_all s.store })
