-- ===== src/DropCount.antt =====
-- m2tlib/drop_count.c: the continuity check of each packet and the counters of each PID.
pub mod Cell
pub mod Check
pub mod Sequence
pub mod Gap
pub mod Interleave
pub mod Last
use tsanalytics.Base.{
  ℕ, zero, suc, ◌+◌, ◌==◌, ltb, not, ◌&&◌, Bool, true, false, same_bytes, bit_and, if◌then◌else◌,
  List, Option, some, ◌>>=◌, u8, u16, u64,
}
use tsanalytics.Head.{Head, st_head}

-- `TS_DROP_COUNT`
pub record DropCount : Type 0 where
  pub total : ℕ
  pub drop : ℕ
  pub error : ℕ
  pub scrambling : ℕ
  pub now_drop : ℕ
  pub now_error : ℕ
  pub now_scrambling : ℕ
  pub offset : ℕ
  pub repeat : ℕ
  pub last : ℕ
  pub use_flag : ℕ
  pub before_packet : List ℕ

-- The array `TS_DROP_COUNT[8192]`, by PID.
abbrev pub Counts : Type 0
Counts = ℕ → DropCount

abbrev pub update : Counts → ℕ → DropCount → Counts
update counts pid count = λ q. if q == pid then count else counts q

-- The flags of the last packet are cleared and set anew, and the error counters follow them.
pub count_errors : Head → DropCount → DropCount
count_errors head count =
    let now_error = if head.transport_error_indicator == 0 then 0 else 1 in
    let now_scrambling = if head.transport_scrambling_control == 0 then 0 else 1 in
    record count {
      now_drop = 0;
      now_error = now_error;
      now_scrambling = now_scrambling;
      error = u64 (count.error + now_error);
      scrambling = u64 (count.scrambling + now_scrambling);
    }

-- `have_drop` and the new `repeat`, from the chain of tests on the continuity counters.
pub check_continuity : Head → ℕ → List ℕ → DropCount → Bool × ℕ
check_continuity head before buf count =
    let now = head.continuity_counter in
    let repeat' = u64 (count.repeat + 1) in
    if not (count.use_flag == 0) && head.adapt.discontinuity_counter == 0
    then (if head.pid == 0x1fff
        then (false, count.repeat)
        else if bit_and head.adaptation_field_control 0x01 == 0
        then (not (before == now), count.repeat)
        else if before == now
        then (if not (same_bytes count.before_packet buf)
            then (true, count.repeat)
            else (ltb 1 repeat', repeat'))
        else (not (u8 (bit_and (before + 1) 0x0f) == now), 0))
    else (false, count.repeat)

pub count_drop : Bool × ℕ → DropCount → DropCount
count_drop (have_drop, repeat) count =
    if have_drop
    then record count { now_drop = 1; drop = u64 (count.drop + 1); repeat = 0 }
    else record count { repeat = repeat }

-- The packet is kept for the next comparison and counted.
pub remember : List ℕ → DropCount → DropCount
remember buf count = record count {
  use_flag = if count.use_flag == 0 then 1 else count.use_flag;
  before_packet = buf;
  total = u64 (count.total + 1);
}

-- The work on the packet's own cell.
pub check_packet : Head → ℕ → List ℕ → DropCount → DropCount
check_packet head before buf count =
    let counted = count_errors head count in
    remember buf (count_drop (check_continuity head before buf counted) counted)

-- 0 if the packet has a drop, an error or scrambling, and 1 otherwise.
pub verdict : DropCount → ℕ
verdict count = if ltb 0 (count.now_drop + count.now_error + count.now_scrambling) then 0 else 1

-- The two headers are locals that the function does not initialise: `head` and `before_head`
-- are what they held.
pub drop_check_and_count : Head → Head → Counts → List ℕ → Option (ℕ × Counts)
drop_check_and_count head before_head counts buf = do
  head' ← st_head head buf
  let count = counts head'.pid
  before' ← st_head before_head count.before_packet
  let count' = check_packet head' before'.continuity_counter buf count
  some (verdict count', update counts head'.pid count')

-- The loop at `i`, with `left` rounds to go.
pub mark_loop : ℕ → ℕ → ℕ → Counts → ℕ × Counts
mark_loop zero i last_pid counts = (last_pid, counts)
mark_loop (suc left) i last_pid counts =
    let counts' = update counts i (record (counts i) { last = 0 }) in
    mark_loop left (i + 1) (if ltb 0 (counts' i).total then u16 i else last_pid) counts'

-- The function has no `return`; no caller uses its result.
pub mark_last_drop_count : Counts → Counts
mark_last_drop_count counts =
    let (last_pid, counts') = mark_loop 8192 0 8191 counts in
    update counts' last_pid (record (counts' last_pid) { last = 1 })
