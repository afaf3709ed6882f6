-- ===== src/DropCount/Check.antt =====
-- `drop_check_and_count` as a whole: it always returns, its result does not depend on what its
-- uninitialised locals held, and it changes the cell of the packet's PID alone.
use native.Mathlib.Decide.{ℕ_discrete}
use tsanalytics.Base.{
  ℕ, ◌%◌, ◌^◌, ◌≤◌, ◌<◌, ◌==◌, ◌≡◌, ◌≢◌, ◌↔◌, ap, List, some, ◌>>=◌, Bool-cases, inl, inr, IsBytes,
  length, byte_at, arith,
}
use tsanalytics.Head.{Head, st_head}
use tsanalytics.Head.Decode.{Parsed, IsPacket, st_head-Parsed, st_head_unsynced}
use tsanalytics.DropCount.{
  DropCount, Counts, update, count_errors, check_continuity, count_drop, remember, check_packet,
  verdict, drop_check_and_count,
}
use tsanalytics.DropCount.Cell.{
  Continues, Accounted, error_flag, scrambling_flag, drop_flag-Continues, check_packet-Accounted,
  verdict-Continues,
}

-- A cell between two packets. Before its first packet `before_packet` is all zero; after it,
-- it is that packet.
pub record Ready (count : DropCount) : Type 0 where
  pub bytes : IsBytes count.before_packet
  pub whole : length count.before_packet ≡ 188
  pub synced : count.use_flag ≢ 0 → byte_at count.before_packet 0 ≡ 0x47
  pub repeats : count.repeat ≤ 1
  pub drops : count.drop < 2 ^ 64
  pub errors : count.error < 2 ^ 64
  pub scramblings : count.scrambling < 2 ^ 64
  pub totals : count.total < 2 ^ 64

-- The counter of the packet that was kept.
abbrev pub before_counter : DropCount → ℕ
before_counter count = byte_at count.before_packet 3 % 16

check_packet-first :
    (head : Head) (x y : ℕ) (buf : List ℕ) (count : DropCount)
    → count.use_flag ≡ 0
    → check_packet head x buf count ≡ check_packet head y buf count
unfolding check_packet count_errors check_continuity
check_packet-first head x y buf count fresh =
    ap (λ r. remember buf (count_drop r (count_errors head count))) (ground arith)

-- The kept packet's header serves only for its counter, and only once there is one.
check_before :
    (head ptr : Head) (buf : List ℕ) (count : DropCount)
    → Ready count
    → (before : Head) × (st_head ptr count.before_packet ≡ some before)
      × (check_packet head before.continuity_counter buf count
          ≡ check_packet head (before_counter count) buf count)
check_before head ptr buf count r = elim (Bool-cases (byte_at count.before_packet 0 == 0x47)) [
  | inl e ↦
      let (before, parsed, eq) =
        st_head-Parsed count.before_packet r.bytes r.whole (ground arith) in
      (before, eq ptr, ap (λ c. check_packet head c buf count) parsed.counter)
  | inr e ↦ (
    _,
    st_head_unsynced count.before_packet r.bytes r.whole ptr (ground arith),
    check_packet-first head ptr.continuity_counter (before_counter count) buf count (ground arith),
  )
]

-- What a call leaves: its result `v` and the array `counts'`, for the packet `buf`.
pub record Checked (counts : Counts) (buf : List ℕ) (v : ℕ) (counts' : Counts) : Type 0 where
  pub head : Head
  pub parsed : Parsed buf head
  -- The result is 1 exactly for a packet that continues its PID's sequence, without error or
  -- scrambling, and a drop is counted exactly for one that does not continue it.
  pub good : (v ≡ 1) ↔ (
      Continues head (before_counter (counts head.pid)) buf (counts head.pid)
      × (head.transport_error_indicator ≡ 0)
      × (head.transport_scrambling_control ≡ 0))
  pub drops :
      ((counts' head.pid).now_drop ≡ 0)
      ↔ Continues head (before_counter (counts head.pid)) buf (counts head.pid)
  pub errors : ((counts' head.pid).now_error ≡ 0) ↔ (head.transport_error_indicator ≡ 0)
  pub scramblings :
      ((counts' head.pid).now_scrambling ≡ 0) ↔ (head.transport_scrambling_control ≡ 0)
  pub accounted :
      Accounted head (before_counter (counts head.pid)) buf (counts head.pid) (counts' head.pid)
  pub others : (q : ℕ) → q ≢ head.pid → counts' q ≡ counts q

pub update_self : (counts : Counts) (p : ℕ) (count : DropCount) → update counts p count p ≡ count
update_self counts p count = ground arith

update_ne :
    (counts : Counts) (p q : ℕ) (count : DropCount) → q ≢ p → update counts p count q ≡ counts q
update_ne counts p q count ne = ground arith

module _ (counts : Counts) (buf : List ℕ) (ready : (p : ℕ) → Ready (counts p))
    (packet : IsPacket buf) where
  -- The call with its locals resolved, for the head that the packet has.
  pub drop_check_and_count_head :
      (head : Head)
      → ((ptr : Head) → st_head ptr buf ≡ some head)
      → (h b : Head)
      → let count = counts head.pid in
        let count' = check_packet head (before_counter count) buf count in
        drop_check_and_count h b counts buf ≡ some (verdict count', update counts head.pid count')
  unfolding drop_check_and_count
  drop_check_and_count_head head eq h b =
      let (before, eq', same) = check_before head b buf (counts head.pid) (ready head.pid) in
      rw (eq h, ◌>>=◌, eq', same)

  drop_check_and_count_lem :
      (head : Head) × Parsed buf head
      × ((h b : Head)
          → let count = counts head.pid in
            let count' = check_packet head (before_counter count) buf count in
            drop_check_and_count h b counts buf
            ≡ some (verdict count', update counts head.pid count'))
  drop_check_and_count_lem =
      let (head, parsed, eq) = st_head-Parsed buf packet.bytes packet.whole packet.sync in
      (head, parsed, drop_check_and_count_head head eq)

  -- For a whole packet with its sync byte, and cells as they are between two packets, the call
  -- returns. Whatever its uninitialised locals held, the result and the array are the same, and
  -- they are as `Checked` says: the result is 1 exactly for a packet that continues its PID's
  -- sequence and has no error and no scrambling; its flags are 0 or 1, the drop flag 0 exactly for a
  -- packet that continues the sequence, the other two for one without error and scrambling; each
  -- counter grows by its flag and the total by 1; the row of repeats ends with a drop or with a
  -- counter that moves on, goes on with a repeat, and otherwise stays; the packet is kept for the
  -- next call; and no other PID's cell changes.
  pub drop_check_and_count-Checked :
      (v : ℕ) × (counts' : Counts) × ((h b : Head)
        → drop_check_and_count h b counts buf ≡ some (v, counts'))
      × Checked counts buf v counts'
  drop_check_and_count-Checked =
      let (head, parsed, eq) = drop_check_and_count_lem in
      let before : ℕ = before_counter (counts head.pid) in
      let count' : DropCount = check_packet head before buf (counts head.pid) in
      let ready' = ready head.pid in
      (
        verdict count',
        update counts head.pid count',
        eq,
        record {
          head = head;
          parsed = parsed;
          good = verdict-Continues head before buf (counts head.pid) (omega arith);
          drops =
              rw (update_self counts head.pid count')
                (drop_flag-Continues head before buf (counts head.pid) (omega arith));
          errors =
              rw (update_self counts head.pid count')
                (error_flag head before buf (counts head.pid));
          scramblings =
              rw (update_self counts head.pid count')
                (scrambling_flag head before buf (counts head.pid));
          accounted = rw (update_self counts head.pid count') (
              check_packet-Accounted head before buf (counts head.pid) ready'.drops ready'.repeats);
          others = λ q ne. update_ne counts head.pid q count' ne;
        },
      )

-- The cells stay ready for the next packet.
pub Checked-Ready :
    {counts counts' : Counts} {buf : List ℕ} {v : ℕ}
    → ((p : ℕ) → Ready (counts p))
    → IsPacket buf
    → Checked counts buf v counts'
    → (p : ℕ) → Ready (counts' p)
Checked-Ready {counts} {counts'} {buf} ready packet checked p =
    elim (ℕ_discrete p checked.head.pid) [
      | yes e ↦ rw e (record {
        bytes = rw checked.accounted.kept packet.bytes;
        whole = rw checked.accounted.kept packet.whole;
        synced = λ _. rw checked.accounted.kept packet.sync;
        repeats = checked.accounted.repeats;
        drops = omega (arith, checked.accounted.drop);
        errors = omega (arith, checked.accounted.error);
        scramblings = omega (arith, checked.accounted.scrambling);
        totals = omega (arith, checked.accounted.total);
      })
      | no ne ↦ rw (checked.others p ne) (ready p)
    ]
