-- ===== src/DropCount/Gap.antt =====
-- A gap in a PID's sequence: the packet behind it counts one drop, and the run that follows none.
use native.Mathlib.Decide.{ℕ_discrete}
use mathlib.Core.Path.{subst}
use tsanalytics.Base.{
  ℕ, suc, ◌+◌, ◌/◌, ◌%◌, ◌^◌, ◌<◌, ◌≡◌, ◌≢◌, sym, ◌∙◌, ap, List, ◌∷◌, some, ◌>>=◌, length, byte_at,
  arith, u64,
}
use tsanalytics.Head.{Head}
use tsanalytics.DropCount.{DropCount, Counts, drop_check_and_count}
use tsanalytics.DropCount.Cell.{
  Continues, first, discontinuity, null_packet, no_payload, next, repeated,
}
use tsanalytics.DropCount.Check.{
  Ready, before_counter, Checked, drop_check_and_count-Checked, Checked-Ready,
}
use tsanalytics.DropCount.Sequence.{
  Clean, InSequence, advance, Expects, check_all, check_all-InSequence, Quiet, same_pid,
  seen_counter, has_payload, after-Expects,
}

-- A packet whose counter is not the next one after the kept packet, and that is no repetition
-- of it. It has no adaptation field, so nothing announces a discontinuity.
pub record Jumps (count : DropCount) (pid m : ℕ) (buf : List ℕ) : Type 0 where
  pub clean : Clean pid m buf
  pub plain : byte_at buf 3 / 16 % 4 ≡ 1
  pub stream : pid ≢ 0x1fff
  pub used : count.use_flag ≢ 0
  pub skips : m ≢ (before_counter count + 1) % 16
  pub differs : count.before_packet ≢ buf

-- What one gap and `k` packets leave, where `n` is expected next.
pub record OneDrop (counts counts' : Counts) (pid k n : ℕ) : Type 0 where
  pub drop : (counts' pid).drop ≡ (counts pid).drop + 1
  pub error : (counts' pid).error ≡ (counts pid).error
  pub scrambling : (counts' pid).scrambling ≡ (counts pid).scrambling
  pub total : (counts' pid).total ≡ u64 ((counts pid).total + k)
  pub others : (q : ℕ) → q ≢ pid → counts' q ≡ counts q
  pub expects : Expects (counts' pid) n
  pub ready : (q : ℕ) → Ready (counts' q)

abbrev pub HasRoomForTwo : Counts → Type 0
HasRoomForTwo counts = (q : ℕ) → (counts q).drop + 2 < 2 ^ 64

module _ {counts counts' : Counts} {buf : List ℕ} {v pid m : ℕ} (ready : (p : ℕ) → Ready (counts p))
    (checked : Checked counts buf v counts') where
  jump-Continues :
      Jumps (counts checked.head.pid) pid m buf
      → ¬ Continues checked.head
          (before_counter (counts checked.head.pid))
          buf
          (counts checked.head.pid)
  jump-Continues j (first fresh) = j.used fresh
  jump-Continues j (discontinuity d) =
      d (ap (λ a. a.discontinuity_counter) (checked.parsed.plain (omega (arith, j.plain))))
  jump-Continues j (null_packet p) = j.stream (sym (same_pid ready j.clean checked) ∙ p)
  jump-Continues j (no_payload e c) = omega (arith, has_payload ready j.clean checked)
  jump-Continues j (next e c) = j.skips (sym (seen_counter ready j.clean checked) ∙ c)
  jump-Continues j (repeated e c same few) = j.differs same

  jump-OneDrop :
      HasRoomForTwo counts
      → Jumps (counts checked.head.pid) pid m buf
      → (v ≢ 1) × OneDrop counts counts' checked.head.pid 1 ((m + 1) % 16)
  jump-OneDrop room j = (
    λ e. jump-Continues j (checked.good.0 e).0,
    record {
      drop = omega (
        arith,
        room checked.head.pid,
        cell.drops,
        checked.accounted.drop,
        one_drop,
        checked.accounted.drop_flag,
      );
      error = omega (arith, cell.errors, checked.accounted.error, no_error);
      scrambling = omega (arith, cell.scramblings, checked.accounted.scrambling, no_scrambling);
      total = checked.accounted.total;
      others = checked.others;
      expects = after-Expects ready j.clean checked;
      ready = Checked-Ready ready j.clean.packet checked;
    },
  )
    where
      cell : Ready (counts checked.head.pid)
      cell = ready checked.head.pid

      one_drop : (counts' checked.head.pid).now_drop ≢ 0
      one_drop e = jump-Continues j (checked.drops.0 e)

      no_error : (counts' checked.head.pid).now_error ≡ 0
      no_error = checked.errors.1 (checked.parsed.error ∙ j.clean.no_error)

      no_scrambling : (counts' checked.head.pid).now_scrambling ≡ 0
      no_scrambling = checked.scramblings.1 (checked.parsed.scrambling ∙ j.clean.clear)

-- The packet behind a gap makes its call report a defect and counts one drop.
gap_step :
    {counts : Counts} {buf : List ℕ} {pid m : ℕ}
    → ((p : ℕ) → Ready (counts p))
    → HasRoomForTwo counts
    → Jumps (counts pid) pid m buf
    → (v : ℕ) × (counts' : Counts) × ((h b : Head)
        → drop_check_and_count h b counts buf ≡ some (v, counts'))
      × (v ≢ 1)
      × OneDrop counts counts' pid 1 ((m + 1) % 16)
gap_step {counts} {buf} {pid} {m} ready room j =
    let (v, counts', eq, checked) = drop_check_and_count-Checked counts buf ready j.clean.packet in
    let same = same_pid ready j.clean checked in
    let (bad, one) =
      jump-OneDrop ready checked room (subst (λ p. Jumps (counts p) pid m buf) (sym same) j) in
    (v, counts', eq, bad, subst (λ p. OneDrop counts counts' p 1 ((m + 1) % 16)) same one)

OneDrop-Quiet :
    {a b c : Counts} {pid k n m : ℕ}
    → OneDrop a b pid 1 n
    → Quiet b c pid k m
    → OneDrop a c pid (suc k) m
OneDrop-Quiet {pid = pid} f g = record {
  drop = g.drops pid ∙ f.drop;
  error = g.errors ∙ f.error;
  scrambling = g.scramblings ∙ f.scrambling;
  total = omega (arith, f.total, g.total);
  others = λ q ne. g.others q ne ∙ f.others q ne;
  expects = g.expects;
  ready = g.ready;
}

-- A run of packets of one PID, whole, with their sync byte and payload, without error or
-- scrambling, with counters that go up by one. The first has no adaptation field, its counter is
-- not the one behind the kept packet's, and it does not repeat that packet; the PID is not that
-- of null packets and has had a packet before. However many packets are missing in front of the
-- run, unless their number is a multiple of 16 (the counter then is the expected one), every call returns and one drop is counted, no error and no scrambling; the total grows by
-- the length of the run. The cells are as between two packets, and the drop counters have room
-- for two more.
pub check_all-OneDrop :
    (p : List ℕ) (ps : List (List ℕ)) {counts : Counts} {pid m : ℕ}
    → ((q : ℕ) → Ready (counts q))
    → HasRoomForTwo counts
    → Jumps (counts pid) pid m p
    → InSequence pid ((m + 1) % 16) ps
    → (counts' : Counts) × ((h b : Head) → check_all h b counts (p ∷ ps) ≡ some counts')
      × OneDrop counts counts' pid (length (p ∷ ps)) (advance ((m + 1) % 16) ps)
unfolding check_all
check_all-OneDrop p ps {counts} {pid} {m} ready room j s =
    let (v, mid, eq, bad, one) = gap_step ready room j in
    let (counts', eqs, rest) = check_all-InSequence ps one.ready (mid_room mid one) one.expects s in
    (counts', λ h b. rw (eq h b, ◌>>=◌) (eqs h b), OneDrop-Quiet one rest)
  where
    mid_room :
        (mid : Counts)
        → OneDrop counts mid pid 1 ((m + 1) % 16)
        → (q : ℕ) → (mid q).drop + 1 < 2 ^ 64
    mid_room mid one q = elim (ℕ_discrete q pid) [
      | yes e ↦ rw e (omega (arith, one.drop, room pid))
      | no ne ↦ rw (one.others q ne) (omega (arith, room q))
    ]
