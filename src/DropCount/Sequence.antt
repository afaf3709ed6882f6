-- ===== src/DropCount/Sequence.antt =====
-- Runs of packets of one PID: an unbroken one counts no drop, and a gap counts one.
use native.Mathlib.Decide.{ℕ_discrete}
use mathlib.Core.Path.{subst}
use tsanalytics.Base.{
  ℕ, suc, ◌+◌, ◌*◌, ◌/◌, ◌%◌, ◌^◌, ◌<◌, ◌≡◌, ◌≢◌, ◌⊎◌, inl, inr, refl, sym, ◌∙◌, ap, List, [], ◌∷◌,
  Option, some, ◌>>=◌, length, byte_at, arith, u64,
}
use tsanalytics.Head.{Head}
use tsanalytics.Head.Decode.{IsPacket}
use tsanalytics.DropCount.{DropCount, Counts, drop_check_and_count}
use tsanalytics.DropCount.Cell.{Continues, first, next}
use tsanalytics.DropCount.Check.{
  Ready, before_counter, Checked, drop_check_and_count-Checked, Checked-Ready,
}

-- A packet of `pid` with payload and counter `n`, without error or scrambling.
pub record Clean (pid n : ℕ) (buf : List ℕ) : Type 0 where
  pub packet : IsPacket buf
  pub of_pid : byte_at buf 1 % 32 * 256 + byte_at buf 2 ≡ pid
  pub no_error : byte_at buf 1 / 128 ≡ 0
  pub clear : byte_at buf 3 / 64 ≡ 0
  pub payload : byte_at buf 3 / 16 % 2 ≡ 1
  pub counter : byte_at buf 3 % 16 ≡ n

-- Packets whose counters go up by one from `n` on, modulo 16.
abbrev pub InSequence : ℕ → ℕ → List (List ℕ) → Type 0
InSequence pid n [] = Unit {0}
InSequence pid n (p ∷ ps) = Clean pid n p × InSequence pid ((n + 1) % 16) ps

-- The counter that a run of `k` packets from `n` on leaves to be expected.
abbrev pub advance : ℕ → List (List ℕ) → ℕ
advance n [] = n
advance n (p ∷ ps) = advance ((n + 1) % 16) ps

-- The cell has seen no packet, or expects the counter `n` next.
abbrev pub Expects : DropCount → ℕ → Type 0
Expects count n = (count.use_flag ≡ 0) ⊎ ((before_counter count + 1) % 16 ≡ n)

-- The calls for a list of packets, one after the other.
unfoldable pub check_all : Head → Head → Counts → List (List ℕ) → Option Counts
check_all h b counts [] = some counts
check_all h b counts (p ∷ ps) = do
  (v, counts') ← drop_check_and_count h b counts p
  check_all h b counts' ps

-- What `k` good packets of `pid` leave, where `n` is expected next: every drop, error and
-- scrambling counter as it was, `k` more packets in the total, the other cells untouched.
pub record Quiet (counts counts' : Counts) (pid k n : ℕ) : Type 0 where
  pub drops : (q : ℕ) → (counts' q).drop ≡ (counts q).drop
  pub errors : (counts' pid).error ≡ (counts pid).error
  pub scramblings : (counts' pid).scrambling ≡ (counts pid).scrambling
  pub total : (counts' pid).total ≡ u64 ((counts pid).total + k)
  pub others : (q : ℕ) → q ≢ pid → counts' q ≡ counts q
  pub expects : Expects (counts' pid) n
  pub ready : (q : ℕ) → Ready (counts' q)

-- Every drop counter has room for one more.
abbrev pub HasRoom : Counts → Type 0
HasRoom counts = (q : ℕ) → (counts q).drop + 1 < 2 ^ 64

module _ {counts counts' : Counts} {buf : List ℕ} {v pid n : ℕ} (ready : (p : ℕ) → Ready (counts p))
    (clean : Clean pid n buf) (checked : Checked counts buf v counts') where
  pub same_pid : checked.head.pid ≡ pid
  same_pid = checked.parsed.pid ∙ clean.of_pid

  pub seen_counter : checked.head.continuity_counter ≡ n
  seen_counter = checked.parsed.counter ∙ clean.counter

  pub has_payload : checked.head.adaptation_field_control % 2 ≡ 1
  has_payload = omega (arith, checked.parsed.control, clean.payload)

  -- Either the cell was fresh or the counter is the one behind the kept one.
  clean-Continues :
      Expects (counts checked.head.pid) n
      → Continues checked.head
          (before_counter (counts checked.head.pid))
          buf
          (counts checked.head.pid)
  clean-Continues (inl fresh) = first fresh
  clean-Continues (inr e) = next has_payload (seen_counter ∙ sym e)

  pub after-Expects : Expects (counts' checked.head.pid) ((n + 1) % 16)
  after-Expects =
      inr
        (ap (λ k. (k + 1) % 16) (ap (λ b. byte_at b 3 % 16) checked.accounted.kept ∙ clean.counter))

  pub clean-Quiet :
      HasRoom counts
      → Expects (counts checked.head.pid) n
      → Quiet counts counts' checked.head.pid 1 ((n + 1) % 16)
  clean-Quiet room e = record {
    drops = λ q. elim (ℕ_discrete q checked.head.pid) [
      | yes same ↦ rw same (omega (arith, cell.drops, checked.accounted.drop, no_drop))
      | no other ↦ ap (λ c. c.drop) (checked.others q other)
    ];
    errors = omega (arith, cell.errors, checked.accounted.error, no_error);
    scramblings = omega (arith, cell.scramblings, checked.accounted.scrambling, no_scrambling);
    total = checked.accounted.total;
    others = checked.others;
    expects = after-Expects;
    ready = Checked-Ready ready clean.packet checked;
  }
    where
      cell : Ready (counts checked.head.pid)
      cell = ready checked.head.pid

      no_drop : (counts' checked.head.pid).now_drop ≡ 0
      no_drop = checked.drops.1 (clean-Continues e)

      no_error : (counts' checked.head.pid).now_error ≡ 0
      no_error = checked.errors.1 (checked.parsed.error ∙ clean.no_error)

      no_scrambling : (counts' checked.head.pid).now_scrambling ≡ 0
      no_scrambling = checked.scramblings.1 (checked.parsed.scrambling ∙ clean.clear)

-- One good packet, as a call.
Clean-step :
    {counts : Counts} {buf : List ℕ} {pid n : ℕ}
    → ((p : ℕ) → Ready (counts p))
    → HasRoom counts
    → Expects (counts pid) n
    → Clean pid n buf
    → (v : ℕ) × (counts' : Counts) × ((h b : Head)
        → drop_check_and_count h b counts buf ≡ some (v, counts'))
      × Quiet counts counts' pid 1 ((n + 1) % 16)
Clean-step {counts} {buf} {pid} {n} ready room e clean =
    let (v, counts', eq, checked) = drop_check_and_count-Checked counts buf ready clean.packet in
    let same = same_pid ready clean checked in
    (
      v,
      counts',
      eq,
      subst (λ p. Quiet counts counts' p 1 ((n + 1) % 16)) same
          (clean-Quiet ready clean checked room (subst (λ p. Expects (counts p) n) (sym same) e)),
    )

Quiet-trans :
    {a b c : Counts} {pid k n m : ℕ}
    → Quiet a b pid 1 n
    → Quiet b c pid k m
    → Quiet a c pid (suc k) m
Quiet-trans {pid = pid} f g = record {
  drops = λ q. g.drops q ∙ f.drops q;
  errors = g.errors ∙ f.errors;
  scramblings = g.scramblings ∙ f.scramblings;
  total = omega (arith, f.total, g.total);
  others = λ q ne. g.others q ne ∙ f.others q ne;
  expects = g.expects;
  ready = g.ready;
}

-- A run of packets of one PID, whole, with their sync byte and payload, without error or
-- scrambling, with counters that go up by one from the counter that the PID's cell expects, or
-- from any if it has had no packet. Every call returns, no drop, error or scrambling is counted,
-- and the total grows by the length of the run. The cells are as between two packets, and the
-- drop counters have room for one more.
pub check_all-InSequence :
    (ps : List (List ℕ)) {counts : Counts} {pid n : ℕ}
    → ((p : ℕ) → Ready (counts p))
    → HasRoom counts
    → Expects (counts pid) n
    → InSequence pid n ps
    → (counts' : Counts) × ((h b : Head) → check_all h b counts ps ≡ some counts')
      × Quiet counts counts' pid (length ps) (advance n ps)
unfolding check_all
check_all-InSequence [] {counts} {pid} ready room e s = (
  counts,
  λ h b. refl,
  record {
    drops = λ q. refl;
    errors = refl;
    scramblings = refl;
    total = omega (arith, (ready pid).totals);
    others = λ q ne. refl;
    expects = e;
    ready = ready;
  },
)
check_all-InSequence (p ∷ ps) ready room e s =
    let (v, mid, eq, quiet) = Clean-step ready room e s.0 in
    let (counts', eqs, rest) =
      check_all-InSequence ps quiet.ready (λ q. rw (quiet.drops q) (room q)) quiet.expects s.1 in
    (counts', λ h b. rw (eq h b, ◌>>=◌) (eqs h b), Quiet-trans quiet rest)
