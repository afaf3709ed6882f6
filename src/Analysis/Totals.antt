-- ===== src/Analysis/Totals.antt =====
-- What the loop counts: the totals of the PIDs.
use tsanalytics.Base.{
  ℕ, ◌+◌, ◌*◌, ◌^◌, ◌<◌, ◌==◌, ◌≡◌, ◌≢◌, refl, ap, ◌∙◌, if◌then◌else◌, List, [], ◌∷◌, some, ◌>>=◌,
  length, byte_at, u64, arith,
}
use tsanalytics.Head.{Head}
use tsanalytics.DropCount.{Counts}
use mathlib.Core.Path.{subst}
use native.Mathlib.Decide.{ℕ_discrete}
use tsanalytics.DropCount.Check.{Checked}
use tsanalytics.Packet.Assemble.{pid_of}
use tsanalytics.Analysis.Sound.{AllFine, IsSound, counted}
use tsanalytics.Analysis.Safety.{Stepped, step_synced}
use tsanalytics.Analysis.{percent, Locals, State, set_time, use_section, collect, scan}

-- The sections do not touch the counters or the flag.
use_section-counts :
    (l : Locals) (pid : ℕ) (s t : State)
    → use_section l pid s ≡ some t
    → (t.counts ≡ s.counts) × (t.this_is_not_ts ≡ s.this_is_not_ts)
unfolding use_section set_time
use_section-counts l pid s t e = ground arith

pub collect-counts :
    (l : Locals) (head : Head) (buf : List ℕ) (s t : State)
    → collect l head buf s ≡ some t
    → (t.counts ≡ s.counts) × (t.this_is_not_ts ≡ s.this_is_not_ts)
unfolding collect
collect-counts l head buf s t e = grind (arith, use_section-counts)

-- The packets of a PID.
pub packets_of : ℕ → List (List ℕ) → ℕ
packets_of pid [] = 0
packets_of pid (p ∷ ps) = (if pid_of p == pid then 1 else 0) + packets_of pid ps

abbrev pub AllSynced : List (List ℕ) → Type 0
AllSynced [] = Unit {0}
AllSynced (p ∷ ps) = (byte_at p 0 ≡ 0x47) × AllSynced ps

-- The loop counts the packet once and `drop_check_and_count` counts it again.
checked-total :
    (counts counts' : Counts) (buf : List ℕ) (v q : ℕ)
    → (counts q).total < 2 ^ 64
    → Checked (counted counts (pid_of buf)) buf v counts'
    → (counts' q).total ≡ u64 ((counts q).total + 2 * (if pid_of buf == q then 1 else 0))
checked-total counts counts' buf v q small c = elim (ℕ_discrete q (pid_of buf)) [
  | yes e ↦ rw e (ground (arith, own))
  | no ne ↦
      ground (arith, ap (λ c. c.total) (c.others q (λ e. ne (e ∙ c.parsed.pid))), counted-total)
]
  where
    own : (counts' (pid_of buf)).total ≡ u64 ((counted counts (pid_of buf) (pid_of buf)).total + 1)
    own =
        subst (λ p. (counts' p).total ≡ u64 ((counted counts (pid_of buf) p).total + 1))
          c.parsed.pid c.accounted.total

    counted-total : q ≢ pid_of buf → (counted counts (pid_of buf) q).total ≡ (counts q).total
    counted-total ne = ground arith

step-total :
    (l : Locals) {per : List ℕ} (buf : List ℕ) (s t : State) (q : ℕ)
    → (s.counts q).total < 2 ^ 64
    → Stepped l per buf s t
    → ((t.counts q).total ≡ u64 ((s.counts q).total + 2 * (if pid_of buf == q then 1 else 0)))
      × (t.this_is_not_ts ≡ s.this_is_not_ts)
step-total l buf s t q small st =
    let (same, flag) = collect-counts l st.head buf st.between t st.collected in
    (
      rw same
          (checked-total s.counts st.between.counts buf st.counted.v q small st.counted.checked),
      flag ∙ st.counted.flag,
    )

-- Packets with their sync byte, in a file that has been taken for a transport stream so far, as
-- `IsFine` and `IsSound` want them. The loop returns, and the total of each PID grows by twice the
-- number of its packets.
pub scan-totals :
    (l : Locals) (n i : ℕ) (ps : List (List ℕ)) (s : State)
    → AllFine ps
    → AllSynced ps
    → s.this_is_not_ts ≡ 0
    → i + length ps < 2 ^ 64
    → IsSound i s
    → (t : State) × (scan l n i ps s ≡ some t)
      × ((q : ℕ) → (t.counts q).total ≡ u64 ((s.counts q).total + 2 * packets_of q ps))
unfolding scan packets_of
scan-totals l n i [] s fine synced live room sound =
    (s, refl, λ q. omega (arith, (sound.ready q).totals))
scan-totals l n i (p ∷ ps) s fine synced live room sound =
    let (mid, e, sound', stepped) =
      step_synced l (percent n i) p fine.0 s sound (omega arith) synced.0 live in
    let live' : mid.this_is_not_ts ≡ 0 =
      (step-total l p s mid 0 (sound.ready 0).totals stepped).1 ∙ live in
    let (t, e', totals) =
      scan-totals l n (i + 1) ps mid fine.1 synced.1 live' (omega arith) sound' in
    (
      t,
      rw (e, ◌>>=◌) e',
      λ q. omega (arith, totals q, (step-total l p s mid q (sound.ready q).totals stepped).0),
    )
