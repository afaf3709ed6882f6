-- ===== src/Analysis/Unharmed.antt =====
-- A PID whose packets are in sequence has no defect, whatever stands between them.
use mathlib.Core.Path.{subst}
use tsanalytics.Base.{
  ℕ, ◌+◌, ◌/◌, ◌%◌, ◌^◌, ◌<◌, ◌==◌, ◌≡◌, ◌≢◌, inl, inr, refl, sym, ap, ◌∙◌, Bool-cases, List, [],
  ◌∷◌, some, ◌>>=◌, length, byte_at, arith,
}
use tsanalytics.DropCount.{Counts, mark_last_drop_count}
use tsanalytics.DropCount.Last.{mark_last_drop_count-LastSeen, marked}
use tsanalytics.DropCount.Sequence.{Clean, InSequence, Expects, Quiet, clean-Quiet}
use tsanalytics.DropCount.Interleave.{only}
use tsanalytics.Packet.{free_packet_list_all}
use tsanalytics.Packet.Assemble.{pid_of}
use tsanalytics.Digest.{packets}
use tsanalytics.Analysis.{Locals, State, initial, percent, scan, analyze}
use tsanalytics.Analysis.Sound.{AllFine, IsSound, counted, counted-Ready, counted-drop}
use tsanalytics.Analysis.Safety.{Stepped, step_synced, initial-IsSound, length-packets}
use tsanalytics.Analysis.Totals.{AllSynced, collect-counts}

-- No drop, error or scrambling has been counted for the PID.
pub record Unharmed (pid : ℕ) (c c' : Counts) : Type 0 where
  pub drop : (c' pid).drop ≡ (c pid).drop
  pub error : (c' pid).error ≡ (c pid).error
  pub scrambling : (c' pid).scrambling ≡ (c pid).scrambling

Unharmed-same : {pid : ℕ} {c c' : Counts} → c' pid ≡ c pid → Unharmed pid c c'
Unharmed-same e = record {
  drop = ap (λ c. c.drop) e;
  error = ap (λ c. c.error) e;
  scrambling = ap (λ c. c.scrambling) e;
}

Unharmed-trans : {pid : ℕ} {a b c : Counts} → Unharmed pid a b → Unharmed pid b c → Unharmed pid a c
Unharmed-trans f g = record {
  drop = g.drop ∙ f.drop;
  error = g.error ∙ f.error;
  scrambling = g.scrambling ∙ f.scrambling;
}

-- To count a packet in the total of its PID touches nothing else.
counted-Unharmed : (c : Counts) (p pid : ℕ) → Unharmed pid c (counted c p)
counted-Unharmed c p pid = record {
  drop = ground arith;
  error = ground arith;
  scrambling = ground arith;
}

counted-Expects : (c : Counts) (p pid n : ℕ) → Expects (c pid) n → Expects (counted c p pid) n
counted-Expects c p pid n (inl fresh) = inl (ground (arith, fresh))
counted-Expects c p pid n (inr e) = inr (ap (λ b. (byte_at b 3 % 16 + 1) % 16) kept ∙ e)
  where
    kept : (counted c p pid).before_packet ≡ (c pid).before_packet
    kept = ground arith

-- A packet of another PID.
other_step :
    (l : Locals) {per : List ℕ} (buf : List ℕ) (s t : State) (pid : ℕ)
    → pid_of buf ≢ pid
    → Stepped l per buf s t
    → t.counts pid ≡ s.counts pid
other_step l buf s t pid other st =
    let (same, flag) = collect-counts l st.head buf st.between t st.collected in
    ap (λ c. c pid) same
    ∙ st.counted.checked.others pid (λ e. other (sym (e ∙ st.counted.checked.parsed.pid)))
    ∙ ground arith

-- A packet of the PID with the counter that is expected.
own_step :
    (l : Locals) {per : List ℕ} (buf : List ℕ) {i : ℕ} (s t : State) (pid n : ℕ)
    → IsSound i s
    → i + 1 < 2 ^ 64
    → Clean pid n buf
    → Expects (s.counts pid) n
    → Stepped l per buf s t
    → Unharmed pid s.counts t.counts × Expects (t.counts pid) ((n + 1) % 16)
own_step l buf s t pid n sound room clean e st =
    let (same, flag) = collect-counts l st.head buf st.between t st.collected in
    let checked = st.counted.checked in
    let own : checked.head.pid ≡ pid = checked.parsed.pid ∙ clean.of_pid in
    let quiet =
      clean-Quiet (counted-Ready s.counts (pid_of buf) sound.ready) clean checked
        (λ q. omega (arith, counted-drop s.counts (pid_of buf) q, sound.drops q))
        (subst (λ q. Expects (counted s.counts (pid_of buf) q) n) (sym own)
          (counted-Expects s.counts (pid_of buf) pid n e)) in
    let quiet' : Quiet (counted s.counts (pid_of buf)) t.counts pid 1 ((n + 1) % 16) = rw same (
      subst (λ q. Quiet (counted s.counts (pid_of buf)) st.between.counts q 1 ((n + 1) % 16)) own
        quiet) in
    (
      Unharmed-trans (counted-Unharmed s.counts (pid_of buf) pid) (record {
        drop = quiet'.drops pid;
        error = quiet'.errors;
        scrambling = quiet'.scramblings;
      }),
      quiet'.expects,
    )

scan-Unharmed :
    (l : Locals) (total i pid n : ℕ) (ps : List (List ℕ)) (s : State)
    → AllFine ps
    → AllSynced ps
    → s.this_is_not_ts ≡ 0
    → i + length ps < 2 ^ 64
    → IsSound i s
    → Expects (s.counts pid) n
    → InSequence pid n (only pid ps)
    → (t : State) × (scan l total i ps s ≡ some t) × Unharmed pid s.counts t.counts
unfolding scan only
scan-Unharmed l total i pid n [] s fine synced live room sound e q = (s, refl, Unharmed-same refl)
scan-Unharmed l total i pid n (p ∷ ps) s fine synced live room sound e q =
    let (mid, returns, sound', st) =
      step_synced l (percent total i) p fine.0 s sound (omega arith) synced.0 live in
    let (same, flag) = collect-counts l st.head p st.between mid st.collected in
    let live' : mid.this_is_not_ts ≡ 0 = flag ∙ st.counted.flag ∙ live in
    elim (Bool-cases (pid_of p == pid)) [
      | inl own ↦
          let (clean, more) = rw own at q in
          let (unharmed, e') = own_step l p s mid pid n sound (omega arith) clean e st in
          let (t, returns', rest) =
            scan-Unharmed l total (i + 1) pid ((n + 1) % 16) ps mid fine.1 synced.1 live'
              (omega arith) sound' e' more in
          (t, rw (returns, ◌>>=◌) returns', Unharmed-trans unharmed rest)
      | inr other ↦
          let kept = other_step l p s mid pid (λ z. absurd (ground (arith, z, other))) st in
          let (t, returns', rest) =
            scan-Unharmed l total (i + 1) pid n ps mid fine.1 synced.1 live' (omega arith) sound'
              (rw kept e) (rw other at q) in
          (t, rw (returns, ◌>>=◌) returns', Unharmed-trans (Unharmed-same kept) rest)
    ]

-- The mark of the last PID touches no defect.
marked-defects :
    (counts : Counts) (l q : ℕ)
    → ((marked counts l q).drop ≡ (counts q).drop)
      × ((marked counts l q).error ≡ (counts q).error)
      × ((marked counts l q).scrambling ≡ (counts q).scrambling)
marked-defects counts l q = (ground arith, ground arith, ground arith)

-- A file of fewer than 2 ^ 64 bytes, whose packets all have their sync byte. In them, where a
-- section of the PAT or of the TOT begins, its payload begins at offset 179 or before, and a PAT's
-- length is below 4 or at least 9. The packets of one PID, wherever they stand among the others,
-- have payload, no transport error and no scrambling, and their counters go up by one from any
-- value. The analysis returns, and has counted no drop, error or scrambling for the PID.
pub analyze-unharmed :
    (l : Locals) (pid n : ℕ) (file : List ℕ)
    → AllFine (packets (length file / 188) file)
    → AllSynced (packets (length file / 188) file)
    → length file < 2 ^ 64
    → InSequence pid n (only pid (packets (length file / 188) file))
    → (s : State) × (analyze l file ≡ some s)
      × ((s.counts pid).drop ≡ 0)
      × ((s.counts pid).error ≡ 0)
      × ((s.counts pid).scrambling ≡ 0)
unfolding analyze initial
analyze-unharmed l pid n file fine synced small q =
    let k : ℕ = length file / 188 in
    let (s, returns, u) =
      scan-Unharmed l k 0 pid n (packets k file) (initial l) fine synced refl
        (omega (arith, length-packets k file)) (initial-IsSound l) (inl refl) q in
    let (last, highest, same) = mark_last_drop_count-LastSeen s.counts in
    let (drop, error, scrambling) = marked-defects s.counts last pid in
    (
      record s { counts = mark_last_drop_count s.counts; store = free_packet_list_all s.store },
      rw (returns, ◌>>=◌),
      ap (λ c. c.drop) (same pid) ∙ drop ∙ u.drop,
      ap (λ c. c.error) (same pid) ∙ error ∙ u.error,
      ap (λ c. c.scrambling) (same pid) ∙ scrambling ∙ u.scrambling,
    )
