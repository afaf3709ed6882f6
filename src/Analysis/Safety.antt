-- ===== src/Analysis/Safety.antt =====
-- The loop goes on, whatever the counters and tables: every packet's step returns.
use mathlib.Core.Path.{subst}
use tsanalytics.Base.{
  ℕ, suc, ◌+◌, ◌/◌, ◌^◌, ◌≤◌, ◌<◌, ◌==◌, ◌≡◌, inl, inr, refl, ap, ◌∙◌, Bool-cases, List, [], ◌∷◌,
  some, ◌>>=◌, length, drop, replicate-IsBytes, byte_at, zero, arith,
}
use tsanalytics.Head.{Head}
use tsanalytics.Head.Decode.{IsPacket, Parsed, st_head-Parsed}
use tsanalytics.DropCount.{Counts, mark_last_drop_count}
use tsanalytics.DropCount.Last.{marked, mark_last_drop_count-LastSeen}
use tsanalytics.Packet.{free_packet_list_all}
use tsanalytics.Packet.Assemble.{pid_of}
use tsanalytics.Packet.Feed.{waits}
use tsanalytics.Digest.{packets}
use tsanalytics.Analysis.{
  Locals, State, initial, analyze, percent, miss_sync, count_packet, collect, step, scan,
}
use tsanalytics.Analysis.Sync.{step-miss_sync, step_stopped, step-collect}
use tsanalytics.Analysis.Sound.{
  IsFine, AllFine, IsSound, IsSound-same, IsSound-more, Counted, count_packet-Counted,
  Counted-IsSound,
}
use tsanalytics.Analysis.Parsers.{collect-IsSound}

-- The two parts of a step for a packet with its sync byte.
pub record Stepped (l : Locals) (per buf : List ℕ) (s t : State) : Type 0 where
  pub head : Head
  pub parsed : Parsed buf head
  pub between : State
  pub called : count_packet l per (pid_of buf) buf (record s { sync_err_repeat = 0 }) ≡ some between
  pub counted : Counted (record s { sync_err_repeat = 0 }) buf between
  pub collected : collect l head buf between ≡ some t

module _ (l : Locals) (per : List ℕ) {n : ℕ} (buf : List ℕ) (fine : IsFine buf) (s : State)
    (i : IsSound n s) (room : n + 1 < 2 ^ 64) where
  pub step_synced :
      byte_at buf 0 ≡ 0x47
      → s.this_is_not_ts ≡ 0
      → (s' : State) × (step l per buf s ≡ some s') × IsSound (n + 1) s' × Stepped l per buf s s'
  step_synced sync live =
      let packet : IsPacket buf = record { bytes = fine.bytes; whole = fine.whole; sync = sync } in
      let (head, parsed, e) = st_head-Parsed buf fine.bytes fine.whole sync in
      let reset : State = record s { sync_err_repeat = 0 } in
      let still : IsSound n reset = IsSound-same i refl refl refl in
      let (s', e', counted) = count_packet-Counted l per buf reset still.ready packet in
      let (t, e'', sound) =
        collect-IsSound l buf packet fine head parsed s'
          (Counted-IsSound packet room still counted) in
      (
        t,
        step-collect l per buf s s' t head live (e l.head) parsed.sync
            (ap (λ q. count_packet l per q buf reset) parsed.pid ∙ e') e'',
        sound,
        record {
          head = head;
          parsed = parsed;
          between = s';
          called = e';
          counted = counted;
          collected = e'';
        },
      )

  pub missed-IsSound : IsSound (n + 1) (miss_sync s)
  unfolding miss_sync
  missed-IsSound =
      let more = IsSound-more i in
      record {
        ready = more.ready;
        drops = more.drops;
        listened = more.listened;
        fed = more.fed;
        flag = ground (arith, i.flag);
      }

  -- One packet: the step returns, and its variables are sound.
  step-IsSound : (s' : State) × (step l per buf s ≡ some s') × IsSound (n + 1) s'
  step-IsSound = elim (Bool-cases (s.this_is_not_ts == 1)) [
    | inl stopped ↦ (s, step_stopped l per buf s (ground arith), IsSound-more i)
    | inr going ↦
        let live : s.this_is_not_ts ≡ 0 = ground (arith, i.flag) in
        elim (Bool-cases (byte_at buf 0 == 0x47)) [
          | inl sync ↦
              let (s', e, sound, stepped) = step_synced (ground arith) live in (s', e, sound)
          | inr other ↦ (
            miss_sync s,
            step-miss_sync l per buf s
                (record { bytes = fine.bytes; whole = fine.whole; other = ground arith }) live,
            missed-IsSound,
          )
        ]
  ]

-- The loop returns on any packets that are fine, and leaves the invariant.
scan-IsSound :
    (l : Locals) (total i : ℕ) (ps : List (List ℕ)) (s : State)
    → AllFine ps
    → i + length ps < 2 ^ 64
    → IsSound i s
    → (s' : State) × (scan l total i ps s ≡ some s') × IsSound (i + length ps) s'
unfolding scan
scan-IsSound l total i [] s fine room sound =
    (s, refl, subst (λ n. IsSound n s) (omega arith) sound)
scan-IsSound l total i (p ∷ ps) s fine room sound =
    let (mid, e, sound') = step-IsSound l (percent total i) p fine.0 s sound (omega arith) in
    let (s', e', sound'') = scan-IsSound l total (i + 1) ps mid fine.1 (omega arith) sound' in
    (s', rw (e, ◌>>=◌) e', subst (λ n. IsSound n s') (omega arith) sound'')

pub length-packets : (n : ℕ) (file : List ℕ) → length (packets n file) ≡ n
unfolding packets
length-packets zero file = refl
length-packets (suc n) file = omega (arith, length-packets n (drop 188 file))

marked-drop : (counts : Counts) (l q : ℕ) → (marked counts l q).drop ≡ (counts q).drop
marked-drop counts l q = ground arith

pub initial-IsSound : (l : Locals) → IsSound 0 (initial l)
unfolding initial
initial-IsSound l = record {
  ready = λ q. record {
    bytes = replicate-IsBytes 188;
    whole = refl;
    synced = λ used. absurd (used refl);
    repeats = omega arith;
    drops = omega arith;
    errors = omega arith;
    scramblings = omega arith;
    totals = omega arith;
  };
  drops = λ q. omega arith;
  listened = λ q e. ground arith;
  fed = λ q. waits refl;
  flag = omega arith;
}

-- A file of fewer than 2 ^ 64 bytes. In its packets, where a section of the PAT or of the TOT
-- begins, its payload begins at offset 179 or before, and a PAT's length is below 4 or at least
-- 9. The analysis of the file returns, whatever the locals held that the program does not
-- initialise, and no PID has more drops than the file has packets.
pub analyze-some :
    (l : Locals) (file : List ℕ)
    → AllFine (packets (length file / 188) file)
    → length file < 2 ^ 64
    → (s : State) × (analyze l file ≡ some s) × ((q : ℕ) → (s.counts q).drop ≤ length file / 188)
unfolding analyze
analyze-some l file fine small =
    let n : ℕ = length file / 188 in
    let (s, e, sound) =
      scan-IsSound l n 0 (packets n file) (initial l) fine (omega (arith, length-packets n file))
        (initial-IsSound l) in
    let (last, highest, same) = mark_last_drop_count-LastSeen s.counts in
    (
      record s { counts = mark_last_drop_count s.counts; store = free_packet_list_all s.store },
      rw (e, ◌>>=◌),
      λ q. omega (
        arith,
        ap (λ c. c.drop) (same q),
        marked-drop s.counts last q,
        sound.drops q,
        length-packets n file,
      ),
    )
