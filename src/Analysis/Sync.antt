-- ===== src/Analysis/Sync.antt =====
-- Packets without the sync byte: how a file is found not to be a transport stream.
use mathlib.Core.Path.{ap₂}
use tsanalytics.Base.{
  ℕ, suc, ◌+◌, ◌/◌, ◌≤◌, ◌==◌, ◌≡◌, ◌≢◌, refl, ap, ◌∙◌, ltb, if◌then◌else◌, true, false, List, [],
  ◌∷◌, ◌++◌, some, ◌>>=◌, length, IsBytes, byte_at, u64, arith,
}
use tsanalytics.Head.{Head, st_head}
use tsanalytics.Head.Decode.{st_head_unsynced}
use tsanalytics.DropCount.{mark_last_drop_count}
use tsanalytics.Packet.{free_packet_list_all}
use tsanalytics.Digest.{packets}
use tsanalytics.Analysis.{
  Locals, State, percent, miss_sync, count_packet, collect, step, scan, initial, analyze,
}

-- A packet of 188 bytes whose first is not the sync byte.
pub record IsUnsynced (buf : List ℕ) : Type 0 where
  pub bytes : IsBytes buf
  pub whole : length buf ≡ 188
  pub other : byte_at buf 0 ≢ 0x47

abbrev pub AllUnsynced : List (List ℕ) → Type 0
AllUnsynced [] = Unit {0}
AllUnsynced (p ∷ ps) = IsUnsynced p × AllUnsynced ps

pub step-miss_sync :
    (l : Locals) (per buf : List ℕ) (s : State)
    → IsUnsynced buf
    → s.this_is_not_ts ≡ 0
    → step l per buf s ≡ some (miss_sync s)
unfolding step
step-miss_sync l per buf s u live =
    rw (live, st_head_unsynced buf u.bytes u.whole l.head u.other, ◌>>=◌, wrong)
  where
    wrong : (byte_at buf 0 == 0x47) ≡ false
    wrong = ground (arith, u.other)

pub step_stopped :
    (l : Locals) (per buf : List ℕ) (s : State) → s.this_is_not_ts ≡ 1 → step l per buf s ≡ some s
unfolding step
step_stopped l per buf s stopped = rw stopped

-- The step for a packet with its sync byte, once its parts are known.
pub step-collect :
    (l : Locals) (per buf : List ℕ) (s s' t : State) (head : Head)
    → s.this_is_not_ts ≡ 0
    → st_head l.head buf ≡ some head
    → head.sync_byte ≡ 0x47
    → count_packet l per head.pid buf (record s { sync_err_repeat = 0 }) ≡ some s'
    → collect l head buf s' ≡ some t
    → step l per buf s ≡ some t
unfolding step
step-collect l per buf s s' t head live e sync counted collected =
    rw (going, e, ◌>>=◌, synced, counted) collected
  where
    going : (s.this_is_not_ts == 1) ≡ false
    going = ground (arith, live)

    synced : (head.sync_byte == 0x47) ≡ true
    synced = ground (arith, sync)

-- Nothing of the loop's variables changes any more; only the hashes go on.
scan_stopped :
    (l : Locals) (n i : ℕ) (ps : List (List ℕ)) (s : State)
    → s.this_is_not_ts ≡ 1
    → scan l n i ps s ≡ some s
unfolding scan
scan_stopped l n i [] s stopped = refl
scan_stopped l n i (p ∷ ps) s stopped =
    rw (step_stopped l (percent n i) p s stopped, ◌>>=◌) (scan_stopped l n (i + 1) ps s stopped)

-- What so many packets without the sync byte leave, in a row.
abbrev pub missed : ℕ → State → State
missed k s = record s {
  sync_error = u64 (s.sync_error + k);
  sync_err_repeat = s.sync_err_repeat + k;
  this_is_not_ts = if ltb 101 (s.sync_err_repeat + k) then 1 else 0;
}

missed_one : (s : State) → s.this_is_not_ts ≡ 0 → miss_sync s ≡ missed 1 s
unfolding miss_sync
missed_one s live = ground arith

missed_more :
    (k : ℕ) (s : State) → s.sync_err_repeat ≤ 100 → 1 ≤ k → missed k (missed 1 s) ≡ missed (suc k) s
missed_more k s few pos = ground arith

-- Packets without the sync byte, in a row, where the last is at most the 102nd of its row.
scan-missed :
    (l : Locals) (n i : ℕ) (p : List ℕ) (ps rest : List (List ℕ)) (s : State)
    → AllUnsynced (p ∷ ps)
    → s.this_is_not_ts ≡ 0
    → s.sync_err_repeat + length (p ∷ ps) ≤ 102
    → scan l n i ((p ∷ ps) ++ rest) s
      ≡ scan l n (i + length (p ∷ ps)) rest (missed (length (p ∷ ps)) s)
unfolding scan
scan-missed l n i p [] rest s u live few =
    rw (step-miss_sync l (percent n i) p s u.0 live, ◌>>=◌, missed_one s live)
scan-missed l n i p (q ∷ ps) rest s u live few =
    rw (step-miss_sync l (percent n i) p s u.0 live, ◌>>=◌, missed_one s live)
      (scan-missed l n (i + 1) q ps rest (missed 1 s) u.1 (ground arith) (omega arith)
        ∙ ap₂ (λ j t. scan l n j rest t) (omega arith)
            (missed_more (length (q ∷ ps)) s (omega arith) (omega arith)))

-- Packets of 188 bytes without the sync byte, in a row, up to the 102nd of their row: the file is
-- found not to be a transport stream. Whatever follows, the loop returns, each of these packets
-- is counted as a sync error, and no other variable of the loop changes.
pub scan-not_ts :
    (l : Locals) (n i : ℕ) (p : List ℕ) (ps rest : List (List ℕ)) (s : State)
    → AllUnsynced (p ∷ ps)
    → s.this_is_not_ts ≡ 0
    → s.sync_err_repeat + length (p ∷ ps) ≡ 102
    → scan l n i ((p ∷ ps) ++ rest) s
      ≡ some (record s {
        sync_error = u64 (s.sync_error + length (p ∷ ps));
        sync_err_repeat = 102;
        this_is_not_ts = 1;
      })
scan-not_ts l n i p ps rest s u live full =
    scan-missed l n i p ps rest s u live (omega arith)
    ∙ scan_stopped l n (i + length (p ∷ ps)) rest (missed (length (p ∷ ps)) s) (ground arith)
    ∙ ap some (ground arith)

-- A row of at most 101 such packets leaves the analysis on: it goes on with the packets behind
-- them, each of these is counted as a sync error and in the row, and no other variable changes.
scan_still_ts :
    (l : Locals) (n i : ℕ) (p : List ℕ) (ps rest : List (List ℕ)) (s : State)
    → AllUnsynced (p ∷ ps)
    → s.this_is_not_ts ≡ 0
    → s.sync_err_repeat + length (p ∷ ps) ≤ 101
    → scan l n i ((p ∷ ps) ++ rest) s
      ≡ scan l n (i + length (p ∷ ps)) rest (record s {
        sync_error = u64 (s.sync_error + length (p ∷ ps));
        sync_err_repeat = s.sync_err_repeat + length (p ∷ ps);
        this_is_not_ts = 0;
      })
scan_still_ts l n i p ps rest s u live few =
    scan-missed l n i p ps rest s u live (omega arith)
    ∙ ap (scan l n (i + length (p ∷ ps)) rest) (ground arith)

-- The first 102 packets of a file have no sync byte: the analysis returns, with its flag set.
pub analyze-not_ts :
    (l : Locals) (file : List ℕ) (p : List ℕ) (ps rest : List (List ℕ))
    → packets (length file / 188) file ≡ (p ∷ ps) ++ rest
    → AllUnsynced (p ∷ ps)
    → length (p ∷ ps) ≡ 102
    → (s : State) × (analyze l file ≡ some s) × (s.this_is_not_ts ≡ 1)
unfolding analyze initial
analyze-not_ts l file p ps rest split u full =
    let n : ℕ = length file / 188 in
    let s : State = record (initial l) {
      sync_error = u64 (0 + length (p ∷ ps));
      sync_err_repeat = 102;
      this_is_not_ts = 1;
    } in
    (
      record s { counts = mark_last_drop_count s.counts; store = free_packet_list_all s.store },
      rw (split, scan-not_ts l n 0 p ps rest (initial l) u refl (omega (arith, full)), ◌>>=◌),
      refl,
    )
