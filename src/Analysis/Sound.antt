-- ===== src/Analysis/Sound.antt =====
-- An invariant of the loop's variables, what it takes of the packets, and the counting.
use mathlib.Core.Path.{subst}
use native.Mathlib.Decide.{ℕ_discrete}
use tsanalytics.Base.{
  ℕ, ◌+◌, ◌/◌, ◌%◌, ◌^◌, ◌≤◌, ◌<◌, ◌==◌, ◌≡◌, ◌≢◌, ◌⊎◌, inl, inr, refl, sym, Bool-cases, List, [],
  ◌∷◌, some, ◌>>=◌, length, IsBytes, byte_at, u64, arith,
}
use tsanalytics.Head.Decode.{IsPacket}
use tsanalytics.Crc.Total.{section_length}
use tsanalytics.DropCount.{DropCount, Counts, update}
use tsanalytics.DropCount.Check.{Ready, Checked, drop_check_and_count-Checked, Checked-Ready}
use tsanalytics.DropList.{add_drop_list}
use tsanalytics.Packet.Assemble.{pid_of, payload_at, payload_of}
use tsanalytics.Packet.Feed.{Fed}
use tsanalytics.Analysis.{Locals, State, count_packet}

-- The lengths of a PAT that `st_pat` can parse, or that `st_packet` does not report.
abbrev pub Needed : ℕ → ℕ → Type 0
Needed pid len = pid ≡ 0 → (len < 4) ⊎ (9 ≤ len)

-- A packet of 188 bytes. If it begins a section of the PAT or of the TOT, its payload begins at
-- offset 179 or before, and the length of a PAT is one of these.
pub record IsFine (buf : List ℕ) : Type 0 where
  pub bytes : IsBytes buf
  pub whole : length buf ≡ 188
  pub sections :
      byte_at buf 0 ≡ 0x47
      → (pid_of buf ≡ 0) ⊎ (pid_of buf ≡ 0x14)
      → byte_at buf 1 / 64 % 2 ≡ 1
      → (payload_at buf ≤ 179) × Needed (pid_of buf) (section_length (payload_of buf))

abbrev pub AllFine : List (List ℕ) → Type 0
AllFine [] = Unit {0}
AllFine (p ∷ ps) = IsFine p × AllFine ps

-- The variables behind `n` packets.
pub record IsSound (n : ℕ) (s : State) : Type 0 where
  pub ready : (q : ℕ) → Ready (s.counts q)
  pub drops : (q : ℕ) → (s.counts q).drop ≤ n
  pub listened : (q : ℕ) → (s.store.cells q).enable ≢ 0 → (q ≡ 0) ⊎ (q ≡ 0x14)
  pub fed : (q : ℕ) → Fed (Needed q) (s.store.cells q)
  pub flag : s.this_is_not_ts ≤ 1

-- The invariant looks at the counters, the cells and the flag alone.
pub IsSound-same :
    {n : ℕ} {s t : State}
    → IsSound n s
    → t.counts ≡ s.counts
    → t.store ≡ s.store
    → t.this_is_not_ts ≡ s.this_is_not_ts
    → IsSound n t
IsSound-same i counts store flag = record {
  ready = λ q. subst (λ c. Ready (c q)) (sym counts) (i.ready q);
  drops = λ q. rw counts (i.drops q);
  listened = λ q e. i.listened q (rw (← store) e);
  fed = λ q. subst (λ t. Fed (Needed q) (t.cells q)) (sym store) (i.fed q);
  flag = rw flag i.flag;
}

pub IsSound-more : {n : ℕ} {s : State} → IsSound n s → IsSound (n + 1) s
IsSound-more i = record {
  ready = i.ready;
  drops = λ q. omega (arith, i.drops q);
  listened = i.listened;
  fed = i.fed;
  flag = i.flag;
}

Ready-total : {c : DropCount} (t : ℕ) → Ready c → Ready (record c { total = u64 t })
Ready-total t r = record {
  bytes = r.bytes;
  whole = r.whole;
  synced = r.synced;
  repeats = r.repeats;
  drops = r.drops;
  errors = r.errors;
  scramblings = r.scramblings;
  totals = omega arith;
}

-- The array with the total of one PID counted up.
abbrev pub counted : Counts → ℕ → Counts
counted counts pid =
    update counts pid (record (counts pid) { total = u64 ((counts pid).total + 1) })

pub counted-Ready :
    (counts : Counts) (pid : ℕ)
    → ((q : ℕ) → Ready (counts q))
    → (q : ℕ) → Ready (counted counts pid q)
counted-Ready counts pid ready q = elim (Bool-cases (q == pid)) [
  | inl e ↦ rw e (Ready-total ((counts pid).total + 1) (ready pid))
  | inr e ↦ rw e (ready q)
]

pub counted-drop : (counts : Counts) (pid q : ℕ) → (counted counts pid q).drop ≡ (counts q).drop
counted-drop counts pid q = ground arith

-- What the counting leaves: the array of the call, and the variables that it does not touch.
pub record Counted (s : State) (buf : List ℕ) (s' : State) : Type 0 where
  pub v : ℕ
  pub checked : Checked (counted s.counts (pid_of buf)) buf v s'.counts
  pub store : s'.store ≡ s.store
  pub flag : s'.this_is_not_ts ≡ s.this_is_not_ts
  pub pat : s'.pat ≡ s.pat

pub count_packet-Counted :
    (l : Locals) (per buf : List ℕ) (s : State)
    → ((q : ℕ) → Ready (s.counts q))
    → IsPacket buf
    → (s' : State) × (count_packet l per (pid_of buf) buf s ≡ some s') × Counted s buf s'
unfolding count_packet
count_packet-Counted l per buf s ready packet =
    let (v, counts', eq, checked) =
      drop_check_and_count-Checked (counted s.counts (pid_of buf)) buf
        (counted-Ready s.counts (pid_of buf) ready) packet in
    elim (Bool-cases (v == 0)) [
      | inl e ↦ (
        record s {
          counts = counts';
          drop_list_tot = add_drop_list s.drop_list_tot s.current_tot (counts' (pid_of buf));
          drop_list_per = add_drop_list s.drop_list_per per (counts' (pid_of buf));
        },
        rw (eq l.head l.before_head, ◌>>=◌, e),
        record { v = v; checked = checked; store = refl; flag = refl; pat = refl },
      )
      | inr e ↦ (
        record s { counts = counts' },
        rw (eq l.head l.before_head, ◌>>=◌, e),
        record { v = v; checked = checked; store = refl; flag = refl; pat = refl },
      )
    ]

pub Counted-IsSound :
    {n : ℕ} {s s' : State} {buf : List ℕ}
    → IsPacket buf
    → n + 1 < 2 ^ 64
    → IsSound n s
    → Counted s buf s'
    → IsSound (n + 1) s'
Counted-IsSound {n} {s} {s'} {buf} packet room i c = record {
  ready = Checked-Ready (counted-Ready s.counts (pid_of buf) i.ready) packet c.checked;
  drops = λ q. elim (ℕ_discrete q c.checked.head.pid) [
    | yes e ↦ rw e (
        omega (
          arith,
          c.checked.accounted.drop,
          c.checked.accounted.drop_flag,
          counted-drop s.counts (pid_of buf) c.checked.head.pid,
          i.drops c.checked.head.pid,
        ))
    | no ne ↦
        rw (c.checked.others q ne) (omega (arith, counted-drop s.counts (pid_of buf) q, i.drops q))
  ];
  listened = λ q e. i.listened q (rw (← c.store) e);
  fed = λ q. subst (λ t. Fed (Needed q) (t.cells q)) (sym c.store) (i.fed q);
  flag = rw c.flag i.flag;
}
