-- ===== src/Analysis/Parsers.antt =====
-- The sections in the loop: `st_packet` and the parsers return, and the invariant stays.
use mathlib.Core.Path.{subst}
use native.Mathlib.Decide.{ℕ_discrete}
use tsanalytics.Base.{
  ℕ, ◌+◌, ◌≤◌, ◌==◌, ◌≡◌, ◌⊎◌, inl, inr, refl, sym, ◌||◌, if◌then◌else◌, false, Bool-cases, List,
  some, ◌>>=◌, length, IsBytes, arith,
}
use tsanalytics.Head.{Head}
use tsanalytics.Head.Decode.{Parsed, IsPacket}
use tsanalytics.Crc.Total.{section_length}
use tsanalytics.Packet.{Cell, Store, put}
use tsanalytics.Packet.Block.{section_length-front}
use tsanalytics.Packet.Assemble.{pid_of}
use tsanalytics.Packet.Feed.{Fed, waits, holds, Complete, complete, Keeps, st_packet-Keeps}
use tsanalytics.Pat.{Pat}
use tsanalytics.Pat.Table.{st_pat-Listed}
use tsanalytics.Tot.Timed.{st_tot-Outcome}
use tsanalytics.Analysis.{Locals, State, set_time, use_section, collect}
use tsanalytics.Analysis.Sound.{Needed, IsFine, IsSound, IsSound-same}

-- A complete section in the block of its cell.
pub record Loaded (pid : ℕ) (cell : Cell) : Type 0 where
  pub block : List ℕ
  pub there : cell.payload ≡ some block
  pub clean : IsBytes block
  pub room : section_length block + 191 ≤ length block
  pub long : 4 ≤ section_length block
  pub needed : Needed pid (section_length block)

pub Complete-Loaded : {pid : ℕ} {cell : Cell} → Complete (Needed pid) cell → Loaded pid cell
Complete-Loaded {pid} (complete {bytes} a needed long more) = record {
  block = a.holds.block;
  there = a.holds.there;
  clean = a.holds.clean;
  room = omega (arith, same, a.holds.room, a.size);
  long = omega (arith, same);
  needed = subst (Needed pid) (sym same) needed;
}
  where
    same : section_length a.holds.block ≡ section_length bytes
    same = section_length-front a.holds.block bytes a.holds.front a.three

-- To stop listening to a PID leaves its section as it is.
Fed-enable :
    {P : ℕ → Type 0} {cell : Cell} (e : ℕ) → Fed P cell → Fed P (record cell { enable = e })
Fed-enable e (waits idle) = waits idle
Fed-enable e (holds a needed) =
    holds
      (record {
        holds = record {
          block = a.holds.block;
          there = a.holds.there;
          room = a.holds.room;
          clean = a.holds.clean;
          count = a.holds.count;
          front = a.holds.front;
          small = a.holds.small;
        };
        three = a.three;
        size = a.size;
        result = a.result;
        loading = a.loading;
      })
      needed

-- The store without the PAT's PID.
deaf :
    {n : ℕ} {s : State} (pat : Pat)
    → IsSound n s
    → IsSound n
        (record s { pat = pat; store = put s.store 0 (record (s.store.cells 0) { enable = 0 }) })
deaf {s = s} pat i = record {
  ready = i.ready;
  drops = i.drops;
  listened = λ q e. ground (arith, i.listened q);
  fed = λ q. elim (Bool-cases (q == 0)) [
    | inl e ↦ let z : q ≡ 0 = ground arith in rw z (Fed-enable 0 (i.fed 0))
    | inr e ↦ rw e (i.fed q)
  ];
  flag = i.flag;
}

module _ (l : Locals) {n : ℕ} (s : State) (i : IsSound n s) where
  use_pat : Loaded 0 (s.store.cells 0) → (s' : State) × (use_section l 0 s ≡ some s') × IsSound n s'
  unfolding use_section
  use_pat ld =
      let (pat, e, listed) = st_pat-Listed ld.block ld.clean long (omega (arith, ld.room)) s.pat in
      (
        record s { pat = pat; store = put s.store 0 (record (s.store.cells 0) { enable = 0 }) },
        rw (ld.there, ◌>>=◌, e),
        deaf pat i,
      )
    where
      long : 9 ≤ section_length ld.block
      long = ground (arith, ld.needed refl, ld.long)

  use_tot :
      Loaded 0x14 (s.store.cells 0x14)
      → (s' : State) × (use_section l 0x14 s ≡ some s') × IsSound n s'
  unfolding use_section set_time
  use_tot ld =
      let (tot, e, outcome) = st_tot-Outcome l.tot ld.block ld.clean (omega (arith, ld.room)) in
      elim (Bool-cases (tot.disable == 0)) [
        | inl e' ↦ (set_time tot.tm s, rw (ld.there, ◌>>=◌, e, e'), IsSound-same i refl refl refl)
        | inr e' ↦ (s, rw (ld.there, ◌>>=◌, e, e'), i)
      ]

  use_section-IsSound :
      (pid : ℕ)
      → (pid ≡ 0) ⊎ (pid ≡ 0x14)
      → Complete (Needed pid) (s.store.cells pid)
      → (s' : State) × (use_section l pid s ≡ some s') × IsSound n s'
  use_section-IsSound pid (inl e) c =
      rw e (use_pat (subst (λ q. Loaded q (s.store.cells q)) e (Complete-Loaded c)))
  use_section-IsSound pid (inr e) c =
      rw e (use_tot (subst (λ q. Loaded q (s.store.cells q)) e (Complete-Loaded c)))

-- The cells behind a call of `st_packet` for a PID that is listened to.
kept-IsSound :
    {n r : ℕ} {s : State} {store : Store} {buf : List ℕ}
    → IsSound n s
    → (pid_of buf ≡ 0) ⊎ (pid_of buf ≡ 0x14)
    → Keeps (Needed (pid_of buf)) s.store buf r store
    → IsSound n (record s { store = store })
kept-IsSound {buf = buf} i of k = record {
  ready = i.ready;
  drops = i.drops;
  listened = λ q e. elim (ℕ_discrete q (pid_of buf)) [
    | yes same ↦ rw same of
    | no ne ↦ i.listened q (rw (← k.others q ne) e)
  ];
  fed = λ q. elim (ℕ_discrete q (pid_of buf)) [
    | yes same ↦ rw same k.fed
    | no ne ↦ rw (k.others q ne) (i.fed q)
  ];
  flag = i.flag;
}

-- Behind `st_packet`: the parser for a complete section.
after_packet :
    (l : Locals) {n : ℕ} (buf : List ℕ) (s : State) (r : ℕ) (store : Store)
    → IsSound n s
    → (pid_of buf ≡ 0) ⊎ (pid_of buf ≡ 0x14)
    → Keeps (Needed (pid_of buf)) s.store buf r store
    → let s' = record s { store = store } in
      (t : State) × ((if r == 0 then some s' else use_section l (pid_of buf) s') ≡ some t)
      × IsSound n t
after_packet l buf s r store i of k = elim (Bool-cases (r == 0)) [
  | inl e ↦ (record s { store = store }, rw e, kept-IsSound i of k)
  | inr e ↦ rw e (elim k.done [
    | inl (zero_result, still) ↦ absurd (ground (arith, zero_result))
    | inr (one, c) ↦
        use_section-IsSound l (record s { store = store }) (kept-IsSound i of k) (pid_of buf) of c
  ])
]

module _ (l : Locals) {n : ℕ} (buf : List ℕ) (packet : IsPacket buf) (fine : IsFine buf)
    (head : Head) (parsed : Parsed buf head) (s : State) (i : IsSound n s) where
  collect_on :
      (head.transport_error_indicator == 0x1) || (head.adaptation_field_control == 0x2) ≡ false
      → ((s.store.cells (pid_of buf)).enable == 0) ≡ false
      → (s' : State) × (collect l head buf s ≡ some s') × IsSound n s'
  unfolding collect
  collect_on clean on =
      let of = i.listened (pid_of buf) (ground arith) in
      let (r, store, k) =
        st_packet-Keeps (Needed (pid_of buf)) s.store buf packet (fine.sections packet.sync of)
          (i.fed (pid_of buf)) in
      let (t, e, sound) = after_packet l buf s r store i of k in
      (t, rw (clean, parsed.pid, on, k.returns, ◌>>=◌) e, sound)

  pub collect-IsSound : (s' : State) × (collect l head buf s ≡ some s') × IsSound n s'
  unfolding collect
  collect-IsSound =
      elim (Bool-cases
        ((head.transport_error_indicator == 0x1) || (head.adaptation_field_control == 0x2))) [
          | inl e ↦ (s, rw e, i)
          | inr e ↦ elim (Bool-cases ((s.store.cells (pid_of buf)).enable == 0)) [
            | inl off ↦ (s, rw (e, parsed.pid, off), i)
            | inr on ↦ collect_on e on
          ]
        ]
