-- ===== src/Analysis/Phases.antt =====
-- How a step takes the analysis from one phase of a PAT's reception to the next.
use tsanalytics.Base.{
  ℕ, ◌+◌, ◌/◌, ◌%◌, ◌^◌, ◌≤◌, ◌<◌, ◌≡◌, ◌≢◌, inl, refl, ◌∙◌, List, some, length, byte_at, arith,
}
use mathlib.Core.Path.{subst}
use tsanalytics.Head.Decode.{IsPacket}
use tsanalytics.Crc.Total.{section_length}
use tsanalytics.Packet.{Store, st_packet}
use tsanalytics.Packet.Block.{Assembled}
use tsanalytics.Packet.Feed.{passed_over}
use tsanalytics.Packet.Listening.{st_packet-enable}
use tsanalytics.Analysis.{Locals, State, step}
use tsanalytics.Analysis.Sound.{IsFine, IsSound}
use tsanalytics.Analysis.Safety.{step_synced}
use tsanalytics.Analysis.Aside.{IsAside}
use tsanalytics.Analysis.Deliver.{
  IsHeard, Found, use_section-Found, collect_more, collect_done, step-Spared,
}

-- The analysis waits for a PAT to begin, or has the bytes of one that is not complete.
pub record Waiting (s : State) : Type 0 where
  pub live : s.this_is_not_ts ≡ 0
  pub on : (s.store.cells 0).enable ≢ 0
  pub idle : (s.store.cells 0).loading ≡ 0

pub record Loading (bytes : List ℕ) (s : State) : Type 0 where
  pub live : s.this_is_not_ts ≡ 0
  pub on : (s.store.cells 0).enable ≢ 0
  pub there : Assembled bytes 0 (s.store.cells 0)
  pub busy : (s.store.cells 0).loading ≢ 0

-- What a step has led to.
abbrev pub Reaches : Locals → List ℕ → ℕ → List ℕ → State → (State → Type 0) → Type 0
Reaches l per n buf s P = (t : State) × (step l per buf s ≡ some t) × IsSound (n + 1) t × P t

module _ (l : Locals) (per : List ℕ) {n : ℕ} (buf : List ℕ) (packet : IsPacket buf)
    (fine : IsFine buf) (s : State) (i : IsSound n s) (room : n + 1 < 2 ^ 64)
    (live : s.this_is_not_ts ≡ 0) where
  pub aside_Waiting : IsAside buf → Waiting s → Reaches l per n buf s Waiting
  aside_Waiting aside w =
      let (t, e, sound, st) = step_synced l per buf fine s i room packet.sync live in
      let spared = step-Spared l buf packet fine s t i room st (inl aside) in
      (
        t,
        e,
        sound,
        record {
          live = spared.flag ∙ live;
          on = rw spared.cell w.on;
          idle = rw spared.cell w.idle;
        },
      )

  pub aside_Loading :
      {bytes : List ℕ} → IsAside buf → Loading bytes s → Reaches l per n buf s (Loading bytes)
  aside_Loading aside w =
      let (t, e, sound, st) = step_synced l per buf fine s i room packet.sync live in
      let spared = step-Spared l buf packet fine s t i room st (inl aside) in
      (
        t,
        e,
        sound,
        record {
          live = spared.flag ∙ live;
          on = rw spared.cell w.on;
          there = rw spared.cell w.there;
          busy = rw spared.cell w.busy;
        },
      )

  module _ (heard : IsHeard buf) (on : (s.store.cells 0).enable ≢ 0) where
    -- A packet of PID 0 that begins no section.
    pub early_Waiting :
        byte_at buf 1 / 64 % 2 ≡ 0 → (s.store.cells 0).loading ≡ 0 → Reaches l per n buf s Waiting
    early_Waiting more idle =
        let (t, e, sound, st) = step_synced l per buf fine s i room packet.sync live in
        let same = st.counted.store in
        let on' : (st.between.store.cells 0).enable ≢ 0 = rw same on in
        let idle' : (st.between.store.cells 0).loading ≡ 0 = rw same idle in
        let e' =
          collect_more l buf heard st.head st.parsed st.between t on' st.collected 0
            st.between.store (passed_over st.between.store buf packet more (rw heard.of_pid idle'))
            refl in
        (t, e, sound, rw (← e') (record { live = st.counted.flag ∙ live; on = on'; idle = idle' }))

    module _ {bytes : List ℕ} (r : ℕ) (store : Store)
        (returns : st_packet s.store buf ≡ some (r, store))
        (a : Assembled bytes r (store.cells 0)) where
      pub more_Loading :
          length bytes ≤ section_length bytes + 3 → Reaches l per n buf s (Loading bytes)
      more_Loading below =
          let (t, e, sound, st) = step_synced l per buf fine s i room packet.sync live in
          let same = st.counted.store in
          let zero_result : r ≡ 0 = ground (arith, a.result) in
          let e' =
            collect_more l buf heard st.head st.parsed st.between t (rw same on) st.collected r
              store (rw same returns) zero_result in
          (
            t,
            e,
            sound,
            rw (← e') (record {
              live = st.counted.flag ∙ live;
              on = rw (st_packet-enable s.store store buf r 0 returns) on;
              there = subst (λ v. Assembled bytes v (store.cells 0)) zero_result a;
              busy = ground (arith, a.loading);
            }),
          )

      pub last_Found :
          9 ≤ section_length bytes
          → section_length bytes + 3 < length bytes
          → Reaches l per n buf s (Found bytes)
      last_Found long above =
          let (t, e, sound, st) = step_synced l per buf fine s i room packet.sync live in
          let same = st.counted.store in
          let one : r ≡ 1 = ground (arith, a.result) in
          let e' =
            collect_done l buf heard st.head st.parsed st.between t (rw same on) st.collected r
              store (rw same returns) one in
          let (found, flag) =
            use_section-Found l (record st.between { store = store }) t a long (omega arith) e' in
          (t, e, sound, found)
