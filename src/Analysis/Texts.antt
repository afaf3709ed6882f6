-- ===== src/Analysis/Texts.antt =====
-- The texts of the loop fit the buffers they are copied to.
use mathlib.Core.Option.{some-injective}
use mathlib.Core.Path.{subst}
use native.Mathlib.Decide.{ℕ_discrete}
use tsanalytics.Base.{
  ℕ, ◌+◌, ◌^◌, ◌<◌, ◌==◌, ◌||◌, ◌≡◌, ◌≢◌, inl, inr, refl, if◌then◌else◌, Bool-cases, List, [], ◌∷◌,
  some, ◌>>=◌, >>=-eq-some, length, u64, byte_at, arith,
}
use tsanalytics.Head.{Head}
use tsanalytics.Head.Decode.{IsPacket, Parsed}
use tsanalytics.DropCount.{drop_check_and_count, update}
use tsanalytics.DropList.Short.{Fits, AllFit, add_drop_list-AllFit}
use tsanalytics.Packet.{Store}
use tsanalytics.Packet.Assemble.{pid_of}
use tsanalytics.Packet.Feed.{Keeps, st_packet-Keeps}
use tsanalytics.Tot.Timed.{st_tot-Outcome}
use tsanalytics.Analysis.{
  Locals, State, initial, percent, set_time, miss_sync, count_packet, use_section, collect, step,
  scan,
}
use tsanalytics.Analysis.Buffers.{percent-Fits, Outcome-Fits}
use tsanalytics.Analysis.Sync.{step-miss_sync, step_stopped}
use tsanalytics.Analysis.Sound.{
  Needed, IsFine, AllFine, IsSound, IsSound-same, IsSound-more, Counted-IsSound,
}
use tsanalytics.Analysis.Parsers.{Loaded, Complete-Loaded}
use tsanalytics.Analysis.Safety.{step_synced, missed-IsSound}

-- The time of the last TOT and the keys of both lists fit their 32 bytes.
pub record AllShort (s : State) : Type 0 where
  pub current : Fits s.current_tot
  pub tot : AllFit s.drop_list_tot
  pub per : AllFit s.drop_list_per

-- A defect goes to the lists under the keys of the moment.
count_packet-AllShort :
    (l : Locals) (per : List ℕ) (pid : ℕ) (buf : List ℕ) (s s' : State)
    → Fits per
    → AllShort s
    → count_packet l per pid buf s ≡ some s'
    → AllShort s'
unfolding count_packet
count_packet-AllShort l per pid buf s s' short a e =
    let count = s.counts pid in
    let counted = update s.counts pid (record count { total = u64 (count.total + 1) }) in
    let ((good, counts'), called, rest) =
      >>=-eq-some (drop_check_and_count l.head l.before_head counted buf) _ e in
    elim (Bool-cases (good == 0)) [
      | inl bad ↦ rw (← some-injective _ _ (rw bad at rest)) (record {
        current = a.current;
        tot = add_drop_list-AllFit s.current_tot (counts' pid) s.drop_list_tot a.current a.tot;
        per = add_drop_list-AllFit per (counts' pid) s.drop_list_per short a.per;
      })
      | inr fine ↦
          rw (← some-injective _ _ (rw fine at rest))
            (record { current = a.current; tot = a.tot; per = a.per })
    ]

-- A parser.
use_section-AllShort :
    (l : Locals) (s t : State)
    → AllShort s
    → Loaded 0x14 (s.store.cells 0x14)
    → use_section l 0x14 s ≡ some t
    → AllShort t
unfolding use_section set_time
use_section-AllShort l s t a ld e =
    let (tot, parsed, outcome) = st_tot-Outcome l.tot ld.block ld.clean (omega (arith, ld.room)) in
    elim (Bool-cases (tot.disable == 0)) [
      | inl timed ↦ rw (← some-injective _ _ (rw (ld.there, ◌>>=◌, parsed, timed) at e)) (record {
        current =
            Outcome-Fits ld.block l.tot tot ld.clean (omega (arith, ld.room))
              (ground (arith, timed)) outcome;
        tot = a.tot;
        per = a.per;
      })
      | inr disabled ↦ rw (← some-injective _ _ (rw (ld.there, ◌>>=◌, parsed, disabled) at e)) a
    ]

-- The other PIDs leave the texts alone.
use_section-same :
    (l : Locals) (pid : ℕ) (s t : State)
    → pid ≢ 0x14
    → use_section l pid s ≡ some t
    → (t.current_tot ≡ s.current_tot)
      × (t.drop_list_tot ≡ s.drop_list_tot)
      × (t.drop_list_per ≡ s.drop_list_per)
unfolding use_section
use_section-same l pid s t other e = ground arith

AllShort-same :
    {s t : State}
    → AllShort s
    → (t.current_tot ≡ s.current_tot)
      × (t.drop_list_tot ≡ s.drop_list_tot)
      × (t.drop_list_per ≡ s.drop_list_per)
    → AllShort t
AllShort-same a (current, tot, per) = record {
  current = rw current a.current;
  tot = rw tot a.tot;
  per = rw per a.per;
}

-- Behind `st_packet`.
after_packet-AllShort :
    (l : Locals) (buf : List ℕ) (s t : State) (r : ℕ) (store : Store)
    → AllShort s
    → Keeps (Needed (pid_of buf)) s.store buf r store
    → (let s' = record s { store = store } in
        (if r == 0 then some s' else use_section l (pid_of buf) s') ≡ some t)
    → AllShort t
after_packet-AllShort l buf s t r store a k e =
    let s' : State = record s { store = store } in
    let a' : AllShort s' = record { current = a.current; tot = a.tot; per = a.per } in
    elim (Bool-cases (r == 0)) [
      | inl idle ↦ rw (← some-injective _ _ (rw idle at e)) a'
      | inr done ↦ elim (ℕ_discrete (pid_of buf) 0x14) [
        | no other ↦ AllShort-same a' (use_section-same l (pid_of buf) s' t other (rw done at e))
        | yes tot ↦ elim k.done [
          | inl (zero_result, still) ↦ absurd (ground (arith, zero_result))
          | inr (one, c) ↦
              use_section-AllShort l s' t a'
                (subst (λ q. Loaded q (store.cells q)) tot (Complete-Loaded c))
                (rw (done, tot) at e)
        ]
      ]
    ]

collect-AllShort :
    (l : Locals) {n : ℕ} (buf : List ℕ) (packet : IsPacket buf) (fine : IsFine buf) (head : Head)
    (parsed : Parsed buf head) (s t : State)
    → IsSound n s
    → AllShort s
    → collect l head buf s ≡ some t
    → AllShort t
unfolding collect
collect-AllShort l buf packet fine head parsed s t i a e =
    elim (Bool-cases
      ((head.transport_error_indicator == 0x1) || (head.adaptation_field_control == 0x2))) [
        | inl skip ↦ rw (← some-injective _ _ (rw skip at e)) a
        | inr clean ↦ elim (Bool-cases ((s.store.cells (pid_of buf)).enable == 0)) [
          | inl off ↦ rw (← some-injective _ _ (rw (clean, parsed.pid, off) at e)) a
          | inr on ↦
              let (r, store, k) =
                st_packet-Keeps (Needed (pid_of buf)) s.store buf packet
                  (fine.sections packet.sync (i.listened (pid_of buf) (ground arith)))
                  (i.fed (pid_of buf)) in
              after_packet-AllShort l buf s t r store a k
                (rw (clean, parsed.pid, on, k.returns, ◌>>=◌) at e)
        ]
      ]

step-AllShort :
    (l : Locals) (per : List ℕ) {n : ℕ} (buf : List ℕ) (s : State)
    → IsFine buf
    → IsSound n s
    → n + 1 < 2 ^ 64
    → Fits per
    → AllShort s
    → (t : State) × (step l per buf s ≡ some t) × IsSound (n + 1) t × AllShort t
unfolding miss_sync
step-AllShort l per buf s fine i room short a = elim (Bool-cases (s.this_is_not_ts == 1)) [
  | inl stopped ↦ (s, step_stopped l per buf s (ground arith), IsSound-more i, a)
  | inr going ↦
      let live : s.this_is_not_ts ≡ 0 = ground (arith, i.flag) in
      elim (Bool-cases (byte_at buf 0 == 0x47)) [
        | inl sync ↦
            let (t, e, sound, st) = step_synced l per buf fine s i room (ground arith) live in
            let packet : IsPacket buf = record {
              bytes = fine.bytes;
              whole = fine.whole;
              sync = ground arith;
            } in
            let reset : State = record s { sync_err_repeat = 0 } in
            let still : IsSound _ reset = IsSound-same i refl refl refl in
            let counted =
              count_packet-AllShort l per (pid_of buf) buf reset st.between short
                (record { current = a.current; tot = a.tot; per = a.per }) st.called in
            (
              t,
              e,
              sound,
              collect-AllShort l buf packet fine st.head st.parsed st.between t
                  (Counted-IsSound packet room still st.counted) counted st.collected,
            )
        | inr other ↦ (
          miss_sync s,
          step-miss_sync l per buf s
              (record { bytes = fine.bytes; whole = fine.whole; other = ground arith }) live,
          missed-IsSound l per buf fine s i room,
          record { current = a.current; tot = a.tot; per = a.per },
        )
      ]
]

-- On packets as `IsFine` and `IsSound` want them the loop returns. If the time of the last TOT and
-- the keys of both lists had at most 31 characters, they still have, and so fit the 32 bytes of
-- their arrays. So has every position in percent.
pub scan-AllShort :
    (l : Locals) (total i : ℕ) (ps : List (List ℕ)) (s : State)
    → AllFine ps
    → i + length ps < 2 ^ 64
    → IsSound i s
    → AllShort s
    → (t : State) × (scan l total i ps s ≡ some t) × AllShort t × ((j : ℕ) → Fits (percent total j))
unfolding scan
scan-AllShort l total i [] s fine room sound a = (s, refl, a, percent-Fits total)
scan-AllShort l total i (p ∷ ps) s fine room sound a =
    let (mid, e, sound', a') =
      step-AllShort l (percent total i) p s fine.0 sound (omega arith) (percent-Fits total i) a in
    let (t, e', a'', position) =
      scan-AllShort l total (i + 1) ps mid fine.1 (omega arith) sound' a' in
    (t, rw (e, ◌>>=◌) e', a'', percent-Fits total)

pub initial-AllShort : (l : Locals) → AllShort (initial l)
unfolding initial
initial-AllShort l = record { current = omega arith; tot = tt; per = tt }
