-- ===== src/Analysis/Deliver.antt =====
-- The PAT in a recording: what one packet of PID 0 does, and what all other packets leave of it.
use tsanalytics.Base.{
  ℕ, ◌+◌, ◌/◌, ◌%◌, ◌^◌, ◌≤◌, ◌<◌, ◌==◌, ◌≡◌, ◌≢◌, ◌⊎◌, inl, inr, refl, ap, ◌∙◌, Bool-cases, List,
  some, ◌>>=◌, length, byte_at, ◌||◌, arith, false,
}
use mathlib.Core.Option.{some-injective}
use tsanalytics.Head.{Head}
use tsanalytics.Head.Decode.{IsPacket, Parsed}
use tsanalytics.Crc.Total.{section_length}
use tsanalytics.Packet.{Store, put, st_packet}
use tsanalytics.Packet.Block.{Assembled, section_length-front}
use tsanalytics.Packet.Assemble.{pid_of}
use tsanalytics.Pat.Table.{Listed, st_pat-Listed}
use tsanalytics.Pat.Front.{Listed-front}
use tsanalytics.Analysis.{Locals, State, use_section, collect, miss_sync, step}
use tsanalytics.Analysis.Sync.{step-miss_sync, step_stopped}
use tsanalytics.Analysis.Sound.{IsFine, IsSound, IsSound-same, IsSound-more, Counted-IsSound}
use tsanalytics.Analysis.Safety.{Stepped, step_synced, missed-IsSound}
use tsanalytics.Analysis.Aside.{Spared, IsAside, collect-Spared}

-- A packet of PID 0 with no transport error and with a payload.
pub record IsHeard (buf : List ℕ) : Type 0 where
  pub of_pid : pid_of buf ≡ 0
  pub clean : byte_at buf 1 / 128 ≡ 0
  pub loaded : byte_at buf 3 / 16 % 4 ≢ 2

-- The PAT is known, and its PID is not listened to any more.
pub record Found (bytes : List ℕ) (s : State) : Type 0 where
  pub listed : Listed bytes s.pat
  pub deaf : (s.store.cells 0).enable ≡ 0

-- The parser of the PAT on a section that has come together in its cell.
pub use_section-Found :
    (l : Locals) (s t : State) {bytes : List ℕ} {r : ℕ}
    → Assembled bytes r (s.store.cells 0)
    → 9 ≤ section_length bytes
    → section_length bytes + 3 ≤ length bytes
    → use_section l 0 s ≡ some t
    → Found bytes t × (t.this_is_not_ts ≡ s.this_is_not_ts)
unfolding use_section
use_section-Found l s t {bytes} a long whole e =
    let same = section_length-front a.holds.block bytes a.holds.front a.three in
    let (pat, parsed, listed) =
      st_pat-Listed a.holds.block a.holds.clean (omega (arith, same))
        (omega (arith, same, a.holds.room, a.size)) s.pat in
    let t' : State = record s {
      pat = pat;
      store = put s.store 0 (record (s.store.cells 0) { enable = 0; payload = some a.holds.block });
    } in
    let e' : t' ≡ t = some-injective _ _ (rw (a.holds.there, ◌>>=◌, parsed) at e) in
    rw (← e') (
      record {
        listed = Listed-front a.holds.block bytes a.holds.front pat long whole listed;
        deaf = refl;
      },
      refl,
    )

-- The call of `st_packet` for a packet of PID 0 that is heard.
module _ (l : Locals) (buf : List ℕ) (heard : IsHeard buf) (head : Head) (parsed : Parsed buf head)
    (s t : State) (on : (s.store.cells 0).enable ≢ 0) (e : collect l head buf s ≡ some t) (r : ℕ)
    (store : Store) (returns : st_packet s.store buf ≡ some (r, store)) where
  clean : (head.transport_error_indicator == 0x1) || (head.adaptation_field_control == 0x2) ≡ false
  clean = ground (arith, parsed.error, parsed.control, heard.clean, heard.loaded)

  zero_pid : head.pid ≡ 0
  zero_pid = parsed.pid ∙ heard.of_pid

  listening : ((s.store.cells 0).enable == 0) ≡ false
  listening = ground arith

  pub collect_more : r ≡ 0 → record s { store = store } ≡ t
  unfolding collect
  collect_more zero_result =
      some-injective _ _ (rw (clean, zero_pid, listening, returns, zero_result, ◌>>=◌) at e)

  pub collect_done : r ≡ 1 → use_section l 0 (record s { store = store }) ≡ some t
  unfolding collect
  collect_done one = rw (clean, zero_pid, listening, returns, one, ◌>>=◌) at e

-- What a step leaves when it does not see the PAT.
module _ (l : Locals) {per : List ℕ} {n : ℕ} (buf : List ℕ) (packet : IsPacket buf)
    (fine : IsFine buf) (s t : State) (i : IsSound n s) (room : n + 1 < 2 ^ 64)
    (st : Stepped l per buf s t) where
  pub step-Spared : IsAside buf ⊎ ((s.store.cells 0).enable ≡ 0) → Spared s t
  step-Spared aside =
      let reset : State = record s { sync_err_repeat = 0 } in
      let still : IsSound n reset = IsSound-same i refl refl refl in
      let sound = Counted-IsSound packet room still st.counted in
      let spared =
        collect-Spared l buf packet fine st.head st.parsed st.between t sound st.collected
          (rw st.counted.store aside) in
      record {
        pat = spared.pat ∙ st.counted.pat;
        cell = spared.cell ∙ ap (λ c. c.cells 0) st.counted.store;
        flag = spared.flag ∙ st.counted.flag;
      }

Found-Spared : {bytes : List ℕ} {s t : State} → Spared s t → Found bytes s → Found bytes t
Found-Spared sp f = record { listed = rw sp.pat f.listed; deaf = rw sp.cell f.deaf }

-- Once the PAT is known, no packet changes it.
pub step-Found :
    (l : Locals) (per : List ℕ) {n : ℕ} {bytes : List ℕ} (buf : List ℕ) (s : State)
    → IsFine buf
    → IsSound n s
    → n + 1 < 2 ^ 64
    → Found bytes s
    → (t : State) × (step l per buf s ≡ some t) × IsSound (n + 1) t × Found bytes t
unfolding miss_sync
step-Found l per {bytes = bytes} buf s fine i room found =
    elim (Bool-cases (s.this_is_not_ts == 1)) [
      | inl stopped ↦ (s, step_stopped l per buf s (ground arith), IsSound-more i, found)
      | inr going ↦
          let live : s.this_is_not_ts ≡ 0 = ground (arith, i.flag) in
          elim (Bool-cases (byte_at buf 0 == 0x47)) [
            | inl sync ↦
                let (t, e, sound, st) = step_synced l per buf fine s i room (ground arith) live in
                let packet : IsPacket buf = record {
                  bytes = fine.bytes;
                  whole = fine.whole;
                  sync = ground arith;
                } in
                (
                  t,
                  e,
                  sound,
                  Found-Spared (step-Spared l buf packet fine s t i room st (inr found.deaf)) found,
                )
            | inr other ↦ (
              miss_sync s,
              step-miss_sync l per buf s
                  (record { bytes = fine.bytes; whole = fine.whole; other = ground arith }) live,
              missed-IsSound l per buf fine s i room,
              record { listed = found.listed; deaf = found.deaf },
            )
          ]
    ]
