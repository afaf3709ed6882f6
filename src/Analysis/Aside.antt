-- ===== src/Analysis/Aside.antt =====
-- What leaves the PAT and its cell alone.
use tsanalytics.Base.{
  ℕ, ◌/◌, ◌%◌, ◌==◌, ◌≡◌, ◌≢◌, ◌⊎◌, inl, inr, refl, sym, if◌then◌else◌, Bool-cases, List, some,
  ◌>>=◌, byte_at, arith, false, ◌||◌,
}
use mathlib.Core.Option.{some-injective}
use tsanalytics.Head.{Head}
use tsanalytics.Head.Decode.{IsPacket, Parsed}
use tsanalytics.Packet.{Store}
use tsanalytics.Packet.Assemble.{pid_of}
use tsanalytics.Packet.Feed.{st_packet-Keeps}
use tsanalytics.Analysis.Sound.{IsFine, IsSound, Needed}
use tsanalytics.Analysis.{Locals, State, set_time, use_section, collect}

-- The PAT and the cell that collects its sections are as they were, and so is the flag.
pub record Spared (s t : State) : Type 0 where
  pub pat : t.pat ≡ s.pat
  pub cell : t.store.cells 0 ≡ s.store.cells 0
  pub flag : t.this_is_not_ts ≡ s.this_is_not_ts

use_section-Spared :
    (l : Locals) (s t : State) (pid : ℕ)
    → pid ≢ 0
    → use_section l pid s ≡ some t
    → (t.pat ≡ s.pat) × (t.store ≡ s.store) × (t.this_is_not_ts ≡ s.this_is_not_ts)
unfolding use_section set_time
use_section-Spared l s t pid other e = ground arith

-- Behind `st_packet`, for a PID other than 0.
after_packet-Spared :
    (l : Locals) (buf : List ℕ) (s t : State) (r : ℕ) (store : Store)
    → pid_of buf ≢ 0
    → store.cells 0 ≡ s.store.cells 0
    → (let s' = record s { store = store } in
        (if r == 0 then some s' else use_section l (pid_of buf) s') ≡ some t)
    → Spared s t
after_packet-Spared l buf s t r store other same e = elim (Bool-cases (r == 0)) [
  | inl idle ↦
      let e' : record s { store = store } ≡ t = some-injective _ _ (rw idle at e) in
      rw (← e') (record { pat = refl; cell = same; flag = refl })
  | inr done ↦
      let (pat, kept, flag) =
        use_section-Spared l (record s { store = store }) t (pid_of buf) other (rw done at e) in
      record { pat = pat; cell = rw kept same; flag = flag }
]

-- A packet that the section assembly of PID 0 does not see: one of another PID, or one with a
-- transport error or without a payload.
abbrev pub IsAside : List ℕ → Type 0
IsAside buf = (pid_of buf ≢ 0) ⊎ ((byte_at buf 1 / 128 ≡ 1) ⊎ (byte_at buf 3 / 16 % 4 ≡ 2))

module _ (l : Locals) {n : ℕ} (buf : List ℕ) (packet : IsPacket buf) (fine : IsFine buf)
    (head : Head) (parsed : Parsed buf head) (s t : State) (i : IsSound n s)
    (e : collect l head buf s ≡ some t) where
  -- A packet of another PID that is listened to.
  collect_other :
      (head.transport_error_indicator == 0x1) || (head.adaptation_field_control == 0x2) ≡ false
      → ((s.store.cells (pid_of buf)).enable == 0) ≡ false
      → pid_of buf ≢ 0
      → Spared s t
  unfolding collect
  collect_other clean on other =
      let (r, store, k) =
        st_packet-Keeps (Needed (pid_of buf)) s.store buf packet
          (fine.sections packet.sync (i.listened (pid_of buf) (ground arith)))
          (i.fed (pid_of buf)) in
      after_packet-Spared l buf s t r store other (k.others 0 (λ z. other (sym z)))
        (rw (clean, parsed.pid, on, k.returns, ◌>>=◌) at e)

  pub collect-Spared : IsAside buf ⊎ ((s.store.cells 0).enable ≡ 0) → Spared s t
  unfolding collect
  collect-Spared aside =
      elim (Bool-cases
        ((head.transport_error_indicator == 0x1) || (head.adaptation_field_control == 0x2))) [
          | inl skip ↦
              rw (← some-injective _ _ (rw skip at e))
                (record { pat = refl; cell = refl; flag = refl })
          | inr clean ↦ elim (Bool-cases ((s.store.cells (pid_of buf)).enable == 0)) [
            | inl off ↦
                rw (← some-injective _ _ (rw (clean, parsed.pid, off) at e))
                  (record { pat = refl; cell = refl; flag = refl })
            | inr on ↦ collect_other clean on (ground (arith, aside, parsed.error, parsed.control))
          ]
        ]
