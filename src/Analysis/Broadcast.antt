-- ===== src/Analysis/Broadcast.antt =====
-- A PAT whose packets stand among those of other PIDs is found by the analysis.
use tsanalytics.Base.{
  ℕ, ◌+◌, ◌/◌, ◌^◌, ◌≤◌, ◌<◌, ◌≡◌, refl, ap, ◌∙◌, List, [], ◌∷◌, ◌++◌, some, ◌>>=◌, length, arith,
}
use mathlib.Core.Path.{subst}
use tsanalytics.Head.Decode.{IsPacket}
use tsanalytics.Crc.Total.{section_length}
use tsanalytics.DropCount.{mark_last_drop_count}
use tsanalytics.Packet.{free_packet_list_all}
use tsanalytics.Packet.Block.{Assembled, section_length-append}
use tsanalytics.Packet.Assemble.{payload_of}
use tsanalytics.Packet.Section.{IsFirst, IsFurther, first_step, further_step}
use tsanalytics.Pat.Table.{Listed}
use tsanalytics.Digest.{packets}
use tsanalytics.Analysis.{Locals, State, initial, percent, step, scan, analyze}
use tsanalytics.Analysis.Sound.{AllFine, IsSound}
use tsanalytics.Analysis.Safety.{initial-IsSound, length-packets}
use tsanalytics.Analysis.Aside.{IsAside}
use tsanalytics.Analysis.Deliver.{IsHeard, Found, step-Found}
use tsanalytics.Analysis.Phases.{
  Waiting, Loading, aside_Waiting, aside_Loading, early_Waiting, more_Loading, last_Found,
}

-- Packets that go on with a PAT of which `bytes` have come: those of other PIDs stand between its
-- own, and the last of these is the first to pass the PAT's size. Any packets may follow.
pub data Continued (len : ℕ) (pat : List ℕ) : List ℕ → List (List ℕ) → Type 0 where
  aside :
      {bytes buf : List ℕ} {rest : List (List ℕ)}
      → IsPacket buf
      → IsAside buf
      → Continued len pat bytes rest
      → Continued len pat bytes (buf ∷ rest)
  goes_on :
      {bytes buf : List ℕ} {rest : List (List ℕ)}
      → IsHeard buf
      → IsFurther 0 buf
      → length (bytes ++ payload_of buf) ≤ len + 3
      → Continued len pat (bytes ++ payload_of buf) rest
      → Continued len pat bytes (buf ∷ rest)
  ends :
      {bytes buf : List ℕ} {rest : List (List ℕ)}
      → IsHeard buf
      → IsFurther 0 buf
      → bytes ++ payload_of buf ≡ pat
      → len + 3 < length pat
      → Continued len pat bytes (buf ∷ rest)

-- Packets among which a PAT stands: in one packet, or in several. Those before it are of other
-- PIDs, or the end of a PAT whose first packet is not there.
pub data Broadcast (len : ℕ) (pat : List ℕ) : List (List ℕ) → Type 0 where
  aside :
      {buf : List ℕ} {rest : List (List ℕ)}
      → IsPacket buf
      → IsAside buf
      → Broadcast len pat rest
      → Broadcast len pat (buf ∷ rest)
  early :
      {buf : List ℕ} {rest : List (List ℕ)}
      → IsHeard buf
      → IsFurther 0 buf
      → Broadcast len pat rest
      → Broadcast len pat (buf ∷ rest)
  begins :
      {buf : List ℕ} {rest : List (List ℕ)}
      → IsHeard buf
      → IsFirst 0 buf
      → section_length (payload_of buf) ≡ len
      → length (payload_of buf) ≤ len + 3
      → Continued len pat (payload_of buf) rest
      → Broadcast len pat (buf ∷ rest)
  alone :
      {buf : List ℕ} {rest : List (List ℕ)}
      → IsHeard buf
      → IsFirst 0 buf
      → payload_of buf ≡ pat
      → section_length pat ≡ len
      → len + 3 < length pat
      → Broadcast len pat (buf ∷ rest)

module _ (l : Locals) (total : ℕ) where
  -- The loop from `s` over `ps` returns, with a PAT of these bytes.
  abbrev Finds : ℕ → List (List ℕ) → State → List ℕ → Type 0
  Finds i ps s pat = (t : State) × (scan l total i ps s ≡ some t) × Found pat t

  -- A step and the loop behind it.
  scan-step :
      (i : ℕ) (buf : List ℕ) (rest : List (List ℕ)) (s t : State) {pat : List ℕ}
      → step l (percent total i) buf s ≡ some t
      → Finds (i + 1) rest t pat
      → Finds i (buf ∷ rest) s pat
  unfolding scan
  scan-step i buf rest s mid e (t, e', found) = (t, rw (e, ◌>>=◌) e', found)

  scan-Found :
      (i : ℕ) (ps : List (List ℕ)) (s : State) {pat : List ℕ}
      → AllFine ps
      → i + length ps < 2 ^ 64
      → IsSound i s
      → Found pat s
      → Finds i ps s pat
  unfolding scan
  scan-Found i [] s fine room sound found = (s, refl, found)
  scan-Found i (p ∷ ps) s fine room sound found =
      let (mid, e, sound', found') =
        step-Found l (percent total i) p s fine.0 sound (omega arith) found in
      scan-step i p ps s mid e (scan-Found (i + 1) ps mid fine.1 (omega arith) sound' found')

  module _ (len : ℕ) (long : 9 ≤ len) (pat : List ℕ) where
    scan-Continued :
        (i : ℕ) (bytes : List ℕ) (ps : List (List ℕ)) (s : State)
        → AllFine ps
        → i + length ps < 2 ^ 64
        → IsSound i s
        → section_length bytes ≡ len
        → Loading bytes s
        → Continued len pat bytes ps
        → Finds i ps s pat
    scan-Continued i bytes [] s fine room sound e ld c = elim c [ ]
    scan-Continued i bytes (buf ∷ ps) s fine room sound e ld (aside packet other c) =
        let (t, returns, sound', ld') =
          aside_Loading l (percent total i) buf packet fine.0 s sound (omega arith) ld.live other
            ld in
        scan-step i buf ps s t returns
          (scan-Continued (i + 1) bytes ps t fine.1 (omega arith) sound' e ld' c)
    scan-Continued i bytes (buf ∷ ps) s fine room sound e ld (goes_on heard f below c) =
        let (r, store, called, a) = further_step s.store bytes f ld.there ld.busy in
        let e' = section_length-append bytes (payload_of buf) ld.there.three ∙ e in
        let (t, returns, sound', ld') =
          more_Loading l (percent total i) buf f.packet fine.0 s sound (omega arith) ld.live heard
            ld.on r store called a (omega (arith, e')) in
        scan-step i buf ps s t returns (
          scan-Continued (i + 1) (bytes ++ payload_of buf) ps t fine.1 (omega arith) sound' e' ld'
            c)
    scan-Continued i bytes (buf ∷ ps) s fine room sound e ld (ends heard f whole above) =
        let (r, store, called, a) = further_step s.store bytes f ld.there ld.busy in
        let e' = section_length-append bytes (payload_of buf) ld.there.three ∙ e in
        let (t, returns, sound', found) =
          last_Found l (percent total i) buf f.packet fine.0 s sound (omega arith) ld.live heard
            ld.on r store called a (omega (arith, e')) (omega (arith, e', ap length whole)) in
        scan-step i buf ps s t returns
          (scan-Found (i + 1) ps t fine.1 (omega arith) sound' (subst (λ b. Found b t) whole found))

    scan-Broadcast :
        (i : ℕ) (ps : List (List ℕ)) (s : State)
        → AllFine ps
        → i + length ps < 2 ^ 64
        → IsSound i s
        → Waiting s
        → Broadcast len pat ps
        → Finds i ps s pat
    scan-Broadcast i [] s fine room sound w b = elim b [ ]
    scan-Broadcast i (buf ∷ ps) s fine room sound w (aside packet other b) =
        let (t, returns, sound', w') =
          aside_Waiting l (percent total i) buf packet fine.0 s sound (omega arith) w.live other
            w in
        scan-step i buf ps s t returns
          (scan-Broadcast (i + 1) ps t fine.1 (omega arith) sound' w' b)
    scan-Broadcast i (buf ∷ ps) s fine room sound w (early heard f b) =
        let (t, returns, sound', w') =
          early_Waiting l (percent total i) buf f.packet fine.0 s sound (omega arith) w.live heard
            w.on f.goes_on w.idle in
        scan-step i buf ps s t returns
          (scan-Broadcast (i + 1) ps t fine.1 (omega arith) sound' w' b)
    scan-Broadcast i (buf ∷ ps) s fine room sound w (begins heard f e below c) =
        let (r, store, called, a) = first_step s.store f in
        let (t, returns, sound', ld) =
          more_Loading l (percent total i) buf f.packet fine.0 s sound (omega arith) w.live heard
            w.on r store called a (omega (arith, e)) in
        scan-step i buf ps s t returns
          (scan-Continued (i + 1) (payload_of buf) ps t fine.1 (omega arith) sound' e ld c)
    scan-Broadcast i (buf ∷ ps) s fine room sound w (alone heard f whole e above) =
        let (r, store, called, a) = first_step s.store f in
        let (t, returns, sound', found) =
          last_Found l (percent total i) buf f.packet fine.0 s sound (omega arith) w.live heard w.on
            r store called (subst (λ b. Assembled b r (store.cells 0)) whole a) (omega (arith, e))
            (omega (arith, e)) in
        scan-step i buf ps s t returns (scan-Found (i + 1) ps t fine.1 (omega arith) sound' found)

initial-Waiting : (l : Locals) → Waiting (initial l)
unfolding initial
initial-Waiting l = record { live = refl; on = λ e. omega (arith, e); idle = refl }

-- A file of fewer than 2 ^ 64 bytes. In its packets, where a section of the PAT or of the TOT
-- begins, its payload begins at offset 179 or before, and a PAT's length is below 4 or at least 9.
-- One PAT has a length of at least 9, and stands in one packet of PID 0 or is split over several,
-- the last of which is the first to pass its end. Between these, and before the first, stand
-- packets with their sync byte that are of other PIDs, or that have a transport error or no
-- payload; before the first also ones of PID 0 that begin no section. Any packets follow. The
-- analysis returns, and its table is that PAT's.
pub analyze-Listed :
    (l : Locals) (len : ℕ) (pat : List ℕ) (file : List ℕ)
    → 9 ≤ len
    → AllFine (packets (length file / 188) file)
    → length file < 2 ^ 64
    → Broadcast len pat (packets (length file / 188) file)
    → (s : State) × (analyze l file ≡ some s) × Listed pat s.pat
unfolding analyze
analyze-Listed l len pat file long fine small b =
    let n : ℕ = length file / 188 in
    let (s, e, found) =
      scan-Broadcast l n len long pat 0 (packets n file) (initial l) fine
        (omega (arith, length-packets n file)) (initial-IsSound l) (initial-Waiting l) b in
    (
      record s { counts = mark_last_drop_count s.counts; store = free_packet_list_all s.store },
      rw (e, ◌>>=◌),
      found.listed,
    )
