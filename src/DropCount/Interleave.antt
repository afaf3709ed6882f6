-- ===== src/DropCount/Interleave.antt =====
-- The PIDs are counted independently: what becomes of one does not depend on the packets of the
-- others, however they are interleaved.
use tsanalytics.Base.{
  ℕ, ◌==◌, ◌≡◌, ◌≢◌, refl, sym, ap, ◌∙◌, if◌then◌else◌, Bool-cases, inl, inr, List, [], ◌∷◌, some,
  ◌>>=◌, arith,
}
use tsanalytics.Head.{Head, st_head}
use tsanalytics.Head.Decode.{IsPacket, st_head-Parsed}
use tsanalytics.DropCount.{Counts, update, check_packet, drop_check_and_count}
use tsanalytics.DropCount.Check.{
  Ready, before_counter, drop_check_and_count-Checked, drop_check_and_count_head, Checked-Ready,
  update_self,
}
use tsanalytics.DropCount.Sequence.{check_all}
use tsanalytics.Packet.Assemble.{pid_of}

-- The packets of a PID in their order.
unfoldable pub only : ℕ → List (List ℕ) → List (List ℕ)
only pid [] = []
only pid (p ∷ ps) = if pid_of p == pid then p ∷ only pid ps else only pid ps

abbrev pub AllPackets : List (List ℕ) → Type 0
AllPackets [] = Unit {0}
AllPackets (p ∷ ps) = IsPacket p × AllPackets ps

-- What a call leaves in the packet's own cell is a function of that cell.
own_cell :
    (h b head : Head) (c : Counts) (p : List ℕ) (v : ℕ) (c' : Counts)
    → ((q : ℕ) → Ready (c q))
    → IsPacket p
    → ((ptr : Head) → st_head ptr p ≡ some head)
    → drop_check_and_count h b c p ≡ some (v, c')
    → c' head.pid ≡ check_packet head (before_counter (c head.pid)) p (c head.pid)
own_cell h b head c p v c' ready packet eq e =
    ap (λ k. k head.pid) same
    ∙ update_self c head.pid (check_packet head (before_counter (c head.pid)) p (c head.pid))
  where
    same : c' ≡ update c head.pid (check_packet head (before_counter (c head.pid)) p (c head.pid))
    same = cc (e, drop_check_and_count_head c p ready packet head eq h b)

-- A packet leaves the same in its cell, whatever the other cells hold.
same_cell :
    (h b : Head) (c d : Counts) (p : List ℕ) (v w : ℕ) (c' d' : Counts)
    → ((q : ℕ) → Ready (c q))
    → ((q : ℕ) → Ready (d q))
    → IsPacket p
    → c (pid_of p) ≡ d (pid_of p)
    → drop_check_and_count h b c p ≡ some (v, c')
    → drop_check_and_count h b d p ≡ some (w, d')
    → c' (pid_of p) ≡ d' (pid_of p)
same_cell h b c d p v w c' d' ready ready' packet same e e' =
    let (head, parsed, eq) = st_head-Parsed p packet.bytes packet.whole packet.sync in
    let agree : c head.pid ≡ d head.pid = ap c parsed.pid ∙ same ∙ ap d (sym parsed.pid) in
    ap c' (sym parsed.pid)
    ∙ own_cell h b head c p v c' ready packet eq e
    ∙ ap (λ x. check_packet head (before_counter x) p x) agree
    ∙ sym (own_cell h b head d p w d' ready' packet eq e')
    ∙ ap d' parsed.pid

-- For packets with their sync byte, of any PIDs in any order, and arrays whose cells are as
-- between two packets: the calls return, and what they leave for a PID is what they leave when the
-- packets of that PID come alone, from any array that agrees on the PID.
pub check_all-only :
    (h b : Head) (pid : ℕ) (ps : List (List ℕ)) (c d : Counts)
    → AllPackets ps
    → ((q : ℕ) → Ready (c q))
    → ((q : ℕ) → Ready (d q))
    → c pid ≡ d pid
    → (c' d' : Counts) × (check_all h b c ps ≡ some c')
      × (check_all h b d (only pid ps) ≡ some d')
      × (c' pid ≡ d' pid)
unfolding check_all only
check_all-only h b pid [] c d i ready ready' same = (c, d, refl, refl, same)
check_all-only h b pid (p ∷ ps) c d i ready ready' same =
    let (v, c', eq, checked) = drop_check_and_count-Checked c p ready i.0 in
    let more = Checked-Ready ready i.0 checked in
    elim (Bool-cases (pid_of p == pid)) [
      | inl own ↦
          let at : pid_of p ≡ pid = ground arith in
          let (w, d', eq', checked') = drop_check_and_count-Checked d p ready' i.0 in
          let agree : c' pid ≡ d' pid =
            ap c' (sym at)
            ∙ same_cell h b c d p v w c' d' ready ready' i.0 (ap c at ∙ same ∙ ap d (sym at))
                (eq h b) (eq' h b)
            ∙ ap d' at in
          let (c'', d'', e, e', agree') =
            check_all-only h b pid ps c' d' i.1 more (Checked-Ready ready' i.0 checked') agree in
          (c'', d'', rw (eq h b, ◌>>=◌) e, rw (own, eq' h b, ◌>>=◌) e', agree')
      | inr other ↦
          let ne : pid ≢ checked.head.pid =
            λ (e : pid ≡ checked.head.pid). absurd (ground (arith, e, checked.parsed.pid, other)) in
          let (c'', d'', e, e', agree') =
            check_all-only h b pid ps c' d i.1 more ready' (checked.others pid ne ∙ same) in
          (c'', d'', rw (eq h b, ◌>>=◌) e, rw other e', agree')
    ]
