-- ===== src/Tests/Reception.antt =====
-- Recordings of several PIDs.
use tsanalytics.Base.{ℕ, ◌/◌, ◌≡◌, refl, inl, List, [], ◌∷◌, ◌++◌, some, length, arith}
use tsanalytics.Tests.Packets.{
  pat_packet-IsPacket, first_packet-IsFine, second_packet-IsFine, pat_packet-IsFine,
  first_packet-Clean, second_packet-Clean,
}
use tsanalytics.Tests.Data.{
  padded, padded-IsBytes, first_packet, second_packet, first_packet-IsPacket, pat_packet,
  some_locals, no_counts, no_counts-Ready,
}
use tsanalytics.Head.Decode.{IsPacket}
use tsanalytics.Packet.{head_zero}
use tsanalytics.Packet.Assemble.{payload_of}
use tsanalytics.Pat.Table.{Listed}
use tsanalytics.Digest.{packets}
use tsanalytics.DropCount.{Counts}
use tsanalytics.DropCount.Sequence.{InSequence, check_all}
use tsanalytics.DropCount.Interleave.{only, check_all-only}
use tsanalytics.Analysis.{State, analyze}
use tsanalytics.Analysis.Sound.{IsFine, AllFine}
use tsanalytics.Analysis.Totals.{AllSynced}
use tsanalytics.Analysis.Unharmed.{analyze-unharmed}
use tsanalytics.Analysis.Broadcast.{Continued, ends, Broadcast, begins, analyze-Listed}

-- The packet that completes the PAT.
abbrev pat_end : List ℕ
pat_end = padded (0x47 ∷ 0x00 ∷ 0x00 ∷ 0x11 ∷ []) 184

pat_end-IsPacket : IsPacket pat_end
pat_end-IsPacket = record {
  bytes = padded-IsBytes (0x47 ∷ 0x00 ∷ 0x00 ∷ 0x11 ∷ []) 184 (omega arith);
  whole = refl;
  sync = refl;
}

pat_end-IsFine : IsFine pat_end
pat_end-IsFine = record {
  bytes = pat_end-IsPacket.bytes;
  whole = refl;
  sections = λ sync of_table starts. absurd (omega arith);
}

-- The PAT with a packet of PID 0x100 in its middle, and another one behind it.
abbrev pub recording : List ℕ
recording = pat_packet ++ first_packet ++ pat_end ++ second_packet

abbrev pub pat : List ℕ
pat = payload_of pat_packet ++ payload_of pat_end

pub recording-AllFine : AllFine (packets (length recording / 188) recording)
unfolding packets
recording-AllFine =
    (pat_packet-IsFine, (first_packet-IsFine, (pat_end-IsFine, (second_packet-IsFine, tt))))

recording-AllSynced : AllSynced (packets (length recording / 188) recording)
unfolding packets
recording-AllSynced = (refl, (refl, (refl, (refl, tt))))

pub recording-Broadcast : Broadcast 200 pat (packets (length recording / 188) recording)
unfolding packets
recording-Broadcast =
    begins (record { of_pid = refl; clean = refl; loaded = omega arith })
      (record { packet = pat_packet-IsPacket; of_pid = refl; starts = refl; inside = omega arith })
      refl (omega arith)
      (Continued.aside first_packet-IsPacket (inl (omega arith)) (
        ends (record { of_pid = refl; clean = refl; loaded = omega arith })
          (record {
            packet = pat_end-IsPacket;
            of_pid = refl;
            goes_on = refl;
            inside = omega arith;
          })
          refl (omega arith)))

analyze-Listed_example : (s : State) × (analyze some_locals recording ≡ some s) × Listed pat s.pat
analyze-Listed_example =
    analyze-Listed some_locals 200 pat recording (omega arith) recording-AllFine (omega arith)
      recording-Broadcast

recording-InSequence : InSequence 0x100 0 (only 0x100 (packets (length recording / 188) recording))
unfolding packets only
recording-InSequence = (first_packet-Clean, (second_packet-Clean, tt))

analyze-unharmed_example :
    (s : State) × (analyze some_locals recording ≡ some s)
    × ((s.counts 0x100).drop ≡ 0)
    × ((s.counts 0x100).error ≡ 0)
    × ((s.counts 0x100).scrambling ≡ 0)
analyze-unharmed_example =
    analyze-unharmed some_locals 0x100 0 recording recording-AllFine recording-AllSynced
      (omega arith) recording-InSequence

check_all-only_example :
    (c' d' : Counts) × (check_all head_zero head_zero no_counts (pat_packet ∷ first_packet ∷ [])
      ≡ some c')
    × (check_all head_zero head_zero no_counts (only 0x100 (pat_packet ∷ first_packet ∷ []))
        ≡ some d')
    × (c' 0x100 ≡ d' 0x100)
check_all-only_example =
    check_all-only head_zero head_zero 0x100 (pat_packet ∷ first_packet ∷ []) no_counts no_counts
      (pat_packet-IsPacket, (first_packet-IsPacket, tt)) no_counts-Ready no_counts-Ready refl
