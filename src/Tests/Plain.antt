-- ===== src/Tests/Plain.antt =====
-- The output of the program.
use tsanalytics.Base.{
  ℕ, zero, suc, ◌/◌, ◌≡◌, refl, List, [], ◌∷◌, ◌++◌, some, length, replicate, replicate-IsBytes,
}
use tsanalytics.Tests.Data.{
  some_locals, lost_packet, lost_packet-IsUnsynced, four, copying-IsStreaming,
}
use tsanalytics.Pat.{PatPid}
use tsanalytics.Digest.{packets}
use tsanalytics.Analysis.Sync.{AllUnsynced}
use tsanalytics.Report.{program_loop, tsanalytics_text}
use tsanalytics.Report.Programs.{with_commas, program_loop-with_commas}
use tsanalytics.Report.Plain.{whole_digests, plain_text, AreBytes, tsanalytics_text-file_info}

abbrev one_program : PatPid
one_program = record { program_number = 0x400; network_pid = 0; program_map_pid = 0x1f0 }

abbrev network : PatPid
network = record { program_number = 0; network_pid = 0x10; program_map_pid = 0 }

-- The network's entry is the last: the comma remains.
program_loop-with_commas_example :
    program_loop 2 (one_program ∷ network ∷ []) ≡ some (with_commas (one_program ∷ []) ++ [])
program_loop-with_commas_example = program_loop-with_commas (one_program ∷ []) network

abbrev lost_packets : List (List ℕ)
lost_packets = replicate 101 lost_packet

-- 103 packets of zeros.
abbrev zeros : List ℕ
zeros = replicate 19364 0

all_lost : (n : ℕ) → AllUnsynced (replicate n lost_packet)
all_lost zero = tt
all_lost (suc n) = (lost_packet-IsUnsynced, all_lost n)

zeros-packets :
    packets (length zeros / 188) zeros ≡ (lost_packet ∷ lost_packets) ++ (lost_packet ∷ [])
unfolding packets
zeros-packets = refl

zeros-AreBytes : AreBytes (whole_digests four zeros)
zeros-AreBytes = record {
  md5 = replicate-IsBytes 19364;
  sha1 = replicate-IsBytes 19364;
  sha256 = replicate-IsBytes 19364;
  sha512 = replicate-IsBytes 19364;
}

tsanalytics_text-file_info_example :
    tsanalytics_text four some_locals zeros
    ≡ some (plain_text (length zeros) (whole_digests four zeros))
tsanalytics_text-file_info_example =
    tsanalytics_text-file_info four some_locals zeros lost_packet lost_packets (lost_packet ∷ [])
      copying-IsStreaming copying-IsStreaming copying-IsStreaming copying-IsStreaming zeros-AreBytes
      zeros-packets (all_lost 102) refl
