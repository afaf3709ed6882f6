-- ===== src/Tests/Packets.antt =====
-- What the shared packets are to the theorems.
use tsanalytics.Base.{refl, inr, arith}
use tsanalytics.Tests.Data.{
  first_packet, second_packet, first_packet-IsPacket, second_packet-IsPacket, pat_packet,
  pat_packet-IsBytes,
}
use tsanalytics.Head.Decode.{IsPacket}
use tsanalytics.DropCount.Sequence.{Clean}
use tsanalytics.Analysis.Sound.{IsFine}

pub pat_packet-IsPacket : IsPacket pat_packet
pat_packet-IsPacket = record { bytes = pat_packet-IsBytes; whole = refl; sync = refl }

pub first_packet-IsFine : IsFine first_packet
first_packet-IsFine = record {
  bytes = first_packet-IsPacket.bytes;
  whole = refl;
  sections = λ sync of_table starts. absurd (ground (arith, of_table));
}

pub second_packet-IsFine : IsFine second_packet
second_packet-IsFine = record {
  bytes = second_packet-IsPacket.bytes;
  whole = refl;
  sections = λ sync of_table starts. absurd (omega arith);
}

pub pat_packet-IsFine : IsFine pat_packet
pat_packet-IsFine = record {
  bytes = pat_packet-IsBytes;
  whole = refl;
  sections = λ sync of_table starts. (omega arith, λ pat. inr (omega arith));
}

pub first_packet-Clean : Clean 0x100 0 first_packet
first_packet-Clean = record {
  packet = first_packet-IsPacket;
  of_pid = refl;
  no_error = refl;
  clear = refl;
  payload = refl;
  counter = refl;
}

pub second_packet-Clean : Clean 0x100 1 second_packet
second_packet-Clean = record {
  packet = second_packet-IsPacket;
  of_pid = refl;
  no_error = refl;
  clear = refl;
  payload = refl;
  counter = refl;
}
