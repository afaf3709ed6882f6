-- ===== src/Tests/Sections.antt =====
-- Sections and their assembly.
use tsanalytics.Base.{ℕ, ◌≡◌, refl, List, [], ◌∷◌, some, arith}
use tsanalytics.Tests.Data.{
  padded, padded-IsBytes, first_packet, second_packet, first_packet-IsPacket,
  second_packet-IsPacket, empty_store,
}
use tsanalytics.Packet.{Store}
use tsanalytics.Packet.Block.{Assembled}
use tsanalytics.Packet.Assemble.{payload_of}
use tsanalytics.Packet.Section.{
  st_packets, IsFirst, IsFurther, joined, delivered, st_packets-delivered, st_packets-exact,
}

first_packet-IsFirst : IsFirst 0x100 first_packet
first_packet-IsFirst = record {
  packet = first_packet-IsPacket;
  of_pid = refl;
  starts = refl;
  inside = omega arith;
}

second_packet-IsFurther : IsFurther 0x100 second_packet
second_packet-IsFurther = record {
  packet = second_packet-IsPacket;
  of_pid = refl;
  goes_on = refl;
  inside = omega arith;
}

st_packets-delivered_example :
    (store' : Store) × (st_packets empty_store (first_packet ∷ second_packet ∷ [])
      ≡ some (delivered 2, store'))
    × Assembled (joined (payload_of first_packet) (second_packet ∷ [])) 1 (store'.cells 0x100)
st_packets-delivered_example =
    st_packets-delivered 203 (omega arith) empty_store 0x100 first_packet second_packet []
      first_packet-IsFirst refl (omega arith, second_packet-IsFurther, omega arith)

-- A section of 183 bytes, which is what its first packet has room for.
abbrev exact_packet : List ℕ
exact_packet = padded (0x47 ∷ 0x41 ∷ 0x00 ∷ 0x10 ∷ 0 ∷ 0x02 ∷ 0xb0 ∷ 180 ∷ []) 180

exact_packet-IsFirst : IsFirst 0x100 exact_packet
exact_packet-IsFirst = record {
  packet = record {
    bytes =
        padded-IsBytes (0x47 ∷ 0x41 ∷ 0x00 ∷ 0x10 ∷ 0 ∷ 0x02 ∷ 0xb0 ∷ 180 ∷ []) 180 (omega arith);
    whole = refl;
    sync = refl;
  };
  of_pid = refl;
  starts = refl;
  inside = omega arith;
}

st_packets-exact_example :
    (r : ℕ) × (store' : Store) × (st_packets empty_store (exact_packet ∷ first_packet ∷ [])
      ≡ some (0 ∷ r ∷ [], store'))
    × Assembled (payload_of first_packet) r (store'.cells 0x100)
st_packets-exact_example =
    st_packets-exact empty_store 0x100 exact_packet first_packet exact_packet-IsFirst
      first_packet-IsFirst refl
