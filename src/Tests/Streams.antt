-- ===== src/Tests/Streams.antt =====
-- The program map table.
use tsanalytics.Base.{
  ℕ, ◌≡◌, refl, List, [], ◌∷◌, ◌++◌, some, IsBytes, replicate, replicate-IsBytes, arith,
}
use tsanalytics.Pmt.{Stream, Pmt, st_pmt}
use tsanalytics.Pmt.Source.{Source, IsSource, encode, table}
use tsanalytics.Pmt.Table.{filled, st_pmt-some, st_pmt-encode}

-- Program 0x400 with a stream that has descriptors and one without.
abbrev two_streams : Source
two_streams = record {
  program = 0x400;
  version = 3;
  current = 1;
  section = 0;
  last = 0;
  pcr = 0x111;
  info = 9 ∷ 4 ∷ 0 ∷ 5 ∷ 0xe0 ∷ 0x31 ∷ [];
  streams =
      record { type = 0x1b; pid = 0x111; info = 0x52 ∷ 1 ∷ 0 ∷ [] }
      ∷ record { type = 0x0f; pid = 0x112; info = [] }
      ∷ [];
  crc = 1 ∷ 2 ∷ 3 ∷ 4 ∷ [];
}

two_streams-IsSource : IsSource two_streams
two_streams-IsSource = record {
  program = omega arith;
  version = omega arith;
  current = omega arith;
  section = omega arith;
  last = omega arith;
  pcr = omega arith;
  info = omega arith;
  streams = (
    record { type = omega arith; pid = omega arith; bytes = omega arith; short = omega arith },
    (record { type = omega arith; pid = omega arith; bytes = tt; short = omega arith }, tt),
  );
  crc = omega arith;
  four = refl;
  short = omega arith;
}

abbrev no_pmt : Pmt
no_pmt = table (record two_streams { streams = [] })

abbrev pmt_block : List ℕ
pmt_block = encode two_streams ++ replicate 4 0

pmt_block-IsBytes : IsBytes pmt_block
pmt_block-IsBytes = omega arith

st_pmt-encode_example : st_pmt no_pmt pmt_block ≡ some (table two_streams)
st_pmt-encode_example =
    st_pmt-encode two_streams (replicate 4 0) no_pmt two_streams-IsSource (replicate-IsBytes 4)
      (omega arith) (omega arith)

st_pmt-some_example :
    (streams : List Stream) × (st_pmt no_pmt pmt_block ≡ some (filled pmt_block streams))
st_pmt-some_example =
    st_pmt-some pmt_block pmt_block-IsBytes (omega arith) no_pmt (omega arith) (omega arith)
      (omega arith)
