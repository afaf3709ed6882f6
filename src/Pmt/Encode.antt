-- ===== src/Pmt/Encode.antt =====
-- A program map as the bytes of its section.
use tsanalytics.Base.{
  ℕ, ◌+◌, ◌/◌, ◌%◌, ◌<◌, List, [], ◌∷◌, ◌++◌, length, IsBytes, append-IsBytes, arith,
}
use tsanalytics.Pmt.{Stream}

-- A stream, with its descriptors as bytes.
pub record StreamSource : Type 0 where
  pub type : ℕ
  pub pid : ℕ
  pub info : List ℕ

pub record IsStreamSource (s : StreamSource) : Type 0 where
  pub type : s.type < 256
  pub pid : s.pid < 8192
  pub bytes : IsBytes s.info
  pub short : length s.info < 4096

abbrev pub AllSources : List StreamSource → Type 0
AllSources [] = Unit {0}
AllSources (s ∷ ss) = IsStreamSource s × AllSources ss

-- What the parser is to give for it.
abbrev pub stream : StreamSource → Stream
stream s = record {
  stream_type = s.type;
  elementary_pid = s.pid;
  es_info_length = length s.info;
  crc_32 = 0;
}

abbrev pub streams_of : List StreamSource → List Stream
streams_of [] = []
streams_of (s ∷ ss) = stream s ∷ streams_of ss

-- The reserved bits are all set.
abbrev pub encode_stream : StreamSource → List ℕ
encode_stream s =
    s.type
    ∷ (224 + s.pid / 256)
    ∷ s.pid % 256
    ∷ (240 + length s.info / 256)
    ∷ length s.info % 256
    ∷ s.info

abbrev pub encode_streams : List StreamSource → List ℕ
encode_streams [] = []
encode_streams (s ∷ ss) = encode_stream s ++ encode_streams ss

encode_stream-IsBytes : (s : StreamSource) → IsStreamSource s → IsBytes (encode_stream s)
encode_stream-IsBytes s i = (
  i.type,
  (omega (arith, i.pid), (omega arith, (omega (arith, i.short), (omega arith, i.bytes)))),
)

pub encode_streams-IsBytes : (ss : List StreamSource) → AllSources ss → IsBytes (encode_streams ss)
encode_streams-IsBytes [] i = tt
encode_streams-IsBytes (s ∷ ss) i =
    append-IsBytes (encode_stream s) (encode_streams ss) (encode_stream-IsBytes s i.0)
      (encode_streams-IsBytes ss i.1)
