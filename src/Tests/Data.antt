-- ===== src/Tests/Data.antt =====
-- Packets and arrays that the tests share.
use tsanalytics.Base.{
  ℕ, refl, List, [], ◌∷◌, ◌++◌, none, replicate, IsBytes, append-IsBytes, replicate-IsBytes, arith,
}
use tsanalytics.Head.Decode.{IsPacket}
use tsanalytics.DropCount.{DropCount, Counts}
use tsanalytics.DropCount.Check.{Ready}
use tsanalytics.Packet.{Store, head_zero}
use tsanalytics.Pat.{Pat}
use tsanalytics.Tot.{Tot}
use mathlib.Core.List.{append_assoc, append-nil}
use tsanalytics.Digest.{Hash, Hashes}
use tsanalytics.Analysis.{Locals, tm_zero}
use tsanalytics.Digest.Hashing.{IsStreaming}
use tsanalytics.Analysis.Sync.{IsUnsynced}

-- Bytes with zeros behind them.
abbrev pub padded : List ℕ → ℕ → List ℕ
padded front n = front ++ replicate n 0

pub padded-IsBytes : (front : List ℕ) (n : ℕ) → IsBytes front → IsBytes (padded front n)
padded-IsBytes front n h = append-IsBytes front (replicate n 0) h (replicate-IsBytes n)

-- The first packet of a section of PID 0x100 with 203 bytes, and the one that completes it.
abbrev pub first_packet : List ℕ
first_packet = padded (0x47 ∷ 0x41 ∷ 0x00 ∷ 0x10 ∷ 0 ∷ 0x02 ∷ 0xb0 ∷ 200 ∷ []) 180

abbrev pub second_packet : List ℕ
second_packet = padded (0x47 ∷ 0x01 ∷ 0x00 ∷ 0x11 ∷ []) 184

-- A later packet of the PID, whose counter is 5.
abbrev pub late_packet : List ℕ
late_packet = padded (0x47 ∷ 0x01 ∷ 0x00 ∷ 0x15 ∷ []) 184

-- The one behind it.
abbrev pub next_packet : List ℕ
next_packet = padded (0x47 ∷ 0x01 ∷ 0x00 ∷ 0x16 ∷ []) 184

pub first_packet-IsPacket : IsPacket first_packet
first_packet-IsPacket = record {
  bytes = padded-IsBytes (0x47 ∷ 0x41 ∷ 0x00 ∷ 0x10 ∷ 0 ∷ 0x02 ∷ 0xb0 ∷ 200 ∷ []) 180 (omega arith);
  whole = refl;
  sync = refl;
}

pub second_packet-IsPacket : IsPacket second_packet
second_packet-IsPacket = record {
  bytes = padded-IsBytes (0x47 ∷ 0x01 ∷ 0x00 ∷ 0x11 ∷ []) 184 (omega arith);
  whole = refl;
  sync = refl;
}

pub late_packet-IsPacket : IsPacket late_packet
late_packet-IsPacket = record {
  bytes = padded-IsBytes (0x47 ∷ 0x01 ∷ 0x00 ∷ 0x15 ∷ []) 184 (omega arith);
  whole = refl;
  sync = refl;
}

pub next_packet-IsPacket : IsPacket next_packet
next_packet-IsPacket = record {
  bytes = padded-IsBytes (0x47 ∷ 0x01 ∷ 0x00 ∷ 0x16 ∷ []) 184 (omega arith);
  whole = refl;
  sync = refl;
}

-- A cell whose PID has had `n` packets, the last of them `before`.
abbrev pub counted : ℕ → ℕ → List ℕ → DropCount
counted used n before = record {
  total = n;
  drop = 0;
  error = 0;
  scrambling = 0;
  now_drop = 0;
  now_error = 0;
  now_scrambling = 0;
  offset = 0;
  repeat = 0;
  last = 0;
  use_flag = used;
  before_packet = before;
}

-- The array at the start of the program, and the one after `first_packet` on every PID.
abbrev pub no_counts : Counts
no_counts = λ q. counted 0 0 (replicate 188 0)

abbrev pub some_counts : Counts
some_counts = λ q. counted 1 1 first_packet

pub no_counts-Ready : (p : ℕ) → Ready (no_counts p)
no_counts-Ready p = record {
  bytes = replicate-IsBytes 188;
  whole = refl;
  synced = λ used. absurd (used refl);
  repeats = omega arith;
  drops = omega arith;
  errors = omega arith;
  scramblings = omega arith;
  totals = omega arith;
}

pub some_counts-Ready : (p : ℕ) → Ready (some_counts p)
some_counts-Ready p = record {
  bytes = first_packet-IsPacket.bytes;
  whole = refl;
  synced = λ used. refl;
  repeats = omega arith;
  drops = omega arith;
  errors = omega arith;
  scramblings = omega arith;
  totals = omega arith;
}

-- The array of sections at the start of the program, and one with a block in every cell.
abbrev pub empty_store : Store
empty_store = record {
  cells = λ q. record {
    enable = 1;
    payload = none;
    size = 0;
    copybytes = 0;
    crc_check = 0;
    loading = 0;
  };
  live = 0;
}

-- Tables and locals before anything is read.
abbrev pub no_pat : Pat
no_pat = record {
  table_id = 0;
  section_syntax_indicator = 0;
  section_length = 0;
  transport_stream_id = 0;
  version_number = 0;
  current_next_indicator = 0;
  section_number = 0;
  last_section_number = 0;
  num_of_pids = 0;
  pids = [];
  pmt_pid = 0;
}

abbrev pub no_tot : Tot
no_tot = record {
  table_id = 0;
  section_syntax_indicator = 0;
  section_length = 0;
  jst_time = [];
  tm = tm_zero;
  mjd = 0;
  disable = 0;
}

abbrev pub some_locals : Locals
some_locals = record { head = head_zero; before_head = head_zero; tot = no_tot; pat = no_pat }

-- The first packet of a PAT.
abbrev pub pat_packet : List ℕ
pat_packet = padded (0x47 ∷ 0x40 ∷ 0x00 ∷ 0x10 ∷ 0 ∷ 0x00 ∷ 0xb0 ∷ 200 ∷ []) 180

pub pat_packet-IsBytes : IsBytes pat_packet
pat_packet-IsBytes =
    padded-IsBytes (0x47 ∷ 0x40 ∷ 0x00 ∷ 0x10 ∷ 0 ∷ 0x00 ∷ 0xb0 ∷ 200 ∷ []) 180 (omega arith)

-- A hash that is its input.
abbrev pub copying : Hash
copying = record { Context = List ℕ; init = []; update = λ c bytes. c ++ bytes; final = λ c. c }

pub copying-IsStreaming : IsStreaming copying
copying-IsStreaming = record {
  update_append = λ c as' bs. append_assoc c as' bs;
  update_nil = λ c. append-nil c;
}

abbrev pub four : Hashes
four = record { md5 = copying; sha1 = copying; sha256 = copying; sha512 = copying }

-- A packet of zeros.
abbrev pub lost_packet : List ℕ
lost_packet = replicate 188 0

pub lost_packet-IsUnsynced : IsUnsynced lost_packet
lost_packet-IsUnsynced = record { bytes = replicate-IsBytes 188; whole = refl; other = omega arith }
