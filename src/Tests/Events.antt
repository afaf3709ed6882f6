-- ===== src/Tests/Events.antt =====
-- The event information table.
use tsanalytics.Base.{
  ℕ, List, ◌≡◌, refl, inl, [], ◌∷◌, ◌++◌, some, replicate, replicate-IsBytes, arith,
}
use tsanalytics.Eit.{Event, Eit, st_eit, free_eit, event_loop, read_event, bytes_at}
use tsanalytics.GetBit.{get_bit, load_word}
use tsanalytics.Time.{mjd_to_tm, time_to_tm}
use tsanalytics.Eit.Encode.{EventSource, bare_event}
use tsanalytics.Eit.Source.{Source, IsSource, encode, table}
use tsanalytics.Eit.Release.{Lost, free_eit-st_eit}
use tsanalytics.Eit.Table.{filled, st_eit-filled, st_eit-encode}

abbrev some_event : EventSource
some_event = record {
  id = 0x1234;
  date_high = 0xe1;
  date_low = 0x9a;
  hour = 0x21;
  minute = 0x30;
  second = 0;
  hours = 1;
  minutes = 0x15;
  seconds = 0;
  running = 4;
  free_ca = 1;
  descs =
      record { tag = 0x4d; payload = 1 ∷ 2 ∷ 3 ∷ [] } ∷ record { tag = 0x50; payload = [] } ∷ [];
}

abbrev two_events : Source
two_events = record {
  id = 0x4e;
  service = 0x400;
  version = 7;
  current = 1;
  section = 0;
  last = 1;
  ts_id = 0x7fe0;
  network = 0x7fe0;
  segment = 1;
  last_table = 0x4e;
  events = some_event ∷ record some_event { descs = [] } ∷ [];
  crc = 1 ∷ 2 ∷ 3 ∷ 4 ∷ [];
}

two_events-IsSource : IsSource two_events
two_events-IsSource = record {
  id = inl refl;
  service = omega arith;
  version = omega arith;
  current = omega arith;
  section = omega arith;
  last = omega arith;
  ts_id = omega arith;
  network = omega arith;
  segment = omega arith;
  last_table = omega arith;
  events = (
    record {
      id = omega arith;
      date_high = omega arith;
      date_low = omega arith;
      hour = omega arith;
      minute = omega arith;
      second = omega arith;
      hours = omega arith;
      minutes = omega arith;
      seconds = omega arith;
      running = omega arith;
      free_ca = omega arith;
      descs = (
        record { tag = omega arith; bytes = omega arith; short = omega arith },
        (record { tag = omega arith; bytes = tt; short = omega arith }, tt),
      );
      few = omega arith;
      short = omega arith;
    },
    (
      record {
        id = omega arith;
        date_high = omega arith;
        date_low = omega arith;
        hour = omega arith;
        minute = omega arith;
        second = omega arith;
        hours = omega arith;
        minutes = omega arith;
        seconds = omega arith;
        running = omega arith;
        free_ca = omega arith;
        descs = tt;
        few = omega arith;
        short = omega arith;
      },
      tt,
    ),
  );
  few = omega arith;
  crc = omega arith;
  four = refl;
  short = omega arith;
}

abbrev no_eit : Eit
no_eit = table (record two_events { events = [] })

st_eit-encode_example :
    st_eit no_eit (encode two_events ++ replicate 4 0) ≡ some (1, (table two_events, []))
st_eit-encode_example =
    st_eit-encode two_events (replicate 4 0) no_eit two_events-IsSource (replicate-IsBytes 4)
      (omega arith) (omega arith)

-- A section of 20 bytes whose event announces 4095 bytes of descriptors: the event is lost.
abbrev lossy : List ℕ
lossy =
    0x4e
    ∷ 0xf0
    ∷ 20
    ∷ 0
    ∷ 1
    ∷ 0xc1
    ∷ 0
    ∷ 0
    ∷ 0
    ∷ 1
    ∷ 0
    ∷ 1
    ∷ 0
    ∷ 0x4e
    ∷ 0x12
    ∷ 0x34
    ∷ 0xe1
    ∷ 0x9a
    ∷ 0x21
    ∷ 0x30
    ∷ 0
    ∷ 1
    ∷ 0x15
    ∷ 0
    ∷ 0x9f
    ∷ 0xff
    ∷ replicate 12 0

abbrev lost_event : Event
lost_event = record (bare_event some_event) { descriotors_loop_length = 0xfff; free_ca_mode = 1 }

event_loop-lossy : event_loop 100 lossy 20 16 112 ≡ some (([], lost_event ∷ []), 208)
unfolding event_loop read_event get_bit load_word mjd_to_tm bytes_at time_to_tm
event_loop-lossy = refl

st_eit-lossy : st_eit no_eit lossy ≡ some (1, (filled lossy [], lost_event ∷ []))
st_eit-lossy =
    st_eit-filled lossy (omega arith) (omega arith) no_eit [] (lost_event ∷ []) 208 refl
      event_loop-lossy

free_eit-st_eit_example :
    ((free_eit (filled lossy [])).1 ≡ ([], []))
    × Lost (filled lossy []).section_length (lost_event ∷ [])
free_eit-st_eit_example =
    free_eit-st_eit no_eit (filled lossy []) (lost_event ∷ []) lossy 1 st_eit-lossy
