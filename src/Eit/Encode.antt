-- ===== src/Eit/Encode.antt =====
-- Events and their descriptors as the bytes of a section.
use tsanalytics.Base.{
  ℕ, ◌+◌, ◌*◌, ◌/◌, ◌%◌, ◌≤◌, ◌<◌, List, [], ◌∷◌, ◌++◌, length, IsBytes, append-IsBytes, arith,
}
use tsanalytics.Time.{hex_to_digi, mjd_to_tm}
use tsanalytics.Eit.{Descriptor, Event, tm_cleared}

pub record DescSource : Type 0 where
  pub tag : ℕ
  pub payload : List ℕ

pub record IsDescSource (d : DescSource) : Type 0 where
  pub tag : d.tag < 256
  pub bytes : IsBytes d.payload
  pub short : length d.payload < 256

abbrev pub AllDescs : List DescSource → Type 0
AllDescs [] = Unit {0}
AllDescs (d ∷ ds) = IsDescSource d × AllDescs ds

-- What the parser is to give for it.
abbrev pub desc_of : DescSource → Descriptor
desc_of d = record {
  descriptor_tag = d.tag;
  descriptor_length = length d.payload;
  payload = d.payload;
}

abbrev pub descs_of : List DescSource → List Descriptor
descs_of [] = []
descs_of (d ∷ ds) = desc_of d ∷ descs_of ds

abbrev pub encode_desc : DescSource → List ℕ
encode_desc d = d.tag ∷ length d.payload ∷ d.payload

abbrev pub encode_descs : List DescSource → List ℕ
encode_descs [] = []
encode_descs (d ∷ ds) = encode_desc d ++ encode_descs ds

-- An event: the five bytes of its start and the three of its duration as they are.
pub record EventSource : Type 0 where
  pub id : ℕ
  pub date_high : ℕ
  pub date_low : ℕ
  pub hour : ℕ
  pub minute : ℕ
  pub second : ℕ
  pub hours : ℕ
  pub minutes : ℕ
  pub seconds : ℕ
  pub running : ℕ
  pub free_ca : ℕ
  pub descs : List DescSource

abbrev pub desc_bytes : EventSource → List ℕ
desc_bytes s = encode_descs s.descs

pub record IsEventSource (s : EventSource) : Type 0 where
  pub id : s.id < 65536
  pub date_high : s.date_high < 256
  pub date_low : s.date_low < 256
  pub hour : s.hour < 256
  pub minute : s.minute < 256
  pub second : s.second < 256
  pub hours : s.hours < 256
  pub minutes : s.minutes < 256
  pub seconds : s.seconds < 256
  pub running : s.running < 8
  pub free_ca : s.free_ca < 2
  pub descs : AllDescs s.descs
  pub few : length s.descs ≤ 100
  pub short : length (desc_bytes s) < 4096

abbrev pub AllEvents : List EventSource → Type 0
AllEvents [] = Unit {0}
AllEvents (s ∷ ss) = IsEventSource s × AllEvents ss

abbrev pub start_of : EventSource → List ℕ
start_of s = s.date_high ∷ s.date_low ∷ s.hour ∷ s.minute ∷ s.second ∷ []

-- The event without its descriptors, and with them.
abbrev pub bare_event : EventSource → Event
bare_event s = record {
  event_id = s.id;
  start_time = start_of s;
  start_time_tm = record (mjd_to_tm tm_cleared (s.date_high * 256 + s.date_low)) {
    tm_hour = hex_to_digi s.hour;
    tm_min = hex_to_digi s.minute;
    tm_sec = hex_to_digi s.second;
  };
  duration = s.hours * 65536 + s.minutes * 256 + s.seconds;
  duration_sec = hex_to_digi s.hours * 3600 + hex_to_digi s.minutes * 60 + hex_to_digi s.seconds;
  running_status = s.running;
  free_ca_mode = s.free_ca;
  descriotors_loop_length = length (desc_bytes s);
  desc = [];
}

abbrev pub event_of : EventSource → Event
event_of s = record (bare_event s) { desc = descs_of s.descs }

abbrev pub events_of : List EventSource → List Event
events_of [] = []
events_of (s ∷ ss) = event_of s ∷ events_of ss

abbrev pub encode_event : EventSource → List ℕ
encode_event s =
    s.id / 256
    ∷ s.id % 256
    ∷ s.date_high
    ∷ s.date_low
    ∷ s.hour
    ∷ s.minute
    ∷ s.second
    ∷ s.hours
    ∷ s.minutes
    ∷ s.seconds
    ∷ (s.running * 32 + s.free_ca * 16 + length (desc_bytes s) / 256)
    ∷ length (desc_bytes s) % 256
    ∷ desc_bytes s

abbrev pub encode_events : List EventSource → List ℕ
encode_events [] = []
encode_events (s ∷ ss) = encode_event s ++ encode_events ss

descs-IsBytes : (ds : List DescSource) → AllDescs ds → IsBytes (encode_descs ds)
descs-IsBytes [] i = tt
descs-IsBytes (d ∷ ds) i =
    append-IsBytes (encode_desc d) (encode_descs ds) (i.0.tag, (i.0.short, i.0.bytes))
      (descs-IsBytes ds i.1)

event-IsBytes : (s : EventSource) → IsEventSource s → IsBytes (encode_event s)
event-IsBytes s i = (
  omega (arith, i.id),
  (
    omega arith,
    (
      i.date_high,
      (
        i.date_low,
        (
          i.hour,
          (
            i.minute,
            (
              i.second,
              (
                i.hours,
                (
                  i.minutes,
                  (
                    i.seconds,
                    (
                      omega (arith, i.running, i.free_ca, i.short),
                      (omega arith, descs-IsBytes s.descs i.descs),
                    ),
                  ),
                ),
              ),
            ),
          ),
        ),
      ),
    ),
  ),
)

pub encode_events-IsBytes : (ss : List EventSource) → AllEvents ss → IsBytes (encode_events ss)
encode_events-IsBytes [] i = tt
encode_events-IsBytes (s ∷ ss) i =
    append-IsBytes (encode_event s) (encode_events ss) (event-IsBytes s i.0)
      (encode_events-IsBytes ss i.1)
