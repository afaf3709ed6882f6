-- ===== src/Eit/Table.antt =====
-- `st_eit` on whole sections.
use mathlib.Core.List.{append_assoc}
use tsanalytics.Base.{
  ℕ, ◌+◌, ◌*◌, ◌/◌, ◌%◌, ◌^◌, ◌≤◌, ◌<◌, ◌≡◌, ◌⊎◌, refl, ap, ◌∙◌, true, false, List, [], ◌++◌, some,
  length, length-append, IsBytes, append-IsBytes, byte_at, byte_at-lt, u8, u16, arith,
}
use tsanalytics.GetBit.{get_bit}
use tsanalytics.GetBit.Word.{word}
use tsanalytics.GetBit.Stream.{get_at}
use tsanalytics.Reader.{◌>>=◌, run}
use tsanalytics.Crc.Total.{section_length}
use tsanalytics.SectionHeader.{
  get_table, get_syntax, get_zero, get_reserved, get_length, get_stream, get_reserved', get_version,
  get_current, get_section, get_last,
}
use tsanalytics.Eit.{Event, Eit, eit_ok, event_loop, st_eit}
use tsanalytics.Eit.Encode.{events_of, encode_events, encode_events-IsBytes}
use tsanalytics.Eit.Loop.{event_loop-encode}
use tsanalytics.Eit.Source.{Source, IsSource, content, front, encode, table, id-lt, front-IsBytes}

-- What the fields of the section give.
abbrev pub filled : List ℕ → List Event → Eit
filled buf events = record {
  table_id = u8 (byte_at buf 0);
  section_syntax_indicator = u8 (byte_at buf 1 / 128);
  section_length = u16 (section_length buf);
  service_id = u16 (byte_at buf 3 * 256 + byte_at buf 4);
  version_number = u8 (byte_at buf 5 / 2 % 32);
  current_next_indicator = u8 (byte_at buf 5 % 2);
  section_number = u8 (byte_at buf 6);
  last_section_number = u8 (byte_at buf 7);
  transport_stream_id = u16 (byte_at buf 8 * 256 + byte_at buf 9);
  original_network_id = u16 (byte_at buf 10 * 256 + byte_at buf 11);
  segment_last_section_number = u8 (byte_at buf 12);
  last_table_id = u8 (byte_at buf 13);
  events = events;
}

module _ (buf : List ℕ) (b : IsBytes buf) (header : 21 ≤ length buf) where
  lt : (i : ℕ) → byte_at buf i < 256
  lt i = byte_at-lt buf i b

  fifteen : 15 ≤ length buf
  fifteen = omega arith

  get_ts_id : get_bit buf 64 16 ≡ some (byte_at buf 8 * 256 + byte_at buf 9, 80)
  unfolding word
  get_ts_id = get_at buf b 64 8 0 16 refl (omega arith) (omega arith) (omega (arith, lt)) refl

  get_network : get_bit buf 80 16 ≡ some (byte_at buf 10 * 256 + byte_at buf 11, 96)
  unfolding word
  get_network = get_at buf b 80 10 0 16 refl (omega arith) (omega arith) (omega (arith, lt)) refl

  get_segment : get_bit buf 96 8 ≡ some (byte_at buf 12, 104)
  unfolding word
  get_segment = get_at buf b 96 12 0 8 refl (omega arith) (omega arith) (omega (arith, lt)) refl

  get_last_table : get_bit buf 104 8 ≡ some (byte_at buf 13, 112)
  unfolding word
  get_last_table = get_at buf b 104 13 0 8 refl (omega arith) (omega arith) (omega (arith, lt)) refl

  table_small : u8 (byte_at buf 0) ≡ byte_at buf 0
  table_small = omega (arith, lt)

  syntax_small : u8 (byte_at buf 1 / 128) ≡ byte_at buf 1 / 128
  syntax_small = omega (arith, lt)

  length_small : u16 (section_length buf) ≡ section_length buf
  length_small = omega (arith, lt 1, lt 2)

  pub st_eit-filled :
      (out : Eit) (events lost : List Event) (off : ℕ)
      → eit_ok (u8 (byte_at buf 0)) (u8 (byte_at buf 1 / 128)) (u16 (section_length buf)) ≡ true
      → event_loop 100 buf (u16 (section_length buf)) 16 112 ≡ some ((events, lost), off)
      → st_eit out buf ≡ some (1, (filled buf events, lost))
  unfolding st_eit
  st_eit-filled out events lost off ok e = rw (
    get_table buf b fifteen,
    run,
    ◌>>=◌,
    get_syntax buf b fifteen,
    get_zero buf b fifteen,
    get_reserved buf b fifteen,
    get_length buf b fifteen,
    get_stream buf b fifteen,
    get_reserved' buf b fifteen,
    get_version buf b fifteen,
    get_current buf b fifteen,
    get_section buf b fifteen,
    get_last buf b fifteen,
    get_ts_id,
    get_network,
    get_segment,
    get_last_table,
    ok,
    e,
  )

  -- A section in a block of at least 21 bytes whose table id is neither 0x4e nor from 0x50 to
  -- 0x5f, whose syntax indicator is 0, or whose length is above 4093: `st_eit` returns 0, with
  -- the fields of the section and without events.
  st_eit-refused :
      (out : Eit)
      → ((byte_at buf 0 < 0x4e) ⊎ ((byte_at buf 0 ≡ 0x4f) ⊎ (0x5f < byte_at buf 0)))
        ⊎ ((byte_at buf 1 / 128 ≡ 0) ⊎ (4093 < section_length buf))
      → st_eit out buf ≡ some (0, (filled buf [], []))
  unfolding st_eit
  st_eit-refused out bad = rw (
    get_table buf b fifteen,
    run,
    ◌>>=◌,
    get_syntax buf b fifteen,
    get_zero buf b fifteen,
    get_reserved buf b fifteen,
    get_length buf b fifteen,
    get_stream buf b fifteen,
    get_reserved' buf b fifteen,
    get_version buf b fifteen,
    get_current buf b fifteen,
    get_section buf b fifteen,
    get_last buf b fifteen,
    get_ts_id,
    get_network,
    get_segment,
    get_last_table,
    table_small,
    syntax_small,
    length_small,
    refused,
  )
    where
      refused : eit_ok (byte_at buf 0) (byte_at buf 1 / 128) (section_length buf) ≡ false
      refused = ground (arith, bad)

-- A table of events with at most 100 events of at most 100 descriptors each, whose section has
-- a length up to 4093 and at least three bytes behind it in a block of at most 2 ^ 38: `st_eit`
-- returns 1 and gives back the table's fields, its events and their descriptors, in order. No event is lost.
pub st_eit-encode :
    (s : Source) (rest : List ℕ) (out : Eit)
    → IsSource s
    → IsBytes rest
    → 3 ≤ length rest
    → length (encode s ++ rest) ≤ 2 ^ 38
    → st_eit out (encode s ++ rest) ≡ some (1, (table s, []))
st_eit-encode s rest out i rest-IsBytes room small =
    st_eit-filled buf bytes (omega (arith, total)) out (events_of s.events) []
      ((14 + length (encode_events s.events)) * 8) ok
      (ap (λ n. event_loop 100 buf n 16 112) len ∙ loop)
    ∙ ap (λ t. some (1, (t, [])))
        (λ j. record {
          table_id = id j;
          section_syntax_indicator = syntax j;
          section_length = len j;
          service_id = service j;
          version_number = version j;
          current_next_indicator = current j;
          section_number = section j;
          last_section_number = last j;
          transport_stream_id = ts_id j;
          original_network_id = network j;
          segment_last_section_number = segment j;
          last_table_id = last_table j;
          events = events_of s.events;
        })
  where
    buf : List ℕ
    buf = encode s ++ rest

    split : buf ≡ front s ++ (encode_events s.events ++ (s.crc ++ rest))
    split =
        append_assoc (front s) (encode_events s.events ++ s.crc) rest
        ∙ ap (λ t. front s ++ t) (append_assoc (encode_events s.events) s.crc rest)

    bytes : IsBytes buf
    bytes =
        append-IsBytes (encode s) rest
          (append-IsBytes (front s) (encode_events s.events ++ s.crc) (front-IsBytes s i) (
            append-IsBytes (encode_events s.events) s.crc (encode_events-IsBytes s.events i.events)
              i.crc))
          rest-IsBytes

    total : length buf ≡ 3 + content s + length rest
    total = omega (
      arith,
      length-append (encode s) rest,
      length-append (front s) (encode_events s.events ++ s.crc),
      length-append (encode_events s.events) s.crc,
    )

    loop :
        event_loop 100 buf (content s) 16 112
        ≡ some ((events_of s.events, []), (14 + length (encode_events s.events)) * 8)
    loop =
        event_loop-encode buf bytes small 100 16 (content s) (front s) s.events (s.crc ++ rest)
          i.events split (omega (arith, i.four, length-append s.crc rest)) (omega (arith, i.four))
          (omega (arith, i.short)) (omega arith) i.few

    id : u8 s.id ≡ s.id
    id = omega (arith, id-lt s i)

    syntax : u8 ((240 + content s / 256) / 128) ≡ 1
    syntax = omega (arith, i.short)

    len : u16 (section_length (encode s ++ rest)) ≡ content s
    len = omega (arith, i.short)

    ok :
        eit_ok
          (u8 s.id)
          (u8 ((240 + content s / 256) / 128))
          (u16 (section_length (encode s ++ rest)))
        ≡ true
    ok = rw (id, syntax, len) (ground (arith, i.id, i.short))

    service : u16 (s.service / 256 * 256 + s.service % 256) ≡ s.service
    service = omega (arith, i.service)

    version : u8 ((192 + s.version * 2 + s.current) / 2 % 32) ≡ s.version
    version = omega (arith, i.version, i.current)

    current : u8 ((192 + s.version * 2 + s.current) % 2) ≡ s.current
    current = omega (arith, i.version, i.current)

    section : u8 s.section ≡ s.section
    section = omega (arith, i.section)

    last : u8 s.last ≡ s.last
    last = omega (arith, i.last)

    ts_id : u16 (s.ts_id / 256 * 256 + s.ts_id % 256) ≡ s.ts_id
    ts_id = omega (arith, i.ts_id)

    network : u16 (s.network / 256 * 256 + s.network % 256) ≡ s.network
    network = omega (arith, i.network)

    segment : u8 s.segment ≡ s.segment
    segment = omega (arith, i.segment)

    last_table : u8 s.last_table ≡ s.last_table
    last_table = omega (arith, i.last_table)
