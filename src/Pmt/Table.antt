-- ===== src/Pmt/Table.antt =====
-- `st_pmt` on a section: it returns, and it reads back what was encoded.
use mathlib.Core.List.{append_assoc}
use mathlib.Core.Path.{ap₂}
use tsanalytics.Base.{
  ℕ, suc, ◌+◌, ◌-◌, ◌*◌, ◌/◌, ◌%◌, ◌^◌, ◌≤◌, ◌<◌, ◌≡◌, refl, ap, ◌∙◌, List, ◌++◌, some, length,
  length-append, IsBytes, append-IsBytes, byte_at, byte_at-lt, u8, u16, u64, arith,
}
use tsanalytics.GetBit.{get_bit}
use tsanalytics.GetBit.Word.{word}
use tsanalytics.GetBit.Stream.{get_at}
use tsanalytics.Reader.{◌>>=◌, ◌>>◌, skip, run}
use tsanalytics.Crc.Total.{section_length}
use tsanalytics.SectionHeader.{
  get_table, get_syntax, get_zero, get_reserved, get_length, get_stream, get_reserved', get_version,
  get_current, get_section, get_last,
}
use tsanalytics.Pmt.{Stream, Pmt, read_streams, st_pmt}
use tsanalytics.Pmt.Encode.{streams_of, encode_streams, encode_streams-IsBytes}
use tsanalytics.Pmt.Streams.{read_streams-some, read_streams-encode}
use tsanalytics.Pmt.Source.{
  Source, IsSource, content, front, encode, table, front-IsBytes, length-encode_streams,
}

-- `program_info_length`
abbrev pub info_length : List ℕ → ℕ
info_length buf = byte_at buf 10 % 16 * 256 + byte_at buf 11

-- What the fields of the section give.
abbrev pub filled : List ℕ → List Stream → Pmt
filled buf streams = record {
  table_id = u8 (byte_at buf 0);
  section_syntax_indicator = u8 (byte_at buf 1 / 128);
  section_length = u16 (section_length buf);
  program_number = u16 (byte_at buf 3 * 256 + byte_at buf 4);
  version_number = u8 (byte_at buf 5 / 2 % 32);
  current_next_indicator = u8 (byte_at buf 5 % 2);
  section_number = u8 (byte_at buf 6);
  last_section_number = u8 (byte_at buf 7);
  pcr_pid = u16 (byte_at buf 8 % 32 * 256 + byte_at buf 9);
  program_info_length = u16 (info_length buf);
  streams = streams;
  end_of_streams = section_length buf - 4;
  num_of_streams = length streams;
}

module _ (buf : List ℕ) (b : IsBytes buf) (header : 19 ≤ length buf) where
  lt : (i : ℕ) → byte_at buf i < 256
  lt i = byte_at-lt buf i b

  fifteen : 15 ≤ length buf
  fifteen = omega arith

  get_upper : get_bit buf 64 3 ≡ some (byte_at buf 8 / 32, 67)
  unfolding word
  get_upper = get_at buf b 64 8 0 3 refl (omega arith) (omega arith) (omega (arith, lt)) refl

  get_pcr : get_bit buf 67 13 ≡ some (byte_at buf 8 % 32 * 256 + byte_at buf 9, 80)
  unfolding word
  get_pcr = get_at buf b 67 8 3 13 refl (omega arith) (omega arith) (omega (arith, lt)) refl

  get_lower : get_bit buf 80 4 ≡ some (byte_at buf 10 / 16, 84)
  unfolding word
  get_lower = get_at buf b 80 10 0 4 refl (omega arith) (omega arith) (omega (arith, lt)) refl

  get_info : get_bit buf 84 12 ≡ some (info_length buf, 96)
  unfolding word
  get_info = get_at buf b 84 10 4 12 refl (omega arith) (omega arith) (omega (arith, lt)) refl

  behind_info : u64 (96 + u16 (info_length buf) * 8) ≡ (12 + info_length buf) * 8
  behind_info = omega (arith, lt 11)

  end_is :
      4 ≤ section_length buf → u64 (2 ^ 64 + u16 (section_length buf) - 4) ≡ section_length buf - 4
  end_is four = omega (arith, lt 1, lt 2)

  -- Where the loop over the streams returns, so does `st_pmt`.
  st_pmt-filled :
      (out : Pmt) (streams : List Stream) (off : ℕ)
      → 4 ≤ section_length buf
      → read_streams (suc (length buf)) buf (section_length buf - 4) ((12 + info_length buf) * 8)
        ≡ some (streams, off)
      → st_pmt out buf ≡ some (filled buf streams)
  unfolding st_pmt
  st_pmt-filled out streams off four e =
      rw
        (
          get_table buf b fifteen,
          run,
          ◌>>=◌,
          ◌>>◌,
          skip,
          get_syntax buf b fifteen,
          get_zero buf b fifteen,
          get_reserved buf b fifteen,
          get_length buf b fifteen,
          get_stream buf b fifteen,
          get_reserved' buf b fifteen,
          get_version buf b fifteen,
          get_current buf b fifteen,
          get_section buf b fifteen,
          get_last buf b fifteen,
          get_upper,
          get_pcr,
          get_lower,
          get_info,
          behind_info,
          end_is four,
          e,
        )
        (ap (λ n. some (record (filled buf streams) { end_of_streams = n })) (end_is four))

  -- A section whose length is at least 4, in a block with seven bytes more than that length, and
  -- with 19 bytes and at most 2 ^ 38. `st_pmt` returns, whatever the bytes of the section: its
  -- loop needs no more rounds than the block has bytes.
  pub st_pmt-some :
      (out : Pmt)
      → 4 ≤ section_length buf
      → section_length buf + 7 ≤ length buf
      → length buf ≤ 2 ^ 38
      → (streams : List Stream) × (st_pmt out buf ≡ some (filled buf streams))
  st_pmt-some out four room small =
      let (streams, off, e) =
        read_streams-some buf b (length buf) (section_length buf - 4) (12 + info_length buf)
          (omega arith) small (omega (arith, lt 11)) (omega arith) in
      (streams, st_pmt-filled out streams off four e)

-- The section of a program map of less than 4096 bytes, with at least three bytes behind it in a
-- block of at most 2 ^ 38: `st_pmt` returns and gives back the map's fields and its streams, in
-- order, each with the length of its descriptors.
pub st_pmt-encode :
    (s : Source) (rest : List ℕ) (out : Pmt)
    → IsSource s
    → IsBytes rest
    → 3 ≤ length rest
    → length (encode s ++ rest) ≤ 2 ^ 38
    → st_pmt out (encode s ++ rest) ≡ some (table s)
st_pmt-encode s rest out i rest-IsBytes room small =
    let (off, e) =
      read_streams-encode buf bytes (length buf) (content s - 4) (front s) s.streams (s.crc ++ rest)
        i.streams split (omega (arith, i.four, length-append s.crc rest)) small
        (omega (arith, i.four)) (omega (arith, i.four))
        (omega (arith, length-encode_streams s.streams, total)) in
    st_pmt-filled buf bytes (omega (arith, total)) out (streams_of s.streams) off
      (omega (arith, long, i.four))
      (ap₂ (λ end k. read_streams (suc (length buf)) buf end (k * 8)) (omega (arith, long))
          (omega (arith, short_info))
        ∙ e)
    ∙ ap some (λ j. record {
      table_id = 2;
      section_syntax_indicator = syntax j;
      section_length = len j;
      program_number = program j;
      version_number = version j;
      current_next_indicator = current j;
      section_number = section j;
      last_section_number = last j;
      pcr_pid = pcr j;
      program_info_length = info j;
      streams = streams_of s.streams;
      end_of_streams = end j;
      num_of_streams = length (streams_of s.streams);
    })
  where
    long : section_length (encode s ++ rest) ≡ content s
    long = omega (arith, i.short)

    short_info : info_length (encode s ++ rest) ≡ length s.info
    short_info = omega (arith, i.short)

    syntax : u8 ((176 + content s / 256) / 128) ≡ 1
    syntax = omega (arith, i.short)

    len : u16 (section_length (encode s ++ rest)) ≡ content s
    len = omega (arith, i.short)

    program : u16 (s.program / 256 * 256 + s.program % 256) ≡ s.program
    program = omega (arith, i.program)

    version : u8 ((192 + s.version * 2 + s.current) / 2 % 32) ≡ s.version
    version = omega (arith, i.version, i.current)

    current : u8 ((192 + s.version * 2 + s.current) % 2) ≡ s.current
    current = omega (arith, i.version, i.current)

    section : u8 s.section ≡ s.section
    section = omega (arith, i.section)

    last : u8 s.last ≡ s.last
    last = omega (arith, i.last)

    pcr : u16 ((224 + s.pcr / 256) % 32 * 256 + s.pcr % 256) ≡ s.pcr
    pcr = omega (arith, i.pcr)

    info : u16 (info_length (encode s ++ rest)) ≡ length s.info
    info = omega (arith, i.short)

    end : section_length (encode s ++ rest) - 4 ≡ content s - 4
    end = omega (arith, i.short)

    buf : List ℕ
    buf = encode s ++ rest

    split : buf ≡ front s ++ (encode_streams s.streams ++ (s.crc ++ rest))
    split =
        append_assoc (front s) (encode_streams s.streams ++ s.crc) rest
        ∙ ap (λ t. front s ++ t) (append_assoc (encode_streams s.streams) s.crc rest)

    bytes : IsBytes buf
    bytes =
        append-IsBytes (encode s) rest
          (append-IsBytes (front s) (encode_streams s.streams ++ s.crc) (front-IsBytes s i) (
            append-IsBytes (encode_streams s.streams) s.crc
              (encode_streams-IsBytes s.streams i.streams) i.crc))
          rest-IsBytes

    total : length buf ≡ 3 + content s + length rest
    total = omega (
      arith,
      length-append (encode s) rest,
      length-append (front s) (encode_streams s.streams ++ s.crc),
      length-append (encode_streams s.streams) s.crc,
    )
