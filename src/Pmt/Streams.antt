-- ===== src/Pmt/Streams.antt =====
-- The loop over the streams.
use mathlib.Core.Path.{ap₂}
use mathlib.Core.List.{append_assoc}
use native.Mathlib.Decide.{dec_lt}
use tsanalytics.Base.{
  ℕ, zero, suc, ◌+◌, ◌*◌, ◌/◌, ◌%◌, ◌^◌, ◌≤◌, ◌<◌, ◌≡◌, refl, sym, ap, ◌∙◌, ltb, true, false, zero,
  suc, List, [], ◌∷◌, ◌++◌, some, length, length-append, IsBytes, byte_at, byte_at-lt, u8, u16,
  arith,
}
use tsanalytics.GetBit.{get_bit}
use tsanalytics.GetBit.Word.{word}
use tsanalytics.GetBit.Stream.{get_at}
use tsanalytics.Reader.{◌>>=◌}
use tsanalytics.Pmt.{Stream, read_stream, read_streams}
use tsanalytics.Base.{get_or-append}
use tsanalytics.Pmt.Encode.{
  StreamSource, IsStreamSource, AllSources, stream, streams_of, encode_stream, encode_streams,
}

-- The node for the five bytes at `k`.
abbrev pub stream_at : List ℕ → ℕ → Stream
stream_at buf k = record {
  stream_type = byte_at buf k;
  elementary_pid = byte_at buf (k + 1) % 32 * 256 + byte_at buf (k + 2);
  es_info_length = byte_at buf (k + 3) % 16 * 256 + byte_at buf (k + 4);
  crc_32 = 0;
}

module _ (buf : List ℕ) (b : IsBytes buf) (k : ℕ) (room : k + 11 ≤ length buf)
    (small : k ≤ 2 ^ 39) where
  lt : (i : ℕ) → byte_at buf i < 256
  lt i = byte_at-lt buf i b

  get_type : get_bit buf (k * 8) 8 ≡ some (byte_at buf k, k * 8 + 8)
  unfolding word
  get_type =
      get_at buf b (k * 8) k 0 8 (omega arith) (omega arith) (omega arith) (omega (arith, lt)) refl

  get_reserved : get_bit buf (k * 8 + 8) 3 ≡ some (byte_at buf (k + 1) / 32, k * 8 + 11)
  unfolding word
  get_reserved =
      get_at buf b (k * 8 + 8) (k + 1) 0 3 (omega arith) (omega arith) (omega arith)
        (omega (arith, lt)) (omega arith)

  get_pid :
      get_bit buf (k * 8 + 11) 13
      ≡ some (byte_at buf (k + 1) % 32 * 256 + byte_at buf (k + 2), k * 8 + 24)
  unfolding word
  get_pid =
      get_at buf b (k * 8 + 11) (k + 1) 3 13 (omega arith) (omega arith) (omega arith)
        (omega (arith, lt, ap (byte_at buf) second)) (omega arith)
    where
      second : k + 1 + 1 ≡ k + 2
      second = omega arith

  get_reserved' : get_bit buf (k * 8 + 24) 4 ≡ some (byte_at buf (k + 3) / 16, k * 8 + 28)
  unfolding word
  get_reserved' =
      get_at buf b (k * 8 + 24) (k + 3) 0 4 (omega arith) (omega arith) (omega arith)
        (omega (arith, lt)) (omega arith)

  get_info :
      get_bit buf (k * 8 + 28) 12
      ≡ some (byte_at buf (k + 3) % 16 * 256 + byte_at buf (k + 4), k * 8 + 40)
  unfolding word
  get_info =
      get_at buf b (k * 8 + 28) (k + 3) 4 12 (omega arith) (omega arith) (omega arith)
        (omega (arith, lt, ap (byte_at buf) fourth)) (omega arith)
    where
      fourth : k + 3 + 1 ≡ k + 4
      fourth = omega arith

  -- A round: the node, and the offset behind its descriptors.
  read_stream-stream_at :
      read_stream buf (k * 8)
      ≡ some (stream_at buf k, (k + (5 + (stream_at buf k).es_info_length)) * 8)
  unfolding read_stream
  read_stream-stream_at =
      rw (get_type, ◌>>=◌, get_reserved, get_pid, get_reserved', get_info)
        (ap₂ (λ p o. some (p, o))
          (λ i. record {
            stream_type = type_small i;
            elementary_pid = pid_small i;
            es_info_length = info_small i;
            crc_32 = 0;
          })
          (omega (arith, lt (k + 4))))
    where
      type_small : u8 (byte_at buf k) ≡ byte_at buf k
      type_small = omega (arith, lt k)

      pid_small :
          u16 (byte_at buf (k + 1) % 32 * 256 + byte_at buf (k + 2))
          ≡ byte_at buf (k + 1) % 32 * 256 + byte_at buf (k + 2)
      pid_small = omega (arith, lt (k + 2))

      info_small :
          u16 (byte_at buf (k + 3) % 16 * 256 + byte_at buf (k + 4))
          ≡ byte_at buf (k + 3) % 16 * 256 + byte_at buf (k + 4)
      info_small = omega (arith, lt (k + 4))

module _ (buf : List ℕ) (b : IsBytes buf) where
  -- A round of the loop, at a byte in front of the end.
  round :
      (fuel end k : ℕ) (ss : List Stream) (off : ℕ)
      → k + 11 ≤ length buf
      → k ≤ 2 ^ 39
      → k < end
      → read_streams fuel buf end ((k + (5 + (stream_at buf k).es_info_length)) * 8)
        ≡ some (ss, off)
      → read_streams (suc fuel) buf end (k * 8) ≡ some (stream_at buf k ∷ ss, off)
  unfolding read_streams
  round fuel end k ss off room small inside e =
      rw (read_streams, before, read_stream-stream_at buf b k room small, ◌>>=◌, e)
    where
      before : ltb (k * 8 / 8) end ≡ true
      before = ground arith

  finish : (fuel end k : ℕ) → end ≤ k → read_streams (suc fuel) buf end (k * 8) ≡ some ([], k * 8)
  unfolding read_streams
  finish fuel end k behind = rw (read_streams, done)
    where
      done : ltb (k * 8 / 8) end ≡ false
      done = ground arith

  -- As much fuel as there are bytes up to the end is enough, if the buffer goes on for eleven
  -- bytes behind it.
  pub read_streams-some :
      (fuel end k : ℕ)
      → end + 11 ≤ length buf
      → length buf ≤ 2 ^ 38
      → k ≤ 2 ^ 39
      → end ≤ k + fuel
      → (ss : List Stream) × (off : ℕ) × (read_streams (suc fuel) buf end (k * 8) ≡ some (ss, off))
  read_streams-some zero end k room small near enough = ([], k * 8, finish zero end k (omega arith))
  read_streams-some (suc fuel) end k room small near enough = elim (dec_lt k end) [
    | yes inside ↦
        let len : ℕ = (stream_at buf k).es_info_length in
        let short : len < 4096 = omega (arith, byte_at-lt buf (k + 4) b) in
        let (ss, off, e) =
          read_streams-some fuel end (k + (5 + len)) room small (omega arith) (omega arith) in
        (stream_at buf k ∷ ss, off, round (suc fuel) end k ss off (omega arith) near inside e)
    | no behind ↦ ([], k * 8, finish (suc fuel) end k (omega arith))
  ]

  -- The node for an encoded stream.
  stream_at-stream :
      (front rest : List ℕ) (s : StreamSource)
      → IsStreamSource s
      → buf ≡ front ++ (encode_stream s ++ rest)
      → stream_at buf (length front) ≡ stream s
  stream_at-stream front rest s i e = λ j. record {
    stream_type = type j;
    elementary_pid = pid j;
    es_info_length = info j;
    crc_32 = 0;
  }
    where
      at : (n : ℕ) → byte_at buf (length front + n) ≡ byte_at (encode_stream s ++ rest) n
      at n = rw e (get_or-append front (encode_stream s ++ rest) n 0)

      type : byte_at buf (length front) ≡ s.type
      type = ap (byte_at buf) (omega arith) ∙ at 0

      pid : byte_at buf (length front + 1) % 32 * 256 + byte_at buf (length front + 2) ≡ s.pid
      pid = omega (arith, at 1, at 2, i.pid)

      info :
          byte_at buf (length front + 3) % 16 * 256 + byte_at buf (length front + 4) ≡ length s.info
      info = omega (arith, at 3, at 4, i.short)

  -- The loop reads the streams that stand in front of `rest`.
  pub read_streams-encode :
      (fuel end : ℕ) (front : List ℕ) (ss : List StreamSource) (rest : List ℕ)
      → AllSources ss
      → buf ≡ front ++ (encode_streams ss ++ rest)
      → 6 ≤ length rest
      → length buf ≤ 2 ^ 38
      → end ≤ length front + length (encode_streams ss)
      → length front + length (encode_streams ss) ≤ end + 4
      → length ss ≤ fuel
      → (off : ℕ) × (read_streams (suc fuel) buf end (length front * 8) ≡ some (streams_of ss, off))
  read_streams-encode fuel end front [] rest i e room small low high enough =
      (length front * 8, finish fuel end (length front) (omega arith))
  read_streams-encode zero end front (s ∷ ss) rest i e room small low high enough =
      absurd (omega arith)
  read_streams-encode (suc fuel) end front (s ∷ ss) rest i e room small low high enough =
      let all : length (encode_streams (s ∷ ss)) ≡ 5 + length s.info + length (encode_streams ss) =
        omega (arith, length-append s.info (encode_streams ss)) in
      let node : stream_at buf (length front) ≡ stream s =
        stream_at-stream front (encode_streams ss ++ rest) s i.0
          (e ∙ ap (λ t. front ++ t) (append_assoc (encode_stream s) (encode_streams ss) rest)) in
      let behind : length (front ++ encode_stream s) ≡ length front + (5 + length s.info) =
        omega (arith, length-append front (encode_stream s)) in
      let total : length buf ≡ length front + (length (encode_streams (s ∷ ss)) + length rest) =
        ap length e
        ∙ length-append front (encode_streams (s ∷ ss) ++ rest)
        ∙ ap (λ n. length front + n) (length-append (encode_streams (s ∷ ss)) rest) in
      let (off, e') =
        read_streams-encode fuel end (front ++ encode_stream s) ss rest i.1
          (e
            ∙ ap (λ t. front ++ t) (append_assoc (encode_stream s) (encode_streams ss) rest)
            ∙ sym (append_assoc front (encode_stream s) (encode_streams ss ++ rest)))
          room small (omega arith) (omega arith) (omega arith) in
      let e'' : read_streams (suc fuel) buf end
            ((length front + (5 + (stream_at buf (length front)).es_info_length)) * 8)
          ≡ some (streams_of ss, off) =
        ap (λ n. read_streams (suc fuel) buf end (n * 8))
          (ap (λ p. length front + (5 + p.es_info_length)) node ∙ sym behind)
        ∙ e' in
      (
        off,
        round (suc fuel) end (length front) (streams_of ss) off (omega arith) (omega arith)
              (omega arith) e''
            ∙ ap (λ p. some (p ∷ streams_of ss, off)) node,
      )
