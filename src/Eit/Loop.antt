-- ===== src/Eit/Loop.antt =====
-- The loop over the events.
use mathlib.Core.List.{append_assoc}
use tsanalytics.Base.{
  ℕ, zero, suc, ◌+◌, ◌-◌, ◌*◌, ◌/◌, ◌%◌, ◌^◌, ◌≤◌, ◌<◌, ◌≡◌, refl, sym, ap, ◌∙◌, ltb, leb, true,
  false, List, [], ◌∷◌, ◌++◌, some, length, length-append, take, replicate, replicate-IsBytes,
  append-IsBytes, IsBytes, byte_at, byte_at-lt, u8, u16, u32, u64, arith,
}
use tsanalytics.GetBit.{get_bit}
use tsanalytics.GetBit.Word.{word}
use tsanalytics.GetBit.Stream.{get_at}
use tsanalytics.Reader.{◌>>=◌, ◌>>◌, skip, lift}
use tsanalytics.Time.{time_to_tm}
use tsanalytics.Time.Timed.{time_to_tm-timed}
use tsanalytics.Eit.{tm_cleared, bytes_at, back_24, read_event, desc_loop, event_loop}
use tsanalytics.Eit.Encode.{
  EventSource, IsEventSource, AllEvents, start_of, bare_event, event_of, events_of, desc_bytes,
  encode_event, encode_events, descs_of,
}
use tsanalytics.Eit.Descs.{length_behind, bytes_at-append, byte_behind, desc_loop-encode}

module _ (buf : List ℕ) (b : IsBytes buf) (small : length buf ≤ 2 ^ 38) where
  lt : (i : ℕ) → byte_at buf i < 256
  lt i = byte_at-lt buf i b

  module _ (front : List ℕ) (s : EventSource) (rest : List ℕ) (i : IsEventSource s)
      (e : buf ≡ front ++ (encode_event s ++ rest)) (room : 7 ≤ length rest) where
    total : length buf ≡ length front + (12 + length (desc_bytes s) + length rest)
    total = omega (arith, length_behind buf front (encode_event s) rest e)

    at : (n : ℕ) → byte_at buf (length front + n) ≡ byte_at (encode_event s ++ rest) n
    at n = byte_behind buf b small front (encode_event s ++ rest) n e

    further :
        (n m : ℕ) → byte_at buf (length front + n + m) ≡ byte_at (encode_event s ++ rest) (n + m)
    further n m = ap (byte_at buf) (omega arith) ∙ at (n + m)

    first : byte_at buf (length front) ≡ s.id / 256
    first = ap (byte_at buf) (omega arith) ∙ at 0

    get_id : get_bit buf (length front * 8) 16 ≡ some (s.id, length front * 8 + 16)
    unfolding word
    get_id =
        get_at buf b _ (length front) 0 16 (omega arith) (omega arith) (omega (arith, total))
          (omega (arith, lt, first, at 1)) refl

    get_start : bytes_at buf 5 (length front * 8 + 16) ≡ some (start_of s, length front * 8 + 16)
    get_start =
        bytes_at-append buf (front ++ (s.id / 256 ∷ s.id % 256 ∷ [])) (start_of s) _ _
          (e ∙ sym (append_assoc front (s.id / 256 ∷ s.id % 256 ∷ []) _))
          (omega (arith, length-append front (s.id / 256 ∷ s.id % 256 ∷ [])))

    behind_start : u64 (length front * 8 + 16 + 40) ≡ length front * 8 + 56
    behind_start = omega (arith, total)

    start_tm :
        time_to_tm tm_cleared (start_of s ++ replicate 16 0) ≡ some ((bare_event s).start_time_tm)
    start_tm =
        time_to_tm-timed tm_cleared (start_of s ++ replicate 16 0)
          (append-IsBytes (start_of s) (replicate 16 0)
            (i.date_high, (i.date_low, (i.hour, (i.minute, (i.second, tt)))))
            (replicate-IsBytes 16))
          (omega arith)

    get_duration :
        get_bit buf (length front * 8 + 56) 24
        ≡ some ((bare_event s).duration, length front * 8 + 80)
    unfolding word
    get_duration =
        get_at buf b _ (length front + 7) 0 24 (omega arith) (omega arith) (omega (arith, total))
          (omega (arith, lt, at 7, further 7 1, further 7 2)) (omega arith)

    back : length front * 8 + 80 - 24 ≡ length front * 8 + 56
    back = omega arith

    get_hours : get_bit buf (length front * 8 + 56) 8 ≡ some (s.hours, length front * 8 + 64)
    unfolding word
    get_hours =
        get_at buf b _ (length front + 7) 0 8 (omega arith) (omega arith) (omega (arith, total))
          (omega (arith, lt, at 7)) (omega arith)

    get_minutes : get_bit buf (length front * 8 + 64) 8 ≡ some (s.minutes, length front * 8 + 72)
    unfolding word
    get_minutes =
        get_at buf b _ (length front + 8) 0 8 (omega arith) (omega arith) (omega (arith, total))
          (omega (arith, lt, at 8)) (omega arith)

    get_seconds : get_bit buf (length front * 8 + 72) 8 ≡ some (s.seconds, length front * 8 + 80)
    unfolding word
    get_seconds =
        get_at buf b _ (length front + 9) 0 8 (omega arith) (omega arith) (omega (arith, total))
          (omega (arith, lt, at 9)) (omega arith)

    get_running : get_bit buf (length front * 8 + 80) 3 ≡ some (s.running, length front * 8 + 83)
    unfolding word
    get_running =
        get_at buf b _ (length front + 10) 0 3 (omega arith) (omega arith) (omega (arith, total))
          (omega (arith, lt, at 10, i.running, i.free_ca, i.short)) (omega arith)

    get_free_ca : get_bit buf (length front * 8 + 83) 1 ≡ some (s.free_ca, length front * 8 + 84)
    unfolding word
    get_free_ca =
        get_at buf b _ (length front + 10) 3 1 (omega arith) (omega arith) (omega (arith, total))
          (omega (arith, lt, at 10, i.running, i.free_ca, i.short)) (omega arith)

    get_len :
        get_bit buf (length front * 8 + 84) 12 ≡ some (length (desc_bytes s), length front * 8 + 96)
    unfolding word
    get_len =
        get_at buf b _ (length front + 10) 4 12 (omega arith) (omega arith) (omega (arith, total))
          (omega (arith, lt, at 10, further 10 1, i.running, i.free_ca, i.short)) (omega arith)

    id_small : u16 s.id ≡ s.id
    id_small = omega (arith, i.id)

    duration_small : u32 ((bare_event s).duration) ≡ (bare_event s).duration
    duration_small = omega (arith, i.hours, i.minutes, i.seconds)

    hours_small : u8 s.hours ≡ s.hours
    hours_small = omega (arith, i.hours)

    minutes_small : u8 s.minutes ≡ s.minutes
    minutes_small = omega (arith, i.minutes)

    seconds_small : u8 s.seconds ≡ s.seconds
    seconds_small = omega (arith, i.seconds)

    running_small : u8 s.running ≡ s.running
    running_small = omega (arith, i.running)

    free_ca_small : u8 s.free_ca ≡ s.free_ca
    free_ca_small = omega (arith, i.free_ca)

    len_small : u16 (length (desc_bytes s)) ≡ length (desc_bytes s)
    len_small = omega (arith, i.short)

    -- The event in front of its descriptors.
    read_event-encode :
        read_event buf (length front * 8) ≡ some (bare_event s, (length front + 12) * 8)
    unfolding read_event
    read_event-encode =
        rw
          (
            get_id, ◌>>=◌, ◌>>◌, get_start, skip, behind_start, start_tm, lift, get_duration,
            back_24, back, get_hours, get_minutes, get_seconds, get_running, get_free_ca, get_len,
            id_small, duration_small, hours_small, minutes_small, seconds_small, running_small,
            free_ca_small, len_small,
          )
          (ap (λ o. some (bare_event s, o)) (omega arith))

  -- The loop reads the events that stand in front of `rest`.
  pub event_loop-encode :
      (left loaded section_length : ℕ) (front : List ℕ) (ss : List EventSource) (rest : List ℕ)
      → AllEvents ss
      → buf ≡ front ++ (encode_events ss ++ rest)
      → 7 ≤ length rest
      → section_length + 1 ≡ loaded + length (encode_events ss)
      → section_length < 4096
      → 11 ≤ loaded
      → length ss ≤ left
      → event_loop left buf section_length loaded (length front * 8)
        ≡ some ((events_of ss, []), (length front + length (encode_events ss)) * 8)
  unfolding event_loop
  event_loop-encode zero loaded section_length front [] rest i e room len short begun few =
      ap (λ o. some (([], []), o)) (omega arith)
  event_loop-encode (suc left) loaded section_length front [] rest i e room len short begun few =
      let done : leb section_length loaded ≡ true = ground arith in
      rw (event_loop, done) (ap (λ o. some (([], []), o)) (omega arith))
  event_loop-encode zero loaded section_length front (s ∷ ss) rest i e room len short begun few =
      absurd (omega arith)
  event_loop-encode (suc left) loaded section_length front (s ∷ ss) rest i e room len short begun
        few =
      let all : length (encode_events (s ∷ ss))
          ≡ 12 + length (desc_bytes s) + length (encode_events ss) =
        omega (arith, length-append (desc_bytes s) (encode_events ss)) in
      let more : leb section_length loaded ≡ false = ground (arith, all) in
      let fits : ltb section_length (length (desc_bytes s)) ≡ false = ground (arith, all) in
      let head : List ℕ = front ++ take 12 (encode_event s) in
      let head_length : length head ≡ length front + 12 =
        omega (arith, length-append front (take 12 (encode_event s))) in
      let front' : List ℕ = front ++ encode_event s in
      let behind : length front' ≡ length front + (12 + length (desc_bytes s)) =
        omega (arith, length-append front (encode_event s)) in
      let split : buf ≡ front ++ (encode_event s ++ (encode_events ss ++ rest)) =
        e ∙ ap (λ t. front ++ t) (append_assoc (encode_event s) (encode_events ss) rest) in
      let loaded' : u64 (loaded + (12 + length (desc_bytes s)))
          ≡ loaded + (12 + length (desc_bytes s)) =
        omega (arith, all) in
      let far : 7 ≤ length (encode_events ss ++ rest) =
        omega (arith, length-append (encode_events ss) rest) in
      let bare : read_event buf (length front * 8) ≡ some (bare_event s, length head * 8) =
        read_event-encode front s (encode_events ss ++ rest) i.0 split far
        ∙ ap (λ n. some (bare_event s, n * 8)) (sym head_length) in
      let descs : desc_loop 100 buf (length (desc_bytes s)) 0 (length head * 8)
          ≡ some (descs_of s.descs, length front' * 8) =
        desc_loop-encode buf b small 100 0 (length (desc_bytes s)) head s.descs
          (encode_events ss ++ rest) i.0.descs
          (split
            ∙ sym (
                append_assoc front (take 12 (encode_event s))
                  (desc_bytes s ++ (encode_events ss ++ rest))))
          far (omega arith) i.0.short i.0.few
        ∙ ap (λ n. some (descs_of s.descs, n * 8)) (omega (arith, behind, head_length)) in
      rw
        (
          event_loop,
          more,
          bare,
          fits,
          ◌>>=◌,
          descs,
          loaded',
          event_loop-encode left (loaded + (12 + length (desc_bytes s))) section_length front' ss
              rest i.1
              (split ∙ sym (append_assoc front (encode_event s) (encode_events ss ++ rest))) room
              (omega (arith, all)) short (omega arith) (omega arith),
        )
        (ap (λ o. some ((event_of s ∷ events_of ss, []), o)) (omega (arith, all, behind)))
