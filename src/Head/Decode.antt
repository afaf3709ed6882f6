-- ===== src/Head/Decode.antt =====
-- The fields of the header in terms of the packet's bytes.
use tsanalytics.Base.{
  ℕ, ◌+◌, ◌*◌, ◌/◌, ◌%◌, ◌^◌, ◌≤◌, ◌<◌, ◌≡◌, ◌≢◌, refl, ap, ◌∙◌, zero, suc, u8, u16, length-drop,
  List, Option, some, length, IsBytes, byte_at, byte_at-lt, drop, bit_and, ◌==◌, if◌then◌else◌,
  arith,
}
use native.Mathlib.Nat.{mod-eq_of_lt}
use mathlib.Core.Path.{ap₂}
use tsanalytics.GetBit.{get_bit}
use tsanalytics.GetBit.Word.{word}
use tsanalytics.GetBit.Field.{field}
use tsanalytics.GetBit.Stream.{get_bit-field}
use tsanalytics.Reader.{◌>>=◌, lift, run}
use tsanalytics.Adapt.{Adapt, adapt_zero, extract_adaptation_field}
use tsanalytics.Adapt.Safety.{Extracted, extract_adaptation_field-Extracted}
use tsanalytics.Head.{Head, clear_front, read_layout, read_head, st_head}

-- The adaptation field's length and the payload's position, by the two control bits and the
-- byte behind the header.
abbrev pub layout : ℕ → ℕ → ℕ × ℕ
layout zero len = (0, 4)
layout (suc zero) len = (0, 4)
layout (suc (suc zero)) len = (len, 0)
layout (suc (suc (suc c))) len = (len, 4 + len)

-- The header that a packet with the sync byte has.
pub record Parsed (buf : List ℕ) (head : Head) : Type 0 where
  pub sync : head.sync_byte ≡ 0x47
  pub error : head.transport_error_indicator ≡ byte_at buf 1 / 128
  pub start : head.payload_unit_start_indicator ≡ byte_at buf 1 / 64 % 2
  pub priority : head.transport_priority ≡ byte_at buf 1 / 32 % 2
  pub pid : head.pid ≡ byte_at buf 1 % 32 * 256 + byte_at buf 2
  pub scrambling : head.transport_scrambling_control ≡ byte_at buf 3 / 64
  pub control : head.adaptation_field_control ≡ byte_at buf 3 / 16 % 4
  pub counter : head.continuity_counter ≡ byte_at buf 3 % 16
  pub length : head.adaptation_field_length ≡ (layout (byte_at buf 3 / 16 % 4) (byte_at buf 4)).0
  pub position :
      head.payload_start_pos
      ≡ (layout (byte_at buf 3 / 16 % 4) (byte_at buf 4)).1 + byte_at buf 1 / 64 % 2
  pub adapted : 2 ≤ byte_at buf 3 / 16 % 4 → Extracted (drop 4 buf) head.adapt
  pub plain : byte_at buf 3 / 16 % 4 < 2 → head.adapt ≡ adapt_zero

-- A whole transport stream packet with its sync byte.
pub record IsPacket (buf : List ℕ) : Type 0 where
  pub bytes : IsBytes buf
  pub whole : length buf ≡ 188
  pub sync : byte_at buf 0 ≡ 0x47

module _ (buf : List ℕ) (bytes : IsBytes buf) (whole : length buf ≡ 188) where
  get_sync : get_bit buf 0 8 ≡ some (byte_at buf 0, 8)
  get_sync = get_bit-field buf 0 8 bytes (omega arith) ∙ ap (λ v. some (v, 8)) value
    where
      value : field buf 0 8 ≡ byte_at buf 0
      value = unfold field word in omega (arith, λ (i : ℕ). byte_at-lt buf i bytes)

  get_error : get_bit buf 8 1 ≡ some (byte_at buf 1 / 128, 9)
  get_error = get_bit-field buf 8 1 bytes (omega arith) ∙ ap (λ v. some (v, 9)) value
    where
      value : field buf 8 1 ≡ byte_at buf 1 / 128
      value = unfold field word in omega (arith, λ (i : ℕ). byte_at-lt buf i bytes)

  get_start : get_bit buf 9 1 ≡ some (byte_at buf 1 / 64 % 2, 10)
  get_start = get_bit-field buf 9 1 bytes (omega arith) ∙ ap (λ v. some (v, 10)) value
    where
      value : field buf 9 1 ≡ byte_at buf 1 / 64 % 2
      value = unfold field word in omega (arith, λ (i : ℕ). byte_at-lt buf i bytes)

  get_priority : get_bit buf 10 1 ≡ some (byte_at buf 1 / 32 % 2, 11)
  get_priority = get_bit-field buf 10 1 bytes (omega arith) ∙ ap (λ v. some (v, 11)) value
    where
      value : field buf 10 1 ≡ byte_at buf 1 / 32 % 2
      value = unfold field word in omega (arith, λ (i : ℕ). byte_at-lt buf i bytes)

  get_pid : get_bit buf 11 13 ≡ some (byte_at buf 1 % 32 * 256 + byte_at buf 2, 24)
  get_pid = get_bit-field buf 11 13 bytes (omega arith) ∙ ap (λ v. some (v, 24)) value
    where
      value : field buf 11 13 ≡ byte_at buf 1 % 32 * 256 + byte_at buf 2
      value = unfold field word in omega (arith, λ (i : ℕ). byte_at-lt buf i bytes)

  get_scrambling : get_bit buf 24 2 ≡ some (byte_at buf 3 / 64, 26)
  get_scrambling = get_bit-field buf 24 2 bytes (omega arith) ∙ ap (λ v. some (v, 26)) value
    where
      value : field buf 24 2 ≡ byte_at buf 3 / 64
      value = unfold field word in omega (arith, λ (i : ℕ). byte_at-lt buf i bytes)

  get_control : get_bit buf 26 2 ≡ some (byte_at buf 3 / 16 % 4, 28)
  get_control = get_bit-field buf 26 2 bytes (omega arith) ∙ ap (λ v. some (v, 28)) value
    where
      value : field buf 26 2 ≡ byte_at buf 3 / 16 % 4
      value = unfold field word in omega (arith, λ (i : ℕ). byte_at-lt buf i bytes)

  get_counter : get_bit buf 28 4 ≡ some (byte_at buf 3 % 16, 32)
  get_counter = get_bit-field buf 28 4 bytes (omega arith) ∙ ap (λ v. some (v, 32)) value
    where
      value : field buf 28 4 ≡ byte_at buf 3 % 16
      value = unfold field word in omega (arith, λ (i : ℕ). byte_at-lt buf i bytes)

  get_length : get_bit buf 32 8 ≡ some (byte_at buf 4, 40)
  get_length = get_bit-field buf 32 8 bytes (omega arith) ∙ ap (λ v. some (v, 40)) value
    where
      value : field buf 32 8 ≡ byte_at buf 4
      value = unfold field word in omega (arith, λ (i : ℕ). byte_at-lt buf i bytes)

  lt : (i : ℕ) → byte_at buf i < 256
  lt i = byte_at-lt buf i bytes

  read_layout-layout :
      (c : ℕ)
      → c < 4
      → (off : ℕ) × (read_layout buf (u8 c) 32 ≡ some (layout c (byte_at buf 4), off))
  unfolding read_layout
  read_layout-layout zero h = (32, refl)
  read_layout-layout (suc zero) h = (32, refl)
  read_layout-layout (suc (suc zero)) h =
      (40, rw (get_length, ◌>>=◌) (ap (λ n. some ((n, 0), 40)) (mod-eq_of_lt small)))
    where
      small : byte_at buf 4 < 2 ^ 16
      small = omega (arith, lt 4)
  read_layout-layout (suc (suc (suc zero))) h = (
    40,
    rw (get_length, ◌>>=◌)
        (ap₂ (λ n m. some ((n, m), 40)) (omega (arith, lt 4)) (omega (arith, lt 4))),
  )
  read_layout-layout (suc (suc (suc (suc c)))) h = absurd (omega arith)

  extracted :
      (adapt : Adapt) × (extract_adaptation_field (drop 4 buf) ≡ some adapt)
      × Extracted (drop 4 buf) adapt
  extracted =
      extract_adaptation_field-Extracted (drop 4 buf) (omega (arith, length-drop 4 buf))
        (λ h. omega (arith, length-drop 4 buf))

  -- What the header's last field becomes.
  abbrev adaptation : ℕ → Option Adapt
  adaptation c =
      if bit_and (u8 c) 2 == 0 then some adapt_zero else extract_adaptation_field (drop 4 buf)

  read_adaptation :
      (c : ℕ)
      → c < 4
      → (adapt : Adapt) × (adaptation c ≡ some adapt)
        × (2 ≤ c → Extracted (drop 4 buf) adapt)
        × (c < 2 → adapt ≡ adapt_zero)
  read_adaptation zero h = (adapt_zero, refl, λ p. absurd (omega arith), λ p. refl)
  read_adaptation (suc zero) h = (adapt_zero, refl, λ p. absurd (omega arith), λ p. refl)
  read_adaptation (suc (suc zero)) h =
      (extracted.0, extracted.1, λ p. extracted.2, λ p. absurd (omega arith))
  read_adaptation (suc (suc (suc zero))) h =
      (extracted.0, extracted.1, λ p. extracted.2, λ p. absurd (omega arith))
  read_adaptation (suc (suc (suc (suc c)))) h = absurd (omega arith)

  -- On a packet with the sync byte, `st_head` is the rest of the header.
  st_head_synced :
      (ptr : Head) → byte_at buf 0 ≡ 0x47 → st_head ptr buf ≡ run (λ _. read_head buf 0x47 8)
  unfolding st_head
  st_head_synced ptr sync = rw (get_sync, run, ◌>>=◌, sync)

  -- The struct that the calls fill in.
  abbrev filled : Adapt → Head
  filled adapt =
      let start = u8 (byte_at buf 1 / 64 % 2) in
      let (len, pos) = layout (byte_at buf 3 / 16 % 4) (byte_at buf 4) in
      record {
        sync_byte = 0x47;
        transport_error_indicator = u8 (byte_at buf 1 / 128);
        payload_unit_start_indicator = start;
        transport_priority = u8 (byte_at buf 1 / 32 % 2);
        pid = u16 (byte_at buf 1 % 32 * 256 + byte_at buf 2);
        transport_scrambling_control = u8 (byte_at buf 3 / 64);
        adaptation_field_control = u8 (byte_at buf 3 / 16 % 4);
        continuity_counter = u8 (byte_at buf 3 % 16);
        payload_start_pos = if start == 1 then u16 (pos + 1) else pos;
        adaptation_field_length = len;
        adapt = adapt;
      }

  layout-le : (c len : ℕ) → (layout c len).1 ≤ 4 + len
  layout-le zero len = omega arith
  layout-le (suc zero) len = omega arith
  layout-le (suc (suc zero)) len = omega arith
  layout-le (suc (suc (suc c))) len = omega arith

  filled-Parsed :
      (adapt : Adapt)
      → (2 ≤ byte_at buf 3 / 16 % 4 → Extracted (drop 4 buf) adapt)
      → (byte_at buf 3 / 16 % 4 < 2 → adapt ≡ adapt_zero)
      → Parsed buf (filled adapt)
  filled-Parsed adapt adapted plain = record {
    sync = refl;
    error = omega (arith, lt 1);
    start = omega (arith, lt 1);
    priority = omega (arith, lt 1);
    pid = omega (arith, lt 1, lt 2);
    scrambling = omega (arith, lt 3);
    control = omega (arith, lt 3);
    counter = omega (arith, lt 3);
    length = refl;
    position = ground (arith, lt 4, layout-le (byte_at buf 3 / 16 % 4) (byte_at buf 4));
    adapted = adapted;
    plain = plain;
  }

  read_head-Parsed : (head : Head) × (run (λ _. read_head buf 0x47 8) ≡ some head) × Parsed buf head
  unfolding read_head
  read_head-Parsed =
      let (off, at_layout) = read_layout-layout (byte_at buf 3 / 16 % 4) (omega arith) in
      let (adapt, at_adapt, adapted, plain) =
        read_adaptation (byte_at buf 3 / 16 % 4) (omega arith) in
      (
        filled adapt,
        rw (
          get_error, get_start, get_priority, get_pid, get_scrambling, get_control, get_counter,
          run, ◌>>=◌, at_layout, at_adapt, lift,
        ),
        filled-Parsed adapt adapted plain,
      )

  -- For a packet of 188 bytes with the sync byte, `st_head` returns, without a read past the
  -- packet. The header does not depend on what `*ptr` held, and its fields are the functions of
  -- the packet's bytes that `Parsed` states: of the adaptation field the length and the eight
  -- flags, or all is zero, which takes a length of 0 or above 183, or an optional part that the
  -- flags announce.
  pub st_head-Parsed :
      byte_at buf 0 ≡ 0x47
      → (head : Head) × Parsed buf head × ((ptr : Head) → st_head ptr buf ≡ some head)
  st_head-Parsed sync =
      let (head, eq, parsed) = read_head-Parsed in
      (head, parsed, λ ptr. st_head_synced ptr sync ∙ eq)

  -- A packet of 188 bytes without the sync byte sets `sync_byte` and clears the six fields behind
  -- it. The others keep the values that `*ptr` held.
  pub st_head_unsynced :
      (ptr : Head)
      → byte_at buf 0 ≢ 0x47
      → st_head ptr buf
        ≡ some (record ptr {
          sync_byte = byte_at buf 0;
          transport_error_indicator = 0;
          payload_unit_start_indicator = 0;
          transport_priority = 0;
          pid = 0;
          transport_scrambling_control = 0;
          adaptation_field_control = 0;
        })
  unfolding st_head clear_front
  st_head_unsynced ptr other = rw (get_sync, run, ◌>>=◌, mod-eq_of_lt (lt 0)) (ground arith)
