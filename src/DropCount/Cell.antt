-- ===== src/DropCount/Cell.antt =====
-- What one packet does to its PID's cell: the continuity rule as arithmetic on the counters.
use tsanalytics.Base.{
  ℕ, ◌+◌, ◌%◌, ◌^◌, ◌≤◌, ◌<◌, ◌==◌, ◌≡◌, ◌≢◌, refl, ap, false, List, same_bytes, same_bytes_refl,
  same_bytes_sound, Bool-cases, inl, inr, ◌↔◌, ◌⊎◌, if◌then◌else◌, bit_and, bit_and_mask, u64,
  arith,
}
use tsanalytics.Head.{Head}
use tsanalytics.DropCount.{
  DropCount, count_errors, check_continuity, count_drop, remember, check_packet, verdict,
}

-- The packet at hand continues the sequence after `before`, or is not checked at all.
pub data Continues (head : Head) (before : ℕ) (buf : List ℕ) (count : DropCount) : Type 0 where
  first : count.use_flag ≡ 0 → Continues head before buf count
  discontinuity : head.adapt.discontinuity_counter ≢ 0 → Continues head before buf count
  null_packet : head.pid ≡ 0x1fff → Continues head before buf count
  no_payload :
      head.adaptation_field_control % 2 ≡ 0
      → head.continuity_counter ≡ before
      → Continues head before buf count
  next :
      head.adaptation_field_control % 2 ≡ 1
      → head.continuity_counter ≡ (before + 1) % 16
      → Continues head before buf count
  repeated :
      head.adaptation_field_control % 2 ≡ 1
      → head.continuity_counter ≡ before
      → count.before_packet ≡ buf
      → u64 (count.repeat + 1) ≤ 1
      → Continues head before buf count

-- A counter has four bits.
abbrev pub Nibble : ℕ → Type 0
Nibble n = n < 16

module _ (head : Head) (before : ℕ) (buf : List ℕ) (count : DropCount) where
  control_bit : bit_and head.adaptation_field_control 1 ≡ head.adaptation_field_control % 2
  control_bit = bit_and_mask 1 head.adaptation_field_control

  next_counter : bit_and (before + 1) 0x0f ≡ (before + 1) % 16
  next_counter = bit_and_mask 4 (before + 1)

  Continues-no_drop :
      Nibble before
      → Continues head before buf count
      → (check_continuity head before buf count).0 ≡ false
  unfolding check_continuity
  Continues-no_drop small (first e) = ground arith
  Continues-no_drop small (discontinuity e) = ground arith
  Continues-no_drop small (null_packet e) = ground arith
  Continues-no_drop small (no_payload e c) = ground (arith, control_bit)
  Continues-no_drop small (next e c) = ground (arith, control_bit, next_counter)
  Continues-no_drop small (repeated e c same few) =
      ground
        (arith, control_bit, next_counter, same_bytes_refl buf, ap (λ p. same_bytes p buf) same)

  no_drop-Continues :
      Nibble before
      → (check_continuity head before buf count).0 ≡ false
      → Continues head before buf count
  unfolding check_continuity
  no_drop-Continues small h = elim (Bool-cases (count.use_flag == 0)) [
    | inl fresh ↦ first (ground arith)
    | inr used ↦ elim (Bool-cases (head.adapt.discontinuity_counter == 0)) [
      | inr announced ↦ discontinuity (ground arith)
      | inl checked ↦ elim (Bool-cases (head.pid == 0x1fff)) [
        | inl padding ↦ null_packet (ground arith)
        | inr stream ↦ elim (Bool-cases (head.adaptation_field_control % 2 == 0)) [
          | inl empty ↦ no_payload (ground arith) (ground (arith, control_bit))
          | inr full ↦ elim (Bool-cases (before == head.continuity_counter)) [
            | inr moved ↦ next (ground arith) (ground (arith, control_bit, next_counter))
            | inl stays ↦
                repeated (ground arith) (ground arith)
                  (same_bytes_sound _ _ (ground (arith, control_bit))) (ground (arith, control_bit))
          ]
        ]
      ]
    ]
  ]

  -- The tests do not look at what `count_errors` changes.
  check_counted :
      check_continuity head before buf (count_errors head count)
      ≡ check_continuity head before buf count
  unfolding check_continuity count_errors
  check_counted = refl

  -- The counter is compared at all: the PID has had a packet and is not that of null packets, and
  -- no discontinuity is announced.
  abbrev pub IsChecked : Type 0
  IsChecked = (count.use_flag ≢ 0) × (head.adapt.discontinuity_counter ≡ 0) × (head.pid ≢ 0x1fff)

  -- The counters after a packet: each grows by its flag, and the flags say what was found.
  pub record Accounted (count' : DropCount) : Type 0 where
    pub error_flag : count'.now_error ≤ 1
    pub scrambling_flag : count'.now_scrambling ≤ 1
    pub drop : count'.drop ≡ u64 (count.drop + count'.now_drop)
    pub error : count'.error ≡ u64 (count.error + count'.now_error)
    pub scrambling : count'.scrambling ≡ u64 (count.scrambling + count'.now_scrambling)
    pub total : count'.total ≡ u64 (count.total + 1)
    pub used : count'.use_flag ≢ 0
    pub kept : count'.before_packet ≡ buf
    pub drop_flag : count'.now_drop ≤ 1
    pub repeats : count'.repeat ≤ 1
    -- A drop or a counter that moves on ends a row of repeats, a repeat goes on with it, and a
    -- packet that is not checked or has no payload leaves it.
    pub repeat_dropped : count'.now_drop ≢ 0 → count'.repeat ≡ 0
    pub repeat_moved :
        IsChecked
        → head.adaptation_field_control % 2 ≡ 1
        → head.continuity_counter ≢ before
        → count'.repeat ≡ 0
    pub repeat_repeated :
        IsChecked
        → head.adaptation_field_control % 2 ≡ 1
        → head.continuity_counter ≡ before
        → count'.now_drop ≡ 0
        → count'.repeat ≡ count.repeat + 1
    pub repeat_left :
        (¬ IsChecked) ⊎ (head.adaptation_field_control % 2 ≡ 0)
        → count'.now_drop ≡ 0
        → count'.repeat ≡ count.repeat
    pub marked : count'.use_flag ≡ (if count.use_flag == 0 then 1 else count.use_flag)
    pub last : count'.last ≡ count.last
    pub offset : count'.offset ≡ count.offset

  continuity_repeats :
      count.repeat ≤ 1
      → (check_continuity head before buf count).0 ≡ false
      → (check_continuity head before buf count).1 ≤ 1
  unfolding check_continuity
  continuity_repeats few h = ground arith

  pub error_flag :
      ((check_packet head before buf count).now_error ≡ 0) ↔ (head.transport_error_indicator ≡ 0)
  unfolding check_packet remember count_drop count_errors
  error_flag = ground arith

  pub scrambling_flag :
      ((check_packet head before buf count).now_scrambling ≡ 0)
      ↔ (head.transport_scrambling_control ≡ 0)
  unfolding check_packet remember count_drop count_errors
  scrambling_flag = ground arith

  pub check_packet-Accounted :
      count.drop < 2 ^ 64 → count.repeat ≤ 1 → Accounted (check_packet head before buf count)
  unfolding check_packet remember count_drop count_errors check_continuity
  check_packet-Accounted small few = record {
    error_flag = ground (arith, check_counted);
    scrambling_flag = ground (arith, check_counted);
    drop = ground (arith, check_counted);
    error = ground (arith, check_counted);
    scrambling = ground (arith, check_counted);
    total = ground (arith, check_counted);
    used = ground (arith, check_counted);
    kept = ground (arith, check_counted);
    drop_flag = ground (arith, check_counted);
    repeats = ground (arith, check_counted, continuity_repeats few);
    repeat_dropped = λ d. ground (arith, check_counted);
    repeat_moved = λ c p m. ground (arith, check_counted, control_bit);
    repeat_repeated = λ c p m d. ground (arith, check_counted, control_bit);
    repeat_left = λ w d. ground (arith, check_counted, control_bit);
    marked = ground (arith, check_counted);
    last = ground (arith, check_counted);
    offset = ground (arith, check_counted);
  }

  -- A drop is counted exactly for a packet that does not continue the sequence.
  pub drop_flag-Continues :
      Nibble before
      → ((check_packet head before buf count).now_drop ≡ 0) ↔ Continues head before buf count
  unfolding check_packet remember count_drop count_errors
  drop_flag-Continues small = (
    λ e. no_drop-Continues small (ground (arith, check_counted)),
    λ c. ground (arith, check_counted, Continues-no_drop small c),
  )

  verdict-flags :
      let count' = check_packet head before buf count in
      (verdict count' ≡ 1)
      ↔ ((count'.now_drop ≡ 0) × (count'.now_error ≡ 0) × (count'.now_scrambling ≡ 0))
  unfolding verdict
  verdict-flags = ground arith

  pub verdict-Continues :
      Nibble before
      → (verdict (check_packet head before buf count) ≡ 1) ↔ (
          Continues head before buf count
          × (head.transport_error_indicator ≡ 0)
          × (head.transport_scrambling_control ≡ 0))
  verdict-Continues small = (
    λ e.
        let (drop, error, scrambling) = verdict-flags.0 e in
        ((drop_flag-Continues small).0 drop, error_flag.0 error, scrambling_flag.0 scrambling),
    λ (c, error, scrambling).
        verdict-flags.1
          ((drop_flag-Continues small).1 c, error_flag.1 error, scrambling_flag.1 scrambling),
  )
