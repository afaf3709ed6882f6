-- ===== src/Adapt/Safety.antt =====
-- Every read of `extract_adaptation_field` lies inside the adaptation field.
use tsanalytics.Base.{
  ℕ, ◌+◌, ◌/◌, ◌%◌, ◌≤◌, ◌<◌, ◌==◌, ◌≡◌, ◌≢◌, ◌⊎◌, refl, inl, inr, Bool-cases, ltb, List, some,
  get_elem?-eq-get_or, length, byte_at, bit_and_mask, ◌||◌, arith,
}
use tsanalytics.Adapt
use tsanalytics.Adapt.{Adapt, adapt_zero, read_flags, read_clock, extract_adaptation_field, finish}
use tsanalytics.Adapt.Control.{Flow, go, clear_and_return, fault, ◌>>=◌, read, check_end}

-- The step reads nothing out of range, where it goes on its result satisfies `P`, and where it
-- stops there is the reason `R`.
pub data Safe {ℓ} (R : Type 0) {A : Type ℓ} (P : A → Type 0) : Flow A → Type ℓ where
  went : {a : A} → P a → Safe R P (go a)
  stopped : R → Safe R P clear_and_return

Safe-bind {ℓ κ} :
    {R : Type 0} {A : Type ℓ} {B : Type κ} {P : A → Type 0} {Q : B → Type 0} {m : Flow A}
    {f : A → Flow B}
    → Safe R P m
    → ((a : A) → P a → Safe R Q (f a))
    → Safe R Q (m >>= f)
Safe-bind (went p) k = k _ p
Safe-bind (stopped r) k = stopped r

Safe-weaken {ℓ} :
    {R : Type 0} {A : Type ℓ} {P Q : A → Type 0} {m : Flow A}
    → Safe R P m
    → ((a : A) → P a → Q a)
    → Safe R Q m
Safe-weaken (went p) k = went (k _ p)
Safe-weaken (stopped r) k = stopped r

-- What the blocks leave of the struct that `read_flags` set up.
pub record Keeps (d d' : Adapt) : Type 0 where
  pub same_length : d'.adaptation_field_length ≡ d.adaptation_field_length
  pub same_discontinuity : d'.discontinuity_counter ≡ d.discontinuity_counter
  pub same_random_access : d'.random_access_indicator ≡ d.random_access_indicator
  pub same_priority :
      d'.elementary_stream_priority_indicator ≡ d.elementary_stream_priority_indicator
  pub same_pcr_flag : d'.pcr_flag ≡ d.pcr_flag
  pub same_opcr_flag : d'.opcr_flag ≡ d.opcr_flag
  pub same_splicing_flag : d'.splicing_point_flag ≡ d.splicing_point_flag
  pub same_private_flag : d'.transport_private_data_flag ≡ d.transport_private_data_flag
  pub same_extension_flag : d'.adaptation_field_extension_flag ≡ d.adaptation_field_extension_flag

Keeps-trans : {d e f : Adapt} → Keeps d e → Keeps e f → Keeps d f
Keeps-trans h k = ground arith

-- After a block: still inside, and the flags untouched.
abbrev Inside : ℕ → Adapt → Adapt × ℕ → Type 0
Inside tail d r = (r.1 ≤ tail) × Keeps d r.0

check_end-Safe :
    {R : Type 0} (q tail : ℕ) → (tail < q → R) → Safe R (λ _. q ≤ tail) (check_end q tail)
check_end-Safe q tail why = elim (Bool-cases (ltb tail q)) [
  | inl e ↦ rw e (stopped (why (ground arith)))
  | inr e ↦ rw e (went (ground arith))
]

module _ (R : Type 0) (bytes : List ℕ) (tail : ℕ) (room : tail ≤ length bytes) where
  read-Safe : (i : ℕ) → i < tail → Safe R (λ b. b ≡ byte_at bytes i) (read bytes i)
  read-Safe i h = rw (get_elem?-eq-get_or bytes i 0 (omega arith)) (went refl)

  read_clock-Safe : (p : ℕ) → p + 6 ≤ tail → Safe R (λ _. Unit {0}) (read_clock bytes p)
  unfolding read_clock
  read_clock-Safe p h = Safe-bind (read-Safe p (omega arith)) λ b0 e0.
      Safe-bind (read-Safe (p + 1) (omega arith)) λ b1 e1.
        Safe-bind (read-Safe (p + 2) (omega arith)) λ b2 e2.
          Safe-bind (read-Safe (p + 3) (omega arith)) λ b3 e3.
            Safe-bind (read-Safe (p + 4) (omega arith))
              λ b4 e4. Safe-bind (read-Safe (p + 5) (omega arith)) λ b5 e5. went tt

  module _ (dst : Adapt) (p : ℕ) (inside : p ≤ tail) where
    read_pcr-Safe :
        (dst.pcr_flag ≢ 0 → R) → Safe R (Inside tail dst) (Adapt.read_pcr bytes tail dst p)
    unfolding Adapt.read_pcr
    read_pcr-Safe why = elim (Bool-cases (dst.pcr_flag == 0)) [
      | inl e ↦ rw e (went (inside, omega arith))
      | inr e ↦ rw e (
          Safe-bind (check_end-Safe (p + 6) tail (λ _. why (ground arith)))
            λ _ h. Safe-bind (read_clock-Safe p h) λ c _. went (h, omega arith))
    ]

    read_opcr-Safe :
        (dst.opcr_flag ≢ 0 → R) → Safe R (Inside tail dst) (Adapt.read_opcr bytes tail dst p)
    unfolding Adapt.read_opcr
    read_opcr-Safe why = elim (Bool-cases (dst.opcr_flag == 0)) [
      | inl e ↦ rw e (went (inside, omega arith))
      | inr e ↦ rw e (
          Safe-bind (check_end-Safe (p + 6) tail (λ _. why (ground arith)))
            λ _ h. Safe-bind (read_clock-Safe p h) λ c _. went (h, omega arith))
    ]

    read_splice-Safe :
        (dst.splicing_point_flag ≢ 0 → R)
        → Safe R (Inside tail dst) (Adapt.read_splice bytes tail dst p)
    unfolding Adapt.read_splice
    read_splice-Safe why = elim (Bool-cases (dst.splicing_point_flag == 0)) [
      | inl e ↦ rw e (went (inside, omega arith))
      | inr e ↦ rw e (
          Safe-bind (check_end-Safe (p + 1) tail (λ _. why (ground arith)))
            λ _ h. Safe-bind (read-Safe p (omega arith)) λ b _. went (h, omega arith))
    ]

    read_private-Safe :
        (dst.transport_private_data_flag ≢ 0 → R)
        → Safe R (Inside tail dst) (Adapt.read_private bytes tail dst p)
    unfolding Adapt.read_private
    read_private-Safe why = elim (Bool-cases (dst.transport_private_data_flag == 0)) [
      | inl e ↦ rw e (went (inside, omega arith))
      | inr e ↦ rw e (
          Safe-bind (check_end-Safe (p + 1) tail (λ _. why (ground arith))) λ _ h.
            Safe-bind (read-Safe p (omega arith)) λ n _.
              Safe-bind (check_end-Safe (p + (1 + n)) tail (λ _. why (ground arith)))
                λ _ h'. went (h', omega arith))
    ]

  -- Inside the extension the bytes left count one more than the code's `n`.
  module _ (dst : Adapt) (p left : ℕ) (inside : p + left ≤ tail + 1) (why : R) where
    read_ltw-Safe :
        Safe R (λ r. (r.1 + r.2 ≤ tail + 1) × Keeps dst r.0) (Adapt.read_ltw bytes dst p left)
    unfolding Adapt.read_ltw
    read_ltw-Safe = elim (Bool-cases (dst.ltw_flag == 0)) [
      | inl e ↦ rw e (went (inside, omega arith))
      | inr e ↦ rw e (
          Safe-bind (check_end-Safe (1 + 2) left (λ _. why)) λ _ h.
            Safe-bind (read-Safe p (omega arith)) λ b0 _.
              Safe-bind (read-Safe (p + 1) (omega arith)) λ b1 _. went (omega arith, omega arith))
    ]

    read_piecewise-Safe :
        Safe R (λ r. (r.1 + r.2 ≤ tail + 1) × Keeps dst r.0) (Adapt.read_piecewise bytes dst p left)
    unfolding Adapt.read_piecewise
    read_piecewise-Safe = elim (Bool-cases (dst.piecewise_rate_flag == 0)) [
      | inl e ↦ rw e (went (inside, omega arith))
      | inr e ↦ rw e (
          Safe-bind (check_end-Safe (1 + 3) left (λ _. why)) λ _ h.
            Safe-bind (read-Safe p (omega arith)) λ b0 _.
              Safe-bind (read-Safe (p + 1) (omega arith)) λ b1 _.
                Safe-bind (read-Safe (p + 2) (omega arith)) λ b2 _. went (omega arith, omega arith))
    ]

    read_seamless-Safe : Safe R (λ d. Keeps dst d) (Adapt.read_seamless bytes dst p left)
    unfolding Adapt.read_seamless
    read_seamless-Safe = elim (Bool-cases (dst.seamless_splice_flag == 0)) [
      | inl e ↦ rw e (went (omega arith))
      | inr e ↦ rw e (
          Safe-bind (check_end-Safe (1 + 5) left (λ _. why)) λ _ h.
            Safe-bind (read-Safe p (omega arith)) λ b0 _.
              Safe-bind (read-Safe (p + 1) (omega arith)) λ b1 _.
                Safe-bind (read-Safe (p + 2) (omega arith)) λ b2 _.
                  Safe-bind (read-Safe (p + 3) (omega arith))
                    λ b3 _. Safe-bind (read-Safe (p + 4) (omega arith)) λ b4 _. went (omega arith))
    ]

  read_extension-Safe :
      (dst : Adapt) (p : ℕ)
      → (dst.adaptation_field_extension_flag ≢ 0 → R)
      → Safe R (λ d. Keeps dst d) (Adapt.read_extension bytes tail dst p)
  unfolding Adapt.read_extension
  read_extension-Safe dst p why = elim (Bool-cases (dst.adaptation_field_extension_flag == 0)) [
    | inl e ↦ rw e (went (omega arith))
    | inr e ↦ rw e (
        Safe-bind (check_end-Safe (p + 2) tail (λ _. why (ground arith))) λ _ h.
          Safe-bind (read-Safe p (omega arith)) λ n _.
            Safe-bind (check_end-Safe (p + 1 + n) tail (λ _. why (ground arith))) λ _ h'.
              Safe-bind (read-Safe (p + 1) (omega arith)) λ b _.
                Safe-bind (read_ltw-Safe _ (p + 2) n (omega arith) (why (ground arith))) λ r₁ k₁.
                  Safe-bind (read_piecewise-Safe r₁.0 r₁.1 r₁.2 k₁.0 (why (ground arith))) λ r₂ k₂.
                    Safe-weaken (read_seamless-Safe r₂.0 r₂.1 r₂.2 k₂.0 (why (ground arith)))
                      λ d k. ground arith)
  ]

-- One of the flags that announce optional parts is set.
abbrev pub HasParts : ℕ → Type 0
HasParts flags = flags % 32 ≢ 0

-- A flag of the five that is set in what `read_flags` and the blocks leave.
module _ (len flags : ℕ) (d : Adapt) (k : Keeps (read_flags len flags) d) where
  has_pcr : d.pcr_flag ≢ 0 → HasParts flags
  unfolding read_flags
  has_pcr e = omega (arith, k.same_pcr_flag, bit_and_mask 1 (flags / 16))

  has_opcr : d.opcr_flag ≢ 0 → HasParts flags
  unfolding read_flags
  has_opcr e = omega (arith, k.same_opcr_flag, bit_and_mask 1 (flags / 8))

  has_splice : d.splicing_point_flag ≢ 0 → HasParts flags
  unfolding read_flags
  has_splice e = omega (arith, k.same_splicing_flag, bit_and_mask 1 (flags / 4))

  has_private : d.transport_private_data_flag ≢ 0 → HasParts flags
  unfolding read_flags
  has_private e = omega (arith, k.same_private_flag, bit_and_mask 1 (flags / 2))

  has_extension : d.adaptation_field_extension_flag ≢ 0 → HasParts flags
  unfolding read_flags
  has_extension e = omega (arith, k.same_extension_flag, bit_and_mask 1 flags)

module _ (bytes : List ℕ) (len : ℕ) (pos : 1 ≤ len) (room : 1 + len ≤ length bytes) where
  parts_Safe :
      (flags : ℕ)
      → Safe (HasParts flags) (Keeps (read_flags len flags)) (
          Adapt.read_pcr bytes (1 + len) (read_flags len flags) 2 >>= λ r₁.
          Adapt.read_opcr bytes (1 + len) r₁.0 r₁.1 >>= λ r₂.
          Adapt.read_splice bytes (1 + len) r₂.0 r₂.1 >>= λ r₃.
          Adapt.read_private bytes (1 + len) r₃.0 r₃.1 >>= λ r₄.
          Adapt.read_extension bytes (1 + len) r₄.0 r₄.1)
  parts_Safe flags =
      let R : Type 0 = HasParts flags in
      let d : Adapt = read_flags len flags in
      Safe-bind
        (read_pcr-Safe R bytes (1 + len) room d 2 (omega arith) (has_pcr len flags d (omega arith)))
        λ r₁ k₁.
          let same₁ : Keeps d r₁.0 = k₁.1 in
          Safe-bind
            (read_opcr-Safe R bytes (1 + len) room r₁.0 r₁.1 k₁.0 (has_opcr len flags r₁.0 same₁))
            λ r₂ k₂.
              let same₂ : Keeps d r₂.0 = Keeps-trans same₁ k₂.1 in
              Safe-bind
                (read_splice-Safe R bytes (1 + len) room r₂.0 r₂.1 k₂.0
                  (has_splice len flags r₂.0 same₂))
                λ r₃ k₃.
                  let same₃ : Keeps d r₃.0 = Keeps-trans same₂ k₃.1 in
                  Safe-bind
                    (read_private-Safe R bytes (1 + len) room r₃.0 r₃.1 k₃.0
                      (has_private len flags r₃.0 same₃))
                    λ r₄ k₄.
                      let same₄ : Keeps d r₄.0 = Keeps-trans same₃ k₄.1 in
                      Safe-weaken
                        (read_extension-Safe R bytes (1 + len) room r₄.0 r₄.1
                          (has_extension len flags r₄.0 same₄))
                        λ d' k. Keeps-trans same₄ k

  read_fields-Safe :
      Safe
        (HasParts (byte_at bytes 1))
        (Keeps (read_flags len (byte_at bytes 1)))
        (Adapt.read_fields bytes len)
  unfolding Adapt.read_fields
  read_fields-Safe =
      Safe-bind (check_end-Safe (1 + 1) (1 + len) (λ short. absurd (omega arith))) λ _ h.
        Safe-bind (read-Safe (HasParts (byte_at bytes 1)) bytes (1 + len) room 1 (omega arith))
          λ flags f. rw (← f) (parts_Safe flags)

-- What an extraction leaves in `*dst`: all zeros, where the length is out of range or optional
-- parts are announced (which may not fit), or the length and the eight flags of the data.
pub data Extracted (bytes : List ℕ) (dst : Adapt) : Type 0 where
  cleared :
      (byte_at bytes 0 ≡ 0) ⊎ ((183 < byte_at bytes 0) ⊎ HasParts (byte_at bytes 1))
      → dst ≡ adapt_zero
      → Extracted bytes dst
  filled :
      1 ≤ byte_at bytes 0
      → byte_at bytes 0 ≤ 183
      → dst.adaptation_field_length ≡ byte_at bytes 0
      → dst.discontinuity_counter ≡ byte_at bytes 1 / 128 % 2
      → dst.random_access_indicator ≡ byte_at bytes 1 / 64 % 2
      → dst.elementary_stream_priority_indicator ≡ byte_at bytes 1 / 32 % 2
      → dst.pcr_flag ≡ byte_at bytes 1 / 16 % 2
      → dst.opcr_flag ≡ byte_at bytes 1 / 8 % 2
      → dst.splicing_point_flag ≡ byte_at bytes 1 / 4 % 2
      → dst.transport_private_data_flag ≡ byte_at bytes 1 / 2 % 2
      → dst.adaptation_field_extension_flag ≡ byte_at bytes 1 % 2
      → Extracted bytes dst

finish-Extracted :
    (bytes : List ℕ) (m : Flow Adapt)
    → 1 ≤ byte_at bytes 0
    → byte_at bytes 0 ≤ 183
    → Safe (HasParts (byte_at bytes 1)) (Keeps (read_flags (byte_at bytes 0) (byte_at bytes 1))) m
    → (dst : Adapt) × (finish m ≡ some dst) × Extracted bytes dst
unfolding read_flags
finish-Extracted bytes (go d) pos small (went k) = (
  d,
  refl,
  filled pos small k.same_length (omega (arith, bit_and_mask 1 (byte_at bytes 1 / 128)))
      (omega (arith, bit_and_mask 1 (byte_at bytes 1 / 64)))
      (omega (arith, bit_and_mask 1 (byte_at bytes 1 / 32)))
      (omega (arith, bit_and_mask 1 (byte_at bytes 1 / 16)))
      (omega (arith, bit_and_mask 1 (byte_at bytes 1 / 8)))
      (omega (arith, bit_and_mask 1 (byte_at bytes 1 / 4)))
      (omega (arith, bit_and_mask 1 (byte_at bytes 1 / 2)))
      (omega (arith, bit_and_mask 1 (byte_at bytes 1))),
)
finish-Extracted bytes clear_and_return pos small (stopped r) =
    (adapt_zero, refl, cleared (inr (inr r)) refl)
finish-Extracted bytes fault pos small s = elim s [ ]

-- On data with its length byte and, if that is at most 183, as many bytes behind it, an
-- extraction reads nothing else. It leaves `*dst` with the length and the eight flags of the data,
-- or all zero; all zero only if the length is 0 or above 183, or if one of the five flags is set
-- that announce optional parts.
pub extract_adaptation_field-Extracted :
    (bytes : List ℕ)
    → 1 ≤ length bytes
    → (byte_at bytes 0 ≤ 183 → 1 + byte_at bytes 0 ≤ length bytes)
    → (dst : Adapt) × (extract_adaptation_field bytes ≡ some dst) × Extracted bytes dst
unfolding extract_adaptation_field
extract_adaptation_field-Extracted bytes some_byte room =
    rw (get_elem?-eq-get_or bytes 0 0 some_byte) (elim (Bool-cases (len == 0 || ltb 183 len)) [
      | inl e ↦ rw e (adapt_zero, refl, cleared (ground arith) refl)
      | inr e ↦ rw e (
          finish-Extracted bytes (Adapt.read_fields bytes len) (ground arith) (ground arith)
            (read_fields-Safe bytes len (ground arith) (room (ground arith))))
    ])
  where
    len : ℕ
    len = byte_at bytes 0
