-- ===== src/Adapt.antt =====
-- m2tlib/head_adapt.c: `extract_adaptation_field`. A pointer into the data is its offset.
pub mod Control
pub mod Safety
use Control.{Flow, go, clear_and_return, fault, ◌>>=◌, ◌>>◌, read, check_end}
use tsanalytics.Base.{
  ℕ, ◌+◌, ◌-◌, ◌^◌, ◌==◌, ◌||◌, ltb, if◌then◌else◌, bit_and, bit_or, List, Option, none, some,
  get_elem?, u32, u64, ◌<<<◌, ◌>>>◌,
}

-- `ADAPTATION_FIELD`. The two clock references and `dts_next_au` are `int64_t`, kept as their
-- bit patterns.
pub record Adapt : Type 0 where
  pub adaptation_field_length : ℕ
  pub discontinuity_counter : ℕ
  pub random_access_indicator : ℕ
  pub elementary_stream_priority_indicator : ℕ
  pub pcr_flag : ℕ
  pub opcr_flag : ℕ
  pub splicing_point_flag : ℕ
  pub transport_private_data_flag : ℕ
  pub adaptation_field_extension_flag : ℕ
  pub program_clock_reference : ℕ
  pub original_program_clock_reference : ℕ
  pub splice_countdown : ℕ
  pub transport_private_data_length : ℕ
  pub adaptation_field_extension_length : ℕ
  pub ltw_flag : ℕ
  pub piecewise_rate_flag : ℕ
  pub seamless_splice_flag : ℕ
  pub ltw_valid_flag : ℕ
  pub ltw_offset : ℕ
  pub piecewise_rate : ℕ
  pub splice_type : ℕ
  pub dts_next_au : ℕ

-- `memset(dst, 0, sizeof(ADAPTATION_FIELD))`
abbrev pub adapt_zero : Adapt
adapt_zero = record {
  adaptation_field_length = 0;
  discontinuity_counter = 0;
  random_access_indicator = 0;
  elementary_stream_priority_indicator = 0;
  pcr_flag = 0;
  opcr_flag = 0;
  splicing_point_flag = 0;
  transport_private_data_flag = 0;
  adaptation_field_extension_flag = 0;
  program_clock_reference = 0;
  original_program_clock_reference = 0;
  splice_countdown = 0;
  transport_private_data_length = 0;
  adaptation_field_extension_length = 0;
  ltw_flag = 0;
  piecewise_rate_flag = 0;
  seamless_splice_flag = 0;
  ltw_valid_flag = 0;
  ltw_offset = 0;
  piecewise_rate = 0;
  splice_type = 0;
  dts_next_au = 0;
}

-- An `int` widened to `int64_t`, on bit patterns: the sign bit is copied.
abbrev pub sign_extend : ℕ → ℕ
sign_extend v = if ltb v (2 ^ 31) then v else v + (2 ^ 64 - 2 ^ 32)

-- The flags of the byte behind the length.
pub read_flags : ℕ → ℕ → Adapt
read_flags len flags = record adapt_zero {
  adaptation_field_length = len;
  discontinuity_counter = bit_and (flags >>> 7) 1;
  random_access_indicator = bit_and (flags >>> 6) 1;
  elementary_stream_priority_indicator = bit_and (flags >>> 5) 1;
  pcr_flag = bit_and (flags >>> 4) 1;
  opcr_flag = bit_and (flags >>> 3) 1;
  splicing_point_flag = bit_and (flags >>> 2) 1;
  transport_private_data_flag = bit_and (flags >>> 1) 1;
  adaptation_field_extension_flag = bit_and flags 1;
}

-- The six bytes of a clock reference. The first four are or-ed in `int`, whose bit pattern a
-- shift into the sign bit leaves as in `uint32_t`.
pub clock_value : ℕ → ℕ → ℕ → ℕ → ℕ → ℕ → ℕ
clock_value b0 b1 b2 b3 b4 b5 =
    let high = bit_or (bit_or (bit_or (u32 (b0 <<< 24)) (b1 <<< 16)) (b2 <<< 8)) b3 in
    let low = bit_or (bit_or (bit_and b4 0x80 <<< 2) (bit_and b4 1 <<< 1)) b5 in
    bit_or (u64 (sign_extend high <<< 10)) low

pub read_clock : List ℕ → ℕ → Flow ℕ
read_clock bytes p = do
  b0 ← read bytes p
  b1 ← read bytes (p + 1)
  b2 ← read bytes (p + 2)
  b3 ← read bytes (p + 3)
  b4 ← read bytes (p + 4)
  b5 ← read bytes (p + 5)
  go (clock_value b0 b1 b2 b3 b4 b5)

-- Each block under a flag takes and returns `*dst` and `p`.
pub read_pcr : List ℕ → ℕ → Adapt → ℕ → Flow (Adapt × ℕ)
read_pcr bytes tail dst p = if dst.pcr_flag == 0 then go (dst, p) else do
  check_end (p + 6) tail
  clock ← read_clock bytes p
  go (record dst { program_clock_reference = clock }, p + 6)

pub read_opcr : List ℕ → ℕ → Adapt → ℕ → Flow (Adapt × ℕ)
read_opcr bytes tail dst p = if dst.opcr_flag == 0 then go (dst, p) else do
  check_end (p + 6) tail
  clock ← read_clock bytes p
  go (record dst { original_program_clock_reference = clock }, p + 6)

pub read_splice : List ℕ → ℕ → Adapt → ℕ → Flow (Adapt × ℕ)
read_splice bytes tail dst p = if dst.splicing_point_flag == 0 then go (dst, p) else do
  check_end (p + 1) tail
  b ← read bytes p
  go (record dst { splice_countdown = b }, p + 1)

pub read_private : List ℕ → ℕ → Adapt → ℕ → Flow (Adapt × ℕ)
read_private bytes tail dst p = if dst.transport_private_data_flag == 0 then go (dst, p) else do
  check_end (p + 1) tail
  n ← read bytes p
  check_end (p + (1 + n)) tail
  go (record dst { transport_private_data_length = n }, p + (1 + n))

-- The blocks of the extension also carry `n`, the bytes left in it. `n -= 1` can make it
-- negative, so it is kept as `left` with `n + 1 = left`.
pub read_ltw : List ℕ → Adapt → ℕ → ℕ → Flow (Adapt × ℕ × ℕ)
read_ltw bytes dst p left = if dst.ltw_flag == 0 then go (dst, p, left) else do
  check_end (1 + 2) left
  b0 ← read bytes p
  b1 ← read bytes (p + 1)
  let dst' = record dst {
    ltw_valid_flag = bit_and (b0 >>> 7) 1;
    ltw_offset = bit_or (bit_and b0 0x7f <<< 8) b1;
  }
  go (dst', p + 2, left - 2)

pub read_piecewise : List ℕ → Adapt → ℕ → ℕ → Flow (Adapt × ℕ × ℕ)
read_piecewise bytes dst p left = if dst.piecewise_rate_flag == 0 then go (dst, p, left) else do
  check_end (1 + 3) left
  b0 ← read bytes p
  b1 ← read bytes (p + 1)
  b2 ← read bytes (p + 2)
  let rate = bit_or (bit_or (bit_and b0 0x3f <<< 16) (b1 <<< 8)) b2
  go (record dst { piecewise_rate = rate }, p + 3, left - 3)

pub dts_value : ℕ → ℕ → ℕ → ℕ → ℕ → ℕ
dts_value b0 b1 b2 b3 b4 =
    let high = bit_or (bit_or (bit_and b0 0x0e <<< 14) (b1 <<< 7)) (bit_and (b2 >>> 1) 0x7f) in
    let low = bit_or (b3 <<< 7) (bit_and (b4 >>> 1) 0x7f) in bit_or (u64 (high <<< 15)) low

pub read_seamless : List ℕ → Adapt → ℕ → ℕ → Flow Adapt
read_seamless bytes dst p left = if dst.seamless_splice_flag == 0 then go dst else do
  check_end (1 + 5) left
  b0 ← read bytes p
  b1 ← read bytes (p + 1)
  b2 ← read bytes (p + 2)
  b3 ← read bytes (p + 3)
  b4 ← read bytes (p + 4)
  go (record dst { splice_type = bit_and (b0 >>> 4) 0x0f; dts_next_au = dts_value b0 b1 b2 b3 b4 })

pub read_extension : List ℕ → ℕ → Adapt → ℕ → Flow Adapt
read_extension bytes tail dst p = if dst.adaptation_field_extension_flag == 0 then go dst else do
  check_end (p + 2) tail
  n ← read bytes p
  check_end (p + 1 + n) tail
  b ← read bytes (p + 1)
  let dst' = record dst {
    adaptation_field_extension_length = n;
    ltw_flag = bit_and (b >>> 7) 1;
    piecewise_rate_flag = bit_and (b >>> 6) 1;
    seamless_splice_flag = bit_and (b >>> 5) 1;
  }
  (dst₁, p₁, left₁) ← read_ltw bytes dst' (p + 2) n
  (dst₂, p₂, left₂) ← read_piecewise bytes dst₁ p₁ left₁
  read_seamless bytes dst₂ p₂ left₂

-- The body behind the check of the length.
pub read_fields : List ℕ → ℕ → Flow Adapt
read_fields bytes len = do
  let tail = 1 + len
  check_end (1 + 1) tail
  flags ← read bytes 1
  (dst₁, p₁) ← read_pcr bytes tail (read_flags len flags) 2
  (dst₂, p₂) ← read_opcr bytes tail dst₁ p₁
  (dst₃, p₃) ← read_splice bytes tail dst₂ p₂
  (dst₄, p₄) ← read_private bytes tail dst₃ p₃
  read_extension bytes tail dst₄ p₄

abbrev pub finish : Flow Adapt → Option Adapt
finish (go dst) = some dst
finish clear_and_return = some adapt_zero
finish fault = none

-- The new `*dst`; `none` is a read past the data.
pub extract_adaptation_field : List ℕ → Option Adapt
extract_adaptation_field bytes = finish (do
  len ← read bytes 0
  if len == 0 || ltb 183 len then clear_and_return else read_fields bytes len)
