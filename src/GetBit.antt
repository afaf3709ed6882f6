-- ===== src/GetBit.antt =====
-- m2tlib/util.c: `getBit`, which reads a bit field of a buffer through a 64-bit word.
pub mod Word
pub mod Field
pub mod Stream
use tsanalytics.Base.{
  ℕ, zero, suc, ◌+◌, ◌-◌, ◌*◌, ◌/◌, bit_or, List, Option, none, some, get_elem?, ltb, if◌then◌else◌,
  u64, ◌<<<◌, ◌>>>◌, ◌-u64◌, ◌>>=◌,
}

-- The loop at `i`, with `left` of its 8 rounds to go: `tnum | buf[pbyte + i - 1] << (8 - i) * 8`.
unfoldable pub load_word : List ℕ → ℕ → ℕ → ℕ → ℕ → Option ℕ
load_word buf pbyte zero i tnum = some tnum
load_word buf pbyte (suc left) i tnum = do
  byte ← get_elem? buf (pbyte + i - 1)
  let tmp = u64 (byte <<< ((8 - i) * 8))
  load_word buf pbyte left (i + 1) (bit_or tnum tmp)

-- The value of the field and the offset behind it. A read past the buffer and a shift by 64
-- or more are undefined.
unfoldable pub get_bit : List ℕ → ℕ → ℕ → Option (ℕ × ℕ)
get_bit buf boff gbit = do
  let pbyte = boff / 8
  tnum ← load_word buf pbyte 8 1 0
  let fcutbit = boff - pbyte * 8
  let tnum_high = u64 (tnum <<< fcutbit)
  let tnum_cut = tnum_high >>> fcutbit
  let shift = 64 -u64 fcutbit -u64 gbit
  if ltb shift 64 then some (tnum_cut >>> shift, u64 (boff + gbit)) else none
