-- ===== src/Crc.antt =====
-- m2tlib/crc32.c: the table-driven CRC of a section and the check of its last four bytes.
pub mod Table
pub mod Total
pub mod Bitwise
pub mod Changed
pub mod Detect
use Table.{crc_table}
use tsanalytics.Base.{
  ℕ, zero, suc, ◌+◌, ◌-◌, ◌*◌, ◌^◌, ◌==◌, bit_and, bit_xor, if◌then◌else◌, List, Option, none, some,
  ◌>>=◌, get_elem?, u16, u32, u64, ◌<<<◌, ◌>>>◌,
}
use tsanalytics.GetBit.{get_bit}

-- The index of a byte in the table. The byte is a `char`; widened to `unsigned` it keeps its low
-- eight bits, which are all that the mask leaves.
abbrev pub crc_index : ℕ → ℕ → ℕ
crc_index crc byte = bit_and (bit_xor (crc >>> 24) byte) 0xff

-- The loop at `i`, with `left` of its rounds to go.
unfoldable pub crc_loop : List ℕ → ℕ → ℕ → ℕ → Option ℕ
crc_loop bytes zero i crc = some crc
crc_loop bytes (suc left) i crc = do
  byte ← get_elem? bytes i
  entry ← get_elem? crc_table (crc_index crc byte)
  crc_loop bytes left (i + 1) (bit_xor (u32 (crc <<< 8)) entry)

-- `len` is an `int`; one below 1 makes no round.
unfoldable pub crc32 : List ℕ → ℕ → Option ℕ
crc32 bytes len = crc_loop bytes len 0 0xffffffff

-- `section_length - 4` is negative for a section shorter than its CRC; widened to `uint64_t` it
-- wraps, and `section_length + 3 - 4` is then below 1 only at 0.
pub crc32_check : List ℕ → Option ℕ
crc32_check packet = do
  (len, boff) ← get_bit packet 12 12
  let section_length = u16 len
  (stored, boff') ← get_bit packet (u64 (2 ^ 64 + boff + section_length * 8 - 32)) 32
  calculated ← crc32 packet (section_length + 3 - 4)
  some (if u32 stored == calculated then 1 else 0)
