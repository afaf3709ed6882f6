-- ===== src/Crc/Total.antt =====
-- The check of a section reads inside the block that holds it, and so always returns.
use tsanalytics.Base.{
  ℕ, zero, suc, ◌+◌, ◌-◌, ◌*◌, ◌%◌, ◌^◌, ◌≤◌, ◌<◌, ◌==◌, ◌≡◌, refl, ap, ◌∙◌, bit_and_mask, bit_xor,
  if◌then◌else◌, List, some, ◌>>=◌, get_or, get_elem?-eq-get_or, length, IsBytes, byte_at,
  byte_at-lt, u16, u32, u64, ◌<<<◌, ◌>>>◌, arith,
}
use native.Mathlib.Nat.{mod-eq_of_lt}
use tsanalytics.GetBit.{get_bit}
use tsanalytics.GetBit.Word.{word}
use tsanalytics.GetBit.Field.{field, bits, bits-lt}
use tsanalytics.GetBit.Stream.{Fits, get_bit-field, get_bit-bits}
use tsanalytics.Crc.{crc_index, crc_loop, crc32, crc32_check}
use tsanalytics.Crc.Table.{crc_table}

length-crc_table : length crc_table ≡ 256
unfolding crc_table
length-crc_table = refl

-- The index of every round lies in the table.
pub in_table : (crc byte : ℕ) → crc_index crc byte < length crc_table
in_table crc byte = omega (arith, length-crc_table, bit_and_mask 8 (bit_xor (crc >>> 24) byte))

crc_loop-total :
    (bytes : List ℕ) (left i crc : ℕ)
    → i + left ≤ length bytes
    → (r : ℕ) × (crc_loop bytes left i crc ≡ some r)
unfolding crc_loop
crc_loop-total bytes zero i crc h = (crc, refl)
crc_loop-total bytes (suc left) i crc h =
    let byte : ℕ = get_or bytes i 0 in
    let entry : ℕ = get_or crc_table (crc_index crc byte) 0 in
    let (r, e) =
      crc_loop-total bytes left (i + 1) (bit_xor (u32 (crc <<< 8)) entry) (omega arith) in
    (
      r,
      rw
          (
            get_elem?-eq-get_or bytes i 0 (omega arith),
            get_elem?-eq-get_or crc_table (crc_index crc byte) 0 (in_table crc byte),
            ◌>>=◌,
          )
          e,
    )

-- The length of the section in a block, from its second and third byte.
abbrev pub section_length : List ℕ → ℕ
section_length block = byte_at block 1 % 16 * 256 + byte_at block 2

module _ (block : List ℕ) (b : IsBytes block) (long : 4 ≤ section_length block)
    (room : section_length block + 8 ≤ length block) where
  lt : (i : ℕ) → byte_at block i < 256
  lt i = byte_at-lt block i b

  get_length : get_bit block 12 12 ≡ some (section_length block, 24)
  get_length = get_bit-field block 12 12 b (omega arith) ∙ ap (λ v. some (v, 24)) value
    where
      value : field block 12 12 ≡ section_length block
      value = unfold field word in omega (arith, lt)

  -- On a block of bytes whose section has room for a CRC, and that goes on for at least five
  -- bytes behind the section, the check compares the number that the last 32 bits of the section
  -- spell with the CRC of the bytes in front of them.
  crc32_check-stored :
      (calculated : ℕ)
      → crc32 block (section_length block - 1) ≡ some calculated
      → crc32_check block
        ≡ some (if bits block (section_length block * 8 - 8) 32 == calculated then 1 else 0)
  unfolding crc32_check
  crc32_check-stored calculated e =
      rw
        (
          get_length,
          ◌>>=◌,
          at_crc,
          get_bit-bits block (section_length block * 8 - 8) 32 b fits,
          rounds,
          e,
          mod-eq_of_lt (bits-lt block (section_length block * 8 - 8) 32),
        )
        refl
    where
      at_crc :
          u64 (2 ^ 64 + 24 + u16 (section_length block) * 8 - 32) ≡ section_length block * 8 - 8
      at_crc = omega (arith, lt 1, lt 2)

      rounds : u16 (section_length block) + 3 - 4 ≡ section_length block - 1
      rounds = omega (arith, lt 1, lt 2)

      fits : Fits block (section_length block * 8 - 8) 32
      fits = omega (arith, lt 1, lt 2)

  -- On a block of bytes whose section has room for a CRC, and that goes on for at least five
  -- bytes behind the section, the check returns 0 or 1.
  pub crc32_check-total : (r : ℕ) × (crc32_check block ≡ some r) × (r ≤ 1)
  unfolding crc32
  crc32_check-total =
      let (calculated, e) =
        crc_loop-total block (section_length block - 1) 0 0xffffffff (omega arith) in
      (
        if bits block (section_length block * 8 - 8) 32 == calculated then 1 else 0,
        crc32_check-stored calculated e,
        ground arith,
      )
