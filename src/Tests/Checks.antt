-- ===== src/Tests/Checks.antt =====
-- The CRC of small sections.
use tsanalytics.Base.{
  ℕ, ◌≡◌, refl, List, [], ◌∷◌, ◌++◌, some, take, replicate, replicate-IsBytes, arith,
}
use tsanalytics.Crc.{crc_loop, crc32, crc32_check}
use tsanalytics.Crc.Table.{crc_table}
use tsanalytics.Crc.Bitwise.{crc_bitwise, crc32-crc_bitwise}
use tsanalytics.Crc.Changed.{crc_bytes, set_at}
use tsanalytics.Crc.Detect.{IsFront, crc32_check-appended, crc32_check-damaged}

-- The part of a section of the TOT in front of its CRC.
abbrev front : List ℕ
front = 0x73 ∷ 0x70 ∷ 7 ∷ 0xc0 ∷ 0x79 ∷ 0x12 ∷ []

front-IsFront : IsFront front
front-IsFront = record { bytes = omega arith; three = omega arith; len = refl }

crc32-crc_bitwise_example : crc32 front 5 ≡ some (crc_bitwise 0xffffffff (take 5 front))
crc32-crc_bitwise_example = crc32-crc_bitwise front 5 (omega arith) (omega arith)

crc32_check-appended_example :
    crc32_check (front ++ (crc_bytes (crc_bitwise 0xffffffff front) ++ replicate 5 0)) ≡ some 1
crc32_check-appended_example =
    crc32_check-appended front (replicate 5 0) front-IsFront (replicate-IsBytes 5) (omega arith)

crc32_check-damaged_example :
    crc32_check (set_at 5 0x13 (front ++ crc_bytes (crc_bitwise 0xffffffff front)) ++ replicate 5 0)
    ≡ some 0
crc32_check-damaged_example =
    crc32_check-damaged front (replicate 5 0) 5 0x13 front-IsFront (omega arith) (omega arith)
      (omega arith) (omega arith) (replicate-IsBytes 5) (omega arith)

-- The CRC of a table's first three bytes.
crc32_three : crc32 (0x73 ∷ 0x70 ∷ 4 ∷ []) 3 ≡ some 0x8709467c
unfolding crc32 crc_loop crc_table
crc32_three = refl
