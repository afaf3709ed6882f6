-- ===== src/SectionHeader.antt =====
-- The fields that the sections of the tables begin with.
use tsanalytics.Base.{
  ℕ, ◌+◌, ◌*◌, ◌/◌, ◌%◌, ◌≤◌, ◌<◌, ◌≡◌, refl, List, some, length, IsBytes, byte_at, byte_at-lt,
  arith,
}
use tsanalytics.GetBit.{get_bit}
use tsanalytics.GetBit.Word.{word}
use tsanalytics.Crc.Total.{section_length}
use tsanalytics.GetBit.Stream.{get_at}

module _ (buf : List ℕ) (b : IsBytes buf) (header : 15 ≤ length buf) where
  lt : (i : ℕ) → byte_at buf i < 256
  lt i = byte_at-lt buf i b

  pub get_table : get_bit buf 0 8 ≡ some (byte_at buf 0, 8)
  unfolding word
  get_table = get_at buf b 0 0 0 8 refl (omega arith) (omega arith) (omega (arith, lt)) refl

  pub get_syntax : get_bit buf 8 1 ≡ some (byte_at buf 1 / 128, 9)
  unfolding word
  get_syntax = get_at buf b 8 1 0 1 refl (omega arith) (omega arith) (omega (arith, lt)) refl

  pub get_zero : get_bit buf 9 1 ≡ some (byte_at buf 1 / 64 % 2, 10)
  unfolding word
  get_zero = get_at buf b 9 1 1 1 refl (omega arith) (omega arith) (omega (arith, lt)) refl

  pub get_reserved : get_bit buf 10 2 ≡ some (byte_at buf 1 / 16 % 4, 12)
  unfolding word
  get_reserved = get_at buf b 10 1 2 2 refl (omega arith) (omega arith) (omega (arith, lt)) refl

  pub get_length : get_bit buf 12 12 ≡ some (section_length buf, 24)
  unfolding word
  get_length = get_at buf b 12 1 4 12 refl (omega arith) (omega arith) (omega (arith, lt)) refl

  pub get_stream : get_bit buf 24 16 ≡ some (byte_at buf 3 * 256 + byte_at buf 4, 40)
  unfolding word
  get_stream = get_at buf b 24 3 0 16 refl (omega arith) (omega arith) (omega (arith, lt)) refl

  pub get_reserved' : get_bit buf 40 2 ≡ some (byte_at buf 5 / 64, 42)
  unfolding word
  get_reserved' = get_at buf b 40 5 0 2 refl (omega arith) (omega arith) (omega (arith, lt)) refl

  pub get_version : get_bit buf 42 5 ≡ some (byte_at buf 5 / 2 % 32, 47)
  unfolding word
  get_version = get_at buf b 42 5 2 5 refl (omega arith) (omega arith) (omega (arith, lt)) refl

  pub get_current : get_bit buf 47 1 ≡ some (byte_at buf 5 % 2, 48)
  unfolding word
  get_current = get_at buf b 47 5 7 1 refl (omega arith) (omega arith) (omega (arith, lt)) refl

  pub get_section : get_bit buf 48 8 ≡ some (byte_at buf 6, 56)
  unfolding word
  get_section = get_at buf b 48 6 0 8 refl (omega arith) (omega arith) (omega (arith, lt)) refl

  pub get_last : get_bit buf 56 8 ≡ some (byte_at buf 7, 64)
  unfolding word
  get_last = get_at buf b 56 7 0 8 refl (omega arith) (omega arith) (omega (arith, lt)) refl
