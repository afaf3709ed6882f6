-- ===== src/Crc/Detect.antt =====
-- What the check of a section accepts, and that it finds a damaged byte.
use mathlib.Core.List.{append_assoc}
use tsanalytics.Base.{
  ℕ, ◌+◌, ◌-◌, ◌*◌, ◌/◌, ◌^◌, ◌≤◌, ◌<◌, ◌==◌, ◌≡◌, ◌≢◌, refl, sym, ap, ◌∙◌, if◌then◌else◌, List,
  ◌++◌, some, ◌>>=◌, length, length-append, take-append_left, take_all, get_or-append,
  get_or-append_left, IsBytes, append-IsBytes, byte_at, byte_at-lt, u16, u32, u64, arith, ltb,
  Bool-cases, inl, inr,
}
use tsanalytics.GetBit.{get_bit}
use tsanalytics.GetBit.Word.{word}
use tsanalytics.GetBit.Stream.{get_at}
use tsanalytics.Crc.{crc32, crc32_check}
use tsanalytics.Crc.Bitwise.{crc_bitwise, crc32-crc_bitwise}
use tsanalytics.Crc.Total.{section_length}
use tsanalytics.Crc.Changed.{
  crc_bytes, crc_bytes-IsBytes, crc_bitwise-lt, set_at, length-set_at, set_at-IsBytes,
  byte_at-set_at, set_at-append_left, set_at-append_right, crc_bitwise-set_at, set_at-crc_bytes,
}

-- The first bytes of a section: its length says that four bytes follow them.
pub record IsFront (front : List ℕ) : Type 0 where
  pub bytes : IsBytes front
  pub three : 3 ≤ length front
  pub len : section_length front ≡ length front + 1

-- The check of a section with a CRC behind its front.
crc32_check-crc_bytes :
    (front rest : List ℕ) (c : ℕ)
    → IsFront front
    → IsBytes rest
    → 5 ≤ length rest
    → c < 2 ^ 32
    → crc32_check (front ++ (crc_bytes c ++ rest))
      ≡ some (if c == crc_bitwise 0xffffffff front then 1 else 0)
unfolding crc32_check word
crc32_check-crc_bytes front rest c f b room h =
    rw (get_length, ◌>>=◌, at_crc, get_crc, rounds, calculated, c_small)
  where
    buf : List ℕ
    buf = front ++ (crc_bytes c ++ rest)

    bytes : IsBytes buf
    bytes =
        append-IsBytes front (crc_bytes c ++ rest) f.bytes
          (append-IsBytes (crc_bytes c) rest (crc_bytes-IsBytes c h) b)

    lt : (i : ℕ) → byte_at buf i < 256
    lt i = byte_at-lt buf i bytes

    total : length buf ≡ length front + (4 + length rest)
    total = omega (arith, length-append front (crc_bytes c ++ rest))

    n : ℕ
    n = length front

    at : (i : ℕ) → byte_at buf (n + i) ≡ byte_at (crc_bytes c ++ rest) i
    at i = get_or-append front (crc_bytes c ++ rest) i 0

    first : byte_at buf n ≡ c / 2 ^ 24
    first = ap (byte_at buf) (omega arith) ∙ at 0

    same_length : section_length buf ≡ n + 1
    same_length = omega (
      arith,
      f.len,
      get_or-append_left front (crc_bytes c ++ rest) 1 0 (omega (arith, f.three)),
      get_or-append_left front (crc_bytes c ++ rest) 2 0 (omega (arith, f.three)),
    )

    get_length : get_bit buf 12 12 ≡ some (section_length buf, 24)
    get_length =
        get_at buf bytes 12 1 4 12 (omega arith) (omega arith) (omega (arith, total, f.three))
          (omega (arith, lt)) refl

    at_crc : u64 (2 ^ 64 + 24 + u16 (section_length buf) * 8 - 32) ≡ n * 8
    at_crc = omega (arith, lt 1, lt 2, same_length)

    get_crc : get_bit buf (n * 8) 32 ≡ some (c, n * 8 + 32)
    get_crc =
        get_at buf bytes (n * 8) n 0 32 (omega arith) (omega arith)
          (omega (arith, total, same_length, lt 1, lt 2))
          (omega (arith, lt, first, at 1, at 2, at 3)) refl

    rounds : u16 (section_length buf) + 3 - 4 ≡ n
    rounds = omega (arith, lt 1, lt 2, same_length)

    calculated : crc32 buf n ≡ some (crc_bitwise 0xffffffff front)
    calculated =
        crc32-crc_bitwise buf n bytes (omega (arith, total))
        ∙ ap (λ t. some (crc_bitwise 0xffffffff t))
            (take-append_left front (crc_bytes c ++ rest) n (omega arith)
              ∙ take_all n front (omega arith))

    c_small : u32 c ≡ c
    c_small = omega arith

-- A section with the CRC of its front behind it, in a block of bytes that goes on for at least
-- five: the check accepts it.
pub crc32_check-appended :
    (front rest : List ℕ)
    → IsFront front
    → IsBytes rest
    → 5 ≤ length rest
    → crc32_check (front ++ (crc_bytes (crc_bitwise 0xffffffff front) ++ rest)) ≡ some 1
crc32_check-appended front rest f b room =
    crc32_check-crc_bytes front rest (crc_bitwise 0xffffffff front) f b room
      (crc_bitwise-lt front 0xffffffff f.bytes (omega arith))
    ∙ ground arith

set_at-IsFront :
    (i y : ℕ) (front : List ℕ) → 3 ≤ i → y < 256 → IsFront front → IsFront (set_at i y front)
set_at-IsFront i y front h k f = record {
  bytes = set_at-IsBytes i y front k f.bytes;
  three = omega (arith, length-set_at i y front, f.three);
  len = omega (
    arith,
    f.len,
    length-set_at i y front,
    byte_at-set_at i 1 y front (omega arith),
    byte_at-set_at i 2 y front (omega arith),
  );
}

-- A section of a front and its CRC, in a block of bytes that goes on for at least five, with one
-- byte changed to another: any byte of the front or of the CRC but the three with the section's
-- length. The check refuses it.
pub crc32_check-damaged :
    (front rest : List ℕ) (i y : ℕ)
    → IsFront front
    → 3 ≤ i
    → i < length front + 4
    → y < 256
    → y ≢ byte_at (front ++ crc_bytes (crc_bitwise 0xffffffff front)) i
    → IsBytes rest
    → 5 ≤ length rest
    → crc32_check (set_at i y (front ++ crc_bytes (crc_bitwise 0xffffffff front)) ++ rest) ≡ some 0
crc32_check-damaged front rest i y f behind inside small ne b room =
    elim (Bool-cases (ltb i (length front))) [
      | inl e ↦
          let near : i < length front = ground arith in
          rw (set_at-append_left i y front (crc_bytes crc) near, append_assoc)
            (crc32_check-crc_bytes (set_at i y front) rest crc
                (set_at-IsFront i y front behind small f) b room crc-lt
              ∙ ground (arith, in_front near))
      | inr e ↦
          let k : ℕ = i - length front in
          let at : i ≡ length front + k = ground arith in
          let (d, lt, other, same) =
            set_at-crc_bytes k y crc (omega arith) small crc-lt (in_crc k at) in
          rw (set_at-append_right i k y front (crc_bytes crc) at, same, append_assoc)
            (crc32_check-crc_bytes front rest d f b room lt ∙ ground (arith, other))
    ]
  where
    crc : ℕ
    crc = crc_bitwise 0xffffffff front

    crc-lt : crc < 2 ^ 32
    crc-lt = crc_bitwise-lt front 0xffffffff f.bytes (omega arith)

    in_front : i < length front → crc ≢ crc_bitwise 0xffffffff (set_at i y front)
    in_front near e = ne (
        crc_bitwise-set_at i y front 0xffffffff near small f.bytes (omega arith) e
        ∙ sym (get_or-append_left front (crc_bytes crc) i 0 near))

    in_crc : (k : ℕ) → i ≡ length front + k → y ≢ byte_at (crc_bytes crc) k
    in_crc k at e = ne (
        e
        ∙ sym (get_or-append front (crc_bytes crc) k 0)
        ∙ ap (byte_at (front ++ crc_bytes crc)) (sym at))
