-- ===== src/Crc/Bitwise.antt =====
-- The CRC bit by bit, and the table-driven loop against it.
use tsanalytics.Base.{
  ℕ, zero, suc, ◌+◌, ◌*◌, ◌/◌, ◌%◌, ◌^◌, ◌≤◌, ◌<◌, ◌==◌, ◌≡◌, refl, sym, ap, ◌∙◌, ==_iff, Bool,
  true, bit_xor, bit_and_mask, List, [], ◌∷◌, some, ◌>>=◌, get_or, get_elem?-eq-get_or, length,
  take, drop, IsBytes, byte_at-lt, u32, ◌<<<◌, ◌>>>◌, arith, bit_xor_comm, bit_xor_assoc,
  bit_xor-zero, bit_xor-lt, bit_xor_fields, bit_xor-double, all_below, all_below-apply, drop-cons,
}
use mathlib.Core.Path.{ap₂}
use native.Mathlib.Nat.{one-le-pow, pow-suc}
use tsanalytics.Crc.{crc_index, crc_loop, crc32}
use tsanalytics.Crc.Table.{crc_table}
use tsanalytics.Crc.Total.{in_table}

-- The CRC-32 of MPEG-2, bit by bit: the top bit is shifted out, and the polynomial is put in
-- where it was set.
unfoldable pub crc_bit : ℕ → ℕ
crc_bit c = bit_xor (c % 2 ^ 31 * 2) (c / 2 ^ 31 * 0x04c11db7)

unfoldable pub crc_bits : ℕ → ℕ → ℕ
unfolding crc_bit
crc_bits zero c = c
crc_bits (suc n) c = crc_bits n (crc_bit c)

-- A byte is put in at the top, and eight bits are shifted out.
abbrev pub crc_byte : ℕ → ℕ → ℕ
crc_byte c byte = crc_bits 8 (bit_xor c (byte * 2 ^ 24))

unfoldable pub crc_bitwise : ℕ → List ℕ → ℕ
crc_bitwise c [] = c
crc_bitwise c (byte ∷ rest) = crc_bitwise (crc_byte c byte) rest

pub crc_bit-lt : (c : ℕ) → c < 2 ^ 32 → crc_bit c < 2 ^ 32
unfolding crc_bit
crc_bit-lt c h =
    bit_xor-lt 32 (c % 2 ^ 31 * 2) (c / 2 ^ 31 * 0x04c11db7) (omega arith) (omega arith)

crc_bits-lt : (n c : ℕ) → c < 2 ^ 32 → crc_bits n c < 2 ^ 32
unfolding crc_bits
crc_bits-lt zero c h = h
crc_bits-lt (suc n) c h = crc_bits-lt n (crc_bit c) (crc_bit-lt c h)

pub crc_byte-lt : (c byte : ℕ) → c < 2 ^ 32 → byte < 256 → crc_byte c byte < 2 ^ 32
crc_byte-lt c byte h b =
    crc_bits-lt 8 (bit_xor c (byte * 2 ^ 24)) (bit_xor-lt 32 c (byte * 2 ^ 24) h (omega arith))

-- A value without the top bit only moves up.
crc_bit-bit_xor : (x y : ℕ) → y < 2 ^ 31 → crc_bit (bit_xor x y) ≡ bit_xor (crc_bit x) (y * 2)
unfolding crc_bit
crc_bit-bit_xor x y low =
    ap₂ (λ r q. bit_xor (r * 2) (q * 0x04c11db7)) bottom top
    ∙ ap (λ t. bit_xor t p) (sym (bit_xor-double (x % 2 ^ 31) y))
    ∙ bit_xor_assoc (x % 2 ^ 31 * 2) (y * 2) p
    ∙ ap (bit_xor (x % 2 ^ 31 * 2)) (bit_xor_comm (y * 2) p)
    ∙ sym (bit_xor_assoc (x % 2 ^ 31 * 2) p (y * 2))
  where
    p : ℕ
    p = x / 2 ^ 31 * 0x04c11db7

    split : bit_xor x y ≡ bit_xor (x / 2 ^ 31) 0 * 2 ^ 31 + bit_xor (x % 2 ^ 31) y
    split =
        ap₂ bit_xor (omega arith) (omega arith)
        ∙ bit_xor_fields 31 (x / 2 ^ 31) (x % 2 ^ 31) 0 y (omega arith) low

    small : bit_xor (x % 2 ^ 31) y < 2 ^ 31
    small = bit_xor-lt 31 (x % 2 ^ 31) y (omega arith) low

    bottom : bit_xor x y % 2 ^ 31 ≡ bit_xor (x % 2 ^ 31) y
    bottom = omega (arith, split, small)

    top : bit_xor x y / 2 ^ 31 ≡ x / 2 ^ 31
    top = omega (arith, split, small, bit_xor-zero (x / 2 ^ 31))

crc_bits-bit_xor :
    (n x y : ℕ) → y * 2 ^ n < 2 ^ 32 → crc_bits n (bit_xor x y) ≡ bit_xor (crc_bits n x) (y * 2 ^ n)
unfolding crc_bits
crc_bits-bit_xor zero x y h = ap (bit_xor x) (omega arith)
crc_bits-bit_xor (suc n) x y h =
    let twice : y * 2 * 2 ^ n ≡ y * 2 ^ suc n =
      omega (arith, ap (λ (t : ℕ). y * t) (pow-suc 2 n)) in
    let low : y < 2 ^ 31 = grind (arith, twice, one-le-pow n 2) in
    ap (crc_bits n) (crc_bit-bit_xor x y low)
    ∙ crc_bits-bit_xor n (crc_bit x) (y * 2) (omega (arith, twice))
    ∙ ap (bit_xor (crc_bits n (crc_bit x))) twice

-- The table has the eight steps of every byte.
is_entry : ℕ → Bool
is_entry t = crc_bits 8 (t * 2 ^ 24) == get_or crc_table t 0

every_entry : all_below 256 is_entry ≡ true
unfolding all_below is_entry crc_bits crc_table
every_entry = refl

entry : (t : ℕ) → t < 256 → crc_bits 8 (t * 2 ^ 24) ≡ get_or crc_table t 0
unfolding is_entry
entry t h =
    (==_iff (crc_bits 8 (t * 2 ^ 24)) (get_or crc_table t 0)).0
      (all_below-apply 256 is_entry t every_entry h)

-- A round of the loop is a byte of the bitwise CRC.
crc_byte-table :
    (c byte : ℕ)
    → c < 2 ^ 32
    → byte < 256
    → bit_xor (u32 (c <<< 8)) (get_or crc_table (crc_index c byte) 0) ≡ crc_byte c byte
crc_byte-table c byte h b =
    ap₂ bit_xor moved (ap (λ t. get_or crc_table t 0) index ∙ sym (entry t small))
    ∙ bit_xor_comm (l * 2 ^ 8) (crc_bits 8 (t * 2 ^ 24))
    ∙ sym (crc_bits-bit_xor 8 (t * 2 ^ 24) l (omega arith))
    ∙ ap (crc_bits 8) (sym split)
  where
    l : ℕ
    l = c % 2 ^ 24

    t : ℕ
    t = bit_xor (c / 2 ^ 24) byte

    small : t < 256
    small = bit_xor-lt 8 (c / 2 ^ 24) byte (omega arith) (omega arith)

    index : crc_index c byte ≡ t
    index = omega (arith, bit_and_mask 8 (bit_xor (c >>> 24) byte), small)

    moved : u32 (c <<< 8) ≡ l * 2 ^ 8
    moved = omega arith

    put_in : bit_xor c (byte * 2 ^ 24) ≡ t * 2 ^ 24 + l
    put_in =
        ap₂ bit_xor (omega arith) (omega arith)
        ∙ bit_xor_fields 24 (c / 2 ^ 24) l byte 0 (omega arith) (omega arith)
        ∙ ap (λ r. t * 2 ^ 24 + r) (bit_xor-zero l)

    split : bit_xor c (byte * 2 ^ 24) ≡ bit_xor (t * 2 ^ 24) l
    split =
        put_in
        ∙ sym (
            ap₂ bit_xor (omega arith) (omega arith)
            ∙ bit_xor_fields 24 t 0 0 l (omega arith) (omega arith)
            ∙ ap₂ (λ q r. q * 2 ^ 24 + r) (bit_xor-zero t) (bit_xor_comm 0 l ∙ bit_xor-zero l))

crc_loop-crc_bitwise :
    (bytes : List ℕ) (b : IsBytes bytes) (left i c : ℕ)
    → c < 2 ^ 32
    → i + left ≤ length bytes
    → crc_loop bytes left i c ≡ some (crc_bitwise c (take left (drop i bytes)))
unfolding crc_loop crc_bitwise
crc_loop-crc_bitwise bytes b zero i c h room = refl
crc_loop-crc_bitwise bytes b (suc left) i c h room =
    rw
      (
        get_elem?-eq-get_or bytes i 0 (omega arith),
        get_elem?-eq-get_or crc_table (crc_index c (get_or bytes i 0)) 0
            (in_table c (get_or bytes i 0)),
        ◌>>=◌,
        crc_byte-table c (get_or bytes i 0) h (byte_at-lt bytes i b),
        drop-cons bytes i 0 (omega arith),
      )
      (crc_loop-crc_bitwise bytes b left (i + 1) (crc_byte c (get_or bytes i 0))
        (crc_byte-lt c (get_or bytes i 0) h (byte_at-lt bytes i b)) (omega arith))

-- For the first `len` bytes of a buffer `crc32` returns, and its table-driven loop gives the CRC
-- that is computed bit by bit from the polynomial 0x04c11db7 and the initial value 0xffffffff.
pub crc32-crc_bitwise :
    (bytes : List ℕ) (len : ℕ)
    → IsBytes bytes
    → len ≤ length bytes
    → crc32 bytes len ≡ some (crc_bitwise 0xffffffff (take len bytes))
unfolding crc32
crc32-crc_bitwise bytes len b room =
    crc_loop-crc_bitwise bytes b len 0 0xffffffff (omega arith) (omega arith)
