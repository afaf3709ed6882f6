-- ===== src/Tests/Fields.antt =====
-- Bit fields, headers and the adaptation field.
use tsanalytics.Base.{ℕ, ◌*◌, ◌≡◌, refl, List, [], ◌∷◌, some, none, arith}
use tsanalytics.Tests.Data.{padded, first_packet, first_packet-IsPacket}
use tsanalytics.GetBit.{load_word, get_bit}
use tsanalytics.GetBit.Field.{bits}
use tsanalytics.GetBit.Stream.{get_bit-bits, get_bit-none}
use tsanalytics.Adapt.{Adapt, extract_adaptation_field}
use tsanalytics.Adapt.Safety.{Extracted, extract_adaptation_field-Extracted}
use tsanalytics.Head.{Head, st_head}
use tsanalytics.Head.Decode.{Parsed, st_head-Parsed}

-- The PID of a packet, thirteen bits from bit 11 on.
get_pid : get_bit first_packet 11 13 ≡ some (0x100, 24)
unfolding get_bit load_word
get_pid = refl

get_bit-bits_example : get_bit first_packet 11 13 ≡ some (bits first_packet 11 13, 24)
get_bit-bits_example = get_bit-bits first_packet 11 13 first_packet-IsPacket.bytes (omega arith)

get_bit-none_example : get_bit first_packet (181 * 8) 8 ≡ none
get_bit-none_example = get_bit-none first_packet (181 * 8) 8 (omega arith)

-- An adaptation field with a clock reference.
abbrev clock_field : List ℕ
clock_field = padded (7 ∷ 0x90 ∷ 1 ∷ 2 ∷ 3 ∷ 4 ∷ 0x80 ∷ 5 ∷ []) 176

extract_example :
    (dst : Adapt) × (extract_adaptation_field clock_field ≡ some dst) × Extracted clock_field dst
extract_example = extract_adaptation_field-Extracted clock_field (omega arith) (λ h. omega arith)

st_head-Parsed_example :
    (head : Head) × Parsed first_packet head × ((ptr : Head) → st_head ptr first_packet ≡ some head)
st_head-Parsed_example = st_head-Parsed first_packet first_packet-IsPacket.bytes refl refl
