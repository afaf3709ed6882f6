-- ===== src/Eit/Descs.antt =====
-- The loop over the descriptors of an event.
use mathlib.Core.List.{append_assoc}
use mathlib.Core.Path.{ap₂}
use tsanalytics.Base.{
  ℕ, zero, suc, ◌+◌, ◌*◌, ◌/◌, ◌^◌, ◌≤◌, ◌<◌, ◌≡◌, refl, sym, ap, ◌∙◌, leb, true, false, List, [],
  ◌∷◌, ◌++◌, some, length, length-append, get_or-append, take-drop-append, IsBytes, byte_at,
  byte_at-lt, u8, u64, arith,
}
use tsanalytics.GetBit.{get_bit}
use tsanalytics.GetBit.Word.{word}
use tsanalytics.GetBit.Stream.{get_at}
use tsanalytics.Reader.{◌>>=◌}
use tsanalytics.Eit.{bytes_at, read_desc, desc_loop}
use tsanalytics.Eit.Encode.{
  DescSource, IsDescSource, AllDescs, desc_of, descs_of, encode_desc, encode_descs,
}

-- The length of a list in three parts.
pub length_behind :
    (buf front xs rest : List ℕ)
    → buf ≡ front ++ (xs ++ rest)
    → length buf ≡ length front + (length xs + length rest)
length_behind buf front xs rest e =
    ap length e
    ∙ length-append front (xs ++ rest)
    ∙ ap (λ n. length front + n) (length-append xs rest)

-- A copy of bytes that stand behind a list in front.
pub bytes_at-append :
    (buf front xs rest : List ℕ) (off : ℕ)
    → buf ≡ front ++ (xs ++ rest)
    → off ≡ length front * 8
    → bytes_at buf (length xs) off ≡ some (xs, off)
unfolding bytes_at
bytes_at-append buf front xs rest off e at =
    rw (byte, inside, e) (ap (λ t. some (t, off)) (take-drop-append front xs rest))
  where
    byte : off / 8 ≡ length front
    byte = omega (arith, at)

    total : length buf ≡ length front + (length xs + length rest)
    total = length_behind buf front xs rest e

    inside : leb (length front + length xs) (length buf) ≡ true
    inside = ground (arith, total)

module _ (buf : List ℕ) (b : IsBytes buf) (small : length buf ≤ 2 ^ 38) where
  lt : (i : ℕ) → byte_at buf i < 256
  lt i = byte_at-lt buf i b

  -- The value of a byte behind a list in front.
  pub byte_behind :
      (front rest : List ℕ) (n : ℕ)
      → buf ≡ front ++ rest
      → byte_at buf (length front + n) ≡ byte_at rest n
  byte_behind front rest n e = rw e (get_or-append front rest n 0)

  read_desc-encode :
      (front : List ℕ) (d : DescSource) (rest : List ℕ)
      → IsDescSource d
      → buf ≡ front ++ (encode_desc d ++ rest)
      → 7 ≤ length rest
      → read_desc buf (length front * 8)
        ≡ some (desc_of d, (length front + (2 + length d.payload)) * 8)
  unfolding read_desc word
  read_desc-encode front d rest i e room =
      rw
        (
          tag,
          ◌>>=◌,
          len,
          len_small,
          bytes_at-append buf (front ++ (d.tag ∷ length d.payload ∷ [])) d.payload rest
              (length front * 8 + 16) split behind,
        )
        (ap₂ (λ p o. some (p, o))
          (λ j. record {
            descriptor_tag = tag_small j;
            descriptor_length = len_small j;
            payload = d.payload;
          })
          (omega (arith, i.short, total)))
    where
      k : ℕ
      k = length front

      total : length buf ≡ length front + (2 + length d.payload + length rest)
      total = omega (arith, length_behind buf front (encode_desc d) rest e)

      first : byte_at buf k ≡ d.tag
      first = ap (byte_at buf) (omega arith) ∙ byte_behind front (encode_desc d ++ rest) 0 e

      second : byte_at buf (k + 1) ≡ length d.payload
      second = byte_behind front (encode_desc d ++ rest) 1 e

      tag : get_bit buf (length front * 8) 8 ≡ some (d.tag, length front * 8 + 8)
      tag =
          get_at buf b (length front * 8) k 0 8 (omega arith) (omega arith) (omega (arith, total))
            (omega (arith, lt, first)) refl

      len : get_bit buf (length front * 8 + 8) 8 ≡ some (length d.payload, length front * 8 + 16)
      len =
          get_at buf b (length front * 8 + 8) (k + 1) 0 8 (omega arith) (omega arith)
            (omega (arith, total)) (omega (arith, lt, second)) (omega arith)

      tag_small : u8 d.tag ≡ d.tag
      tag_small = omega (arith, i.tag)

      len_small : u8 (length d.payload) ≡ length d.payload
      len_small = omega (arith, i.short)

      split : buf ≡ (front ++ (d.tag ∷ length d.payload ∷ [])) ++ (d.payload ++ rest)
      split = e ∙ sym (append_assoc front (d.tag ∷ length d.payload ∷ []) (d.payload ++ rest))

      behind : length front * 8 + 16 ≡ length (front ++ (d.tag ∷ length d.payload ∷ [])) * 8
      behind = omega (arith, length-append front (d.tag ∷ length d.payload ∷ []))

  -- The loop reads the descriptors that stand in front of `rest`.
  pub desc_loop-encode :
      (left loaded loop_length : ℕ) (front : List ℕ) (ds : List DescSource) (rest : List ℕ)
      → AllDescs ds
      → buf ≡ front ++ (encode_descs ds ++ rest)
      → 7 ≤ length rest
      → loop_length ≡ loaded + length (encode_descs ds)
      → loop_length < 4096
      → length ds ≤ left
      → desc_loop left buf loop_length loaded (length front * 8)
        ≡ some (descs_of ds, (length front + length (encode_descs ds)) * 8)
  unfolding desc_loop
  desc_loop-encode zero loaded loop_length front [] rest i e room len short few =
      ap (λ o. some ([], o)) (omega arith)
  desc_loop-encode (suc left) loaded loop_length front [] rest i e room len short few =
      let done : leb loop_length loaded ≡ true = ground arith in
      rw (desc_loop, done) (ap (λ o. some ([], o)) (omega arith))
  desc_loop-encode zero loaded loop_length front (d ∷ ds) rest i e room len short few =
      absurd (omega arith)
  desc_loop-encode (suc left) loaded loop_length front (d ∷ ds) rest i e room len short few =
      let all : length (encode_descs (d ∷ ds)) ≡ 2 + length d.payload + length (encode_descs ds) =
        omega (arith, length-append d.payload (encode_descs ds)) in
      let more : leb loop_length loaded ≡ false = ground (arith, all) in
      let front' : List ℕ = front ++ encode_desc d in
      let behind : length front' ≡ length front + (2 + length d.payload) =
        omega (arith, length-append front (encode_desc d)) in
      let split : buf ≡ front ++ (encode_desc d ++ (encode_descs ds ++ rest)) =
        e ∙ ap (λ t. front ++ t) (append_assoc (encode_desc d) (encode_descs ds) rest) in
      let loaded' : u64 (loaded + length d.payload + 2) ≡ loaded + length d.payload + 2 =
        omega (arith, all) in
      rw
        (
          desc_loop,
          more,
          ◌>>=◌,
          read_desc-encode front d (encode_descs ds ++ rest) i.0 split
              (omega (arith, length-append (encode_descs ds) rest)),
          loaded',
          sym behind,
          desc_loop-encode left (loaded + length d.payload + 2) loop_length front' ds rest i.1
              (split ∙ sym (append_assoc front (encode_desc d) (encode_descs ds ++ rest))) room
              (omega (arith, all)) short (omega arith),
        )
        (ap (λ o. some (desc_of d ∷ descs_of ds, o)) (omega (arith, all)))
