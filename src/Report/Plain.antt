-- ===== src/Report/Plain.antt =====
-- The output for a file that is not a transport stream.
use tsanalytics.Base.{
  ℕ, ◌/◌, ◌%◌, ◌<◌, ◌==◌, ◌≡◌, refl, ap, ◌∙◌, true, false, List, [], ◌∷◌, ◌++◌, some, ◌>>=◌, length,
  byte_at, IsBytes, all_below, all_below-apply, codes, decimal, arith,
}
use mathlib.Core.List.{append_assoc}
use tsanalytics.Digest.{Hashes, Digests, packets}
use tsanalytics.Analysis.{Locals}
use tsanalytics.Digest.Hashing.{IsStreaming, digests-whole}
use tsanalytics.Analysis.Sync.{AllUnsynced, analyze-not_ts}
use tsanalytics.Report.{hex_digit, digest_text, file_info, report, tsanalytics_text}

-- The digests of a file, computed in one piece.
abbrev pub whole_digests : (h : Hashes) → List ℕ → Digests h
whole_digests h file = record {
  md5 = h.md5.final (h.md5.update h.md5.init file);
  sha1 = h.sha1.final (h.sha1.update h.sha1.init file);
  sha256 = h.sha256.final (h.sha256.update h.sha256.init file);
  sha512 = h.sha512.final (h.sha512.update h.sha512.init file);
}

-- A byte in two digits of the base 16, looked up in their alphabet.
abbrev digit_of : ℕ → ℕ
digit_of d = byte_at (codes "0123456789abcdef") d

unfoldable pub hex_text : List ℕ → List ℕ
hex_text [] = []
hex_text (b ∷ bs) = digit_of (b / 16) ∷ digit_of (b % 16) ∷ hex_text bs

hex_digit-digit_of : (d : ℕ) → d < 16 → hex_digit d ≡ digit_of d
unfolding all_below
hex_digit-digit_of d h =
    let same : (hex_digit d == digit_of d) ≡ true =
      all_below-apply 16 (λ n. hex_digit n == digit_of n) d refl h in
    ground (arith, same)

digest_text-hex_text : (bytes : List ℕ) → IsBytes bytes → digest_text bytes ≡ hex_text bytes
unfolding digest_text hex_text
digest_text-hex_text [] b = refl
digest_text-hex_text (x ∷ xs) b = λ j.
    hex_digit-digit_of (x / 16) (omega (arith, b.0)) j
    ∷ hex_digit-digit_of (x % 16) (omega arith) j
    ∷ digest_text-hex_text xs b.1 j

-- The members of a JSON object whose values are texts, a line for each.
abbrev pub members : List (List ℕ × List ℕ) → List ℕ
members [] = []
members ((name, value) ∷ []) =
    codes "     \"" ++ (name ++ (codes "\":\"" ++ (value ++ codes "\"\n")))
members ((name, value) ∷ next ∷ rest) =
    codes "     \""
    ++ (name ++ (codes "\":\"" ++ (value ++ (codes "\",\n" ++ members (next ∷ rest)))))

-- The object for a file that is not a transport stream.
abbrev pub plain_text : {h : Hashes} → ℕ → Digests h → List ℕ
plain_text size d =
    codes "{\n  \"tsanalytics\":{\n     \"version\":\"0.06\"\n  },\n  \"FileInfo\":{\n"
    ++ members (
        (codes "size", decimal size)
        ∷ (codes "md5", hex_text d.md5)
        ∷ (codes "sha1", hex_text d.sha1)
        ∷ (codes "sha256", hex_text d.sha256)
        ∷ (codes "sha512", hex_text d.sha512)
        ∷ [])
    ++ codes "  }\n}\n"

-- The digests are bytes.
pub record AreBytes {h : Hashes} (d : Digests h) : Type 0 where
  pub md5 : IsBytes d.md5
  pub sha1 : IsBytes d.sha1
  pub sha256 : IsBytes d.sha256
  pub sha512 : IsBytes d.sha512

file_info-plain_text :
    {h : Hashes} (size : ℕ) (d : Digests h)
    → AreBytes d
    → file_info size d ++ codes "\n}\n" ≡ plain_text size d
unfolding file_info
file_info-plain_text size d b =
    rw
      (
        digest_text-hex_text d.md5 b.md5,
        digest_text-hex_text d.sha1 b.sha1,
        digest_text-hex_text d.sha256 b.sha256,
        digest_text-hex_text d.sha512 b.sha512,
      )
      (simp append_assoc)

-- Where the hashes can take their input in pieces and give bytes, and none of the first 102
-- packets of the file has the sync byte, the program writes a JSON object with its version and,
-- under "size", "md5", "sha1", "sha256" and "sha512", the size of the file in decimal and each
-- digest of the whole of it in hexadecimal, and nothing on the stream, whatever follows these
-- packets.
pub tsanalytics_text-file_info :
    (h : Hashes) (l : Locals) (file : List ℕ) (p : List ℕ) (ps rest : List (List ℕ))
    → IsStreaming h.md5
    → IsStreaming h.sha1
    → IsStreaming h.sha256
    → IsStreaming h.sha512
    → AreBytes (whole_digests h file)
    → packets (length file / 188) file ≡ (p ∷ ps) ++ rest
    → AllUnsynced (p ∷ ps)
    → length (p ∷ ps) ≡ 102
    → tsanalytics_text h l file ≡ some (plain_text (length file) (whole_digests h file))
unfolding tsanalytics_text report
tsanalytics_text-file_info h l file p ps rest m s s' s'' bytes split u full =
    let (t, e, stopped) = analyze-not_ts l file p ps rest split u full in
    let live : (t.this_is_not_ts == 0) ≡ false = ground (arith, stopped) in
    rw (e, ◌>>=◌, live)
      (ap (λ d. some (file_info (length file) d ++ codes "\n}\n")) (digests-whole h m s s' s'' file)
        ∙ ap some (file_info-plain_text (length file) (whole_digests h file) bytes))
