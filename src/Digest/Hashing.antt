-- ===== src/Digest/Hashing.antt =====
-- The digests: the packets and the rest behind them are the whole file.
use tsanalytics.Base.{
  ℕ, zero, suc, ◌+◌, ◌-◌, ◌*◌, ◌/◌, ◌≤◌, ◌≡◌, refl, sym, ap, ◌∙◌, ltb, if◌then◌else◌, Bool-cases,
  inl, inr, List, [], ◌∷◌, ◌++◌, length, take, drop, length-drop, take_all, arith,
}
use tsanalytics.Digest.{
  Hash, Hashes, Contexts, update_all, init_all, packets, hash_packets, digests,
}

-- What a hash does with its input in pieces: hashing one after the other is hashing both
-- together, and an empty piece changes nothing.
pub record IsStreaming (h : Hash) : Type 0 where
  pub update_append :
      (c : h.Context) (as' bs : List ℕ) → h.update (h.update c as') bs ≡ h.update c (as' ++ bs)
  pub update_nil : (c : h.Context) → h.update c [] ≡ c

-- A file is its packets and what is behind them.
abbrev pub joined : List (List ℕ) → List ℕ → List ℕ
joined [] rest = rest
joined (p ∷ ps) rest = p ++ joined ps rest

module _ {ℓ} {A : Type ℓ} where
  take-append-drop : (n : ℕ) (xs : List A) → take n xs ++ drop n xs ≡ xs
  take-append-drop zero xs = refl
  take-append-drop (suc n) [] = refl
  take-append-drop (suc n) (x ∷ xs) = ap (λ r. x ∷ r) (take-append-drop n xs)

  drop-nil : (n : ℕ) → drop {A = A} n [] ≡ []
  drop-nil zero = refl
  drop-nil (suc n) = refl

  drop-drop : (m n : ℕ) (xs : List A) → drop n (drop m xs) ≡ drop (m + n) xs
  drop-drop zero n xs = ap (λ k. drop k xs) (omega arith)
  drop-drop (suc m) n [] = let e : suc m + n ≡ suc (m + n) = omega arith in drop-nil n ∙ rw e
  drop-drop (suc m) n (x ∷ xs) =
      let e : suc (m + n) ≡ suc m + n = omega arith in
      drop-drop m n xs ∙ ap (λ k. drop k (x ∷ xs)) e

  drop_all : (n : ℕ) (xs : List A) → length xs ≤ n → drop n xs ≡ []
  drop_all zero [] h = refl
  drop_all zero (x ∷ xs) h = absurd (omega arith)
  drop_all (suc n) [] h = refl
  drop_all (suc n) (x ∷ xs) h = drop_all n xs (omega arith)

packets-joined : (n : ℕ) (file : List ℕ) → joined (packets n file) (drop (n * 188) file) ≡ file
unfolding packets
packets-joined zero file = let e : 0 * 188 ≡ 0 = omega arith in ap (λ k. drop k file) e
packets-joined (suc n) file =
    let e : suc n * 188 ≡ 188 + n * 188 = omega arith in
    ap (λ k. take 188 file ++ joined (packets n (drop 188 file)) k)
      (ap (λ k. drop k file) e ∙ sym (drop-drop 188 (n * 188) file))
    ∙ ap (λ r. take 188 file ++ r) (packets-joined n (drop 188 file))
    ∙ take-append-drop 188 file

module _ (h : Hash) where
  abbrev hash_all : h.Context → List (List ℕ) → h.Context
  hash_all c [] = c
  hash_all c (p ∷ ps) = hash_all (h.update c p) ps

module _ (h : Hash) (streaming : IsStreaming h) where
  hash_all-joined :
      (c : h.Context) (ps : List (List ℕ)) (rest : List ℕ)
      → h.update (hash_all h c ps) rest ≡ h.update c (joined ps rest)
  hash_all-joined c [] rest = refl
  hash_all-joined c (p ∷ ps) rest =
      hash_all-joined (h.update c p) ps rest ∙ streaming.update_append c p (joined ps rest)

  -- The calls for the packets and, where there are bytes behind them, the call for those.
  hash_file :
      (file : List ℕ)
      → let n = length file / 188 in
        let last = length file - n * 188 in
        (if ltb 0 last
          then h.update (hash_all h h.init (packets n file)) (take last (drop (n * 188) file))
          else hash_all h h.init (packets n file))
        ≡ h.update h.init file
  hash_file file = elim (Bool-cases (ltb 0 (length file - length file / 188 * 188))) [
    | inl e ↦
        rw
          (
            e,
            take_all (length file - length file / 188 * 188) (drop (length file / 188 * 188) file)
                (omega (arith, length-drop (length file / 188 * 188) file)),
          )
          (whole file)
    | inr e ↦ rw e (
        sym (streaming.update_nil _)
        ∙ ap (h.update (hash_all h h.init (packets (length file / 188) file)))
            (sym (drop_all (length file / 188 * 188) file (ground arith)))
        ∙ whole file)
  ]
    where
      whole :
          (file : List ℕ)
          → h.update
              (hash_all h h.init (packets (length file / 188) file))
              (drop (length file / 188 * 188) file)
            ≡ h.update h.init file
      whole file =
          hash_all-joined h.init (packets (length file / 188) file)
            (drop (length file / 188 * 188) file)
          ∙ ap (h.update h.init) (packets-joined (length file / 188) file)

hash_packets-hash_all :
    (h : Hashes) (c : Contexts h) (ps : List (List ℕ))
    → hash_packets h c ps ≡ record {
      md5 = hash_all h.md5 c.md5 ps;
      sha1 = hash_all h.sha1 c.sha1 ps;
      sha256 = hash_all h.sha256 c.sha256 ps;
      sha512 = hash_all h.sha512 c.sha512 ps;
    }
unfolding hash_packets
hash_packets-hash_all h c [] = refl
hash_packets-hash_all h c (p ∷ ps) = hash_packets-hash_all h (update_all h c p) ps

-- Where the four hashes can take their input in pieces, the digests are those of the whole file,
-- whatever its length and whether or not it is a transport stream.
pub digests-whole :
    (h : Hashes)
    → IsStreaming h.md5
    → IsStreaming h.sha1
    → IsStreaming h.sha256
    → IsStreaming h.sha512
    → (file : List ℕ)
    → digests h file ≡ record {
      md5 = h.md5.final (h.md5.update h.md5.init file);
      sha1 = h.sha1.final (h.sha1.update h.sha1.init file);
      sha256 = h.sha256.final (h.sha256.update h.sha256.init file);
      sha512 = h.sha512.final (h.sha512.update h.sha512.init file);
    }
unfolding digests
digests-whole h m s s' s'' file =
    rw (hash_packets-hash_all h (init_all h) (packets (length file / 188) file))
      (elim (Bool-cases (ltb 0 (length file - length file / 188 * 188))) [
        | inl e ↦ rw e (λ i. record {
          md5 = h.md5.final ((rw e at (hash_file h.md5 m file)) i);
          sha1 = h.sha1.final ((rw e at (hash_file h.sha1 s file)) i);
          sha256 = h.sha256.final ((rw e at (hash_file h.sha256 s' file)) i);
          sha512 = h.sha512.final ((rw e at (hash_file h.sha512 s'' file)) i);
        })
        | inr e ↦ rw e (λ i. record {
          md5 = h.md5.final ((rw e at (hash_file h.md5 m file)) i);
          sha1 = h.sha1.final ((rw e at (hash_file h.sha1 s file)) i);
          sha256 = h.sha256.final ((rw e at (hash_file h.sha256 s' file)) i);
          sha512 = h.sha512.final ((rw e at (hash_file h.sha512 s'' file)) i);
        })
      ])
