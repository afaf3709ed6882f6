-- ===== src/Digest.antt =====
-- tsanalytics.c: the packets of a file and their hashes.
pub mod Hashing
use tsanalytics.Base.{
  ℕ, zero, suc, ◌+◌, ◌-◌, ◌*◌, ◌/◌, ◌==◌, not, ◌||◌, ltb, if◌then◌else◌, List, [], ◌∷◌, Option,
  some, ◌>>=◌, length, take, drop, replicate, none, u64, sub_ℕ, codes, decimal,
}

-- A hash of OpenSSL: its context, `Init`, `Update` and `Final`.
pub record Hash : Type 1 where
  pub Context : Type 0
  pub init : Context
  pub update : Context → List ℕ → Context
  pub final : Context → List ℕ

pub record Hashes : Type 1 where
  pub md5 : Hash
  pub sha1 : Hash
  pub sha256 : Hash
  pub sha512 : Hash

module _ (h : Hashes) where
  pub record Contexts : Type 0 where
    pub md5 : h.md5.Context
    pub sha1 : h.sha1.Context
    pub sha256 : h.sha256.Context
    pub sha512 : h.sha512.Context

  -- The four calls of `Update`.
  abbrev pub update_all : Contexts → List ℕ → Contexts
  update_all c bytes = record {
    md5 = h.md5.update c.md5 bytes;
    sha1 = h.sha1.update c.sha1 bytes;
    sha256 = h.sha256.update c.sha256 bytes;
    sha512 = h.sha512.update c.sha512 bytes;
  }

  abbrev pub init_all : Contexts
  init_all = record {
    md5 = h.md5.init;
    sha1 = h.sha1.init;
    sha256 = h.sha256.init;
    sha512 = h.sha512.init;
  }

-- The reads of `fread` in a file that does not change: `n` packets of 188 bytes.
unfoldable pub packets : ℕ → List ℕ → List (List ℕ)
packets zero file = []
packets (suc n) file = take 188 file ∷ packets n (drop 188 file)

module _ (h : Hashes) where
  -- The hashes in the loop. Each packet is hashed, whatever becomes of it.
  pub hash_packets : Contexts h → List (List ℕ) → Contexts h
  hash_packets c [] = c
  hash_packets c (buf ∷ rest) = hash_packets (update_all h c buf) rest

  -- The digests, as bytes.
  pub record Digests : Type 0 where
    pub md5 : List ℕ
    pub sha1 : List ℕ
    pub sha256 : List ℕ
    pub sha512 : List ℕ

  pub digests : List ℕ → Digests
  digests file =
      let packet_count = length file / 188 in
      let last_bytes = length file - packet_count * 188 in
      let c = hash_packets (init_all h) (packets packet_count file) in
      let c' =
        if ltb 0 last_bytes
        then update_all h c (take last_bytes (drop (packet_count * 188) file))
        else c in
      record {
        md5 = h.md5.final c'.md5;
        sha1 = h.sha1.final c'.sha1;
        sha256 = h.sha256.final c'.sha256;
        sha512 = h.sha512.final c'.sha512;
      }
