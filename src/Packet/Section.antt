-- ===== src/Packet/Section.antt =====
-- A section split over the packets of its PID comes together in the cell, and the call for the
-- packet that completes it returns 1.
use tsanalytics.Base.{
  ℕ, zero, suc, ◌+◌, ◌≤◌, ◌<◌, ◌≡◌, ◌≢◌, refl, sym, ap, ◌∙◌, List, [], ◌∷◌, ◌++◌, Option, some,
  ◌>>=◌, length, byte_at, ◌/◌, ◌%◌, arith,
}
use mathlib.Core.Path.{subst}
use tsanalytics.Head.Decode.{IsPacket}
use tsanalytics.Crc.Total.{section_length}
use tsanalytics.Packet.{Cell, Store, st_packet}
use tsanalytics.Packet.Block.{Assembled, section_length-append}
use tsanalytics.Packet.Assemble.{
  pid_of, payload_at, payload_of, Stored, st_packet-start, st_packet-continue,
}

-- The calls for a list of packets, with their results.
unfoldable pub st_packets : Store → List (List ℕ) → Option (List ℕ × Store)
st_packets store [] = some ([], store)
st_packets store (p ∷ ps) = do
  (r, store') ← st_packet store p
  (rs, store'') ← st_packets store' ps
  some (r ∷ rs, store'')

-- The calls for a packet and the ones behind it.
st_packets-cons :
    (store : Store) (p : List ℕ) (ps : List (List ℕ)) {store' store'' : Store} {r s : ℕ}
    {rs : List ℕ}
    → st_packet store p ≡ some (r, store')
    → r ≡ s
    → st_packets store' ps ≡ some (rs, store'')
    → st_packets store (p ∷ ps) ≡ some (s ∷ rs, store'')
unfolding st_packets
st_packets-cons store p ps first same rest = rw (first, ◌>>=◌, rest, same)

-- The first packet of a section of `pid`, and a further one.
pub record IsFirst (pid : ℕ) (p : List ℕ) : Type 0 where
  pub packet : IsPacket p
  pub of_pid : pid_of p ≡ pid
  pub starts : byte_at p 1 / 64 % 2 ≡ 1
  pub inside : payload_at p ≤ 179

pub record IsFurther (pid : ℕ) (p : List ℕ) : Type 0 where
  pub packet : IsPacket p
  pub of_pid : pid_of p ≡ pid
  pub goes_on : byte_at p 1 / 64 % 2 ≡ 0
  pub inside : payload_at p ≤ 188

-- `bytes` and the payloads of the packets.
abbrev pub joined : List ℕ → List (List ℕ) → List ℕ
joined bytes [] = bytes
joined bytes (p ∷ ps) = joined (bytes ++ payload_of p) ps

-- The packets go on from `bytes`, and the last of them is the first to pass `size` bytes.
abbrev pub Carries : ℕ → ℕ → List ℕ → List (List ℕ) → Type 0
Carries pid size bytes [] = size < length bytes
Carries pid size bytes (p ∷ ps) =
    (length bytes ≤ size) × IsFurther pid p × Carries pid size (bytes ++ payload_of p) ps

-- 0 for every packet but the last.
abbrev pub delivered : ℕ → List ℕ
delivered zero = []
delivered (suc zero) = 1 ∷ []
delivered (suc (suc n)) = 0 ∷ delivered (suc n)

-- A stored outcome, as a fact about the cell of `pid`.
own-Assembled :
    {store store' : Store} {p bytes : List ℕ} {pid r : ℕ}
    → pid_of p ≡ pid
    → Stored store p bytes r store'
    → Assembled bytes r (store'.cells pid)
own-Assembled {store' = store'} {bytes = bytes} {r = r} same s =
    subst (Assembled bytes r) (sym s.puts.own ∙ ap store'.cells same) s.assembled

pub first_step :
    (store : Store) {pid : ℕ} {p : List ℕ}
    → IsFirst pid p
    → (r : ℕ) × (store' : Store) × (st_packet store p ≡ some (r, store'))
      × Assembled (payload_of p) r (store'.cells pid)
first_step store {p = p} f =
    let (r, store', s, live) = st_packet-start store p f.packet f.starts f.inside in
    (r, store', s.returns, own-Assembled f.of_pid s)

pub further_step :
    (store : Store) {pid r₀ : ℕ} {p : List ℕ} (bytes : List ℕ)
    → IsFurther pid p
    → Assembled bytes r₀ (store.cells pid)
    → (store.cells pid).loading ≢ 0
    → (r : ℕ) × (store' : Store) × (st_packet store p ≡ some (r, store'))
      × Assembled (bytes ++ payload_of p) r (store'.cells pid)
further_step store {r₀ = r₀} {p = p} bytes f a loading =
    let same = sym f.of_pid in
    let (r, store', s, live) =
      st_packet-continue store p f.packet bytes f.goes_on f.inside
        (subst (λ q. Assembled bytes r₀ (store.cells q)) same a)
        (subst (λ q. (store.cells q).loading ≢ 0) same loading) in
    (r, store', s.returns, own-Assembled f.of_pid s)

module _ (size : ℕ) (long : 7 ≤ size) where
  longer :
      (bytes p : List ℕ)
      → 3 ≤ length bytes
      → section_length (bytes ++ payload_of p) + 3 ≡ section_length bytes + 3
  longer bytes p three = ap (λ n. n + 3) (section_length-append bytes (payload_of p) three)

  -- The result of a call, by whether its packet passes the size.
  result-last :
      {bytes : List ℕ} {r : ℕ} {cell : Cell}
      → Assembled bytes r cell
      → section_length bytes + 3 ≡ size
      → size < length bytes
      → r ≡ 1
  result-last a e h = ground (arith, a.result)

  result-more :
      {bytes : List ℕ} {r : ℕ} {cell : Cell}
      → Assembled bytes r cell
      → section_length bytes + 3 ≡ size
      → length bytes ≤ size
      → (r ≡ 0) × (cell.loading ≢ 0)
  result-more a e h = ground (arith, a.result, a.loading)

  -- The rest of the section, once its first packet is in the cell.
  further_delivered :
      (ps : List (List ℕ)) (pid : ℕ) (p bytes : List ℕ) (store : Store) (r₀ : ℕ)
      → Assembled bytes r₀ (store.cells pid)
      → section_length bytes + 3 ≡ size
      → Carries pid size bytes (p ∷ ps)
      → (store' : Store) × (st_packets store (p ∷ ps) ≡ some (delivered (length (p ∷ ps)), store'))
        × Assembled (joined bytes (p ∷ ps)) 1 (store'.cells pid)
  further_delivered [] pid p bytes store r₀ a e (below, f, above) =
      let (r, store', returns, a') = further_step store bytes f a (result-more a e below).1 in
      let is_one = result-last a' (longer bytes p a.three ∙ e) above in
      (
        store',
        st_packets-cons store p [] returns is_one (unfold st_packets in refl),
        subst (λ v. Assembled (bytes ++ payload_of p) v (store'.cells pid)) is_one a',
      )
  further_delivered (q ∷ ps) pid p bytes store r₀ a e (below, f, rest) =
      let (r, store', returns, a') = further_step store bytes f a (result-more a e below).1 in
      let e' = longer bytes p a.three ∙ e in
      let (store'', results, done) =
        further_delivered ps pid q (bytes ++ payload_of p) store' r a' e' rest in
      (store'', st_packets-cons store p (q ∷ ps) returns (result-more a' e' rest.0).0 results, done)

  -- The packets of a section of at least seven bytes with its header: the first, whose payload
  -- begins at offset 179 or before, and at least one that goes on, up to the first packet to pass
  -- the section's size. All are whole packets of the PID with their sync byte. Every call
  -- returns, with 1 for the last and 0 for the others, and the cell holds the payloads one after
  -- the other, whatever it held before.
  pub st_packets-delivered :
      (store : Store) (pid : ℕ) (p q : List ℕ) (ps : List (List ℕ))
      → IsFirst pid p
      → section_length (payload_of p) + 3 ≡ size
      → Carries pid size (payload_of p) (q ∷ ps)
      → (store' : Store) × (st_packets store (p ∷ q ∷ ps)
          ≡ some (delivered (length (p ∷ q ∷ ps)), store'))
        × Assembled (joined (payload_of p) (q ∷ ps)) 1 (store'.cells pid)
  st_packets-delivered store pid p q ps f e c =
      let (r, store', returns, a) = first_step store f in
      let (store'', results, done) = further_delivered ps pid q (payload_of p) store' r a e c in
      (store'', st_packets-cons store p (q ∷ ps) returns (result-more a e c.0).0 results, done)

-- A section ends exactly where its first packet does, and the next packet of the PID begins
-- another one; both payloads begin at offset 179 or before. The first call returns 0, and after
-- the second the cell holds the second payload, so that no call reports the first section.
pub st_packets-exact :
    (store : Store) (pid : ℕ) (p q : List ℕ)
    → IsFirst pid p
    → IsFirst pid q
    → section_length (payload_of p) + 3 ≡ length (payload_of p)
    → (r : ℕ) × (store' : Store) × (st_packets store (p ∷ q ∷ []) ≡ some (0 ∷ r ∷ [], store'))
      × Assembled (payload_of q) r (store'.cells pid)
st_packets-exact store pid p q f g e =
    let (r₁, mid, returns₁, a) = first_step store f in
    let (r₂, store', returns₂, a') = first_step mid g in
    let unreported : r₁ ≡ 0 = ground (arith, a.result) in
    (
      r₂,
      store',
      st_packets-cons store p (q ∷ []) returns₁ unreported
          (st_packets-cons mid q [] returns₂ refl (unfold st_packets in refl)),
      a',
    )
