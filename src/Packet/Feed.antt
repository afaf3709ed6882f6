-- ===== src/Packet/Feed.antt =====
-- `st_packet` on any packet: the cell of its PID goes from one sound state to another.
use mathlib.Core.Path.{subst}
use native.Mathlib.Decide.{dec_lt}
use tsanalytics.Base.{
  ℕ, zero, suc, ◌+◌, ◌/◌, ◌%◌, ◌≤◌, ◌<◌, ◌==◌, ltb, ◌≡◌, ◌≢◌, ◌⊎◌, inl, inr, refl, sym, ap, ◌∙◌,
  true, Bool-cases, if◌then◌else◌, List, some, ◌>>=◌, byte_at, byte_at-lt, ◌-u64◌, arith, length,
}
use tsanalytics.Head.Decode.{layout, IsPacket, st_head-Parsed}
use tsanalytics.Crc.Total.{section_length}
use tsanalytics.Packet.{Cell, Store, put, head_zero, copy, st_packet}
use tsanalytics.Packet.Block.{Assembled, section_length-append, is_complete}
use tsanalytics.Packet.Assemble.{
  pid_of, payload_at, payload_of, put-Puts, Stored, st_packet-start, st_packet-continue,
  enters_continue,
}

-- The cell waits for a section to begin, or holds the bytes of one whose length satisfies `P`.
pub data Fed (P : ℕ → Type 0) (cell : Cell) : Type 0 where
  waits : cell.loading ≡ 0 → Fed P cell
  holds : {bytes : List ℕ} {r : ℕ} → Assembled bytes r cell → P (section_length bytes) → Fed P cell

-- A complete section, for the parser: the cell's bytes are more than those of the section.
pub data Complete (P : ℕ → Type 0) (cell : Cell) : Type 0 where
  complete :
      {bytes : List ℕ}
      → Assembled bytes 1 cell
      → P (section_length bytes)
      → 4 ≤ section_length bytes
      → section_length bytes + 3 < length bytes
      → Complete P cell

-- No section is complete: the cell is as it was, or holds bytes that do not make a section.
pub data Unfinished (before cell : Cell) : Type 0 where
  untouched : cell ≡ before → Unfinished before cell
  unfinished : {bytes : List ℕ} → Assembled bytes 0 cell → Unfinished before cell

-- What a call leaves of the cells: the packet's own is sound, the others are as they were, and
-- the result is 0 where no section is complete, 1 where the packet's own cell holds one.
pub record Keeps (P : ℕ → Type 0) (store : Store) (buf : List ℕ) (r : ℕ) (store' : Store)
    : Type 0 where
  pub returns : st_packet store buf ≡ some (r, store')
  pub fed : Fed P (store'.cells (pid_of buf))
  pub others : (q : ℕ) → q ≢ pid_of buf → store'.cells q ≡ store.cells q
  pub done :
      ((r ≡ 0) × Unfinished (store.cells (pid_of buf)) (store'.cells (pid_of buf)))
      ⊎ ((r ≡ 1) × Complete P (store'.cells (pid_of buf)))

layout-le : (c len : ℕ) → (layout c len).1 ≤ 4 + len
layout-le zero len = omega arith
layout-le (suc zero) len = omega arith
layout-le (suc (suc zero)) len = omega arith
layout-le (suc (suc (suc c))) len = omega arith

-- A packet that goes on with nothing is passed over.
pub passed_over :
    (store : Store) (buf : List ℕ)
    → IsPacket buf
    → byte_at buf 1 / 64 % 2 ≡ 0
    → (store.cells (pid_of buf)).loading ≡ 0
    → st_packet store buf ≡ some (0, store)
unfolding st_packet
passed_over store buf packet more idle =
    let (head, parsed, e) = st_head-Parsed buf packet.bytes packet.whole packet.sync in
    rw (e head_zero, ◌>>=◌, parsed.start ∙ more, parsed.pid, idle)

module _ (P : ℕ → Type 0) (store : Store) (buf : List ℕ) (packet : IsPacket buf) where
  Stored-Keeps :
      {bytes : List ℕ} {r : ℕ} {store' : Store}
      → P (section_length bytes)
      → Stored store buf bytes r store'
      → Keeps P store buf r store'
  Stored-Keeps {bytes} {r} {store'} fine s =
      let own = subst (Assembled bytes r) (sym s.puts.own) s.assembled in
      record {
        returns = s.returns;
        fed = holds own fine;
        others = s.puts.others;
        done = elim (Bool-cases (is_complete (section_length bytes + 3) (length bytes))) [
          | inl e ↦
              let finished : r ≡ 1 = s.assembled.result ∙ ap (λ t. if t then 1 else 0) e in
              inr (
                finished,
                complete (subst (λ n. Assembled bytes n (store'.cells (pid_of buf))) finished own)
                    fine (ground arith) (ground arith),
              )
          | inr e ↦
              let none_yet : r ≡ 0 = s.assembled.result ∙ ap (λ t. if t then 1 else 0) e in
              inl (
                none_yet,
                unfinished
                    (subst (λ n. Assembled bytes n (store'.cells (pid_of buf))) none_yet own),
              )
        ];
      }

  -- A payload that would begin behind the packet is not copied.
  not_copied :
      byte_at buf 1 / 64 % 2 ≡ 0
      → (store.cells (pid_of buf)).loading ≢ 0
      → 188 < payload_at buf
      → st_packet store buf ≡ some (0, put store (pid_of buf) (store.cells (pid_of buf)))
  unfolding copy
  not_copied more loading far =
      let (head, parsed, e) = st_head-Parsed buf packet.bytes packet.whole packet.sync in
      enters_continue store buf head (e head_zero) parsed (store.cells (pid_of buf)) 0 more loading
        (rw too_large)
    where
      too_large : ltb 188 (188 -u64 payload_at buf) ≡ true
      too_large =
          ground (
            arith,
            byte_at-lt buf 4 packet.bytes,
            layout-le (byte_at buf 3 / 16 % 4) (byte_at buf 4),
          )

  idle_Keeps :
      byte_at buf 1 / 64 % 2 ≡ 0
      → (store.cells (pid_of buf)).loading ≡ 0
      → Fed P (store.cells (pid_of buf))
      → Keeps P store buf 0 store
  idle_Keeps more idle fed = record {
    returns = passed_over store buf packet more idle;
    fed = fed;
    others = λ q ne. refl;
    done = inl (refl, untouched refl);
  }

  far_Keeps :
      byte_at buf 1 / 64 % 2 ≡ 0
      → (store.cells (pid_of buf)).loading ≢ 0
      → 188 < payload_at buf
      → Fed P (store.cells (pid_of buf))
      → Keeps P store buf 0 (put store (pid_of buf) (store.cells (pid_of buf)))
  far_Keeps more loading far fed =
      let puts = put-Puts store store.live (pid_of buf) (store.cells (pid_of buf)) in
      record {
        returns = not_copied more loading far;
        fed = subst (Fed P) (sym puts.own) fed;
        others = puts.others;
        done = inl (refl, untouched puts.own);
      }

  pub st_packet-Keeps :
      (byte_at buf 1 / 64 % 2 ≡ 1 → (payload_at buf ≤ 179) × P (section_length (payload_of buf)))
      → Fed P (store.cells (pid_of buf))
      → (r : ℕ) × (store' : Store) × Keeps P store buf r store'
  st_packet-Keeps fine fed = elim (Bool-cases (byte_at buf 1 / 64 % 2 == 1)) [
    | inl e ↦
        let first : byte_at buf 1 / 64 % 2 ≡ 1 = ground arith in
        let (r, store', s, live) = st_packet-start store buf packet first (fine first).0 in
        (r, store', Stored-Keeps (fine first).1 s)
    | inr e ↦ goes_on (ground arith) fed
  ]
    where
      goes_on :
          byte_at buf 1 / 64 % 2 ≡ 0
          → Fed P (store.cells (pid_of buf))
          → (r : ℕ) × (store' : Store) × Keeps P store buf r store'
      goes_on more (waits idle) = (0, store, idle_Keeps more idle fed)
      goes_on more (holds {bytes} a fine) =
          elim (Bool-cases ((store.cells (pid_of buf)).loading == 0)) [
            | inl idle ↦ (0, store, idle_Keeps more (ground arith) fed)
            | inr busy ↦ elim (dec_lt 188 (payload_at buf)) [
              | yes far ↦ (0, _, far_Keeps more (ground arith) far fed)
              | no near ↦
                  let (r, store', s, live) =
                    st_packet-continue store buf packet bytes more (omega arith) a (ground arith) in
                  (
                    r,
                    store',
                    Stored-Keeps
                        (subst P (sym (section_length-append bytes (payload_of buf) a.three)) fine)
                        s,
                  )
            ]
          ]
