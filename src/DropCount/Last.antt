-- ===== src/DropCount/Last.antt =====
-- `mark_last_drop_count` marks the highest PID that has packets, and only it.
use mathlib.Core.Path.{subst}
use native.Mathlib.Decide.{dec_lt}
use tsanalytics.Base.{
  ℕ, zero, suc, ◌+◌, ◌≤◌, ◌<◌, ◌==◌, ltb, ◌≡◌, refl, ap, if◌then◌else◌, u16, arith,
}
use tsanalytics.DropCount.{Counts, update, mark_loop, mark_last_drop_count}

-- `l` is the highest index below `n` with packets, or 8191 if there is none.
pub data LastSeen (counts : Counts) (n l : ℕ) : Type 0 where
  seen :
      l < n
      → 0 < (counts l).total
      → ((q : ℕ) → l < q → q < n → (counts q).total ≡ 0)
      → LastSeen counts n l
  empty : l ≡ 8191 → ((q : ℕ) → q < n → (counts q).total ≡ 0) → LastSeen counts n l

-- The loop's invariant at `i`: the array differs from the one at the start in `last` alone.
record Marking (orig : Counts) (i l : ℕ) (counts : Counts) : Type 0 where
  same : (q : ℕ) → counts q ≡ record (orig q) { last = (counts q).last }
  cleared : (q : ℕ) → q < i → (counts q).last ≡ 0
  beyond : (q : ℕ) → i ≤ q → counts q ≡ orig q
  highest : LastSeen orig i l

LastSeen-skip :
    (counts : Counts) (n l : ℕ)
    → (counts n).total ≡ 0
    → LastSeen counts n l
    → LastSeen counts (n + 1) l
LastSeen-skip counts n l none_here (seen below some_here above) =
    seen (omega arith) some_here λ q p h. elim (dec_lt q n) [
      | yes lt ↦ above q p lt
      | no ge ↦ let e : q ≡ n = omega arith in rw e none_here
    ]
LastSeen-skip counts n l none_here (empty e none) = empty e λ q h. elim (dec_lt q n) [
  | yes lt ↦ none q lt
  | no ge ↦ let e : q ≡ n = omega arith in rw e none_here
]

Marking-step :
    (orig : Counts) (i l : ℕ) (counts : Counts)
    → i < 8192
    → Marking orig i l counts
    → let counts' = update counts i (record (counts i) { last = 0 }) in
      Marking orig (i + 1) (if ltb 0 (counts' i).total then u16 i else l) counts'
Marking-step orig i l counts small m = record {
  same = λ q. ground (arith, m.same q, m.same i);
  cleared = λ q h. ground (arith, m.cleared q);
  beyond = λ q h. ground (arith, m.beyond q);
  highest = elim (dec_lt 0 (counts i).total) [
    | yes some_here ↦
        let here : LastSeen orig (i + 1) i =
          seen (omega arith) (omega (arith, total)) (λ q p h. absurd (omega arith)) in
        subst (LastSeen orig (i + 1)) (ground arith) here
    | no none_here ↦
        subst (LastSeen orig (i + 1)) (ground arith)
          (LastSeen-skip orig i l (omega (arith, total)) m.highest)
  ];
}
  where
    total : (counts i).total ≡ (orig i).total
    total = ap (λ c. c.total) (m.same i)

mark_loop-Marking :
    (left : ℕ) (orig : Counts) (i l n : ℕ) (counts : Counts)
    → i + left ≡ n
    → n ≤ 8192
    → Marking orig i l counts
    → let (l', counts') = mark_loop left i l counts in Marking orig n l' counts'
unfolding mark_loop
mark_loop-Marking zero orig i l n counts e small m =
    let e' : i ≡ n = omega arith in subst (λ k. Marking orig k l counts) e' m
mark_loop-Marking (suc left) orig i l n counts e small m =
    mark_loop-Marking left orig (i + 1) _ n _ (omega arith) small
      (Marking-step orig i l counts (omega arith) m)

-- The array with `last` set in cell `l` and cleared in the other cells below 8192.
abbrev pub marked : Counts → ℕ → Counts
marked counts l =
    λ q. if ltb q 8192 then record (counts q) { last = if q == l then 1 else 0 } else counts q

LastSeen-lt : {counts : Counts} {l : ℕ} → LastSeen counts 8192 l → l < 8192
LastSeen-lt (seen below some_here above) = below
LastSeen-lt (empty e none) = omega arith

-- One cell below 8192 is marked with 1 and all others with 0: the highest with packets, or
-- cell 8191 if no cell has any. Nothing else of any cell changes.
pub mark_last_drop_count-LastSeen :
    (counts : Counts)
    → (l : ℕ) × LastSeen counts 8192 l
      × ((q : ℕ) → mark_last_drop_count counts q ≡ marked counts l q)
unfolding mark_last_drop_count
mark_last_drop_count-LastSeen counts = (
  l,
  m.highest,
  λ q. ground (arith, m.same q, m.same l, m.cleared q, m.beyond q, LastSeen-lt m.highest),
)
  where
    l : ℕ
    l = (mark_loop 8192 0 8191 counts).0

    m : Marking counts 8192 l (mark_loop 8192 0 8191 counts).1
    m = mark_loop-Marking 8192 counts 0 8191 8192 counts refl (omega arith) (record {
      same = λ q. refl;
      cleared = λ q h. absurd (omega arith);
      beyond = λ q h. refl;
      highest = empty refl (λ q h. absurd (omega arith));
    })
