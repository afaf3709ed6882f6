-- ===== src/Json/Pids.antt =====
-- The lines of the PIDs: joined by commas, the last without one, once it has been marked.
use native.Mathlib.Decide.{ℕ_discrete}
use tsanalytics.Base.{
  ℕ, zero, suc, ◌+◌, ◌≤◌, ◌<◌, ◌==◌, ◌≡◌, ◌≢◌, sym, ltb, refl, ap, ◌∙◌, if◌then◌else◌, Bool-cases,
  inl, inr, true, List, [], ◌∷◌, ◌++◌, codes, arith,
}
use tsanalytics.DropCount.{Counts, mark_last_drop_count}
use tsanalytics.DropCount.Last.{LastSeen, seen, empty, marked, mark_last_drop_count-LastSeen}
use tsanalytics.Json.{indent, pid_line, pid_loop, conv_json_drop_pid}
use tsanalytics.Json.Keys.{members}

-- The lines of the PIDs from `i` on that have packets, `left` of them looked at.
pub pid_lines : ℕ → ℕ → ℕ → Counts → List (List ℕ)
pid_lines in_ zero i p = []
pid_lines in_ (suc left) i p =
    if ltb 0 (p i).total
    then pid_line in_ i (p i) ∷ pid_lines in_ left (i + 1) p
    else pid_lines in_ left (i + 1) p

-- PIDs without packets have no lines.
pid_lines-nil :
    (in_ left i : ℕ) (p : Counts)
    → ((q : ℕ) → i ≤ q → q < i + left → (p q).total ≡ 0)
    → pid_lines in_ left i p ≡ []
unfolding pid_lines
pid_lines-nil in_ zero i p none = refl
pid_lines-nil in_ (suc left) i p none =
    rw (none i (omega arith) (omega arith))
      (pid_lines-nil in_ left (i + 1) p (λ q a b. none q (omega arith) (omega arith)))

-- A PID with packets has a line.
pid_lines-cons :
    (in_ left i l : ℕ) (p : Counts)
    → i ≤ l
    → l < i + left
    → 0 < (p l).total
    → (x : List ℕ) × (xs : List (List ℕ)) × (pid_lines in_ left i p ≡ x ∷ xs)
unfolding pid_lines
pid_lines-cons in_ zero i l p a b some_here = absurd (omega arith)
pid_lines-cons in_ (suc left) i l p a b some_here = elim (Bool-cases (ltb 0 (p i).total)) [
  | inl e ↦ (pid_line in_ i (p i), pid_lines in_ left (i + 1) p, rw e)
  | inr e ↦ rw e (pid_lines-cons in_ left (i + 1) l p (ground arith) (omega arith) some_here)
]

members-cons :
    (x y : List ℕ) (ys zs : List (List ℕ))
    → zs ≡ y ∷ ys
    → members (x ∷ zs) ≡ x ++ (codes ",\n" ++ members zs)
unfolding members
members-cons x y ys zs e = rw e

members-nil : members [] ≡ []
unfolding members
members-nil = refl

members-one :
    (x : List ℕ) (zs : List (List ℕ)) → zs ≡ [] → members (x ∷ zs) ≡ x ++ (codes "\n" ++ members zs)
unfolding members
members-one x zs e = rw e

module _ (in_ left i l : ℕ) (p : Counts) (some_here : 0 < (p l).total)
    (above : (q : ℕ) → l < q → q < i + suc left → (p q).total ≡ 0) (below : l < i + suc left)
    (marks : (q : ℕ) → q < i + suc left → (p q).last ≡ (if q == l then 1 else 0))
    (has : ltb 0 (p i).total ≡ true) where
  -- The highest PID with packets ends the members.
  last_line :
      i ≡ l
      → ((if (p i).last == 0 then codes ",\n" else codes "\n") ≡ codes "\n")
        × (pid_lines in_ left (i + 1) p ≡ [])
  last_line e = (
    ground (arith, marks i),
    pid_lines-nil in_ left (i + 1) p (λ q a b. above q (omega arith) (omega arith)),
  )

  -- Any other goes on.
  inner_line :
      i ≢ l
      → ((if (p i).last == 0 then codes ",\n" else codes "\n") ≡ codes ",\n")
        × ((x : List ℕ) × (xs : List (List ℕ)) × (pid_lines in_ left (i + 1) p ≡ x ∷ xs))
  inner_line ne = (
    ground (arith, marks i),
    pid_lines-cons in_ left (i + 1) l p (ground (arith, above i)) (omega arith) some_here,
  )

  -- The line of a PID in front of those behind it.
  line-members :
      pid_loop in_ left (i + 1) p ≡ members (pid_lines in_ left (i + 1) p)
      → pid_loop in_ (suc left) i p ≡ members (pid_lines in_ (suc left) i p)
  unfolding pid_loop pid_lines
  line-members ih = elim (ℕ_discrete i l) [
    | yes e ↦
        let (sep, none) = last_line e in
        rw (has, sep, ih)
          (sym (members-one (pid_line in_ i (p i)) (pid_lines in_ left (i + 1) p) none))
    | no ne ↦
        let (sep, some_lines) = inner_line ne in
        let (x, xs, some_line) = some_lines in
        rw (has, sep, ih)
          (sym (members-cons (pid_line in_ i (p i)) x xs (pid_lines in_ left (i + 1) p) some_line))
  ]

-- With the highest PID marked, and only it, the loop gives the members.
pid_loop-members :
    (in_ left i l : ℕ) (p : Counts)
    → 0 < (p l).total
    → ((q : ℕ) → l < q → q < i + left → (p q).total ≡ 0)
    → l < i + left
    → ((q : ℕ) → q < i + left → (p q).last ≡ (if q == l then 1 else 0))
    → pid_loop in_ left i p ≡ members (pid_lines in_ left i p)
unfolding pid_loop pid_lines
pid_loop-members in_ zero i l p some_here above below marks = sym members-nil
pid_loop-members in_ (suc left) i l p some_here above below marks =
    let ih =
      pid_loop-members in_ left (i + 1) l p some_here (λ q a b. above q a (omega arith))
        (omega arith) (λ q b. marks q (omega arith)) in
    elim (Bool-cases (ltb 0 (p i).total)) [
      | inl has ↦ line-members in_ left i l p some_here above below marks has ih
      | inr none_here ↦ rw none_here ih
    ]

-- No PID has packets: there is nothing between the braces.
pid_loop-nil :
    (in_ left i : ℕ) (p : Counts)
    → ((q : ℕ) → q < i + left → (p q).total ≡ 0)
    → pid_loop in_ left i p ≡ []
unfolding pid_loop
pid_loop-nil in_ zero i p none = refl
pid_loop-nil in_ (suc left) i p none =
    rw (none i (omega arith)) (pid_loop-nil in_ left (i + 1) p (λ q b. none q (omega arith)))

marked-total : (counts : Counts) (l q : ℕ) → (marked counts l q).total ≡ (counts q).total
marked-total counts l q = ground arith

marked-last :
    (counts : Counts) (l q : ℕ) → q < 8192 → (marked counts l q).last ≡ (if q == l then 1 else 0)
marked-last counts l q h = ground arith

-- Behind `mark_last_drop_count`, the object has one member for each PID with packets, in
-- ascending order, with a comma behind each but the last; without any packets it is empty.
pub conv_json_drop_pid-members :
    (counts : Counts) (in_ : ℕ)
    → conv_json_drop_pid (mark_last_drop_count counts) in_
      ≡ indent in_
        ++ codes "\"drop_pid\":{\n"
        ++ members (pid_lines in_ 8192 0 (mark_last_drop_count counts))
        ++ indent in_
        ++ codes "}"
unfolding conv_json_drop_pid
conv_json_drop_pid-members counts in_ =
    ap (λ t. indent in_ ++ codes "\"drop_pid\":{\n" ++ t ++ indent in_ ++ codes "}") lines
  where
    m : Counts
    m = mark_last_drop_count counts

    total : (l : ℕ) → ((q : ℕ) → m q ≡ marked counts l q) → (q : ℕ) → (m q).total ≡ (counts q).total
    total l same q = ap (λ c. c.total) (same q) ∙ marked-total counts l q

    of_last :
        (l : ℕ)
        → LastSeen counts 8192 l
        → ((q : ℕ) → m q ≡ marked counts l q)
        → pid_loop in_ 8192 0 m ≡ members (pid_lines in_ 8192 0 m)
    of_last l (seen below some_here above) same =
        pid_loop-members in_ 8192 0 l m (omega (arith, total l same l))
          (λ q a b. total l same q ∙ above q a b) below
          (λ q b. ap (λ c. c.last) (same q) ∙ marked-last counts l q b)
    of_last l (empty e none) same =
        pid_loop-nil in_ 8192 0 m (λ q b. total l same q ∙ none q b)
        ∙ sym (
            ap members (pid_lines-nil in_ 8192 0 m (λ q a b. total l same q ∙ none q b))
            ∙ members-nil)

    lines : pid_loop in_ 8192 0 m ≡ members (pid_lines in_ 8192 0 m)
    lines =
        let (l, last_seen, same) = mark_last_drop_count-LastSeen counts in of_last l last_seen same
