-- ===== src/DropList/Lookup.antt =====
-- `add_drop_list` as an update of a finite map from keys to counters.
use tsanalytics.Base.{
  ℕ, zero, suc, ◌+◌, ◌≤◌, leb, ◌≡◌, refl, ap, ◌∙◌, same_bytes, same_bytes_refl, same_bytes_sound,
  same_bytes_ne, if◌then◌else◌, Bool-cases, inl, inr, List, [], ◌∷◌, Option, none, some, length,
  arith,
}
use tsanalytics.DropCount.{DropCount}
use tsanalytics.DropList.{Entry, fresh, add_counts, add_at, add_drop_list}
use tsanalytics.DropList.Keys.{IsBounded, AllBounded, IsFlagged}

-- The node that holds a key, if any.
pub find : List ℕ → List Entry → Option Entry
find key [] = none
find key (p ∷ rest) = if same_bytes p.key key then some p else find key rest

-- The counters that a key has so far.
pub counters : List ℕ → List Entry → Entry
counters key entries = elim (find key entries) [ none ↦ fresh key | some p ↦ p ]

key_kept : (count : DropCount) (p : Entry) → (add_counts count p).key ≡ p.key
unfolding add_counts
key_kept count p = refl

-- While the list has no more nodes than the loop has rounds, the node of the key is updated, or
-- a new one made and updated; every other key keeps its node.
find-add_at :
    (left : ℕ) (key k : List ℕ) (count : DropCount) (p : Entry) (rest : List Entry)
    → length (p ∷ rest) ≤ left
    → find k (add_at left key count (p ∷ rest)) ≡ (
        if same_bytes key k
        then some (add_counts count (counters key (p ∷ rest)))
        else find k (p ∷ rest))
unfolding find counters add_at
find-add_at zero key k count p rest h = absurd (omega arith)
find-add_at (suc left) key k count p [] h = elim (Bool-cases (same_bytes p.key key)) [
  | inl e ↦
      rw e
        (ground (arith, key_kept count p, ap (λ x. same_bytes x k) (same_bytes_sound p.key key e)))
  | inr e ↦ rw e (ground (arith, key_kept count (fresh key), same_bytes_ne p.key key k e))
]
find-add_at (suc left) key k count p (q ∷ rest) h = elim (Bool-cases (same_bytes p.key key)) [
  | inl e ↦
      rw e
        (ground (arith, key_kept count p, ap (λ x. same_bytes x k) (same_bytes_sound p.key key e)))
  | inr e ↦ rw e (
      ground
        (arith, same_bytes_ne p.key key k e, find-add_at left key k count q rest (omega arith)))
]

find-add_counts :
    (key k : List ℕ) (count : DropCount) (entries : List Entry)
    → length entries ≤ 100000
    → find k (add_drop_list entries key count) ≡ (
        if same_bytes key k then some (add_counts count (counters key entries)) else find k entries)
unfolding find counters add_drop_list
find-add_counts key k count [] h =
    find-add_at 100000 key k count (fresh key) [] (omega arith)
    ∙ ground (arith, same_bytes_refl key)
find-add_counts key k count (p ∷ rest) h = find-add_at 100000 key k count p rest h

-- The node of a key has that key, and is bounded if all are.
counters_sound :
    (key : List ℕ) (entries : List Entry)
    → AllBounded entries
    → ((counters key entries).key ≡ key) × IsBounded (counters key entries)
unfolding find counters
counters_sound key [] b = (refl, omega arith)
counters_sound key (p ∷ rest) b = elim (Bool-cases (same_bytes p.key key)) [
  | inl e ↦ rw (counters, e) (same_bytes_sound p.key key e, b.0)
  | inr e ↦ rw (counters, e) (counters_sound key rest b.1)
]

-- A sum that stops at 99999999.
abbrev pub capped : ℕ → ℕ
capped n = if leb n 99999999 then n else 99999999

module _ (key : List ℕ) (count : DropCount) (p : Entry) (same : p.key ≡ key)
    (flagged : IsFlagged count) (bounded : IsBounded p) where
  drop_capped : (add_counts count p).drop ≡ capped (p.drop + count.now_drop)
  unfolding add_counts
  drop_capped = ground arith

  error_capped : (add_counts count p).error ≡ capped (p.error + count.now_error)
  unfolding add_counts
  error_capped = ground arith

  scrambling_capped : (add_counts count p).scrambling ≡ capped (p.scrambling + count.now_scrambling)
  unfolding add_counts
  scrambling_capped = ground arith

  add_counts-capped : add_counts count p ≡ record {
    key = key;
    drop = capped (p.drop + count.now_drop);
    error = capped (p.error + count.now_error);
    scrambling = capped (p.scrambling + count.now_scrambling);
  }
  add_counts-capped = λ j. record {
    key = (key_kept count p ∙ same) j;
    drop = drop_capped j;
    error = error_capped j;
    scrambling = scrambling_capped j;
  }

-- For a packet's flags, which are 0 or 1, and a list of up to 100000 nodes with counters up to
-- 99999999: `add_drop_list` leaves a node for the key whose drops are its drops so far (none, if
-- it had no node) and the drop flag, whose errors are those so far and the error flag, and whose
-- scrambled packets are those so far and the scrambling flag, each sum stopping at 99999999. It
-- leaves what every other key has as it was.
pub find-add_drop_list :
    (key k : List ℕ) (count : DropCount) (entries : List Entry)
    → IsFlagged count
    → AllBounded entries
    → length entries ≤ 100000
    → find k (add_drop_list entries key count) ≡ (
        if same_bytes key k
        then some (record {
          key = key;
          drop = capped ((counters key entries).drop + count.now_drop);
          error = capped ((counters key entries).error + count.now_error);
          scrambling = capped ((counters key entries).scrambling + count.now_scrambling);
        })
        else find k entries)
find-add_drop_list key k count entries flagged bounded h =
    let (same, fine) = counters_sound key entries bounded in
    find-add_counts key k count entries h
    ∙ ap (λ p. if same_bytes key k then some p else find k entries)
        (add_counts-capped key count (counters key entries) same flagged fine)
