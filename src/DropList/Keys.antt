-- ===== src/DropList/Keys.antt =====
-- The shape of the list: its keys, in the order of their first defects, and the bounds of its
-- counters.
use tsanalytics.Base.{
  ℕ, zero, suc, ◌≤◌, ◌≡◌, refl, ◌∙◌, same_bytes, same_bytes_refl, same_bytes_comm, if◌then◌else◌,
  Bool, false, ◌||◌, Bool-cases, inl, inr, List, [], ◌∷◌, ◌++◌, length, arith,
}
use tsanalytics.DropCount.{DropCount}
use tsanalytics.DropList.{Entry, fresh, add_counts, max_count, add_at, add_drop_list}

unfoldable pub keys : List Entry → List (List ℕ)
keys [] = []
keys (p ∷ rest) = p.key ∷ keys rest

unfoldable pub contains : List ℕ → List (List ℕ) → Bool
contains key [] = false
contains key (k ∷ ks) = same_bytes k key || contains key ks

-- No key stands twice.
abbrev pub Distinct : List (List ℕ) → Type 0
Distinct [] = Unit {0}
Distinct (k ∷ ks) = (contains k ks ≡ false) × Distinct ks

keys-add_at :
    (left : ℕ) (key : List ℕ) (count : DropCount) (p : Entry) (rest : List Entry)
    → length (p ∷ rest) ≤ left
    → keys (add_at left key count (p ∷ rest))
      ≡ (if contains key (keys (p ∷ rest)) then keys (p ∷ rest) else keys (p ∷ rest) ++ (key ∷ []))
unfolding keys contains add_at add_counts
keys-add_at zero key count p rest h = absurd (omega arith)
keys-add_at (suc left) key count p [] h = ground arith
keys-add_at (suc left) key count p (q ∷ rest) h =
    ground (arith, keys-add_at left key count q rest (omega arith))

-- Up to 100000 nodes, the keys stay as they are, in their order, or the new one is put at the end.
keys-add_drop_list :
    (key : List ℕ) (count : DropCount) (entries : List Entry)
    → length entries ≤ 100000
    → keys (add_drop_list entries key count)
      ≡ (if contains key (keys entries) then keys entries else keys entries ++ (key ∷ []))
unfolding keys contains add_drop_list
keys-add_drop_list key count [] h =
    keys-add_at 100000 key count (fresh key) [] (omega arith) ∙ ground (arith, same_bytes_refl key)
keys-add_drop_list key count (p ∷ rest) h = keys-add_at 100000 key count p rest h

contains-snoc :
    (k key : List ℕ) (ks : List (List ℕ))
    → contains k (ks ++ (key ∷ [])) ≡ (contains k ks || same_bytes key k)
unfolding contains
contains-snoc k key [] = ground arith
contains-snoc k key (j ∷ ks) = ground (arith, contains-snoc k key ks)

Distinct-snoc :
    (key : List ℕ) (ks : List (List ℕ))
    → contains key ks ≡ false
    → Distinct ks
    → Distinct (ks ++ (key ∷ []))
unfolding contains
Distinct-snoc key [] new d = (refl, tt)
Distinct-snoc key (k ∷ ks) new d = (
  ground (arith, contains-snoc k key ks, same_bytes_comm k key, d.0),
  Distinct-snoc key ks (ground arith) d.1,
)

-- Up to 100000 nodes, a list in which no key stands twice stays such a list.
add_drop_list-Distinct :
    (key : List ℕ) (count : DropCount) (entries : List Entry)
    → length entries ≤ 100000
    → Distinct (keys entries)
    → Distinct (keys (add_drop_list entries key count))
add_drop_list-Distinct key count entries h d = elim (Bool-cases (contains key (keys entries))) [
  | inl e ↦ rw (keys-add_drop_list key count entries h, e) d
  | inr e ↦ rw (keys-add_drop_list key count entries h, e) (Distinct-snoc key (keys entries) e d)
]

-- A counter never passes the limit, and so never wraps.
abbrev pub IsBounded : Entry → Type 0
IsBounded p = (p.drop ≤ max_count) × (p.error ≤ max_count) × (p.scrambling ≤ max_count)

abbrev pub AllBounded : List Entry → Type 0
AllBounded [] = Unit {0}
AllBounded (p ∷ rest) = IsBounded p × AllBounded rest

-- The flags of a packet are 0 or 1.
abbrev pub IsFlagged : DropCount → Type 0
IsFlagged count = (count.now_drop ≤ 1) × (count.now_error ≤ 1) × (count.now_scrambling ≤ 1)

add_counts-IsBounded :
    (count : DropCount) (p : Entry) → IsFlagged count → IsBounded p → IsBounded (add_counts count p)
unfolding add_counts
add_counts-IsBounded count p f b = ground arith

add_at-AllBounded :
    (left : ℕ) (key : List ℕ) (count : DropCount) (entries : List Entry)
    → IsFlagged count
    → AllBounded entries
    → AllBounded (add_at left key count entries)
unfolding add_at
add_at-AllBounded left key count [] f b = tt
add_at-AllBounded zero key count (p ∷ rest) f b = (add_counts-IsBounded count p f b.0, b.1)
add_at-AllBounded (suc left) key count (p ∷ []) f b = elim (Bool-cases (same_bytes p.key key)) [
  | inl e ↦ rw e (add_counts-IsBounded count p f b.0, tt)
  | inr e ↦ rw e (b.0, (add_counts-IsBounded count (fresh key) f (omega arith), tt))
]
add_at-AllBounded (suc left) key count (p ∷ q ∷ rest) f b =
    elim (Bool-cases (same_bytes p.key key)) [
      | inl e ↦ rw e (add_counts-IsBounded count p f b.0, b.1)
      | inr e ↦ rw e (b.0, add_at-AllBounded left key count (q ∷ rest) f b.1)
    ]

-- For a packet's flags, which are 0 or 1, a list whose counters are at most 99999999 stays such a
-- list, whatever its length.
pub add_drop_list-AllBounded :
    (key : List ℕ) (count : DropCount) (entries : List Entry)
    → IsFlagged count
    → AllBounded entries
    → AllBounded (add_drop_list entries key count)
unfolding add_drop_list
add_drop_list-AllBounded key count [] f b =
    add_at-AllBounded 100000 key count (fresh key ∷ []) f (omega arith, tt)
add_drop_list-AllBounded key count (p ∷ rest) f b =
    add_at-AllBounded 100000 key count (p ∷ rest) f b
