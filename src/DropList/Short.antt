-- ===== src/DropList/Short.antt =====
-- The keys of the list fit the 32 bytes of a node.
use tsanalytics.Base.{ℕ, zero, suc, ◌≤◌, same_bytes, Bool-cases, inl, inr, List, [], ◌∷◌, length}
use tsanalytics.DropCount.{DropCount}
use tsanalytics.DropList.{Entry, fresh, add_counts, add_at, add_drop_list}

-- A text of at most 31 characters: with its NUL it fits 32 bytes.
abbrev pub Fits : List ℕ → Type 0
Fits text = length text ≤ 31

abbrev pub AllFit : List Entry → Type 0
AllFit [] = Unit {0}
AllFit (p ∷ rest) = Fits p.key × AllFit rest

add_at-AllFit :
    (left : ℕ) (key : List ℕ) (count : DropCount) (entries : List Entry)
    → Fits key
    → AllFit entries
    → AllFit (add_at left key count entries)
unfolding add_at add_counts
add_at-AllFit left key count [] k f = tt
add_at-AllFit zero key count (p ∷ rest) k f = f
add_at-AllFit (suc left) key count (p ∷ []) k f = elim (Bool-cases (same_bytes p.key key)) [
  | inl e ↦ rw e f
  | inr e ↦ rw e (f.0, (k, tt))
]
add_at-AllFit (suc left) key count (p ∷ q ∷ rest) k f = elim (Bool-cases (same_bytes p.key key)) [
  | inl e ↦ rw e f
  | inr e ↦ rw e (f.0, add_at-AllFit left key count (q ∷ rest) k f.1)
]

pub add_drop_list-AllFit :
    (key : List ℕ) (count : DropCount) (entries : List Entry)
    → Fits key
    → AllFit entries
    → AllFit (add_drop_list entries key count)
unfolding add_drop_list
add_drop_list-AllFit key count [] k f = add_at-AllFit 100000 key count (fresh key ∷ []) k (k, tt)
add_drop_list-AllFit key count (p ∷ rest) k f = add_at-AllFit 100000 key count (p ∷ rest) k f
