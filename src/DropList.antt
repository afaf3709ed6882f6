-- ===== src/DropList.antt =====
-- drop_list.c: `add_drop_list`, the counters of the defects by key (a percentage of the file, or
-- the time of the last TOT). The linked list is the list of its nodes; `char key[32]` is the
-- text in front of its NUL, and the callers' keys are shorter.
pub mod Lookup
pub mod Keys
pub mod Short
use tsanalytics.Base.{ℕ, zero, suc, ◌+◌, ltb, same_bytes, if◌then◌else◌, List, [], ◌∷◌, u64}
use tsanalytics.DropCount.{DropCount}

-- `DROP_LIST` without its link.
pub record Entry : Type 0 where
  pub key : List ℕ
  pub drop : ℕ
  pub error : ℕ
  pub scrambling : ℕ

-- A node from `calloc`, with its key.
abbrev pub fresh : List ℕ → Entry
fresh key = record { key = key; drop = 0; error = 0; scrambling = 0 }

abbrev pub max_count : ℕ
max_count = 99999999

-- The three guarded additions at the end of the function.
pub add_counts : DropCount → Entry → Entry
add_counts count p = record p {
  drop = if ltb p.drop max_count then u64 (p.drop + count.now_drop) else p.drop;
  error = if ltb p.error max_count then u64 (p.error + count.now_error) else p.error;
  scrambling =
      if ltb p.scrambling max_count
      then u64 (p.scrambling + count.now_scrambling)
      else p.scrambling;
}

-- The loop at the first node of the list, with so many rounds to go. When none is left, `p` is
-- used as it is. The loop never stands at the end of the list.
pub add_at : ℕ → List ℕ → DropCount → List Entry → List Entry
add_at left key count [] = []
add_at zero key count (p ∷ rest) = add_counts count p ∷ rest
add_at (suc left) key count (p ∷ []) =
    if same_bytes p.key key then add_counts count p ∷ [] else p ∷ add_counts count (fresh key) ∷ []
add_at (suc left) key count (p ∷ q ∷ rest) =
    let behind = add_at left key count (q ∷ rest) in
    if same_bytes p.key key then add_counts count p ∷ q ∷ rest else p ∷ behind

pub add_drop_list : List Entry → List ℕ → DropCount → List Entry
add_drop_list [] key count = add_at 100000 key count (fresh key ∷ [])
add_drop_list (p ∷ rest) key count = add_at 100000 key count (p ∷ rest)

-- The loop of `free_drop_list`: the nodes that are left when its rounds are used up.
pub free_nodes : ℕ → List Entry → List Entry
free_nodes zero entries = entries
free_nodes (suc left) [] = []
free_nodes (suc left) (p ∷ rest) = free_nodes left rest

pub free_drop_list : List Entry → List Entry
free_drop_list entries = free_nodes 1000000 entries
