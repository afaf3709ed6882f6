-- ===== src/Adapt/Control.antt =====
-- Control flow of `extract_adaptation_field`: a normal step, the early `return` that leaves
-- `*dst` cleared, or a read past the data.
use tsanalytics.Base.{ℕ, List, Option, none, some, get_elem?, ltb, if◌then◌else◌}

pub data Flow {ℓ} (A : Type ℓ) : Type ℓ where
  go : A → Flow A
  clear_and_return fault : Flow A

infixl 5 ◌>>=◌ ◌>>◌
abbrev pub ◌>>=◌ {ℓ κ} : {A : Type ℓ} {B : Type κ} → Flow A → (A → Flow B) → Flow B
go a >>= f = f a
clear_and_return >>= f = clear_and_return
fault >>= f = fault

abbrev pub ◌>>◌ {ℓ} : {B : Type ℓ} → Flow (Unit {0}) → Flow B → Flow B
m >> k = m >>= λ _. k

abbrev pub lift {ℓ} : {A : Type ℓ} → Option A → Flow A
lift none = fault
lift (some a) = go a

-- `data[i]`
abbrev pub read : List ℕ → ℕ → Flow ℕ
read bytes i = lift (get_elem? bytes i)

-- `if (q > tail) { memset(dst, 0, …); return; }` on positions.
abbrev pub check_end : ℕ → ℕ → Flow (Unit {0})
check_end q tail = if ltb tail q then clear_and_return else go tt
