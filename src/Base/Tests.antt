-- ===== src/Base/Tests.antt =====
-- The comparisons of C on numbers and on byte sequences, and the conditional.
use Prim.Native.Nat.{ℕ, zero, suc, ◌<◌, ◌≤◌, compare, Ordering}
use mathlib.Core.Path.{◌≡◌, refl}
use mathlib.Core.Logic.{◌↔◌, ◌⊎◌, inl, inr}
use mathlib.Core.Bool.{Bool, true, false, ◌&&◌}
use mathlib.Core.List.{List, [], ◌∷◌}
use native.Mathlib.Omega.{arith}

abbrev pub ltb : ℕ → ℕ → Bool
ltb a b = elim (compare a b) [ Ordering.lt ↦ true | _ ↦ false ]

abbrev pub leb : ℕ → ℕ → Bool
leb a b = elim (compare a b) [ Ordering.gt ↦ false | _ ↦ true ]

infix 50 ◌==◌
abbrev pub ◌==◌ : ℕ → ℕ → Bool
a == b = elim (compare a b) [ Ordering.eq ↦ true | _ ↦ false ]

infix 1 if◌then◌else◌
abbrev pub if◌then◌else◌ {ℓ} : {A : Type ℓ} → Bool → A → A → A
if true then x else y = x
if false then x else y = y

-- `memcmp` and `strcmp` on whole sequences: `true` for the result 0.
abbrev pub same_bytes : List ℕ → List ℕ → Bool
same_bytes [] [] = true
same_bytes [] (b ∷ bs) = false
same_bytes (a ∷ as') [] = false
same_bytes (a ∷ as') (b ∷ bs) = a == b && same_bytes as' bs

pub ==_iff : (a b : ℕ) → ((a == b) ≡ true) ↔ (a ≡ b)
==_iff a b = ground arith

pub ltb→lt : (a b : ℕ) → ltb a b ≡ true → a < b
ltb→lt a b h = ground arith

pub leb→le : (a b : ℕ) → leb a b ≡ true → a ≤ b
leb→le a b h = ground arith

pub same_bytes_refl : (bs : List ℕ) → same_bytes bs bs ≡ true
same_bytes_refl [] = refl
same_bytes_refl (b ∷ bs) = ground (arith, same_bytes_refl bs)

pub same_bytes_sound : (as' bs : List ℕ) → same_bytes as' bs ≡ true → as' ≡ bs
same_bytes_sound [] [] h = refl
same_bytes_sound [] (b ∷ bs) h = ground arith
same_bytes_sound (a ∷ as') [] h = ground arith
same_bytes_sound (a ∷ as') (b ∷ bs) h = ground (arith, same_bytes_sound as' bs)

-- To split on a computed value and keep the equation.
pub Bool-cases : (b : Bool) → (b ≡ true) ⊎ (b ≡ false)
Bool-cases true = inl refl
Bool-cases false = inr refl

-- A sequence that differs from one differs from its equals.
pub same_bytes_ne :
    (as' bs cs : List ℕ)
    → same_bytes as' bs ≡ false
    → same_bytes bs cs ≡ true
    → same_bytes as' cs ≡ false
same_bytes_ne as' bs cs ne e = rw (← same_bytes_sound bs cs e) ne

pub same_bytes_comm : (as' bs : List ℕ) → same_bytes as' bs ≡ same_bytes bs as'
same_bytes_comm [] [] = refl
same_bytes_comm [] (b ∷ bs) = refl
same_bytes_comm (a ∷ as') [] = refl
same_bytes_comm (a ∷ as') (b ∷ bs) = ground (arith, same_bytes_comm as' bs)

-- A test at every number below a limit.
unfoldable pub all_below : ℕ → (ℕ → Bool) → Bool
all_below zero p = true
all_below (suc n) p = p n && all_below n p

pub all_below-apply : (n : ℕ) (p : ℕ → Bool) (x : ℕ) → all_below n p ≡ true → x < n → p x ≡ true
unfolding all_below
all_below-apply zero p x h lt = absurd (omega arith)
all_below-apply (suc n) p x h lt = ground (arith, all_below-apply n p x)
