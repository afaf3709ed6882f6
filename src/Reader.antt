-- ===== src/Reader.antt =====
-- A run of `getBit` calls on one buffer: the state is the caller's `boff`, and `none` is
-- undefined behaviour.
use tsanalytics.Base.{ℕ, ◌+◌, List, Option, none, some, u64}
use tsanalytics.GetBit.{get_bit}

abbrev pub Reader {ℓ} : Type ℓ → Type ℓ
Reader A = ℕ → Option (A × ℕ)

infixl 5 ◌>>=◌ ◌>>◌
abbrev pub ◌>>=◌ {ℓ κ} : {A : Type ℓ} {B : Type κ} → Reader A → (A → Reader B) → Reader B
◌>>=◌ m f boff = elim (m boff) [ none ↦ none | some (a, boff') ↦ f a boff' ]

abbrev pub ◌>>◌ {ℓ} : {B : Type ℓ} → Reader (Unit {0}) → Reader B → Reader B
m >> k = m >>= λ _. k

abbrev pub return {ℓ} : {A : Type ℓ} → A → Reader A
return a boff = some (a, boff)

-- `getBit(buf, &boff, gbit)`
abbrev pub get : List ℕ → ℕ → Reader ℕ
get buf gbit boff = get_bit buf boff gbit

-- `boff += n`
abbrev pub skip : ℕ → Reader (Unit {0})
skip n boff = some (tt, u64 (boff + n))

-- A computation that leaves `boff` alone.
abbrev pub lift {ℓ} : {A : Type ℓ} → Option A → Reader A
lift none boff = none
lift (some a) boff = some (a, boff)

-- `uint64_t boff = 0;` and then the calls; `boff` is local.
abbrev pub run {ℓ} : {A : Type ℓ} → Reader A → Option A
run m = elim (m 0) [ none ↦ none | some (a, boff) ↦ some a ]
