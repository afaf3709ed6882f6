-- ===== src/Base/Text.antt =====
-- Text as a list of character codes, and the conversions of `printf` that the program uses.
use Prim.Native.Nat.{ℕ, zero, suc, ◌+◌, ◌-◌, ◌/◌, ◌%◌}
use Prim.Native.Char.{code}
use Prim.Native.String.{String}
use mathlib.Core.List.{List, [], ◌∷◌, ◌++◌}
use tsanalytics.Base.Tests.{ltb, if◌then◌else◌}
use tsanalytics.Base.Lists.{length, replicate}

-- The codes of a text of ASCII characters.
abbrev pub codes : String → List ℕ
codes String.[] = []
codes (String.◌∷◌ c s) = code c ∷ codes s

-- A digit, with capital letters from ten on.
abbrev pub digit : ℕ → ℕ
digit d = if ltb d 10 then d + 48 else d + 55

-- The digits of a number to a base, the first one the highest, with so many to go. A number of
-- `k` bits has at most `k`.
unfoldable pub digits : ℕ → ℕ → ℕ → List ℕ
digits zero base n = []
digits (suc left) base n =
    let front = digits left base (n / base) in
    if ltb n base then digit n ∷ [] else front ++ (digit (n % base) ∷ [])

-- `%d` of a number that is not negative, and `%X`.
abbrev pub decimal : ℕ → List ℕ
decimal n = digits 64 10 n

abbrev pub hexadecimal : ℕ → List ℕ
hexadecimal n = digits 64 16 n

-- Zeros in front, as `%04X` and `%02d` put them.
abbrev pub zero_padded : ℕ → List ℕ → List ℕ
zero_padded width text = replicate (width - length text) 48 ++ text
