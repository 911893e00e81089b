-- ===== src/Base/Text.antt =====
-- Text as the list of its characters' numbers.
use Prim.Native.Nat.{ℕ, zero, suc, ◌+◌, ◌/◌, ◌%◌}
use netdump.Base.Tests.{◌==◌, if◌then◌else◌}
use Prim.Native.Char.{code}
use Prim.Native.String.{String, ◌∷◌ as ◌∷ₛ◌, [] as []ₛ}
use mathlib.Core.List.{List, [], ◌∷◌, ◌++◌}

abbrev pub codes : String → List ℕ
codes []ₛ = []
codes (c ∷ₛ s) = code c ∷ codes s

-- The digits of a number in front of its last one, of at most `k`.
abbrev pub digits : ℕ → ℕ → List ℕ
digits zero n = []
digits (suc k) n = if n == 0 then [] else digits k (n / 10) ++ ((48 + n % 10) ∷ [])

-- The decimal text of a number of at most 64 bits, which has at most twenty digits.
abbrev pub decimal : ℕ → List ℕ
decimal n = digits 19 (n / 10) ++ ((48 + n % 10) ∷ [])
