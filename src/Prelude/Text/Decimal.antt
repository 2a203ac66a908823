-- ===== src/Prelude/Text/Decimal.antt =====
-- The decimal text of a number, as `str(n)`.
use Prim.Native.Nat.{ℕ, zero, suc, ◌+◌}
use Prim.Native.String.{String, ◌++◌}
use mathlib.Core.List.{List, [], ◌∷◌}
use galaxz.Prelude.Tests.{◌==◌, if◌then◌else◌, get_elem?, get_or}

abbrev digits : List String
digits = "0" ∷ "1" ∷ "2" ∷ "3" ∷ "4" ∷ "5" ∷ "6" ∷ "7" ∷ "8" ∷ "9" ∷ []

-- the digits of the next number, the last digit first
increment : List ℕ → List ℕ
increment [] = 1 ∷ []
increment (d ∷ ds) = let rest = increment ds in if d == 9 then 0 ∷ rest else (d + 1) ∷ ds

digits_of : ℕ → List ℕ
digits_of zero = 0 ∷ []
digits_of (suc n) = increment (digits_of n)

write : List ℕ → String → String
write [] rest = rest
write (d ∷ ds) rest = write ds (get_or (get_elem? digits d) "0" ++ rest)

unfoldable pub decimal_text : ℕ → String
unfolding increment digits_of write
decimal_text n = write (digits_of n) ""
