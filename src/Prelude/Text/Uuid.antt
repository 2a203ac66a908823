-- ===== src/Prelude/Text/Uuid.antt =====
-- The canonical text of a UUID: 32 hexadecimal digits in five groups.
use Prim.Native.Nat.{ℕ, zero, suc, ◌+◌, ◌≤◌, ◌/◌, ◌%◌}
use Prim.Native.String.{String, ◌++◌, count}
use mathlib.Core.Path.{◌≡◌, refl, ap}
use mathlib.Core.Logic.{inl, inr}
use native.Mathlib.Omega.{arith}
use text.Mathlib.Text.{◌==◌ as str_eq}
use text.Mathlib.TextEquality.{eq_iff}
use text.Mathlib.TextLemmas.{length-append}
use mathlib.Core.Bool.{false, ◌||◌}
use mathlib.Core.List.{List, [], ◌∷◌}
use galaxz.Prelude.Tests.{◌==◌, if◌then◌else◌, get_elem?, get_or, Bool-cases}

abbrev All : (String → Type 0) → List String → Type 0
All P [] = Unit
All P (s ∷ ss) = P s × All P ss

abbrev digits : List String
digits =
    "0" ∷ "1" ∷ "2" ∷ "3" ∷ "4" ∷ "5" ∷ "6" ∷ "7" ∷ "8" ∷ "9" ∷ "a" ∷ "b" ∷ "c" ∷ "d" ∷ "e" ∷ "f"
    ∷ []

hyphen_before : ℕ → String
hyphen_before k = if k == 8 || (k == 12 || (k == 16 || k == 20)) then "-" else ""

-- the first `k` digits of the text, before what follows them
first_digits : ℕ → ℕ → String → String
unfolding hyphen_before
first_digits zero n rest = rest
first_digits (suc k) n rest =
    first_digits k (n / 16) (hyphen_before k ++ get_or (get_elem? digits (n % 16)) "0" ++ rest)

unfoldable pub uuid_text : ℕ → String
unfolding first_digits
uuid_text n = first_digits 32 n ""

digit_count :
    (ds : List String) (m : ℕ) → All (λ s. count s ≡ 1) ds → count (get_or (get_elem? ds m) "0") ≡ 1
digit_count [] m h = refl
digit_count (d ∷ ds) zero h = h.0
digit_count (d ∷ ds) (suc m) h = digit_count ds m h.1

one_each : All (λ s. count s ≡ 1) digits
one_each = search

count-le : (k n : ℕ) (rest : String) → k + count rest ≤ count (first_digits k n rest)
unfolding first_digits
count-le zero n rest = omega arith
count-le (suc k) n rest = omega (
  arith,
  count-le k (n / 16) (hyphen_before k ++ get_or (get_elem? digits (n % 16)) "0" ++ rest),
  length-append (hyphen_before k) (get_or (get_elem? digits (n % 16)) "0" ++ rest),
  length-append (get_or (get_elem? digits (n % 16)) "0") rest,
  digit_count digits (n % 16) one_each,
)

-- the text has its digits
pub uuid_text-ne : (n : ℕ) → str_eq (uuid_text n) "" ≡ false
unfolding uuid_text
uuid_text-ne n = elim (Bool-cases (str_eq (first_digits 32 n "") "")) [
  | inr other ↦ other
  | inl blank ↦
      absurd
        (omega (arith, count-le 32 n "", ap count ((eq_iff (first_digits 32 n "") "").0 blank)))
]
