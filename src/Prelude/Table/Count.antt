-- ===== src/Prelude/Table/Count.antt =====
-- The number of rows that pass a test, across an update and an insertion.
use Prim.Native.Nat.{ℕ, ◌+◌}
use mathlib.Core.Path.{◌≡◌, refl}
use mathlib.Core.Bool.{Bool}
use mathlib.Core.Option.{none, some}
use mathlib.Core.List.{List, [], ◌∷◌, ◌++◌}
use native.Mathlib.Omega.{arith}
use galaxz.Prelude.Tests.{if◌then◌else◌}
use galaxz.Prelude.Table.{find, modify, IsKeyed}

module _ {ℓ} {R : Type ℓ} where
  unfoldable pub count : (R → Bool) → List R → ℕ
  count p [] = 0
  count p (r ∷ rs) = (if p r then 1 else 0) + count p rs

  pub count-append :
      (p : R → Bool) (rs : List R) (r : R)
      → count p (rs ++ r ∷ []) ≡ count p rs + (if p r then 1 else 0)
  unfolding count
  count-append p [] r = ground arith
  count-append p (q ∷ rs) r = ground (arith, count-append p rs r)

  module _ (p : R → Bool) (key : R → ℕ) (f : R → R) where
    pub modify-absent : (k : ℕ) (rs : List R) → find key k rs ≡ none → modify key k f rs ≡ rs
    unfolding find modify
    modify-absent k [] h = refl
    modify-absent k (r ∷ rs) h = ground (arith, modify-absent k rs)

    -- one row is counted anew
    pub count-modify :
        (k : ℕ) (rs : List R) (r : R)
        → IsKeyed key rs
        → find key k rs ≡ some r
        → count p (modify key k f rs) + (if p r then 1 else 0)
          ≡ count p rs + (if p (f r) then 1 else 0)
    unfolding count find modify
    count-modify k [] r d h = absurd (ground arith)
    count-modify k (q ∷ rs) r d h = ground (arith, count-modify k rs r d.1, modify-absent k rs)
