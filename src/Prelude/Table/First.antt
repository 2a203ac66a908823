-- ===== src/Prelude/Table/First.antt =====
-- The first row that passes a test (`find_by`), and its key.
use galaxz.Prelude.Tests.{Bool-cases}
use Prim.Native.Nat.{ℕ}
use mathlib.Core.Path.{◌≡◌}
use mathlib.Core.Bool.{Bool, true}
use mathlib.Core.Logic.{inl, inr}
use mathlib.Core.Option.{none, some}
use mathlib.Core.List.{List, [], ◌∷◌, ◌++◌}
use native.Mathlib.Omega.{arith}
use galaxz.Prelude.Table.{find, find_by, IsKeyed}

module _ {ℓ} {R : Type ℓ} (p : R → Bool) where
  pub find_by-append_new :
      (rs : List R) (r : R) → find_by p rs ≡ none → p r ≡ true → find_by p (rs ++ r ∷ []) ≡ some r
  unfolding find_by
  find_by-append_new [] r h passes = ground arith
  find_by-append_new (q ∷ rs) r h passes = ground (arith, find_by-append_new rs r)

  module _ (key : R → ℕ) where
    -- a row that a key finds and that passes is not missed
    pub find_by-hit :
        (rs : List R) (k : ℕ) (r : R)
        → find key k rs ≡ some r
        → p r ≡ true
        → (q : R) × (find_by p rs ≡ some q) × (p q ≡ true)
    unfolding find_by find
    find_by-hit [] k r h passes = absurd (ground arith)
    find_by-hit (q ∷ rs) k r h passes = elim (Bool-cases (p q)) [
      | inl passing ↦ (q, ground arith, passing)
      | inr failing ↦
          let (s, there, ok) = find_by-hit rs k r (ground arith) passes in (s, ground arith, ok)
    ]

    -- the row found by the test is found by its key
    pub find_by-find :
        (rs : List R) (r : R)
        → IsKeyed key rs
        → find_by p rs ≡ some r
        → find key (key r) rs ≡ some r
    unfolding find_by find
    find_by-find [] r d h = absurd (ground arith)
    find_by-find (q ∷ rs) r d h = ground (arith, find_by-find rs r d.1)
