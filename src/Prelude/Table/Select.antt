-- ===== src/Prelude/Table/Select.antt =====
-- Queries of a keyed table.
use Prim.Native.Nat.{ℕ}
use mathlib.Core.Path.{◌≡◌, refl}
use mathlib.Core.Bool.{Bool, true, false}
use mathlib.Core.Logic.{inl, inr}
use mathlib.Core.Option.{none, some}
use mathlib.Core.List.{List, [], ◌∷◌}
use native.Mathlib.Omega.{arith}
use galaxz.Prelude.Tests.{Bool-cases}
use galaxz.Prelude.Table.{find, select, IsKeyed, All, All-map}

module _ {ℓ} {R : Type ℓ} (key : R → ℕ) where
  older :
      (p : R → Bool) (r : R) (rs : List R)
      → find key (key r) rs ≡ none
      → (q : R) → (find key (key q) rs ≡ some q) × (p q ≡ true)
      → (find key (key q) (r ∷ rs) ≡ some q) × (p q ≡ true)
  unfolding find
  older p r rs none_left q (there, passes) = (ground arith, passes)

  find-select-none :
      (p : R → Bool) (k : ℕ) (rs : List R) → find key k rs ≡ none → find key k (select p rs) ≡ none
  unfolding find select
  find-select-none p k [] h = refl
  find-select-none p k (r ∷ rs) h = ground (arith, find-select-none p k rs)

  pub IsKeyed-select : (p : R → Bool) (rs : List R) → IsKeyed key rs → IsKeyed key (select p rs)
  unfolding select
  IsKeyed-select p [] d = tt
  IsKeyed-select p (r ∷ rs) d = elim (Bool-cases (p r)) [
    | inl kept ↦ rw kept (find-select-none p (key r) rs d.0, IsKeyed-select p rs d.1)
    | inr dropped ↦ rw dropped (IsKeyed-select p rs d.1)
  ]

  -- the rows of a query are the table's, and pass its test
  pub All-select :
      (p : R → Bool) (rs : List R)
      → IsKeyed key rs
      → All (λ r. (find key (key r) rs ≡ some r) × (p r ≡ true)) (select p rs)
  unfolding select find
  All-select p [] d = tt
  All-select p (r ∷ rs) d = elim (Bool-cases (p r)) [
    | inl kept ↦
        rw kept
          ((ground arith, kept), All-map _ _ (select p rs) (older p r rs d.0) (All-select p rs d.1))
    | inr dropped ↦ rw dropped (All-map _ _ (select p rs) (older p r rs d.0) (All-select p rs d.1))
  ]

  -- a row that passes the test is found among the rows of the query
  pub find-select :
      (p : R → Bool) (rs : List R) (k : ℕ) (r : R)
      → IsKeyed key rs
      → find key k rs ≡ some r
      → p r ≡ true
      → find key k (select p rs) ≡ some r
  unfolding select find
  find-select p [] k r d h passes = ground arith
  find-select p (q ∷ rs) k r d h passes =
      ground (arith, find-select p rs k r d.1, find-select-none p k rs)

  -- a row that fails the test is not
  pub find-select_out :
      (p : R → Bool) (rs : List R) (k : ℕ) (r : R)
      → IsKeyed key rs
      → find key k rs ≡ some r
      → p r ≡ false
      → find key k (select p rs) ≡ none
  unfolding select find
  find-select_out p [] k r d h fails = ground arith
  find-select_out p (q ∷ rs) k r d h fails =
      ground (arith, find-select_out p rs k r d.1, find-select-none p k rs)
