-- ===== src/Prelude/Table.antt =====
-- Tables of a relational store: rows with a numeric primary key, in order of insertion. `modify`
-- is UPDATE … WHERE key = k, `find` is SELECT … WHERE key = k, and `select` a query by a test.
use Prim.Native.Nat.{ℕ}
pub mod First
pub mod Select
pub mod Count
use mathlib.Core.Path.{◌≡◌, refl}
use mathlib.Core.Bool.{Bool, true, false, ◌||◌}
use mathlib.Core.Logic.{◌≢◌, ◌⊎◌, inl, inr}
use mathlib.Core.Option.{Option, none, some}
use mathlib.Core.List.{List, [], ◌∷◌, ◌++◌}
use native.Mathlib.Omega.{arith}
use galaxz.Prelude.Tests.{◌==◌, if◌then◌else◌, Bool-cases, Option-cases}

module _ {ℓ} {R : Type ℓ} where
  unfoldable pub find_by : (R → Bool) → List R → Option R
  find_by p [] = none
  find_by p (r ∷ rs) = if p r then some r else find_by p rs

  unfoldable pub select : (R → Bool) → List R → List R
  select p [] = []
  select p (r ∷ rs) = let rest = select p rs in if p r then r ∷ rest else rest

  unfoldable pub exists : (R → Bool) → List R → Bool
  exists p [] = false
  exists p (r ∷ rs) = p r || exists p rs

  abbrev pub All {κ} : (R → Type κ) → List R → Type κ
  All P [] = Unit
  All P (r ∷ rs) = P r × All P rs

pub All-map {ℓ κ μ} :
    {R : Type ℓ} (P : R → Type κ) (Q : R → Type μ) (rs : List R)
    → ((r : R) → P r → Q r)
    → All P rs
    → All Q rs
All-map P Q [] f h = tt
All-map P Q (r ∷ rs) f h = (f r h.0, All-map P Q rs f h.1)

module _ {ℓ} {R : Type ℓ} (key : R → ℕ) where
  unfoldable pub find : ℕ → List R → Option R
  find k [] = none
  find k (r ∷ rs) = if key r == k then some r else find k rs

  unfoldable pub modify : ℕ → (R → R) → List R → List R
  modify k f [] = []
  modify k f (r ∷ rs) = (if key r == k then f r else r) ∷ modify k f rs

  -- no two rows have one key
  abbrev pub IsKeyed : List R → Type ℓ
  IsKeyed [] = Unit
  IsKeyed (r ∷ rs) = (find (key r) rs ≡ none) × IsKeyed rs

  abbrev map_option : (R → R) → Option R → Option R
  map_option f none = none
  map_option f (some r) = some (f r)

  abbrev or_else : Option R → Option R → Option R
  or_else none o = o
  or_else (some r) o = some r

  pub key-find : (k : ℕ) (rs : List R) (r : R) → find k rs ≡ some r → key r ≡ k
  unfolding find
  key-find k [] r h = ground arith
  key-find k (q ∷ rs) r h = ground (arith, key-find k rs r)

  -- what holds of all rows holds of a row that is found
  pub find-All {κ} :
      (P : R → Type κ) (k : ℕ) (rs : List R) (r : R) → All P rs → find k rs ≡ some r → P r
  unfolding find
  find-All P k [] r h e = absurd (ground arith)
  find-All P k (q ∷ rs) r h e = elim (Bool-cases (key q == k)) [
    | inl hit ↦ let same : r ≡ q = ground arith in rw same h.0
    | inr miss ↦ find-All P k rs r h.1 (ground arith)
  ]

  pub find-append :
      (k : ℕ) (rs : List R) (r : R)
      → find k (rs ++ r ∷ []) ≡ or_else (find k rs) (if key r == k then some r else none)
  unfolding find
  find-append k [] r = refl
  find-append k (q ∷ rs) r = ground (arith, find-append k rs r)

  pub IsKeyed-append :
      (rs : List R) (r : R) → IsKeyed rs → find (key r) rs ≡ none → IsKeyed (rs ++ r ∷ [])
  unfolding find
  IsKeyed-append [] r d h = (refl, tt)
  IsKeyed-append (q ∷ rs) r d h =
      (ground (arith, find-append (key q) rs r), IsKeyed-append rs r d.1 (ground arith))

  module _ (f : R → R) (same_key : (r : R) → key (f r) ≡ key r) where
    pub find-modify :
        (k j : ℕ) (rs : List R)
        → find j (modify k f rs) ≡ (if k == j then map_option f (find k rs) else find j rs)
    unfolding find modify
    find-modify k j [] = ground arith
    find-modify k j (r ∷ rs) = ground (arith, find-modify k j rs, same_key r)

    pub IsKeyed-modify : (k : ℕ) (rs : List R) → IsKeyed rs → IsKeyed (modify k f rs)
    unfolding find modify
    IsKeyed-modify k [] d = tt
    IsKeyed-modify k (r ∷ rs) d =
        (ground (arith, find-modify k (key r) rs, same_key r), IsKeyed-modify k rs d.1)

    pub find-modify_hit :
        (k : ℕ) (rs : List R) (r : R) → find k rs ≡ some r → find k (modify k f rs) ≡ some (f r)
    find-modify_hit k rs r h = ground (arith, find-modify k k rs)

    pub find-modify_ne : (k j : ℕ) (rs : List R) → k ≢ j → find j (modify k f rs) ≡ find j rs
    find-modify_ne k j rs h = ground (arith, find-modify k j rs)

    -- a row that is found after the update is the updated one, or was there before
    pub find-modify_cases :
        (k j : ℕ) (rs : List R) (q : R)
        → find j (modify k f rs) ≡ some q
        → ((k ≡ j) × (r : R) × (find k rs ≡ some r) × (q ≡ f r)) ⊎ ((k ≢ j) × (find j rs ≡ some q))
    find-modify_cases k j rs q h = elim (Bool-cases (k == j)) [
      | inl same ↦ elim (Option-cases (find k rs)) [
        | inl missing ↦ absurd (ground (arith, find-modify k j rs))
        | inr (r, there) ↦ inl (ground arith, r, there, ground (arith, find-modify k j rs))
      ]
      | inr other ↦ inr (ground arith, ground (arith, find-modify k j rs))
    ]

  -- a row that is found after an insertion was there before, or is the new one
  pub find-append_cases :
      (k : ℕ) (rs : List R) (r q : R)
      → find k (rs ++ r ∷ []) ≡ some q
      → (find k rs ≡ some q) ⊎ ((find k rs ≡ none) × (key r ≡ k) × (q ≡ r))
  find-append_cases k rs r q h = elim (Option-cases (find k rs)) [
    | inl missing ↦
        inr (missing, ground (arith, find-append k rs r), ground (arith, find-append k rs r))
    | inr (p, there) ↦ inl (ground (arith, find-append k rs r))
  ]

  pub find-append_old :
      (k : ℕ) (rs : List R) (r q : R) → find k rs ≡ some q → find k (rs ++ r ∷ []) ≡ some q
  find-append_old k rs r q h = ground (arith, find-append k rs r)

  pub find-append_new :
      (rs : List R) (r : R) → find (key r) rs ≡ none → find (key r) (rs ++ r ∷ []) ≡ some r
  find-append_new rs r h = ground (arith, find-append (key r) rs r)

  -- an update keeps every row findable
  pub find-modify-some :
      (f : R → R) (same_key : (r : R) → key (f r) ≡ key r) (k j : ℕ) (rs : List R) (r : R)
      → find j rs ≡ some r
      → (q : R) × (find j (modify k f rs) ≡ some q) × ((q ≡ f r) ⊎ (q ≡ r))
  find-modify-some f same_key k j rs r h = elim (Bool-cases (k == j)) [
    | inl same ↦ (f r, ground (arith, find-modify f same_key k j rs), inl refl)
    | inr other ↦ (r, ground (arith, find-modify f same_key k j rs), inr refl)
  ]

  -- where no row passes a test, no row that is found does
  pub find-exists :
      (p : R → Bool) (k : ℕ) (rs : List R) (r : R)
      → exists p rs ≡ false
      → find k rs ≡ some r
      → p r ≡ false
  unfolding exists find
  find-exists p k [] r h there = ground arith
  find-exists p k (q ∷ rs) r h there = ground (arith, find-exists p k rs r)

  -- rows among which a key is not found have other keys
  pub All-absent : (k : ℕ) (rs : List R) → find k rs ≡ none → All (λ q. k ≢ key q) rs
  unfolding find
  All-absent k [] h = tt
  All-absent k (r ∷ rs) h = (λ e. ground arith, All-absent k rs (ground arith))

pub All-both {ℓ κ μ} :
    {R : Type ℓ} (P : R → Type κ) (Q : R → Type μ) (rs : List R)
    → All P rs
    → All Q rs
    → All (λ r. P r × Q r) rs
All-both P Q [] p q = tt
All-both P Q (r ∷ rs) p q = ((p.0, q.0), All-both P Q rs p.1 q.1)
