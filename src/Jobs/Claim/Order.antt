-- ===== src/Jobs/Claim/Order.antt =====
-- The order in which jobs are claimed.
use mathlib.Core.Path.{subst}
use galaxz.Prelude.{
  ◌≡◌, refl, sym, ◌∙◌, true, false, List, [], ◌∷◌, ◌⊎◌, inl, inr, some, none, Option-cases,
  Bool-cases, arith,
}
use galaxz.Prelude.Table.{All, All-map}
use galaxz.Jobs.Store.{JobRow}
use galaxz.Jobs.Claim.{precedes, first_row}

precedes_asym : (r s : JobRow) → precedes r s ≡ true → precedes s r ≡ false
unfolding precedes
precedes_asym r s h = ground arith

precedes_irrefl : (r : JobRow) → precedes r r ≡ false
unfolding precedes
precedes_irrefl r = ground arith

-- what does not come before `s` does not come before `r`, if `s` does not
precedes_trans :
    (q s r : JobRow) → precedes q s ≡ false → precedes s r ≡ false → precedes q r ≡ false
unfolding precedes
precedes_trans q s r h k = ground arith

same_some : {r s : JobRow} → some r ≡ some s → r ≡ s
same_some h = cc

-- no row of the list comes before `r`
abbrev pub IsFirst : JobRow → List JobRow → Type 0
IsFirst r rows = All (λ q. precedes q r ≡ false) rows

first_row-cons :
    (r : JobRow) (rows : List JobRow) (s : JobRow)
    → first_row rows ≡ some s
    → ((precedes s r ≡ true) × (first_row (r ∷ rows) ≡ some s))
      ⊎ ((precedes s r ≡ false) × (first_row (r ∷ rows) ≡ some r))
unfolding first_row
first_row-cons r rows s h = elim (Bool-cases (precedes s r)) [
  | inl before ↦ inl (before, rw h (rw before refl))
  | inr after ↦ inr (after, rw h (rw after refl))
]

pub first_row-nil : (rows : List JobRow) → first_row rows ≡ none → rows ≡ []
unfolding first_row
first_row-nil [] h = refl
first_row-nil (r ∷ rows) h = absurd (ground arith)

first_row_single :
    (r : JobRow) (rows : List JobRow) → first_row rows ≡ none → first_row (r ∷ rows) ≡ some r
unfolding first_row
first_row_single r rows h = rw h

-- the chosen row has what all rows have
pub first_row-All {ℓ} :
    (P : JobRow → Type ℓ) (rows : List JobRow) (r : JobRow)
    → All P rows
    → first_row rows ≡ some r
    → P r
first_row-All P [] r h e = absurd (unfold first_row in ground arith)
first_row-All P (q ∷ rows) r h e = elim (Option-cases (first_row rows)) [
  | inl empty ↦ subst P (same_some (sym (first_row_single q rows empty) ∙ e)) h.0
  | inr (s, rest) ↦ elim (first_row-cons q rows s rest) [
    | inl (before, chosen) ↦ subst P (same_some (sym chosen ∙ e)) (first_row-All P rows s h.1 rest)
    | inr (after, chosen) ↦ subst P (same_some (sym chosen ∙ e)) h.0
  ]
]

-- and no row comes before it
pub first_row-IsFirst : (rows : List JobRow) (r : JobRow) → first_row rows ≡ some r → IsFirst r rows
first_row-IsFirst [] r e = tt
first_row-IsFirst (q ∷ rows) r e = elim (Option-cases (first_row rows)) [
  | inl empty ↦
      subst (λ z. IsFirst z (q ∷ rows)) (same_some (sym (first_row_single q rows empty) ∙ e))
        (precedes_irrefl q, subst (λ z. IsFirst q z) (sym (first_row-nil rows empty)) tt)
  | inr (s, rest) ↦ elim (first_row-cons q rows s rest) [
    | inl (before, chosen) ↦
        subst (λ z. IsFirst z (q ∷ rows)) (same_some (sym chosen ∙ e))
          (precedes_asym s q before, first_row-IsFirst rows s rest)
    | inr (after, chosen) ↦
        subst (λ z. IsFirst z (q ∷ rows)) (same_some (sym chosen ∙ e))
          (
            precedes_irrefl q,
            All-map _ _ rows (λ p h. precedes_trans p s q h after) (first_row-IsFirst rows s rest),
          )
  ]
]
