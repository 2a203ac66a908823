-- ===== src/Policy/Grants/Uses.antt =====
-- On the use of a grant by the grant store.
use galaxz.Prelude.{
  leb, ℕ, ◌≤◌, ◌≡◌, ◌≢◌, refl, ◌⊎◌, inl, inr, Bool, true, false, none, some, List, [], ◌∷◌,
  Bool-cases, Option-cases, arith,
}
use galaxz.Prelude.Table.{
  All, All-map, find, modify, select, IsKeyed, find-modify_hit, find-modify_ne,
}
use galaxz.Prelude.Table.Select.{All-select}
use galaxz.Policy.Grants.{
  leb, Scope, Grant, grant_key, usable, earlier, oldest, use_grant, use_found, consume,
}

-- `g` is the first of the rows in the order of creation
abbrev pub IsOldest : Grant → List Grant → Type 0
IsOldest g rows = All (λ (h : Grant). g.created_at ≤ h.created_at) rows

oldest-none : (g : Grant) (rows : List Grant) → oldest rows ≡ none → IsOldest g rows
unfolding oldest
oldest-none g [] e = tt
oldest-none g (r ∷ rs) e = absurd (ground arith)

oldest-IsOldest : (rows : List Grant) (g : Grant) → oldest rows ≡ some g → IsOldest g rows
unfolding oldest earlier
oldest-IsOldest [] g e = tt
oldest-IsOldest (r ∷ rs) g e = elim (Option-cases (oldest rs)) [
  | inl nothing ↦ (ground arith, oldest-none g rs nothing)
  | inr (h, there) ↦ (
    ground arith,
    All-map (λ (i : Grant). h.created_at ≤ i.created_at) _ rs (λ i le. ground arith)
        (oldest-IsOldest rs h there),
  )
]

oldest-All {κ} :
    (P : Grant → Type κ) (rows : List Grant) (g : Grant) → All P rows → oldest rows ≡ some g → P g
unfolding oldest earlier
oldest-All P [] g h e = absurd (ground arith)
oldest-All P (r ∷ rs) g h e = elim (Option-cases (oldest rs)) [
  | inl nothing ↦ let same : g ≡ r = ground arith in rw same h.0
  | inr (s, there) ↦ elim (Bool-cases (leb r.created_at s.created_at)) [
    | inl first ↦ let same : g ≡ r = ground arith in rw same h.0
    | inr later ↦ let same : g ≡ s = ground arith in rw same (oldest-All P rs s h.1 there)
  ]
]

select-none :
    (p : Grant → Bool) (rows : List Grant)
    → oldest (select p rows) ≡ none
    → All (λ g. p g ≡ false) rows
unfolding select oldest
select-none p [] e = tt
select-none p (r ∷ rs) e = elim (Bool-cases (p r)) [
  | inl passes ↦ absurd (ground arith)
  | inr fails ↦ (fails, select-none p rs (ground arith))
]

-- what a consume that approves has done: it has used `grant`
pub record IsUsed (scope : Scope) (now : ℕ) (rows after : List Grant) : Type 0 where
  pub grant : Grant
  pub found : find grant_key grant.grant_id rows ≡ some grant
  pub was_usable : usable scope now grant ≡ true
  pub first : IsOldest grant (select (usable scope now) rows)
  pub used : find grant_key grant.grant_id after ≡ some (use_grant now grant)
  pub others : (k : ℕ) → grant.grant_id ≢ k → find grant_key k after ≡ find grant_key k rows

abbrev pub AllUnusable : Scope → ℕ → List Grant → Type 0
AllUnusable scope now rows = All (λ g. usable scope now g ≡ false) rows

pub same_grant_id : (now : ℕ) (g : Grant) → (use_grant now g).grant_id ≡ g.grant_id
unfolding use_grant
same_grant_id now g = refl

module _ (scope : Scope) (now : ℕ) (rows : List Grant) (keyed : IsKeyed grant_key rows) where
  -- the row that the subquery names is in the table, and usable
  pub oldest-usable :
      (g : Grant)
      → oldest (select (usable scope now) rows) ≡ some g
      → (find grant_key g.grant_id rows ≡ some g) × (usable scope now g ≡ true)
  oldest-usable g there =
      oldest-All (λ r. (find grant_key r.grant_id rows ≡ some r) × (usable scope now r ≡ true))
        (select (usable scope now) rows) g (All-select grant_key (usable scope now) rows keyed)
        there

  IsUsed-grant :
      (g : Grant)
      → oldest (select (usable scope now) rows) ≡ some g
      → IsUsed scope now rows (modify grant_key g.grant_id (use_grant now) rows)
  IsUsed-grant g there =
      let (found, passes) = oldest-usable g there in
      record {
        grant = g;
        found = found;
        was_usable = passes;
        first = oldest-IsOldest (select (usable scope now) rows) g there;
        used =
            find-modify_hit grant_key (use_grant now) (same_grant_id now) g.grant_id rows g found;
        others = λ k other.
            find-modify_ne grant_key (use_grant now) (same_grant_id now) g.grant_id k rows other;
      }

  -- With one row for an identifier: a consume approves exactly when it has used the oldest grant
  -- of the scope that was neither used nor expired, and no other row has changed; it refuses exactly when
  -- there is no such grant, and changes nothing.
  pub consume_cases :
      (((consume scope now rows).1 ≡ true) × IsUsed scope now rows (consume scope now rows).0)
      ⊎ ((consume scope now rows ≡ (rows, false)) × AllUnusable scope now rows)
  unfolding consume use_found
  consume_cases = elim (Option-cases (oldest (select (usable scope now) rows))) [
    | inl nothing ↦ inr (rw nothing refl, select-none (usable scope now) rows nothing)
    | inr (g, there) ↦ inl (rw there refl, rw there (IsUsed-grant g there))
  ]
