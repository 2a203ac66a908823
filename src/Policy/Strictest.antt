-- ===== src/Policy/Strictest.antt =====
-- On the choice of a decision across skills by the policy engine.
use mathlib.Core.Path.{subst}
use galaxz.Prelude.{
  ℕ, suc, zero, ◌≤◌, String, true, ◌≡◌, refl, ◌⊎◌, inl, inr, Option, some, List, [], ◌∷◌,
  Bool-cases, arith, ltb, ok, eq_iff, get_elem?, if◌then◌else◌,
}
use galaxz.Prelude.Text.{str_eq, contains}
use galaxz.Prelude.Table.{All}
use galaxz.Policy.Engine.{
  PolicyDecision, PolicyEngine, default_decision, severity, decision_of, evaluate_skill, stricter,
  evaluate_all, evaluate,
}
use galaxz.Policy.Load.{rule_actions}
use galaxz.Policy.Usable.{IsUsable, IsLoaded}
use galaxz.Policy.FirstMatch.{evaluate_skill-Decides}

-- a decision of the given severity
abbrev pub HasSeverity : PolicyDecision → ℕ → Type 0
HasSeverity d n = severity d.action ≡ ok n

All-at {ℓ κ} :
    {A : Type ℓ} (P : A → Type κ) (xs : List A) (i : ℕ) (x : A)
    → All P xs
    → get_elem? xs i ≡ some x
    → P x
All-at P [] i x h e = absurd (ground arith)
All-at P (y ∷ ys) zero x h e = subst P (ground arith) h.0
All-at P (y ∷ ys) (suc i) x h e = All-at P ys i x h.1 e

-- the actions of a loaded policy have a severity
usable-severity :
    (action : String) → contains rule_actions action ≡ true → (n : ℕ) × (severity action ≡ ok n)
unfolding contains severity
usable-severity action known = elim (Bool-cases (str_eq "deny" action)) [
  | inl deny ↦ let same : "deny" ≡ action = (eq_iff "deny" action).0 deny in (2, rw (← same) refl)
  | inr other ↦
      let review : str_eq "require_review" action ≡ true = ground arith in
      let same : "require_review" ≡ action = (eq_iff "require_review" action).0 review in
      (1, rw (← same) refl)
]

module _ (e : PolicyEngine) (loaded : IsLoaded e) (origin : Option String) where
  -- so has what they decide
  skill-severity : (s : String) → (n : ℕ) × HasSeverity (evaluate_skill e s origin) n
  unfolding severity decision_of
  skill-severity s = elim (evaluate_skill-Decides e s origin) [
    | inl (allowed, none_left) ↦ (0, rw allowed refl)
    | inr (i, r, first, eq) ↦
        let (n, known) =
          usable-severity r.action (All-at IsUsable e.rules i r loaded first.at).action in
        (n, rw eq known)
  ]

  abbrev pub Occurs : String → List String → Type 0
  Occurs s skills = (i : ℕ) × (get_elem? skills i ≡ some s)

  abbrev pub IsAtMost : ℕ → String → Type 0
  IsAtMost m s = (k : ℕ) × HasSeverity (evaluate_skill e s origin) k × (k ≤ m)

  -- `d` is the strictest of a decision of severity `n` and those on the skills
  pub record IsStrictest (skills : List String) (old : PolicyDecision) (n : ℕ) (d : PolicyDecision)
      : Type 0 where
    pub level : ℕ
    pub has_level : HasSeverity d level
    pub old_level : n ≤ level
    pub skill_levels : All (IsAtMost level) skills
    pub origin_of : (d ≡ old) ⊎ ((s : String) × Occurs s skills × (d ≡ evaluate_skill e s origin))

  stricter-max :
      (s : String) (old : PolicyDecision) (n k : ℕ)
      → HasSeverity old n
      → HasSeverity (evaluate_skill e s origin) k
      → stricter (evaluate_skill e s origin) old
        ≡ ok (if ltb n k then evaluate_skill e s origin else old)
  unfolding stricter
  stricter-max s old n k h hs = rw (hs, h) refl

  evaluate_all-IsStrictest :
      (skills : List String) (old : PolicyDecision) (n : ℕ)
      → HasSeverity old n
      → (d : PolicyDecision) × (evaluate_all e skills origin old ≡ ok d)
        × IsStrictest skills old n d
  unfolding evaluate_all
  evaluate_all-IsStrictest [] old n h = (
    old,
    refl,
    record {
      level = n;
      has_level = h;
      old_level = ground arith;
      skill_levels = tt;
      origin_of = inl refl;
    },
  )
  evaluate_all-IsStrictest (s ∷ skills) old n h =
      let (k, hk) = skill-severity s in
      elim (Bool-cases (ltb n k)) [
        | inl higher ↦
            let (d, run, best) = evaluate_all-IsStrictest skills (evaluate_skill e s origin) k hk in
            (
              d,
              rw (stricter-max s old n k h hk, higher) run,
              record {
                level = best.level;
                has_level = best.has_level;
                old_level = ground (arith, best.old_level);
                skill_levels = ((k, hk, best.old_level), best.skill_levels);
                origin_of = elim best.origin_of [
                  | inl same ↦ inr (s, (0, refl), same)
                  | inr (t, (i, there), eq) ↦ inr (t, (suc i, there), eq)
                ];
              },
            )
        | inr lower ↦
            let (d, run, best) = evaluate_all-IsStrictest skills old n h in
            (
              d,
              rw (stricter-max s old n k h hk, lower) run,
              record {
                level = best.level;
                has_level = best.has_level;
                old_level = best.old_level;
                skill_levels = ((k, hk, ground (arith, best.old_level)), best.skill_levels);
                origin_of = elim best.origin_of [
                  | inl same ↦ inl same
                  | inr (t, (i, there), eq) ↦ inr (t, (suc i, there), eq)
                ];
              },
            )
      ]

  -- A policy that loads judges every list of skills. The decision is the default one or that on one
  -- of the skills, and no skill's decision is more severe.
  pub evaluate-IsStrictest :
      (skills : List String)
      → (d : PolicyDecision) × (evaluate e skills origin ≡ ok d)
        × IsStrictest skills default_decision 0 d
  unfolding evaluate severity
  evaluate-IsStrictest skills = evaluate_all-IsStrictest skills default_decision 0 refl
