-- ===== src/Policy/FirstMatch.antt =====
-- On the choice of a rule within a skill by the policy engine.
use galaxz.Prelude.{
  ℕ, suc, ◌+◌, String, true, false, ◌≡◌, refl, ap, ◌∙◌, ◌⊎◌, inl, inr, Option, some, List, [], ◌∷◌,
  Bool-cases, arith, get_or, take, get_elem?,
}
use galaxz.Prelude.Table.{All}
use galaxz.Policy.Engine.{
  PolicyRule, PolicyDecision, PolicyEngine, default_decision, rule_matches, decision_of,
  evaluate_from, evaluate_skill,
}

-- what a decision says: no rule matches and it allows, or the first rule that matches gives it
pub record IsFirstMatch (rs : List PolicyRule) (skill origin : String) (i : ℕ) (r : PolicyRule)
    : Type 0 where
  pub at : get_elem? rs i ≡ some r
  pub matched : rule_matches r skill origin ≡ true
  pub unmatched : All (λ p. rule_matches p skill origin ≡ false) (take i rs)

abbrev pub Decides : List PolicyRule → String → String → ℕ → PolicyDecision → Type 0
Decides rs skill origin start d =
    ((d ≡ default_decision) × All (λ p. rule_matches p skill origin ≡ false) rs)
    ⊎ ((i : ℕ) × (r : PolicyRule) × IsFirstMatch rs skill origin i r
        × (d ≡ decision_of r (start + i)))

evaluate_from-Decides :
    (start : ℕ) (rs : List PolicyRule) (skill origin : String)
    → Decides rs skill origin start (evaluate_from start rs skill origin)
unfolding evaluate_from
evaluate_from-Decides start [] skill origin = inl (refl, tt)
evaluate_from-Decides start (r ∷ rs) skill origin =
    elim (Bool-cases (rule_matches r skill origin)) [
      | inl hit ↦ rw hit (
          inr (
            0,
            r,
            record { at = refl; matched = hit; unmatched = tt },
            ap (decision_of r) (ground arith),
          ))
      | inr miss ↦ rw miss (elim (evaluate_from-Decides (start + 1) rs skill origin) [
        | inl (allowed, rest) ↦ inl (allowed, (refl, rest))
        | inr (i, p, first, eq) ↦ inr (
          suc i,
          p,
          record { at = first.at; matched = first.matched; unmatched = (miss, first.unmatched) },
          eq ∙ ap (decision_of p) (ground arith),
        )
      ])
    ]

-- A skill is judged by the first rule that matches it and the origin, with that rule's action, its
-- reason or its number as the reason, and its index; a skill that no rule matches is allowed.
pub evaluate_skill-Decides :
    (e : PolicyEngine) (skill : String) (origin : Option String)
    → Decides e.rules skill (get_or origin "") 0 (evaluate_skill e skill origin)
unfolding evaluate_skill
evaluate_skill-Decides e skill origin = evaluate_from-Decides 0 e.rules skill (get_or origin "")
