-- ===== src/Policy/Engine.antt =====
-- The rules of core/policy/engine.py and their evaluation.
use galaxz.Prelude.{
  ℕ, ◌+◌, String, Bool, ◌&&◌, Option, none, some, List, [], ◌∷◌, ltb, get_or, Result, ok, err,
  key_error, ◌>>=◌, if◌then◌else◌,
}
use galaxz.Prelude.Text.{str_eq}
use galaxz.Policy.Glob.{fnmatchcase}

pub record PolicyRule : Type 0 where
  pub skill : String
  pub action : String
  pub origin : String
  pub reason : String

-- a text that a rule gives, or `f"policy rule {index}"`
pub data Explanation : Type 0 where
  told : String → Explanation
  policy_rule : ℕ → Explanation

pub record PolicyDecision : Type 0 where
  pub action : String
  pub reason : Explanation
  pub rule_index : Option ℕ

abbrev pub default_decision : PolicyDecision
default_decision = record { action = "allow"; reason = Explanation.told ""; rule_index = none }

pub record PolicyEngine : Type 0 where
  pub rules : List PolicyRule

-- `_SEVERITY[action]`
unfoldable pub severity : String → Result ℕ
severity action =
    if str_eq action "allow"
    then ok 0
    else if str_eq action "require_review"
    then ok 1
    else if str_eq action "deny"
    then ok 2
    else err key_error

-- `PolicyRule.matches`
unfoldable pub rule_matches : PolicyRule → String → String → Bool
rule_matches r skill origin = fnmatchcase skill r.skill && fnmatchcase origin r.origin

unfoldable pub decision_of : PolicyRule → ℕ → PolicyDecision
decision_of r index = record {
  action = r.action;
  reason = if str_eq r.reason "" then Explanation.policy_rule index else Explanation.told r.reason;
  rule_index = some index;
}

-- the loop over `enumerate(self.rules)`, from an index on
unfoldable pub evaluate_from : ℕ → List PolicyRule → String → String → PolicyDecision
evaluate_from index [] skill origin = default_decision
evaluate_from index (r ∷ rs) skill origin =
    if rule_matches r skill origin
    then decision_of r index
    else evaluate_from (index + 1) rs skill origin

unfoldable pub evaluate_skill : PolicyEngine → String → Option String → PolicyDecision
evaluate_skill e skill origin = evaluate_from 0 e.rules skill (get_or origin "")

-- `if _SEVERITY[decision.action] > _SEVERITY[strictest.action]: strictest = decision`
unfoldable pub stricter : PolicyDecision → PolicyDecision → Result PolicyDecision
stricter d strictest = do
  new ← severity d.action
  old ← severity strictest.action
  ok (if ltb old new then d else strictest)

unfoldable pub evaluate_all :
    PolicyEngine → List String → Option String → PolicyDecision → Result PolicyDecision
evaluate_all e [] origin strictest = ok strictest
evaluate_all e (s ∷ skills) origin strictest = do
  d ← stricter (evaluate_skill e s origin) strictest
  evaluate_all e skills origin d

unfoldable pub evaluate : PolicyEngine → List String → Option String → Result PolicyDecision
evaluate e skills origin = evaluate_all e skills origin default_decision
