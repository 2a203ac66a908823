-- ===== src/Agents/Routing/Screen.antt =====
-- The policy node of agents/andromeda/orchestrator.py, and `payload_digest` of core/policy/engine.py.
use galaxz.Prelude.{
  ℕ, suc, ◌*◌, String, Bool, true, false, Option, none, some, List, [], ◌∷◌, get_or, if◌then◌else◌,
}
use Prim.Native.String.{◌++◌ as joined}
use galaxz.Prelude.Int.{pos}
use galaxz.Prelude.Text.{str_eq}
use galaxz.Prelude.Text.Decimal.{decimal_text}
use galaxz.Contracts.Json.{Json, num, str, arr, obj, nil, cons, end, field, dumps}
use galaxz.Policy.Engine.{Explanation, PolicyDecision, PolicyEngine, evaluate_skill}
use galaxz.Policy.Grants.{Scope, Grant, consume}
use galaxz.Agents.Routing.State.{State, Routing, Setting, required_skills}

explained : Explanation → String
explained (Explanation.told s) = s
explained (Explanation.policy_rule n) = joined "policy rule " (decimal_text n)

one_gap : String → Json
one_gap reason = arr (cons (str reason) nil)

abbrev whole : ℕ → Json
whole n = num (pos (n * 1_000_000))

-- what the first loop of `policy_node` finds: a decision that denies, or the skills that are held
pub data Scan : Type 0 where
  denied : PolicyDecision → Scan
  held : List (String × PolicyDecision) → Scan

unfoldable pub hold : String → PolicyDecision → Scan → Scan
hold s d (Scan.denied e) = Scan.denied e
hold s d (Scan.held hs) = Scan.held ((s, d) ∷ hs)

unfoldable pub scan : PolicyEngine → Option String → List String → Scan
unfolding hold
scan p origin [] = Scan.held []
scan p origin (s ∷ ss) =
    let d = evaluate_skill p s origin in
    let rest = scan p origin ss in
    if str_eq d.action "deny"
    then Scan.denied d
    else if str_eq d.action "require_review"
    then hold s d rest
    else rest

module _ (x : Setting) where
  -- core/policy/engine.py
  unfoldable pub payload_digest : Option String → String → Json → String
  payload_digest origin skill payload = x.hash (
      dumps (
        obj (
          field "origin" (str (get_or origin ""))
            (field "skill" (str skill) (field "payload" payload end)))))

  unfoldable pub scope_of : State → String → Scope
  scope_of s skill = record {
    origin = get_or s.origin "";
    skill = skill;
    digest = payload_digest s.origin skill s.payload;
  }

  -- The second loop uses up grants, to the first skill without one.
  unfoldable pub consume_held :
      ℕ
      → List (String × PolicyDecision)
      → State
      → List Grant
      → List Grant × Option (String × PolicyDecision)
  unfolding scope_of
  consume_held n [] s gs = (gs, none)
  consume_held n ((skill, d) ∷ hs) s gs =
      let used = consume (scope_of s skill) (x.clock n) gs in
      let rest = consume_held (suc n) hs s used.0 in
      if used.1 then rest else (used.0, some (skill, d))

  unfoldable pub deny_state : PolicyDecision → State → State
  unfolding explained one_gap
  deny_state d s = record s {
    failure_reason = some "policy_denied";
    gaps = one_gap (explained d.reason);
  }

  rule_json : Option ℕ → Json
  rule_json none = Json.null
  rule_json (some n) = whole n

  unfoldable pub hold_state : String → PolicyDecision → State → State
  unfolding explained one_gap rule_json
  hold_state skill d s = record s {
    failure_reason = some "policy_requires_review";
    gaps = one_gap (explained d.reason);
    result = some (
        obj (
          field "policy_hold"
            (obj (
              field "origin" (str (get_or s.origin "")) (
                field "skill" (str skill) (
                  field "digest" (str (payload_digest s.origin skill s.payload)) (
                    field "reason" (str (explained d.reason))
                      (field "rule_index" (rule_json d.rule_index) end))))))
            end));
  }

  unfoldable pub held_state : List Grant × Option (String × PolicyDecision) → State → Routing
  unfolding hold_state
  held_state (gs, none) s = record { state = s; grants = gs }
  held_state (gs, some (skill, d)) s = record { state = hold_state skill d s; grants = gs }

  unfoldable pub scanned : Scan → Routing → Routing
  unfolding deny_state held_state
  scanned (Scan.denied d) w = record w { state = deny_state d w.state }
  scanned (Scan.held hs) w = held_state (consume_held 0 hs w.state w.grants) w.state

  abbrev pub enabled : PolicyEngine → Bool
  enabled p = elim p.rules [ [] ↦ false | r ∷ rs ↦ true ]

  unfoldable pub policy_node : Routing → Routing
  unfolding scanned
  policy_node w =
      if enabled x.policy
      then scanned (scan x.policy w.state.origin (required_skills w.state)) w
      else w
