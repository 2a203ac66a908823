-- ===== src/Tests/Policies.antt =====
-- Policies and grants at concrete inputs.
use galaxz.Prelude.{
  String, ◌+◌, ◌≡◌, ◌⊎◌, refl, none, some, List, [], ◌∷◌, ok, err, true, false, policy_config_error,
}
use galaxz.Prelude.Text.{strip, contains}
use galaxz.Prelude.Table.{find, modify, select}
use galaxz.Prelude.Table.Count.{count}
use galaxz.Contracts.Json.{Json, Items, Fields, get, truthy}
use galaxz.Policy.Glob.{matches, codes, fnmatchcase}
use galaxz.Policy.Engine.{
  PolicyEngine, PolicyDecision, default_decision, severity, rule_matches, decision_of,
  evaluate_from, evaluate_skill, stricter, evaluate_all, evaluate,
}
use galaxz.Policy.Load.{parse_rule, parse_rules, rules_of, engine_of, load_policy}
use galaxz.Policy.Usable.{IsLoaded, load_policy-IsLoaded}
use galaxz.Policy.FirstMatch.{Decides, evaluate_skill-Decides}
use galaxz.Policy.Strictest.{IsStrictest, evaluate-IsStrictest}
use galaxz.Policy.Grants.{Scope, Grant, same_scope, issue, usable, oldest, use_grant, consume}
use galaxz.Policy.Grants.Uses.{IsUsed, AllUnusable, consume_cases}
use galaxz.Policy.Grants.Balance.{
  GrantCall, run_call, run_calls, successes, unused, run_calls-balances,
}

-- opening this runs the policies
policies : Unit {0}
unfolding strip contains find modify select count get truthy matches codes fnmatchcase severity
    rule_matches decision_of evaluate_from evaluate_skill stricter evaluate_all evaluate parse_rule
    parse_rules rules_of engine_of load_policy same_scope issue usable oldest use_grant consume
    run_call run_calls successes unused
policies = tt

star : fnmatchcase "deploy.prod" "deploy.*" ≡ true
unfolding policies
star = refl

star_short : fnmatchcase "deploy" "deploy.*" ≡ false
unfolding policies
star_short = refl

ranges : fnmatchcase "v7-x" "v[0-9]?[!a-w]" ≡ true
unfolding policies
ranges = refl

bracket_in_set : fnmatchcase "]" "[]-]" ≡ true
unfolding policies
bracket_in_set = refl

open_bracket : fnmatchcase "[a" "[a" ≡ true
unfolding policies
open_bracket = refl

rule_entry : String → String → Json
rule_entry skill action =
    Json.obj
      (Fields.field "skill" (Json.str skill) (Fields.field "action" (Json.str action) Fields.end))

-- a policy of two rules
document : Json
unfolding rule_entry
document = Json.obj (
    Fields.field "rules"
      (Json.arr (
        Items.cons (rule_entry " deploy.* " "deny")
          (Items.cons (rule_entry "d*" "require_review") Items.nil)))
      Fields.end)

abbrev two_rules : PolicyEngine
two_rules = record {
  rules =
      record { skill = "deploy.*"; action = "deny"; origin = "*"; reason = "" }
      ∷ record { skill = "d*"; action = "require_review"; origin = "*"; reason = "" }
      ∷ [];
}

loads : load_policy (some document) ≡ ok two_rules
unfolding policies document
loads = refl

unknown_key :
    load_policy (
      some (
        Json.obj (
          Fields.field "rules"
            (Json.arr (Items.cons (Json.obj (Fields.field "x" Json.null Fields.end)) Items.nil))
            Fields.end)))
    ≡ err policy_config_error
unfolding policies
unknown_key = refl

load_policy-IsLoaded_example : IsLoaded two_rules
load_policy-IsLoaded_example = load_policy-IsLoaded (some document) two_rules loads

loaded_two : IsLoaded two_rules
loaded_two = load_policy-IsLoaded (some document) two_rules loads

evaluate_skill-Decides_example :
    Decides two_rules.rules "deploy.prod" "" 0 (evaluate_skill two_rules "deploy.prod" none)
evaluate_skill-Decides_example = evaluate_skill-Decides two_rules "deploy.prod" none

evaluate-IsStrictest_example :
    (d : PolicyDecision) × (evaluate two_rules ("dry" ∷ "deploy.prod" ∷ []) (some "ci") ≡ ok d)
    × IsStrictest two_rules loaded_two (some "ci") ("dry" ∷ "deploy.prod" ∷ []) default_decision 0 d
evaluate-IsStrictest_example =
    evaluate-IsStrictest two_rules loaded_two (some "ci") ("dry" ∷ "deploy.prod" ∷ [])

abbrev scope : Scope
scope = record { origin = "ci"; skill = "deploy"; digest = "d" }

abbrev one_grant : List Grant
one_grant =
    record {
      grant_id = 1;
      scope = scope;
      granted_by = none;
      created_at = 5;
      expires_at = 15;
      consumed_at = none;
    }
    ∷ []

consume_cases_example :
    (((consume scope 9 one_grant).1 ≡ true)
      × IsUsed scope 9 one_grant (consume scope 9 one_grant).0)
    ⊎ ((consume scope 9 one_grant ≡ (one_grant, false)) × AllUnusable scope 9 one_grant)
unfolding policies
consume_cases_example = consume_cases scope 9 one_grant (refl, tt)

abbrev grant_calls : List GrantCall
grant_calls =
    GrantCall.issues scope 10 none 5 1
    ∷ GrantCall.consumes scope 9
    ∷ GrantCall.consumes scope 9
    ∷ []

approved_once : successes false scope grant_calls [] ≡ 1
unfolding policies
approved_once = refl

run_calls-balances_example :
    successes false scope grant_calls one_grant
      + count (unused scope) (run_calls grant_calls one_grant)
    ≡ successes true scope grant_calls one_grant + count (unused scope) one_grant
unfolding policies
run_calls-balances_example = run_calls-balances scope grant_calls one_grant (refl, tt)
