-- ===== src/Tests/Routes.antt =====
-- The routing of a task at concrete inputs.
use galaxz.Prelude.Text.Order.{str_lt, sorted}
use galaxz.Prelude.{
  ℕ, String, ◌≡◌, ◌⊎◌, refl, none, some, false, [], ◌∷◌, Result, ok, err, value_error, Option,
}
use galaxz.Prelude.Int.{ℤ}
use galaxz.Prelude.Table.{find, find_by, select, exists, modify}
use galaxz.Contracts.Json.{Json, Items, Fields, get, is_text, set_field, dumps}
use galaxz.Contracts.Skill.{SkillDefinition, SkillManifest, allows, permits, any_origin}
use galaxz.Policy.Glob.{fnmatchcase, matches, codes}
use galaxz.Policy.Engine.{PolicyRule, rule_matches, decision_of, evaluate_from, evaluate_skill}
use galaxz.Policy.Grants.{Grant, same_scope, usable, oldest, use_grant, consume}
use galaxz.Agents.Registry.{is_agent, put_agent, register, offers, get_agents_for_skill, get_agent}
use galaxz.Agents.Routing.State.{State, Routing, Agents, Setting, percent}
use galaxz.Agents.Routing.Screen.{hold, scan, payload_digest, scope_of, consume_held, policy_node}
use galaxz.Agents.Routing.Match.{score_agent, skill_match_node, load_check_node, assign_node}
use galaxz.Agents.Routing.Graph.{
  fits, execute_node, may_retry, handle_failure_node, enter, after_policy, after_execute,
  after_failure, next, walk, invoke,
}
use galaxz.Agents.Routing.Graph.Ends.{IsFinal, IsRefused, invoke-IsFinal}
use galaxz.Agents.Routing.Graph.Gated.{IsScreened, invoke-IsScreened}

-- opening this routes a task
routing_program : Unit {0}
unfolding find find_by select exists modify get is_text set_field str_lt dumps permits allows
    any_origin fnmatchcase matches codes rule_matches decision_of evaluate_from evaluate_skill
    same_scope usable oldest use_grant consume is_agent put_agent register offers
    get_agents_for_skill get_agent sorted hold scan payload_digest scope_of consume_held policy_node
    score_agent skill_match_node load_check_node assign_node fits execute_node may_retry
    handle_failure_node enter after_policy after_execute after_failure next walk invoke
routing_program = tt

abbrev skill : SkillDefinition
skill = record {
  skill_id = "code.write";
  description = "writes code";
  input_schema = Json.null;
  output_schema = Json.null;
  avg_confidence = 800_000;
  avg_latency_ms = 5;
  allowed_origins = none;
}

abbrev manifest : String → SkillManifest
manifest id = record {
  agent_id = id;
  agent_name = id;
  version = "1";
  skills = skill ∷ [];
  health_endpoint = "/health";
  registered_at = 1;
  heartbeat_interval_s = 30;
}

abbrev rule : PolicyRule
rule = record { skill = "code.*"; action = "require_review"; origin = "*"; reason = "" }

abbrev number : Json → Option ℤ
number (Json.num n) = some n
number _ = none

abbrev setting : Setting
setting = record {
  policy = record { rules = rule ∷ [] };
  registry = record { agents = manifest "vega" ∷ manifest "rigel" ∷ []; rows = [] };
  weights = λ s. [];
  hash = λ v. "h";
  message = λ e. "boom";
  no_get = λ v. "no attribute 'get'";
  float_of = number;
  completion_threshold = percent 65;
  failure_threshold = percent 40;
  now = 50;
  clock = λ n. 20;
}

abbrev state : State
state = record {
  task_id = "t";
  origin = some "api";
  first_skill = "code.write";
  other_skills = [];
  payload = Json.obj Fields.end;
  context = Fields.end;
  matched_agents = [];
  assigned_agent = none;
  result = none;
  confidence = none;
  confidence_threshold = some (percent 70);
  confidence_breakdown = none;
  gaps = Json.arr Items.nil;
  status = "routing";
  retry_count = 0;
  failure_reason = none;
  escalated_to_human = false;
  completed_at = none;
}

abbrev grant : Grant
grant = record {
  grant_id = 3;
  scope = record { origin = "api"; skill = "code.write"; digest = "h" };
  granted_by = none;
  created_at = 1;
  expires_at = 90;
  consumed_at = none;
}

-- every agent answers with the confidence
abbrev answering : ℕ → Agents
answering n id = some (λ s payload context.
    ok (Json.obj (Fields.field "confidence" (Json.num (percent n)) Fields.end)))

outcome : Result Routing → Option (String × ℕ × Option String)
outcome (Result.err e) = none
outcome (ok w) = some (w.state.status, w.state.retry_count, w.state.assigned_agent)

abbrev granted : Routing
granted = record { state = state; grants = grant ∷ [] }

abbrev ungranted : Routing
ungranted = record { state = state; grants = [] }

completes : outcome (invoke setting (answering 80) granted) ≡ some ("complete", 0, some "rigel")
unfolding routing_program outcome
completes = refl

-- an answer that is nearly good enough is asked for twice
tries_twice : outcome (invoke setting (answering 65) granted) ≡ some ("escalated", 1, some "rigel")
unfolding routing_program outcome
tries_twice = refl

is_held : outcome (invoke setting (answering 80) ungranted) ≡ some ("escalated", 0, none)
unfolding routing_program outcome
is_held = refl

-- a confidence above 1 is refused by the check of the state
refuses : invoke setting (answering 150) granted ≡ err value_error
unfolding routing_program
refuses = refl

-- an answer that is not a dict fails the task
listing : Agents
listing id = some (λ s payload context. ok (Json.arr Items.nil))

fails : outcome (invoke setting listing granted) ≡ some ("escalated", 0, some "rigel")
unfolding routing_program outcome listing
fails = refl

invoke-IsFinal_example :
    ((w' : Routing) × (invoke setting (answering 65) granted ≡ ok w') × IsFinal 50 w')
    ⊎ ((invoke setting (answering 65) granted ≡ err value_error) × IsRefused setting (answering 65))
invoke-IsFinal_example = invoke-IsFinal setting (answering 65) granted refl

invoke-IsScreened_example :
    ((policy_node setting ungranted).state ≡ state)
      × IsScreened setting ungranted (policy_node setting ungranted)
    ⊎ (invoke setting (answering 80) ungranted ≡ invoke setting (answering 65) ungranted)
invoke-IsScreened_example = invoke-IsScreened setting (answering 80) (answering 65) ungranted
