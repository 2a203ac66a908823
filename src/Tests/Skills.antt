-- ===== src/Tests/Skills.antt =====
-- Skills and feedback at concrete inputs.
use galaxz.Prelude.{◌≡◌, ◌↔◌, refl, none, some, [], ◌∷◌, true, false, ok}
use galaxz.Contracts.Json.{Json}
use galaxz.Contracts.Skill.{
  SkillDefinition, SkillManifest, RefineryFeedbackEvent, any_origin, allows, permits, has_skill,
  validate_feedback_event,
}
use galaxz.Contracts.Skill.Checks.{IsRegistered, validate_feedback_event-IsRegistered}
use galaxz.Policy.Glob.{fnmatchcase, matches, codes}

abbrev deploy : SkillDefinition
deploy = record {
  skill_id = "deploy";
  description = "ship";
  input_schema = Json.null;
  output_schema = Json.null;
  avg_confidence = 5;
  avg_latency_ms = 1000;
  allowed_origins = some ("goal:*" ∷ []);
}

abbrev manifest : SkillManifest
manifest = record {
  agent_id = "a";
  agent_name = "A";
  version = "1";
  skills = deploy ∷ [];
  health_endpoint = "/health";
  registered_at = 0;
  heartbeat_interval_s = 30;
}

abbrev feedback : RefineryFeedbackEvent
feedback = record {
  task_id = 1;
  agent_id = "a";
  skill = "deploy";
  outcome = "success";
  confidence_score = 9;
  execution_outcome = none;
  human_verified = true;
  human_correction = none;
  latency_ms = 3;
  timestamp = 4;
}

from_a_goal : permits deploy "goal:7" ≡ true
unfolding permits allows any_origin fnmatchcase matches codes
from_a_goal = refl

from_elsewhere : permits deploy "cli" ≡ false
unfolding permits allows any_origin fnmatchcase matches codes
from_elsewhere = refl

accepted : validate_feedback_event feedback manifest ≡ ok feedback
unfolding validate_feedback_event has_skill
accepted = refl

validate_feedback_event-IsRegistered_example :
    (validate_feedback_event feedback manifest ≡ ok feedback)
    ↔ ((feedback.agent_id ≡ manifest.agent_id) × IsRegistered (deploy ∷ []) "deploy")
validate_feedback_event-IsRegistered_example =
    validate_feedback_event-IsRegistered feedback manifest
