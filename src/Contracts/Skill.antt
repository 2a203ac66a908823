-- ===== src/Contracts/Skill.antt =====
-- The skills of core/contracts/contracts.py, their origins, and the check of a feedback event
-- against the manifest of its agent.
pub mod Checks
use galaxz.Prelude.{
  ℕ, String, Bool, true, false, not, ◌&&◌, ◌||◌, ◌≡◌, ◌↔◌, refl, sym, ◌∙◌, ap, inl, inr, ◌⊎◌,
  Option, none, some, List, [], ◌∷◌, Result, ok, err, guard, value_error, ◌>>=◌, ◌>>◌, Bool-cases,
  arith, get_elem?, zero, suc, eq_iff,
}
use galaxz.Prelude.Text.{str_eq, strip}
use galaxz.Contracts.Json.{Json}
use galaxz.Policy.Glob.{fnmatchcase}

pub record SkillDefinition : Type 0 where
  pub skill_id : String
  pub description : String
  pub input_schema : Json
  pub output_schema : Json
  pub avg_confidence : ℕ  -- fixed-point
  pub avg_latency_ms : ℕ
  pub allowed_origins : Option (List String)

-- `any(fnmatchcase(origin, pattern) for pattern in …)`
unfoldable pub any_origin : List String → String → Bool
any_origin [] origin = false
any_origin (p ∷ ps) origin = fnmatchcase origin p || any_origin ps origin

unfoldable pub allows : Option (List String) → String → Bool
allows none origin = true
allows (some patterns) origin = any_origin patterns origin

unfoldable pub permits : SkillDefinition → String → Bool
permits s origin = allows s.allowed_origins origin

-- `validate_skill_strings`
unfoldable pub validate_skill : SkillDefinition → Result SkillDefinition
validate_skill s = do
  guard (not (str_eq (strip s.skill_id) "")) value_error
  guard (not (str_eq (strip s.description) "")) value_error
  ok (record s { skill_id = strip s.skill_id; description = strip s.description })

pub record SkillManifest : Type 0 where
  pub agent_id : String
  pub agent_name : String
  pub version : String
  pub skills : List SkillDefinition
  pub health_endpoint : String
  pub registered_at : ℕ
  pub heartbeat_interval_s : ℕ

pub record RefineryFeedbackEvent : Type 0 where
  pub task_id : ℕ
  pub agent_id : String
  pub skill : String
  pub outcome : String
  pub confidence_score : ℕ  -- fixed-point
  pub execution_outcome : Option String
  pub human_verified : Bool
  pub human_correction : Option String
  pub latency_ms : ℕ
  pub timestamp : ℕ

-- `event.skill in {skill.skill_id for skill in manifest.skills}`
unfoldable pub has_skill : List SkillDefinition → String → Bool
has_skill [] id = false
has_skill (s ∷ ss) id = str_eq s.skill_id id || has_skill ss id

unfoldable pub validate_feedback_event :
    RefineryFeedbackEvent → SkillManifest → Result RefineryFeedbackEvent
validate_feedback_event e m = do
  guard (str_eq e.agent_id m.agent_id) value_error
  guard (has_skill m.skills e.skill) value_error
  ok e
