-- ===== src/Agents/Routing/State.antt =====
-- The state of the graph of agents/andromeda/orchestrator.py (agents/andromeda/state.py), and what its nodes
-- are given. Confidences and weights are whole numbers of millionths.
use galaxz.Prelude.{ℕ, ◌*◌, String, Bool, false, Option, none, some, List, ◌∷◌, Result, Error}
use galaxz.Prelude.Int.{ℤ, pos}
use galaxz.Prelude.Text.{str_eq}
use galaxz.Contracts.Json.{Json, Fields}
use galaxz.Policy.Engine.{PolicyEngine}
use galaxz.Policy.Grants.{Grant}
use galaxz.Agents.Registry.{Pulsar}

-- `AndromedaState`, but for `task_type`, `priority`, `timeout_ms` and `issued_at`, which no node changes,
-- and `assignment_reason`, a text for people; there is at least one required skill
pub record State : Type 0 where
  pub task_id : String
  pub origin : Option String
  pub first_skill : String
  pub other_skills : List String
  pub payload : Json
  pub context : Fields
  pub matched_agents : List String
  pub assigned_agent : Option String
  pub result : Option Json
  pub confidence : Option ℤ
  pub confidence_threshold : Option ℤ
  pub confidence_breakdown : Option Json
  pub gaps : Json
  pub status : String
  pub retry_count : ℕ
  pub failure_reason : Option String
  pub escalated_to_human : Bool
  pub completed_at : Option ℕ

abbrev pub required_skills : State → List String
required_skills s = s.first_skill ∷ s.other_skills

-- the state with the grants that the policy node may use up
pub record Routing : Type 0 where
  pub state : State
  pub grants : List Grant

pub data Node : Type 0 where
  policy_check skill_match load_check assign execute handle_failure : Node
  escalate complete no_agent_found : Node

-- `agent.run(skill_id, payload, context)`
abbrev pub Agents : Type 0
Agents = String → Option (String → Json → Fields → Result Json)

pub record Setting : Type 0 where
  pub policy : PolicyEngine
  pub registry : Pulsar
  pub weights : String → List (String × ℤ)
  pub hash : Json → String  -- SHA-256 of a JSON text
  pub message : Error → String
  pub no_get : Json → String  -- the AttributeError of `get` on a value that is not a dict
  pub float_of : Json → Option ℤ  -- what pydantic reads as a float
  pub completion_threshold : ℤ
  pub failure_threshold : ℤ
  pub now : ℕ  -- when the task ends
  pub clock : ℕ → ℕ  -- when each held skill is looked up

abbrev pub percent : ℕ → ℤ
percent n = pos (n * 10_000)

abbrev pub is_reason : String → Option String → Bool
is_reason s none = false
is_reason s (some t) = str_eq t s
