-- ===== src/Agents/Registry.antt =====
-- core/pulsar/registry.py: the agents in memory, a dict by agent in the order of insertion, and the
-- table of core/pulsar/sqlite_store.py.
use galaxz.Prelude.Text.Order.{sorted}
use galaxz.Prelude.{
  ℕ, String, Bool, ◌&&◌, Option, none, some, List, [], ◌∷◌, ◌++◌, map, not, length, if◌then◌else◌,
}
use galaxz.Prelude.Text.{str_eq}
use galaxz.Prelude.Table.{find_by, select, exists}
use galaxz.Contracts.Skill.{SkillDefinition, SkillManifest, permits}

pub record Pulsar : Type 0 where
  pub agents : List SkillManifest
  pub rows : List SkillManifest

unfoldable pub is_agent : String → SkillManifest → Bool
is_agent id m = str_eq m.agent_id id

-- `d[m.agent_id] = m`, and INSERT … ON CONFLICT DO UPDATE
unfoldable pub put_agent : SkillManifest → List SkillManifest → List SkillManifest
unfolding is_agent
put_agent m [] = m ∷ []
put_agent m (q ∷ ms) =
    let rest = put_agent m ms in if is_agent m.agent_id q then m ∷ ms else q ∷ rest

unfoldable pub drop_agent : String → List SkillManifest → List SkillManifest
unfolding is_agent
drop_agent id ms = select (λ m. not (is_agent id m)) ms

unfoldable pub register : SkillManifest → Pulsar → Pulsar
register m r = record { agents = put_agent m r.agents; rows = put_agent m r.rows }

unfoldable pub deregister : String → Pulsar → Pulsar
deregister id r = record { agents = drop_agent id r.agents; rows = drop_agent id r.rows }

load_all : List SkillManifest → List SkillManifest → List SkillManifest
load_all [] ms = ms
load_all (m ∷ rows) ms = load_all rows (put_agent m ms)

-- `__init__`, on the rows of the table
unfoldable pub load : List SkillManifest → Pulsar
unfolding load_all
load rows = record { agents = load_all rows []; rows = rows }

unfoldable pub get_agent : String → Pulsar → Option SkillManifest
unfolding is_agent
get_agent id r = find_by (is_agent id) r.agents

-- `skill.skill_id == skill_id and (origin is None or skill.permits(origin))`
unfoldable pub offers : String → Option String → SkillDefinition → Bool
offers id none s = str_eq s.skill_id id
offers id (some origin) s = str_eq s.skill_id id && permits s origin

unfoldable pub get_agents_for_skill : String → Option String → Pulsar → List SkillManifest
unfolding offers
get_agents_for_skill id origin r =
    select (λ (m : SkillManifest). exists (offers id origin) m.skills) r.agents

skills_of : List SkillManifest → List SkillDefinition
skills_of [] = []
skills_of (m ∷ ms) = m.skills ++ skills_of ms

unfoldable pub get_all_skills : Pulsar → List SkillDefinition
unfolding skills_of
get_all_skills r = skills_of r.agents

pub record Health : Type 0 where
  pub skill_count : ℕ
  pub agents : List String

unfoldable pub health_check : Pulsar → Health
health_check r = record {
  skill_count = length (get_all_skills r);
  agents = sorted (map (λ (m : SkillManifest). m.agent_id) r.agents);
}
