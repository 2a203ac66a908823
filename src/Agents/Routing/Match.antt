-- ===== src/Agents/Routing/Match.antt =====
-- The choice of an agent in the graph of agents/andromeda/orchestrator.py: the weighted `skill_match` node,
-- and the nodes `load_check` and `assign` of agents/andromeda/nodes.py.
use galaxz.Prelude.Text.Order.{sorted}
use galaxz.Prelude.{
  ℕ, zero, suc, ◌+◌, ◌*◌, String, Bool, true, false, not, ◌&&◌, Option, none, some, List, [], ◌∷◌,
  map, ltb, is_some, if◌then◌else◌,
}
use galaxz.Prelude.Int.{ℤ, pos, lt_ℤ, ◌+ℤ◌}
use galaxz.Prelude.Text.{str_eq}
use galaxz.Prelude.Table.{find_by, select, exists}
use galaxz.Contracts.Skill.{SkillDefinition, SkillManifest}
use galaxz.Agents.Registry.{get_agents_for_skill, get_agent}
use galaxz.Agents.Routing.State.{State, Setting, required_skills}

module _ (x : Setting) where
  agent_ids : List SkillManifest → List String
  agent_ids ms = map (λ (m : SkillManifest). m.agent_id) ms

  offering : Option String → String → List String
  unfolding agent_ids
  offering origin skill = agent_ids (get_agents_for_skill skill origin x.registry)

  abbrev is_empty : List String → Bool
  is_empty [] = true
  is_empty (s ∷ ss) = false

  -- a skill that agents offer, but none to this origin
  is_blocked : Option String → String → Bool
  unfolding offering
  is_blocked origin skill =
      is_empty (offering origin skill) && (is_some origin && not (is_empty (offering none skill)))

  in_all : List (List String) → String → Bool
  in_all [] id = true
  in_all (ids ∷ more) id = exists (str_eq id) ids && in_all more id

  -- the agents that offer every required skill
  unfoldable pub capable : State → List String
  unfolding offering in_all
  capable s =
      sorted
        (select (in_all (map (offering s.origin) s.other_skills)) (offering s.origin s.first_skill))

  weight_in : String → List (String × ℤ) → ℤ
  weight_in id [] = pos 0
  weight_in id ((key, w) ∷ ws) = if str_eq key id then w else weight_in id ws

  weighted_score : List String → String → ℤ
  unfolding weight_in
  weighted_score [] id = pos 0
  weighted_score (s ∷ ss) id = weight_in id (x.weights s) +ℤ weighted_score ss id

  has_weights : String → Bool
  has_weights s = elim (x.weights s) [ [] ↦ false | w ∷ ws ↦ true ]

  -- the first of the largest, as `max` and a stable descending sort find it
  largest : (String → String → Bool) → String → List String → String
  largest lt a [] = a
  largest lt a (b ∷ bs) = largest lt (if lt a b then b else a) bs

  unfoldable pub matched : List String → State → State
  unfolding is_blocked weighted_score has_weights largest
  matched [] s = record s {
    matched_agents = [];
    status = "no_agent_found";
    failure_reason = some (
        if exists (is_blocked s.origin) (required_skills s)
        then "origin_not_allowed"
        else "no_skill_match");
  }
  matched (a ∷ as') s = record s {
    matched_agents =
        if exists has_weights (required_skills s)
        then largest
            (λ i j.
              lt_ℤ (weighted_score (required_skills s) i) (weighted_score (required_skills s) j))
            a as'
          ∷ []
        else a ∷ as';
  }

  unfoldable pub skill_match_node : State → State
  unfolding matched capable
  skill_match_node s = matched (capable s) s

  -- the confidences of an agent for the skills, by their sum and number
  confidences : SkillManifest → List String → ℕ × ℕ
  confidences m [] = (0, 0)
  confidences m (s ∷ ss) =
      let rest = confidences m ss in
      elim (find_by (λ (k : SkillDefinition). str_eq k.skill_id s) m.skills) [
        | none ↦ rest
        | some k ↦ (k.avg_confidence + rest.0, suc rest.1)
      ]

  -- `_score_agent_for_skills`, as a fraction
  unfoldable pub score_agent : List String → String → ℕ × ℕ
  unfolding confidences
  score_agent skills id = elim (get_agent id x.registry) [
    | none ↦ (0, 1)
    | some m ↦ let sum = confidences m skills in elim sum.1 [ zero ↦ (0, 1) | suc n ↦ sum ]
  ]

  lower_score : List String → String → String → Bool
  lower_score skills i j =
      let p = score_agent skills i in let q = score_agent skills j in ltb (p.0 * q.1) (q.0 * p.1)

  unfoldable pub loaded : List String → State → State
  unfolding lower_score largest
  loaded [] s = record s { status = "no_agent_found"; failure_reason = some "no_agents_available" }
  loaded (a ∷ as') s = record s {
    assigned_agent = some (largest (lower_score (required_skills s)) a as');
  }

  unfoldable pub load_check_node : State → State
  unfolding loaded
  load_check_node s = loaded s.matched_agents s

  unfoldable pub assign_node : State → State
  assign_node s = record s { status = "assigned" }
