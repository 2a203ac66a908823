-- ===== src/Contracts/Skill/Checks.antt =====
-- Which origins a skill is open to, and which feedback is accepted.
use galaxz.Prelude.{
  ℕ, zero, suc, String, true, ◌≡◌, ◌↔◌, refl, ◌∙◌, ap, inl, inr, none, some, List, [], ◌∷◌, ok,
  Bool-cases, arith, get_elem?, eq_iff,
}
use galaxz.Prelude.Text.{str_eq}
use galaxz.Policy.Glob.{fnmatchcase}
use galaxz.Contracts.Skill.{
  SkillDefinition, SkillManifest, RefineryFeedbackEvent, any_origin, allows, has_skill,
  validate_feedback_event,
}

-- some pattern of the list matches the origin
abbrev pub IsListed : List String → String → Type 0
IsListed patterns origin =
    (i : ℕ) × (p : String) × (get_elem? patterns i ≡ some p) × (fnmatchcase origin p ≡ true)

any_origin-IsListed :
    (patterns : List String) (origin : String)
    → any_origin patterns origin ≡ true
    → IsListed patterns origin
unfolding any_origin
any_origin-IsListed [] origin e = absurd (ground arith)
any_origin-IsListed (p ∷ ps) origin e = elim (Bool-cases (fnmatchcase origin p)) [
  | inl hit ↦ (0, p, refl, hit)
  | inr miss ↦
      let (i, q, at, matched) = any_origin-IsListed ps origin (ground arith) in
      (suc i, q, at, matched)
]

IsListed-any_origin :
    (patterns : List String) (origin : String) (i : ℕ) (p : String)
    → get_elem? patterns i ≡ some p
    → fnmatchcase origin p ≡ true
    → any_origin patterns origin ≡ true
unfolding any_origin
IsListed-any_origin [] origin i p at matched = absurd (ground arith)
IsListed-any_origin (q ∷ ps) origin zero p at matched =
    let same : q ≡ p = ground arith in rw (same, matched) refl
IsListed-any_origin (q ∷ ps) origin (suc i) p at matched =
    ground (arith, IsListed-any_origin ps origin i p at matched)

-- A skill without a list of origins is open to every origin, and one with a list is open exactly to the
-- origins that some pattern of the list matches, so with an empty list to none.
pub allows-IsListed :
    ((origin : String) → allows none origin ≡ true)
    × ((patterns : List String) (origin : String)
        → (allows (some patterns) origin ≡ true) ↔ IsListed patterns origin)
unfolding allows
allows-IsListed = (
  λ origin. refl,
  λ patterns origin. (
    any_origin-IsListed patterns origin,
    λ l. IsListed-any_origin patterns origin l.0 l.1 l.2 l.3,
  ),
)

abbrev pub IsRegistered : List SkillDefinition → String → Type 0
IsRegistered skills id =
    (i : ℕ) × (s : SkillDefinition) × (get_elem? skills i ≡ some s) × (s.skill_id ≡ id)

has_skill-IsRegistered :
    (skills : List SkillDefinition) (id : String)
    → has_skill skills id ≡ true
    → IsRegistered skills id
unfolding has_skill
has_skill-IsRegistered [] id e = absurd (ground arith)
has_skill-IsRegistered (s ∷ ss) id e = elim (Bool-cases (str_eq s.skill_id id)) [
  | inl hit ↦ (0, s, refl, (eq_iff s.skill_id id).0 hit)
  | inr miss ↦
      let (i, q, at, same) = has_skill-IsRegistered ss id (ground arith) in (suc i, q, at, same)
]

IsRegistered-has_skill :
    (skills : List SkillDefinition) (id : String) (i : ℕ) (s : SkillDefinition)
    → get_elem? skills i ≡ some s
    → s.skill_id ≡ id
    → has_skill skills id ≡ true
unfolding has_skill
IsRegistered-has_skill [] id i s at same = absurd (ground arith)
IsRegistered-has_skill (q ∷ ss) id zero s at same =
    let one : q ≡ s = ground arith in
    let hit : str_eq q.skill_id id ≡ true =
      (eq_iff q.skill_id id).1 (ap (λ (z : SkillDefinition). z.skill_id) one ∙ same) in
    ground (arith, hit)
IsRegistered-has_skill (q ∷ ss) id (suc i) s at same =
    ground (arith, IsRegistered-has_skill ss id i s at same)

-- Feedback is accepted, as it is, exactly if it is from the agent of the manifest and about one of
-- the skills that the manifest registers.
pub validate_feedback_event-IsRegistered :
    (e : RefineryFeedbackEvent) (m : SkillManifest)
    → (validate_feedback_event e m ≡ ok e)
      ↔ ((e.agent_id ≡ m.agent_id) × IsRegistered m.skills e.skill)
unfolding validate_feedback_event
validate_feedback_event-IsRegistered e m = (
  λ h. (
    (eq_iff e.agent_id m.agent_id).0 (ground arith),
    has_skill-IsRegistered m.skills e.skill (ground arith),
  ),
  λ (mine, (i, s, at, same)).
      rw
        ((eq_iff e.agent_id m.agent_id).1 mine, IsRegistered-has_skill m.skills e.skill i s at same)
        refl,
)
