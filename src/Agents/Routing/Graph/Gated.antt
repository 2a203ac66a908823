-- ===== src/Agents/Routing/Graph/Gated.antt =====
-- On the graph of agents/andromeda/orchestrator.py: which tasks the policy lets through to an agent.
use galaxz.Prelude.{
  ℕ, suc, ◌≡◌, refl, sym, ap, ◌∙◌, String, Bool, true, false, Option, none, some, List, [], ◌∷◌,
  map, inl, inr, ◌⊎◌, Bool-cases, arith,
}
use mathlib.Core.Path.{subst}
use galaxz.Prelude.Text.{str_eq}
use galaxz.Prelude.Table.{All, select}
use galaxz.Policy.Engine.{
  PolicyDecision, PolicyEngine, evaluate_skill, evaluate_from, default_decision, PolicyRule,
}
use galaxz.Policy.Grants.{Scope, Grant, consume}
use galaxz.Agents.Routing.State.{State, Routing, Node, Agents, Setting, required_skills}
use galaxz.Agents.Routing.Screen.{
  Scan, hold, scan, scope_of, consume_held, deny_state, hold_state, held_state, scanned, enabled,
  policy_node,
}
use galaxz.Agents.Routing.Graph.{enter, after_policy, next, walk, invoke}

abbrev decided : String → PolicyEngine → Option String → String → Bool
decided action p origin skill = str_eq (evaluate_skill p skill origin).action action

-- the skills that the policy holds for a review
abbrev pub held_of : PolicyEngine → Option String → List String → List String
held_of p origin ss = select (decided "require_review" p origin) ss

abbrev pub IsPermitted : PolicyEngine → Option String → List String → Type 0
IsPermitted p origin ss = All (λ s. decided "deny" p origin s ≡ false) ss

-- the skills of the list of held ones
abbrev skills : List (String × PolicyDecision) → List String
skills hs = map (λ (h : String × PolicyDecision). h.0) hs

-- each scope in turn uses up a grant
abbrev pub Granted : (ℕ → ℕ) → ℕ → List Scope → (gs gs' : List Grant) → Type 0
Granted clock n [] gs gs' = gs' ≡ gs
Granted clock n (c ∷ cs) gs gs' =
    ((consume c (clock n) gs).1 ≡ true) × Granted clock (suc n) cs (consume c (clock n) gs).0 gs'

held_list : Scan → List (String × PolicyDecision)
held_list (Scan.denied d) = []
held_list (Scan.held hs) = hs

Scan-cases :
    (c : Scan)
    → ((d : PolicyDecision) × (c ≡ Scan.denied d))
      ⊎ ((hs : List (String × PolicyDecision)) × (c ≡ Scan.held hs))
Scan-cases (Scan.denied d) = inl (d, refl)
Scan-cases (Scan.held hs) = inr (hs, refl)

scan-held :
    (p : PolicyEngine) (origin : Option String) (ss : List String)
    (hs : List (String × PolicyDecision))
    → scan p origin ss ≡ Scan.held hs
    → IsPermitted p origin ss × (skills hs ≡ held_of p origin ss)
unfolding scan select hold held_list
scan-held p origin [] hs e = (tt, ap (λ c. skills (held_list c)) (sym e))
scan-held p origin (s ∷ ss) hs e = elim (Bool-cases (decided "deny" p origin s)) [
  | inl bad ↦ absurd (let f = rw bad at e in cc f)
  | inr may ↦
      let f = rw may at e in
      elim (Bool-cases (decided "require_review" p origin s)) [
        | inr free ↦
            let g = rw free at f in
            let (permitted, same) = scan-held p origin ss hs g in rw free ((may, permitted), same)
        | inl review ↦
            let g = rw review at f in
            elim (Scan-cases (scan p origin ss)) [
              | inl (d, bad) ↦ absurd (let h = rw bad at g in cc h)
              | inr (more, fine) ↦
                  let h = rw fine at g in
                  let (permitted, same) = scan-held p origin ss more fine in
                  rw review (
                    (may, permitted),
                    ap (λ c. skills (held_list c)) (sym h) ∙ ap (λ l. s ∷ l) same,
                  )
            ]
      ]
]

module _ (x : Setting) where
  consume_held-Granted :
      (n : ℕ) (hs : List (String × PolicyDecision)) (s : State) (gs : List Grant)
      → (consume_held x n hs s gs).1 ≡ none
      → Granted x.clock n (map (scope_of x s) (skills hs)) gs (consume_held x n hs s gs).0
  unfolding consume_held
  consume_held-Granted n [] s gs e = refl
  consume_held-Granted n ((skill, d) ∷ hs) s gs e =
      elim (Bool-cases (consume (scope_of x s skill) (x.clock n) gs).1) [
        | inr lacks ↦ absurd (let f = rw (lacks, consume_held) at e in cc f)
        | inl uses ↦
            let f = rw (uses, consume_held) at e in
            rw (uses, consume_held) (refl, consume_held-Granted (suc n) hs s _ f)
      ]

  -- what the policy node has found of a task that it lets through, and the grants that it leaves
  pub record IsScreened (w w' : Routing) : Type 0 where
    pub permitted : IsPermitted x.policy w.state.origin (required_skills w.state)
    pub granted :
        Granted x.clock 0
          (map (scope_of x w.state) (held_of x.policy w.state.origin (required_skills w.state)))
          w.grants
          w'.grants

  no_rules : (rs : List PolicyRule) → elim rs [ [] ↦ false | r ∷ more ↦ true ] ≡ false → rs ≡ []
  no_rules [] off = refl
  no_rules (r ∷ rs) off = absurd (ground arith)

  open_decision :
      (p : PolicyEngine) (origin : Option String) (s : String)
      → enabled x p ≡ false
      → evaluate_skill p s origin ≡ default_decision
  unfolding evaluate_skill evaluate_from
  open_decision p origin s off = let none_there = no_rules p.rules off in rw none_there refl

  -- with no rule, every skill is let through
  open_policy :
      (p : PolicyEngine) (origin : Option String) (ss : List String)
      → enabled x p ≡ false
      → IsPermitted p origin ss × (held_of p origin ss ≡ [])
  unfolding select
  open_policy p origin [] off = (tt, refl)
  open_policy p origin (s ∷ ss) off =
      let (permitted, same) = open_policy p origin ss off in
      rw (open_decision p origin s off) ((refl, permitted), same)

  -- the policy node lets a task through, as it is, or names the reason why it does not
  abbrev Outcome : (w w' : Routing) → Type 0
  Outcome w w' =
      ((w'.state ≡ w.state) × IsScreened w w')
      ⊎ ((w'.state.failure_reason ≡ some "policy_denied")
          ⊎ (w'.state.failure_reason ≡ some "policy_requires_review"))

  held-Outcome :
      (w : Routing) (hs : List (String × PolicyDecision))
      (p : List Grant × Option (String × PolicyDecision))
      → scan x.policy w.state.origin (required_skills w.state) ≡ Scan.held hs
      → consume_held x 0 hs w.state w.grants ≡ p
      → Outcome w (held_state x p w.state)
  unfolding held_state hold_state
  held-Outcome w hs (gs, some (skill, d)) found used = inr (inr refl)
  held-Outcome w hs (gs, none) found used =
      let (permitted, same) =
        scan-held x.policy w.state.origin (required_skills w.state) hs found in
      let granted = consume_held-Granted 0 hs w.state w.grants (ap (λ z. z.1) used) in
      inl (
        refl,
        record {
          permitted = permitted;
          granted = rw (← same) (
              subst
                (λ (z : List Grant).
                  Granted x.clock 0 (map (scope_of x w.state) (skills hs)) w.grants z)
                (ap (λ z. z.0) used) granted);
        },
      )

  scanned-Outcome :
      (w : Routing) (c : Scan)
      → scan x.policy w.state.origin (required_skills w.state) ≡ c
      → Outcome w (scanned x c w)
  unfolding scanned deny_state
  scanned-Outcome w (Scan.denied d) found = inr (inl refl)
  scanned-Outcome w (Scan.held hs) found = held-Outcome w hs _ found refl

  policy-Outcome : (w : Routing) → Outcome w (policy_node x w)
  unfolding policy_node
  policy-Outcome w = elim (Bool-cases (enabled x x.policy)) [
    | inr off ↦
        let (permitted, same) = open_policy x.policy w.state.origin (required_skills w.state) off in
        rw off (inl (refl, record { permitted = permitted; granted = rw same refl }))
    | inl on ↦ rw on (scanned-Outcome w _ refl)
  ]

  after_denied :
      (agents : Agents) (s : State)
      → s.failure_reason ≡ some "policy_denied"
      → after_policy x agents s ≡ Node.no_agent_found
  unfolding after_policy
  after_denied agents s denied = rw denied refl

  after_held :
      (agents : Agents) (s : State)
      → s.failure_reason ≡ some "policy_requires_review"
      → after_policy x agents s ≡ Node.escalate
  unfolding after_policy
  after_held agents s held = rw held refl

  module _ (agents agents' : Agents) where
    escalate-same :
        (n : ℕ) (w : Routing)
        → walk x agents (suc n) Node.escalate w ≡ walk x agents' (suc n) Node.escalate w
    unfolding walk enter next
    escalate-same n w = refl

    nobody-same :
        (n : ℕ) (w : Routing)
        → walk x agents (suc n) Node.no_agent_found w ≡ walk x agents' (suc n) Node.no_agent_found w
    unfolding walk enter next
    nobody-same n w = refl

    screened-same :
        (w' : Routing)
        → (w'.state.failure_reason ≡ some "policy_denied")
          ⊎ (w'.state.failure_reason ≡ some "policy_requires_review")
        → walk x agents 24 (after_policy x agents w'.state) w'
          ≡ walk x agents' 24 (after_policy x agents' w'.state) w'
    screened-same w' (inl denied) =
        rw (after_denied agents w'.state denied, after_denied agents' w'.state denied)
          (nobody-same 23 w')
    screened-same w' (inr held) =
        rw (after_held agents w'.state held, after_held agents' w'.state held) (escalate-same 23 w')

    -- Of every task: the policy node leaves its state, no skill of it is denied by the policy, and
    -- each skill that is held has used up a grant for its origin and payload; or no agent runs, as the
    -- run is the same whatever the agents are.
    pub invoke-IsScreened :
        (w : Routing)
        → ((policy_node x w).state ≡ w.state) × IsScreened w (policy_node x w)
          ⊎ (invoke x agents w ≡ invoke x agents' w)
    unfolding invoke walk enter next
    invoke-IsScreened w = elim (policy-Outcome w) [
      | inl screened ↦ inl screened
      | inr barred ↦ inr (screened-same (policy_node x w) barred)
    ]
