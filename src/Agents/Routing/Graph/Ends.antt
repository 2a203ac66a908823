-- ===== src/Agents/Routing/Graph/Ends.antt =====
-- On the graph of agents/andromeda/orchestrator.py: how a run ends.
use galaxz.Prelude.{
  ℕ, suc, ◌+◌, ◌≡◌, refl, ◌∙◌, get_or, String, Bool, true, false, Option, none, some, List, [], ◌∷◌,
  Result, ok, err, inl, inr, ◌⊎◌, Bool-cases, Option-cases, Result-cases, value_error, arith,
}
use galaxz.Prelude.Int.{pos, le_ℤ}
use galaxz.Prelude.Text.{str_eq}
use galaxz.Contracts.Json.{Json, Fields}
use galaxz.Agents.Routing.State.{State, Routing, Node, Agents, Setting, is_reason}
use galaxz.Policy.Engine.{PolicyDecision}
use galaxz.Policy.Grants.{Grant}
use galaxz.Agents.Routing.Screen.{
  Scan, consume_held, deny_state, hold_state, held_state, scanned, enabled, policy_node,
}
use galaxz.Agents.Routing.Match.{
  capable, matched, loaded, skill_match_node, load_check_node, assign_node,
}
use galaxz.Agents.Routing.Graph.{
  get_or, is_broken, is_dict, fits, executed, failed_state, answered_state, execute_node, may_retry,
  handle_failure_node, enter, after_policy, after_execute, after_failure, found, next, walk, invoke,
  is_matched, is_named,
}

-- a task that is complete, or waits for a person, or has no agent
pub record IsFinal (now : ℕ) (w : Routing) : Type 0 where
  pub status :
      (w.state.status ≡ "complete")
      ⊎ ((w.state.status ≡ "escalated") × (w.state.escalated_to_human ≡ true))
      ⊎ (w.state.status ≡ "no_agent_found")
  pub completed : w.state.completed_at ≡ some now

-- an agent gives an answer that the graph's check of its state refuses
pub record IsRefused (x : Setting) (agents : Agents) : Type 0 where
  pub id : String
  pub run : String → Json → Fields → Result Json
  pub known : agents id ≡ some run
  pub skill : String
  pub payload : Json
  pub context : Fields
  pub answer : Json
  pub answered : run skill payload context ≡ ok answer
  pub dict : is_dict x agents answer ≡ true
  pub refused : fits x agents answer ≡ false

module _ (x : Setting) (agents : Agents) where
  abbrev Ends : ℕ → Node → Routing → Type 0
  Ends n node w =
      ((w' : Routing) × (walk x agents n node w ≡ ok w') × IsFinal x.now w')
      ⊎ ((walk x agents n node w ≡ err value_error) × IsRefused x agents)

  -- every run from the node ends that has retried so often
  abbrev Stops : ℕ → ℕ → Node → Type 0
  Stops n r node = (w : Routing) → w.state.retry_count ≡ r → Ends n node w

  step-Ends :
      (n : ℕ) (node m : Node) (w w' : Routing)
      → enter x agents node w ≡ ok w'
      → next x agents node w'.state ≡ some m
      → Ends n m w'
      → Ends (suc n) node w
  unfolding walk
  step-Ends n node m w w' entered edge rest = rw (entered, walk) (rw edge rest)

  abbrev now_at : String → Routing → Routing
  now_at status w = record w {
    state = record w.state { status = status; completed_at = some x.now };
  }

  escalate-Ends : (n : ℕ) (w : Routing) → Ends (suc n) Node.escalate w
  unfolding walk enter next
  escalate-Ends n w = inl (
    record w {
      state = record w.state {
        status = "escalated";
        escalated_to_human = true;
        completed_at = some x.now;
      };
    },
    refl,
    record { status = inr (inl (refl, refl)); completed = refl },
  )

  complete-Ends : (n : ℕ) (w : Routing) → Ends (suc n) Node.complete w
  unfolding walk enter next
  complete-Ends n w =
      inl (now_at "complete" w, refl, record { status = inl refl; completed = refl })

  nobody-Ends : (n : ℕ) (w : Routing) → Ends (suc n) Node.no_agent_found w
  unfolding walk enter next
  nobody-Ends n w =
      inl (now_at "no_agent_found" w, refl, record { status = inr (inr refl); completed = refl })

  found-Ends :
      (b : Bool) (n : ℕ) (m : Node) (s : State) (w : Routing)
      → Ends (suc n) m w
      → Ends (suc n) (found x agents b m s) w
  unfolding found
  found-Ends true n m s w h = h
  found-Ends false n m s w h = elim (Bool-cases (str_eq s.status "no_agent_found")) [
    | inl nobody ↦ rw nobody (nobody-Ends n w)
    | inr other ↦ rw other (escalate-Ends n w)
  ]

  after_execute-Ends :
      (n : ℕ) (s : State) (w : Routing)
      → Ends (suc n) Node.handle_failure w
      → Ends (suc n) (after_execute x agents s) w
  unfolding after_execute
  after_execute-Ends n s w h = elim (Bool-cases (str_eq s.status "failed")) [
    | inl failed ↦ rw failed (escalate-Ends n w)
    | inr ran ↦
        elim (Bool-cases (
          le_ℤ (get_or s.confidence_threshold x.completion_threshold)
            (get_or s.confidence (pos 0)))) [
              | inl good ↦ rw (ran, good) (complete-Ends n w)
              | inr weak ↦
                  elim (Bool-cases (le_ℤ x.failure_threshold (get_or s.confidence (pos 0)))) [
                    | inl fair ↦ rw (ran, weak, fair) h
                    | inr poor ↦ rw (ran, weak, poor) (escalate-Ends n w)
                  ]
            ]
  ]

  -- only `handle_failure` counts
  abbrev Keeps : (State → State) → Type 0
  Keeps f = (s : State) → (f s).retry_count ≡ s.retry_count

  -- an execution leaves the count, or an answer is refused
  abbrev Executes : State → Result State → Type 0
  Executes s p =
      ((s' : State) × (p ≡ ok s') × (s'.retry_count ≡ s.retry_count))
      ⊎ ((p ≡ err value_error) × IsRefused x agents)

  answered-Keeps : (result : Json) → Keeps (answered_state x agents result)
  unfolding answered_state
  answered-Keeps result s = elim (Bool-cases (is_broken result)) [
    | inl broken ↦ rw broken refl
    | inr ran ↦ rw ran refl
  ]

  executed-Executes :
      (id : String) (run : String → Json → Fields → Result Json)
      → agents id ≡ some run
      → (skill : String) (payload : Json) (context : Fields) (s : State)
      → Executes s (executed x agents (run skill payload context) s)
  unfolding executed failed_state
  executed-Executes id run known skill payload context s =
      elim (Result-cases (run skill payload context)) [
        | inr (e, raised) ↦ rw raised (inl (failed_state x agents (x.message e) s, refl, refl))
        | inl (v, answered) ↦ elim (Bool-cases (is_dict x agents v)) [
          | inr other ↦
              rw (answered, other) (inl (failed_state x agents (x.no_get v) s, refl, refl))
          | inl dict ↦ elim (Bool-cases (fits x agents v)) [
            | inl good ↦
                rw (answered, dict, good)
                  (inl (answered_state x agents v s, refl, answered-Keeps v s))
            | inr bad ↦
                rw (answered, dict, bad)
                  (inr (
                    refl,
                    record {
                      id = id;
                      run = run;
                      known = known;
                      skill = skill;
                      payload = payload;
                      context = context;
                      answer = v;
                      answered = answered;
                      dict = dict;
                      refused = bad;
                    },
                  ))
          ]
        ]
      ]

  execute-Executes : (s : State) → Executes s (execute_node x agents s)
  unfolding execute_node failed_state
  execute-Executes s = elim (Option-cases s.assigned_agent) [
    | inl absent ↦
        rw (absent, execute_node) (inl (failed_state x agents "unknown agent: None" s, refl, refl))
    | inr (id, named) ↦ elim (Option-cases (agents id)) [
      | inl unknown ↦
          rw (named, unknown, execute_node) (inl (failed_state x agents _ s, refl, refl))
      | inr (run, there) ↦ rw (named, there, execute_node) (executed-Executes id run there _ _ _ s)
    ]
  ]

  matched-Keeps : (ids : List String) → Keeps (matched x ids)
  unfolding matched
  matched-Keeps [] s = refl
  matched-Keeps (a ∷ as') s = refl

  skill_match-Keeps : Keeps (skill_match_node x)
  unfolding skill_match_node
  skill_match-Keeps s = matched-Keeps (capable x s) s

  loaded-Keeps : (ids : List String) → Keeps (loaded x ids)
  unfolding loaded
  loaded-Keeps [] s = refl
  loaded-Keeps (a ∷ as') s = refl

  load_check-Keeps : Keeps (load_check_node x)
  unfolding load_check_node
  load_check-Keeps s = loaded-Keeps s.matched_agents s

  execute-Stops :
      (n r : ℕ) → Stops (suc n) r Node.handle_failure → Stops (suc (suc n)) r Node.execute
  unfolding enter next walk
  execute-Stops n r h w same = elim (execute-Executes w.state) [
    | inl (s, done, kept) ↦
        let w' : Routing = record w { state = s } in
        step-Ends (suc n) Node.execute (after_execute x agents s) w w' (rw done refl) refl
          (after_execute-Ends n s w' (h w' (kept ∙ same)))
    | inr (refused, why) ↦ inr (rw (refused, walk) refl, why)
  ]

  assign-Stops : (n r : ℕ) → Stops n r Node.execute → Stops (suc n) r Node.assign
  unfolding enter next assign_node
  assign-Stops n r h w same =
      let w' : Routing = record w { state = assign_node x w.state } in
      step-Ends n Node.assign Node.execute w w' refl refl (h w' same)

  load_check-Stops : (n r : ℕ) → Stops (suc n) r Node.assign → Stops (suc (suc n)) r Node.load_check
  unfolding enter next
  load_check-Stops n r h w same =
      let w' : Routing = record w { state = load_check_node x w.state } in
      step-Ends (suc n) Node.load_check _ w w' refl refl (
        found-Ends (is_named x agents w'.state.assigned_agent) n Node.assign w'.state w'
          (h w' (load_check-Keeps w.state ∙ same)))

  skill_match-Stops :
      (n r : ℕ) → Stops (suc n) r Node.load_check → Stops (suc (suc n)) r Node.skill_match
  unfolding enter next
  skill_match-Stops n r h w same =
      let w' : Routing = record w { state = skill_match_node x w.state } in
      step-Ends (suc n) Node.skill_match _ w w' refl refl (
        found-Ends (is_matched x agents w'.state.matched_agents) n Node.load_check w'.state w'
          (h w' (skill_match-Keeps w.state ∙ same)))

  -- from the choice of an agent to the end of its run
  round-Stops :
      (n r : ℕ)
      → Stops (suc n) r Node.handle_failure
      → Stops (suc (suc (suc (suc (suc n))))) r Node.skill_match
  round-Stops n r h =
      skill_match-Stops _ r (load_check-Stops _ r (assign-Stops _ r (execute-Stops n r h)))

  may_retry-once : (s : State) → s.retry_count ≡ 1 → may_retry x agents s ≡ false
  unfolding may_retry
  may_retry-once s same = ground arith

  given_up :
      (s : State)
      → may_retry x agents s ≡ false
      → next x agents Node.handle_failure (handle_failure_node x agents s) ≡ some Node.escalate
  unfolding handle_failure_node next after_failure
  given_up s over = rw (over, handle_failure_node) refl

  tried_again :
      (s : State)
      → may_retry x agents s ≡ true
      → (next x agents Node.handle_failure (handle_failure_node x agents s) ≡ some Node.skill_match)
        × ((handle_failure_node x agents s).retry_count ≡ s.retry_count + 1)
  unfolding handle_failure_node next after_failure
  tried_again s again = rw (again, handle_failure_node) (refl, refl)

  given_up-Ends :
      (n : ℕ) (w : Routing)
      → may_retry x agents w.state ≡ false
      → Ends (suc (suc n)) Node.handle_failure w
  unfolding enter
  given_up-Ends n w over =
      let w' : Routing = record w { state = handle_failure_node x agents w.state } in
      step-Ends (suc n) Node.handle_failure Node.escalate w w' refl (given_up w.state over)
        (escalate-Ends n w')

  -- the second failure is the last
  last-Stops : (n : ℕ) → Stops (suc (suc n)) 1 Node.handle_failure
  last-Stops n w same = given_up-Ends n w (may_retry-once w.state same)

  first-Stops :
      (n : ℕ) → Stops (suc n) 1 Node.skill_match → Stops (suc (suc n)) 0 Node.handle_failure
  unfolding enter
  first-Stops n h w same = elim (Bool-cases (may_retry x agents w.state)) [
    | inr over ↦ given_up-Ends n w over
    | inl again ↦
        let (edge, counted) = tried_again w.state again in
        let w' : Routing = record w { state = handle_failure_node x agents w.state } in
        step-Ends (suc n) Node.handle_failure Node.skill_match w w' refl edge
          (h w' (omega (arith, counted, same)))
  ]

  -- after the policy node: two rounds at most
  rounds-Stops :
      (n : ℕ)
      → Stops (suc (suc (suc (suc (suc (suc (suc (suc (suc (suc (suc n))))))))))) 0 Node.skill_match
  rounds-Stops n = round-Stops _ 0 (first-Stops _ (round-Stops _ 1 (last-Stops n)))

  screened-Ends :
      (n : ℕ) (w : Routing)
      → w.state.retry_count ≡ 0
      → Ends
          (suc (suc (suc (suc (suc (suc (suc (suc (suc (suc (suc n)))))))))))
          (after_policy x agents w.state)
          w
  unfolding after_policy
  screened-Ends n w same = elim (Bool-cases (is_reason "policy_denied" w.state.failure_reason)) [
    | inl denied ↦ rw denied (nobody-Ends _ w)
    | inr other ↦ elim (Bool-cases (is_reason "policy_requires_review" w.state.failure_reason)) [
      | inl held ↦ rw (other, held) (escalate-Ends _ w)
      | inr free ↦ rw (other, free) (rounds-Stops n w same)
    ]
  ]

  held-Keeps :
      (p : List Grant × Option (String × PolicyDecision)) (s : State)
      → (held_state x p s).state.retry_count ≡ s.retry_count
  unfolding held_state hold_state
  held-Keeps (gs, none) s = refl
  held-Keeps (gs, some (skill, d)) s = refl

  scanned-Keeps : (c : Scan) (w : Routing) → (scanned x c w).state.retry_count ≡ w.state.retry_count
  unfolding scanned deny_state
  scanned-Keeps (Scan.denied d) w = refl
  scanned-Keeps (Scan.held hs) w = held-Keeps (consume_held x 0 hs w.state w.grants) w.state

  policy-Keeps : (w : Routing) → (policy_node x w).state.retry_count ≡ w.state.retry_count
  unfolding policy_node
  policy-Keeps w = elim (Bool-cases (enabled x x.policy)) [
    | inl on ↦ rw on (scanned-Keeps _ w)
    | inr off ↦ rw off refl
  ]

  -- Of a task that was not retried yet, the graph ends within the limit of its steps, whatever the
  -- agents answer or raise: the task is complete, escalated to a person, or without an agent; or the
  -- run raises ValidationError, and then an agent has given an answer that is a dict with a field of
  -- another type than the state has for it, or a confidence outside of 0 to 1.
  pub invoke-IsFinal :
      (w : Routing)
      → w.state.retry_count ≡ 0
      → ((w' : Routing) × (invoke x agents w ≡ ok w') × IsFinal x.now w')
        ⊎ ((invoke x agents w ≡ err value_error) × IsRefused x agents)
  unfolding invoke enter next
  invoke-IsFinal w same =
      let w' : Routing = policy_node x w in
      step-Ends 24 Node.policy_check (after_policy x agents w'.state) w w' refl refl
        (screened-Ends 13 w' (policy-Keeps w ∙ same))
