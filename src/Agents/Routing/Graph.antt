-- ===== src/Agents/Routing/Graph.antt =====
-- The remaining nodes of the graph of agents/andromeda/orchestrator.py, its edges and its run, with the
-- limit of 25 steps that the graph library sets by default. The library checks the state by its types
-- (agents/andromeda/state.py) where a node or an edge reads it; an answer of an agent is all that can fail.
pub mod Gated
pub mod Ends
use galaxz.Prelude.{
  ℕ, zero, suc, ◌+◌, String, Bool, true, false, not, ◌&&◌, ◌||◌, Option, none, some, List, [], ◌∷◌,
  ltb, get_or, Result, ok, err, recursion_error, value_error, ◌>>=◌, if◌then◌else◌,
}
use Prim.Native.String.{◌++◌ as joined}
use galaxz.Prelude.Int.{ℤ, pos, le_ℤ}
use galaxz.Prelude.Text.{str_eq}
use galaxz.Contracts.Json.{
  Json, Items, null, str, arr, obj, nil, cons, end, get, is_text, set_field,
}
use galaxz.Agents.Routing.State.{State, Routing, Node, Agents, Setting, percent, is_reason}
use galaxz.Agents.Routing.Screen.{policy_node}
use galaxz.Agents.Routing.Match.{skill_match_node, load_check_node, assign_node}

-- the types of the fields of AndromedaState that an answer is written to: `dict | None`, `list[str]`
fits_object : Json → Bool
fits_object null = true
fits_object (obj fs) = true
fits_object _ = false

all_texts : Items → Bool
all_texts nil = true
all_texts (cons (str s) vs) = all_texts vs
all_texts (cons _ vs) = false

fits_texts : Json → Bool
unfolding all_texts
fits_texts (arr vs) = all_texts vs
fits_texts _ = false

is_broken : Json → Bool
is_broken result = is_text "execution_sandbox_unavailable" (get "failure_reason" result)

unverified : Json
unverified = arr (cons (str "Execution could not be verified in the configured sandbox.") nil)

module _ (x : Setting) (agents : Agents) where
  failed_state : String → State → State
  failed_state reason s = record s {
    status = "failed";
    failure_reason = some reason;
    confidence = some (pos 0);
  }

  -- `float | None` from 0 to 1
  fits_confidence : Option Json → Bool
  fits_confidence none = true
  fits_confidence (some null) = true
  fits_confidence (some v) = elim (x.float_of v) [
    | none ↦ false
    | some c ↦ le_ℤ (pos 0) c && le_ℤ c (percent 100)
  ]

  confidence_of : Option Json → Option ℤ
  confidence_of none = some (percent 80)
  confidence_of (some null) = none
  confidence_of (some v) = x.float_of v

  -- whether the graph's check of its state accepts what an answer sets
  unfoldable pub fits : Json → Bool
  unfolding fits_object fits_texts fits_confidence is_broken
  fits result =
      fits_object (get_or (get "confidence_breakdown" result) (obj end))
      && (is_broken result
          || (fits_object (get_or (get "result" result) result)
              && (fits_confidence (get "confidence" result)
                  && fits_texts (get_or (get "gaps" result) (arr nil)))))

  answered_state : Json → State → State
  unfolding confidence_of unverified is_broken
  answered_state result s =
      if is_broken result
      then record s {
        result = some result;
        confidence = some (pos 0);
        confidence_breakdown = some (get_or (get "confidence_breakdown" result) (obj end));
        gaps = unverified;
        status = "failed";
        failure_reason = some "execution_sandbox_unavailable";
      }
      else record s {
        result = some (get_or (get "result" result) result);
        confidence = confidence_of (get "confidence" result);
        confidence_breakdown = some (get_or (get "confidence_breakdown" result) (obj end));
        gaps = get_or (get "gaps" result) (arr nil);
        status = "complete";
      }

  pub is_dict : Json → Bool
  is_dict (obj fs) = true
  is_dict _ = false

  -- an answer that is not a dict raises in the `try`, and one with a field of another type where the graph
  -- reads its state
  executed : Result Json → State → Result State
  unfolding failed_state answered_state is_dict
  executed (err e) s = ok (failed_state (x.message e) s)
  executed (ok result) s =
      if is_dict result
      then if fits result then ok (answered_state result s) else err value_error
      else ok (failed_state (x.no_get result) s)

  -- `_execute_node`, and the check of the state that it leaves
  unfoldable pub execute_node : State → Result State
  unfolding executed
  execute_node s = elim s.assigned_agent [
    | none ↦ ok (failed_state "unknown agent: None" s)
    | some id ↦ elim (agents id) [
      | none ↦ ok (failed_state (joined "unknown agent: " id) s)
      | some run ↦
          executed (run s.first_skill s.payload (set_field "task_id" (str s.task_id) s.context)) s
    ]
  ]

  unfoldable pub may_retry : State → Bool
  may_retry s = ltb s.retry_count 1 && le_ℤ (percent 60) (get_or s.confidence (pos 0))

  unfoldable pub handle_failure_node : State → State
  handle_failure_node s =
      if may_retry s
      then record s { retry_count = s.retry_count + 1; status = "routing" }
      else record s { escalated_to_human = true; status = "escalated" }

  escalate_node : State → State
  escalate_node s = record s {
    status = "escalated";
    escalated_to_human = true;
    completed_at = some x.now;
  }

  ended : String → State → State
  ended status s = record s { status = status; completed_at = some x.now }

  -- what a node makes of the state
  unfoldable pub enter : Node → Routing → Result Routing
  unfolding escalate_node ended
  enter Node.policy_check w = ok (policy_node x w)
  enter Node.skill_match w = ok (record w { state = skill_match_node x w.state })
  enter Node.load_check w = ok (record w { state = load_check_node x w.state })
  enter Node.assign w = ok (record w { state = assign_node x w.state })
  enter Node.execute w = do s ← execute_node w.state; ok (record w { state = s })
  enter Node.handle_failure w = ok (record w { state = handle_failure_node w.state })
  enter Node.escalate w = ok (record w { state = escalate_node w.state })
  enter Node.complete w = ok (record w { state = ended "complete" w.state })
  enter Node.no_agent_found w = ok (record w { state = ended "no_agent_found" w.state })

  unfoldable pub after_policy : State → Node
  after_policy s =
      if is_reason "policy_denied" s.failure_reason
      then Node.no_agent_found
      else if is_reason "policy_requires_review" s.failure_reason
      then Node.escalate
      else Node.skill_match

  -- an agent is found, or none, or neither is said
  found : Bool → Node → State → Node
  found b next s =
      if b
      then next
      else if str_eq s.status "no_agent_found"
      then Node.no_agent_found
      else Node.escalate

  is_matched : List String → Bool
  is_matched [] = false
  is_matched (s ∷ ss) = true

  unfoldable pub after_execute : State → Node
  after_execute s =
      let confidence = get_or s.confidence (pos 0) in
      if str_eq s.status "failed"
      then Node.escalate
      else if le_ℤ (get_or s.confidence_threshold x.completion_threshold) confidence
      then Node.complete
      else if le_ℤ x.failure_threshold confidence
      then Node.handle_failure
      else Node.escalate

  is_named : Option String → Bool
  is_named none = false
  is_named (some a) = not (str_eq a "")

  unfoldable pub after_failure : State → Node
  after_failure s = if str_eq s.status "routing" then Node.skill_match else Node.escalate

  -- the edges of the graph
  unfoldable pub next : Node → State → Option Node
  unfolding found is_matched is_named
  next Node.policy_check s = some (after_policy s)
  next Node.skill_match s = some (found (is_matched s.matched_agents) Node.load_check s)
  next Node.load_check s = some (found (is_named s.assigned_agent) Node.assign s)
  next Node.assign s = some Node.execute
  next Node.execute s = some (after_execute s)
  next Node.handle_failure s = some (after_failure s)
  next _ s = none

  unfoldable pub walk : ℕ → Node → Routing → Result Routing
  walk zero node w = err recursion_error
  walk (suc n) node w = elim (enter node w) [
    | err e ↦ err e
    | ok w' ↦ elim (next node w'.state) [ none ↦ ok w' | some m ↦ walk n m w' ]
  ]

  -- `self.graph.invoke`
  unfoldable pub invoke : Routing → Result Routing
  invoke w = walk 25 Node.policy_check w
