-- ===== src/Contracts/Job/Transitions.antt =====
-- core/contracts/jobs.py: the states of a job, and the transitions that are allowed.
use galaxz.Prelude.{
  Bool, true, false, ◌||◌, List, [], ◌∷◌, Result, guard, value_error, ◌≡◌, ◌↔◌, ◌⊎◌, inl, inr, ok,
  refl,
}

pub data JobStatus : Type 0 where
  queued running completed failed cancelled : JobStatus

pub data AttemptOutcome : Type 0 where
  completed failed lease_expired cancelled : AttemptOutcome

abbrev pub status_eq : JobStatus → JobStatus → Bool
status_eq JobStatus.queued JobStatus.queued = true
status_eq JobStatus.running JobStatus.running = true
status_eq JobStatus.completed JobStatus.completed = true
status_eq JobStatus.failed JobStatus.failed = true
status_eq JobStatus.cancelled JobStatus.cancelled = true
status_eq _ _ = false

-- `_VALID_JOB_TRANSITIONS`
unfoldable pub valid_job_transitions : JobStatus → List JobStatus
valid_job_transitions JobStatus.queued = JobStatus.running ∷ JobStatus.cancelled ∷ []
valid_job_transitions JobStatus.running =
    JobStatus.queued ∷ JobStatus.completed ∷ JobStatus.failed ∷ JobStatus.cancelled ∷ []
valid_job_transitions _ = []

status_in : JobStatus → List JobStatus → Bool
status_in s [] = false
status_in s (t ∷ ts) = status_eq s t || status_in s ts

unfoldable pub validate_job_transition : JobStatus → JobStatus → Result (Unit {0})
unfolding valid_job_transitions status_in
validate_job_transition current target =
    guard (status_in target (valid_job_transitions current)) value_error

-- the life of a job as a diagram
pub data Moves : JobStatus → JobStatus → Type 0 where
  claim : Moves JobStatus.queued JobStatus.running
  withdraw : Moves JobStatus.queued JobStatus.cancelled
  retry : Moves JobStatus.running JobStatus.queued
  finish : Moves JobStatus.running JobStatus.completed
  give_up : Moves JobStatus.running JobStatus.failed
  abort : Moves JobStatus.running JobStatus.cancelled

pub data Reaches : JobStatus → JobStatus → Type 0 where
  here : {s : JobStatus} → Reaches s s
  then : {s t u : JobStatus} → Moves s t → Reaches t u → Reaches s u

abbrev pub IsTerminal : JobStatus → Type 0
IsTerminal JobStatus.queued = ⊥
IsTerminal JobStatus.running = ⊥
IsTerminal _ = Unit

pub Moves-open : {s t : JobStatus} → Moves s t → IsTerminal s → ⊥
Moves-open claim final = final
Moves-open withdraw final = final
Moves-open retry final = final
Moves-open finish final = final
Moves-open give_up final = final
Moves-open abort final = final

ruleset moves = (claim, withdraw, retry, finish, give_up, abort)

pub accepted-Moves :
    (s t : JobStatus) {u : Unit {0}} → validate_job_transition s t ≡ ok u → Moves s t
unfolding validate_job_transition
accepted-Moves JobStatus.queued JobStatus.running h = claim
accepted-Moves JobStatus.queued JobStatus.cancelled h = withdraw
accepted-Moves JobStatus.running JobStatus.queued h = retry
accepted-Moves JobStatus.running JobStatus.completed h = finish
accepted-Moves JobStatus.running JobStatus.failed h = give_up
accepted-Moves JobStatus.running JobStatus.cancelled h = abort
accepted-Moves _ _ h = cc

Moves-accepted : {s t : JobStatus} → Moves s t → validate_job_transition s t ≡ ok tt
unfolding validate_job_transition
Moves-accepted claim = refl
Moves-accepted withdraw = refl
Moves-accepted retry = refl
Moves-accepted finish = refl
Moves-accepted give_up = refl
Moves-accepted abort = refl

-- A transition is accepted exactly when the diagram has it; a job never leaves `completed`,
-- `failed` or `cancelled`, however many transitions are taken; and every job can still get to
-- `completed` until then.
pub transition_diagram :
    ((s t : JobStatus) → (validate_job_transition s t ≡ ok tt) ↔ Moves s t)
    × ((s t : JobStatus) → IsTerminal s → Reaches s t → s ≡ t)
    × ((s : JobStatus) → (IsTerminal s) ⊎ Reaches s JobStatus.completed)
transition_diagram = (λ s t. (accepted-Moves s t, Moves-accepted), stays, ends)
  where
    stays : (s t : JobStatus) → IsTerminal s → Reaches s t → s ≡ t
    stays s t h here = refl
    stays s t h (then claim r) = absurd h
    stays s t h (then withdraw r) = absurd h
    stays s t h (then retry r) = absurd h
    stays s t h (then finish r) = absurd h
    stays s t h (then give_up r) = absurd h
    stays s t h (then abort r) = absurd h

    ends : (s : JobStatus) → (IsTerminal s) ⊎ Reaches s JobStatus.completed
    ends JobStatus.queued = inr (then claim (then finish here))
    ends JobStatus.running = inr (then finish here)
    ends JobStatus.completed = inl tt
    ends JobStatus.failed = inl tt
    ends JobStatus.cancelled = inl tt
