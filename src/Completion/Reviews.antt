-- ===== src/Completion/Reviews.antt =====
-- agents/andromeda/review_queue.py: the results that wait for a person.
use galaxz.Prelude.{
  ℕ, ◌-◌, String, Bool, true, false, ◌&&◌, ◌||◌, Option, none, some, List, [], ◌∷◌, ◌++◌, ltb, ◌==◌,
  is_some, if◌then◌else◌,
}
use Prim.Native.Nat.{zero, suc, ◌/◌}
use galaxz.Prelude.Int.{ℤ, pos, negsuc}
use galaxz.Prelude.Text.{str_eq}
use galaxz.Prelude.Table.{find_by, select}
use galaxz.Prelude.Table.Count.{count}
use galaxz.Contracts.Json.{Json}

pub record Review : Type 0 where
  pub task_id : String
  pub task_type : String
  pub skill_id : String
  pub agent_id : String
  pub agent_output : Json
  pub sla_deadline : Option ℕ
  pub confidence : ℤ
  pub payload : Json
  pub status : String
  pub created_at : ℕ
  pub reviewed_at : Option ℕ
  pub reviewer_notes : Option String
  pub goal_id : Option String
  pub planned_task_id : Option String
  pub attempt_id : Option String

unfoldable pub has_task : String → Review → Bool
has_task id r = str_eq r.task_id id

unfoldable pub get_by_task_id : String → List Review → Option Review
unfolding has_task
get_by_task_id id rs = find_by (has_task id) rs

-- `enqueue`, `INSERT OR IGNORE`, of a row that is pending
unfoldable pub enqueue_review : Review → List Review → List Review
unfolding has_task
enqueue_review r rs = if is_some (find_by (has_task r.task_id) rs) then rs else rs ++ r ∷ []

abbrev is_pending : Review → Bool
is_pending r = str_eq r.status "pending"

-- no deadline comes last
due_before : Option ℕ → Option ℕ → Bool
due_before none e = false
due_before (some d) none = true
due_before (some d) (some e) = ltb d e

same_due : Option ℕ → Option ℕ → Bool
same_due none none = true
same_due (some d) (some e) = d == e
same_due _ _ = false

-- `ORDER BY COALESCE(sla_deadline, '9999') ASC, created_at ASC`
earlier : Review → Review → Bool
unfolding due_before same_due
earlier r s =
    due_before r.sla_deadline s.sla_deadline
    || (same_due r.sla_deadline s.sla_deadline && ltb r.created_at s.created_at)

insert_due : Review → List Review → List Review
insert_due r [] = r ∷ []
insert_due r (s ∷ rs) = let rest = insert_due r rs in if earlier s r then s ∷ rest else r ∷ s ∷ rs

by_due : List Review → List Review
unfolding insert_due earlier
by_due [] = []
by_due (r ∷ rs) = insert_due r (by_due rs)

unfoldable pub get_pending : List Review → List Review
unfolding by_due
get_pending rs = by_due (select is_pending rs)

resolved : String → ℕ → Option String → Review → Review
resolved status now notes r = record r {
  status = status;
  reviewed_at = some now;
  reviewer_notes = notes;
}

-- `resolve`, and whether it changed a row; task identifiers are unique
unfoldable pub resolve : String → String → ℕ → Option String → List Review → List Review × Bool
unfolding resolved
resolve id status now notes [] = ([], false)
resolve id status now notes (r ∷ rs) =
    let rest = resolve id status now notes rs in
    if str_eq r.task_id id && is_pending r
    then (resolved status now notes r ∷ rest.0, true)
    else (r ∷ rest.0, rest.1)

pub record Stats : Type 0 where
  pub pending : ℕ
  pub approved : ℕ
  pub accepted : ℕ
  pub rejected : ℕ
  pub oldest_pending_age_minutes : Option ℤ
  pub sla_breached : ℕ

having : String → List Review → ℕ
having s rs = count (λ (r : Review). str_eq r.status s) rs

oldest : List Review → Option ℕ
oldest [] = none
oldest (r ∷ rs) =
    let rest = oldest rs in
    if is_pending r
    then some (elim rest [
      | none ↦ r.created_at
      | some t ↦ if ltb t r.created_at then t else r.created_at
    ])
    else rest

is_late : ℕ → Review → Bool
is_late now r = is_pending r && elim r.sla_deadline [ none ↦ false | some d ↦ ltb d now ]

abbrev minus : ℕ → ℤ
minus zero = pos 0
minus (suc n) = negsuc n

-- whole minutes, towards 0, which are negative by a clock that was set back
age : ℕ → Option ℕ → Option ℤ
age now none = none
age now (some t) =
    some (if ltb now t then minus ((t - now) / 60_000_000) else pos ((now - t) / 60_000_000))

unfoldable pub get_stats : ℕ → List Review → Stats
unfolding having oldest is_late age
get_stats now rs = record {
  pending = having "pending" rs;
  approved = having "approved" rs;
  accepted = having "accepted" rs;
  rejected = having "rejected" rs;
  oldest_pending_age_minutes = age now (oldest rs);
  sla_breached = count (is_late now) rs;
}
