-- ===== src/Completion/Publisher.antt =====
-- core/jobs/completion.py: `publish_pending` and `_publish`, on the tables of the jobs, those of the
-- artifacts and the queue of reviews. Each store commits by itself, so an exception keeps what the
-- stores before it have written. A whole number in a JSON value is a parameter.
pub mod Published
pub mod Acknowledged
pub mod Replay
use galaxz.Prelude.{
  ℕ, ◌+◌, String, Bool, false, not, ◌&&◌, Option, none, some, List, [], ◌∷◌, get_or, is_some,
  Result, ok, err, guard, require, runtime_error, type_error, ◌>>=◌, if◌then◌else◌,
}
use galaxz.Prelude.Int.{ℤ, pos}
use galaxz.Prelude.Text.{str_eq}
use galaxz.Prelude.Text.Uuid.{uuid_text}
use galaxz.Contracts.Json.{
  Json, Items, Fields, num, str, arr, obj, nil, cons, end, field, get, is_text, truthy, dumps,
  json_eq, set_field,
}
use galaxz.Contracts.Task.{TaskContract}
use galaxz.Jobs.Store.{OutboxRow, Db, get_task, get_result}
use galaxz.Jobs.Outbox.{pending_completions, acknowledge_completion}
use galaxz.Goals.Substitution.Reference.{drop_prefix, split_dots}
use galaxz.Completion.Artifacts.{ArtifactDb, Recorded, Source, get_version, record_artifacts}
use galaxz.Completion.Reviews.{Review, enqueue_review, get_by_task_id}

pub record Stores : Type 0 where
  pub jobs : Db
  pub artifacts : ArtifactDb
  pub reviews : List Review

items_list : Items → List Json
items_list nil = []
items_list (cons v vs) = v ∷ items_list vs

-- `result.get("artifacts") or []`
pub listed : Option Json → Result (List Json)
unfolding items_list
listed (some (arr vs)) = ok (items_list vs)
listed o = if truthy o then err type_error else ok []

object_fields : Option Json → Fields
object_fields (some (obj fs)) = fs
object_fields _ = end

last_part : List String → String
last_part [] = ""
last_part (s ∷ []) = s
last_part (s ∷ t ∷ ts) = last_part (t ∷ ts)

abbrev text_or : Option Json → String → String
text_or (some (str s)) t = if str_eq s "" then t else s
text_or _ t = t

abbrev number_or_zero : Option Json → ℤ
number_or_zero (some (num n)) = n
number_or_zero _ = pos 0

abbrev one_hour : ℕ
one_hour = 3_600_000_000

module _ (hash : String → String) (integer : ℕ → Json) where
  -- the references to the versions, each with the hash of its content
  pub references : List Recorded → ArtifactDb → Result Items
  references [] db = ok nil
  references (r ∷ rs) db = do
    v ← require (get_version r.identity_key r.version db) runtime_error
    rest ← references rs db
    ok (
        cons
          (obj (
            field "identity_key" (str r.identity_key) (
              field "version" (integer r.version) (field "content_hash" (str v.content_hash) end))))
          rest)

  -- `task.origin.removeprefix("goal:")`, if it starts so
  goal_of : TaskContract → Option String
  unfolding drop_prefix
  goal_of t = drop_prefix "goal:" t.origin

  -- the truth of `goal_id`, which is empty for the origin "goal:"
  under_goal : TaskContract → Bool
  unfolding goal_of
  under_goal t = elim (goal_of t) [ none ↦ false | some g ↦ not (str_eq g "") ]

  pub review_task : TaskContract → OutboxRow → String
  unfolding under_goal
  review_task t e = if under_goal t then uuid_text e.attempt_id else uuid_text t.task_id

  pub evidence : Json → Items → Json
  unfolding object_fields set_field
  evidence result refs =
      obj (set_field "artifact_versions" (arr refs) (object_fields (get "result" result)))

  unfoldable pub review_of : TaskContract → Json → Items → OutboxRow → ℕ → Review
  unfolding review_task under_goal evidence last_part split_dots goal_of
  review_of t result refs e now = record {
    task_id = review_task t e;
    task_type = text_or (get "task_type" result) (last_part (split_dots t.skill));
    skill_id = t.skill;
    agent_id = text_or (get "assigned_agent" result) "";
    agent_output = evidence result refs;
    sla_deadline = some (e.created_at + one_hour);
    confidence = number_or_zero (get "confidence" result);
    payload = t.payload;
    status = "pending";
    created_at = now;
    reviewed_at = none;
    reviewer_notes = none;
    goal_id = goal_of t;
    planned_task_id = if under_goal t then some (uuid_text t.task_id) else none;
    attempt_id = some (uuid_text e.attempt_id);
  }

  -- `review["attempt_id"] == event["attempt_id"]`, and the same evidence
  unfoldable pub same_evidence : Review → Review → Bool
  same_evidence r q = elim q.attempt_id [
    | none ↦ false
    | some a ↦
        elim r.attempt_id [ none ↦ false | some b ↦ str_eq a b ]
        && json_eq (dumps q.agent_output) (dumps r.agent_output)
  ]

  confirmed : Review → Option Review → Bool
  unfolding same_evidence
  confirmed r none = false
  confirmed r (some q) = same_evidence r q

  -- `reviews.enqueue` and the check that follows it
  unfoldable pub ask_review : Review → Stores → Stores × Result (Unit {0})
  unfolding confirmed
  ask_review r w =
      let reviews = enqueue_review r w.reviews in
      (
        record w { reviews = reviews },
        guard (confirmed r (get_by_task_id r.task_id reviews)) runtime_error,
      )

  acknowledged : OutboxRow → ℕ → Stores × Result (Unit {0}) → Stores × Result (Unit {0})
  acknowledged e now (w, err x) = (w, err x)
  acknowledged e now (w, ok u) =
      (record w { jobs = acknowledge_completion e.job_id now w.jobs }, ok tt)

  publish_refs :
      TaskContract → Json → OutboxRow → ℕ → Result Items → Stores → Stores × Result (Unit {0})
  unfolding acknowledged
  publish_refs t result e now (err x) w = (w, err x)
  publish_refs t result e now (ok refs) w = acknowledged e now (
      if is_text "escalated" (get "status" result)
      then ask_review (review_of t result refs e now) w
      else (w, ok tt))

  publish_recorded :
      TaskContract
      → Json
      → OutboxRow
      → ℕ
      → ArtifactDb × Result (List Recorded)
      → Stores
      → Stores × Result (Unit {0})
  unfolding references publish_refs
  publish_recorded t result e now (db, err x) w = (record w { artifacts = db }, err x)
  publish_recorded t result e now (db, ok rs) w =
      publish_refs t result e now (references rs db) (record w { artifacts = db })

  unfoldable pub source_of : TaskContract → OutboxRow → Source
  source_of t e = record {
    workspace_root = get_or t.workspace_root "";
    task_id = uuid_text t.task_id;
    skill = t.skill;
    attempt_id = some (uuid_text e.attempt_id);
  }

  publish_items :
      TaskContract → Json → OutboxRow → ℕ → Result (List Json) → Stores → Stores × Result (Unit {0})
  unfolding publish_recorded source_of
  publish_items t result e now (err x) w = (w, err x)
  publish_items t result e now (ok vs) w =
      publish_recorded t result e now (record_artifacts hash (source_of t e) now vs w.artifacts) w

  publish_found :
      OutboxRow → ℕ → Option TaskContract → Option Json → Stores → Stores × Result (Unit {0})
  unfolding publish_items listed
  publish_found e now (some t) (some result) w =
      publish_items t result e now (listed (get "artifacts" result)) w
  publish_found e now _ _ w = (w, err runtime_error)

  -- `_publish`
  unfoldable pub publish : OutboxRow → ℕ → Stores → Stores × Result (Unit {0})
  unfolding publish_found
  publish e now w = publish_found e now (get_task e.job_id w.jobs) (get_result e.job_id w.jobs) w

  -- The exceptions of `_publish` are logged.
  unfoldable pub publish_all : List OutboxRow → ℕ → Stores → Stores
  publish_all [] now w = w
  publish_all (e ∷ es) now w = publish_all es now (publish e now w).0

  unfoldable pub publish_pending : ℕ → Stores → Stores
  publish_pending now w = publish_all (pending_completions 100 w.jobs) now w
