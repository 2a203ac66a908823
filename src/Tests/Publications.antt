-- ===== src/Tests/Publications.antt =====
-- The publication of a completion at a concrete input.
use galaxz.Prelude.{ℕ, String, ◌≡◌, refl, none, some, [], ◌∷◌, map, ok, err, Error, runtime_error}
use galaxz.Prelude.Int.{pos}
use galaxz.Prelude.Text.Uuid.{uuid_text}
use galaxz.Prelude.Table.{find, find_by, select, modify, exists}
use galaxz.Contracts.Json.{Json, Items, Fields, get, truthy, is_text, dumps, json_eq}
use galaxz.Contracts.Task.{TaskContract}
use galaxz.Jobs.Store.{OutboxRow, empty, get_task, get_result}
use galaxz.Jobs.Outbox.{publish_row, acknowledge_completion}
use galaxz.Goals.Substitution.Reference.{drop_prefix, split_dots}
use galaxz.Completion.Artifacts.{
  identity_key, read_artifact, attempt_key, has_attempt_key, prior_attempt, latest, get_version,
  noted_row, note_attempt, insert_version, record_artifact, record_all, record_artifacts,
}
use galaxz.Completion.Reviews.{Review, has_task, get_by_task_id, enqueue_review}
use galaxz.Completion.Publisher.{Stores, review_of, same_evidence, ask_review, source_of, publish}
use galaxz.Completion.Publisher.Acknowledged.{IsDurable, publish-acknowledges}
use galaxz.Completion.Publisher.Replay.{publish-repeats}

-- opening this publishes a completion
publishing_program : Unit {0}
unfolding uuid_text find find_by select modify exists get truthy is_text dumps json_eq get_task
    get_result publish_row acknowledge_completion drop_prefix split_dots identity_key read_artifact
    attempt_key has_attempt_key prior_attempt latest get_version noted_row note_attempt
    insert_version record_artifact record_all record_artifacts has_task get_by_task_id
    enqueue_review review_of same_evidence ask_review source_of publish
publishing_program = tt

abbrev task : TaskContract
task = record {
  task_id = 21;
  origin = "goal:9";
  skill = "code.write";
  payload = Json.null;
  confidence_threshold = 7;
  workspace_root = some "/w";
}

abbrev file : String → String → Json
file name content =
    Json.obj (
      Fields.field "filename" (Json.str name)
        (Fields.field "content" (Json.str content) Fields.end))

-- an escalated result with two files
abbrev output : Json
output = Json.obj (
    Fields.field "status" (Json.str "escalated") (
      Fields.field "artifacts"
        (Json.arr (Items.cons (file "a.py" "x") (Items.cons (file "b.py" "y") Items.nil)))
        Fields.end))

abbrev event : OutboxRow
event = record { job_id = 102; attempt_id = 201; created_at = 5; published_at = none }

abbrev stores : Stores
stores = record {
  jobs = record empty {
    tasks = record { job_id = 102; task = task } ∷ [];
    outputs = record { job_id = 102; result = output; created_at = 5 } ∷ [];
    outbox = event ∷ [];
  };
  artifacts = record { versions = []; attempts = [] };
  reviews = [];
}

abbrev hash_text : String → String
hash_text s = s

abbrev whole : ℕ → Json
whole n = Json.num (pos n)

publishes : (publish hash_text whole event 30 stores).1 ≡ ok tt
unfolding publishing_program
publishes = refl

acknowledges :
    map (λ (e : OutboxRow). e.published_at) (publish hash_text whole event 30 stores).0.jobs.outbox
    ≡ some 30 ∷ []
unfolding publishing_program
acknowledges = refl

asks_once :
    map (λ (r : Review). r.goal_id) (publish hash_text whole event 30 stores).0.reviews
    ≡ some "9" ∷ []
unfolding publishing_program
asks_once = refl

publish-acknowledges_example :
    ((publish hash_text whole event 30 stores).1 ≡ ok tt
      → IsDurable hash_text whole event 30 stores (publish hash_text whole event 30 stores).0)
    × ((x : Error)
        → (publish hash_text whole event 30 stores).1 ≡ err x
        → (publish hash_text whole event 30 stores).0.jobs ≡ stores.jobs)
publish-acknowledges_example = publish-acknowledges hash_text whole event 30 stores

-- the review of another attempt stands under the identifier
abbrev taken : Stores
taken = record stores {
  reviews =
      record (review_of hash_text whole task output Items.nil event 30) {
        attempt_id = some "other";
      }
      ∷ [];
}

refuses : (publish hash_text whole event 30 taken).1 ≡ err runtime_error
unfolding publishing_program
refuses = refl

stays_pending :
    map (λ (e : OutboxRow). e.published_at) (publish hash_text whole event 30 taken).0.jobs.outbox
    ≡ none ∷ []
unfolding publishing_program
stays_pending = refl

-- the origin "goal:" names no goal
abbrev nameless : Review
nameless = review_of hash_text whole (record task { origin = "goal:" }) output Items.nil event 30

nameless_ids :
    (nameless.task_id ≡ uuid_text 21)
    × (nameless.goal_id ≡ some "")
    × (nameless.planned_task_id ≡ none)
unfolding publishing_program
nameless_ids = (refl, refl, refl)

publish-repeats_example :
    publish hash_text whole event 40 (publish hash_text whole event 30 stores).0
    ≡ ((publish hash_text whole event 30 stores).0, ok tt)
publish-repeats_example = publish-repeats hash_text whole event 30 40 stores publishes
