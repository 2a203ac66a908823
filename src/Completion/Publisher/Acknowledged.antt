-- ===== src/Completion/Publisher/Acknowledged.antt =====
-- On `_publish` of core/jobs/completion.py: what is in the stores when a completion is acknowledged.
use galaxz.Prelude.{
  ℕ, ◌≡◌, ◌≢◌, refl, sym, ap, ◌∙◌, inl, inr, String, true, none, some, List, [], ◌∷◌, is_some,
  Result, ok, err, Error, Bool-cases, Option-cases, Result-cases, arith,
}
use galaxz.Prelude.Table.{All, find, modify, find-modify_cases, find-modify_ne}
use galaxz.Prelude.Text.{str_eq}
use galaxz.Prelude.Text.Uuid.{uuid_text}
use galaxz.Contracts.Json.{Json, Items, get, is_text, dumps, json_eq, str_eq-same}
use galaxz.Contracts.Task.{TaskContract}
use galaxz.Jobs.Store.{OutboxRow, Db, get_task, get_result}
use galaxz.Jobs.Outbox.{publish_row, acknowledge_completion}
use galaxz.Completion.Artifacts.{ArtifactDb, Recorded, Version, get_version, record_artifacts}
use galaxz.Completion.Reviews.{Review, get_by_task_id}
use galaxz.Completion.Publisher.{
  Option, Stores, listed, references, review_task, evidence, review_of, same_evidence, ask_review,
  acknowledged, publish_refs, publish_recorded, source_of, publish_items, publish_found, publish,
}
use galaxz.Completion.Publisher.Published.{IsPublished, publish-IsPublished}

abbrev outbox_key : OutboxRow → ℕ
outbox_key o = o.job_id

-- the content of what was recorded
abbrev pub HasContent : ArtifactDb → Recorded → Type 0
HasContent db r = (v : Version) × (get_version r.identity_key r.version db ≡ some v)

-- What the stores hold of a completion that is acknowledged.
pub record IsDurable (hash : String → String) (integer : ℕ → Json) (e : OutboxRow) (now : ℕ)
    (w w' : Stores) : Type 0 where
  pub task : TaskContract
  pub result : Json
  pub found_task : get_task e.job_id w'.jobs ≡ some task
  pub found_result : get_result e.job_id w'.jobs ≡ some result
  -- the content of everything that was recorded for the result, and the references to it
  pub items : List Json
  pub found_items : listed (get "artifacts" result) ≡ ok items
  pub versions : List Recorded
  pub recorded :
      (record_artifacts hash (source_of hash integer task e) now items w.artifacts).1 ≡ ok versions
  pub contents : All (HasContent w'.artifacts) versions
  pub refs : Items
  pub referred : references hash integer versions w'.artifacts ≡ ok refs
  -- the review of an escalated result
  pub reviewed :
      is_text "escalated" (get "status" result) ≡ true
      → (q : Review) × (get_by_task_id (review_task hash integer task e) w'.reviews ≡ some q)
        × (q.attempt_id ≡ some (uuid_text e.attempt_id))
        × (json_eq (dumps q.agent_output) (dumps (evidence hash integer result refs)) ≡ true)
  -- the outbox
  pub marked :
      (o : OutboxRow)
      → find outbox_key e.job_id w'.jobs.outbox ≡ some o
      → is_some o.published_at ≡ true
  pub others :
      (k : ℕ) → e.job_id ≢ k → find outbox_key k w'.jobs.outbox ≡ find outbox_key k w.jobs.outbox

publish_row-keeps : (now : ℕ) (o : OutboxRow) → (publish_row now o).job_id ≡ o.job_id
unfolding publish_row
publish_row-keeps now o = ground arith

publish_row-marks : (now : ℕ) (o : OutboxRow) → is_some (publish_row now o).published_at ≡ true
unfolding publish_row
publish_row-marks now o = ground arith

module _ (hash : String → String) (integer : ℕ → Json) (e : OutboxRow) (now : ℕ) where
  references-HasContent :
      (rs : List Recorded) (db : ArtifactDb) (refs : Items)
      → references hash integer rs db ≡ ok refs
      → All (HasContent db) rs
  unfolding references
  references-HasContent [] db refs h = tt
  references-HasContent (r ∷ rs) db refs h =
      elim (Option-cases (get_version r.identity_key r.version db)) [
        | inl absent ↦ absurd (ground arith)
        | inr there ↦ elim (Result-cases (references hash integer rs db)) [
          | inl (more, fine) ↦ (there, references-HasContent rs db more fine)
          | inr (x, bad) ↦ absurd (ground arith)
        ]
      ]

  same_evidence-holds :
      (t : TaskContract) (result : Json) (refs : Items) (q : Review)
      → same_evidence hash integer (review_of hash integer t result refs e now) q ≡ true
      → (q.attempt_id ≡ some (uuid_text e.attempt_id))
        × (json_eq (dumps q.agent_output) (dumps (evidence hash integer result refs)) ≡ true)
  unfolding same_evidence review_of
  same_evidence-holds t result refs q h = attempt q.attempt_id refl
    where
      attempt :
          (a : Option String)
          → q.attempt_id ≡ a
          → (q.attempt_id ≡ some (uuid_text e.attempt_id))
            × (json_eq (dumps q.agent_output) (dumps (evidence hash integer result refs)) ≡ true)
      attempt none none_there = absurd (ground arith)
      attempt (some a) there =
          let same : str_eq a (uuid_text e.attempt_id) ≡ true = ground arith in
          (there ∙ ap some (str_eq-same a (uuid_text e.attempt_id) same), ground arith)

  acknowledge-marks :
      (rows : List OutboxRow) (o : OutboxRow)
      → find outbox_key e.job_id (modify outbox_key e.job_id (publish_row now) rows) ≡ some o
      → is_some o.published_at ≡ true
  acknowledge-marks rows o there =
      elim (find-modify_cases outbox_key (publish_row now) (publish_row-keeps now) e.job_id e.job_id
        rows o there) [
          | inl (same, r, old, made) ↦
              ap (λ (z : OutboxRow). is_some z.published_at) made ∙ publish_row-marks now r
          | inr (other, old) ↦ absurd (other refl)
        ]

  IsPublished-IsDurable :
      (w w' : Stores) → IsPublished hash integer e now w w' → IsDurable hash integer e now w w'
  unfolding acknowledge_completion review_of get_task get_result
  IsPublished-IsDurable w w' p = record {
    task = p.task;
    result = p.result;
    found_task = ap (get_task e.job_id) p.jobs ∙ p.found_task;
    found_result = ap (get_result e.job_id) p.jobs ∙ p.found_result;
    items = p.items;
    found_items = p.found_items;
    versions = p.answer;
    recorded = ap (λ z. z.1) p.recorded;
    contents = references-HasContent p.answer w'.artifacts p.refs p.referred;
    refs = p.refs;
    referred = p.referred;
    reviewed = λ hit.
        let (stored, q, there, same) = p.reviewed hit in
        let (attempt, shown) = same_evidence-holds p.task p.result p.refs q same in
        (q, there, attempt, shown);
    marked = λ o there.
        acknowledge-marks w.jobs.outbox o
          (ap (λ (z : Db). find outbox_key e.job_id z.outbox) (sym p.jobs) ∙ there);
    others = λ k other.
        ap (λ (z : Db). find outbox_key k z.outbox) p.jobs
        ∙ find-modify_ne outbox_key (publish_row now) (publish_row-keeps now) e.job_id k
            w.jobs.outbox other;
  }

  -- an answer that is an exception has left the jobs alone
  IsUnmarked : Stores → Stores × Result (Unit {0}) → Type 0
  IsUnmarked w p = (x : Error) → p.1 ≡ err x → p.0.jobs ≡ w.jobs

  acknowledged-IsUnmarked :
      (w : Stores) (p : Stores × Result (Unit {0}))
      → p.0.jobs ≡ w.jobs
      → IsUnmarked w (acknowledged hash integer e now p)
  unfolding acknowledged IsUnmarked
  acknowledged-IsUnmarked w (v, err y) same x h = same
  acknowledged-IsUnmarked w (v, ok u) same x h = absurd (ground arith)

  refs-IsUnmarked :
      (t : TaskContract) (result : Json) (refs : Result Items) (w v : Stores)
      → v.jobs ≡ w.jobs
      → IsUnmarked w (publish_refs hash integer t result e now refs v)
  unfolding publish_refs ask_review IsUnmarked
  refs-IsUnmarked t result (err y) w v same = λ x h. same
  refs-IsUnmarked t result (ok refs) w v same =
      elim (Bool-cases (is_text "escalated" (get "status" result))) [
        | inl hit ↦
            rw (hit, publish_refs)
              (acknowledged-IsUnmarked w
                (ask_review hash integer (review_of hash integer t result refs e now) v) same)
        | inr plain ↦ rw (plain, publish_refs) (acknowledged-IsUnmarked w (v, ok tt) same)
      ]

  recorded-IsUnmarked :
      (t : TaskContract) (result : Json) (p : ArtifactDb × Result (List Recorded)) (w : Stores)
      → IsUnmarked w (publish_recorded hash integer t result e now p w)
  unfolding publish_recorded IsUnmarked
  recorded-IsUnmarked t result (db, err y) w = λ x h. refl
  recorded-IsUnmarked t result (db, ok rs) w =
      refs-IsUnmarked t result (references hash integer rs db) w (record w { artifacts = db }) refl

  items-IsUnmarked :
      (t : TaskContract) (result : Json) (vs : Result (List Json)) (w : Stores)
      → IsUnmarked w (publish_items hash integer t result e now vs w)
  unfolding publish_items IsUnmarked
  items-IsUnmarked t result (err y) w = λ x h. refl
  items-IsUnmarked t result (ok vs) w =
      recorded-IsUnmarked t result
        (record_artifacts hash (source_of hash integer t e) now vs w.artifacts) w

  found-IsUnmarked :
      (t : Option TaskContract) (result : Option Json) (w : Stores)
      → IsUnmarked w (publish_found hash integer e now t result w)
  unfolding publish_found IsUnmarked
  found-IsUnmarked (some t) (some result) w =
      items-IsUnmarked t result (listed (get "artifacts" result)) w
  found-IsUnmarked none result w = λ x h. refl
  found-IsUnmarked (some t) none w = λ x h. refl

  -- A completion is acknowledged exactly when `_publish` returns. Then the stores hold its task and
  -- result, the content of every version that was recorded for the result, and, if the result was
  -- escalated, a review of this attempt with references to these versions as its evidence; its row of
  -- the outbox is marked and no other job's is changed. If `_publish` raises, at whichever step, the
  -- tables of the jobs are as they were, so the completion stays pending.
  pub publish-acknowledges :
      (w : Stores)
      → ((publish hash integer e now w).1 ≡ ok tt
          → IsDurable hash integer e now w (publish hash integer e now w).0)
        × ((x : Error)
            → (publish hash integer e now w).1 ≡ err x
            → (publish hash integer e now w).0.jobs ≡ w.jobs)
  unfolding publish IsUnmarked
  publish-acknowledges w = (
    λ done.
        IsPublished-IsDurable w (publish hash integer e now w).0
          (publish-IsPublished hash integer e now w done),
    found-IsUnmarked (get_task e.job_id w.jobs) (get_result e.job_id w.jobs) w,
  )
