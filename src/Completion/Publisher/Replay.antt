-- ===== src/Completion/Publisher/Replay.antt =====
-- On `_publish` of core/jobs/completion.py, called again.
use mathlib.Core.Path.{subst}
use galaxz.Prelude.{
  ℕ, ◌≡◌, refl, sym, ap, ◌∙◌, String, true, some, List, [], ◌∷◌, map, Result, ok, inl, inr,
  Bool-cases, arith,
}
use galaxz.Contracts.Json.{Json, Items, get, is_text}
use galaxz.Contracts.Task.{TaskContract}
use galaxz.Jobs.Store.{OutboxRow, Db, get_task, get_result}
use galaxz.Jobs.Outbox.{acknowledge_completion, publish_row}
use galaxz.Prelude.Table.{modify}
use galaxz.Completion.Artifacts.{ArtifactDb, Recorded, record_artifacts}
use galaxz.Completion.Artifacts.Repeat.{record-repeats, seen}
use galaxz.Completion.Reviews.{Review, enqueue_review, get_by_task_id}
use galaxz.Completion.Publisher.{
  uuid_text, Stores, references, review_of, same_evidence, confirmed, ask_review, acknowledged,
  publish_refs, publish_recorded, source_of, publish_items, publish_found, publish,
}
use galaxz.Completion.Publisher.Published.{IsPublished, publish-IsPublished}
use galaxz.Prelude.Text.Uuid.{uuid_text-ne}

published_twice :
    (id now now' : ℕ) (rows : List OutboxRow)
    → modify
        (λ (e : OutboxRow). e.job_id)
        id
        (publish_row now')
        (modify (λ (e : OutboxRow). e.job_id) id (publish_row now) rows)
      ≡ modify (λ (e : OutboxRow). e.job_id) id (publish_row now) rows
unfolding modify publish_row
published_twice id now now' [] = refl
published_twice id now now' (r ∷ rows) = ground (arith, published_twice id now now' rows)

module _ (hash : String → String) (integer : ℕ → Json) (e : OutboxRow) (now now' : ℕ) where
  references-seen :
      (rs : List Recorded) (db : ArtifactDb)
      → references hash integer (map seen rs) db ≡ references hash integer rs db
  unfolding references
  references-seen [] db = refl
  references-seen (r ∷ rs) db = rw (references-seen rs db) refl

  acknowledged_twice :
      (jobs : Db)
      → acknowledge_completion e.job_id now' (acknowledge_completion e.job_id now jobs)
        ≡ acknowledge_completion e.job_id now jobs
  unfolding acknowledge_completion
  acknowledged_twice jobs = rw (published_twice e.job_id now now' jobs.outbox) refl

  tables-kept :
      (id : ℕ) (jobs : Db)
      → (get_task id (acknowledge_completion e.job_id now jobs) ≡ get_task id jobs)
        × (get_result id (acknowledge_completion e.job_id now jobs) ≡ get_result id jobs)
  unfolding acknowledge_completion get_task get_result
  tables-kept id jobs = (refl, refl)

  enqueued_already :
      (r q : Review) (rs : List Review)
      → get_by_task_id r.task_id rs ≡ some q
      → enqueue_review r rs ≡ rs
  unfolding enqueue_review get_by_task_id
  enqueued_already r q rs there = rw there refl

  acknowledged_same :
      (p : Stores × Result (Unit {0})) (w : Stores)
      → p ≡ (w, ok tt)
      → acknowledge_completion e.job_id now' w.jobs ≡ w.jobs
      → acknowledged hash integer e now' p ≡ (w, ok tt)
  unfolding acknowledged
  acknowledged_same p w same jobs =
      ap (acknowledged hash integer e now') same ∙ ap (λ z. (record w { jobs = z }, ok tt)) jobs

  asked_again :
      (r r' q : Review) (w : Stores)
      → r'.task_id ≡ r.task_id
      → r'.attempt_id ≡ r.attempt_id
      → r'.agent_output ≡ r.agent_output
      → get_by_task_id r.task_id w.reviews ≡ some q
      → same_evidence hash integer r q ≡ true
      → ask_review hash integer r' w ≡ (w, ok tt)
  unfolding ask_review confirmed same_evidence
  asked_again r r' q w same_task same_attempt same_output there same =
      let found : get_by_task_id r'.task_id w.reviews ≡ some q = rw same_task there in
      rw (enqueued_already r' q w.reviews found, found, ask_review, same_attempt, same_output, same)
        refl

  refs_again :
      (t : TaskContract) (result : Json) (refs : Items) (w : Stores)
      → acknowledge_completion e.job_id now' w.jobs ≡ w.jobs
      → (is_text "escalated" (get "status" result) ≡ true
          → (q : Review) × (get_by_task_id
                (review_of hash integer t result refs e now).task_id
                w.reviews
              ≡ some q)
            × (same_evidence hash integer (review_of hash integer t result refs e now) q ≡ true))
      → publish_refs hash integer t result e now' (ok refs) w ≡ (w, ok tt)
  unfolding publish_refs review_of
  refs_again t result refs w jobs reviewed =
      elim (Bool-cases (is_text "escalated" (get "status" result))) [
        | inr plain ↦ rw (plain, publish_refs) (acknowledged_same (w, ok tt) w refl jobs)
        | inl hit ↦
            let (q, there, same) = reviewed hit in
            rw (hit, publish_refs)
              (acknowledged_same
                (ask_review hash integer (review_of hash integer t result refs e now') w) w
                (asked_again (review_of hash integer t result refs e now)
                  (review_of hash integer t result refs e now') q w refl refl refl there same)
                jobs)
      ]

  recorded_again :
      (w w' : Stores) (p : IsPublished hash integer e now w w')
      → record_artifacts hash (source_of hash integer p.task e) now' p.items w'.artifacts
        ≡ (w'.artifacts, ok (map seen p.answer))
  unfolding source_of
  recorded_again w w' p =
      let s = source_of hash integer p.task e in
      let first = record_artifacts hash s now p.items w.artifacts in
      let repeat =
        record-repeats hash s (uuid_text e.attempt_id) now now' p.items w.artifacts p.answer refl
          (uuid_text-ne e.attempt_id) (ap (λ z. z.1) p.recorded) in
      subst
        (λ (z : ArtifactDb × Result (List Recorded)).
          record_artifacts hash s now' p.items z.0 ≡ (z.0, ok (map seen p.answer)))
        p.recorded repeat

  republished :
      (w w' : Stores)
      → IsPublished hash integer e now w w'
      → publish hash integer e now' w' ≡ (w', ok tt)
  unfolding publish publish_found publish_items publish_recorded
  republished w w' p =
      let jobs : acknowledge_completion e.job_id now' w'.jobs ≡ w'.jobs =
        ap (acknowledge_completion e.job_id now') p.jobs ∙ acknowledged_twice w.jobs ∙ sym p.jobs in
      let there_t : get_task e.job_id w'.jobs ≡ some p.task =
        ap (get_task e.job_id) p.jobs ∙ (tables-kept e.job_id w.jobs).0 ∙ p.found_task in
      let there_r : get_result e.job_id w'.jobs ≡ some p.result =
        ap (get_result e.job_id) p.jobs ∙ (tables-kept e.job_id w.jobs).1 ∙ p.found_result in
      let referred = references-seen p.answer w'.artifacts ∙ p.referred in
      rw (there_t, there_r, publish, p.found_items, publish_found, recorded_again w w' p, referred)
        (refs_again p.task p.result p.refs w' jobs
          (λ hit. let (stored, q, there, same) = p.reviewed hit in (q, there, same)))

  -- On the stores that a publication has left, the same completion is published again without an error,
  -- whatever the clock says, and nothing changes.
  pub publish-repeats :
      (w : Stores)
      → (publish hash integer e now w).1 ≡ ok tt
      → publish hash integer e now' (publish hash integer e now w).0
        ≡ ((publish hash integer e now w).0, ok tt)
  publish-repeats w done =
      republished w (publish hash integer e now w).0 (publish-IsPublished hash integer e now w done)
