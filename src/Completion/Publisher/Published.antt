-- ===== src/Completion/Publisher/Published.antt =====
-- On `_publish` of core/jobs/completion.py: what a publication leaves.
use galaxz.Prelude.{
  ℕ, ◌≡◌, refl, sym, ap, ◌∙◌, String, true, false, some, List, Result, ok, err, inl, inr,
  Bool-cases, Option-cases, Result-cases, arith,
}
use galaxz.Contracts.Json.{Json, Items, get, is_text}
use galaxz.Contracts.Task.{TaskContract}
use galaxz.Jobs.Store.{OutboxRow, get_task, get_result}
use galaxz.Jobs.Outbox.{acknowledge_completion}
use galaxz.Completion.Artifacts.{ArtifactDb, Recorded, record_artifacts}
use galaxz.Completion.Reviews.{Review, enqueue_review, get_by_task_id}
use galaxz.Completion.Publisher.{
  Stores, listed, references, review_of, same_evidence, confirmed, ask_review, acknowledged,
  publish_refs, publish_recorded, source_of, publish_items, publish_found, publish,
}

-- What there is of a completion that has been published.
pub record IsPublished (hash : String → String) (integer : ℕ → Json) (e : OutboxRow) (now : ℕ)
    (w w' : Stores) : Type 0 where
  pub task : TaskContract
  pub result : Json
  pub items : List Json
  pub answer : List Recorded
  pub refs : Items
  pub found_task : get_task e.job_id w.jobs ≡ some task
  pub found_result : get_result e.job_id w.jobs ≡ some result
  pub found_items : listed (get "artifacts" result) ≡ ok items
  pub recorded :
      record_artifacts hash (source_of hash integer task e) now items w.artifacts
      ≡ (w'.artifacts, ok answer)
  pub referred : references hash integer answer w'.artifacts ≡ ok refs
  pub jobs : w'.jobs ≡ acknowledge_completion e.job_id now w.jobs
  pub reviewed :
      (is_text "escalated" (get "status" result) ≡ true)
      → (w'.reviews ≡ enqueue_review (review_of hash integer task result refs e now) w.reviews)
        × (q : Review) × (get_by_task_id
              (review_of hash integer task result refs e now).task_id
              w'.reviews
            ≡ some q)
        × (same_evidence hash integer (review_of hash integer task result refs e now) q ≡ true)
  pub unreviewed : is_text "escalated" (get "status" result) ≡ false → w'.reviews ≡ w.reviews

module _ (hash : String → String) (integer : ℕ → Json) (e : OutboxRow) (now : ℕ) where
  -- a review that `_publish` accepted
  abbrev Asked : Review → (before after : List Review) → Type 0
  Asked r before after =
      (after ≡ enqueue_review r before)
      × (q : Review) × (get_by_task_id r.task_id after ≡ some q)
      × (same_evidence hash integer r q ≡ true)

  asked :
      (r : Review) (w : Stores)
      → (ask_review hash integer r w).1 ≡ ok tt
      → Asked r w.reviews (ask_review hash integer r w).0.reviews
  unfolding ask_review confirmed
  asked r w done = elim (Option-cases (get_by_task_id r.task_id (enqueue_review r w.reviews))) [
    | inl absent ↦ absurd (let f = rw (absent, ask_review) at done in cc f)
    | inr (q, there) ↦ elim (Bool-cases (same_evidence hash integer r q)) [
      | inr other ↦ absurd (let f = rw (there, other, ask_review) at done in cc f)
      | inl same ↦ (refl, q, there, same)
    ]
  ]

  record Done (t : TaskContract) (result : Json) (refs : Items) (w w' : Stores) : Type 0 where
    artifacts : w'.artifacts ≡ w.artifacts
    jobs : w'.jobs ≡ acknowledge_completion e.job_id now w.jobs
    reviewed :
        is_text "escalated" (get "status" result) ≡ true
        → Asked (review_of hash integer t result refs e now) w.reviews w'.reviews
    unreviewed : is_text "escalated" (get "status" result) ≡ false → w'.reviews ≡ w.reviews

  acknowledged-ok :
      (p : Stores × Result (Unit {0}))
      → (acknowledged hash integer e now p).1 ≡ ok tt
      → (p.1 ≡ ok tt)
        × ((acknowledged hash integer e now p).0
            ≡ record p.0 { jobs = acknowledge_completion e.job_id now p.0.jobs })
  unfolding acknowledged
  acknowledged-ok (w, ok u) done = (refl, refl)
  acknowledged-ok (w, err x) done = absurd (ground arith)

  asked_jobs :
      (r : Review) (w : Stores)
      → ((ask_review hash integer r w).0.jobs ≡ w.jobs)
        × ((ask_review hash integer r w).0.artifacts ≡ w.artifacts)
  unfolding ask_review
  asked_jobs r w = (refl, refl)

  refs-Done :
      (t : TaskContract) (result : Json) (refs : Items) (w : Stores)
      → (publish_refs hash integer t result e now (ok refs) w).1 ≡ ok tt
      → Done t result refs w (publish_refs hash integer t result e now (ok refs) w).0
  unfolding publish_refs
  refs-Done t result refs w done = elim (Bool-cases (is_text "escalated" (get "status" result))) [
    | inr plain ↦
        let f = rw (plain, publish_refs) at done in
        let (fine, same) = acknowledged-ok (w, ok tt) f in
        rw (plain, publish_refs, same)
          (record {
            artifacts = refl;
            jobs = refl;
            reviewed = λ hit. cc (plain, hit);
            unreviewed = λ miss. refl;
          })
    | inl hit ↦
        let r = review_of hash integer t result refs e now in
        let f = rw (hit, publish_refs) at done in
        let (fine, same) = acknowledged-ok (ask_review hash integer r w) f in
        let (jobs, artifacts) = asked_jobs r w in
        rw (hit, publish_refs, same)
          (record {
            artifacts = artifacts;
            jobs = ap (acknowledge_completion e.job_id now) jobs;
            reviewed = λ again. asked r w fine;
            unreviewed = λ miss. cc (hit, miss);
          })
  ]

  -- the rest of `_publish` after the artifacts
  recorded-Done :
      (t : TaskContract) (result : Json) (db : ArtifactDb) (rs : List Recorded) (w : Stores)
      → (publish_recorded hash integer t result e now (db, ok rs) w).1 ≡ ok tt
      → (refs : Items) × (references hash integer rs db ≡ ok refs)
        × Done t result refs
            (record w { artifacts = db })
            (publish_recorded hash integer t result e now (db, ok rs) w).0
  unfolding publish_recorded publish_refs
  recorded-Done t result db rs w done = elim (Result-cases (references hash integer rs db)) [
    | inr (x, bad) ↦ absurd (let f = rw (bad, publish_recorded) at done in cc f)
    | inl (refs, fine) ↦
        let f = rw (fine, publish_recorded) at done in
        (
          refs,
          fine,
          rw (fine, publish_recorded) (refs-Done t result refs (record w { artifacts = db }) f),
        )
  ]

  IsPublished-found :
      (t : TaskContract) (result : Json) (w : Stores)
      → get_task e.job_id w.jobs ≡ some t
      → get_result e.job_id w.jobs ≡ some result
      → (publish_found hash integer e now (some t) (some result) w).1 ≡ ok tt
      → IsPublished hash integer e now w
          (publish_found hash integer e now (some t) (some result) w).0
  unfolding publish_found publish_items publish_recorded
  IsPublished-found t result w there_t there_r done =
      elim (Result-cases (listed (get "artifacts" result))) [
        | inr (x, bad) ↦ absurd (let f = rw (bad, publish_found) at done in cc f)
        | inl (vs, items) ↦
            let made = record_artifacts hash (source_of hash integer t e) now vs w.artifacts in
            elim (Result-cases made.1) [
              | inr (x, bad) ↦ absurd (let f = rw (items, publish_found, bad) at done in cc f)
              | inl (rs, fine) ↦
                  let f = rw (items, publish_found, fine) at done in
                  let (refs, referred, d) = recorded-Done t result made.0 rs w f in
                  rw (items, publish_found, fine)
                    (record {
                      task = t;
                      result = result;
                      items = vs;
                      answer = rs;
                      refs = refs;
                      found_task = there_t;
                      found_result = there_r;
                      found_items = items;
                      recorded =
                          ap (λ z. (made.0, z)) fine ∙ ap (λ z. (z, ok rs)) (sym d.artifacts);
                      referred = rw d.artifacts referred;
                      jobs = d.jobs;
                      reviewed = d.reviewed;
                      unreviewed = d.unreviewed;
                    })
            ]
      ]

  -- the steps of a publication that returns
  pub publish-IsPublished :
      (w : Stores)
      → (publish hash integer e now w).1 ≡ ok tt
      → IsPublished hash integer e now w (publish hash integer e now w).0
  unfolding publish publish_found
  publish-IsPublished w done = elim (Option-cases (get_task e.job_id w.jobs)) [
    | inl absent ↦ absurd (let f = rw (absent, publish) at done in cc f)
    | inr (t, there_t) ↦ elim (Option-cases (get_result e.job_id w.jobs)) [
      | inl absent ↦ absurd (let f = rw (there_t, absent, publish) at done in cc f)
      | inr (result, there_r) ↦
          let f = rw (there_t, there_r, publish) at done in
          rw (there_t, there_r, publish) (IsPublished-found t result w there_t there_r f)
    ]
  ]
