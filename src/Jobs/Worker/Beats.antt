-- ===== src/Jobs/Worker/Beats.antt =====
-- On the heartbeat loop of core/jobs/worker.py and the lease.
use galaxz.Prelude.{
  ℕ, ◌+◌, ◌<◌, ◌≡◌, refl, inl, inr, true, false, none, some, ok, err, Error, Bool-cases,
  Result-cases, arith, ◌==◌,
}
use galaxz.Prelude.Table.{find-modify_hit}
use galaxz.Contracts.Job.{ExecutionAttempt, is_cancelled, validate_attempt}
use galaxz.Jobs.Store.{Db, JobRow, get_job, transaction, settle, update_job, update_attempt}
use galaxz.Jobs.Heartbeat.{heartbeat, heartbeat_body, extend_lease, touch_row}
use galaxz.Jobs.Lease.{live_attempt}
use galaxz.Jobs.Lease.Live.{IsLive, live_attempt_cases, live_attempt-IsLive}
use galaxz.Jobs.Invariant.Consistent.{job_key, attempt_key}
use galaxz.Jobs.Worker.{Held, Beat, is_late, after_beat, beat}

-- the lease is live, through some row and attempt
abbrev pub HasLease : Db → ℕ → ℕ → ℕ → Type 0
HasLease db job_id lease_token now =
    (r : JobRow) × (a : ExecutionAttempt) × IsLive db job_id lease_token now r a

module _ (id token lease now : ℕ) (db : Db) where
  extended :
      (r : JobRow) (a : ExecutionAttempt) (later : ℕ)
      → IsLive db id token now r a
      → later < now + lease
      → HasLease
          (update_job id
            (touch_row now)
            (update_attempt a.attempt_id (extend_lease (now + lease)) db))
          id
          token
          later
  unfolding touch_row extend_lease
  extended r a later l early = (
    touch_row now r,
    extend_lease (now + lease) a,
    record {
      found = find-modify_hit job_key (touch_row now) (λ q. refl) id db.jobs r l.found;
      running = l.running;
      active = l.active;
      attempt =
          find-modify_hit attempt_key (extend_lease (now + lease)) (λ t. refl) a.attempt_id
            db.attempts a l.attempt;
      token = l.token;
      unended = l.unended;
      in_time = early;
    },
  )

  body_live :
      (a : ExecutionAttempt)
      → live_attempt id token now db ≡ ok a
      → heartbeat_body id token lease now db
        ≡ ok (
          extend_lease (now + lease) a,
          update_job id
              (touch_row now)
              (update_attempt a.attempt_id (extend_lease (now + lease)) db),
        )
  unfolding heartbeat_body
  body_live a live = rw live refl

  body_dead :
      (e : Error)
      → live_attempt id token now db ≡ err e
      → heartbeat_body id token lease now db ≡ err e
  unfolding heartbeat_body
  body_dead e dead = rw dead refl

  -- a heartbeat that returns has made the lease live until its new end
  heartbeat-HasLease :
      (a : ExecutionAttempt)
      → (heartbeat id token lease now db).1 ≡ ok a
      → (later : ℕ) → later < now + lease
      → HasLease (heartbeat id token lease now db).0 id token later
  unfolding heartbeat transaction settle
  heartbeat-HasLease a e later early = elim (Bool-cases (lease == 0)) [
    | inl empty ↦ absurd (ground arith)
    | inr some_time ↦ elim (live_attempt_cases db id token now) [
      | inr dead ↦ absurd (ground (arith, body_dead _ dead))
      | inl (b, live) ↦
          let (r, l) = live_attempt-IsLive db id token now b live in
          rw (some_time, body_live b live) (extended r b later l early)
    ]
  ]

  no_value_error :
      (a : ExecutionAttempt) (e : Error) → validate_attempt a ≡ err e → is_late e ≡ false
  unfolding validate_attempt is_late
  no_value_error a e h = ground arith

  -- one that meets a conflict has changed nothing
  heartbeat-late :
      (e : Error)
      → (heartbeat id token lease now db).1 ≡ err e
      → is_late e ≡ true
      → (heartbeat id token lease now db).0 ≡ db
  unfolding heartbeat transaction settle
  heartbeat-late e h late = elim (Bool-cases (lease == 0)) [
    | inl empty ↦ rw empty refl
    | inr some_time ↦ elim (live_attempt_cases db id token now) [
      | inr dead ↦ rw (some_time, body_dead _ dead) refl
      | inl (b, live) ↦
          absurd (ground (arith, body_live b live, no_value_error (extend_lease (now + lease) b) e))
    ]
  ]

module _ (h : Held) (lease now : ℕ) (db : Db) where
  -- A beat that goes on has extended the lease: until `lease` from now the worker holds the job in the
  -- tables that the beat leaves. A beat that cancels the execution has changed no table.
  pub beat-HasLease :
      ((beat h lease now db).1 ≡ Beat.continues
        → (later : ℕ) → later < now + lease
        → HasLease (beat h lease now db).0 h.job_id h.lease_token later)
      × ((beat h lease now db).1 ≡ Beat.stops → (beat h lease now db).0 ≡ db)
  unfolding beat after_beat
  beat-HasLease = elim (Result-cases (get_job h.job_id db)) [
    | inr (e, failed) ↦ rw (failed, beat) (λ go later early. absurd (cc go), λ stop. refl)
    | inl (none, missing) ↦ rw (missing, beat) (λ go later early. absurd (cc go), λ stop. refl)
    | inl (some j, found) ↦ elim (Bool-cases (is_cancelled j.status)) [
      | inl gone ↦ rw (found, gone, beat) (λ go later early. absurd (cc go), λ stop. refl)
      | inr here ↦ elim (Result-cases (heartbeat h.job_id h.lease_token lease now db).1) [
        | inl (a, done) ↦
            rw (found, here, done, beat)
              (
                λ go. heartbeat-HasLease h.job_id h.lease_token lease now db a done,
                λ stop. absurd (cc stop),
              )
        | inr (e, failed) ↦ elim (Bool-cases (is_late e)) [
          | inl late ↦
              rw (found, here, failed, late, beat)
                (
                  λ go later early. absurd (cc go),
                  λ stop. heartbeat-late h.job_id h.lease_token lease now db e failed late,
                )
          | inr other ↦
              rw (found, here, failed, other, beat)
                (λ go later early. absurd (cc go), λ stop. absurd (cc stop))
        ]
      ]
    ]
  ]
