-- ===== src/Jobs/Invariant/Advance.antt =====
-- Jobs move along the diagram: after an update every job is still there, with its status or one that a
-- transition leads to, and a job that has ended is as it was.
use mathlib.Core.Path.{subst}
use galaxz.Prelude.{
  sym, ◌∙◌, ℕ, ◌≡◌, ◌≢◌, refl, some, none, List, [], ◌∷◌, ◌++◌, ◌⊎◌, inl, inr, ◌==◌, Bool-cases,
  arith, ap,
}
use galaxz.Prelude.Table.{find, modify, find-modify_hit, find-modify_ne, find-append_old}
use galaxz.Contracts.Job.{JobStatus, ExecutionAttempt, IsTerminal, Moves}
use galaxz.Jobs.Store.{JobRow, Db}
use galaxz.Jobs.Invariant.Consistent.{job_key, attempt_key, Consistent, IsHeldBy, RowOk}
use galaxz.Jobs.Invariant.Release.{Leaves, Ends, release}
use galaxz.Jobs.Invariant.Idle.{change_idle, add_job}
use galaxz.Jobs.Invariant.Start.{Starts, start}
use galaxz.Jobs.Invariant.Extend.{KeepsRow, KeepsAttempt, extend}

abbrev pub Along : JobStatus → JobStatus → Type 0
Along s t = (t ≡ s) ⊎ Moves s t

abbrev pub IsUnfinished : JobRow → Type 0
IsUnfinished r = ¬ IsTerminal r.status

pub running-IsUnfinished : (r : JobRow) → r.status ≡ JobStatus.running → IsUnfinished r
running-IsUnfinished r runs final = subst IsTerminal runs final

-- from a row to what is made of it
abbrev pub Steps : JobRow → JobRow → Type 0
Steps q p = (IsTerminal q.status → p ≡ q) × Along q.status p.status

pub Steps-refl : (q : JobRow) → Steps q q
Steps-refl q = ((λ final. refl), inl refl)

abbrev pub Advances : List JobRow → List JobRow → Type 0
Advances rows rows' =
    (k : ℕ) (q : JobRow)
    → find job_key k rows ≡ some q
    → (p : JobRow) × (find job_key k rows' ≡ some p) × Steps q p

pub record Sound (rows rows' : List JobRow) (tries : List ExecutionAttempt) : Type 0 where
  pub consistent : Consistent rows' tries
  pub advances : Advances rows rows'

abbrev pub IsSound : Db → Db → Type 0
IsSound db d = Sound db.jobs d.jobs d.attempts

pub Advances-refl : (rows : List JobRow) → Advances rows rows
Advances-refl rows k q there = (q, there, Steps-refl q)

pub unchanged :
    {rows : List JobRow} {tries : List ExecutionAttempt}
    → Consistent rows tries
    → Sound rows rows tries
unchanged {rows} h = record { consistent = h; advances = Advances-refl rows }

Advances-modify :
    (rows : List JobRow) (id : ℕ) (r : JobRow) (f : JobRow → JobRow)
    → ((q : JobRow) → (f q).job_id ≡ q.job_id)
    → find job_key id rows ≡ some r
    → IsUnfinished r
    → Along r.status (f r).status
    → Advances rows (modify job_key id f rows)
Advances-modify rows id r f same_id found unfinished along k q there = elim (Bool-cases (id == k)) [
  | inl same ↦
      let key : id ≡ k = ground arith in
      let one : r ≡ q = cc (ap (λ n. find job_key n rows) key) in
      (
        f r,
        ap (λ n. find job_key n (modify job_key id f rows)) (sym key)
            ∙ find-modify_hit job_key f same_id id rows r found,
        subst (λ z. Steps z (f r)) one ((λ final. absurd (unfinished final)), along),
      )
  | inr other ↦
      (q, find-modify_ne job_key f same_id id k rows (λ e. ground arith) ∙ there, Steps-refl q)
]

module _ {rows : List JobRow} {tries : List ExecutionAttempt} (h : Consistent rows tries) where
  module _ (id : ℕ) (r : JobRow) (found : find job_key id rows ≡ some r) (f : JobRow → JobRow) where
    -- a running job gives up its attempt
    pub released :
        (l : Leaves f r)
        → Along r.status (f r).status
        → (a : ℕ) (held : IsHeldBy r a) (g : ExecutionAttempt → ExecutionAttempt) (e : Ends g)
        → Sound rows (modify job_key id f rows) (modify attempt_key a g tries)
    released l along a held g e = record {
      consistent = release h id r found f l a held g e;
      advances =
          Advances-modify rows id r f l.same_id found (running-IsUnfinished r held.running) along;
    }

    -- an idle job changes
    pub changed :
        r.status ≢ JobStatus.running
        → IsUnfinished r
        → (l : Leaves f r) → Along r.status (f r).status
        → Sound rows (modify job_key id f rows) tries
    changed idle unfinished l along = record {
      consistent = change_idle h id r found idle f l;
      advances = Advances-modify rows id r f l.same_id found unfinished along;
    }

    -- an idle job starts
    pub started :
        r.status ≢ JobStatus.running
        → IsUnfinished r
        → (t : ExecutionAttempt) → find attempt_key t.attempt_id tries ≡ none
        → ((k : ℕ) (u : ExecutionAttempt)
            → find attempt_key k tries ≡ some u
            → u.lease_token ≢ t.lease_token)
        → (s : Starts f r t) → Along r.status (f r).status
        → Sound rows (modify job_key id f rows) (tries ++ t ∷ [])
    started idle unfinished t fresh new s along = record {
      consistent = start h id r found idle f t fresh new s;
      advances = Advances-modify rows id r f s.same_id found unfinished along;
    }

  -- what the invariant reads is left alone
  pub extended :
      (f : JobRow → JobRow) (kr : KeepsRow f) (g : ExecutionAttempt → ExecutionAttempt)
      (ka : KeepsAttempt g) (id a : ℕ)
      → ((q : JobRow) → find job_key id rows ≡ some q → IsUnfinished q)
      → Sound rows (modify job_key id f rows) (modify attempt_key a g tries)
  extended f kr g ka id a unfinished = record {
    consistent = extend f kr g ka id a h;
    advances = λ k q there. elim (Bool-cases (id == k)) [
      | inr other ↦ (
        q,
        find-modify_ne job_key f kr.same_id id k rows (λ e. ground arith) ∙ there,
        Steps-refl q,
      )
      | inl same ↦
          let key : id ≡ k = ground arith in
          let there_id : find job_key id rows ≡ some q = cc in
          (
            f q,
            ap (λ n. find job_key n (modify job_key id f rows)) (sym key)
                ∙ find-modify_hit job_key f kr.same_id id rows q there_id,
            ((λ final. absurd (unfinished q there_id final)), inl (kr.same_status q)),
          )
    ];
  }

  -- a job is added
  pub added :
      (r : JobRow)
      → find job_key r.job_id rows ≡ none
      → r.status ≢ JobStatus.running
      → RowOk r
      → Sound rows (rows ++ r ∷ []) tries
  added r fresh idle good = record {
    consistent = add_job h r fresh idle good;
    advances = λ k q there. (q, find-append_old job_key k rows r q there, Steps-refl q);
  }

pub Along-trans_stay : {s t u : JobStatus} → t ≡ s → Along t u → Along s u
Along-trans_stay {s} {t} {u} e along = subst (λ z. Along z u) e along
