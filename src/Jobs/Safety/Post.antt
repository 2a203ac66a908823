-- ===== src/Jobs/Safety/Post.antt =====
-- On the tables after a successful transaction of core/jobs/repository.py.
use mathlib.Core.Path.{subst}
use galaxz.Prelude.{
  ap, arith, Bool, true, false, guard, ◌>>◌, Error, Option-cases, ℕ, inl, inr, some, ◌≡◌, ◌>>=◌,
  Result, ok, err,
}
use galaxz.Jobs.Store.{Db, JobRow, find_job, with_job, settle, transaction}

abbrev pub Post {ℓ κ} : {A : Type ℓ} → (Db → Type κ) → Result (A × Db) → Type κ
Post P (ok (a, db)) = P db
Post P (err e) = Unit

abbrev pub After {κ} : (Db → Type κ) → Result Db → Type κ
After P (ok db) = P db
After P (err e) = Unit

settle-Post {ℓ κ μ} :
    {A : Type ℓ} {B : Type κ} (P : Db → Type μ) (after : A → Db → Result B) (db : Db)
    (r : Result (A × Db))
    → P db
    → Post P r
    → P (settle after db r).0
unfolding settle
settle-Post P after db (ok (a, db')) h p = p
settle-Post P after db (err e) h p = h

module _ {ℓ κ μ} {A : Type ℓ} {B : Type κ} (P : Db → Type μ) (body : Db → Result (A × Db))
    (after : A → Db → Result B) (db : Db) where
  -- a transaction keeps what its body keeps, and a rollback keeps anything
  pub transaction-Post : P db → Post P (body db) → P (transaction body after db).0
  unfolding transaction
  transaction-Post h post = settle-Post P after db (body db) h post

-- a check that may raise, and then nothing
pub After-guard {κ} :
    (P : Db → Type κ) (b : Bool) (e : Error) (db : Db) → P db → After P (do guard b e; ok db)
After-guard P true e db h = h
After-guard P false e db h = tt

module _ {κ} (P : Db → Type κ) (id : ℕ) (step : JobRow → Result Db) (db : Db) where
  -- the operations on one job keep what their step on its row keeps
  pub with_job-Post :
      ((r : JobRow) → find_job id db ≡ some r → After P (step r)) → Post P (with_job id step db)
  unfolding with_job
  with_job-Post keep = elim (Option-cases (find_job id db)) [
    | inl missing ↦ rw missing tt
    | inr (r, found) ↦ rw found (done (step r) (keep r found))
  ]
    where
      done : (s : Result Db) → After P s → Post P (s >>= λ db'. ok (tt {0}, db'))
      done (ok db') p = p
      done (err e) p = tt

pub After-ok {κ} : (P : Db → Type κ) (r : Result Db) (d : Db) → After P r → r ≡ ok d → P d
After-ok P (ok d') d h e = subst P (ground arith) h
After-ok P (err x) d h e = absurd (ground arith)

pub After-map {κ μ} :
    (P : Db → Type κ) (Q : Db → Type μ) (r : Result Db)
    → ((d : Db) → P d → Q d)
    → After P r
    → After Q r
After-map P Q (ok d) f h = f d h
After-map P Q (err e) f h = tt

pub err_not_ok {ℓ} : {B : Type ℓ} {b : B} {x : Error} → err x ≡ ok b → ⊥
err_not_ok e = cc

settle-ok {ℓ κ} :
    {A : Type ℓ} {B : Type κ} (after : A → Db → Result B) (db d : Db) (r : Result (A × Db)) (b : B)
    → settle after db r ≡ (d, ok b)
    → (a : A) × (r ≡ ok (a, d)) × (after a d ≡ ok b)
unfolding settle
settle-ok {A = A} after db d (ok (a, e)) b h =
    let same : e ≡ d = ap (λ z. z.0) h in
    (
      a,
      ap {B = Result (A × Db)} (λ z. ok (a, z)) same,
      subst (λ z. after a z ≡ ok b) same (ap (λ z. z.1) h),
    )
settle-ok after db d (err x) b h = absurd (err_not_ok (ap (λ z. z.1) h))

-- a call that returns has committed
pub transaction-ok {ℓ κ} :
    {A : Type ℓ} {B : Type κ} (body : Db → Result (A × Db)) (after : A → Db → Result B) (db d : Db)
    (b : B)
    → transaction body after db ≡ (d, ok b)
    → (a : A) × (body db ≡ ok (a, d)) × (after a d ≡ ok b)
unfolding transaction
transaction-ok body after db d b h = settle-ok after db d (body db) b h
