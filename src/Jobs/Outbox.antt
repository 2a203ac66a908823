-- ===== src/Jobs/Outbox.antt =====
-- The completion outbox of core/jobs/repository.py: `pending_completions` and
-- `acknowledge_completion`.
use galaxz.Prelude.{ℕ, some, List, [], ◌∷◌, ltb, take, is_none, if◌then◌else◌}
use galaxz.Prelude.Table.{select, modify}
use galaxz.Jobs.Store.{OutboxRow, Db}

-- `ORDER BY created_at`
insert_oldest : OutboxRow → List OutboxRow → List OutboxRow
insert_oldest e [] = e ∷ []
insert_oldest e (f ∷ fs) =
    let rest = insert_oldest e fs in if ltb f.created_at e.created_at then f ∷ rest else e ∷ f ∷ fs

unfoldable pub by_age : List OutboxRow → List OutboxRow
unfolding insert_oldest
by_age [] = []
by_age (e ∷ es) = insert_oldest e (by_age es)

unfoldable pub pending_completions : ℕ → Db → List OutboxRow
pending_completions limit db =
    take limit (by_age (select (λ (e : OutboxRow). is_none e.published_at) db.outbox))

unfoldable pub publish_row : ℕ → OutboxRow → OutboxRow
publish_row now e = if is_none e.published_at then record e { published_at = some now } else e

unfoldable pub acknowledge_completion : ℕ → ℕ → Db → Db
acknowledge_completion job_id now db = record db {
  outbox = modify (λ (e : OutboxRow). e.job_id) job_id (publish_row now) db.outbox;
}
