-- ===== src/Agents/TaskLog.antt =====
-- agents/andromeda/task_log.py: the log of tasks, a table with a row for each task and status. A payload
-- and a result are JSON values. `throughput`, which groups by the hours of texts, is left out.
pub mod Latest
use galaxz.Prelude.{
  ℕ, String, Bool, true, false, ◌&&◌, Option, none, some, List, [], ◌∷◌, ltb, take, length,
  if◌then◌else◌,
}
use galaxz.Prelude.Int.{ℤ}
use galaxz.Prelude.Text.{str_eq}
use galaxz.Prelude.Table.Count.{count}
use galaxz.Contracts.Json.{Json, obj, end}

pub record LogRow : Type 0 where
  pub task_id : String
  pub task_type : String
  pub assigned_agent : Option String
  pub status : String
  pub confidence : Option ℤ
  pub retry_count : ℕ
  pub escalated_to_human : Bool
  pub failure_reason : Option String
  pub issued_at : Option ℕ
  pub completed_at : Option ℕ
  pub payload : Json
  pub result : Json

-- PRIMARY KEY (task_id, status)
unfoldable pub same_entry : LogRow → LogRow → Bool
same_entry r q = str_eq q.task_id r.task_id && str_eq q.status r.status

-- INSERT … ON CONFLICT DO UPDATE, which keeps the place of a row
unfoldable pub write : LogRow → List LogRow → List LogRow
unfolding same_entry
write r [] = r ∷ []
write r (q ∷ rows) = let rest = write r rows in if same_entry r q then r ∷ rows else q ∷ rest

abbrev or_last : Bool → LogRow → Option LogRow → Option LogRow
or_last b r (some q) = some q
or_last b r none = if b then some r else none

-- `ORDER BY rowid DESC LIMIT 1`
unfoldable pub get_entry : String → List LogRow → Option LogRow
get_entry id [] = none
get_entry id (r ∷ rows) = or_last (str_eq r.task_id id) r (get_entry id rows)

unfoldable pub update_status : String → String → String → ℕ → List LogRow → List LogRow
update_status id task_type new_status now rows =
    write
      (record {
        task_id = id;
        task_type = task_type;
        assigned_agent = none;
        status = new_status;
        confidence = none;
        retry_count = 0;
        escalated_to_human = false;
        failure_reason = none;
        issued_at = none;
        completed_at = some now;
        payload = obj end;
        result = obj end;
      })
      rows

-- no time of issue comes last
issued_later : Option ℕ → Option ℕ → Bool
issued_later none e = false
issued_later (some d) none = true
issued_later (some d) (some e) = ltb e d

insert_recent : LogRow → List LogRow → List LogRow
unfolding issued_later
insert_recent r [] = r ∷ []
insert_recent r (q ∷ rows) =
    let rest = insert_recent r rows in
    if issued_later q.issued_at r.issued_at then q ∷ rest else r ∷ q ∷ rows

by_issue : List LogRow → List LogRow
unfolding insert_recent
by_issue [] = []
by_issue (r ∷ rows) = insert_recent r (by_issue rows)

-- `ORDER BY issued_at DESC LIMIT ?`
unfoldable pub recent : ℕ → List LogRow → List LogRow
unfolding by_issue
recent limit rows = take limit (by_issue rows)

pub record LogStats : Type 0 where
  pub total : ℕ
  pub complete : ℕ
  pub failed : ℕ
  pub escalated : ℕ

with_status : String → List LogRow → ℕ
with_status s rows = count (λ (r : LogRow). str_eq r.status s) rows

unfoldable pub stats : List LogRow → LogStats
unfolding with_status
stats rows = record {
  total = length rows;
  complete = with_status "complete" rows;
  failed = with_status "failed" rows;
  escalated = with_status "escalated" rows;
}
