-- ===== src/Policy/Grants.antt =====
-- The single-use approvals of core/policy/grants.py. The table `policy_grants` is a list of rows; the new
-- identifier and the clock are arguments.
pub mod Uses
pub mod Balance
use galaxz.Prelude.{
  ℕ, ◌+◌, String, Bool, true, false, not, ◌&&◌, Option, none, some, List, [], ◌∷◌, ◌++◌, ltb, leb,
  is_none, Result, ok, err, guard, integrity_error, ◌>>=◌, ◌>>◌, if◌then◌else◌,
}
use galaxz.Prelude.Text.{str_eq}
use galaxz.Prelude.Table.{find, modify, select}

-- what a grant is for
pub record Scope : Type 0 where
  pub origin : String
  pub skill : String
  pub digest : String

pub record Grant : Type 0 where
  pub grant_id : ℕ
  pub scope : Scope  -- three columns
  pub granted_by : Option String
  pub created_at : ℕ
  pub expires_at : ℕ
  pub consumed_at : Option ℕ

abbrev pub grant_key : Grant → ℕ
grant_key g = g.grant_id

unfoldable pub same_scope : Scope → Scope → Bool
same_scope a b = str_eq a.origin b.origin && (str_eq a.skill b.skill && str_eq a.digest b.digest)

-- `issue`, which answers with the identifier
unfoldable pub issue : Scope → ℕ → Option String → ℕ → ℕ → List Grant → Result (List Grant)
issue scope ttl granted_by now grant_id rows = do
  guard (is_none (find grant_key grant_id rows)) integrity_error
  ok (
      rows
      ++ record {
        grant_id = grant_id;
        scope = scope;
        granted_by = granted_by;
        created_at = now;
        expires_at = now + ttl;
        consumed_at = none;
      }
        ∷ [])

-- the WHERE of the subquery of `consume`
unfoldable pub usable : Scope → ℕ → Grant → Bool
usable scope now g = same_scope g.scope scope && (is_none g.consumed_at && ltb now g.expires_at)

earlier : Grant → Option Grant → Grant
earlier g none = g
earlier g (some h) = if leb g.created_at h.created_at then g else h

-- `ORDER BY created_at LIMIT 1`
unfoldable pub oldest : List Grant → Option Grant
unfolding earlier
oldest [] = none
oldest (g ∷ gs) = some (earlier g (oldest gs))

unfoldable pub use_grant : ℕ → Grant → Grant
use_grant now g = record g { consumed_at = some now }

use_found : ℕ → Option Grant → List Grant → List Grant × Bool
use_found now none rows = (rows, false)
use_found now (some g) rows = (modify grant_key g.grant_id (use_grant now) rows, true)

-- `consume`: the UPDATE, and whether it changed a row
unfoldable pub consume : Scope → ℕ → List Grant → List Grant × Bool
unfolding use_found
consume scope now rows = use_found now (oldest (select (usable scope now) rows)) rows
