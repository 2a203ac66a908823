-- ===== src/Policy/Grants/Balance.antt =====
-- On sequences of calls of the grant store: approvals counted against grants.
use galaxz.Prelude.{
  ℕ, ◌+◌, ◌≡◌, refl, inl, inr, Bool, true, false, not, ◌&&◌, Option, none, some, List, [], ◌∷◌,
  String, is_none, Result, ok, err, Option-cases, arith, if◌then◌else◌, eq_iff,
}
use galaxz.Prelude.Table.{find, modify, select, IsKeyed, IsKeyed-append, IsKeyed-modify}
use galaxz.Prelude.Table.Count.{count, count-append, count-modify}
use galaxz.Policy.Grants.{
  Scope, Grant, grant_key, same_scope, issue, usable, oldest, use_grant, use_found, consume,
}
use galaxz.Policy.Grants.Uses.{same_grant_id, oldest-usable}

pub data GrantCall : Type 0 where
  issues : Scope → ℕ → Option String → ℕ → ℕ → GrantCall
  consumes : Scope → ℕ → GrantCall

issued : List Grant → Result (List Grant) → List Grant × Bool
issued rows (ok after) = (after, true)
issued rows (err e) = (rows, false)

-- the rows after a call, and whether it granted or approved
unfoldable pub run_call : GrantCall → List Grant → List Grant × Bool
unfolding issued
run_call (GrantCall.issues scope ttl by now id) rows = issued rows (issue scope ttl by now id rows)
run_call (GrantCall.consumes scope now) rows = consume scope now rows

abbrev scope_of : GrantCall → Scope
scope_of (GrantCall.issues scope ttl by now id) = scope
scope_of (GrantCall.consumes scope now) = scope

abbrev is_issue : GrantCall → Bool
is_issue (GrantCall.issues scope ttl by now id) = true
is_issue (GrantCall.consumes scope now) = false

abbrev same_kind : Bool → Bool → Bool
same_kind true b = b
same_kind false b = not b

-- 1 for a call for the scope that succeeds: `true` counts grants, `false` counts approvals
abbrev weight : Bool → Scope → GrantCall → Bool → ℕ
weight kind s c done =
    if done && (same_scope (scope_of c) s && same_kind kind (is_issue c)) then 1 else 0

unfoldable pub successes : Bool → Scope → List GrantCall → List Grant → ℕ
successes kind s [] rows = 0
successes kind s (c ∷ cs) rows =
    weight kind s c (run_call c rows).1 + successes kind s cs (run_call c rows).0

unfoldable pub run_calls : List GrantCall → List Grant → List Grant
run_calls [] rows = rows
run_calls (c ∷ cs) rows = run_calls cs (run_call c rows).0

-- a grant for the scope that is not used, expired or not
unfoldable pub unused : Scope → Grant → Bool
unused s g = same_scope g.scope s && is_none g.consumed_at

same_scope-eq : (a b : Scope) → same_scope a b ≡ true → a ≡ b
unfolding same_scope
same_scope-eq a b e =
    let one : a.origin ≡ b.origin = (eq_iff a.origin b.origin).0 (ground arith) in
    let two : a.skill ≡ b.skill = (eq_iff a.skill b.skill).0 (ground arith) in
    let three : a.digest ≡ b.digest = (eq_iff a.digest b.digest).0 (ground arith) in cc

-- a call keeps identifiers apart, and its grants and approvals balance the unused grants
record Balanced (s : Scope) (c : GrantCall) (rows after : List Grant) (done : Bool) : Type 0 where
  keyed : IsKeyed grant_key after
  balance :
      count (unused s) after + weight false s c done ≡ count (unused s) rows + weight true s c done

module _ (s : Scope) (rows : List Grant) (keyed : IsKeyed grant_key rows) where
  -- the used grant was counted, and is no more
  used-balance :
      (scope : Scope) (now : ℕ) (g : Grant)
      → find grant_key g.grant_id rows ≡ some g
      → usable scope now g ≡ true
      → count (unused s) (modify grant_key g.grant_id (use_grant now) rows)
          + (if same_scope scope s then 1 else 0)
        ≡ count (unused s) rows
  unfolding unused use_grant usable
  used-balance scope now g found passes =
      let same : g.scope ≡ scope = same_scope-eq g.scope scope (ground arith) in
      let free : g.consumed_at ≡ none = ground arith in
      ground (
        arith,
        count-modify (unused s) grant_key (use_grant now) g.grant_id rows g keyed found,
        same,
        free,
      )

  consume-Balanced :
      (scope : Scope) (now : ℕ)
      → Balanced s
          (GrantCall.consumes scope now)
          rows
          (consume scope now rows).0
          (consume scope now rows).1
  unfolding consume use_found
  consume-Balanced scope now = elim (Option-cases (oldest (select (usable scope now) rows))) [
    | inl nothing ↦ rw nothing (record { keyed = keyed; balance = refl })
    | inr (g, there) ↦
        let (found, passes) = oldest-usable scope now rows keyed g there in
        rw there (record {
          keyed =
              IsKeyed-modify grant_key (use_grant now) (same_grant_id now) g.grant_id rows keyed;
          balance = ground (arith, used-balance scope now g found passes);
        })
  ]

  abbrev new : Scope → ℕ → Option String → ℕ → ℕ → Grant
  new scope ttl by now id = record {
    grant_id = id;
    scope = scope;
    granted_by = by;
    created_at = now;
    expires_at = now + ttl;
    consumed_at = none;
  }

  issue-Balanced :
      (scope : Scope) (ttl : ℕ) (by : Option String) (now id : ℕ)
      → Balanced s
          (GrantCall.issues scope ttl by now id)
          rows
          (issued rows (issue scope ttl by now id rows)).0
          (issued rows (issue scope ttl by now id rows)).1
  unfolding issued issue unused
  issue-Balanced scope ttl by now id = elim (Option-cases (find grant_key id rows)) [
    | inr (g, there) ↦ rw there (record { keyed = keyed; balance = refl })
    | inl free ↦ rw free (record {
      keyed = IsKeyed-append grant_key rows (new scope ttl by now id) keyed free;
      balance = ground (arith, count-append (unused s) rows (new scope ttl by now id));
    })
  ]

  run_call-Balanced : (c : GrantCall) → Balanced s c rows (run_call c rows).0 (run_call c rows).1
  unfolding run_call
  run_call-Balanced (GrantCall.issues scope ttl by now id) = issue-Balanced scope ttl by now id
  run_call-Balanced (GrantCall.consumes scope now) = consume-Balanced scope now

-- With one row for an identifier: over any sequence of calls, the approvals of a scope and its
-- unused grants at the end are together the grants issued for it and its unused grants at the start.
pub run_calls-balances :
    (s : Scope) (cs : List GrantCall) (rows : List Grant)
    → IsKeyed grant_key rows
    → successes false s cs rows + count (unused s) (run_calls cs rows)
      ≡ successes true s cs rows + count (unused s) rows
unfolding successes run_calls
run_calls-balances s [] rows keyed = refl
run_calls-balances s (c ∷ cs) rows keyed =
    let b = run_call-Balanced s rows keyed c in
    ground (arith, run_calls-balances s cs (run_call c rows).0 b.keyed, b.balance)
