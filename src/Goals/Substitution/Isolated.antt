-- ===== src/Goals/Substitution/Isolated.antt =====
-- On `resolve_payload` of core/goals/substitution.py: which tasks it reads.
use galaxz.Prelude.{ℕ, ◌≡◌, refl, true, inl, inr, Option, List, Bool-cases, Option-cases}
use galaxz.Prelude.Int.{ℤ}
use galaxz.Contracts.Json.{
  Json, Items, Fields, null, bool, num, str, arr, obj, nil, cons, end, field,
}
use galaxz.Goals.Plan.{PlannedTask}
use galaxz.Goals.Blocking.{contains_id}
use galaxz.Goals.Substitution.Reference.{Match, match_reference, parse_uuid}
use galaxz.Goals.Substitution.{
  result_of, resolve_reference, resolve_text, resolve, resolve_items, resolve_fields,
  resolve_payload,
}

-- the declared dependencies have the same results
abbrev pub IsAlike : List ℕ → (deps deps' : ℕ → Option PlannedTask) → Type 0
IsAlike declared deps deps' =
    (k : ℕ) → contains_id declared k ≡ true → result_of (deps k) ≡ result_of (deps' k)

module _ (declared : List ℕ) (deps deps' : ℕ → Option PlannedTask)
    (alike : IsAlike declared deps deps') where
  reference-alike :
      (m : Match) → resolve_reference declared deps m ≡ resolve_reference declared deps' m
  unfolding resolve_reference
  reference-alike m = elim (Option-cases (parse_uuid m.id)) [
    | inl bad ↦ rw bad refl
    | inr (k, good) ↦ elim (Bool-cases (contains_id declared k)) [
      | inr out ↦ rw (good, out) refl
      | inl listed ↦ rw (good, listed, alike k listed) refl
    ]
  ]

  text-alike : (s : _) → resolve_text declared deps s ≡ resolve_text declared deps' s
  unfolding resolve_text
  text-alike s = elim (Option-cases (match_reference s)) [
    | inl plain ↦ rw (plain, resolve_text) refl
    | inr (m, hit) ↦ rw (hit, resolve_text) (reference-alike m)
  ]

  mutual
    unfolding resolve

    resolve-alike : (v : Json) → resolve declared deps v ≡ resolve declared deps' v
    resolve-alike null = refl
    resolve-alike (bool b) = refl
    resolve-alike (num n) = refl
    resolve-alike (str s) = text-alike s
    resolve-alike (arr vs) = rw (items-alike vs) refl
    resolve-alike (obj fs) = rw (fields-alike fs) refl

    items-alike : (vs : Items) → resolve_items declared deps vs ≡ resolve_items declared deps' vs
    items-alike nil = refl
    items-alike (cons v vs) = rw (resolve-alike v, items-alike vs) refl

    fields-alike :
        (fs : Fields) → resolve_fields declared deps fs ≡ resolve_fields declared deps' fs
    fields-alike end = refl
    fields-alike (field k v fs) = rw (resolve-alike v, fields-alike fs) refl

-- A payload is resolved from the results of the declared dependencies and nothing else: where these
-- agree, so does the resolved payload, or the error.
pub resolve_payload-isolated :
    (num_size : ℤ → ℕ) (max_bytes : ℕ) (t : PlannedTask) (deps deps' : ℕ → Option PlannedTask)
    → IsAlike t.depends_on deps deps'
    → resolve_payload num_size max_bytes t deps ≡ resolve_payload num_size max_bytes t deps'
unfolding resolve_payload
resolve_payload-isolated num_size max_bytes t deps deps' alike =
    rw (resolve-alike t.depends_on deps deps' alike t.payload) refl
