-- ===== src/Security/Scan/Settled.antt =====
-- On `scan_artifacts` of core/security/artifact_scan.py: when it passes.
use galaxz.Prelude.{
  ◌≡◌, ◌↔◌, ◌⊎◌, refl, ap, Bool, true, not, Option, List, [], ◌∷◌, inl, inr, Bool-cases,
}
use galaxz.Prelude.Text.{str_eq}
use galaxz.Prelude.Table.{All, select, exists}
use galaxz.Security.Scan.{
  Finding, File, Override, Scanner, scan_files, approves, accepted, is_critical, status_of, report,
  scan_artifacts,
}

status_of-passed : (fs : List Finding) → (status_of fs ≡ "passed") ↔ (fs ≡ [])
unfolding status_of
status_of-passed [] = (λ e. refl, λ e. refl)
status_of-passed (f ∷ fs) = (
  λ e. elim (Bool-cases (exists is_critical (f ∷ fs))) [
    | inl critical ↦
        absurd (let g = ap (λ s. str_eq s "passed") (rw (critical, status_of) at e) in cc g)
    | inr plain ↦ absurd (let g = ap (λ s. str_eq s "passed") (rw (plain, status_of) at e) in cc g)
  ],
  λ e. absurd (cc e),
)

select-nothing :
    (p : Finding → Bool) (fs : List Finding)
    → (select (λ f. not (p f)) fs ≡ []) ↔ All (λ f. p f ≡ true) fs
unfolding select
select-nothing p [] = (λ e. tt, λ h. refl)
select-nothing p (f ∷ fs) = elim (Bool-cases (p f)) [
  | inl hit ↦ rw hit (λ e. (refl, (select-nothing p fs).0 e), λ h. (select-nothing p fs).1 h.1)
  | inr miss ↦ rw miss (λ e. absurd (cc e), λ h. absurd (let e = h.0 in cc e))
]

-- Files pass the scan exactly if it finds nothing in them, or an approved override of a named reviewer
-- accepts each of its findings.
pub scan_artifacts-passes :
    (x : Scanner) (o : Option Override) (fs : List File)
    → ((scan_artifacts x o fs).status ≡ "passed") ↔ (
        (scan_files x fs ≡ [])
        ⊎ ((approves o ≡ true) × All (λ f. accepted o f ≡ true) (scan_files x fs)))
unfolding scan_artifacts report
scan_artifacts-passes x o fs =
    let found = scan_files x fs in
    elim (Bool-cases (approves o)) [
      | inr alone ↦
          let (pass, none_found) = status_of-passed found in
          rw (alone, scan_artifacts, report)
            (
              λ e. inl (pass e),
              λ h. elim h [
                | inl clean ↦ none_found clean
                | inr other ↦ absurd (let e = other.0 in cc (e, alone))
              ],
            )
      | inl approved ↦
          let (pass, none_left) = status_of-passed (select (λ f. not (accepted o f)) found) in
          let (all, nothing) = select-nothing (accepted o) found in
          rw (approved, scan_artifacts, report)
            (
              λ e. inr (refl, all (pass e)),
              λ h. elim h [
                | inl clean ↦ none_left (nothing (rw clean tt))
                | inr other ↦ none_left (nothing other.1)
              ],
            )
    ]
