-- ===== src/Tests/Stores.antt =====
-- The retention of artifacts, the scan of files and the log of tasks at concrete inputs.
use galaxz.Prelude.{ℕ, String, ◌≡◌, ◌↔◌, ◌⊎◌, refl, true, none, some, List, [], ◌∷◌, map, Option}
use galaxz.Prelude.Text.{str_eq, strip, contains}
use galaxz.Prelude.Table.{All, exists, select}
use galaxz.Completion.Artifacts.{Version, ArtifactDb, later, latest}
use galaxz.Completion.Artifacts.Versions.{is_outdated, delete_older_than}
use galaxz.Completion.Artifacts.Versions.Retained.{delete_older_than-latest}
use galaxz.Security.Scan.{
  File, Override, Scanner, ends_with, scan_file, scan_files, approves, accepted, status_of, report,
  scan_artifacts,
}
use galaxz.Security.Scan.Settled.{scan_artifacts-passes}

-- opening this runs the stores and the scan
stores_program : Unit {0}
unfolding strip contains exists select later latest is_outdated delete_older_than ends_with
    scan_file scan_files approves accepted status_of report scan_artifacts
stores_program = tt

abbrev version : String → ℕ → ℕ → Version
version key n created_at = record {
  identity_key = key;
  version = n;
  content = "x";
  content_hash = "h";
  filename = "a.py";
  language = none;
  artifact_type = none;
  task_id = "t";
  skill = "code.write";
  created_at = created_at;
  attempt_artifact_key = none;
}

abbrev artifacts : ArtifactDb
artifacts = record {
  versions = version "a" 2 4 ∷ version "a" 1 3 ∷ version "b" 1 2 ∷ [];
  attempts = [];
}

-- all are older than the cutoff, and the newest of each file stays
drops_one : map (λ (v : Version). v.version) (delete_older_than 9 artifacts).versions ≡ 2 ∷ 1 ∷ []
unfolding stores_program
drops_one = refl

delete_older_than-latest_example :
    latest "a" (delete_older_than 9 artifacts).versions ≡ latest "a" artifacts.versions
delete_older_than-latest_example = delete_older_than-latest "a" 9 artifacts

abbrev scanner : Scanner
scanner = record {
  search = λ rule content. str_eq rule "generic-secret";
  lower = λ s. s;
  size = λ s. 1;
  limit = 10;
}

abbrev files : List File
files = record { filename = "a.py"; content = "token" } ∷ []

abbrev approval : List String → Option Override
approval findings = some (record { reviewer = "ana"; decision = "approved"; findings = findings })

passes : (scan_artifacts scanner (approval ("a.py:generic-secret" ∷ [])) files).status ≡ "passed"
unfolding stores_program
passes = refl

blocks : (scan_artifacts scanner (approval []) files).status ≡ "blocked"
unfolding stores_program
blocks = refl

scan_artifacts-passes_example :
    ((scan_artifacts scanner (approval ("a.py:generic-secret" ∷ [])) files).status ≡ "passed") ↔ (
      (scan_files scanner files ≡ [])
      ⊎ ((approves (approval ("a.py:generic-secret" ∷ [])) ≡ true)
          × All
              (λ f. accepted (approval ("a.py:generic-secret" ∷ [])) f ≡ true)
              (scan_files scanner files)))
scan_artifacts-passes_example =
    scan_artifacts-passes scanner (approval ("a.py:generic-secret" ∷ [])) files
