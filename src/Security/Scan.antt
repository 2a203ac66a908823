-- ===== src/Security/Scan.antt =====
-- core/security/artifact_scan.py: the checks of generated files before a review. The search for the
-- pattern of a rule (`re`), the lower case and the UTF-8 length of a text are arguments.
pub mod Settled
use Prim.Native.String.{◌++◌ as joined}
use galaxz.Prelude.{
  ℕ, String, Bool, true, false, not, ◌&&◌, Option, none, some, List, [], ◌∷◌, ◌++◌, ltb, Result, ok,
  err, value_error, is_some, if◌then◌else◌,
}
use galaxz.Prelude.Text.{str_eq, strip, contains}
use galaxz.Prelude.Table.{select, exists}

pub record Finding : Type 0 where
  pub rule : String
  pub severity : String
  pub filename : String

pub record File : Type 0 where
  pub filename : String
  pub content : String

-- `ArtifactScanOverride`
pub record Override : Type 0 where
  pub reviewer : String
  pub decision : String
  pub findings : List String

-- `ArtifactScan`
pub record Report : Type 0 where
  pub status : String
  pub findings : List Finding
  pub overridden : List Finding
  pub reviewer_override : Option Override

pub record Scanner : Type 0 where
  pub search : String → String → Bool  -- the rule's pattern in a text
  pub lower : String → String
  pub size : String → ℕ
  pub limit : ℕ

abbrev secret_rules : List String
secret_rules = "private-key" ∷ "aws-access-key" ∷ "generic-secret" ∷ []

abbrev unsafe_extensions : List String
unsafe_extensions =
    ".exe" ∷ ".dll" ∷ ".so" ∷ ".dylib" ∷ ".bin" ∷ ".pyc" ∷ ".zip" ∷ ".tar" ∷ ".gz" ∷ ".tgz" ∷ ".7z"
    ∷ ".rar" ∷ ".jar" ∷ []

-- `s.endswith(t)`
unfoldable pub ends_with : String → String → Bool
ends_with t String.[] = str_eq String.[] t
ends_with t (String.◌∷◌ c s) =
    let rest = ends_with t s in if str_eq (String.◌∷◌ c s) t then true else rest

abbrev finding : String → String → String → Finding
finding rule severity filename = record { rule = rule; severity = severity; filename = filename }

abbrev when : Bool → Finding → List Finding
when b f = if b then f ∷ [] else []

module _ (x : Scanner) where
  secrets : List String → File → List Finding
  secrets [] f = []
  secrets (r ∷ rs) f = when (x.search r f.content) (finding r "critical" f.filename) ++ secrets rs f

  -- one turn of the loop over the files
  unfoldable pub scan_file : File → List Finding
  unfolding ends_with secrets
  scan_file f =
      when (ltb x.limit (x.size f.content)) (finding "file-too-large" "high" f.filename)
      ++ when (exists (λ e. ends_with e (x.lower f.filename)) unsafe_extensions)
          (finding "unsafe-file-type" "high" f.filename)
      ++ secrets secret_rules f

  unfoldable pub scan_files : List File → List Finding
  scan_files [] = []
  scan_files (f ∷ fs) = scan_file f ++ scan_files fs

-- `override is not None and override.reviewer.strip() and override.decision == "approved"`
unfoldable pub approves : Option Override → Bool
approves none = false
approves (some o) = not (str_eq (strip o.reviewer) "") && str_eq o.decision "approved"

finding_key : Finding → String
finding_key f = joined f.filename (joined ":" f.rule)

-- a finding that the reviewer accepts
unfoldable pub accepted : Option Override → Finding → Bool
unfolding finding_key
accepted none f = false
accepted (some o) f = contains o.findings (finding_key f)

abbrev pub is_critical : Finding → Bool
is_critical f = str_eq f.severity "critical"

unfoldable pub status_of : List Finding → String
status_of [] = "passed"
status_of (f ∷ fs) = if exists is_critical (f ∷ fs) then "blocked" else "escalate"

unfoldable pub report : Option Override → List Finding → Report
report o fs =
    let left = if approves o then select (λ f. not (accepted o f)) fs else fs in
    record {
      status = status_of left;
      findings = left;
      overridden = if approves o then select (accepted o) fs else [];
      reviewer_override = o;
    }

unfoldable pub scan_artifacts : Scanner → Option Override → List File → Report
scan_artifacts x o fs = report o (scan_files x fs)

unfoldable pub require_safe_artifacts : Scanner → List File → Result Report
require_safe_artifacts x fs =
    let r = scan_artifacts x none fs in if str_eq r.status "passed" then ok r else err value_error
