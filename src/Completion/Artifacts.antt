-- ===== src/Completion/Artifacts.antt =====
-- core/artifacts/store.py without an object storage: the versions of files that attempts have made.
-- SHA-256 is a parameter.
pub mod Repeat
pub mod Versions
use Prim.Native.String.{◌++◌ as joined}
use galaxz.Prelude.{
  ℕ, ◌+◌, String, Bool, true, false, ◌&&◌, not, Option, none, some, List, [], ◌∷◌, ◌++◌, ltb, ◌==◌,
  is_none, Result, ok, err, guard, key_error, type_error, integrity_error, ◌>>=◌, ◌>>◌,
  if◌then◌else◌,
}
use galaxz.Prelude.Text.{str_eq}
use galaxz.Prelude.Table.{find_by, exists}
use galaxz.Contracts.Json.{Json, str, get}

pub record Version : Type 0 where
  pub identity_key : String
  pub version : ℕ
  pub content : String
  pub content_hash : String
  pub filename : String
  pub language : Option Json
  pub artifact_type : Option Json
  pub task_id : String
  pub skill : String
  pub created_at : ℕ
  pub attempt_artifact_key : Option String

-- a row of `artifact_attempt_versions`
pub record AttemptVersion : Type 0 where
  pub attempt_artifact_key : String
  pub identity_key : String
  pub version : ℕ

pub record ArtifactDb : Type 0 where
  pub versions : List Version
  pub attempts : List AttemptVersion

unfoldable pub identity_key : String → String → String
identity_key workspace_root filename = joined workspace_root (joined "::" filename)

pub record Artifact : Type 0 where
  pub filename : String
  pub content : String
  pub language : Option Json
  pub artifact_type : Option Json

text_field : Option Json → Result String
text_field none = err key_error
text_field (some (str s)) = ok s
text_field (some v) = err type_error

-- the fields that `record` reads of an artifact
unfoldable pub read_artifact : Json → Result Artifact
unfolding text_field
read_artifact v = do
  filename ← text_field (get "filename" v)
  content ← text_field (get "content" v)
  ok (record {
    filename = filename;
    content = content;
    language = get "language" v;
    artifact_type = get "artifact_type" v;
  })

-- `f"{attempt_id}::{key}" if attempt_id else None`
unfoldable pub attempt_key : Option String → String → Option String
attempt_key none key = none
attempt_key (some id) key = if str_eq id "" then none else some (joined id (joined "::" key))

unfoldable pub has_attempt_key : String → AttemptVersion → Bool
has_attempt_key k a = str_eq a.attempt_artifact_key k

unfoldable pub prior_attempt : Option String → ArtifactDb → Option AttemptVersion
unfolding has_attempt_key
prior_attempt none db = none
prior_attempt (some k) db = find_by (has_attempt_key k) db.attempts

unfoldable pub later : Option Version → Version → Version
later none v = v
later (some w) v = if ltb v.version w.version then w else v

-- `WHERE identity_key = ? ORDER BY version DESC LIMIT 1`
unfoldable pub latest : String → List Version → Option Version
unfolding later
latest key [] = none
latest key (v ∷ vs) =
    let rest = latest key vs in if str_eq v.identity_key key then some (later rest v) else rest

unfoldable pub get_version : String → ℕ → ArtifactDb → Option Version
get_version key n db =
    find_by (λ (v : Version). str_eq v.identity_key key && v.version == n) db.versions

-- an entry of the answer of `record`
pub record Recorded : Type 0 where
  pub identity_key : String
  pub version : ℕ
  pub recorded : Bool

unfoldable pub noted_row : String → String → ℕ → AttemptVersion
noted_row k key n = record { attempt_artifact_key = k; identity_key = key; version = n }

-- the version that an attempt has made of a file
unfoldable pub note_attempt : Option String → String → ℕ → ArtifactDb → Result ArtifactDb
unfolding has_attempt_key noted_row
note_attempt none key n db = ok db
note_attempt (some k) key n db = do
  guard (is_none (find_by (has_attempt_key k) db.attempts)) integrity_error
  ok (record db { attempts = db.attempts ++ noted_row k key n ∷ [] })

has_index_key : Option String → Version → Bool
has_index_key (some k) v = elim v.attempt_artifact_key [ none ↦ false | some j ↦ str_eq j k ]
has_index_key none v = false

-- the primary key, and the unique index of the keys of attempts
unfoldable pub insert_version : Version → ArtifactDb → Result ArtifactDb
unfolding has_index_key
insert_version v db = do
  guard (is_none (get_version v.identity_key v.version db)) integrity_error
  guard (not (exists (has_index_key v.attempt_artifact_key) db.versions)) integrity_error
  ok (record db { versions = db.versions ++ v ∷ [] })

-- what the arguments of `record` say of every artifact
pub record Source : Type 0 where
  pub workspace_root : String
  pub task_id : String
  pub skill : String
  pub attempt_id : Option String

module _ (hash : String → String) (s : Source) (now : ℕ) where
  new_version : Artifact → ℕ → Version
  new_version a n = record {
    identity_key = identity_key s.workspace_root a.filename;
    version = n;
    content = a.content;
    content_hash = hash a.content;
    filename = a.filename;
    language = a.language;
    artifact_type = a.artifact_type;
    task_id = s.task_id;
    skill = s.skill;
    created_at = now;
    attempt_artifact_key = attempt_key s.attempt_id (identity_key s.workspace_root a.filename);
  }

  record_new : Artifact → ℕ → ArtifactDb → Result (Recorded × ArtifactDb)
  unfolding new_version
  record_new a n db =
      let key = identity_key s.workspace_root a.filename in
      do
        db' ← insert_version (new_version a n) db
        db'' ← note_attempt (attempt_key s.attempt_id key) key n db'
        ok (record { identity_key = key; version = n; recorded = true }, db'')

  record_after : Artifact → Option Version → ArtifactDb → Result (Recorded × ArtifactDb)
  unfolding record_new
  record_after a none db = record_new a 1 db
  record_after a (some v) db =
      let key = identity_key s.workspace_root a.filename in
      if str_eq v.content_hash (hash a.content)
      then (do
        db' ← note_attempt (attempt_key s.attempt_id key) key v.version db
        ok (record { identity_key = key; version = v.version; recorded = false }, db'))
      else record_new a (v.version + 1) db

  -- one turn of the loop
  unfoldable pub record_artifact : Artifact → ArtifactDb → Result (Recorded × ArtifactDb)
  unfolding record_after
  record_artifact a db =
      let key = identity_key s.workspace_root a.filename in
      elim (prior_attempt (attempt_key s.attempt_id key) db) [
        | some p ↦
            ok (record { identity_key = p.identity_key; version = p.version; recorded = false }, db)
        | none ↦ record_after a (latest key db.versions) db
      ]

  unfoldable pub record_all : List Json → ArtifactDb → Result (List Recorded × ArtifactDb)
  record_all [] db = ok ([], db)
  record_all (v ∷ vs) db = do
    a ← read_artifact v
    (r, db') ← record_artifact a db
    (rs, db'') ← record_all vs db'
    ok (r ∷ rs, db'')

  committed : ArtifactDb → Result (List Recorded × ArtifactDb) → ArtifactDb × Result (List Recorded)
  committed db (ok (rs, db')) = (db', ok rs)
  committed db (err e) = (db, err e)

  -- `record`: an exception rolls the transaction back
  unfoldable pub record_artifacts : List Json → ArtifactDb → ArtifactDb × Result (List Recorded)
  unfolding committed
  record_artifacts vs db = committed db (record_all vs db)
