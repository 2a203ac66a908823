-- ===== src/Completion/Artifacts/Versions.antt =====
-- The queries of core/artifacts/store.py and its retention, without an object storage.
pub mod Retained
use galaxz.Prelude.{
  ℕ, String, Bool, false, not, ◌&&◌, Option, none, some, List, [], ◌∷◌, ltb, if◌then◌else◌,
}
use galaxz.Prelude.Text.{str_eq}
use galaxz.Prelude.Table.{select}
use galaxz.Prelude.Text.Order.{str_lt}
use galaxz.Completion.Artifacts.{Version, ArtifactDb, latest}

-- `ORDER BY version DESC`
insert_newest : Version → List Version → List Version
insert_newest v [] = v ∷ []
insert_newest v (w ∷ ws) =
    let rest = insert_newest v ws in if ltb v.version w.version then w ∷ rest else v ∷ w ∷ ws

newest_first : List Version → List Version
unfolding insert_newest
newest_first [] = []
newest_first (v ∷ vs) = insert_newest v (newest_first vs)

abbrev pub of_file : String → Version → Bool
of_file key v = str_eq v.identity_key key

unfoldable pub history : String → ArtifactDb → List Version
unfolding newest_first
history key db = newest_first (select (of_file key) db.versions)

unfoldable pub latest_version_number : String → ArtifactDb → Option ℕ
latest_version_number key db = elim (latest key db.versions) [
  | none ↦ none
  | some v ↦ some v.version
]

-- `ORDER BY identity_key`, the newest version of each
insert_file : Version → List Version → List Version
insert_file v [] = v ∷ []
insert_file v (w ∷ ws) =
    let rest = insert_file v ws in
    if str_eq v.identity_key w.identity_key
    then (if ltb w.version v.version then v ∷ ws else w ∷ ws)
    else if str_lt w.identity_key v.identity_key
    then w ∷ rest
    else v ∷ w ∷ ws

unfoldable pub list_files : List Version → List Version
unfolding insert_file
list_files [] = []
list_files (v ∷ vs) = insert_file v (list_files vs)

-- `created_at < ? AND version < (SELECT MAX(version) …)`
unfoldable pub is_outdated : ℕ → List Version → Version → Bool
is_outdated cutoff vs v =
    ltb v.created_at cutoff
    && elim (latest v.identity_key vs) [ none ↦ false | some w ↦ ltb v.version w.version ]

unfoldable pub delete_older_than : ℕ → ArtifactDb → ArtifactDb
unfolding is_outdated
delete_older_than cutoff db = record db {
  versions = select (λ v. not (is_outdated cutoff db.versions v)) db.versions;
}
