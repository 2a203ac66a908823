-- ===== src/Completion/Artifacts/Repeat.antt =====
-- On `record` of core/artifacts/store.py, called again for one attempt.
use Prim.Native.String.{◌++◌ as joined}
use galaxz.Prelude.{
  ℕ, ◌+◌, ◌≡◌, refl, ap, ◌∙◌, String, Bool, true, false, Option, none, some, List, [], ◌∷◌, ◌++◌,
  map, is_none, ok, inl, inr, Bool-cases, Option-cases, Result-cases, arith, >>=-eq-ok,
}
use galaxz.Prelude.Text.{str_eq}
use galaxz.Prelude.Table.{find_by}
use galaxz.Prelude.Table.First.{find_by-append_new}
use galaxz.Contracts.Json.{Json, str_eq_refl}
use galaxz.Completion.Artifacts.{
  Version, AttemptVersion, ArtifactDb, Artifact, Recorded, Source, identity_key, read_artifact,
  attempt_key, has_attempt_key, prior_attempt, noted_row, note_attempt, insert_version, record_new,
  record_after, record_artifact, record_all, record_artifacts, committed,
}

-- the attempts that were noted stay noted
abbrev IsKept : ArtifactDb → ArtifactDb → Type 0
IsKept db db' =
    (k : Option String) (p : AttemptVersion)
    → prior_attempt k db ≡ some p
    → prior_attempt k db' ≡ some p

find_by-append_old :
    (p : AttemptVersion → Bool) (rs : List AttemptVersion) (r q : AttemptVersion)
    → find_by p rs ≡ some q
    → find_by p (rs ++ r ∷ []) ≡ some q
unfolding find_by
find_by-append_old p [] r q h = absurd (ground arith)
find_by-append_old p (s ∷ rs) r q h = ground (arith, find_by-append_old p rs r q)

-- the attempt's version of a file is the one of an answer
abbrev IsNoted : Option String → Recorded → ArtifactDb → Type 0
IsNoted k r db =
    (p : AttemptVersion) × (prior_attempt k db ≡ some p)
    × (p.identity_key ≡ r.identity_key)
    × (p.version ≡ r.version)

noted :
    (k key : String) (n : ℕ) (db db' : ArtifactDb)
    → note_attempt (some k) key n db ≡ ok db'
    → (is_none (find_by (has_attempt_key k) db.attempts) ≡ true)
      × (db' ≡ record db { attempts = db.attempts ++ noted_row k key n ∷ [] })
unfolding note_attempt
noted k key n db db' e = elim (Bool-cases (is_none (find_by (has_attempt_key k) db.attempts))) [
  | inr taken ↦ absurd (let f = rw taken at e in cc f)
  | inl free ↦ let f = rw free at e in (free, cc f)
]

unnoted :
    (key : String) (n : ℕ) (db db' : ArtifactDb) → note_attempt none key n db ≡ ok db' → db ≡ db'
unfolding note_attempt
unnoted key n db db' e = cc e

none_of : {A : Type 0} (o : Option A) → is_none o ≡ true → o ≡ none
none_of none h = refl
none_of (some a) h = cc

note-IsKept :
    (k : Option String) (key : String) (n : ℕ) (db db' : ArtifactDb)
    → note_attempt k key n db ≡ ok db'
    → IsKept db db'
unfolding prior_attempt
note-IsKept none key n db db' e j p h =
    let same : db ≡ db' = unnoted key n db db' e in rw (← same) h
note-IsKept (some k) key n db db' e none p h = absurd (ground arith)
note-IsKept (some k) key n db db' e (some j) p h =
    rw ((noted k key n db db' e).1)
      (find_by-append_old (has_attempt_key j) db.attempts (noted_row k key n) p h)

-- an attempt that is noted is found
note-IsNoted :
    (k key : String) (n : ℕ) (recorded : Bool) (db db' : ArtifactDb)
    → note_attempt (some k) key n db ≡ ok db'
    → IsNoted (some k) (record { identity_key = key; version = n; recorded = recorded }) db'
unfolding prior_attempt has_attempt_key noted_row
note-IsNoted k key n recorded db db' e =
    let (free, same) = noted k key n db db' e in
    rw same (
      noted_row k key n,
      find_by-append_new (has_attempt_key k) db.attempts (noted_row k key n) (none_of _ free)
          (str_eq_refl k),
      refl,
      refl,
    )

insert-IsKept :
    (v : Version) (db db' : ArtifactDb) → insert_version v db ≡ ok db' → db'.attempts ≡ db.attempts
unfolding insert_version
insert-IsKept v db db' e = ground arith

attempts-IsKept : (db db' : ArtifactDb) → db'.attempts ≡ db.attempts → IsKept db db'
unfolding prior_attempt
attempts-IsKept db db' same none p h = absurd (ground arith)
attempts-IsKept db db' same (some k) p h = rw same h

module _ (hash : String → String) (s : Source) (now : ℕ) where
  abbrev key_of : Artifact → Option String
  key_of a = attempt_key s.attempt_id (identity_key s.workspace_root a.filename)

  -- what a turn of the loop does to the notes
  abbrev Turned : Artifact → Recorded → (db db' : ArtifactDb) → Type 0
  Turned a r db db' = IsKept db db' × ((k : String) → key_of a ≡ some k → IsNoted (some k) r db')

  noted-Turned :
      (a : Artifact) (key : String) (n : ℕ) (recorded : Bool) (db d db' : ArtifactDb)
      → d.attempts ≡ db.attempts
      → note_attempt (key_of a) key n d ≡ ok db'
      → Turned a (record { identity_key = key; version = n; recorded = recorded }) db db'
  noted-Turned a key n recorded db d db' same e = (
    λ k p h. note-IsKept (key_of a) key n d db' e k p (attempts-IsKept db d same k p h),
    λ k hit. note-IsNoted k key n recorded d db' (rw (← hit) e),
  )

  new-Turned :
      (a : Artifact) (n : ℕ) (db db' : ArtifactDb) (r : Recorded)
      → record_new hash s now a n db ≡ ok (r, db')
      → Turned a r db db'
  unfolding record_new
  new-Turned a n db db' r e =
      let (d, inserted, more) = >>=-eq-ok _ _ e in
      let (d', noting, last) = >>=-eq-ok _ _ more in
      let same_r : record {
        identity_key = identity_key s.workspace_root a.filename;
        version = n;
        recorded = true;
      }
          ≡ r =
        cc last in
      let same_db : d' ≡ db' = cc last in
      rw (← same_r)
        (noted-Turned a _ n true db d db' (insert-IsKept _ db d inserted) (noting ∙ ap ok same_db))

  after-Turned :
      (a : Artifact) (o : Option Version) (db db' : ArtifactDb) (r : Recorded)
      → record_after hash s now a o db ≡ ok (r, db')
      → Turned a r db db'
  unfolding record_after
  after-Turned a none db db' r e = new-Turned a 1 db db' r e
  after-Turned a (some v) db db' r e = elim (Bool-cases (str_eq v.content_hash (hash a.content))) [
    | inr other ↦ new-Turned a (v.version + 1) db db' r (let f = rw other at e in f)
    | inl same ↦
        let f = rw same at e in
        let (d', noting, last) = >>=-eq-ok _ _ f in
        let same_r : record {
          identity_key = identity_key s.workspace_root a.filename;
          version = v.version;
          recorded = false;
        }
            ≡ r =
          cc last in
        let same_db : d' ≡ db' = cc last in
        rw (← same_r) (noted-Turned a _ v.version false db db db' refl (noting ∙ ap ok same_db))
  ]

  turn :
      (a : Artifact) (db db' : ArtifactDb) (r : Recorded)
      → record_artifact hash s now a db ≡ ok (r, db')
      → Turned a r db db'
  unfolding record_artifact
  turn a db db' r e = elim (Option-cases (prior_attempt (key_of a) db)) [
    | inl new ↦ after-Turned a _ db db' r (let f = rw (new, record_artifact) at e in f)
    | inr (p, old) ↦
        let f = rw (old, record_artifact) at e in
        let same_db : db ≡ db' = cc f in
        let same_r : record { identity_key = p.identity_key; version = p.version; recorded = false }
            ≡ r =
          cc f in
        rw (← same_db, ← same_r) (λ k q h. h, λ k hit. (p, rw (← hit) old, refl, refl))
  ]

  -- a loop that returns, taken apart
  record_all-cons :
      (v : Json) (vs : List Json) (db db' : ArtifactDb) (rs : List Recorded)
      → record_all hash s now (v ∷ vs) db ≡ ok (rs, db')
      → (a : Artifact) × (p : Recorded × ArtifactDb) × (rest : List Recorded) × (read_artifact v
          ≡ ok a)
        × (record_artifact hash s now a db ≡ ok p)
        × (record_all hash s now vs p.1 ≡ ok (rest, db'))
        × (rs ≡ p.0 ∷ rest)
  unfolding record_all
  record_all-cons v vs db db' rs e = elim (Result-cases (read_artifact v)) [
    | inr (x, bad) ↦ absurd (let f = rw (bad, record_all) at e in cc f)
    | inl (a, reading) ↦ elim (Result-cases (record_artifact hash s now a db)) [
      | inr (x, bad) ↦ absurd (let f = rw (reading, bad, record_all) at e in cc f)
      | inl (p, recording) ↦ elim (Result-cases (record_all hash s now vs p.1)) [
        | inr (x, bad) ↦ absurd (let f = rw (reading, recording, bad, record_all) at e in cc f)
        | inl (q, others) ↦
            let f = rw (reading, recording, others, record_all) at e in
            (
              a,
              p,
              q.0,
              reading,
              recording,
              others ∙ (let g : q.1 ≡ db' = cc f in ap (λ z. ok (q.0, z)) g),
              cc f,
            )
      ]
    ]
  ]

  all-IsKept :
      (vs : List Json) (db db' : ArtifactDb) (rs : List Recorded)
      → record_all hash s now vs db ≡ ok (rs, db')
      → IsKept db db'
  all-IsKept [] db db' rs e k p h = let same : db ≡ db' = unfold record_all in cc e in rw (← same) h
  all-IsKept (v ∷ vs) db db' rs e k p h =
      let (a, q, rest, reading, recording, others, same) = record_all-cons v vs db db' rs e in
      all-IsKept vs q.1 db' rest others k p ((turn a db q.1 q.0 recording).0 k p h)

abbrev pub seen : Recorded → Recorded
seen r = record r { recorded = false }

repeated :
    (hash : String → String) (s : Source) (now now' : ℕ) (a : Artifact) (r : Recorded)
    (db : ArtifactDb) (k : String)
    → key_of hash s now a ≡ some k
    → IsNoted (some k) r db
    → record_artifact hash s now' a db ≡ ok (seen r, db)
unfolding record_artifact
repeated hash s now now' a r db k hit (p, found, same_key, same_version) =
    let old : prior_attempt (key_of hash s now a) db ≡ some p = rw hit found in
    rw (old, record_artifact) (ap (λ z. ok (z, db)) (cc (same_key, same_version)))

named_key :
    (s : Source) (id key : String)
    → s.attempt_id ≡ some id
    → str_eq id "" ≡ false
    → (k : String) × (attempt_key s.attempt_id key ≡ some k)
unfolding attempt_key
named_key s id key by named = (joined id (joined "::" key), rw (by, attempt_key, named) refl)

-- every turn is repeated with the answer of the first
all_repeated :
    (hash : String → String) (s : Source) (id : String) (now now' : ℕ) (vs : List Json)
    (db db' : ArtifactDb) (rs : List Recorded)
    → s.attempt_id ≡ some id
    → str_eq id "" ≡ false
    → record_all hash s now vs db ≡ ok (rs, db')
    → record_all hash s now' vs db' ≡ ok (map seen rs, db')
unfolding record_all
all_repeated hash s id now now' [] db db' rs by named e =
    let same : [] ≡ rs = cc e in rw (← same) refl
all_repeated hash s id now now' (v ∷ vs) db db' rs by named e =
    let (a, q, rest, reading, recording, others, whole) =
      record_all-cons hash s now v vs db db' rs e in
    let (k, hit) = named_key s id (identity_key s.workspace_root a.filename) by named in
    let (p, found, same_key, same_version) = (turn hash s now a db q.1 q.0 recording).1 k hit in
    let later = all-IsKept hash s now vs q.1 db' rest others (some k) p found in
    let again = repeated hash s now now' a q.0 db' k hit (p, later, same_key, same_version) in
    rw
      (
        whole,
        reading,
        record_all,
        again,
        all_repeated hash s id now now' vs q.1 db' rest by named others,
      )
      refl

-- Artifacts that were recorded for an attempt are recorded again, at any time, with the same identities
-- and versions, none of them as new, and nothing changes.
pub record-repeats :
    (hash : String → String) (s : Source) (id : String) (now now' : ℕ) (vs : List Json)
    (db : ArtifactDb) (rs : List Recorded)
    → s.attempt_id ≡ some id
    → str_eq id "" ≡ false
    → (record_artifacts hash s now vs db).1 ≡ ok rs
    → record_artifacts hash s now' vs (record_artifacts hash s now vs db).0
      ≡ ((record_artifacts hash s now vs db).0, ok (map seen rs))
unfolding record_artifacts committed
record-repeats hash s id now now' vs db rs by named e =
    elim (Result-cases (record_all hash s now vs db)) [
      | inr (x, bad) ↦ absurd (let f = rw (bad, record_artifacts) at e in cc f)
      | inl (p, done) ↦
          let f = rw (done, record_artifacts) at e in
          let same : p.0 ≡ rs = cc f in
          let again =
            all_repeated hash s id now now' vs db p.1 rs by named
              (done ∙ ap (λ z. ok (z, p.1)) same) in
          rw (done, record_artifacts, again) refl
    ]
