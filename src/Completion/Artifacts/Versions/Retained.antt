-- ===== src/Completion/Artifacts/Versions/Retained.antt =====
-- On `delete_older_than` of core/artifacts/store.py: the current versions.
use galaxz.Prelude.{
  ℕ, String, ◌≡◌, refl, sym, ap, ◌∙◌, ◌⊎◌, Bool, true, false, not, Option, none, some, List, [],
  ◌∷◌, ltb, inl, inr, Bool-cases, Option-cases, arith, eq_iff,
}
use galaxz.Prelude.Table.{select, All}
use galaxz.Completion.Artifacts.{Version, ArtifactDb, later, latest}
use galaxz.Completion.Artifacts.Versions.{of_file, is_outdated, delete_older_than}

-- a version below a number, or none
abbrev below : ℕ → Option Version → Bool
below m none = true
below m (some v) = ltb v.version m

-- a file without a version still has none
latest-none :
    (key : String) (p : Version → Bool) (vs : List Version)
    → latest key vs ≡ none
    → latest key (select p vs) ≡ none
unfolding latest select
latest-none key p [] none_left = refl
latest-none key p (v ∷ vs) none_left = ground (arith, latest-none key p vs)

module _ (key : String) (p : Version → Bool) (m : ℕ) where
  -- what is dropped of the file is below the number
  abbrev DropsBelow : Version → Type 0
  DropsBelow v = of_file key v ≡ true → p v ≡ false → ltb v.version m ≡ true

  -- the newest version stays so, or is below the number and stays there
  abbrev Retains : (before after : Option Version) → Type 0
  Retains before after =
      ((w : Version) × (before ≡ some w) × (after ≡ some w) × (ltb w.version m ≡ false))
      ⊎ ((below m before ≡ true) × (below m after ≡ true))

  later-low :
      (o : Option Version) (v : Version)
      → below m o ≡ true
      → ltb v.version m ≡ true
      → below m (some (later o v)) ≡ true
  unfolding later
  later-low none v b low = low
  later-low (some w) v b low = elim (Bool-cases (ltb v.version w.version)) [
    | inl less ↦ rw less b
    | inr more ↦ rw more low
  ]

  later-high :
      (o : Option Version) (v : Version)
      → below m o ≡ true
      → ltb v.version m ≡ false
      → later o v ≡ v
  unfolding later
  later-high none v b high = refl
  later-high (some w) v b high = ground arith

  later-Retains :
      (before after : Option Version) (v : Version)
      → Retains before after
      → Retains (some (later before v)) (some (later after v))
  unfolding later
  later-Retains before after v (inl (w, b, a, high)) = elim (Bool-cases (ltb v.version w.version)) [
    | inl less ↦ inl (w, rw (b, later, less) refl, rw (a, later, less) refl, high)
    | inr more ↦ inl (v, rw (b, later, more) refl, rw (a, later, more) refl, ground arith)
  ]
  later-Retains before after v (inr (b, a)) = elim (Bool-cases (ltb v.version m)) [
    | inl low ↦ inr (later-low before v b low, later-low after v a low)
    | inr high ↦ inl (
      v,
      ap (λ z. some z) (later-high before v b high),
      ap (λ z. some z) (later-high after v a high),
      high,
    )
  ]

  dropped-Retains :
      (before after : Option Version) (v : Version)
      → ltb v.version m ≡ true
      → Retains before after
      → Retains (some (later before v)) after
  unfolding later
  dropped-Retains before after v low (inl (w, b, a, high)) =
      let less : ltb v.version w.version ≡ true = ground arith in
      inl (w, rw (b, later, less) refl, a, high)
  dropped-Retains before after v low (inr (b, a)) = inr (later-low before v b low, a)

  latest-Retains :
      (vs : List Version) → All DropsBelow vs → Retains (latest key vs) (latest key (select p vs))
  unfolding latest select
  latest-Retains [] all = inr (refl, refl)
  latest-Retains (v ∷ vs) (here, all) = elim (Bool-cases (of_file key v)) [
    | inr other ↦ elim (Bool-cases (p v)) [
      | inl keep ↦ rw (other, keep, other) (latest-Retains vs all)
      | inr drop ↦ rw (other, drop) (latest-Retains vs all)
    ]
    | inl mine ↦ elim (Bool-cases (p v)) [
      | inl keep ↦ rw (mine, keep, mine) (later-Retains _ _ v (latest-Retains vs all))
      | inr drop ↦ rw (mine, drop) (dropped-Retains _ _ v (here mine drop) (latest-Retains vs all))
    ]
  ]

outdated-DropsBelow :
    (key : String) (cutoff : ℕ) (all : List Version) (w : Version)
    → latest key all ≡ some w
    → (vs : List Version) → All (DropsBelow key (λ v. not (is_outdated cutoff all v)) w.version) vs
unfolding is_outdated
outdated-DropsBelow key cutoff all w there [] = tt
outdated-DropsBelow key cutoff all w there (v ∷ vs) = (
  λ mine drop.
      let same : v.identity_key ≡ key = (eq_iff v.identity_key key).0 mine in
      let f = rw (same, there) at drop in ground (arith, f),
  outdated-DropsBelow key cutoff all w there vs,
)

-- The retention keeps the newest version of every file, at any cutoff.
pub delete_older_than-latest :
    (key : String) (cutoff : ℕ) (db : ArtifactDb)
    → latest key (delete_older_than cutoff db).versions ≡ latest key db.versions
unfolding delete_older_than
delete_older_than-latest key cutoff db = elim (Option-cases (latest key db.versions)) [
  | inl absent ↦ latest-none key _ db.versions absent ∙ sym absent
  | inr (w, there) ↦
      elim (latest-Retains key (λ v. not (is_outdated cutoff db.versions v)) w.version db.versions
        (outdated-DropsBelow key cutoff db.versions w there db.versions)) [
          | inl (q, before, after, high) ↦ after ∙ sym before
          | inr (low, rest) ↦ absurd (let f = rw there at low in ground arith)
        ]
]
