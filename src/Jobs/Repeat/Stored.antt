-- ===== src/Jobs/Repeat/Stored.antt =====
-- The result that a completion stores is the one that a repeated completion finds.
use galaxz.Prelude.{
  ℕ, true, false, ◌≡◌, refl, sym, inl, inr, Option, some, none, [], ◌∷◌, ◌++◌, ok, Result-cases,
  Bool-cases, arith,
}
use galaxz.Prelude.Table.{find-append_new}
use galaxz.Contracts.Json.{Json, dumps, json_eq_refl}
use galaxz.Jobs.Store.{OutputRow, Db, find_output}
use galaxz.Jobs.Finish.{
  has_result, conflicts, store_result, needs_outbox, insert_output, insert_outbox,
}

abbrev output_key : OutputRow → ℕ
output_key o = o.job_id

unfold_insert :
    (id now : ℕ) (v : Json) (o : Option OutputRow) (db d : Db)
    → o ≡ find_output id db
    → insert_output id v now o db ≡ ok d
    → has_result (find_output id d) v ≡ true
unfolding insert_output has_result
unfold_insert id now v none db d missing e =
    let o : OutputRow = record { job_id = id; result = dumps v; created_at = now } in
    let rows : d.outputs ≡ db.outputs ++ o ∷ [] = ground arith in
    rw (rows, find-append_new output_key db.outputs o (sym missing), json_eq_refl (dumps v)) refl
unfold_insert id now v (some o) db d there e = ground arith

outbox_keeps :
    (id attempt now : ℕ) (db d : Db)
    → insert_outbox id attempt now db ≡ ok d
    → d.outputs ≡ db.outputs
unfolding insert_outbox
outbox_keeps id attempt now db d e = ground arith

-- a stored result is read back
store_result-has :
    (id attempt now : ℕ) (v : Json) (db d : Db)
    → store_result id attempt now (some v) db ≡ ok d
    → has_result (find_output id d) v ≡ true
unfolding store_result
store_result-has id attempt now v db d e =
    elim (Result-cases (insert_output id v now (find_output id db) db)) [
      | inr (x, failed) ↦ absurd (ground arith)
      | inl (m, stored) ↦
          let kept : d.outputs ≡ m.outputs = elim (Bool-cases (needs_outbox v)) [
            | inl needed ↦ outbox_keeps id attempt now m d (ground arith)
            | inr idle ↦ ground arith
          ] in
          rw kept (unfold_insert id now v (find_output id db) db m refl stored)
    ]

pub agrees :
    (id attempt now : ℕ) (o : Option Json) (db d : Db)
    → store_result id attempt now o db ≡ ok d
    → conflicts (find_output id d) o ≡ false
unfolding conflicts
agrees id attempt now none db d e = refl
agrees id attempt now (some v) db d e = rw (store_result-has id attempt now v db d e) refl
