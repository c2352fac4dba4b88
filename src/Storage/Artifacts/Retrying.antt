-- ===== src/Storage/Artifacts/Retrying.antt =====
-- An artifact that is recorded again: the first record stays.
use package.text.Mathlib.TextPositions.{eq_refl}
use model_forge.Prelude.{
  ◌≡◌, eq_iff, ap, ◌∙◌, inl, inr, true, false, some, ok, err, arith, Option-cases, if◌then◌else◌,
}
use model_forge.Storage.Schema.Rows.{Hub, ProjectRow, ArtifactRow}
use model_forge.Storage.Schema.Control.{insert_artifact}
use model_forge.Storage.Commands.{RecordResult, select_project}
use model_forge.Storage.Publication.Session.{select_artifact}
use model_forge.Storage.Artifacts.{same_artifact, keep_artifact}

keep_artifact-found :
    (new : ArtifactRow) (h : Hub) {r : RecordResult ArtifactRow}
    → (keep_artifact new h).0 ≡ ok r
    → (project : ProjectRow) × (select_project new.project_id (keep_artifact new h).1
        ≡ some project)
      × (select_artifact new.artifact_id (keep_artifact new h).1 ≡ some r.row)
      × (same_artifact new r.row ≡ true)
unfolding keep_artifact insert_artifact
keep_artifact-found new h e = elim (Option-cases (select_project new.project_id h)) [
  | inl absent ↦ ground (arith, e)
  | inr (project, there) ↦ (
    project,
    ground (arith, e, there),
    ground (arith, e, eq_refl new.artifact_id),
    ground (
      arith,
      e,
      eq_refl new.project_id,
      eq_refl new.sha256,
      eq_refl new.media_type,
      eq_refl new.storage_uri,
      eq_refl new.payload_json,
    ),
  )
]

keep_artifact-present :
    (new : ArtifactRow) (h : Hub) (project : ProjectRow) (old : ArtifactRow)
    → select_project new.project_id h ≡ some project
    → select_artifact new.artifact_id h ≡ some old
    → keep_artifact new h ≡ (
        if same_artifact new old
        then (ok (record { created = false; row = old }), h)
        else (err "repository.immutable_conflict", h))
unfolding keep_artifact
keep_artifact-present new h project old there found = ground (arith, there, found)

same_artifact_as :
    (new' new old : ArtifactRow)
    → same_artifact new old ≡ true
    → same_artifact new' old ≡ same_artifact new' new
same_artifact_as new' new old same = ground (
  arith,
  same,
  (eq_iff old.project_id new.project_id).0,
  (eq_iff old.sha256 new.sha256).0,
  (eq_iff old.media_type new.media_type).0,
  (eq_iff old.storage_uri new.storage_uri).0,
  (eq_iff old.payload_json new.payload_json).0,
)

-- After the transaction of `record_artifact` returned a row, that of a second call for the same
-- artifact and project changes nothing: it returns that row as not created if the metadata are the
-- same, whatever the time, and raises a conflict if not.
pub keep_artifact_again :
    (new new' : ArtifactRow) (h : Hub) {r : RecordResult ArtifactRow}
    → (keep_artifact new h).0 ≡ ok r
    → new'.artifact_id ≡ new.artifact_id
    → new'.project_id ≡ new.project_id
    → keep_artifact new' (keep_artifact new h).1 ≡ (
        if same_artifact new' new
        then (ok (record { created = false; row = r.row }), (keep_artifact new h).1)
        else (err "repository.immutable_conflict", (keep_artifact new h).1))
keep_artifact_again new new' h {r = r} e same_id same_project =
    let (project, there, found, same) = keep_artifact-found new h e in
    let h' = (keep_artifact new h).1 in
    keep_artifact-present new' h' project r.row (rw same_project there) (rw same_id found)
    ∙ ap
        (λ answer.
          if answer
          then (ok (record { created = false; row = r.row }), h')
          else (err "repository.immutable_conflict", h'))
        (same_artifact_as new' new r.row same)
