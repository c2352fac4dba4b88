-- ===== src/Diagnostics/Store/Leases/Exclusion.antt =====
-- Profile locks of src/model_forge/diagnostics/store.py, from an acquisition to the end of its lease.
use text.Mathlib.TextPositions.{eq_refl}
use model_forge.Prelude.{
  ap, leb, eq_iff, Option, ℕ, ◌+◌, ◌<◌, String, ◌==◌, true, false, not, ◌&&◌, ◌||◌, ◌≡◌, ◌≢◌, refl,
  ap, ◌∙◌, inl, inr, Bool-cases, Option-cases, none, some, ok, err, ltb, leb, any, all, List, [],
  ◌∷◌, arith, eq_iff,
}
use model_forge.Storage.Database.Rules.{transaction_cases}
use model_forge.Storage.Schema.Tables.{find?-test, any-find?}
use model_forge.Diagnostics.Store.{LockRow, Lane, select_lock, has_invocation, seconds}
use model_forge.Diagnostics.Store.Locks.{
  Acquisition, lock_held, new_lock, overwrite_lock, insert_lock, take_lock, acquire_profile_lock,
  release_profile_lock, profile_is_locked,
}
use model_forge.Diagnostics.Store.Rows.{any-update, all-update, all-none}
use model_forge.Diagnostics.Store.Frames.{
  Stays-create_invocation, Stays-update_status, Stays-update_process_identity,
  Stays-record_memory_state, Stays-record_evidence, Stays-issue_fencing_token,
}
use model_forge.Diagnostics.Store.Calls.{Call, after, after_all}
use model_forge.Diagnostics.Store.Leases.{is_ours, IsHeld, respects_lease}
use model_forge.Diagnostics.Store.Leases.Acquiring.{held_row, turned_away, acquired_by_another}
use model_forge.Diagnostics.Store.Leases.Releasing.{
  released_by_another, freed_by_another, renewed_by_another, let_go,
}

-- When the lease that an acquisition asks for ends.
abbrev pub expiry_of : Acquisition → ℕ
expiry_of a = a.now + seconds a.lease_seconds

abbrev IsTaken : Acquisition → Lane → Type 0
IsTaken a lane = IsHeld a.profile_name a.invocation_id (expiry_of a) lane

overwritten :
    (a : Acquisition) (lane : Lane) (row : LockRow) {u : Unit {0}}
    → select_lock a.profile_name lane ≡ some row
    → (overwrite_lock a lane).0 ≡ ok u
    → IsTaken a (overwrite_lock a lane).1
unfolding overwrite_lock
overwritten a lane row found e = elim (Bool-cases (has_invocation lane a.invocation_id)) [
  | inr unmet ↦ cc (rw unmet at e)
  | inl met ↦ rw met (
    any-update (λ r. r.profile_name == a.profile_name) (λ r. r.profile_name == a.profile_name) _
        lane.locks (λ r. refl)
        (any-find? (λ r. r.profile_name == a.profile_name) (λ r. r.profile_name == a.profile_name)
          lane.locks row found
          (find?-test (λ r. r.profile_name == a.profile_name) lane.locks row found)),
    all-update (λ r. r.profile_name == a.profile_name)
        (is_ours a.profile_name a.invocation_id (expiry_of a)) _ lane.locks
        (λ r hit. ground (arith, eq_refl a.invocation_id)) (λ r miss. ground (arith, miss)),
  )
]

inserted :
    (a : Acquisition) (lane : Lane) {u : Unit {0}}
    → select_lock a.profile_name lane ≡ none
    → (insert_lock (new_lock a) lane).0 ≡ ok u
    → IsTaken a (insert_lock (new_lock a) lane).1
unfolding insert_lock
inserted a lane absent e =
    elim (Bool-cases (
      any (λ row. row.profile_name == a.profile_name) lane.locks
      || not (has_invocation lane a.invocation_id))) [
        | inl unmet ↦ cc (rw unmet at e)
        | inr met ↦ rw met (
          ground (arith, eq_refl a.profile_name),
          ground (
            arith,
            eq_refl a.invocation_id,
            all-none (λ r. r.profile_name == a.profile_name)
                (is_ours a.profile_name a.invocation_id (expiry_of a)) lane.locks absent
                (λ r miss. ground (arith, miss)),
          ),
        )
      ]

taken :
    (a : Acquisition) (lane : Lane) {u : Unit {0}}
    → (take_lock a lane).0 ≡ ok u
    → IsTaken a (take_lock a lane).1
unfolding take_lock
taken a lane e = elim (Option-cases (select_lock a.profile_name lane)) [
  | inl absent ↦ rw absent (inserted a lane absent (rw absent at e))
  | inr (row, found) ↦
      elim (Bool-cases
        (ltb a.now row.lease_expires_at && not (row.invocation_id == a.invocation_id))) [
          | inl away ↦ cc (rw (found, away) at e)
          | inr stale ↦ rw (found, stale) (overwritten a lane row found (rw (found, stale) at e))
        ]
]

-- An acquisition that returns has taken the profile.
pub acquired :
    (a : Acquisition) (lane : Lane) {u : Unit {0}}
    → (acquire_profile_lock a lane).0 ≡ ok u
    → IsTaken a (acquire_profile_lock a lane).1
unfolding acquire_profile_lock
acquired a lane e = elim (transaction_cases (take_lock a) lane) [
  | inr (x, raised, done) ↦ cc (rw done at e)
  | inl (_, returned, done) ↦ rw done (taken a lane returned)
]

kept :
    (a : Acquisition) (call : Call) (lane : Lane)
    → respects_lease a.profile_name a.invocation_id (expiry_of a) call ≡ true
    → IsTaken a lane
    → IsTaken a (after call lane)
unfolding after
kept a (Call.create c) lane e held =
    (Stays-create_invocation {P = IsTaken a} (λ l rows m. m) c lane).after lane held
kept a (Call.set_status u) lane e held =
    (Stays-update_status {P = IsTaken a} (λ l rows m. m) u lane lane).after lane held
kept a (Call.set_identity key identity expected now) lane e held =
    (Stays-update_process_identity {P = IsTaken a} (λ l rows m. m) key identity expected now
        lane).after
      lane held
kept a (Call.set_memory key before later now) lane e held =
    (Stays-record_memory_state {P = IsTaken a} (λ l rows m. m) key before later now).after lane held
kept a (Call.set_evidence key evidence now) lane e held =
    (Stays-record_evidence {P = IsTaken a} (λ l rows m. m) key evidence now).after lane held
kept a (Call.issue key name lease now) lane e held =
    (Stays-issue_fencing_token {P = IsTaken a} (λ l rows m. m) key name lease now).after lane held
kept a (Call.acquire b) lane e held =
    acquired_by_another a.profile_name a.invocation_id (expiry_of a) b lane e held
kept a (Call.release name key token) lane e held =
    (released_by_another a.profile_name a.invocation_id (expiry_of a) name key token e).after lane
      held
kept a (Call.free now) lane e held =
    freed_by_another a.profile_name a.invocation_id (expiry_of a) now lane e held
kept a (Call.renew name key token extension now) lane e held =
    renewed_by_another a.profile_name a.invocation_id (expiry_of a) name key token extension now
      lane e held

all_kept :
    (a : Acquisition) (calls : List Call) (lane : Lane)
    → all (respects_lease a.profile_name a.invocation_id (expiry_of a)) calls ≡ true
    → IsTaken a lane
    → IsTaken a (after_all calls lane)
unfolding after_all
all_kept a [] lane e held = held
all_kept a (call ∷ calls) lane e held =
    all_kept a calls (after call lane) (ground (arith, e))
      (kept a call lane (ground (arith, e)) held)

-- A look-up before the lease of a row ends names its holder.
names_holder :
    (profile : String) (now : ℕ) (lane : Lane) (row : LockRow)
    → select_lock profile lane ≡ some row
    → leb row.lease_expires_at now ≡ false
    → profile_is_locked profile now lane ≡ some row.invocation_id
unfolding profile_is_locked
names_holder profile now lane row found late = ground (arith, found, late)

-- An invocation that has acquired a profile keeps it until its lease ends, whatever calls follow one
-- another before then that neither are its own acquisition, release or renewal of that profile nor
-- release the profile without naming an invocation and a token: another invocation that asks for the
-- profile in that time is turned away and changes nothing, and a look-up names the holder. The
-- exception is needed: a release that names no token frees the profile, whoever calls it.
pub lease_is_exclusive :
    (a b : Acquisition) (lane : Lane) (calls : List Call) (key : Option String)
    → (acquire_profile_lock a lane).0 ≡ ok tt
    → all (respects_lease a.profile_name a.invocation_id (expiry_of a)) calls ≡ true
    → b.profile_name ≡ a.profile_name
    → b.invocation_id ≢ a.invocation_id
    → b.now < expiry_of a
    → let last = after_all calls (acquire_profile_lock a lane).1 in
      (acquire_profile_lock b last ≡ (err lock_held, last))
      × (profile_is_locked a.profile_name b.now last ≡ some a.invocation_id)
      × (profile_is_locked a.profile_name b.now
            (release_profile_lock a.profile_name key none last).1
          ≡ none)
lease_is_exclusive a b lane calls key e others same differ early =
    let last = after_all calls (acquire_profile_lock a lane).1 in
    let held : IsTaken a last =
      all_kept a calls (acquire_profile_lock a lane).1 others (acquired a lane e) in
    let other : (b.invocation_id == a.invocation_id) ≡ false =
      elim (Bool-cases (b.invocation_id == a.invocation_id)) [
        | inr apart ↦ apart
        | inl hit ↦ absurd (differ ((eq_iff b.invocation_id a.invocation_id).0 hit))
      ] in
    let (row, found, named, until) =
      held_row a.profile_name a.invocation_id (expiry_of a) last held in
    let late : leb row.lease_expires_at b.now ≡ false = ground (arith, early, until) in
    (
      turned_away a.profile_name a.invocation_id (expiry_of a) b last same other early held,
      names_holder a.profile_name b.now last row found late ∙ ap some named,
      let_go a.profile_name b.now key last,
    )
