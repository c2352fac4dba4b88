-- ===== src/Diagnostics/Store/Tokens/Fence.antt =====
-- Whoever holds an older token changes nothing.
use model_forge.Prelude.{
  ℕ, ◌+◌, ◌<◌, String, ◌==◌, ◌≡◌, refl, ap, sym, ◌∙◌, inl, inr, Bool-cases, Option-cases, some, ok,
  err, any, List, arith,
}
use text.Mathlib.TextPositions.{eq_refl}
use model_forge.Storage.Text.{Payload}
use model_forge.Storage.Database.{pure}
use model_forge.Storage.Database.Rules.{transaction_cases, >>=-ok}
use model_forge.Storage.Schema.Tables.{find?-test, find?-update, find?-any}
use model_forge.Diagnostics.States.{DiagnosticState, state_of}
use model_forge.Diagnostics.Store.{TokenRow, Lane, select_token, has_invocation}
use model_forge.Diagnostics.Store.Invocations.{
  StatusUpdate, guard_token, validate_fencing_token, update_status, update_process_identity,
}
use model_forge.Diagnostics.Store.Fencing.{
  upsert_token, new_token, issue_token, issue_fencing_token,
}
use model_forge.Diagnostics.Store.Calls.{Call, after_all}
use model_forge.Diagnostics.Store.Tokens.{token_of, renewed}
use model_forge.Diagnostics.Store.Tokens.Growth.{after_all-≤}

-- The token that was set stands in the database.
upsert-token :
    (new : TokenRow) (lane : Lane) {u : Unit {0}}
    → (upsert_token new lane).0 ≡ ok u
    → token_of new.invocation_id (upsert_token new lane).1 ≡ new.token
unfolding upsert_token
upsert-token new lane e =
    elim (Bool-cases (any (λ row. row.invocation_id == new.invocation_id) lane.tokens)) [
      | inl present ↦
          let (row, found) =
            find?-any (λ r. r.invocation_id == new.invocation_id) lane.tokens present in
          rw
            (
              present,
              find?-update (λ r. r.invocation_id == new.invocation_id)
                  (λ r. r.invocation_id == new.invocation_id) (renewed new) lane.tokens (λ r. refl),
              found,
              find?-test (λ r. r.invocation_id == new.invocation_id) lane.tokens row found,
            )
            refl
      | inr absent ↦ elim (Bool-cases (has_invocation lane new.invocation_id)) [
        | inr unmet ↦ cc (rw (absent, unmet) at e)
        | inl met ↦ rw (absent, met, eq_refl new.invocation_id) refl
      ]
    ]

-- The token that is issued is the one before and one more, and stands in the database.
pub issued_token :
    (key holder : String) (lease_seconds now : ℕ) (lane : Lane) (new : TokenRow)
    → (issue_fencing_token key holder lease_seconds now lane).0 ≡ ok new
    → (new.token ≡ token_of key lane + 1)
      × (token_of key (issue_fencing_token key holder lease_seconds now lane).1 ≡ new.token)
unfolding issue_fencing_token issue_token
issued_token key holder lease_seconds now lane new e =
    let made : TokenRow = new_token key holder lease_seconds now (select_token key lane) in
    elim (transaction_cases (issue_token key holder lease_seconds now) lane) [
      | inr (x, raised, done) ↦ cc (rw done at e)
      | inl (a, returned, done) ↦
          let (u, set, rest) = >>=-ok (upsert_token made) (λ _. pure made) lane returned in
          let first : ok made ≡ ok a = sym (ap (λ r. r.0) rest) ∙ returned in
          let last : ok a ≡ ok new = rw done at e in
          let same : made ≡ new = cc (first, last) in
          (
            rw (sym same) refl,
            rw (done, rest, upsert-token made lane set) (ap (λ row. row.token) same),
          )
    ]

-- A token that is not the one in the database is refused.
refused :
    (key : String) (older : ℕ) (lane : Lane)
    → older < token_of key lane
    → validate_fencing_token key older lane ≡ err "FencingError"
unfolding validate_fencing_token
refused key older lane h = elim (Option-cases (select_token key lane)) [
  | inl absent ↦ ground (arith, h, absent)
  | inr (row, found) ↦ ground (arith, h, found)
]

-- Once a token is issued, whoever holds an older one changes nothing, whatever calls came in between:
-- the older token is not valid, and updates of the status or of the process identity under it raise
-- and leave the database as it is. The update of the status asks for a known one.
pub stale_writers_are_refused :
    (key holder : String) (lease_seconds now : ℕ) (lane : Lane) (new : TokenRow) (calls : List Call)
    (older : ℕ) (u : StatusUpdate) (status : DiagnosticState) (identity : Payload) (later : ℕ)
    → (issue_fencing_token key holder lease_seconds now lane).0 ≡ ok new
    → older < new.token
    → u.invocation_id ≡ key
    → u.expected_token ≡ some older
    → state_of u.status ≡ some status
    → let last = after_all calls (issue_fencing_token key holder lease_seconds now lane).1 in
      (validate_fencing_token key older last ≡ err "FencingError")
      × (update_status u last last last ≡ (err "FencingError", last))
      × (update_process_identity key identity (some older) later last last
          ≡ (err "FencingError", last))
unfolding update_status update_process_identity guard_token
stale_writers_are_refused key holder lease_seconds now lane new calls older u status identity later
      e less same expected known =
    let last = after_all calls (issue_fencing_token key holder lease_seconds now lane).1 in
    let (_, stands) = issued_token key holder lease_seconds now lane new e in
    let kept =
      after_all-≤ new.token key calls (issue_fencing_token key holder lease_seconds now lane).1
        (omega (arith, stands)) in
    let stale : validate_fencing_token key older last ≡ err "FencingError" =
      refused key older last (omega (arith, less, kept)) in
    (stale, rw (known, same, expected, stale) refl, rw stale refl)
