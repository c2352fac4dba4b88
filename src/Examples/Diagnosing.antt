-- ===== src/Examples/Diagnosing.antt =====
-- The theorems on diagnostic invocations, at a database with two of them.
use model_forge.Prelude.{
  false, ◌⊎◌, ℕ, true, eq_iff, ◌≢◌, ◌≤◌, String, ◌≡◌, refl, Option, none, some, List, [], ◌∷◌,
  length, ok, err, arith,
}
use model_forge.Storage.Database.{immediate_transaction}
use model_forge.Diagnostics.States.{
  DiagnosticState, state_value, state_of, same_state, is_terminal, allowed_transitions,
  is_valid_transition,
}
use model_forge.Diagnostics.States.Termination.{transitions_end}
use model_forge.Diagnostics.Store.{InvocationRow, TokenRow, Lane, empty_lane, get_invocation}
use model_forge.Diagnostics.Store.Invocations.{
  Creation, StatusUpdate, new_invocation, dumps, insert_invocation, add_invocation,
  create_invocation, update_status, update_process_identity, validate_fencing_token,
}
use model_forge.Diagnostics.Store.Fencing.{
  upsert_token, new_token, issue_token, issue_fencing_token,
}
use model_forge.Diagnostics.Store.Locks.{
  Acquisition, lock_held, overwrite_lock, insert_lock, take_lock, acquire_profile_lock,
  release_profile_lock, profile_is_locked,
}
use model_forge.Digests.Json.{ℤ}
use model_forge.Diagnostics.Store.Restart.{
  Host, after_marker, before_colon, pid_of, is_running, reconcile_invocation,
  reconcile_nonterminal_invocations,
}
use model_forge.Diagnostics.Store.Restart.Settled.{restart_settles, unresolved_is_reported}
use model_forge.Diagnostics.Store.Retrying.{create_again}
use model_forge.Diagnostics.Store.Calls.{Call, after_all}
use model_forge.Diagnostics.Store.Statuses.{Reaches}
use model_forge.Diagnostics.Store.Statuses.Final.{statuses_follow, terminal_is_final}
use model_forge.Diagnostics.Store.Tokens.Fence.{stale_writers_are_refused}
use model_forge.Diagnostics.Store.Leases.Exclusion.{lease_is_exclusive}

abbrev creation : String → Creation
creation invocation_id = record {
  invocation_id = invocation_id;
  project_id = "project-1";
  role = "analyst";
  profile_name = "careful";
  memory_policy = "persistent";
  idempotency_key = "";
  manifest_sha256 = none;
  payload = some "{}";
  now = 10;
}

-- One that is pending and one that has failed.
abbrev lane : Lane
lane = record {
  invocations =
      new_invocation (creation "inv-1") "{}"
      ∷ (record (new_invocation (creation "inv-2") "{}") { status = DiagnosticState.failed })
      ∷ [];
  tokens = [];
  locks = [];
}

abbrev asked : String → ℕ → Acquisition
asked invocation_id now = record {
  profile_name = "careful";
  invocation_id = invocation_id;
  token = 1;
  lease_seconds = 60;
  now = now;
}

abbrev to_status : String → String → Option ℕ → StatusUpdate
to_status invocation_id status expected = record {
  invocation_id = invocation_id;
  status = status;
  external_execution_id = none;
  exit_code = none;
  summary = "";
  diagnostic_text = "";
  expected_token = expected;
  now = 20;
}

-- Another invocation asks for the profile, releases it in its own name and frees what has expired.
abbrev others : List Call
others =
    Call.acquire (asked "inv-2" 30)
    ∷ Call.release "careful" (some "inv-2") (some 1)
    ∷ Call.free 40
    ∷ Call.create (creation "inv-3")
    ∷ Call.release "hasty" none none
    ∷ []

-- A start, a cancellation that is refused, and a new token.
abbrev moves : List Call
moves =
    Call.set_status (to_status "inv-1" "preflight" none)
    ∷ Call.set_status (to_status "inv-1" "succeeded" none)
    ∷ Call.set_status (to_status "inv-2" "running" none)
    ∷ Call.issue "inv-1" "worker" 60 50
    ∷ []

taken : (acquire_profile_lock (asked "inv-1" 20) lane).0 ≡ ok tt
unfolding acquire_profile_lock take_lock overwrite_lock insert_lock immediate_transaction
taken = refl

abbrev first_token : TokenRow
first_token = new_token "inv-1" "worker" 60 20 none

issued : (issue_fencing_token "inv-1" "worker" 60 20 lane).0 ≡ ok first_token
unfolding issue_fencing_token issue_token upsert_token immediate_transaction
issued = refl

preflight_known : state_of "preflight" ≡ some DiagnosticState.preflight
unfolding state_of state_value
preflight_known = refl

differ : (asked "inv-2" 50).invocation_id ≢ (asked "inv-1" 20).invocation_id
differ e = ground (arith, (eq_iff "inv-2" "inv-1").1 e)

ended : is_terminal DiagnosticState.failed ≡ true
unfolding is_terminal
ended = refl

lease_is_exclusive_example :
    let last = after_all others (acquire_profile_lock (asked "inv-1" 20) lane).1 in
    (acquire_profile_lock (asked "inv-2" 50) last ≡ (err lock_held, last))
    × (profile_is_locked "careful" 50 last ≡ some "inv-1")
    × (profile_is_locked "careful" 50 (release_profile_lock "careful" none none last).1 ≡ none)
lease_is_exclusive_example =
    lease_is_exclusive (asked "inv-1" 20) (asked "inv-2" 50) lane others none taken refl refl differ
      (omega arith)

stale_writers_are_refused_example :
    let last = after_all moves (issue_fencing_token "inv-1" "worker" 60 20 lane).1 in
    (validate_fencing_token "inv-1" 0 last ≡ err "FencingError")
    × (update_status (to_status "inv-1" "preflight" (some 0)) last last last
        ≡ (err "FencingError", last))
    × (update_process_identity "inv-1" (some "{}") (some 0) 70 last last
        ≡ (err "FencingError", last))
stale_writers_are_refused_example =
    stale_writers_are_refused "inv-1" "worker" 60 20 lane first_token moves 0
      (to_status "inv-1" "preflight" (some 0)) DiagnosticState.preflight (some "{}") 70 issued
      (omega arith) refl refl preflight_known

statuses_follow_example :
    (last : InvocationRow) × (get_invocation "inv-1" (after_all moves lane) ≡ some last)
    × Reaches DiagnosticState.pending last.status
statuses_follow_example =
    statuses_follow "inv-1" moves lane (new_invocation (creation "inv-1") "{}") refl

terminal_is_final_example :
    (last : InvocationRow) × (get_invocation "inv-2" (after_all moves lane) ≡ some last)
    × (last.status ≡ DiagnosticState.failed)
terminal_is_final_example =
    terminal_is_final "inv-2" moves lane
      (record (new_invocation (creation "inv-2") "{}") { status = DiagnosticState.failed }) refl
      ended

valid_1 : is_valid_transition DiagnosticState.pending DiagnosticState.preflight ≡ true
unfolding is_valid_transition is_terminal allowed_transitions same_state state_value
valid_1 = refl

valid_2 : is_valid_transition DiagnosticState.preflight DiagnosticState.failed ≡ true
unfolding is_valid_transition is_terminal allowed_transitions same_state state_value
valid_2 = refl

transitions_end_example : length (DiagnosticState.preflight ∷ DiagnosticState.failed ∷ []) ≤ 7
transitions_end_example =
    transitions_end DiagnosticState.pending
      (DiagnosticState.preflight ∷ DiagnosticState.failed ∷ []) (valid_1, (valid_2, tt))

-- A host whose processes are gone.
abbrev host : Host
host = record { int_of = λ text. some (ℤ.pos 7); probe = λ pid. ok false }

abbrev started : InvocationRow
started = record (new_invocation (creation "inv-4") "{}") {
  status = DiagnosticState.running;
  external_execution_id = some "pid:7:4";
}

abbrev ending : InvocationRow
ending = record (new_invocation (creation "inv-5") "{}") { status = DiagnosticState.terminating }

abbrev restarted : Lane
restarted = record empty_lane { invocations = started ∷ ending ∷ [] }

gone : is_running host (some "pid:7:4") ≡ ok false
unfolding is_running pid_of after_marker before_colon
gone = refl

running_differs : same_state DiagnosticState.running DiagnosticState.unresolved ≡ false
unfolding same_state state_value
running_differs = refl

running_refused : is_valid_transition DiagnosticState.running DiagnosticState.unresolved ≡ false
unfolding is_valid_transition is_terminal allowed_transitions same_state state_value
running_refused = refl

restart_settles_example :
    (last : InvocationRow) × (get_invocation "inv-5"
        (reconcile_nonterminal_invocations host (λ key. 90) restarted).1
      ≡ some last)
    × ((last.status ≡ DiagnosticState.terminating)
        ⊎ ((DiagnosticState.terminating ≡ DiagnosticState.terminating)
            × (last.status ≡ DiagnosticState.unresolved)))
restart_settles_example = restart_settles host (λ key. 90) "inv-5" restarted ending refl

unresolved_is_reported_example : reconcile_invocation host (λ key. 90) started restarted ≡ (
  ok (record { invocation = started; reconciled_status = DiagnosticState.unresolved }),
  restarted,
)
unresolved_is_reported_example =
    unresolved_is_reported host (λ key. 90) started restarted gone refl running_differs
      running_refused

-- Two creations with one key.
abbrev keyed : String → Creation
keyed invocation_id = record (creation invocation_id) { idempotency_key = "once" }

made : (create_invocation (keyed "inv-6") lane lane).0 ≡ ok "inv-6"
unfolding create_invocation add_invocation insert_invocation dumps immediate_transaction
made = refl

create_again_example :
    let last = after_all moves (create_invocation (keyed "inv-6") lane lane).1 in
    create_invocation (keyed "inv-7") last last ≡ (ok "inv-6", last)
create_again_example =
    create_again (keyed "inv-6") (keyed "inv-7") lane moves "inv-6" refl made refl
