-- ===== src/Diagnostics/Store/Calls.antt =====
-- Calls of `DiagnosticStore` of src/model_forge/diagnostics/store.py that follow one another, from any
-- number of callers: each call finds the database that the one before it left.
use model_forge.Prelude.{ℕ, String, Option, List, [], ◌∷◌}
use model_forge.Storage.Text.{Payload}
use model_forge.Diagnostics.Store.{Lane}
use model_forge.Diagnostics.Store.Invocations.{
  Creation, StatusUpdate, create_invocation, update_status, update_process_identity,
  record_memory_state, record_evidence,
}
use model_forge.Diagnostics.Store.Fencing.{issue_fencing_token}
use model_forge.Diagnostics.Store.Locks.{
  Acquisition, acquire_profile_lock, release_profile_lock, reconcile_locks, renew_profile_lease,
}

pub data Call : Type 0 where
  create : Creation → Call
  set_status : StatusUpdate → Call
  set_identity :
      (invocation_id : String)
      → (identity : Payload) → (expected_token : Option ℕ) → (now : ℕ) → Call
  set_memory : (invocation_id : String) → (before after : Option Payload) → (now : ℕ) → Call
  set_evidence : (invocation_id : String) → (evidence : Payload) → (now : ℕ) → Call
  issue : (invocation_id holder : String) → (lease_seconds now : ℕ) → Call
  acquire : Acquisition → Call
  release : (profile_name : String) → (expected_invocation_id : Option String) → Option ℕ → Call
  free : (now : ℕ) → Call
  renew : (profile_name invocation_id : String) → (expected_token extension_seconds now : ℕ) → Call

-- The database after a call, whether it returned or raised.
unfoldable pub after : Call → Lane → Lane
after (Call.create c) lane = (create_invocation c lane lane).1
after (Call.set_status u) lane = (update_status u lane lane lane).1
after (Call.set_identity key identity expected now) lane =
    (update_process_identity key identity expected now lane lane).1
after (Call.set_memory key before later now) lane =
    (record_memory_state key before later now lane).1
after (Call.set_evidence key evidence now) lane = (record_evidence key evidence now lane).1
after (Call.issue key holder lease now) lane = (issue_fencing_token key holder lease now lane).1
after (Call.acquire a) lane = (acquire_profile_lock a lane).1
after (Call.release profile key token) lane = (release_profile_lock profile key token lane).1
after (Call.free now) lane = (reconcile_locks now lane).1
after (Call.renew profile key token extension now) lane =
    (renew_profile_lease profile key token extension now lane).1

unfoldable pub after_all : List Call → Lane → Lane
after_all [] lane = lane
after_all (call ∷ calls) lane = after_all calls (after call lane)
