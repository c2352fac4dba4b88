-- ===== src/Storage/Runs/Swap.antt =====
-- `_cas_run` and `compare_and_swap_run` of src/model_forge/storage/repository.py: one run moves to a
-- new status if it still has the expected one, and the move is recorded as an event.
pub mod Outcome
use model_forge.Prelude.{
  ℕ, ◌+◌, String, ◌==◌, Bool, true, false, not, ◌&&◌, ◌||◌, Option, none, some, ltb, nat_eq, find?,
  ok, if◌then◌else◌,
}
use model_forge.Storage.Text.{Payload, Timestamp, text, digest, json, time}
use model_forge.Storage.Database.{
  Tx, pure, raise, lift, gets, or_raise, immediate_transaction, ◌>>=◌, ◌>>◌,
}
use model_forge.Storage.Schema.Rows.{
  Hub, RunRow, EventRow, ManifestRow, SubmissionRow, update, rowcount,
}
use model_forge.Storage.Schema.Control.{insert_run_event}
use model_forge.Storage.Commands.{not_found}

-- `RunTransitionResult`
pub record RunTransition : Type 0 where
  pub applied : Bool
  pub reason : String
  pub run : RunRow

abbrev pub select_run : String → Hub → Option RunRow
select_run key h = find? (λ row. row.run_id == key) h.runs

abbrev pub select_event : String → Hub → Option EventRow
select_event key h = find? (λ row. row.event_id == key) h.run_events

abbrev pub select_manifest : String → Hub → Option ManifestRow
select_manifest key h = find? (λ row. row.run_id == key) h.run_manifests

abbrev pub select_submission : String → Hub → Option SubmissionRow
select_submission key h = find? (λ row. row.run_id == key) h.run_submissions

-- `_require_run`, also `get_run`
abbrev pub require_run : String → Tx Hub RunRow
require_run key = do row ← gets (select_run key); or_raise not_found row

-- A transition that was not applied, with its reason and the run as it stands.
abbrev pub refused : String → RunRow → Tx Hub RunTransition
refused reason run = pure (record { applied = false; reason = reason; run = run })

-- The arguments of `_cas_run`, payloads and time already as text.
pub record Swap : Type 0 where
  pub run_id : String
  pub expected_status : String
  pub expected_sequence : ℕ
  pub new_status : String
  pub payload_json : String
  pub event_id : String
  pub event_sha256 : String
  pub event_json : String
  pub at : String

-- `WHERE run_id = ? AND status = ? AND head_sequence = ?`
abbrev pub is_target : Swap → RunRow → Bool
is_target q row =
    row.run_id == q.run_id
    && row.status == q.expected_status
    && nat_eq row.head_sequence q.expected_sequence

-- What the `UPDATE` sets, `extra` being `extra_sql`.
abbrev pub swapped : Swap → (RunRow → RunRow) → RunRow → RunRow
swapped q extra row = extra (record row {
  status = q.new_status;
  head_sequence = q.expected_sequence + 1;
  payload_json = q.payload_json;
  updated_at = q.at;
})

abbrev pub swap_event : Swap → EventRow
swap_event q = record {
  event_id = q.event_id;
  run_id = q.run_id;
  sequence = q.expected_sequence + 1;
  status = q.new_status;
  event_sha256 = q.event_sha256;
  payload_json = q.event_json;
  recorded_at = q.at;
}

-- `connection.execute(UPDATE runs …)`, with its row count.
unfoldable pub update_run : Swap → (RunRow → RunRow) → Tx Hub ℕ
update_run q extra h = (
  ok (rowcount (is_target q) h.runs),
  record h { runs = update (is_target q) (swapped q extra) h.runs },
)

-- The writes at the end of `_cas_run`.
unfoldable pub write_swap : Swap → (RunRow → RunRow) → Tx Hub RunTransition
write_swap q extra = do
  changed ← update_run q extra
  if not (nat_eq changed 1)
      then (do current ← require_run q.run_id; refused "compare_and_swap_failed" current)
      else (do
        insert_run_event (swap_event q)
        current ← require_run q.run_id
        pure (record { applied = true; reason = "applied"; run = current }))

-- `_same(prior_event, …)`
abbrev pub same_event : Swap → EventRow → Bool
same_event q prior =
    prior.run_id == q.run_id
    && prior.status == q.new_status
    && prior.event_sha256 == q.event_sha256
    && prior.payload_json == q.event_json

-- The argument checks of `_cas_run`.
unfoldable pub check_swap : Swap → Tx Hub (Unit {0})
check_swap q = do
  lift (text q.run_id)
  lift (text q.expected_status)
  lift (text q.new_status)
  lift (text q.event_id)
  lift (digest q.event_sha256)
  if ltb q.expected_sequence 1 then raise "repository.invalid_sequence" else pure tt

-- What `_cas_run` does once it has read the event and the run.
unfoldable pub decide_swap :
    Swap → (RunRow → RunRow) → Option EventRow → RunRow → Tx Hub RunTransition
decide_swap q extra (some prior) run =
    if same_event q prior then refused "already_applied" run else raise "repository.event_id_reused"
decide_swap q extra none run =
    if not (run.status == q.expected_status) || not (nat_eq run.head_sequence q.expected_sequence)
    then refused "compare_and_swap_failed" run
    else write_swap q extra

-- The reads of `_cas_run`, and what follows from them.
unfoldable pub look_and_swap : Swap → (RunRow → RunRow) → Tx Hub RunTransition
look_and_swap q extra = do
  prior_event ← gets (select_event q.event_id)
  run ← require_run q.run_id
  decide_swap q extra prior_event run

unfoldable pub cas_run : Swap → (RunRow → RunRow) → Tx Hub RunTransition
cas_run q extra = do check_swap q; look_and_swap q extra

-- The arguments of a public method that moves a run.
pub record Move : Type 0 where
  pub run_id : String
  pub expected_status : String
  pub expected_sequence : ℕ
  pub new_status : String
  pub payload : Payload
  pub event_id : String
  pub event_sha256 : String
  pub event_payload : Payload
  pub recorded_at : Timestamp

abbrev pub swap_of : Move → (payload_json event_json at : String) → Swap
swap_of m payload_json event_json at = record {
  run_id = m.run_id;
  expected_status = m.expected_status;
  expected_sequence = m.expected_sequence;
  new_status = m.new_status;
  payload_json = payload_json;
  event_id = m.event_id;
  event_sha256 = m.event_sha256;
  event_json = event_json;
  at = at;
}

abbrev pub unchanged : RunRow → RunRow
unchanged row = row

-- The body of the transaction of `compare_and_swap_run`.
unfoldable pub move_run : Move → Tx Hub RunTransition
move_run m = do
  payload_json ← lift (json m.payload)
  event_json ← lift (json m.event_payload)
  at ← lift (time m.recorded_at)
  cas_run (swap_of m payload_json event_json at) unchanged

unfoldable pub compare_and_swap_run : Move → Tx Hub RunTransition
compare_and_swap_run m = immediate_transaction (move_run m)
