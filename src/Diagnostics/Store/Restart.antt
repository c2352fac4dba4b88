-- ===== src/Diagnostics/Store/Restart.antt =====
-- `list_nonterminal_invocations` and `reconcile_nonterminal_invocations` of
-- src/model_forge/diagnostics/store.py, with no call of others in between.
pub mod Settled
use model_forge.Prelude.{
  ℕ, String, ◌==◌, Bool, not, Option, none, some, List, [], ◌∷◌, nat_eq, leb, Result, ok, err,
  if◌then◌else◌,
}
use model_forge.Digests.Json.{ℤ}
use model_forge.Storage.Text.{codes}
use model_forge.Storage.Database.{Tx, pure, lift, gets, ◌>>=◌, ◌>>◌}
use model_forge.Diagnostics.States.{DiagnosticState, state_value, is_terminal}
use model_forge.Diagnostics.Store.{InvocationRow, Lane}
use model_forge.Diagnostics.Store.Invocations.{StatusUpdate, update_status, state_transition_error}

-- `int` of a text, where it is a number, and whether `os.kill(pid, 0)` returns or raises an `OSError`;
-- it may raise something else.
pub record Host : Type 0 where
  pub int_of : List ℕ → Option ℤ
  pub probe : ℤ → Result Bool

abbrev after_prefix : (prefix text : List ℕ) → Option (List ℕ)
after_prefix [] text = some text
after_prefix (c ∷ prefix) [] = none
after_prefix (c ∷ prefix) (d ∷ text) = if nat_eq c d then after_prefix prefix text else none

-- What follows the first `pid:`.
unfoldable pub after_marker : List ℕ → Option (List ℕ)
after_marker [] = none
after_marker (c ∷ text) =
    let later = after_marker text in
    elim (after_prefix (codes "pid:") (c ∷ text)) [ some rest ↦ some rest | none ↦ later ]

-- `.split("pid:")[1].split(":")[0]` of that: what stands before the next colon or `pid:`.
unfoldable pub before_colon : List ℕ → List ℕ
before_colon [] = []
before_colon (c ∷ text) =
    let rest = before_colon text in
    if nat_eq c b':'
    then []
    else elim (after_prefix (codes "pid:") (c ∷ text)) [ some _ ↦ [] | none ↦ c ∷ rest ]

unfoldable pub pid_of : Host → (external_execution_id : Option String) → Option ℤ
pid_of host none = none
pid_of host (some external) = elim (after_marker (codes external)) [
  | none ↦ none
  | some rest ↦ host.int_of (before_colon rest)
]

unfoldable pub is_running : Host → (external_execution_id : Option String) → Result Bool
is_running host external = elim (pid_of host external) [
  | none ↦ ok Bool.false
  | some pid ↦ host.probe pid
]

-- `ORDER BY created_at`
unfoldable pub insert_by_age : InvocationRow → List InvocationRow → List InvocationRow
insert_by_age new [] = new ∷ []
insert_by_age new (row ∷ rows) =
    let rest = insert_by_age new rows in
    if leb new.created_at row.created_at then new ∷ row ∷ rows else row ∷ rest

unfoldable pub nonterminal : List InvocationRow → List InvocationRow
nonterminal [] = []
nonterminal (row ∷ rows) =
    let rest = nonterminal rows in if is_terminal row.status then rest else insert_by_age row rest

abbrev pub list_nonterminal_invocations : Lane → List InvocationRow
list_nonterminal_invocations lane = nonterminal lane.invocations

-- `{**inv, "reconciled_status": …}`
pub record Reconciled : Type 0 where
  pub invocation : InvocationRow
  pub reconciled_status : DiagnosticState

abbrev pub to_unresolved : (invocation_id : String) → (now : ℕ) → StatusUpdate
to_unresolved invocation_id now = record {
  invocation_id = invocation_id;
  status = "unresolved";
  external_execution_id = none;
  exit_code = none;
  summary = "";
  diagnostic_text = "";
  expected_token = none;
  now = now;
}

-- `except StateTransitionError: pass`
abbrev pub forgiven : Result (Unit {0}) → Result (Unit {0})
forgiven (ok done) = ok done
forgiven (err e) = if e == state_transition_error then ok tt else err e

unfoldable pub mark_unresolved : (invocation_id : String) → (now : ℕ) → Tx Lane (Unit {0})
mark_unresolved invocation_id now lane =
    let (result, after) = update_status (to_unresolved invocation_id now) lane lane lane in
    (forgiven result, after)

-- One round of the loop; the clock is read once for each invocation.
unfoldable pub reconcile_invocation :
    Host → (clock : String → ℕ) → InvocationRow → Tx Lane Reconciled
reconcile_invocation host clock inv = do
  running ← lift (is_running host inv.external_execution_id)
  if running then pure (record { invocation = inv; reconciled_status = inv.status }) else (do
    mark_unresolved inv.invocation_id (clock inv.invocation_id)
    pure (record { invocation = inv; reconciled_status = DiagnosticState.unresolved }))

unfoldable pub reconcile_each :
    Host → (clock : String → ℕ) → List InvocationRow → Tx Lane (List Reconciled)
reconcile_each host clock [] = pure []
reconcile_each host clock (inv ∷ rest) = do
  first ← reconcile_invocation host clock inv
  others ← reconcile_each host clock rest
  pure (first ∷ others)

unfoldable pub reconcile_nonterminal_invocations :
    Host → (clock : String → ℕ) → Tx Lane (List Reconciled)
reconcile_nonterminal_invocations host clock = do
  rows ← gets list_nonterminal_invocations
  reconcile_each host clock rows
