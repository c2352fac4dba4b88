-- ===== src/Diagnostics/Store/Statuses/Final.antt =====
-- A status that has ended stays, whatever calls follow one another.
use mathlib.Core.Path.{subst}
use model_forge.Prelude.{String, true, ◌≡◌, refl, inl, inr, some, List, [], ◌∷◌, arith}
use model_forge.Diagnostics.States.{DiagnosticState, is_valid_transition, is_terminal}
use model_forge.Diagnostics.Store.{InvocationRow, Lane, get_invocation}
use model_forge.Diagnostics.Store.Frames.{
  Stays-issue_fencing_token, Stays-acquire_profile_lock, Stays-release_profile_lock,
  Stays-reconcile_locks, Stays-renew_profile_lease,
}
use model_forge.Diagnostics.Store.Calls.{Call, after, after_all}
use model_forge.Diagnostics.Store.Statuses.{Reaches, Fits, Moved}
use model_forge.Diagnostics.Store.Statuses.Steps.{
  created, identified, remembered, evidenced, status_moves,
}

-- A call moves the status along a valid transition, or leaves it.
call_moves :
    (key : String) (call : Call) (lane : Lane) (row : InvocationRow)
    → get_invocation key lane ≡ some row
    → Moved key row.status (after call lane)
unfolding after
call_moves key (Call.create c) lane row found =
    (created key (Fits row.status) c lane).after lane (row, found, inl refl)
call_moves key (Call.set_status u) lane row found = status_moves key u lane row found
call_moves key (Call.set_identity other identity expected now) lane row found =
    (identified key (Fits row.status) other identity expected now lane).after lane
      (row, found, inl refl)
call_moves key (Call.set_memory other before later now) lane row found =
    (remembered key (Fits row.status) other before later now).after lane (row, found, inl refl)
call_moves key (Call.set_evidence other evidence now) lane row found =
    (evidenced key (Fits row.status) other evidence now).after lane (row, found, inl refl)
call_moves key (Call.issue other holder lease now) lane row found =
    (Stays-issue_fencing_token {P = Moved key row.status} (λ l rows m. m) other holder lease
        now).after
      lane (row, found, inl refl)
call_moves key (Call.acquire a) lane row found =
    (Stays-acquire_profile_lock {P = Moved key row.status} (λ l rows m. m) a).after lane
      (row, found, inl refl)
call_moves key (Call.release profile other token) lane row found =
    (Stays-release_profile_lock {P = Moved key row.status} (λ l rows m. m) profile other
        token).after
      lane (row, found, inl refl)
call_moves key (Call.free now) lane row found =
    (Stays-reconcile_locks {P = Moved key row.status} (λ l rows m. m) now).after lane
      (row, found, inl refl)
call_moves key (Call.renew profile other token extension now) lane row found =
    (Stays-renew_profile_lease {P = Moved key row.status} (λ l rows m. m) profile other token
        extension now).after
      lane (row, found, inl refl)

reached :
    {state next last : DiagnosticState} → Fits state next → Reaches next last → Reaches state last
reached {last = last} (inl same) path = subst (λ s. Reaches s last) same path
reached (inr valid) path = Reaches.step valid path

-- Whatever calls follow one another, an invocation stays in the database, and its status is the one it
-- had or one that valid transitions lead to from there.
pub statuses_follow :
    (key : String) (calls : List Call) (lane : Lane) (row : InvocationRow)
    → get_invocation key lane ≡ some row
    → (last : InvocationRow) × (get_invocation key (after_all calls lane) ≡ some last)
      × Reaches row.status last.status
unfolding after_all
statuses_follow key [] lane row found = (row, found, Reaches.here)
statuses_follow key (call ∷ calls) lane row found =
    let (next, found', fits) = call_moves key call lane row found in
    let (last, found'', path) = statuses_follow key calls (after call lane) next found' in
    (last, found'', reached fits path)

ends : {state last : DiagnosticState} → is_terminal state ≡ true → Reaches state last → last ≡ state
unfolding is_valid_transition
ends terminal Reaches.here = refl
ends terminal (Reaches.step valid path) = ground (arith, valid, terminal)

-- An invocation with a terminal status keeps it, whatever calls follow one another.
pub terminal_is_final :
    (key : String) (calls : List Call) (lane : Lane) (row : InvocationRow)
    → get_invocation key lane ≡ some row
    → is_terminal row.status ≡ true
    → (last : InvocationRow) × (get_invocation key (after_all calls lane) ≡ some last)
      × (last.status ≡ row.status)
terminal_is_final key calls lane row found terminal =
    let (last, found', path) = statuses_follow key calls lane row found in
    (last, found', ends terminal path)
