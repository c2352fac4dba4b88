-- ===== src/Diagnostics/Store/Retrying.antt =====
-- A creation that is sent again with its idempotency key.
use text.Mathlib.TextPositions.{eq_refl}
use model_forge.Prelude.{
  String, ◌==◌, Bool, false, ◌||◌, ◌≡◌, refl, ap, ◌∙◌, inl, inr, Bool-cases, Option-cases, some, ok,
  any, List, [], ◌∷◌, arith,
}
use model_forge.Storage.Database.{immediate_transaction}
use model_forge.Storage.Database.Stays.{Stays, stays_rules}
use model_forge.Storage.Schema.Tables.{find?-update, map_found}
use model_forge.Diagnostics.Store.{InvocationRow, Lane}
use model_forge.Diagnostics.Store.Invocations.{
  Creation, find_by_idempotency_key, key_of, new_invocation, insert_invocation, add_invocation,
  create_invocation, update_invocation, update_status, update_process_identity, record_memory_state,
  record_evidence, dumps,
}
use model_forge.Diagnostics.Store.Rows.{unused_key}
use model_forge.Diagnostics.Store.Frames.{
  Stays-issue_fencing_token, Stays-acquire_profile_lock, Stays-release_profile_lock,
  Stays-reconcile_locks, Stays-renew_profile_lease,
}
use model_forge.Diagnostics.Store.Calls.{Call, after, after_all}

-- The key stands for the invocation.
abbrev StandsFor : (key invocation_id : String) → Lane → Type 0
StandsFor key invocation_id lane =
    (row : InvocationRow) × (find_by_idempotency_key key lane ≡ some row)
    × (row.invocation_id ≡ invocation_id)

found_as :
    (p : InvocationRow → Bool) (change : InvocationRow → InvocationRow) (row : InvocationRow)
    → ((r : InvocationRow) → (change r).invocation_id ≡ r.invocation_id)
    → (found : InvocationRow) × (map_found p change (some row) ≡ some found)
      × (found.invocation_id ≡ row.invocation_id)
found_as p change row keeps = elim (Bool-cases (p row)) [
  | inl hit ↦ (change row, rw hit refl, keeps row)
  | inr miss ↦ (row, rw miss refl, refl)
]

module _ (key id : String) where
  Stays-insert_invocation : (new : InvocationRow) → Stays (StandsFor key id) (insert_invocation new)
  unfolding insert_invocation
  Stays-insert_invocation new = record {
    after = λ lane (row, found, named).
        elim (Bool-cases (
          any
            (λ r. r.invocation_id == new.invocation_id || r.idempotency_key == new.idempotency_key)
            lane.invocations)) [
              | inl used ↦ (row, ground (arith, used, found), named)
              | inr unused ↦ (
                row,
                ground (
                  arith,
                  unused,
                  found,
                  unused_key (λ r. r.idempotency_key)
                      (λ r.
                        r.invocation_id == new.invocation_id
                        || r.idempotency_key == new.idempotency_key)
                      new.idempotency_key key lane.invocations row (λ r hit. ground (arith, hit))
                      unused found,
                ),
                named,
              )
            ];
  }

  Stays-update_invocation :
      (other : String) (change : InvocationRow → InvocationRow)
      → ((r : InvocationRow) → (change r).invocation_id ≡ r.invocation_id)
      → ((r : InvocationRow) → (change r).idempotency_key ≡ r.idempotency_key)
      → Stays (StandsFor key id) (update_invocation other change)
  unfolding update_invocation
  Stays-update_invocation other change keeps keeps_key = record {
    after = λ lane (row, found, named).
        let (row', found', same) = found_as (λ r. r.invocation_id == other) change row keeps in
        (
          row',
          rw
              (
                find?-update (λ r. r.idempotency_key == key) (λ r. r.invocation_id == other) change
                    lane.invocations (λ r. ap (λ k. k == key) (keeps_key r)),
                found,
              )
              found',
          same ∙ named,
        );
  }

  -- No call takes the key from the invocation.
  kept : (call : Call) (lane : Lane) → StandsFor key id lane → StandsFor key id (after call lane)
  unfolding after create_invocation add_invocation update_status update_process_identity
      record_memory_state record_evidence
  kept (Call.create c) lane stands =
      let stays : Stays (StandsFor key id) (create_invocation c lane) =
        search (stays_rules, Stays-insert_invocation) depth 40 in
      stays.after lane stands
  kept (Call.set_status u) lane stands =
      let stays : Stays (StandsFor key id) (update_status u lane lane) =
        search (stays_rules, Stays-update_invocation) depth 40 in
      stays.after lane stands
  kept (Call.set_identity other identity expected now) lane stands =
      let stays : Stays (StandsFor key id)
          (update_process_identity other identity expected now lane) =
        search (stays_rules, Stays-update_invocation) depth 40 in
      stays.after lane stands
  kept (Call.set_memory other before later now) lane stands =
      let stays : Stays (StandsFor key id) (record_memory_state other before later now) =
        search (stays_rules, Stays-update_invocation) depth 40 in
      stays.after lane stands
  kept (Call.set_evidence other evidence now) lane stands =
      let stays : Stays (StandsFor key id) (record_evidence other evidence now) =
        search (stays_rules, Stays-update_invocation) depth 40 in
      stays.after lane stands
  kept (Call.issue other holder lease now) lane stands =
      (Stays-issue_fencing_token {P = StandsFor key id} (λ l rows m. m) other holder lease
          now).after
        lane stands
  kept (Call.acquire a) lane stands =
      (Stays-acquire_profile_lock {P = StandsFor key id} (λ l rows m. m) a).after lane stands
  kept (Call.release profile other token) lane stands =
      (Stays-release_profile_lock {P = StandsFor key id} (λ l rows m. m) profile other token).after
        lane stands
  kept (Call.free now) lane stands =
      (Stays-reconcile_locks {P = StandsFor key id} (λ l rows m. m) now).after lane stands
  kept (Call.renew profile other token extension now) lane stands =
      (Stays-renew_profile_lease {P = StandsFor key id} (λ l rows m. m) profile other token
          extension now).after
        lane stands

  all_kept :
      (calls : List Call) (lane : Lane)
      → StandsFor key id lane
      → StandsFor key id (after_all calls lane)
  unfolding after_all
  all_kept [] lane stands = stands
  all_kept (call ∷ calls) lane stands = all_kept calls (after call lane) (kept call lane stands)

-- A creation with a key that returned an invocation leaves the key standing for it.
inserted :
    (c : Creation) (lane : Lane) (id : String)
    → (c.idempotency_key == "") ≡ false
    → (add_invocation c lane).0 ≡ ok id
    → StandsFor c.idempotency_key id (add_invocation c lane).1
unfolding add_invocation insert_invocation immediate_transaction dumps
inserted c lane id keyed e = elim (Option-cases c.payload) [
  | inl missing ↦ cc (rw missing at e)
  | inr (text, given) ↦
      elim (Bool-cases (
        any (λ r. r.invocation_id == c.invocation_id || r.idempotency_key == key_of c)
          lane.invocations)) [
            | inl used ↦ cc (rw (given, used) at e)
            | inr unused ↦
                let returned : ok c.invocation_id ≡ ok id = rw (given, unused) at e in
                rw (given, unused)
                  (new_invocation c text, rw (keyed, eq_refl c.idempotency_key) refl, cc returned)
          ]
]

claimed :
    (c : Creation) (lane : Lane) (id : String)
    → (c.idempotency_key == "") ≡ false
    → (create_invocation c lane lane).0 ≡ ok id
    → StandsFor c.idempotency_key id (create_invocation c lane lane).1
unfolding create_invocation
claimed c lane id keyed e = elim (Option-cases (find_by_idempotency_key c.idempotency_key lane)) [
  | inl absent ↦ rw (keyed, absent) (inserted c lane id keyed (rw (keyed, absent) at e))
  | inr (row, found) ↦ rw (keyed, found) (row, found, cc (rw (keyed, found) at e))
]

found_again :
    (c : Creation) (lane : Lane) (row : InvocationRow)
    → (c.idempotency_key == "") ≡ false
    → find_by_idempotency_key c.idempotency_key lane ≡ some row
    → create_invocation c lane lane ≡ (ok row.invocation_id, lane)
unfolding create_invocation
found_again c lane row keyed found = rw (keyed, found) refl

-- Once a creation with an idempotency key has returned an invocation, every creation with that key
-- returns the same one and changes nothing, whatever calls came in between.
pub create_again :
    (c again : Creation) (lane : Lane) (calls : List Call) (id : String)
    → (c.idempotency_key == "") ≡ false
    → (create_invocation c lane lane).0 ≡ ok id
    → again.idempotency_key ≡ c.idempotency_key
    → let last = after_all calls (create_invocation c lane lane).1 in
      create_invocation again last last ≡ (ok id, last)
create_again c again lane calls id keyed e same =
    let last = after_all calls (create_invocation c lane lane).1 in
    let (row, found, named) =
      all_kept c.idempotency_key id calls (create_invocation c lane lane).1
        (claimed c lane id keyed e) in
    let same_key : (again.idempotency_key == "") ≡ false = ap (λ k. k == "") same ∙ keyed in
    let read = ap (λ k. find_by_idempotency_key k last) same ∙ found in
    rw named at (found_again again last row same_key read)
