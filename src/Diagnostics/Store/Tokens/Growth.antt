-- ===== src/Diagnostics/Store/Tokens/Growth.antt =====
-- No call lowers a token.
use model_forge.Prelude.{
  ℕ, ◌≤◌, String, ◌==◌, ◌≡◌, refl, ap, sym, ◌∙◌, inl, inr, Bool-cases, Option, none, some, any,
  List, [], ◌∷◌, arith, eq_iff,
}
use model_forge.Storage.Database.{pure}
use model_forge.Storage.Database.Rules.{transaction_state}
use model_forge.Storage.Database.Stays.{Stays-pure, continued}
use model_forge.Storage.Schema.Tables.{find?-test, find?-update, map_found}
use model_forge.Diagnostics.Store.{TokenRow, Lane, select_token, has_invocation}
use model_forge.Diagnostics.Store.Fencing.{
  current_token, upsert_token, new_token, issue_token, issue_fencing_token,
}
use model_forge.Diagnostics.Store.Frames.{
  Stays-create_invocation, Stays-update_status, Stays-update_process_identity,
  Stays-record_memory_state, Stays-record_evidence, Stays-acquire_profile_lock,
  Stays-release_profile_lock, Stays-reconcile_locks, Stays-renew_profile_lease,
}
use model_forge.Diagnostics.Store.Calls.{Call, after, after_all}
use model_forge.Diagnostics.Store.Tokens.{token_of, renewed}

found_token :
    (n : ℕ) (key : String) (new : TokenRow) (found : Option TokenRow)
    → (new.invocation_id ≡ key → n ≤ new.token)
    → ((row : TokenRow) → found ≡ some row → row.invocation_id ≡ key)
    → n ≤ current_token found
    → n
      ≤ current_token
          (map_found (λ row. row.invocation_id == new.invocation_id) (renewed new) found)
found_token n key new none fresh here h = h
found_token n key new (some row) fresh here h =
    elim (Bool-cases (row.invocation_id == new.invocation_id)) [
      | inl same ↦
          rw same
            (fresh (sym ((eq_iff row.invocation_id new.invocation_id).0 same) ∙ here row refl))
      | inr other ↦ rw other h
    ]

-- Setting a token does not lower the one of any invocation, unless it is lower.
upsert-≤ :
    (n : ℕ) (key : String) (new : TokenRow) (lane : Lane)
    → (new.invocation_id ≡ key → n ≤ new.token)
    → n ≤ token_of key lane
    → n ≤ token_of key (upsert_token new lane).1
unfolding upsert_token
upsert-≤ n key new lane fresh h =
    elim (Bool-cases (any (λ row. row.invocation_id == new.invocation_id) lane.tokens)) [
      | inl present ↦
          rw
            (
              present,
              find?-update (λ row. row.invocation_id == key)
                  (λ row. row.invocation_id == new.invocation_id) (renewed new) lane.tokens
                  (λ row. refl),
            )
            (found_token n key new (select_token key lane) fresh
              (λ row e.
                (eq_iff row.invocation_id key).0
                  (find?-test (λ row. row.invocation_id == key) lane.tokens row e))
              h)
      | inr absent ↦ rw absent (elim (Bool-cases (has_invocation lane new.invocation_id)) [
        | inr unmet ↦ rw unmet h
        | inl met ↦ rw met (elim (Bool-cases (new.invocation_id == key)) [
          | inl same ↦ rw same (fresh ((eq_iff new.invocation_id key).0 same))
          | inr other ↦ rw other h
        ])
      ])
    ]

issue-≤ :
    (n : ℕ) (key other holder : String) (lease_seconds now : ℕ) (lane : Lane)
    → n ≤ token_of key lane
    → n ≤ token_of key (issue_fencing_token other holder lease_seconds now lane).1
unfolding issue_fencing_token issue_token
issue-≤ n key other holder lease_seconds now lane h =
    let new : TokenRow = new_token other holder lease_seconds now (select_token other lane) in
    transaction_state (issue_token other holder lease_seconds now) (λ l. n ≤ token_of key l) lane h
      (λ a e.
        continued {P = λ l. n ≤ token_of key l} (upsert_token new lane).0 (λ _. pure new)
          (upsert_token new lane).1 (λ _. Stays-pure new)
          (upsert-≤ n key new lane (λ same. omega (arith, ap (λ k. token_of k lane) same, h)) h))

-- No call lowers a token.
pub after-≤ :
    (n : ℕ) (key : String) (call : Call) (lane : Lane)
    → n ≤ token_of key lane
    → n ≤ token_of key (after call lane)
unfolding after
after-≤ n key (Call.create c) lane h =
    (Stays-create_invocation {P = λ l. n ≤ token_of key l} (λ l rows m. m) c lane).after lane h
after-≤ n key (Call.set_status u) lane h =
    (Stays-update_status {P = λ l. n ≤ token_of key l} (λ l rows m. m) u lane lane).after lane h
after-≤ n key (Call.set_identity other identity expected now) lane h =
    (Stays-update_process_identity {P = λ l. n ≤ token_of key l} (λ l rows m. m) other identity
        expected now lane).after
      lane h
after-≤ n key (Call.set_memory other before later now) lane h =
    (Stays-record_memory_state {P = λ l. n ≤ token_of key l} (λ l rows m. m) other before later
        now).after
      lane h
after-≤ n key (Call.set_evidence other evidence now) lane h =
    (Stays-record_evidence {P = λ l. n ≤ token_of key l} (λ l rows m. m) other evidence now).after
      lane h
after-≤ n key (Call.issue other holder lease now) lane h =
    issue-≤ n key other holder lease now lane h
after-≤ n key (Call.acquire a) lane h =
    (Stays-acquire_profile_lock {P = λ l. n ≤ token_of key l} (λ l rows m. m) a).after lane h
after-≤ n key (Call.release profile other token) lane h =
    (Stays-release_profile_lock {P = λ l. n ≤ token_of key l} (λ l rows m. m) profile other
        token).after
      lane h
after-≤ n key (Call.free now) lane h =
    (Stays-reconcile_locks {P = λ l. n ≤ token_of key l} (λ l rows m. m) now).after lane h
after-≤ n key (Call.renew profile other token extension now) lane h =
    (Stays-renew_profile_lease {P = λ l. n ≤ token_of key l} (λ l rows m. m) profile other token
        extension now).after
      lane h

-- Nor do calls that follow one another.
pub after_all-≤ :
    (n : ℕ) (key : String) (calls : List Call) (lane : Lane)
    → n ≤ token_of key lane
    → n ≤ token_of key (after_all calls lane)
unfolding after_all
after_all-≤ n key [] lane h = h
after_all-≤ n key (call ∷ calls) lane h =
    after_all-≤ n key calls (after call lane) (after-≤ n key call lane h)
