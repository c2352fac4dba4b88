-- ===== src/Diagnostics/Store/Fencing.antt =====
-- `issue_fencing_token` of src/model_forge/diagnostics/store.py, whose transaction begins deferred: it
-- returns only where no other write came between its read and its write.
use model_forge.Prelude.{
  ℕ, ◌+◌, String, ◌==◌, Option, none, some, ◌∷◌, any, ok, err, not, if◌then◌else◌,
}
use model_forge.Storage.Database.{Tx, pure, gets, immediate_transaction, ◌>>=◌, ◌>>◌}
use model_forge.Storage.Schema.Rows.{update, integrity_error}
use model_forge.Diagnostics.Store.{TokenRow, Lane, select_token, has_invocation, seconds}

-- `row[0] if row else 0`
abbrev pub current_token : Option TokenRow → ℕ
current_token none = 0
current_token (some row) = row.token

-- `INSERT … ON CONFLICT(invocation_id) DO UPDATE`, with the foreign key.
unfoldable pub upsert_token : TokenRow → Tx Lane (Unit {0})
upsert_token new lane =
    if any (λ row. row.invocation_id == new.invocation_id) lane.tokens
    then (
      ok tt,
      record lane {
        tokens =
            update (λ row. row.invocation_id == new.invocation_id)
              (λ row. record row {
                token = new.token;
                holder = new.holder;
                lease_expires_at = new.lease_expires_at;
                updated_at = new.updated_at;
              })
              lane.tokens;
      },
    )
    else if not (has_invocation lane new.invocation_id)
    then (err integrity_error, lane)
    else (ok tt, record lane { tokens = new ∷ lane.tokens })

-- `excluded`
abbrev pub new_token :
    (invocation_id holder : String) → (lease_seconds now : ℕ) → Option TokenRow → TokenRow
new_token invocation_id holder lease_seconds now row = record {
  invocation_id = invocation_id;
  token = current_token row + 1;
  holder = holder;
  lease_expires_at = now + seconds lease_seconds;
  updated_at = now;
}

-- The body of the transaction, and the token that is returned.
unfoldable pub issue_token :
    (invocation_id holder : String) → (lease_seconds now : ℕ) → Tx Lane TokenRow
issue_token invocation_id holder lease_seconds now = do
  row ← gets (select_token invocation_id)
  upsert_token (new_token invocation_id holder lease_seconds now row)
  pure (new_token invocation_id holder lease_seconds now row)

unfoldable pub issue_fencing_token :
    (invocation_id holder : String) → (lease_seconds now : ℕ) → Tx Lane TokenRow
issue_fencing_token invocation_id holder lease_seconds now =
    immediate_transaction (issue_token invocation_id holder lease_seconds now)
