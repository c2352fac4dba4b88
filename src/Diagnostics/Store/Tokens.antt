-- ===== src/Diagnostics/Store/Tokens.antt =====
-- The fencing token of an invocation over calls of `DiagnosticStore` of
-- src/model_forge/diagnostics/store.py.
pub mod Growth
pub mod Fence
use model_forge.Prelude.{ℕ, String}
use model_forge.Diagnostics.Store.{TokenRow, Lane, select_token}
use model_forge.Diagnostics.Store.Fencing.{current_token}

-- The token of an invocation in the database, 0 where there is none.
abbrev pub token_of : String → Lane → ℕ
token_of key lane = current_token (select_token key lane)

-- What `ON CONFLICT … DO UPDATE` makes of the row.
abbrev pub renewed : TokenRow → TokenRow → TokenRow
renewed new row = record row {
  token = new.token;
  holder = new.holder;
  lease_expires_at = new.lease_expires_at;
  updated_at = new.updated_at;
}
