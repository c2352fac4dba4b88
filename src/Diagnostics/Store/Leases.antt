-- ===== src/Diagnostics/Store/Leases.antt =====
-- What it is to hold a profile until an instant, and which calls of `DiagnosticStore` of
-- src/model_forge/diagnostics/store.py respect that.
pub mod Acquiring
pub mod Releasing
pub mod Exclusion
use model_forge.Prelude.{
  ℕ, String, ◌==◌, Bool, true, false, not, ◌&&◌, ◌||◌, ◌≡◌, Option, some, nat_eq, ltb, any, all,
}
use model_forge.Diagnostics.Store.{LockRow, Lane}
use model_forge.Diagnostics.Store.Locks.{Acquisition}
use model_forge.Diagnostics.Store.Calls.{Call}

module _ (profile holder : String) (expiry : ℕ) where
  -- A row of another profile, or the holder's with its lease.
  abbrev pub is_ours : LockRow → Bool
  is_ours row =
      not (row.profile_name == profile)
      || row.invocation_id == holder && nat_eq row.lease_expires_at expiry

  -- The holder has the profile until the expiry.
  abbrev pub IsHeld : Lane → Type 0
  IsHeld lane =
      (any (λ row. row.profile_name == profile) lane.locks ≡ true) × (all is_ours lane.locks ≡ true)

  -- A release that names an invocation and a token, and not the holder: it deletes no row of the
  -- holder. One that lacks either of them deletes the row of the profile, whose ever it is.
  abbrev of_another : Option String → Option ℕ → Bool
  of_another (some key) (some token) = not (key == holder)
  of_another _ _ = false

  -- A call that is no acquisition, release or renewal of the profile by the holder, no release of the
  -- profile without an invocation and a token, and no acquisition of it or reconciliation of the locks
  -- once the lease has ended.
  abbrev pub respects_lease : Call → Bool
  respects_lease (Call.acquire a) =
      not (a.profile_name == profile) || not (a.invocation_id == holder) && ltb a.now expiry
  respects_lease (Call.release name key token) = not (name == profile) || of_another key token
  respects_lease (Call.free now) = ltb now expiry
  respects_lease (Call.renew name key token extension now) =
      not (name == profile) || not (key == holder)
  respects_lease _ = true
