-- ===== src/Storage/Database/Rules.antt =====
-- How a sequence of statements that returned has run, step by step.
use model_forge.Prelude.{String, ◌≡◌, refl, Option, none, some, Result, ok, err, ◌⊎◌, inl, inr}
use model_forge.Storage.Database.{Tx, or_raise, settle, immediate_transaction, and_then, ◌>>=◌}

module _ {S A B : Type 0} where
  and_then-ok :
      (r : Result A) (f : A → Tx S B) (s : S) {b : B}
      → (and_then r f s).0 ≡ ok b
      → (a : A) × (r ≡ ok a) × (and_then r f s ≡ f a s)
  and_then-ok (ok a) f s h = (a, refl, refl)
  and_then-ok (err e) f s h = cc

  -- A sequence that returned: its first part returned, and the rest went on from there.
  pub >>=-ok :
      (m : Tx S A) (f : A → Tx S B) (s : S) {b : B}
      → ((m >>= f) s).0 ≡ ok b
      → (a : A) × ((m s).0 ≡ ok a) × ((m >>= f) s ≡ f a (m s).1)
  >>=-ok m f s h = and_then-ok (m s).0 f (m s).1 h

module _ {S A : Type 0} where
  pub or_raise-ok :
      (e : String) (o : Option A) (s : S) {a : A} → (or_raise e o s).0 ≡ ok a → o ≡ some a
  or_raise-ok e none s h = cc
  or_raise-ok e (some x) s h = cc

  settle_cases :
      (before : S) (r : Result A) (after : S)
      → ((a : A) × (r ≡ ok a) × (settle before r after ≡ (ok a, after)))
        ⊎ ((e : String) × (r ≡ err e) × (settle before r after ≡ (err e, before)))
  settle_cases before (ok a) after = inl (a, refl, refl)
  settle_cases before (err e) after = inr (e, refl, refl)

  -- A transaction ends with what its body wrote, or with what was there before.
  pub transaction_cases :
      (body : Tx S A) (s : S)
      → ((a : A) × ((body s).0 ≡ ok a) × (immediate_transaction body s ≡ (ok a, (body s).1)))
        ⊎ ((e : String) × ((body s).0 ≡ err e) × (immediate_transaction body s ≡ (err e, s)))
  unfolding immediate_transaction
  transaction_cases body s = settle_cases s (body s).0 (body s).1

  -- The state after a transaction is its body's if the body returned, else the state before.
  pub transaction_state :
      (body : Tx S A) (P : S → Type 0) (s : S)
      → P s
      → ((a : A) → (body s).0 ≡ ok a → P (body s).1)
      → P (immediate_transaction body s).1
  transaction_state body P s before after = elim (transaction_cases body s) [
    | inl (a, returned, e) ↦ rw e (after a returned)
    | inr (x, raised, e) ↦ rw e before
  ]
