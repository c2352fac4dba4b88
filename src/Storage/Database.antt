-- ===== src/Storage/Database.antt =====
-- src/model_forge/storage/database.py: statements on one connection, and the transaction that commits
-- them together or rolls them back.
pub mod Rules
pub mod Keeps
pub mod Atomic
pub mod Stays
use model_forge.Prelude.{String, Option, none, some, Result, ok, err}

-- Statements that read and write the state `S` and may raise. What was written before the raise is
-- still there until a transaction rolls it back.
abbrev pub Tx {ℓ} : Type ℓ → Type ℓ → Type ℓ
Tx S A = S → Result A × S

module _ {S A : Type 0} where
  abbrev pub pure : A → Tx S A
  pure a s = (ok a, s)

  abbrev pub raise : String → Tx S A
  raise e s = (err e, s)

  -- A check that touches no state.
  abbrev pub lift : Result A → Tx S A
  lift r s = (r, s)

  -- `SELECT`: reads and changes nothing.
  abbrev pub gets : (S → A) → Tx S A
  gets f s = (ok (f s), s)

  -- `row = ….fetchone(); if row is None: raise`
  abbrev pub or_raise : String → Option A → Tx S A
  or_raise e none = raise e
  or_raise e (some a) = pure a

  -- `if row is not None: …`, and what follows where it is.
  abbrev pub on_row : {Row : Type 0} → Option Row → (Row → Tx S A) → Tx S A → Tx S A
  on_row none present absent = absent
  on_row (some row) present absent = present row

  abbrev pub settle : S → Result A → S → Result A × S
  settle before (ok a) after = (ok a, after)
  settle before (err e) after = (err e, before)

  -- `Database.immediate_transaction`: the changes of a body that raises are rolled back.
  unfoldable pub immediate_transaction : Tx S A → Tx S A
  immediate_transaction body before =
      let (result, after) = body before in settle before result after

module _ {S A B : Type 0} where
  abbrev pub and_then : Result A → (A → Tx S B) → Tx S B
  and_then (ok a) f s = f a s
  and_then (err e) f s = (err e, s)

  infixl 5 ◌>>=◌ ◌>>◌
  abbrev pub ◌>>=◌ : Tx S A → (A → Tx S B) → Tx S B
  ◌>>=◌ m f s = let (r, s') = m s in and_then r f s'

  abbrev pub ◌>>◌ : Tx S A → Tx S B → Tx S B
  m >> n = m >>= λ _. n
