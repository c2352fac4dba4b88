-- ===== src/Storage/Database/Keeps.antt =====
-- Invariants of statements, one rule for each way to build them. Statements keep a predicate if it
-- holds after every run that returned: what a raise leaves behind is rolled back.
use model_forge.Prelude.{
  String, ◌≡◌, refl, Bool, true, false, Option, none, some, Result, ok, err, Bool-cases, inl, inr,
  if◌then◌else◌,
}
use model_forge.Storage.Database.{
  Tx, pure, raise, lift, gets, or_raise, on_row, immediate_transaction, ◌>>=◌,
}
use model_forge.Storage.Database.Rules.{>>=-ok, transaction_state}

pub record Keeps {S A : Type 0} (P : S → Type 0) (m : Tx S A) : Type 0 where
  pub at : (s : S) (a : A) → (m s).0 ≡ ok a → P s → P (m s).1

module _ {S A : Type 0} {P : S → Type 0} where
  pub Keeps-lift : (r : Result A) → Keeps P (lift r)
  Keeps-lift r = record { at = λ s b returned here. here }

  pub Keeps-raise : (e : String) → Keeps P (raise {A = A} e)
  Keeps-raise e = record { at = λ s b returned here. here }

  pub Keeps-gets : (read : S → A) → Keeps P (gets read)
  Keeps-gets read = record { at = λ s b returned here. here }

  pub Keeps-pure : (value : A) → Keeps P (pure value)
  Keeps-pure value = record { at = λ s b returned here. here }

  pub Keeps-or_raise : (x : String) (o : Option A) → Keeps P (or_raise x o)
  Keeps-or_raise x none = record { at = λ s b e h. h }
  Keeps-or_raise x (some a) = record { at = λ s b e h. h }

  pub Keeps-if :
      (test : Bool) (here there : Tx S A)
      → (test ≡ true → Keeps P here)
      → (test ≡ false → Keeps P there)
      → Keeps P (if test then here else there)
  Keeps-if true here there k k' = k refl
  Keeps-if false here there k k' = k' refl

  pub Keeps-on_row :
      {Row : Type 0} (o : Option Row) (f : Row → Tx S A) (n : Tx S A)
      → ((row : Row) → Keeps P (f row))
      → Keeps P n
      → Keeps P (on_row o f n)
  Keeps-on_row none f n kf kn = kn
  Keeps-on_row (some row) f n kf kn = kf row

  -- A transaction keeps what its body keeps, whether it returns or raises.
  pub transaction-Keeps : (m : Tx S A) → Keeps P m → (s : S) → P s → P (immediate_transaction m s).1
  transaction-Keeps m km s h = transaction_state m P s h (λ a e. km.at s a e h)

  pub Keeps-transaction : (m : Tx S A) → Keeps P m → Keeps P (immediate_transaction m)
  Keeps-transaction m km = record { at = λ s a e h. transaction-Keeps m km s h }

-- An insert, which writes if the constraints hold.
pub Keeps-insert :
    {S : Type 0} {P : S → Type 0} (test : S → Bool) (write : S → S) (x : String)
    → ((s : S) → P s → P (write s))
    → Keeps P (λ s. if test s then (ok tt, write s) else (err x, s))
Keeps-insert {P = P} test write x kept = record {
  at = λ s a e h. elim (Bool-cases (test s)) [
    | inl met ↦ rw met (kept s h)
    | inr unmet ↦ rw unmet h
  ];
}

module _ {S A B : Type 0} {P : S → Type 0} where
  pub Keeps-bind :
      (first : Tx S A) (next : A → Tx S B)
      → Keeps P first
      → ((a : A) → Keeps P (next a))
      → Keeps P (first >>= next)
  Keeps-bind first next k k' = record {
    at = λ s b e h.
        let (a, returned, rest) = >>=-ok first next s e in
        rw rest ((k' a).at (first s).1 b (rw rest at e) (k.at s a returned h));
  }

pub ruleset keeps_rules = (
  Keeps-pure, Keeps-raise, Keeps-lift, Keeps-gets, Keeps-or_raise, Keeps-if, Keeps-on_row,
  Keeps-transaction, Keeps-bind,
)
