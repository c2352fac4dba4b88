-- ===== src/Storage/Database/Stays.antt =====
-- Predicates that statements leave true however they end, also where they raise.
use model_forge.Prelude.{
  String, ◌≡◌, refl, Bool, true, false, Option, none, some, Result, ok, err, Bool-cases, inl, inr,
  if◌then◌else◌,
}
use model_forge.Storage.Database.{
  Tx, pure, raise, lift, gets, or_raise, on_row, immediate_transaction, and_then, ◌>>=◌,
}
use model_forge.Storage.Database.Rules.{transaction_state}

pub record Stays {S A : Type 0} (P : S → Type 0) (m : Tx S A) : Type 0 where
  pub after : (s : S) → P s → P (m s).1

module _ {S A : Type 0} {P : S → Type 0} where
  pub Stays-gets : (look : S → A) → Stays P (gets look)
  Stays-gets look = record { after = λ before holds. holds }

  pub Stays-or_raise : (e : String) (found : Option A) → Stays P (or_raise e found)
  Stays-or_raise e none = record { after = λ before holds. holds }
  Stays-or_raise e (some value) = record { after = λ before holds. holds }

  pub Stays-lift : (checked : Result A) → Stays P (lift checked)
  Stays-lift checked = record { after = λ before holds. holds }

  pub Stays-raise : (e : String) → Stays P (raise {A = A} e)
  Stays-raise e = record { after = λ before holds. holds }

  pub Stays-pure : (value : A) → Stays P (pure value)
  Stays-pure value = record { after = λ before holds. holds }

  pub Stays-on_row :
      {Row : Type 0} (found : Option Row) (present : Row → Tx S A) (absent : Tx S A)
      → ((row : Row) → Stays P (present row))
      → Stays P absent
      → Stays P (on_row found present absent)
  Stays-on_row none present absent k l = l
  Stays-on_row (some row) present absent k l = k row

  pub Stays-if :
      (test : Bool) (one other : Tx S A)
      → Stays P one
      → Stays P other
      → Stays P (if test then one else other)
  Stays-if true one other k l = k
  Stays-if false one other k l = l

  pub Stays-transaction : (body : Tx S A) → Stays P body → Stays P (immediate_transaction body)
  Stays-transaction body k = record {
    after = λ s holds. transaction_state body P s holds (λ a returned. k.after s holds);
  }

  -- A statement that writes if a test holds.
  pub Stays-write :
      (test : S → Bool) (value : S → A) (change : S → S) (e : String)
      → ((s : S) → P s → P (change s))
      → Stays P (λ s. if test s then (ok (value s), change s) else (err e, s))
  Stays-write test value change e kept = record {
    after = λ s holds. elim (Bool-cases (test s)) [
      | inl met ↦ rw met (kept s holds)
      | inr unmet ↦ rw unmet holds
    ];
  }

module _ {S A B : Type 0} {P : S → Type 0} where
  pub continued :
      (r : Result A) (next : A → Tx S B) (s : S)
      → ((a : A) → Stays P (next a))
      → P s
      → P (and_then r next s).1
  continued (ok a) next s k holds = (k a).after s holds
  continued (err e) next s k holds = holds

  pub Stays-bind :
      (first : Tx S A) (next : A → Tx S B)
      → Stays P first
      → ((a : A) → Stays P (next a))
      → Stays P (first >>= next)
  Stays-bind first next j k = record {
    after = λ s holds. continued (first s).0 next (first s).1 k (j.after s holds);
  }

-- A check before the rest, which starts in the same state.
pub after_check :
    {S A B : Type 0} (P : S → Type 0) (r : Result A) (next : A → Tx S B) (s : S)
    → P s
    → ((a : A) → P (next a s).1)
    → P ((lift r >>= next) s).1
after_check P (ok a) next s holds k = k a
after_check P (err e) next s holds k = holds

-- The same, where the rest depends on what the check returned.
pub after_passed_check :
    {S A B : Type 0} (P : S → Type 0) (r : Result A) (next : A → Tx S B) (s : S)
    → P s
    → ((a : A) → r ≡ ok a → P (next a s).1)
    → P ((lift r >>= next) s).1
after_passed_check P (ok a) next s holds k = k a refl
after_passed_check P (err e) next s holds k = holds

pub ruleset stays_rules = (
  Stays-gets, Stays-or_raise, Stays-lift, Stays-raise, Stays-pure, Stays-on_row, Stays-if,
  Stays-bind, Stays-transaction,
)
