-- ===== src/Storage/Database/Atomic.antt =====
-- Methods that are atomic: where they raise, the database is what it was before the call.
use model_forge.Prelude.{
  Bool, true, false, if◌then◌else◌, String, ◌≡◌, refl, Result, ok, err, ◌⊎◌, inl, inr, Result-cases,
}
use model_forge.Storage.Database.{Tx, raise, lift, immediate_transaction, ◌>>=◌}
use model_forge.Storage.Database.Rules.{transaction_cases}
use model_forge.Storage.Database.Keeps.{Keeps}

pub record IsAtomic {S A : Type 0} (m : Tx S A) : Type 0 where
  pub undone : (s : S) (e : String) → (m s).0 ≡ err e → (m s).1 ≡ s

module _ {S A : Type 0} where
  pub IsAtomic-transaction : (m : Tx S A) → IsAtomic (immediate_transaction m)
  IsAtomic-transaction m = record {
    undone = λ s e raised. elim (transaction_cases m s) [
      | inl (a, _, done) ↦ cc (rw done at raised)
      | inr (x, _, done) ↦ rw done
    ];
  }

  pub IsAtomic-raise : (x : String) → IsAtomic (raise {S = S} {A = A} x)
  IsAtomic-raise x = record { undone = λ s e raised. refl }

  pub IsAtomic-if :
      (test : Bool) (m n : Tx S A) → IsAtomic m → IsAtomic n → IsAtomic (if test then m else n)
  IsAtomic-if true m n h k = h
  IsAtomic-if false m n h k = k

module _ {S A B : Type 0} where
  -- A check before the transaction.
  pub IsAtomic-lift :
      (r : Result A) (f : A → Tx S B) → ((a : A) → IsAtomic (f a)) → IsAtomic (lift r >>= f)
  IsAtomic-lift (ok a) f h = record { undone = (h a).undone }
  IsAtomic-lift (err x) f h = record { undone = λ s e raised. refl }

pub ruleset atomic_rules = (IsAtomic-transaction, IsAtomic-raise, IsAtomic-if, IsAtomic-lift)

module _ {S A : Type 0} where
  -- An atomic method returns, or it raises and the database is what it was.
  pub outcomes :
      (m : Tx S A) (s : S)
      → IsAtomic m
      → ((a : A) × ((m s).0 ≡ ok a)) ⊎ ((x : String) × (m s ≡ (err x, s)))
  outcomes m s atomic = elim (Result-cases (m s).0) [
    | inl returned ↦ inl returned
    | inr (x, raised) ↦ inr (x, λ i. (raised i, atomic.undone s x raised i))
  ]

module _ {S A : Type 0} {P : S → Type 0} where
  settled :
      (m : Tx S A) (s : S) (r : Result A) → (m s).0 ≡ r → Keeps P m → IsAtomic m → P s → P (m s).1
  settled m s (ok a) e k u h = k.at s a e h
  settled m s (err x) e k u h = rw (u.undone s x e) h

  -- What an atomic method keeps holds after every call of it.
  pub after_call : (m : Tx S A) (s : S) → Keeps P m → IsAtomic m → P s → P (m s).1
  after_call m s k u h = settled m s (m s).0 refl k u h
