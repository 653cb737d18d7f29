-- ===== src/Exec/Atomic.antt =====
-- Actions that leave an invariant alone when they throw: a write comes last, and is undone or not
-- made if it fails.
use umbra_chat.Prelude.{◌≡◌, inl, inr, Bool, true, false, if◌then◌else◌}
use umbra_chat.Exec.{Error, err, Exec, pure, ◌>>=◌}
use umbra_chat.Exec.Bind.{bind-err}
use umbra_chat.Exec.Keeps.{Keeps, Keeps-step}
use umbra_chat.Exec.Returns.{Returns}

pub record IsAtomic {ℓ κ} {S A : Type ℓ} (Q : S → Type κ) (m : Exec S A) : Type (ℓ ⊔ κ) where
  pub at : (s t : S) (e : Error) → m s ≡ (err e, t) → Q s → Q t

module _ {ℓ κ} {S A : Type ℓ} {Q : S → Type κ} where
  pub IsAtomic-Keeps : (m : Exec S A) → Keeps Q m → IsAtomic Q m
  IsAtomic-Keeps m k = record { at = λ s t e h q. Keeps-step k h q }

  pub IsAtomic-if :
      (b : Bool) (m n : Exec S A) → IsAtomic Q m → IsAtomic Q n → IsAtomic Q (if b then m else n)
  IsAtomic-if true m n km kn = km
  IsAtomic-if false m n km kn = kn

module _ {ℓ κ} {S A B : Type ℓ} {Q : S → Type κ} where
  -- What does not change `Q`, then the rest.
  pub IsAtomic-bind :
      (m : Exec S A) (f : A → Exec S B)
      → Keeps Q m
      → ((a : A) → IsAtomic Q (f a))
      → IsAtomic Q (m >>= f)
  IsAtomic-bind m f k kf = record {
    at = λ s t e h q. elim (bind-err m f s h) [
      | inl thrown ↦ Keeps-step k thrown q
      | inr (a, u, done, rest) ↦ (kf a).at u t e rest (Keeps-step k done q)
    ];
  }

  -- A write, and then what cannot throw.
  pub IsAtomic-bind_pure :
      (m : Exec S A) (g : A → B) → IsAtomic Q m → IsAtomic Q (m >>= λ a. pure (g a))
  unfolding pure
  IsAtomic-bind_pure m g k = record {
    at = λ s t e h q. elim (bind-err m (λ a. pure (g a)) s h) [
      | inl thrown ↦ k.at s t e thrown q
      | inr (a, u, done, rest) ↦ cc
    ];
  }

  pub IsAtomic-bind-Returns :
      (m : Exec S A) (f : A → Exec S B)
      → IsAtomic Q m
      → ((a : A) → Returns (f a))
      → IsAtomic Q (m >>= f)
  IsAtomic-bind-Returns m f k r = record {
    at = λ s t e h q. elim (bind-err m f s h) [
      | inl thrown ↦ k.at s t e thrown q
      | inr (a, u, done, rest) ↦ let (b, returned) = (r a).at u in cc (returned, rest)
    ];
  }

pub ruleset atomic_rules = (IsAtomic-Keeps, IsAtomic-if, IsAtomic-bind, IsAtomic-bind_pure)
