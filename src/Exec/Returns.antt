-- ===== src/Exec/Returns.antt =====
-- A block that throws nothing.
use umbra_chat.Prelude.{◌≡◌, refl, ap, ◌∙◌}
use umbra_chat.Exec.{ok, Exec, pure, gets, ◌>>=◌}
use umbra_chat.Exec.Bind.{bind_of_ok}

pub record Returns {ℓ} {S A : Type ℓ} (m : Exec S A) : Type ℓ where
  pub at : (s : S) → (a : A) × ((m s).0 ≡ ok a)

module _ {ℓ} {S A : Type ℓ} where
  pub Returns-pure : (a : A) → Returns (pure {S = S} a)
  unfolding pure
  Returns-pure a = record { at = λ s. (a, refl) }

  pub Returns-gets : (f : S → A) → Returns (gets f)
  unfolding gets
  Returns-gets f = record { at = λ s. (f s, refl) }

module _ {ℓ} {S A B : Type ℓ} where
  pub Returns-bind :
      (m : Exec S A) (f : A → Exec S B) → Returns m → ((a : A) → Returns (f a)) → Returns (m >>= f)
  Returns-bind m f k l = record {
    at = λ s.
        let (a, first) = k.at s in
        let (b, rest) = (l a).at (m s).1 in
        (b, ap (λ p. p.0) (bind_of_ok m f s (λ i. (first i, (m s).1))) ∙ rest);
  }

pub ruleset returns_rules = (Returns-pure, Returns-gets, Returns-bind)
