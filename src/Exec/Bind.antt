-- ===== src/Exec/Bind.antt =====
-- A block that returns: each of its steps returned.
use umbra_chat.Prelude.{◌≡◌, refl, ◌⊎◌, inl, inr}
use umbra_chat.Exec.{Error, Result, ok, err, Exec, continue, ◌>>=◌}

module _ {ℓ} {S A B : Type ℓ} where
  continue-ok :
      (r : Result A) (f : A → Exec S B) (s : S) {b : B} {t : S}
      → continue r f s ≡ (ok b, t)
      → (a : A) × (r ≡ ok a) × (f a s ≡ (ok b, t))
  continue-ok (ok a) f s h = (a, refl, h)
  continue-ok (err e) f s h = cc

  -- `m` returned `a`, and the rest went on from there.
  pub bind-ok :
      (m : Exec S A) (f : A → Exec S B) (s : S) {b : B} {t : S}
      → (m >>= f) s ≡ (ok b, t)
      → (a : A) × (u : S) × (m s ≡ (ok a, u)) × (f a u ≡ (ok b, t))
  unfolding ◌>>=◌
  bind-ok m f s h =
      let (a, p, q) = continue-ok (m s).0 f (m s).1 h in (a, (m s).1, λ i. (p i, (m s).1), q)

  continue-err :
      (r : Result A) (f : A → Exec S B) (s : S) {e : Error} {t : S}
      → continue r f s ≡ (err e, t)
      → ((r ≡ err e) × (s ≡ t)) ⊎ ((a : A) × (r ≡ ok a) × (f a s ≡ (err e, t)))
  continue-err (ok a) f s h = inr (a, refl, h)
  continue-err (err e) f s h = inl (cc, cc)

  -- A block that throws: `m` threw, or it returned and the rest threw.
  pub bind-err :
      (m : Exec S A) (f : A → Exec S B) (s : S) {e : Error} {t : S}
      → (m >>= f) s ≡ (err e, t)
      → (m s ≡ (err e, t)) ⊎ ((a : A) × (u : S) × (m s ≡ (ok a, u)) × (f a u ≡ (err e, t)))
  unfolding ◌>>=◌
  bind-err m f s h = elim (continue-err (m s).0 f (m s).1 h) [
    | inl (p, q) ↦ inl (λ i. (p i, q i))
    | inr (a, p, q) ↦ inr (a, (m s).1, λ i. (p i, (m s).1), q)
  ]

  -- A step that returned is followed by the rest.
  pub bind_of_ok :
      (m : Exec S A) (f : A → Exec S B) (s : S) {a : A} {u : S}
      → m s ≡ (ok a, u)
      → (m >>= f) s ≡ f a u
  unfolding ◌>>=◌
  bind_of_ok m f s p = λ i. continue (p i).0 f (p i).1

  pub bind_of_err :
      (m : Exec S A) (f : A → Exec S B) (s : S) {e : Error} {u : S}
      → m s ≡ (err e, u)
      → (m >>= f) s ≡ (err e, u)
  unfolding ◌>>=◌
  bind_of_err m f s p = λ i. continue (p i).0 f (p i).1

-- What `pure` returned.
pub ok-injective {ℓ} :
    {S A : Type ℓ} {a b : A} {s t : S} → ◌≡◌ {A = Result A × S} (ok a, s) (ok b, t) → a ≡ b
ok-injective h = cc h
