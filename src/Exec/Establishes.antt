-- ===== src/Exec/Establishes.antt =====
-- A block that keeps `Q` as far as it gets, and has turned it into `R` if it returns.
use mathlib.Core.Path.{subst}
use umbra_chat.Prelude.{◌≡◌}
use umbra_chat.Exec.{ok, Exec, pure, ◌>>=◌}
use umbra_chat.Exec.Bind.{bind-ok, ok-injective}
use umbra_chat.Exec.Keeps.{Keeps, Keeps-bind, Keeps-bind_from, Keeps-step}

pub record Establishes {ℓ κ} {S A : Type ℓ} (Q R : S → Type κ) (m : Exec S A) : Type (ℓ ⊔ κ) where
  pub keeps : Keeps Q m
  pub then_holds : (s t : S) (a : A) → m s ≡ (ok a, t) → Q s → R t

-- The same, without a word on what a throw leaves.
pub record Leads {ℓ κ} {S A : Type ℓ} (Q R : S → Type κ) (m : Exec S A) : Type (ℓ ⊔ κ) where
  pub to : (s t : S) (a : A) → m s ≡ (ok a, t) → Q s → R t

module _ {ℓ κ} {S A B : Type ℓ} {Q R : S → Type κ} where
  pub Establishes-bind :
      (m : Exec S A) (f : A → Exec S B)
      → Keeps Q m
      → ((a : A) → Establishes Q R (f a))
      → Establishes Q R (m >>= f)
  Establishes-bind m f k e = record {
    keeps = Keeps-bind m f k (λ a. (e a).keeps);
    then_holds = λ s t b h q.
        let (a, u, first, rest) = bind-ok m f s h in
        (e a).then_holds u t b rest (Keeps-step k first q);
  }

  -- The rest may rely on what was established.
  pub Keeps-established :
      (m : Exec S A) (f : A → Exec S B)
      → Establishes Q R m
      → ((a : A) (s : S) → R s → Q (f a s).1)
      → Keeps Q (m >>= f)
  Keeps-established m f e k = record {
    at = λ s q. Keeps-bind_from Q m f s e.keeps q (λ a t h _. k a t (e.then_holds s t a h q));
  }

  pub Leads-bind :
      (m : Exec S A) (f : A → Exec S B)
      → Keeps Q m
      → ((a : A) → Leads Q R (f a))
      → Leads Q R (m >>= f)
  Leads-bind m f k l = record {
    to = λ s t b h q.
        let (a, u, first, rest) = bind-ok m f s h in (l a).to u t b rest (Keeps-step k first q);
  }

  pub Leads-then :
      (m : Exec S A) (f : A → Exec S B)
      → Leads Q R m
      → ((a : A) → Keeps R (f a))
      → Leads Q R (m >>= f)
  Leads-then m f l k = record {
    to = λ s t b h q.
        let (a, u, first, rest) = bind-ok m f s h in Keeps-step (k a) rest (l.to s u a first q);
  }

-- What a block that returns gives has the property.
pub record Gives {ℓ κ} {S A : Type ℓ} (R : A → Type κ) (m : Exec S A) : Type (ℓ ⊔ κ) where
  pub given : (s t : S) (a : A) → m s ≡ (ok a, t) → R a

pub Gives-pure {ℓ κ} : {S B : Type ℓ} {R : B → Type κ} (b : B) → R b → Gives {S = S} R (pure b)
unfolding pure
Gives-pure {R = R} b r = record { given = λ s t a h. subst R (ok-injective h) r }

module _ {ℓ κ} {S A B : Type ℓ} {R : B → Type κ} where
  pub Gives-bind : (m : Exec S A) (f : A → Exec S B) → ((a : A) → Gives R (f a)) → Gives R (m >>= f)
  Gives-bind m f g = record {
    given = λ s t b h. let (a, u, first, rest) = bind-ok m f s h in (g a).given u t b rest;
  }
