-- ===== src/Exec/Keeps.antt =====
-- Invariants of actions, whether they return or throw: one rule for each way to build an action.
use mathlib.Core.Path.{subst, ap}
use umbra_chat.Prelude.{
  ◌≡◌, refl, Bool, true, false, Option, none, some, List, [], ◌∷◌, if◌then◌else◌,
}
use umbra_chat.Exec.{
  Error, Result, ok, err, Exec, pure, throw, gets, lift, continue, on_option, for_each, traverse,
  when_some, ◌>>=◌,
}

pub record Keeps {ℓ κ} {S A : Type ℓ} (Q : S → Type κ) (m : Exec S A) : Type (ℓ ⊔ κ) where
  pub at : (s : S) → Q s → Q (m s).1

module _ {ℓ κ} {S A : Type ℓ} {Q : S → Type κ} where
  pub Keeps-pure : (a : A) → Keeps Q (pure a)
  unfolding pure
  Keeps-pure a = record { at = λ s h. h }

  pub Keeps-throw : (e : Error) → Keeps Q (throw {A = A} e)
  unfolding throw
  Keeps-throw e = record { at = λ s h. h }

  pub Keeps-gets : (f : S → A) → Keeps Q (gets f)
  unfolding gets
  Keeps-gets f = record { at = λ s h. h }

  pub Keeps-lift : (r : Result A) → Keeps Q (lift r)
  unfolding lift
  Keeps-lift r = record { at = λ s h. h }

  pub Keeps-if : (b : Bool) (m n : Exec S A) → Keeps Q m → Keeps Q n → Keeps Q (if b then m else n)
  Keeps-if true m n km kn = km
  Keeps-if false m n km kn = kn

module _ {ℓ κ} {S A B : Type ℓ} {Q : S → Type κ} where
  continue-keeps :
      (r : Result A) (f : A → Exec S B) (s : S)
      → ((a : A) → Keeps Q (f a))
      → Q s
      → Q (continue r f s).1
  continue-keeps (ok a) f s k h = (k a).at s h
  continue-keeps (err e) f s k h = h

  pub Keeps-bind :
      (m : Exec S A) (f : A → Exec S B) → Keeps Q m → ((a : A) → Keeps Q (f a)) → Keeps Q (m >>= f)
  unfolding ◌>>=◌
  Keeps-bind m f km kf = record { at = λ s h. continue-keeps (m s).0 f (m s).1 kf (km.at s h) }

  pub Keeps-on_option :
      (o : Option A) (m : Exec S B) (f : A → Exec S B)
      → Keeps Q m
      → ((a : A) → Keeps Q (f a))
      → Keeps Q (on_option o m f)
  unfolding on_option
  Keeps-on_option none m f km kf = km
  Keeps-on_option (some a) m f km kf = kf a

module _ {ℓ κ} {S A B : Type ℓ} {Q : S → Type κ} where
  pub Keeps-traverse :
      (f : A → Exec S B) (xs : List A) → ((a : A) → Keeps Q (f a)) → Keeps Q (traverse f xs)
  unfolding traverse
  Keeps-traverse f [] k = Keeps-pure []
  Keeps-traverse f (x ∷ xs) k =
      Keeps-bind _ _ (k x) (λ y. Keeps-bind _ _ (Keeps-traverse f xs k) (λ ys. Keeps-pure (y ∷ ys)))

module _ {κ} {S A : Type 0} {Q : S → Type κ} where
  pub Keeps-for_each :
      (xs : List A) (f : A → Exec S Unit) → ((a : A) → Keeps Q (f a)) → Keeps Q (for_each xs f)
  unfolding for_each
  Keeps-for_each [] f k = Keeps-pure tt
  Keeps-for_each (x ∷ xs) f k =
      Keeps-bind (f x) (λ _. for_each xs f) (k x) (λ _. Keeps-for_each xs f k)

  pub Keeps-when_some :
      (o : Option A) (f : A → Exec S Unit) → ((a : A) → Keeps Q (f a)) → Keeps Q (when_some o f)
  unfolding when_some
  Keeps-when_some none f k = Keeps-pure tt
  Keeps-when_some (some a) f k = k a

pub ruleset keeps_rules = (
  Keeps-pure, Keeps-throw, Keeps-gets, Keeps-lift, Keeps-if, Keeps-bind, Keeps-on_option,
  Keeps-traverse, Keeps-for_each, Keeps-when_some,
)

-- An invariant across one step that is known to have ended in `t`.
pub Keeps-step {ℓ κ} :
    {S A : Type ℓ} {Q : S → Type κ} {m : Exec S A} {s t : S} {r : Result A}
    → Keeps Q m
    → m s ≡ (r, t)
    → Q s
    → Q t
Keeps-step {Q} k e h = subst Q (ap (λ p. p.1) e) (k.at _ h)

module _ {ℓ κ} {S A B : Type ℓ} (Q : S → Type κ) where
  keeps_rest :
      (r : Result A) (f : A → Exec S B) (s t : S)
      → Q t
      → ((a : A) → r ≡ ok a → Q (f a t).1)
      → Q (continue r f t).1
  keeps_rest (ok a) f s t h k = k a refl
  keeps_rest (err e) f s t h k = h

  -- The same for a block from a known state: the rest may use what the first step returned.
  pub Keeps-bind_from :
      (m : Exec S A) (f : A → Exec S B) (s : S)
      → Keeps Q m
      → Q s
      → ((a : A) (t : S) → m s ≡ (ok a, t) → Q t → Q (f a t).1)
      → Q ((m >>= f) s).1
  unfolding ◌>>=◌
  Keeps-bind_from m f s k h rest =
      keeps_rest (m s).0 f s (m s).1 (k.at s h)
        (λ a e. rest a (m s).1 (λ i. (e i, (m s).1)) (k.at s h))

-- Through a block that keeps `Q` up to its last step, which turns it into `R`.
module _ {ℓ κ} {S A B : Type ℓ} (Q R : S → Type κ) where
  then_rest :
      (r : Result A) (f : A → Exec S B) (t : S)
      → R t
      → Q t
      → ((a : A) (s : S) → Q s → R (f a s).1)
      → R (continue r f t).1
  then_rest (ok a) f t weak h last = last a t h
  then_rest (err e) f t weak h last = weak

  pub Keeps-then :
      (m : Exec S A) (f : A → Exec S B)
      → ((s : S) → Q s → R s)
      → Keeps Q m
      → ((a : A) (s : S) → Q s → R (f a s).1)
      → (s : S) → Q s
      → R ((m >>= f) s).1
  unfolding ◌>>=◌
  Keeps-then m f weaken k last s h =
      then_rest (m s).0 f (m s).1 (weaken (m s).1 (k.at s h)) (k.at s h) last
