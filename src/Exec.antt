-- ===== src/Exec.antt =====
-- Async functions that change a state and may throw. What was written before a throw
-- stays written, so the state comes back beside the error too.
pub mod Atomic
pub mod Bind
pub mod Establishes
pub mod Keeps
pub mod Returns
use umbra_chat.Http.{ApiError}
use umbra_chat.Prelude.{String, Option, none, some, List, [], ◌∷◌}

-- What is thrown: `new Error(message)`, a string that the WASM module throws, a rejected
-- `fetch` or a value that is not of the expected shape, and a date out of range; in the server, the
-- answer that refuses a request.
pub data Error : Type 0 where
  thrown : String → Error
  wasm_error : String → Error
  type_error range_error : Error
  refused : ApiError → Error

pub data Result {ℓ} (A : Type ℓ) : Type ℓ where
  ok : A → Result A
  err : Error → Result A

abbrev pub Exec {ℓ} : Type ℓ → Type ℓ → Type ℓ
Exec S A = S → Result A × S

module _ {ℓ} {S A : Type ℓ} where
  unfoldable pub pure : A → Exec S A
  pure a s = (ok a, s)

  unfoldable pub throw : Error → Exec S A
  throw e s = (err e, s)

  unfoldable pub gets : (S → A) → Exec S A
  gets f s = (ok (f s), s)

  unfoldable pub lift : Result A → Exec S A
  lift r s = (r, s)

unfoldable pub modify {ℓ} : {S : Type ℓ} → (S → S) → Exec S Unit
modify f s = (ok tt, f s)

module _ {ℓ} {S A B : Type ℓ} where
  abbrev pub continue : Result A → (A → Exec S B) → Exec S B
  continue (ok a) f s = f a s
  continue (err e) f s = (err e, s)

  infixl 10 ◌>>=◌ ◌>>◌
  unfoldable pub ◌>>=◌ : Exec S A → (A → Exec S B) → Exec S B
  unfolding pure throw gets lift modify
  ◌>>=◌ m f s = let (r, s') = m s in continue r f s'

  abbrev pub ◌>>◌ : Exec S A → Exec S B → Exec S B
  m >> n = m >>= λ _. n

-- a test of an optional value, with a branch for each case
unfoldable pub on_option {ℓ} : {S A B : Type ℓ} → Option A → Exec S B → (A → Exec S B) → Exec S B
on_option none m f = m
on_option (some a) m f = f a

-- `for (const x of xs) await f(x)`
unfoldable pub for_each {ℓ} : {S A : Type ℓ} → List A → (A → Exec S Unit) → Exec S Unit
for_each [] f = pure tt
for_each (x ∷ xs) f = do f x; for_each xs f

-- `xs.map(f)`, where `f` may throw
unfoldable pub traverse {ℓ} : {S A B : Type ℓ} → (A → Exec S B) → List A → Exec S (List B)
traverse f [] = pure []
traverse f (x ∷ xs) = do y ← f x; ys ← traverse f xs; pure (y ∷ ys)

-- `if (o) await f(o)`, and the call `f?.(…)` of an optional callback
unfoldable pub when_some {ℓ} : {S A : Type ℓ} → Option A → (A → Exec S Unit) → Exec S Unit
when_some none f = pure tt
when_some (some a) f = f a
