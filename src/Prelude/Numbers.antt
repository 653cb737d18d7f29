-- ===== src/Prelude/Numbers.antt =====
-- Reading a decimal number back.
use Prim.Native.Nat.{ℕ, zero, suc, ◌+◌, ◌-◌, ◌*◌, ◌/◌, ◌%◌, ◌≤◌, ◌<◌}
use Prim.Native.Char.{code}
use Prim.Native.String.{String, ◌++◌ as ◌<>◌}
use Prim.Native.String.append
use mathlib.Core.Path.{◌≡◌, refl, ap, ◌∙◌}
use mathlib.Core.Logic.{inl, inr}
use mathlib.Core.Bool.{◌&&◌}
use mathlib.Core.Option.{Option, none, some}
use native.Mathlib.Omega.{arith}
use umbra_chat.Prelude.Tests.{ltb, leb, if◌then◌else◌, Bool-cases}
use umbra_chat.Prelude.Decimal.{to_text, to_text-nonempty, decimal, digit, nth}
use umbra_chat.Prelude.Texts.{text_length}

-- The digits of `s` after a number, if they are digits.
unfoldable pub parse_digits : ℕ → String → Option ℕ
parse_digits n String.[] = some n
parse_digits n (String.◌∷◌ c s) =
    let rest = parse_digits (10 * n + (code c - 48)) s in
    if leb 48 (code c) && leb (code c) 57 then rest else none

-- One digit at least.
unfoldable pub parse_nat : String → Option ℕ
unfolding parse_digits
parse_nat String.[] = none
parse_nat (String.◌∷◌ c s) = parse_digits 0 (String.◌∷◌ c s)

parse_digits-append :
    (n m : ℕ) (s t : String)
    → parse_digits n s ≡ some m
    → parse_digits n (s <> t) ≡ parse_digits m t
unfolding parse_digits
parse_digits-append n m String.[] t h = rw (append.nil t) (ap (λ k. parse_digits k t) (cc h))
parse_digits-append n m (String.◌∷◌ c s) t h =
    elim (Bool-cases (leb 48 (code c) && leb (code c) 57)) [
      | inl is_digit ↦
          rw (append.cons c s t, is_digit)
            (parse_digits-append (10 * n + (code c - 48)) m s t (rw is_digit at h))
      | inr other ↦ let bad : none ≡ some m = rw other at h in cc bad
    ]

parse_digits-digit : (n d : ℕ) → d < 10 → parse_digits n (digit d) ≡ some (10 * n + d)
unfolding parse_digits digit nth
parse_digits-digit n zero h = refl
parse_digits-digit n (suc zero) h = refl
parse_digits-digit n (suc (suc zero)) h = refl
parse_digits-digit n (suc (suc (suc zero))) h = refl
parse_digits-digit n (suc (suc (suc (suc zero)))) h = refl
parse_digits-digit n (suc (suc (suc (suc (suc zero))))) h = refl
parse_digits-digit n (suc (suc (suc (suc (suc (suc zero)))))) h = refl
parse_digits-digit n (suc (suc (suc (suc (suc (suc (suc zero))))))) h = refl
parse_digits-digit n (suc (suc (suc (suc (suc (suc (suc (suc zero)))))))) h = refl
parse_digits-digit n (suc (suc (suc (suc (suc (suc (suc (suc (suc zero))))))))) h = refl
parse_digits-digit n (suc (suc (suc (suc (suc (suc (suc (suc (suc (suc d)))))))))) h =
    absurd (omega (arith, h))

parse_digits-decimal : (fuel n : ℕ) → n < fuel → parse_digits 0 (decimal fuel n) ≡ some n
unfolding decimal
parse_digits-decimal zero n h = absurd (omega (arith, h))
parse_digits-decimal (suc fuel) n h = elim (Bool-cases (ltb n 10)) [
  | inl small ↦ rw small (parse_digits-digit 0 n (ground (arith, small)) ∙ ap some (omega arith))
  | inr large ↦
      let ten : 10 ≤ n = ground (arith, large) in
      rw large (
        parse_digits-append 0 (n / 10) (decimal fuel (n / 10)) (digit (n % 10))
          (parse_digits-decimal fuel (n / 10) (omega (arith, ten, h)))
        ∙ parse_digits-digit (n / 10) (n % 10) (omega arith)
        ∙ ap some (omega arith))
]

parse_nat-some :
    (s : String) (n : ℕ) → 1 ≤ text_length s → parse_digits 0 s ≡ some n → parse_nat s ≡ some n
unfolding parse_nat
parse_nat-some String.[] n long h = absurd (omega (arith, long))
parse_nat-some (String.◌∷◌ c s) n long h = h

pub parse_nat-to_text : (n : ℕ) → parse_nat (to_text n) ≡ some n
unfolding to_text
parse_nat-to_text n =
    parse_nat-some (to_text n) n (to_text-nonempty n) (parse_digits-decimal (suc n) n (omega arith))
