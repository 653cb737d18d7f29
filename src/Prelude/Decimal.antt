-- ===== src/Prelude/Decimal.antt =====
-- `n.toString()`, and `b.toString(16).padStart(2, "0")` of a byte.
use Prim.Native.Nat.{ℕ, zero, suc, ◌/◌, ◌%◌, ◌≤◌, ◌<◌}
use mathlib.Core.Path.{◌≡◌, refl}
use native.Mathlib.Omega.{arith}
use umbra_chat.Prelude.Lists.{All, length}
use umbra_chat.Prelude.Texts.{text_length, text_length-append}
use Prim.Native.String.{String, ◌++◌ as ◌<>◌}
use mathlib.Core.List.{List, [], ◌∷◌}
use umbra_chat.Prelude.Tests.{ltb, if◌then◌else◌}

unfoldable pub nth : List String → ℕ → String
nth [] i = ""
nth (d ∷ ds) zero = d
nth (d ∷ ds) (suc i) = nth ds i

abbrev numerals : List String
numerals =
    "0" ∷ "1" ∷ "2" ∷ "3" ∷ "4" ∷ "5" ∷ "6" ∷ "7" ∷ "8" ∷ "9" ∷ "a" ∷ "b" ∷ "c" ∷ "d" ∷ "e" ∷ "f"
    ∷ []

unfoldable pub digit : ℕ → String
unfolding nth
digit = nth numerals

unfoldable pub decimal : ℕ → ℕ → String
decimal zero n = ""
decimal (suc fuel) n =
    let rest = decimal fuel (n / 10) <> digit (n % 10) in if ltb n 10 then digit n else rest

-- A number has at most as many digits as its value, and one.
unfoldable pub to_text : ℕ → String
unfolding decimal digit
to_text n = decimal (suc n) n

unfoldable pub hex_byte : ℕ → String
unfolding digit
hex_byte b = digit (b / 16) <> digit (b % 16)

text_length-nth :
    (ds : List String) (i : ℕ) → All (λ d. text_length d ≡ 1) ds → text_length (nth ds i) ≤ 1
unfolding nth
text_length-nth [] i h = omega arith
text_length-nth (d ∷ ds) zero h = omega (arith, h.0)
text_length-nth (d ∷ ds) (suc i) h = text_length-nth ds i h.1

numerals-All : All (λ d. text_length d ≡ 1) numerals
numerals-All = (
  refl,
  (
    refl,
    (
      refl,
      (
        refl,
        (
          refl,
          (
            refl,
            (refl, (refl, (refl, (refl, (refl, (refl, (refl, (refl, (refl, (refl, tt)))))))))),
          ),
        ),
      ),
    ),
  ),
)

text_length-digit : (n : ℕ) → text_length (digit n) ≤ 1
unfolding digit
text_length-digit n = text_length-nth numerals n numerals-All

-- One digit more for every factor of ten.
text_length-decimal :
    (k fuel n : ℕ)
    → ((f : ℕ) → text_length (decimal f (n / 10)) ≤ k)
    → text_length (decimal fuel n) ≤ suc k
unfolding decimal
text_length-decimal k zero n rest = omega arith
text_length-decimal k (suc fuel) n rest = ground (
  arith,
  text_length-digit n,
  text_length-digit (n % 10),
  rest fuel,
  text_length-append (decimal fuel (n / 10)) (digit (n % 10)),
)

one_digit : (fuel n : ℕ) → n < 10 → text_length (decimal fuel n) ≤ 1
unfolding decimal
one_digit zero n h = omega arith
one_digit (suc fuel) n h = ground (arith, text_length-digit n)

pub text_length-to_text : (n : ℕ) → n < 1000 → text_length (to_text n) ≤ 3
unfolding to_text
text_length-to_text n h =
    text_length-decimal 2 (suc n) n
      λ f. text_length-decimal 1 f (n / 10) λ g. one_digit g (n / 10 / 10) (omega arith)

length-nth :
    (ds : List String) (i : ℕ)
    → All (λ d. text_length d ≡ 1) ds
    → i < length ds
    → 1 ≤ text_length (nth ds i)
unfolding nth
length-nth [] i h k = absurd (omega (arith, k))
length-nth (d ∷ ds) zero h k = omega (arith, h.0)
length-nth (d ∷ ds) (suc i) h k = length-nth ds i h.1 (omega (arith, k))

digit-nonempty : (n : ℕ) → n < 16 → 1 ≤ text_length (digit n)
unfolding digit
digit-nonempty n h = length-nth numerals n numerals-All h

-- No number is written as the empty text.
pub to_text-nonempty : (n : ℕ) → 1 ≤ text_length (to_text n)
unfolding to_text decimal
to_text-nonempty n = ground (
  arith,
  digit-nonempty n,
  digit-nonempty (n % 10),
  text_length-append (decimal n (n / 10)) (digit (n % 10)),
)
