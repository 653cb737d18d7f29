-- ===== src/Prelude/Texts.antt =====
-- Texts as the program slices them. Every text here is ASCII: a character is one code unit.
use Prim.Native.Nat.{ℕ, zero, suc, ◌+◌, ◌*◌, ◌≤◌}
use Prim.Native.Char.{Char}
use Prim.Native.String.{String, ◌++◌ as ◌<>◌}
use Prim.Native.String.append
use mathlib.Core.Path.{◌≡◌, refl, ap, subst}
use mathlib.Core.List.{List, [], ◌∷◌}
use native.Mathlib.Omega.{arith}

-- `s.length`
abbrev pub text_length : String → ℕ
text_length String.[] = 0
text_length (String.◌∷◌ c s) = suc (text_length s)

-- `s.slice(0, n)`
abbrev pub take_text : ℕ → String → String
take_text zero s = ""
take_text (suc n) String.[] = ""
take_text (suc n) (String.◌∷◌ c s) = String.◌∷◌ c (take_text n s)

zeros : ℕ → String → String
zeros zero s = s
zeros (suc n) s = String.◌∷◌ "0" (zeros n s)

missing : ℕ → String → ℕ
missing n String.[] = n
missing zero (String.◌∷◌ c s) = 0
missing (suc n) (String.◌∷◌ c s) = missing n s

-- `s.padStart(n, "0")`
unfoldable pub pad_start : ℕ → String → String
unfolding zeros missing
pad_start n s = zeros (missing n s) s

-- `s.match(/.{1,5}/g)`, where `s` has no line break
abbrev pub fives : String → List String
fives String.[] = []
fives (String.◌∷◌ a (String.◌∷◌ b (String.◌∷◌ c (String.◌∷◌ d (String.◌∷◌ e s))))) =
    String.◌∷◌ a (String.◌∷◌ b (String.◌∷◌ c (String.◌∷◌ d (String.◌∷◌ e "")))) ∷ fives s
fives s = s ∷ []

-- `xs.join(separator)`
abbrev pub join : String → List String → String
join separator [] = ""
join separator (x ∷ []) = x
join separator (x ∷ y ∷ xs) = x <> (separator <> join separator (y ∷ xs))

pub text_length-append : (s t : String) → text_length (s <> t) ≡ text_length s + text_length t
text_length-append String.[] t = rw (append.nil t) (omega arith)
text_length-append (String.◌∷◌ c s) t =
    rw (append.cons c s t) (omega (arith, text_length-append s t))

pub take_text-append : (s t : String) → take_text (text_length s) (s <> t) ≡ s
take_text-append String.[] t = refl
take_text-append (String.◌∷◌ c s) t =
    rw (append.cons c s t) (ap (String.◌∷◌ c) (take_text-append s t))

text_length-zeros : (n : ℕ) (s : String) → text_length (zeros n s) ≡ n + text_length s
unfolding zeros
text_length-zeros zero s = omega arith
text_length-zeros (suc n) s = omega (arith, text_length-zeros n s)

missing_lem : (n : ℕ) (s : String) → text_length s ≤ n → missing n s + text_length s ≡ n
unfolding missing
missing_lem n String.[] h = omega arith
missing_lem zero (String.◌∷◌ c s) h = absurd (omega arith)
missing_lem (suc n) (String.◌∷◌ c s) h = omega (arith, missing_lem n s (omega arith))

pub text_length-pad_start :
    (n : ℕ) (s : String) → text_length s ≤ n → text_length (pad_start n s) ≡ n
unfolding pad_start
text_length-pad_start n s h = omega (arith, text_length-zeros (missing n s) s, missing_lem n s h)

pub text_length-join-cons :
    (separator x y : String) (ys : List String)
    → text_length (join separator (x ∷ y ∷ ys))
      ≡ text_length x + (text_length separator + text_length (join separator (y ∷ ys)))
text_length-join-cons separator x y ys = omega (
  arith,
  text_length-append x (separator <> join separator (y ∷ ys)),
  text_length-append separator (join separator (y ∷ ys)),
)

pub fives-cons :
    (c : Char) (s : String) → (g : String) × (gs : List String) × (fives (String.◌∷◌ c s) ≡ g ∷ gs)
fives-cons c String.[] = (_, _, refl)
fives-cons c (String.◌∷◌ a String.[]) = (_, _, refl)
fives-cons c (String.◌∷◌ a (String.◌∷◌ b String.[])) = (_, _, refl)
fives-cons c (String.◌∷◌ a (String.◌∷◌ b (String.◌∷◌ d String.[]))) = (_, _, refl)
fives-cons c (String.◌∷◌ a (String.◌∷◌ b (String.◌∷◌ d (String.◌∷◌ e s)))) = (_, _, refl)

-- One more group in front of some.
join-five :
    (five : String) (gs : List String) (k : ℕ)
    → text_length five ≡ 5
    → ((g : String) × (hs : List String) × (gs ≡ g ∷ hs))
    → text_length (join " " gs) ≡ 6 * k + 5
    → text_length (join " " (five ∷ gs)) ≡ 6 * suc k + 5
join-five five gs k h (g, hs, e) l = rw e (
    omega (
      arith,
      h,
      text_length-join-cons " " five g hs,
      subst (λ xs. text_length (join " " xs) ≡ 6 * k + 5) e l,
    ))

-- Groups of five with a separator of one character between them.
pub text_length-join-fives :
    (k : ℕ) (s : String) → text_length s ≡ 5 * suc k → text_length (join " " (fives s)) ≡ 6 * k + 5
text_length-join-fives k String.[] h = absurd (omega arith)
text_length-join-fives k (String.◌∷◌ a String.[]) h = absurd (omega arith)
text_length-join-fives k (String.◌∷◌ a (String.◌∷◌ b String.[])) h = absurd (omega arith)
text_length-join-fives k (String.◌∷◌ a (String.◌∷◌ b (String.◌∷◌ c String.[]))) h =
    absurd (omega arith)
text_length-join-fives k (String.◌∷◌ a (String.◌∷◌ b (String.◌∷◌ c (String.◌∷◌ d String.[])))) h =
    absurd (omega arith)
text_length-join-fives k
      (String.◌∷◌ a (String.◌∷◌ b (String.◌∷◌ c (String.◌∷◌ d (String.◌∷◌ e String.[]))))) h =
    omega arith
text_length-join-fives zero
      (String.◌∷◌ a (String.◌∷◌ b (String.◌∷◌ c (String.◌∷◌ d (String.◌∷◌ e (String.◌∷◌ f s))))))
      h =
    absurd (omega arith)
text_length-join-fives (suc k)
      (String.◌∷◌ a (String.◌∷◌ b (String.◌∷◌ c (String.◌∷◌ d (String.◌∷◌ e (String.◌∷◌ f s))))))
      h =
    join-five _ (fives (String.◌∷◌ f s)) k refl (fives-cons f s)
      (text_length-join-fives k (String.◌∷◌ f s) (omega arith))
