-- ===== src/Prelude/Trim.antt =====
-- `s.trim()` and `s.split(",")`.
use Prim.Native.Nat.{ℕ}
use Prim.Native.Char.{Char, code}
use Prim.Native.String.{String}
use mathlib.Core.Path.{◌≡◌, refl}
use mathlib.Core.Logic.{◌⊎◌, inl, inr}
use mathlib.Core.Bool.{Bool, true, false, ◌&&◌, ◌||◌}
use mathlib.Core.List.{List, [], ◌∷◌}
use umbra_chat.Prelude.Tests.{leb, nat_eq, if◌then◌else◌, Bool-cases}

-- What JavaScript takes for white space, a line break included.
abbrev is_space_code : ℕ → Bool
is_space_code n =
    (leb 9 n && leb n 13)
    || nat_eq n 32
    || nat_eq n 160
    || nat_eq n 5760
    || (leb 8192 n && leb n 8202)
    || nat_eq n 8232
    || nat_eq n 8233
    || nat_eq n 8239
    || nat_eq n 8287
    || nat_eq n 12288
    || nat_eq n 65279

unfoldable pub is_space : Char → Bool
is_space c = is_space_code (code c)

abbrev is_empty : String → Bool
is_empty String.[] = true
is_empty (String.◌∷◌ c s) = false

unfoldable pub trim_start : String → String
unfolding is_space
trim_start String.[] = ""
trim_start (String.◌∷◌ c s) = let rest = trim_start s in if is_space c then rest else String.◌∷◌ c s

unfoldable pub trim_end : String → String
unfolding is_space
trim_end String.[] = ""
trim_end (String.◌∷◌ c s) =
    let rest = trim_end s in if is_empty rest && is_space c then "" else String.◌∷◌ c rest

unfoldable pub trim : String → String
unfolding trim_start trim_end
trim s = trim_end (trim_start s)

prepend : Char → List String → List String
prepend c [] = String.◌∷◌ c "" ∷ []
prepend c (x ∷ xs) = String.◌∷◌ c x ∷ xs

unfoldable pub split_commas : String → List String
unfolding prepend
split_commas String.[] = "" ∷ []
split_commas (String.◌∷◌ c s) =
    let rest = split_commas s in if nat_eq (code c) 44 then "" ∷ rest else prepend c rest

trim_end-trim_end : (s : String) → trim_end (trim_end s) ≡ trim_end s
unfolding trim_end
trim_end-trim_end String.[] = refl
trim_end-trim_end (String.◌∷◌ c s) = elim (Bool-cases (is_empty (trim_end s) && is_space c)) [
  | inl dropped ↦ rw dropped refl
  | inr kept ↦ rw (kept, trim_end-trim_end s, kept) refl
]

trim_start-cases :
    (s : String)
    → (trim_start s ≡ "")
      ⊎ ((c : Char) × (t : String) × (is_space c ≡ false) × (trim_start s ≡ String.◌∷◌ c t))
unfolding trim_start
trim_start-cases String.[] = inl refl
trim_start-cases (String.◌∷◌ c s) = elim (Bool-cases (is_space c)) [
  | inl space ↦ rw space (trim_start-cases s)
  | inr kept ↦ rw kept (inr (c, s, kept, refl))
]

and_false : (b c : Bool) → c ≡ false → (b && c) ≡ false
and_false true c h = h
and_false false c h = refl

trim_start-trim_end :
    (c : Char) (t : String)
    → is_space c ≡ false
    → trim_start (trim_end (String.◌∷◌ c t)) ≡ trim_end (String.◌∷◌ c t)
unfolding trim_end trim_start
trim_start-trim_end c t kept = rw (and_false (is_empty (trim_end t)) (is_space c) kept, kept) refl

pub trim-trim : (s : String) → trim (trim s) ≡ trim s
unfolding trim
trim-trim s = elim (trim_start-cases s) [
  | inl blank ↦ rw blank refl
  | inr (c, t, kept, starts) ↦
      rw (starts, trim_start-trim_end c t kept) (trim_end-trim_end (String.◌∷◌ c t))
]
