-- ===== src/Server/Codes.antt =====
-- The table `pending_device_links`: codes are a key, and a code that was taken out is gone.
use mathlib.Core.Path.{subst}
use umbra_chat.Prelude.{
  if_holds, ◌≡◌, refl, arith, ℕ, String, ◌==◌, eq_iff, Bool, true, false, not, none, some, List, [],
  ◌∷◌, ◌++◌, filter, find, All, Bool-cases, inl, inr,
}
use umbra_chat.Server.Database.{LinkRow, is_open_link}

abbrev pub IsAbsent : String → List LinkRow → Type 0
IsAbsent code = All (λ (l : LinkRow). (l.code == code) ≡ false)

-- No code stands twice.
abbrev pub IsKeyed : List LinkRow → Type 0
IsKeyed [] = Unit
IsKeyed (l ∷ ls) = IsAbsent l.code ls × IsKeyed ls

pub IsAbsent-filter :
    (code : String) (p : LinkRow → Bool) (ls : List LinkRow)
    → IsAbsent code ls
    → IsAbsent code (filter p ls)
IsAbsent-filter code p [] h = tt
IsAbsent-filter code p (l ∷ ls) (a, h) =
    if_holds (IsAbsent code) (p l) (λ _. (a, IsAbsent-filter code p ls h))
      (λ _. IsAbsent-filter code p ls h)

pub IsKeyed-filter : (p : LinkRow → Bool) (ls : List LinkRow) → IsKeyed ls → IsKeyed (filter p ls)
IsKeyed-filter p [] h = tt
IsKeyed-filter p (l ∷ ls) (a, h) =
    if_holds IsKeyed (p l) (λ _. (IsAbsent-filter l.code p ls a, IsKeyed-filter p ls h))
      (λ _. IsKeyed-filter p ls h)

pub IsAbsent-append :
    (code : String) (l : LinkRow) (ls : List LinkRow)
    → (l.code == code) ≡ false
    → IsAbsent code ls
    → IsAbsent code (ls ++ (l ∷ []))
IsAbsent-append code l [] e h = (e, tt)
IsAbsent-append code l (k ∷ ls) e (a, h) = (a, IsAbsent-append code l ls e h)

pub IsKeyed-append :
    (l : LinkRow) (ls : List LinkRow)
    → find (λ k. k.code == l.code) ls ≡ none
    → IsKeyed ls
    → IsKeyed (ls ++ (l ∷ []))
IsKeyed-append l [] e h = (tt, tt)
IsKeyed-append l (k ∷ ls) e (a, h) = elim (Bool-cases (k.code == l.code)) [
  | inl same ↦ absurd (ground (arith, e, same))
  | inr other ↦ (
    IsAbsent-append k.code l ls (ground (arith, other, eq_iff k.code l.code, eq_iff l.code k.code))
        a,
    IsKeyed-append l ls (ground (arith, e, other)) h,
  )
]

-- A code that is not there is not found.
pub find_absent :
    (code account_id : String) (now : ℕ) (ls : List LinkRow)
    → IsAbsent code ls
    → find (is_open_link code account_id now) ls ≡ none
find_absent code account_id now [] h = refl
find_absent code account_id now (k ∷ ls) (a, h) =
    ground (arith, a, find_absent code account_id now ls h)

open_code :
    (code account_id : String) (now : ℕ) (l : LinkRow)
    → not (is_open_link code account_id now l) ≡ false
    → l.code ≡ code
open_code code account_id now l h = ground (arith, h, eq_iff l.code code)

shut_find :
    (code account_id : String) (now : ℕ) (k l : LinkRow) (ls : List LinkRow)
    → not (is_open_link code account_id now k) ≡ true
    → find (is_open_link code account_id now) (k ∷ ls) ≡ some l
    → find (is_open_link code account_id now) ls ≡ some l
shut_find code account_id now k l ls shut e = ground (arith, shut, e)

other_code :
    (code account_id : String) (now : ℕ) (k l : LinkRow) (ls : List LinkRow)
    → IsAbsent k.code ls
    → find (is_open_link code account_id now) ls ≡ some l
    → (k.code == code) ≡ false
other_code code account_id now k l ls a e = elim (Bool-cases (k.code == code)) [
  | inl same ↦
      let gone =
        find_absent code account_id now ls
          (subst (λ c. IsAbsent c ls) ((eq_iff k.code code).0 same) a) in
      cc (gone, e)
  | inr other ↦ other
]

-- A code that was found is gone.
pub IsAbsent-consumed :
    (code account_id : String) (now : ℕ) (ls : List LinkRow) (l : LinkRow)
    → IsKeyed ls
    → find (is_open_link code account_id now) ls ≡ some l
    → IsAbsent code (filter (λ k. not (is_open_link code account_id now k)) ls)
IsAbsent-consumed code account_id now [] l h e = tt
IsAbsent-consumed code account_id now (k ∷ ls) l (a, h) e =
    if_holds (IsAbsent code) (not (is_open_link code account_id now k))
      (λ shut.
        let found = shut_find code account_id now k l ls shut e in
        (
          other_code code account_id now k l ls a found,
          IsAbsent-consumed code account_id now ls l h found,
        ))
      (λ opened.
        IsAbsent-filter code _ ls
          (subst (λ c. IsAbsent c ls) (open_code code account_id now k opened) a))
