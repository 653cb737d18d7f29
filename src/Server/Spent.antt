-- ===== src/Server/Spent.antt =====
-- The table `prekeys`: a prekey that was handed out is spent, and stays so.
use umbra_chat.Prelude.{
  ◌≡◌, refl, ap, ◌∙◌, arith, ℕ, String, eq_iff, Bool, true, false, Option, none, some, is_some,
  List, [], ◌∷◌, ◌++◌, map, find, All, ltb, if◌then◌else◌, inl, inr, ◌⊎◌, Bool-cases,
}
use umbra_chat.Server.Database.{PrekeyRow, is_prekey, is_unused, lesser, least_unused, use_prekey}

abbrev pub UsedIf : String → ℕ → PrekeyRow → Type 0
UsedIf d n k = is_prekey d n k ≡ true → k.used ≡ true

-- The prekey is there, and it is used.
abbrev pub IsSpent : String → ℕ → List PrekeyRow → Type 0
IsSpent d n ks = (is_some (find (is_prekey d n) ks) ≡ true) × All (UsedIf d n) ks

pub find-holds {ℓ} :
    {A : Type ℓ} (p : A → Bool) (xs : List A) (x : A) → find p xs ≡ some x → p x ≡ true
find-holds p [] x h = cc h
find-holds p (y ∷ xs) x h = ground (arith, h, find-holds p xs x)

pub is_prekey-eq :
    (d : String) (n : ℕ) (k : PrekeyRow)
    → is_prekey d n k ≡ true
    → (k.device_id ≡ d) × (k.key_id ≡ n)
is_prekey-eq d n k h = (ground (arith, h, eq_iff k.device_id d), ground (arith, h))

found_after :
    (p : PrekeyRow → Bool) (ks : List PrekeyRow) (k : PrekeyRow)
    → is_some (find p ks) ≡ true
    → is_some (find p (ks ++ (k ∷ []))) ≡ true
found_after p [] k h = cc h
found_after p (j ∷ ks) k h = ground (arith, found_after p ks k)

used_after :
    (d : String) (n : ℕ) (ks : List PrekeyRow) (k : PrekeyRow)
    → All (UsedIf d n) ks
    → UsedIf d n k
    → All (UsedIf d n) (ks ++ (k ∷ []))
used_after d n [] k h u = (u, tt)
used_after d n (j ∷ ks) k (p, h) u = (p, used_after d n ks k h u)

-- A prekey that is added has another number.
pub IsSpent-added :
    (d : String) (n : ℕ) (k : PrekeyRow) (ks : List PrekeyRow)
    → find (is_prekey k.device_id k.key_id) ks ≡ none
    → IsSpent d n ks
    → IsSpent d n (ks ++ (k ∷ []))
IsSpent-added d n k ks free (there, used) = (
  found_after _ ks k there,
  used_after d n ks k used (λ same. let (p, q) = is_prekey-eq d n k same in cc (p, q, free, there)),
)

is_prekey-use :
    (d e : String) (n m : ℕ) (k : PrekeyRow) → is_prekey d n (use_prekey e m k) ≡ is_prekey d n k
is_prekey-use d e n m k = ground arith

found_mapped :
    (d e : String) (n m : ℕ) (ks : List PrekeyRow)
    → is_some (find (is_prekey d n) (map (use_prekey e m) ks)) ≡ is_some (find (is_prekey d n) ks)
found_mapped d e n m [] = refl
found_mapped d e n m (k ∷ ks) = ground (arith, found_mapped d e n m ks, is_prekey-use d e n m k)

used_mapped :
    (d e : String) (n m : ℕ) (ks : List PrekeyRow)
    → All (UsedIf d n) ks
    → All (UsedIf d n) (map (use_prekey e m) ks)
used_mapped d e n m [] h = tt
used_mapped d e n m (k ∷ ks) (p, h) = ((λ i. ground (arith, p, i)), used_mapped d e n m ks h)

used_now : (d : String) (n : ℕ) (ks : List PrekeyRow) → All (UsedIf d n) (map (use_prekey d n) ks)
used_now d n [] = tt
used_now d n (k ∷ ks) = ((λ i. ground (arith, i)), used_now d n ks)

pub IsSpent-used :
    (d e : String) (n m : ℕ) (ks : List PrekeyRow)
    → IsSpent d n ks
    → IsSpent d n (map (use_prekey e m) ks)
IsSpent-used d e n m ks (there, used) =
    (found_mapped d e n m ks ∙ there, used_mapped d e n m ks used)

-- What is marked used is spent.
pub IsSpent-now :
    (d : String) (n : ℕ) (ks : List PrekeyRow) (k : PrekeyRow)
    → find (is_prekey d n) ks ≡ some k
    → IsSpent d n (map (use_prekey d n) ks)
IsSpent-now d n ks k h = (found_mapped d d n n ks ∙ ap is_some h, used_now d n ks)

least-cases :
    (b : Bool) (m n : ℕ) (o : Option ℕ)
    → (if b then some (lesser m o) else o) ≡ some n
    → ((b ≡ true) × (m ≡ n)) ⊎ (o ≡ some n)
least-cases false m n o h = inr h
least-cases true m n none h = inl (refl, cc h)
least-cases true m n (some j) h = elim (Bool-cases (ltb m j)) [
  | inl less ↦ inl (refl, ground (arith, h, less))
  | inr not_less ↦ inr (ground (arith, h, not_less))
]

unused_now :
    (d : String) (n : ℕ) (k : PrekeyRow) → is_unused d k ≡ true → k.key_id ≡ n → ¬ UsedIf d n k
unused_now d n k unused same p =
    let is_that : is_prekey d n k ≡ true = ground (arith, unused, same) in
    ground (arith, unused, p is_that)

-- What is looked for first is not spent.
pub least_unused-unspent :
    (d : String) (n : ℕ) (ks : List PrekeyRow) → least_unused d ks ≡ some n → ¬ All (UsedIf d n) ks
least_unused-unspent d n [] h a = cc h
least_unused-unspent d n (k ∷ ks) h (p, a) =
    elim (least-cases (is_unused d k) k.key_id n (least_unused d ks) h) [
      | inl (unused, same) ↦ unused_now d n k unused same p
      | inr rest ↦ least_unused-unspent d n ks rest a
    ]
