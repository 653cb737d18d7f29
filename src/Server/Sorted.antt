-- ===== src/Server/Sorted.antt =====
-- server/src/routes/messages.rs: the sort of the rows by their time.
use mathlib.Core.List.{Perm}
use mathlib.Core.List.Perm
use umbra_chat.Prelude.{arith, ℕ, ◌≤◌, List, [], ◌∷◌, map, All, ltb, if_holds}
use umbra_chat.Server.Database.{MessageRow}
use umbra_chat.Server.Mailbox.{IsAscending}
use umbra_chat.Server.Routes.Messages.{place, sort_by_created_at}

place-Perm : (m : MessageRow) (ns : List MessageRow) → Perm (place m ns) (m ∷ ns)
place-Perm m [] = Perm.rfl
place-Perm m (n ∷ ns) =
    if_holds (λ xs. Perm xs (m ∷ n ∷ ns)) (ltb n.created_at m.created_at)
      (λ _. Perm.trans (Perm.cons n (place-Perm m ns)) (Perm.swap m n ns)) (λ _. Perm.rfl)

pub sort_by_created_at-Perm : (ms : List MessageRow) → Perm (sort_by_created_at ms) ms
unfolding sort_by_created_at
sort_by_created_at-Perm [] = Perm.rfl
sort_by_created_at-Perm (m ∷ ms) =
    Perm.trans (place-Perm m _) (Perm.cons m (sort_by_created_at-Perm ms))

abbrev Follows : MessageRow → MessageRow → Type 0
Follows m n = m.created_at ≤ n.created_at

Follows-trans :
    (m n : MessageRow) (ns : List MessageRow)
    → Follows m n
    → All (Follows n) ns
    → All (Follows m) ns
Follows-trans m n [] h a = tt
Follows-trans m n (x ∷ ns) h (p, a) = (omega arith, Follows-trans m n ns h a)

All-place :
    (x m : MessageRow) (ns : List MessageRow)
    → Follows x m
    → All (Follows x) ns
    → All (Follows x) (place m ns)
All-place x m [] h a = (h, tt)
All-place x m (n ∷ ns) h (p, a) =
    if_holds (All (Follows x)) (ltb n.created_at m.created_at) (λ _. (p, All-place x m ns h a))
      (λ _. (h, (p, a)))

place-IsAscending :
    (m : MessageRow) (ns : List MessageRow)
    → IsAscending (λ (r : MessageRow). r.created_at) ns
    → IsAscending (λ (r : MessageRow). r.created_at) (place m ns)
place-IsAscending m [] h = (tt, tt)
place-IsAscending m (n ∷ ns) (p, h) =
    if_holds (IsAscending (λ (r : MessageRow). r.created_at)) (ltb n.created_at m.created_at)
      (λ e. (All-place n m ns (ground (arith, e)) p, place-IsAscending m ns h))
      (λ e.
        let first : Follows m n = ground (arith, e) in
        ((first, Follows-trans m n ns first p), (p, h)))

pub sort_by_created_at-IsAscending :
    (ms : List MessageRow) → IsAscending (λ (r : MessageRow). r.created_at) (sort_by_created_at ms)
unfolding sort_by_created_at
sort_by_created_at-IsAscending [] = tt
sort_by_created_at-IsAscending (m ∷ ms) = place-IsAscending m _ (sort_by_created_at-IsAscending ms)

All-map :
    {A C : Type 0} (P : C → Type 0) (g : A → C) (xs : List A)
    → All (λ x. P (g x)) xs
    → All P (map g xs)
All-map P g [] h = tt
All-map P g (x ∷ xs) (p, h) = (p, All-map P g xs h)

pub IsAscending-map :
    {A C : Type 0} (time : C → ℕ) (g : A → C) (xs : List A)
    → IsAscending (λ x. time (g x)) xs
    → IsAscending time (map g xs)
IsAscending-map time g [] h = tt
IsAscending-map time g (x ∷ xs) (p, h) = (All-map _ g xs p, IsAscending-map time g xs h)
