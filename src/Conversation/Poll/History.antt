-- ===== src/Conversation/Poll/History.antt =====
-- How a history may change while messages are received.
use mathlib.Core.Path.{subst}
use mathlib.Core.Option.{some-injective}
use umbra_chat.Prelude.{
  ◌≡◌, refl, sym, ◌∙◌, ◌≢◌, arith, ℕ, String, ◌==◌, Bool, true, false, Option, none, some, List, [],
  ◌∷◌, ◌++◌, find, update_first, Bool-cases, inl, inr,
}
use umbra_chat.Identity.{LocalAccount}
use umbra_chat.Message.{is_sent, ChatMessage}
use umbra_chat.Envelope.{
  ReceiptKind, Envelope, text, file, receipt, file_opened, timer, call, group,
}
use umbra_chat.Http.{ReceivedMessage}
use umbra_chat.Platform.{Platform}
use umbra_chat.Exec.{ok, pure, on_option, ◌>>=◌}
use umbra_chat.Exec.Bind.{bind-ok, ok-injective}
use umbra_chat.World.{World}
use umbra_chat.Conversation.{expiry_if}
use umbra_chat.Conversation.Poll.{
  Handlers, is_own, status_of, clock_to_start, mark, apply_receipt, receive, receive_from, route,
  process, process_all,
}

-- A stored message `m` and what it has become: only its status and its expiry may differ, only on
-- messages sent from here, and an expiry that was set stays.
pub record Kept (m m' : ChatMessage) : Type 0 where
  pub rest : m' ≡ record m { status = m'.status; expires_at = m'.expires_at }
  pub received : is_sent m.direction ≡ false → m' ≡ m
  pub clock : m.expires_at ≢ none → m'.expires_at ≡ m.expires_at

-- Every message is still there, in its place; new ones stand behind.
abbrev pub Evolves : List ChatMessage → List ChatMessage → Type 0
Evolves [] ys = Unit
Evolves (x ∷ xs) [] = ⊥
Evolves (x ∷ xs) (y ∷ ys) = Kept x y × Evolves xs ys

Kept-refl : (m : ChatMessage) → Kept m m
Kept-refl m = record { rest = refl; received = λ _. refl; clock = λ _. refl }

Kept-trans : {a b c : ChatMessage} → Kept a b → Kept b c → Kept a c
Kept-trans k l = ground (arith, k.rest, l.rest)

pub Evolves-refl : (xs : List ChatMessage) → Evolves xs xs
Evolves-refl [] = tt
Evolves-refl (x ∷ xs) = (Kept-refl x, Evolves-refl xs)

pub Evolves-trans : (xs ys zs : List ChatMessage) → Evolves xs ys → Evolves ys zs → Evolves xs zs
Evolves-trans [] ys zs h k = tt
Evolves-trans (x ∷ xs) [] zs h k = absurd h
Evolves-trans (x ∷ xs) (y ∷ ys) [] h k = absurd k
Evolves-trans (x ∷ xs) (y ∷ ys) (z ∷ zs) h k = (Kept-trans h.0 k.0, Evolves-trans xs ys zs h.1 k.1)

pub Evolves-append : (xs ys : List ChatMessage) → Evolves xs (xs ++ ys)
Evolves-append [] ys = tt
Evolves-append (x ∷ xs) ys = (Kept-refl x, Evolves-append xs ys)

Evolves-update_first :
    (p : ChatMessage → Bool) (f : ChatMessage → ChatMessage) (xs : List ChatMessage)
    → ((m : ChatMessage) → p m ≡ true → find p xs ≡ some m → Kept m (f m))
    → Evolves xs (update_first p f xs)
Evolves-update_first p f [] k = tt
Evolves-update_first p f (x ∷ xs) k = elim (Bool-cases (p x)) [
  | inl hit ↦ rw hit (k x hit (rw hit), Evolves-refl xs)
  | inr miss ↦
      rw miss (Kept-refl x, Evolves-update_first p f xs (λ m own found. k m own (rw miss found)))
]

-- A receipt without a clock to start sets the status alone.
mark-Kept :
    (ref_id : String) (kind : ReceiptKind) (expires_at : Option ℕ) (m : ChatMessage)
    → is_own ref_id m ≡ true
    → (clock_to_start kind m ≡ none → expires_at ≡ none)
    → Kept m (mark (status_of kind) expires_at m)
mark-Kept ref_id ReceiptKind.delivered expires_at m own quiet = ground arith
mark-Kept ref_id ReceiptKind.read expires_at m own quiet = ground arith

module _ {P : Platform} where
  expiry_if-none :
      {o r : Option ℕ} (w : World P) {v : World P} → expiry_if o w ≡ (ok r, v) → o ≡ none → r ≡ none
  unfolding expiry_if pure
  expiry_if-none {o = none} w h e = ground arith
  expiry_if-none {o = some n} w h e = cc

  apply_receipt-Evolves :
      (kind : ReceiptKind) (ref_id : String) (ms ms' : List ChatMessage) (w v : World P)
      → apply_receipt kind ref_id ms w ≡ (ok ms', v)
      → Evolves ms ms'
  unfolding apply_receipt pure on_option
  apply_receipt-Evolves kind ref_id ms ms' w v h = go (find (is_own ref_id) ms) refl h
    where
      go :
          (found : Option ChatMessage)
          → find (is_own ref_id) ms ≡ found
          → on_option found
              (pure ms)
              (λ target. expiry_if (clock_to_start kind target) >>= λ expires_at.
                pure (update_first (is_own ref_id) (mark (status_of kind) expires_at) ms))
              w
            ≡ (ok ms', v)
          → Evolves ms ms'
      go none e k = subst (Evolves ms) (ok-injective k) (Evolves-refl ms)
      go (some target) e k =
          let (expires_at, u, e1, k1) = bind-ok _ _ _ k in
          subst (Evolves ms) (ok-injective k1) (
            Evolves-update_first (is_own ref_id) (mark (status_of kind) expires_at) ms
              (λ m own found.
                mark-Kept ref_id kind expires_at m own (λ idle.
                  expiry_if-none w e1 (rw (some-injective target m (sym e ∙ found)) idle))))

  receive-Evolves :
      (contact_id : String) (account : LocalAccount) (handlers : Handlers P) (created_at : ℕ)
      (e : Envelope) (ms ms' : List ChatMessage) (w v : World P)
      → receive contact_id account handlers created_at e ms w ≡ (ok ms', v)
      → Evolves ms ms'
  unfolding receive pure
  receive-Evolves contact_id account handlers created_at (call c) ms ms' w v h =
      let (_, u, e, k) = bind-ok _ _ _ h in subst (Evolves ms) (ok-injective k) (Evolves-refl ms)
  receive-Evolves contact_id account handlers created_at (text id body) ms ms' w v h =
      let (_, u1, e1, k1) = bind-ok _ _ _ h in
      let (_, u2, e2, k2) = bind-ok _ _ _ k1 in
      let (_, u3, e3, k3) = bind-ok _ _ _ k2 in
      subst (Evolves ms) (ok-injective k3) (Evolves-append ms _)
  receive-Evolves contact_id account handlers created_at (file f) ms ms' w v h =
      let (_, u1, e1, k1) = bind-ok _ _ _ h in
      subst (Evolves ms) (ok-injective k1) (Evolves-append ms _)
  receive-Evolves contact_id account handlers created_at (timer seconds) ms ms' w v h =
      let (_, u, e, k) = bind-ok _ _ _ h in subst (Evolves ms) (ok-injective k) (Evolves-refl ms)
  receive-Evolves contact_id account handlers created_at (file_opened ref_id) ms ms' w v h =
      subst (Evolves ms) (ok-injective h)
        (Evolves-update_first (is_own ref_id) _ ms (λ m own found. ground arith))
  receive-Evolves contact_id account handlers created_at (receipt kind ref_id) ms ms' w v h =
      apply_receipt-Evolves kind ref_id ms ms' w v h
  receive-Evolves contact_id account handlers created_at (group g) ms ms' w v h =
      subst (Evolves ms) (ok-injective h) (Evolves-refl ms)

  receive_from-Evolves :
      (contact_id : Option String) (account : LocalAccount) (handlers : Handlers P)
      (message : ReceivedMessage) (e : Envelope) (ms ms' : List ChatMessage) (w v : World P)
      → receive_from contact_id account handlers message e ms w ≡ (ok ms', v)
      → Evolves ms ms'
  unfolding receive_from pure
  receive_from-Evolves none account handlers message e ms ms' w v h =
      subst (Evolves ms) (ok-injective h) (Evolves-refl ms)
  receive_from-Evolves (some c) account handlers message e ms ms' w v h =
      elim (Bool-cases (message.sender_account_id == c)) [
        | inl same ↦
            receive-Evolves c account handlers message.created_at e ms ms' w v (rw same at h)
        | inr differ ↦ subst (Evolves ms) (ok-injective (rw differ at h)) (Evolves-refl ms)
      ]

  route-Evolves :
      (contact_id : Option String) (account : LocalAccount) (handlers : Handlers P)
      (message : ReceivedMessage) (e : Envelope) (ms ms' : List ChatMessage) (w v : World P)
      → route contact_id account handlers message e ms w ≡ (ok ms', v)
      → Evolves ms ms'
  unfolding route pure
  route-Evolves contact_id account handlers message (group g) ms ms' w v h =
      let (_, u, e, k) = bind-ok _ _ _ h in subst (Evolves ms) (ok-injective k) (Evolves-refl ms)
  route-Evolves contact_id account handlers message e ms ms' w v h =
      receive_from-Evolves contact_id account handlers message e ms ms' w v h

  process-Evolves :
      (contact_id : Option String) (account : LocalAccount) (handlers : Handlers P)
      (message : ReceivedMessage) (ms ms' : List ChatMessage) (w v : World P)
      → process contact_id account handlers message ms w ≡ (ok ms', v)
      → Evolves ms ms'
  unfolding process pure
  process-Evolves contact_id account handlers message ms ms' w v h =
      let (_, u1, e1, k1) = bind-ok _ _ _ h in
      let (plaintext, u2, e2, k2) = bind-ok _ _ _ k1 in
      let (envelope, u3, e3, k3) = bind-ok _ _ _ k2 in
      let (after, u4, e4, k4) = bind-ok _ _ _ k3 in
      let (_, u5, e5, k5) = bind-ok _ _ _ k4 in
      subst (Evolves ms) (ok-injective k5)
        (route-Evolves contact_id account handlers message envelope ms after u3 u4 e4)

  -- Whatever arrives, from whomever, a pass over the received messages that succeeds drops,
  -- reorders and rewrites nothing of the history: messages are appended, and on messages sent from
  -- here the status may change and a missing expiry may be set.
  pub process_all-Evolves :
      (contact_id : Option String) (account : LocalAccount) (handlers : Handlers P)
      (received : List ReceivedMessage) (ms ms' : List ChatMessage) (w v : World P)
      → process_all contact_id account handlers received ms w ≡ (ok ms', v)
      → Evolves ms ms'
  unfolding process_all pure
  process_all-Evolves contact_id account handlers [] ms ms' w v h =
      subst (Evolves ms) (ok-injective h) (Evolves-refl ms)
  process_all-Evolves contact_id account handlers (m ∷ received) ms ms' w v h =
      let (after, u, e, k) = bind-ok _ _ _ h in
      Evolves-trans ms after ms' (process-Evolves contact_id account handlers m ms after w u e)
        (process_all-Evolves contact_id account handlers received after ms' u v k)
