-- ===== src/Conversation/Poll/Receipts.antt =====
-- What a receipt does to the message that it names.
use mathlib.Core.Option.{some-injective}
use umbra_chat.Prelude.{
  ◌≡◌, refl, ap, sym, ◌∙◌, arith, ℕ, ◌+◌, ◌*◌, ◌<◌, String, Bool, Option, none, some, List, [], ◌∷◌,
  find, update_first, Bool-cases, inl, inr,
}
use umbra_chat.Message.{MessageStatus, ChatMessage}
use umbra_chat.Envelope.{ReceiptKind}
use umbra_chat.Platform.{Platform}
use umbra_chat.Exec.{ok, pure, throw, on_option}
use umbra_chat.Exec.Bind.{bind-ok, ok-injective}
use umbra_chat.World.{World, date_now, to_iso}
use umbra_chat.Conversation.{expiry_after, expiry_if}
use umbra_chat.Conversation.Poll.{is_own, status_of, clock_to_start, mark, apply_receipt}

find-update_first :
    (p : ChatMessage → Bool) (f : ChatMessage → ChatMessage) (xs : List ChatMessage)
    {m : ChatMessage}
    → ((x : ChatMessage) → p (f x) ≡ p x)
    → find p xs ≡ some m
    → find p (update_first p f xs) ≡ some (f m)
find-update_first p f [] same h = cc
find-update_first p f (x ∷ xs) {m} same h = elim (Bool-cases (p x)) [
  | inl hit ↦
      rw hit (rw (same x) (rw hit (ap (λ y. some (f y)) (some-injective x m (rw hit at h)))))
  | inr miss ↦ rw miss (rw miss (find-update_first p f xs same (rw miss at h)))
]

module _ {P : Platform} where
  apply_receipt-found :
      (kind : ReceiptKind) (ref_id : String) (ms ms' : List ChatMessage) (m : ChatMessage)
      (w v : World P)
      → find (is_own ref_id) ms ≡ some m
      → apply_receipt kind ref_id ms w ≡ (ok ms', v)
      → (expires_at : Option ℕ) × (expiry_if (clock_to_start kind m) w ≡ (ok expires_at, v))
        × (ms' ≡ update_first (is_own ref_id) (mark (status_of kind) expires_at) ms)
  unfolding apply_receipt on_option pure
  apply_receipt-found kind ref_id ms ms' m w v found h =
      let (expires_at, u, e, k) = bind-ok _ _ _ (rw (found, on_option) at h) in
      (expires_at, e ∙ ap (λ q. (ok expires_at, q.1)) k, sym (ok-injective k))

  -- A receipt that is applied gives the first message sent from here with its id the receipt's
  -- status, whatever the status was: a late "delivered" takes a "read" back.
  pub apply_receipt-status :
      (kind : ReceiptKind) (ref_id : String) (ms ms' : List ChatMessage) (m : ChatMessage)
      (w v : World P)
      → find (is_own ref_id) ms ≡ some m
      → apply_receipt kind ref_id ms w ≡ (ok ms', v)
      → (m' : ChatMessage) × (find (is_own ref_id) ms' ≡ some m') × (m'.status ≡ status_of kind)
  apply_receipt-status kind ref_id ms ms' m w v found h =
      let (expires_at, e, k) = apply_receipt-found kind ref_id ms ms' m w v found h in
      (
        mark (status_of kind) expires_at m,
        ap (find (is_own ref_id)) k
            ∙ find-update_first (is_own ref_id) (mark (status_of kind) expires_at) ms (λ x. refl)
                found,
        refl,
      )

  to_iso-ok : (ms r : ℕ) (w v : World P) → to_iso ms w ≡ (ok r, v) → r ≡ ms
  unfolding to_iso pure throw
  to_iso-ok ms r w v h = ground arith

  pub expiry_if-some :
      (seconds : ℕ) (r : Option ℕ) (w v : World P)
      → expiry_if (some seconds) w ≡ (ok r, v)
      → r ≡ some ((P.date_now w.env).0 + seconds * 1000)
  unfolding expiry_if expiry_after date_now pure
  expiry_if-some seconds r w v h =
      let (at, u, e, k) = bind-ok _ _ _ h in
      let (now, u', e', k') = bind-ok _ _ _ e in
      sym (ok-injective k)
      ∙ ap some (to_iso-ok _ at u' u k' ∙ ap (λ t. t + seconds * 1000) (sym (ok-injective e')))

  -- A "read" receipt that is applied without an error to a message with a timer of n > 0 seconds
  -- and no expiry starts its clock: it expires n seconds after the time that is read then.
  pub apply_receipt-read :
      (ref_id : String) (ms ms' : List ChatMessage) (m : ChatMessage) (seconds : ℕ) (w v : World P)
      → find (is_own ref_id) ms ≡ some m
      → m.timer_seconds ≡ some seconds
      → 0 < seconds
      → m.expires_at ≡ none
      → apply_receipt ReceiptKind.read ref_id ms w ≡ (ok ms', v)
      → (m' : ChatMessage) × (find (is_own ref_id) ms' ≡ some m')
        × (m'.expires_at ≡ some ((P.date_now w.env).0 + seconds * 1000))
  apply_receipt-read ref_id ms ms' m seconds w v found timed positive fresh h =
      let (expires_at, e, k) = apply_receipt-found ReceiptKind.read ref_id ms ms' m w v found h in
      let starts : clock_to_start ReceiptKind.read m ≡ some seconds = ground arith in
      let at = expiry_if-some seconds expires_at w v (rw starts at e) in
      (
        mark MessageStatus.read expires_at m,
        ap (find (is_own ref_id)) k
            ∙ find-update_first (is_own ref_id) (mark MessageStatus.read expires_at) ms (λ x. refl)
                found,
        ground (arith, at),
      )
