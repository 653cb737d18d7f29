-- ===== src/Conversation/Poll/Remains.antt =====
-- web/src/chat/conversation.ts: which messages the sweep of `poll` leaves.
use umbra_chat.Prelude.{
  ◌≡◌, refl, arith, ℕ, ◌≤◌, ◌<◌, true, inl, inr, Option, none, some, List, [], ◌∷◌, filter, ltb,
  if◌then◌else◌, Bool-cases,
}
use umbra_chat.Message.{ChatMessage}
use umbra_chat.Conversation.Poll.{is_alive}

-- What is left of a history at a time: the messages that are to expire by then are gone.
pub data Remains (now : ℕ) : List ChatMessage → List ChatMessage → Type 0 where
  none_left : Remains now [] []
  lasts :
      {m : ChatMessage} {ms left : List ChatMessage}
      → m.expires_at ≡ none
      → Remains now ms left
      → Remains now (m ∷ ms) (m ∷ left)
  stays :
      {m : ChatMessage} {ms left : List ChatMessage} (t : ℕ)
      → m.expires_at ≡ some t
      → now < t
      → Remains now ms left
      → Remains now (m ∷ ms) (m ∷ left)
  expires :
      {m : ChatMessage} {ms left : List ChatMessage} (t : ℕ)
      → m.expires_at ≡ some t
      → t ≤ now
      → Remains now ms left
      → Remains now (m ∷ ms) left

sweep-Remains :
    (now : ℕ) (m : ChatMessage) (ms left : List ChatMessage)
    → Remains now ms left
    → (o : Option ℕ) → m.expires_at ≡ o
    → Remains now
        (m ∷ ms)
        (if (elim o [ none ↦ true | some t ↦ ltb now t ]) then m ∷ left else left)
sweep-Remains now m ms left r none e = lasts e r
sweep-Remains now m ms left r (some t) e = elim (Bool-cases (ltb now t)) [
  | inl l ↦ rw l (stays t e (ground (arith, l)) r)
  | inr l ↦ rw l (expires t e (ground (arith, l)) r)
]

pub filter-Remains : (now : ℕ) (ms : List ChatMessage) → Remains now ms (filter (is_alive now) ms)
unfolding is_alive
filter-Remains now [] = none_left
filter-Remains now (m ∷ ms) = sweep-Remains now m ms _ (filter-Remains now ms) m.expires_at refl
