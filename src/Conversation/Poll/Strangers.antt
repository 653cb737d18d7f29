-- ===== src/Conversation/Poll/Strangers.antt =====
-- Messages from anybody but the contact whose conversation is open.
use umbra_chat.Prelude.{◌≡◌, ◌∙◌, String, ◌==◌, false, Option, none, some, List, [], ◌∷◌}
use umbra_chat.Identity.{LocalAccount}
use umbra_chat.Message.{ChatMessage}
use umbra_chat.Envelope.{Envelope, group}
use umbra_chat.Http.{ReceivedMessage}
use umbra_chat.Platform.{Platform}
use umbra_chat.Exec.{ok, pure}
use umbra_chat.Exec.Bind.{bind-ok, ok-injective}
use umbra_chat.World.{World}
use umbra_chat.Conversation.Poll.{Handlers, receive_from, route, process, process_all}

-- Not a message of the open conversation.
abbrev pub IsForeign : Option String → ReceivedMessage → Type 0
IsForeign none m = Unit
IsForeign (some contact_id) m = (m.sender_account_id == contact_id) ≡ false

abbrev pub AllForeign : Option String → List ReceivedMessage → Type 0
AllForeign contact_id [] = Unit
AllForeign contact_id (m ∷ ms) = IsForeign contact_id m × AllForeign contact_id ms

module _ {P : Platform} where
  receive_from-foreign :
      (contact_id : Option String) (account : LocalAccount) (handlers : Handlers P)
      (m : ReceivedMessage) (e : Envelope) (ms ms' : List ChatMessage) (w v : World P)
      → IsForeign contact_id m
      → receive_from contact_id account handlers m e ms w ≡ (ok ms', v)
      → ms ≡ ms'
  unfolding receive_from pure
  receive_from-foreign none account handlers m e ms ms' w v foreign h = ok-injective h
  receive_from-foreign (some c) account handlers m e ms ms' w v foreign h =
      ok-injective (rw foreign at h)

  route-foreign :
      (contact_id : Option String) (account : LocalAccount) (handlers : Handlers P)
      (m : ReceivedMessage) (e : Envelope) (ms ms' : List ChatMessage) (w v : World P)
      → IsForeign contact_id m
      → route contact_id account handlers m e ms w ≡ (ok ms', v)
      → ms ≡ ms'
  unfolding route pure
  route-foreign contact_id account handlers m (group g) ms ms' w v foreign h =
      let (_, u, e, k) = bind-ok _ _ _ h in ok-injective k
  route-foreign contact_id account handlers m e ms ms' w v foreign h =
      receive_from-foreign contact_id account handlers m e ms ms' w v foreign h

  process-foreign :
      (contact_id : Option String) (account : LocalAccount) (handlers : Handlers P)
      (m : ReceivedMessage) (ms ms' : List ChatMessage) (w v : World P)
      → IsForeign contact_id m
      → process contact_id account handlers m ms w ≡ (ok ms', v)
      → ms ≡ ms'
  unfolding process pure
  process-foreign contact_id account handlers m ms ms' w v foreign h =
      let (_, u1, e1, k1) = bind-ok _ _ _ h in
      let (plaintext, u2, e2, k2) = bind-ok _ _ _ k1 in
      let (envelope, u3, e3, k3) = bind-ok _ _ _ k2 in
      let (after, u4, e4, k4) = bind-ok _ _ _ k3 in
      let (_, u5, e5, k5) = bind-ok _ _ _ k4 in
      route-foreign contact_id account handlers m envelope ms after u3 u4 foreign e4
      ∙ ok-injective k5

  -- Messages that all come from others than the contact whose conversation is open change nothing
  -- in the history that the poll works on, whatever they contain.
  pub process_all-foreign :
      (contact_id : Option String) (account : LocalAccount) (handlers : Handlers P)
      (received : List ReceivedMessage) (ms ms' : List ChatMessage) (w v : World P)
      → AllForeign contact_id received
      → process_all contact_id account handlers received ms w ≡ (ok ms', v)
      → ms ≡ ms'
  unfolding process_all pure
  process_all-foreign contact_id account handlers [] ms ms' w v foreign h = ok-injective h
  process_all-foreign contact_id account handlers (m ∷ received) ms ms' w v foreign h =
      let (after, u, e, k) = bind-ok _ _ _ h in
      process-foreign contact_id account handlers m ms after w u foreign.0 e
      ∙ process_all-foreign contact_id account handlers received after ms' u v foreign.1 k
