-- ===== src/Conversation/Poll/Failure.antt =====
-- What a poll that throws leaves behind.
use umbra_chat.Prelude.{ℕ, String, Option, none, some, List, [], ◌∷◌}
use umbra_chat.Identity.{LocalAccount}
use umbra_chat.Message.{ChatMessage}
use umbra_chat.Envelope.{
  ReceiptKind, CallEnvelope, GroupEnvelope, Envelope, text, file, receipt, timer, call, group,
}
use umbra_chat.Http.{ReceivedMessage}
use umbra_chat.Platform.{Platform}
use umbra_chat.Exec.{when_some}
use umbra_chat.Exec.Atomic.{IsAtomic, atomic_rules}
use umbra_chat.Exec.Keeps.{Keeps, Keeps-bind}
use umbra_chat.World.{World}
use umbra_chat.World.Frame.{IsQuiet, IsDeaf}
use umbra_chat.Storage.Frame.{load_messages-Keeps}
use umbra_chat.Storage.{save_messages}
use umbra_chat.Signal.Frame.{signal_rules}
use umbra_chat.Api.Frame.{api_rules}
use umbra_chat.Conversation.{set_timer_seconds_local}
use umbra_chat.Conversation.Frame.{send_envelope-Keeps, get_timer_seconds-Keeps, expiry_if-Keeps}
use umbra_chat.Conversation.Poll.{
  Handlers, apply_receipt, receive, receive_from, route, parse_envelope, process, process_all, poll,
}

-- A store that a received envelope reaches only through the two handlers: it is kept by both, and
-- it depends on no timer.
pub record IsApart {P : Platform} (Q : World P → Type 0) (handlers : Handlers P) : Type 0 where
  pub quiet : IsQuiet Q
  pub deaf : IsDeaf Q
  pub timers :
      (contact_id : String) (seconds : ℕ)
      → Keeps Q (set_timer_seconds_local {P = P} contact_id seconds)
  pub on_call : (e : CallEnvelope) → Keeps Q (when_some handlers.on_call_signal (λ f. f e))
  pub on_group :
      (e : GroupEnvelope) (sender : String)
      → Keeps Q (when_some handlers.on_group_signal (λ f. f e sender))

ruleset receive_rules = (
  signal_rules, api_rules, send_envelope-Keeps, get_timer_seconds-Keeps, expiry_if-Keeps,
  load_messages-Keeps,
)

module _ {P : Platform} {Q : World P → Type 0} {handlers : Handlers P}
    (apart : IsApart Q handlers) where
  apply_receipt-Keeps :
      (kind : ReceiptKind) (ref_id : String) (ms : List ChatMessage)
      → Keeps Q (apply_receipt kind ref_id ms)
  unfolding apply_receipt
  apply_receipt-Keeps kind ref_id ms = search (receive_rules, apart.quiet)

  receive-Keeps :
      (contact_id : String) (account : LocalAccount) (created_at : ℕ) (e : Envelope)
      (ms : List ChatMessage)
      → Keeps Q (receive contact_id account handlers created_at e ms)
  unfolding receive
  receive-Keeps contact_id account created_at (call c) ms = search (receive_rules, apart.on_call)
  receive-Keeps contact_id account created_at (text id body) ms =
      search (receive_rules, apart.quiet, apart.deaf) depth 8
  receive-Keeps contact_id account created_at (file f) ms = search (receive_rules, apart.quiet)
  receive-Keeps contact_id account created_at (timer seconds) ms =
      search (receive_rules, apart.timers)
  receive-Keeps contact_id account created_at (receipt kind ref_id) ms =
      search (apply_receipt-Keeps)
  receive-Keeps contact_id account created_at _ ms = search receive_rules

  receive_from-Keeps :
      (contact_id : Option String) (account : LocalAccount) (m : ReceivedMessage) (e : Envelope)
      (ms : List ChatMessage)
      → Keeps Q (receive_from contact_id account handlers m e ms)
  unfolding receive_from
  receive_from-Keeps none account m e ms = search receive_rules
  receive_from-Keeps (some c) account m e ms = search (receive_rules, receive-Keeps)

  route-Keeps :
      (contact_id : Option String) (account : LocalAccount) (m : ReceivedMessage) (e : Envelope)
      (ms : List ChatMessage)
      → Keeps Q (route contact_id account handlers m e ms)
  unfolding route
  route-Keeps contact_id account m (group g) ms = search (receive_rules, apart.on_group)
  route-Keeps contact_id account m e ms = receive_from-Keeps contact_id account m e ms

  process-Keeps :
      (contact_id : Option String) (account : LocalAccount) (m : ReceivedMessage)
      (ms : List ChatMessage)
      → Keeps Q (process contact_id account handlers m ms)
  unfolding process parse_envelope
  process-Keeps contact_id account m ms = search (receive_rules, route-Keeps, apart.quiet) depth 10

  pub process_all-Keeps :
      (contact_id : Option String) (account : LocalAccount) (received : List ReceivedMessage)
      (ms : List ChatMessage)
      → Keeps Q (process_all contact_id account handlers received ms)
  unfolding process_all
  process_all-Keeps contact_id account [] ms = search receive_rules
  process_all-Keeps contact_id account (m ∷ received) ms =
      Keeps-bind _ _ (process-Keeps contact_id account m ms)
        (λ after. process_all-Keeps contact_id account received after)

  -- What a poll of a contact changes before its last write is what the handlers change.
  pub poll-IsAtomic :
      ((id : String) (ms : List ChatMessage) → IsAtomic Q (save_messages {P = P} id ms))
      → (contact_id : String) (account : LocalAccount)
      → IsAtomic Q (poll (some contact_id) account handlers)
  unfolding poll
  poll-IsAtomic saves contact_id account =
      search (atomic_rules, receive_rules, process_all-Keeps, saves, apart.quiet) depth 12
