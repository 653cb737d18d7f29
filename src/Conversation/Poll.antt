-- ===== src/Conversation/Poll.antt =====
-- web/src/chat/conversation.ts: `poll`, its loop over the received messages and its sweep.
pub mod Failure
pub mod History
pub mod Receipts
pub mod Remains
pub mod Strangers
pub mod Sweep
use umbra_chat.Prelude.{
  ℕ, ◌+◌, ◌*◌, ◌%◌, String, ◌==◌, Bool, true, false, not, ◌&&◌, ◌||◌, Option, none, some,
  or_default, is_some, truthy, is_set, List, [], ◌∷◌, ◌++◌, filter, map, find, update_first, length,
  ltb, nat_eq, if◌then◌else◌,
}
use umbra_chat.Identity.{Bytes, LocalAccount}
use umbra_chat.Message.{Direction, is_sent, ChatMessage, MessageStatus, opened, plain_message}
use umbra_chat.Envelope.{
  FileEnvelope, ReceiptKind, CallEnvelope, GroupEnvelope, Envelope, text, file, receipt,
  file_opened, timer, call, group,
}
use umbra_chat.Http.{ReceivedMessage}
use umbra_chat.Platform.{Platform}
use umbra_chat.Exec.{type_error, pure, throw, on_option, when_some, for_each, ◌>>=◌, ◌>>◌}
use umbra_chat.World.{World, Io, date_now, to_iso}
use umbra_chat.Storage.{load_messages, save_messages}
use umbra_chat.Signal.{decrypt, persist_session, restore_session}
use umbra_chat.Api.{fetch_messages}
use umbra_chat.Conversation.{
  session_key, send_envelope, get_timer_seconds, set_timer_seconds_local, positive, expiry_after,
  expiry_if,
}

-- `onCallSignal` and `onGroupSignal`, both optional.
pub record Handlers (P : Platform) : Type 0 where
  pub on_call_signal : Option (CallEnvelope → Io P Unit)
  pub on_group_signal : Option (GroupEnvelope → String → Io P Unit)

-- `m.id === refId && m.direction === "sent"`
abbrev pub is_own : String → ChatMessage → Bool
is_own ref_id m = m.id == ref_id && is_sent m.direction

abbrev pub status_of : ReceiptKind → MessageStatus
status_of ReceiptKind.delivered = MessageStatus.delivered
status_of ReceiptKind.read = MessageStatus.read

-- `envelope.type === "read" && target.timerSeconds && !target.expiresAt`, and the seconds
abbrev pub clock_to_start : ReceiptKind → ChatMessage → Option ℕ
clock_to_start ReceiptKind.delivered m = none
clock_to_start ReceiptKind.read m =
    if truthy m.timer_seconds && not (is_some m.expires_at) then m.timer_seconds else none

-- The status of a message is set, and its expiry if there is one to set.
abbrev pub mark : MessageStatus → Option ℕ → ChatMessage → ChatMessage
mark status expires_at m = record m {
  status = status;
  expires_at = if is_some expires_at then expires_at else m.expires_at;
}

-- `!m.expiresAt || new Date(m.expiresAt).getTime() > now`
unfoldable pub is_alive : ℕ → ChatMessage → Bool
is_alive now m = elim m.expires_at [ none ↦ true | some t ↦ ltb now t ]

-- `received.length > 0 || alive.length !== messages.length`
abbrev pub must_save : List ReceivedMessage → List ChatMessage → List ChatMessage → Bool
must_save received messages alive =
    ltb 0 (length received) || not (nat_eq (length alive) (length messages))

-- what a `Uint8Array` keeps of a number
abbrev uint8 : ℕ → ℕ
uint8 n = n % 256

module _ {P : Platform} where
  -- What the branch of a receipt does to the message that it names.
  unfoldable pub apply_receipt : ReceiptKind → String → List ChatMessage → Io P (List ChatMessage)
  apply_receipt kind ref_id messages =
      on_option (find (is_own ref_id) messages) (pure messages) λ target. do
        expires_at ← expiry_if (clock_to_start kind target)
        pure (update_first (is_own ref_id) (mark (status_of kind) expires_at) messages)

  -- The branches for an envelope of the open conversation.
  unfoldable pub receive :
      String → LocalAccount → Handlers P → ℕ → Envelope → List ChatMessage → Io P (List ChatMessage)
  unfolding apply_receipt
  receive contact_id account handlers created_at (call e) messages = do
    when_some handlers.on_call_signal (λ f. f e)
    pure messages
  receive contact_id account handlers created_at (text id body) messages = do
    timer_seconds ← get_timer_seconds contact_id
    expires_at ← expiry_if (positive timer_seconds)
    let message = plain_message id Direction.received body MessageStatus.delivered created_at
    let messages' = messages ++ (record message { expires_at = expires_at } ∷ [])
    for_each (ReceiptKind.delivered ∷ ReceiptKind.read ∷ [])
        (λ kind. send_envelope contact_id (receipt kind id) account)
    pure messages'
  receive contact_id account handlers created_at (file f) messages = do
    expires_at ← expiry_if (if truthy f.timer_seconds then f.timer_seconds else none)
    let message = plain_message f.id Direction.received "" MessageStatus.delivered created_at
    pure (
        messages
        ++ (record message {
          file = some (record {
            filename = f.filename;
            mime_type = f.mime_type;
            size = f.size;
            bytes = map uint8 f.payload;
          });
          destruct_on_open = if is_set f.destruct_on_open then some true else none;
          expires_at = expires_at;
        }
            ∷ []))
  receive contact_id account handlers created_at (timer seconds) messages = do
    set_timer_seconds_local contact_id seconds
    pure messages
  receive contact_id account handlers created_at (file_opened ref_id) messages =
      pure (update_first (is_own ref_id) (λ m. record m { status = opened }) messages)
  receive contact_id account handlers created_at (receipt kind ref_id) messages =
      apply_receipt kind ref_id messages
  -- a group envelope was handled before
  receive contact_id account handlers created_at (group e) messages = pure messages

  -- `if (!contactId || message.senderAccountId !== contactId)`: dropped, with a warning
  unfoldable pub receive_from :
      Option String
      → LocalAccount
      → Handlers P
      → ReceivedMessage
      → Envelope
      → List ChatMessage
      → Io P (List ChatMessage)
  unfolding receive
  receive_from none account handlers message envelope messages = pure messages
  receive_from (some contact_id) account handlers message envelope messages =
      if not (message.sender_account_id == contact_id)
      then pure messages
      else receive contact_id account handlers message.created_at envelope messages

  -- An envelope of a group goes to `onGroupSignal`, whoever sent it.
  unfoldable pub route :
      Option String
      → LocalAccount
      → Handlers P
      → ReceivedMessage
      → Envelope
      → List ChatMessage
      → Io P (List ChatMessage)
  unfolding receive_from
  route contact_id account handlers message (group e) messages = do
    when_some handlers.on_group_signal (λ f. f e message.sender_account_id)
    pure messages
  route contact_id account handlers message envelope messages =
      receive_from contact_id account handlers message envelope messages

  -- `JSON.parse(new TextDecoder().decode(plaintext))`
  parse_envelope : Bytes → Io P Envelope
  parse_envelope plaintext = on_option (P.parse plaintext) (throw type_error) pure

  -- The body of the loop.
  unfoldable pub process :
      Option String
      → LocalAccount
      → Handlers P
      → ReceivedMessage
      → List ChatMessage
      → Io P (List ChatMessage)
  unfolding route parse_envelope
  process contact_id account handlers message messages = do
    let key = session_key message.sender_account_id message.sender_device_id
    restore_session key
    plaintext ← decrypt key message.envelope
    envelope ← parse_envelope plaintext
    messages' ← route contact_id account handlers message envelope messages
    persist_session key
    pure messages'

  unfoldable pub process_all :
      Option String
      → LocalAccount
      → Handlers P
      → List ReceivedMessage
      → List ChatMessage
      → Io P (List ChatMessage)
  unfolding process
  process_all contact_id account handlers [] messages = pure messages
  process_all contact_id account handlers (m ∷ ms) messages = do
    messages' ← process contact_id account handlers m messages
    process_all contact_id account handlers ms messages'

  abbrev load_open : Option String → Io P (List ChatMessage)
  load_open none = pure []
  load_open (some contact_id) = load_messages contact_id

  -- `if (contactId && must_save) await saveMessages(contactId, alive)`
  abbrev save_open : Option String → Bool → List ChatMessage → Io P Unit
  save_open none needed alive = pure tt
  save_open (some contact_id) needed alive =
      if needed then save_messages contact_id alive else pure tt

  unfoldable pub poll : Option String → LocalAccount → Handlers P → Io P (List ChatMessage)
  unfolding process_all is_alive
  poll contact_id account handlers = do
    received ← fetch_messages account
    loaded ← load_open contact_id
    messages ← process_all contact_id account handlers received loaded
    now ← date_now
    let alive = filter (is_alive now) messages
    save_open contact_id (must_save received messages alive) alive
    pure alive
