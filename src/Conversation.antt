-- ===== src/Conversation.antt =====
-- web/src/chat/conversation.ts: what sends. `poll` is in the child Poll; the proofs are in the
-- other children.
pub mod Delivery
pub mod Files
pub mod Frame
pub mod Limits
pub mod Outbox
pub mod Poll
use umbra_chat.Prelude.{
  ℕ, ◌+◌, ◌*◌, String, ◌==◌, ◌<>◌, Bool, true, false, not, Option, none, some, or_default, is_set,
  List, [], ◌∷◌, ◌++◌, filter, find, ltb, if◌then◌else◌,
}
use umbra_chat.Prelude.Dict.{lookup, insert}
use umbra_chat.Identity.{Bytes, LocalAccount}
use umbra_chat.Message.{Direction, ChatMessage, MessageStatus, plain_message}
use umbra_chat.Envelope.{CallEnvelope, Envelope, text, file, file_opened, timer, call}
use umbra_chat.Http.{DeviceInfo}
use umbra_chat.Platform.{Platform}
use umbra_chat.Exec.{Exec, thrown, pure, throw, gets, modify, for_each, ◌>>=◌, ◌>>◌}
use umbra_chat.World.{Io, date_now, random_uuid, to_iso}
use umbra_chat.Storage.{load_messages, save_messages}
use umbra_chat.Signal.{
  has_session, establish_session, encrypt, open_store, persist_session, restore_session,
}
use umbra_chat.Api.{list_devices, send_message, fetch_prekey_bundle}

-- A file that the user picked: the browser's `File`.
pub record File : Type 0 where
  pub name : String
  pub mime_type : String
  pub size : ℕ
  pub bytes : Bytes

pub data FileSendStage : Type 0 where
  encrypting sending sent : FileSendStage

pub data FileDestruct : Type 0 where
  on_open : FileDestruct
  after_seconds : ℕ → FileDestruct

abbrev pub max_file_bytes : ℕ
max_file_bytes = 8 * 1024 * 1024

unfoldable pub is_file_too_large : File → Bool
is_file_too_large f = ltb max_file_bytes f.size

unfoldable pub session_key : String → String → String
session_key contact_account_id device_id = contact_account_id <> ":" <> device_id

-- `...(seconds > 0 ? { timerSeconds } : {})`
abbrev pub positive : ℕ → Option ℕ
positive seconds = if ltb 0 seconds then some seconds else none

abbrev pub destruct_on_open : Option FileDestruct → Option Bool
destruct_on_open (some on_open) = some true
destruct_on_open _ = none

abbrev pub destruct_seconds : Option FileDestruct → Option ℕ
destruct_seconds (some (after_seconds seconds)) = some seconds
destruct_seconds _ = none

-- `file.type || "application/octet-stream"`
abbrev pub mime_type_of : String → String
mime_type_of mime_type = if mime_type == "" then "application/octet-stream" else mime_type

-- `target?.destructOnOpen`
abbrev pub destructs_on_open : Option ChatMessage → Bool
destructs_on_open none = false
destructs_on_open (some m) = is_set m.destruct_on_open

module _ {P : Platform} where
  -- `if (!store.has_session(key)) { … }`
  unfoldable pub establish_unless : Bool → String → String → LocalAccount → Io P Unit
  establish_unless true key device_id account = pure tt
  establish_unless false key device_id account = do
    bundle ← fetch_prekey_bundle device_id account
    establish_session key bundle

  -- the body of the loop of `sendToContact`
  unfoldable pub send_to_device : String → Bytes → LocalAccount → DeviceInfo → Io P Unit
  unfolding establish_unless
  send_to_device contact_id plaintext account device = do
    let key = session_key contact_id device.id
    restore_session key
    known ← has_session key
    establish_unless known key device.id account
    ciphertext ← encrypt key plaintext
    send_message device.id ciphertext account
    persist_session key

  send_to_devices : String → Bytes → LocalAccount → List DeviceInfo → Io P Unit
  unfolding send_to_device
  send_to_devices contact_id plaintext account [] =
      throw (thrown "this contact has no reachable devices")
  send_to_devices contact_id plaintext account (d ∷ ds) =
      for_each (d ∷ ds) (send_to_device contact_id plaintext account)

  unfoldable pub send_to_contact : String → Bytes → LocalAccount → Io P Unit
  unfolding send_to_devices
  send_to_contact contact_id plaintext account = do
    devices ← list_devices contact_id account
    send_to_devices contact_id plaintext account devices

  -- `sendToContact` of `new TextEncoder().encode(JSON.stringify(envelope))`
  unfoldable pub send_envelope : String → Envelope → LocalAccount → Io P Unit
  send_envelope contact_id envelope account =
      send_to_contact contact_id (P.stringify envelope) account

  unfoldable pub send_call_signal : String → CallEnvelope → LocalAccount → Io P Unit
  send_call_signal contact_id envelope account = send_envelope contact_id (call envelope) account

  unfoldable pub get_timer_seconds : String → Io P ℕ
  get_timer_seconds contact_id = gets (λ w. or_default (lookup contact_id w.timers) 0)

  unfoldable pub set_timer_seconds_local : String → ℕ → Io P Unit
  set_timer_seconds_local contact_id seconds =
      modify (λ w. record w { timers = insert contact_id seconds w.timers })

  unfoldable pub set_disappearing_timer : String → ℕ → LocalAccount → Io P Unit
  set_disappearing_timer contact_id seconds account = do
    send_envelope contact_id (timer seconds) account
    set_timer_seconds_local contact_id seconds

  unfoldable pub start_conversation : String → LocalAccount → Io P Unit
  start_conversation _contact_id account = open_store account.identity

  -- `new Date().toISOString()`, and `new Date(Date.now() + seconds * 1000).toISOString()`
  unfoldable pub now_iso : Io P ℕ
  now_iso = do now ← date_now; to_iso now

  unfoldable pub expiry_after : ℕ → Io P ℕ
  expiry_after seconds = do now ← date_now; to_iso (now + seconds * 1000)

  -- `...(o ? { expiresAt: … } : {})`
  unfoldable pub expiry_if : Option ℕ → Io P (Option ℕ)
  expiry_if none = pure none
  expiry_if (some seconds) = do at ← expiry_after seconds; pure (some at)

  unfoldable pub send_text : String → String → LocalAccount → Io P (List ChatMessage)
  send_text contact_id body account = do
    id ← random_uuid
    send_envelope contact_id (text id body) account
    messages ← load_messages contact_id
    timer_seconds ← get_timer_seconds contact_id
    created_at ← now_iso
    let message = plain_message id Direction.sent body MessageStatus.sent created_at
    let messages' = messages ++ (record message { timer_seconds = positive timer_seconds } ∷ [])
    save_messages contact_id messages'
    pure messages'

  -- What `sendFile` does between the stages "sending" and "sent".
  unfoldable pub deliver_file :
      String → String → File → LocalAccount → Option FileDestruct → Io P (List ChatMessage)
  deliver_file id contact_id f account destruct = do
    let mime_type = mime_type_of f.mime_type
    send_envelope contact_id
        (file (record {
          id = id;
          filename = f.name;
          mime_type = mime_type;
          size = f.size;
          payload = f.bytes;
          destruct_on_open = destruct_on_open destruct;
          timer_seconds = destruct_seconds destruct;
        }))
        account
    messages ← load_messages contact_id
    created_at ← now_iso
    expires_at ← expiry_if (destruct_seconds destruct)
    let message = plain_message id Direction.sent "" MessageStatus.sent created_at
    let messages' =
        messages
        ++ (record message {
          file =
              some (record {
                filename = f.name;
                mime_type = mime_type;
                size = f.size;
                bytes = f.bytes;
              });
          destruct_on_open = destruct_on_open destruct;
          expires_at = expires_at;
        }
            ∷ [])
    save_messages contact_id messages'
    pure messages'

  -- `sendFile` for a callback that changes a state of its own, in which the client's functions run.
  unfoldable pub send_file_in :
      {S : Type 0}
      → ((A : Type 0) → Io P A → Exec S A)
      → String
      → File
      → LocalAccount
      → (FileSendStage → Exec S Unit)
      → Option FileDestruct
      → Exec S (List ChatMessage)
  unfolding deliver_file
  send_file_in run contact_id f account on_stage destruct = do
    on_stage encrypting
    id ← run String random_uuid
    on_stage sending
    messages ← run (List ChatMessage) (deliver_file id contact_id f account destruct)
    on_stage FileSendStage.sent
    pure messages

  -- `sendFile` for a callback that changes nothing but the client's state.
  unfoldable pub send_file :
      String
      → File
      → LocalAccount
      → (FileSendStage → Io P Unit)
      → Option FileDestruct
      → Io P (List ChatMessage)
  unfolding send_file_in
  send_file contact_id f account on_stage destruct =
      send_file_in (λ A m. m) contact_id f account on_stage destruct

  unfoldable pub mark_file_opened : String → String → LocalAccount → Io P (List ChatMessage)
  mark_file_opened contact_id message_id account = do
    send_envelope contact_id (file_opened message_id) account
    messages ← load_messages contact_id
    let target = find (λ m. m.id == message_id) messages
    let remaining = filter (λ m. not (m.id == message_id)) messages
    if not (destructs_on_open target)
        then pure messages
        else do save_messages contact_id remaining; pure remaining
