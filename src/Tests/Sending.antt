-- ===== src/Tests/Sending.antt =====
-- Sending to "bob", who has a phone; and to "bob" who has no device.
use umbra_chat.Prelude.{
  ◌≡◌, ◌≢◌, refl, ℕ, String, ◌==◌, true, some, or_default, List, [], ◌∷◌, ◌++◌, map, find,
  if◌then◌else◌,
}
use umbra_chat.Prelude.Dict.{lookup, insert}
use umbra_chat.Message.{Direction, MessageStatus, ChatMessage, plain_message}
use umbra_chat.Http.{DeviceInfo}
use umbra_chat.Exec.{Result, thrown, ok, err, pure}
use umbra_chat.Identity.{Bytes}
use umbra_chat.World.{World, Io}
use umbra_chat.World.Frame.{local_data, history}
use umbra_chat.Api.{list_devices}
use umbra_chat.Signal.{open_store, persist_session, restore_session}
use umbra_chat.Signal.Persistence.{restore_session-persist_session}
use umbra_chat.Exec.Keeps.{Keeps}
use umbra_chat.Conversation.Files.{sent_file}
use mathlib.Core.Path.{subst}
use umbra_chat.Conversation.{
  send_to_contact, send_text, set_disappearing_timer, mark_file_opened, positive, destructs_on_open,
  File, FileSendStage, after_seconds, send_file,
}
use umbra_chat.Conversation.Delivery.{recipients, send_to_contact-recipients}
use umbra_chat.Conversation.Outbox.{
  after_opening, send_text-ok, send_text-err, set_disappearing_timer-local_data, timer_set,
  mark_file_opened-ok,
}
use umbra_chat.Tests.{toy, alice, online, unreachable, timed, stale, run_model, first_byte}

abbrev no_devices : String
no_devices = "this contact has no reachable devices"

abbrev hi : ChatMessage
hi = record (plain_message "id0" Direction.sent "hi" MessageStatus.sent 7000) {
  timer_seconds = some 30;
}

-- A picture that destructs after ten seconds, and one session kept.
abbrev picture : File
picture = record { name = "p.png"; mime_type = ""; size = 3; bytes = 1 ∷ 2 ∷ 3 ∷ [] }

abbrev quietly : FileSendStage → Io toy Unit
quietly stage = pure tt

abbrev filed : World toy
filed = (send_file "bob" picture alice quietly (some (after_seconds 10)) online).1

abbrev filed_messages : List ChatMessage
filed_messages = timed ∷ stale ∷ sent_file "id0" picture (some (after_seconds 10)) 7000 7000 ∷ []

abbrev loaded : World toy
loaded = record online { store = record { session_store = ("bob:bob-phone", 5) ∷ []; keys = tt } }

abbrev persisted : World toy
persisted = (persist_session "bob:bob-phone" loaded).1

abbrev reopened : World toy
reopened = (open_store alice.identity persisted).1

abbrev restored : World toy
restored = (restore_session "bob:bob-phone" reopened).1

abbrev delivered : World toy
delivered = (send_to_contact "bob" (9 ∷ []) alice online).1

abbrev listed : World toy
listed = (list_devices "bob" alice unreachable).1

abbrev texted : World toy
texted = (send_text "bob" "hi" alice online).1

abbrev not_texted : World toy
not_texted = (send_text "bob" "hi" alice unreachable).1

abbrev set : World toy
set = (set_disappearing_timer "bob" 60 alice online).1

abbrev not_set : World toy
not_set = (set_disappearing_timer "bob" 60 alice unreachable).1

-- A history with a file that destructs on opening.
abbrev secret : ChatMessage
secret = record (plain_message "f1" Direction.received "" MessageStatus.delivered 3000) {
  destruct_on_open = some true;
}

abbrev with_secret : World toy
with_secret = record online { messages = ("bob", timed ∷ secret ∷ []) ∷ [] }

abbrev burnt : World toy
burnt = (mark_file_opened "bob" "f1" alice with_secret).1

-- The request that reaches the phone is the third: the devices and the prekey bundle come before.
delivery : recipients delivered.requests ≡ "bob-phone" ∷ []
unfolding run_model
delivery = refl

delivered-runs : send_to_contact "bob" (9 ∷ []) alice online ≡ (ok tt, delivered)
unfolding run_model
delivered-runs = refl

listed-runs : list_devices "bob" alice unreachable ≡ (ok [], listed)
unfolding run_model
listed-runs = refl

texted-runs : send_text "bob" "hi" alice online ≡ (ok (timed ∷ stale ∷ hi ∷ []), texted)
unfolding run_model
texted-runs = refl

not_texted-runs : send_text "bob" "hi" alice unreachable ≡ (err (thrown no_devices), not_texted)
unfolding run_model
not_texted-runs = refl

set-runs : set_disappearing_timer "bob" 60 alice online ≡ (ok tt, set)
unfolding run_model
set-runs = refl

not_set-runs :
    set_disappearing_timer "bob" 60 alice unreachable ≡ (err (thrown no_devices), not_set)
unfolding run_model
not_set-runs = refl

burnt-runs : mark_file_opened "bob" "f1" alice with_secret ≡ (ok (timed ∷ []), burnt)
unfolding run_model
burnt-runs = refl

send_to_contact-recipients_example :
    (devices : List DeviceInfo) × (u : World toy) × (list_devices "bob" alice online
      ≡ (ok devices, u))
    × (devices ≢ [])
    × (recipients delivered.requests ≡ recipients online.requests ++ map (λ d. d.id) devices)
send_to_contact-recipients_example =
    send_to_contact-recipients "bob" (9 ∷ []) alice online delivered delivered-runs

send_text-ok_example :
    (id : String) × (created_at : ℕ) × (timed ∷ stale ∷ hi ∷ []
      ≡ history online "bob"
        ++ record (plain_message id Direction.sent "hi" MessageStatus.sent created_at) {
          timer_seconds = positive (or_default (lookup "bob" online.timers) 0);
        }
          ∷ [])
    × (local_data texted ≡ record (local_data online) {
      messages = insert "bob" (timed ∷ stale ∷ hi ∷ []) online.messages;
    })
send_text-ok_example =
    send_text-ok "bob" "hi" alice online texted (timed ∷ stale ∷ hi ∷ []) texted-runs

send_text-err_example : local_data not_texted ≡ local_data unreachable
send_text-err_example =
    send_text-err "bob" "hi" alice unreachable not_texted (thrown no_devices) not_texted-runs

set_disappearing_timer-local_data_example :
    local_data (set_disappearing_timer "bob" 60 alice online).1
    ≡ timer_set (set_disappearing_timer "bob" 60 alice online).0 "bob" 60 (local_data online)
set_disappearing_timer-local_data_example = set_disappearing_timer-local_data "bob" 60 alice online

mark_file_opened-ok_example :
    (timed ∷ [] ≡ after_opening "f1" (history with_secret "bob"))
    × (local_data burnt ≡ (
        if destructs_on_open (find (λ m. m.id == "f1") (history with_secret "bob"))
        then record (local_data with_secret) {
          messages = insert "bob" (timed ∷ []) with_secret.messages;
        }
        else local_data with_secret))
mark_file_opened-ok_example =
    mark_file_opened-ok "bob" "f1" alice with_secret burnt (timed ∷ []) burnt-runs

reads_back : (s : ℕ) (bytes : Bytes) → toy.serialize s ≡ ok bytes → toy.deserialize bytes ≡ ok s
reads_back s bytes h = subst (λ b. first_byte b ≡ ok s) (one_byte h) refl
  where
    one_byte : ◌≡◌ {A = Result Bytes} (ok (s ∷ [])) (ok bytes) → s ∷ [] ≡ bytes
    one_byte e = cc

persisted-runs : persist_session "bob:bob-phone" loaded ≡ (ok tt, persisted)
unfolding run_model
persisted-runs = refl

reopened-runs : open_store alice.identity persisted ≡ (ok tt, reopened)
unfolding run_model
reopened-runs = refl

restored-runs : restore_session "bob:bob-phone" reopened ≡ (ok tt, restored)
unfolding run_model
restored-runs = refl

restore_session-persist_session_example :
    lookup "bob:bob-phone" restored.store.session_store ≡ some 5
unfolding lookup
restore_session-persist_session_example =
    restore_session-persist_session reads_back "bob:bob-phone" 5 alice.identity loaded persisted
      reopened restored refl persisted-runs reopened-runs restored-runs
