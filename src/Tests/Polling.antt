-- ===== src/Tests/Polling.antt =====
-- A poll of the conversation with "bob": a text and a receipt wait, and one message has expired; and
-- a poll that fails at its second message.
use umbra_chat.Prelude.{◌≡◌, refl, arith, ◌+◌, ◌*◌, none, some, List, [], ◌∷◌, ◌++◌, All, find}
use umbra_chat.Message.{Direction, MessageStatus, ChatMessage, plain_message}
use umbra_chat.Envelope.{ReceiptKind}
use umbra_chat.Http.{ReceivedMessage}
use umbra_chat.Exec.{wasm_error, ok, err}
use umbra_chat.World.{World}
use umbra_chat.World.Frame.{history}
use umbra_chat.Storage.{load_messages}
use umbra_chat.Api.{fetch_messages}
use umbra_chat.Conversation.Poll.{Handlers, is_own, status_of, apply_receipt, process_all, poll}
use umbra_chat.Group.Grown.{IsOfGroup}
use umbra_chat.App.Pages.{all_handlers}
use umbra_chat.App.Lost.{poll_of_page-err}
use umbra_chat.Conversation.Poll.History.{Evolves, process_all-Evolves}
use umbra_chat.Conversation.Poll.Receipts.{apply_receipt-status, apply_receipt-read}
use umbra_chat.Conversation.Poll.Strangers.{process_all-foreign}
use umbra_chat.Conversation.Poll.Remains.{Remains}
use umbra_chat.Conversation.Poll.Sweep.{poll-history}
use umbra_chat.Tests.{toy, alice, online, garbled, timed, stale, run_model}

abbrev no_handlers : Handlers toy
no_handlers = record { on_call_signal = none; on_group_signal = none }

abbrev hello : ChatMessage
hello = record (plain_message "t1" Direction.received "hello" MessageStatus.delivered 6000) {
  expires_at = some 37000;
}

abbrev now_read : ChatMessage
now_read = record timed { status = MessageStatus.read; expires_at = some 67000 }

abbrev polled : World toy
polled = (poll (some "bob") alice no_handlers online).1

abbrev failed_poll : World toy
failed_poll = (poll (some "bob") alice all_handlers garbled).1

abbrev waiting : List ReceivedMessage
waiting =
    record {
      sender_account_id = "bob";
      sender_device_id = "bob-phone";
      envelope = 2 ∷ 2 ∷ [];
      created_at = 6000;
    }
    ∷ []

abbrev processed : World toy
processed = (process_all (some "bob") alice no_handlers waiting (timed ∷ stale ∷ []) online).1

abbrev marked : World toy
marked = (apply_receipt ReceiptKind.read "s1" (stale ∷ timed ∷ []) online).1

abbrev taken_back : World toy
taken_back = (apply_receipt ReceiptKind.delivered "s1" (now_read ∷ []) online).1

polled-runs : poll (some "bob") alice no_handlers online ≡ (ok (now_read ∷ hello ∷ []), polled)
unfolding run_model
polled-runs = refl

failed_poll-runs :
    poll (some "bob") alice all_handlers garbled ≡ (err (wasm_error "empty envelope"), failed_poll)
unfolding run_model
failed_poll-runs = refl

-- The first message was decrypted and answered before the poll failed.
answered : failed_poll.env.inbox ≡ []
unfolding run_model
answered = refl

processed-runs :
    process_all (some "bob") alice no_handlers waiting (timed ∷ stale ∷ []) online
    ≡ (ok (now_read ∷ stale ∷ []), processed)
unfolding run_model
processed-runs = refl

marked-runs :
    apply_receipt ReceiptKind.read "s1" (stale ∷ timed ∷ []) online
    ≡ (ok (stale ∷ now_read ∷ []), marked)
unfolding run_model
marked-runs = refl

taken_back-runs :
    apply_receipt ReceiptKind.delivered "s1" (now_read ∷ []) online
    ≡ (ok (record now_read { status = MessageStatus.delivered } ∷ []), taken_back)
unfolding run_model
taken_back-runs = refl

process_all-Evolves_example : Evolves (timed ∷ stale ∷ []) (now_read ∷ stale ∷ [])
process_all-Evolves_example =
    process_all-Evolves (some "bob") alice no_handlers waiting (timed ∷ stale ∷ [])
      (now_read ∷ stale ∷ []) online processed processed-runs

poll-history_example :
    (history polled "bob" ≡ now_read ∷ hello ∷ [])
    × (received : List ReceivedMessage) × (messages : List ChatMessage) × (u1 : World toy)
    × (u2 : World toy) × (u3 : World toy) × (fetch_messages alice online ≡ (ok received, u1))
    × (load_messages "bob" u1 ≡ (ok (history online "bob"), u2))
    × (process_all (some "bob") alice no_handlers received (history online "bob") u2
        ≡ (ok messages, u3))
    × Remains (toy.date_now u3.env).0 messages (now_read ∷ hello ∷ [])
    × Evolves (history online "bob") messages
poll-history_example =
    poll-history "bob" alice no_handlers online polled (now_read ∷ hello ∷ []) polled-runs

poll_of_page-err_example :
    (late : List ChatMessage) × (history failed_poll "bob" ≡ history garbled "bob" ++ late)
    × All IsOfGroup late
poll_of_page-err_example =
    poll_of_page-err "bob" alice garbled failed_poll (wasm_error "empty envelope") failed_poll-runs

apply_receipt-status_example :
    (m' : ChatMessage) × (find
        (is_own "s1")
        (record now_read { status = MessageStatus.delivered } ∷ [])
      ≡ some m')
    × (m'.status ≡ status_of ReceiptKind.delivered)
apply_receipt-status_example =
    apply_receipt-status ReceiptKind.delivered "s1" (now_read ∷ [])
      (record now_read { status = MessageStatus.delivered } ∷ []) now_read online taken_back refl
      taken_back-runs

apply_receipt-read_example :
    (m' : ChatMessage) × (find (is_own "s1") (stale ∷ now_read ∷ []) ≡ some m')
    × (m'.expires_at ≡ some ((toy.date_now online.env).0 + 60 * 1000))
apply_receipt-read_example =
    apply_receipt-read "s1" (stale ∷ timed ∷ []) (stale ∷ now_read ∷ []) timed 60 online marked refl
      refl (omega arith) refl marked-runs

abbrev from_carol : List ReceivedMessage
from_carol =
    record {
      sender_account_id = "carol";
      sender_device_id = "c1";
      envelope = 2 ∷ 2 ∷ [];
      created_at = 6000;
    }
    ∷ []

abbrev carol_polled : World toy
carol_polled = (process_all (some "bob") alice no_handlers from_carol (timed ∷ []) online).1

carol_polled-runs :
    process_all (some "bob") alice no_handlers from_carol (timed ∷ []) online
    ≡ (ok (timed ∷ []), carol_polled)
unfolding run_model
carol_polled-runs = refl

process_all-foreign_example : timed ∷ [] ≡ timed ∷ []
process_all-foreign_example =
    process_all-foreign (some "bob") alice no_handlers from_carol (timed ∷ []) (timed ∷ []) online
      carol_polled (refl, tt) carol_polled-runs
