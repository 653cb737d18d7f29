-- ===== src/Conversation/Files.antt =====
-- `sendFile`, and how long a file stays.
use umbra_chat.Prelude.{ℕ, ◌+◌, ◌*◌, String, Option, none, some}
use umbra_chat.Message.{Direction, ChatMessage, MessageStatus, plain_message}
use umbra_chat.Platform.{Platform}
use umbra_chat.Exec.Keeps.{Keeps}
use umbra_chat.World.{World}
use umbra_chat.Envelope.{FileEnvelope, file}
use umbra_chat.Conversation.{File, FileDestruct, mime_type_of, destruct_on_open, destruct_seconds}

-- The time that is so many seconds after `now`, if there is a number of seconds.
abbrev pub seconds_after : ℕ → Option ℕ → Option ℕ
seconds_after now none = none
seconds_after now (some seconds) = some (now + seconds * 1000)

-- A file as it is stored by the device that sends it.
abbrev pub sent_file : String → File → Option FileDestruct → ℕ → ℕ → ChatMessage
sent_file id f destruct created_at now =
    record (plain_message id Direction.sent "" MessageStatus.sent created_at) {
      file = some (record {
        filename = f.name;
        mime_type = mime_type_of f.mime_type;
        size = f.size;
        bytes = f.bytes;
      });
      destruct_on_open = destruct_on_open destruct;
      expires_at = seconds_after now (destruct_seconds destruct);
    }

-- A file as it is sent.
abbrev pub file_envelope : String → File → Option FileDestruct → FileEnvelope
file_envelope id f destruct = record {
  id = id;
  filename = f.name;
  mime_type = mime_type_of f.mime_type;
  size = f.size;
  payload = f.bytes;
  destruct_on_open = destruct_on_open destruct;
  timer_seconds = destruct_seconds destruct;
}
