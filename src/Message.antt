-- ===== src/Message.antt =====
-- The stored history of a conversation and the stored groups: the types of
-- web/src/storage/messageStore.ts and storage/groupStore.ts. A time is a number of milliseconds
-- since the epoch, where the source keeps its ISO text.
use umbra_chat.Prelude.{ℕ, String, Bool, true, false, Option, none, List}
use umbra_chat.Identity.{Bytes}

pub record ChatFile : Type 0 where
  pub filename : String
  pub mime_type : String
  pub size : ℕ
  pub bytes : Bytes

pub data Direction : Type 0 where
  sent received : Direction

pub data MessageStatus : Type 0 where
  sent delivered read opened : MessageStatus

pub record ChatMessage : Type 0 where
  pub id : String
  pub direction : Direction
  pub text : String
  pub status : MessageStatus
  pub created_at : ℕ
  pub file : Option ChatFile
  pub timer_seconds : Option ℕ
  pub expires_at : Option ℕ
  pub destruct_on_open : Option Bool
  pub sender_account_id : Option String

-- `direction === "sent"`
abbrev pub is_sent : Direction → Bool
is_sent Direction.sent = true
is_sent Direction.received = false

-- A message with none of the optional fields.
abbrev pub plain_message : String → Direction → String → MessageStatus → ℕ → ChatMessage
plain_message id direction text status created_at = record {
  id = id;
  direction = direction;
  text = text;
  status = status;
  created_at = created_at;
  file = none;
  timer_seconds = none;
  expires_at = none;
  destruct_on_open = none;
  sender_account_id = none;
}

pub record Group : Type 0 where
  pub id : String
  pub name : String
  pub member_account_ids : List String
  pub created_at : ℕ
