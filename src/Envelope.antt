-- ===== src/Envelope.antt =====
-- The plaintext envelopes that clients exchange: the union types of
-- web/src/chat/conversation.ts, a constructor for each `type` tag. Numbers are naturals.
use umbra_chat.Prelude.{ℕ, String, Bool, Option, none, some, List}
use umbra_chat.Identity.{Bytes}

pub record FileEnvelope : Type 0 where
  pub id : String
  pub filename : String
  pub mime_type : String
  pub size : ℕ
  pub payload : Bytes
  pub destruct_on_open : Option Bool
  pub timer_seconds : Option ℕ

pub data ReceiptKind : Type 0 where
  delivered read : ReceiptKind

pub data CallKind : Type 0 where
  voice video : CallKind

pub data CallEndReason : Type 0 where
  hangup declined cancelled timeout failed : CallEndReason

-- An ICE candidate is passed on as it came.
pub data CallEnvelope : Type 0 where
  call_offer : String → CallKind → String → CallEnvelope
  call_answer : String → String → CallEnvelope
  call_ice : String → String → CallEnvelope
  call_end : String → CallEndReason → CallEnvelope

pub data GroupEnvelope : Type 0 where
  group_invite : String → String → List String → GroupEnvelope
  group_update : String → List String → GroupEnvelope
  group_text : String → String → String → GroupEnvelope

pub data Envelope : Type 0 where
  text : String → String → Envelope
  file : FileEnvelope → Envelope
  receipt : ReceiptKind → String → Envelope
  file_opened : String → Envelope
  timer : ℕ → Envelope
  call : CallEnvelope → Envelope
  group : GroupEnvelope → Envelope

-- The type guards: the narrowed value, if the envelope is of that kind.
abbrev pub is_call_envelope : Envelope → Option CallEnvelope
is_call_envelope (call e) = some e
is_call_envelope _ = none

abbrev pub is_group_envelope : Envelope → Option GroupEnvelope
is_group_envelope (group e) = some e
is_group_envelope _ = none
