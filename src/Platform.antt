-- ===== src/Platform.antt =====
-- What the client stands on and does not implement: the clock, random ids, IndexedDB, `fetch`, WebRTC, the
-- codecs of the browser and libsignal. Each effect reads and changes the environment `Env`.
use umbra_chat.Prelude.{ℕ, String, Bool, Option}
use umbra_chat.Identity.{Bytes, ContactBundle, IdentityBundle}
use umbra_chat.Envelope.{Envelope}
use umbra_chat.Http.{Body, Request, Response}
use umbra_chat.Call.Data.{RtcRequest}
use umbra_chat.Exec.{Error, Result}

pub record Platform : Type 1 where
  pub Env : Type 0
  -- `Date.now()`, `crypto.randomUUID()`
  pub date_now : Env → ℕ × Env
  pub random_uuid : Env → String × Env
  -- one IndexedDB request: the error with which it is rejected, if it is
  pub db_request : Env → Option String × Env
  -- `err.message` of an exception of the browser's own
  pub exception_message : Error → String
  -- `fetch`; nothing comes back where the network fails
  pub fetch : Request → Env → Option Response × Env
  -- `crypto.subtle.digest`, `TextEncoder`, `btoa`, `atob`
  pub sha256 : Bytes → Bytes
  pub utf8 : String → Bytes
  pub btoa : Bytes → String
  pub atob : String → Option Bytes
  -- `JSON.stringify` of a request's body; of an envelope, followed by `TextEncoder`; and back
  pub stringify_body : Body → String
  pub stringify : Envelope → Bytes
  pub parse : Bytes → Option Envelope
  -- `generate_identity_bundle`
  pub generate_identity_bundle : ℕ → Env → Result IdentityBundle × Env
  -- `PrivateKey.calculate_signature`
  pub calculate_signature : Bytes → Bytes → Env → Result Bytes × Env
  -- WebRTC and the camera: a session description, where one is asked for
  pub rtc : RtcRequest → Env → Result String × Env
  -- libsignal: a session record, and the identity and prekey stores
  pub SessionRecord : Type 0
  pub KeyStores : Type 0
  pub new_key_stores : IdentityBundle → Result KeyStores
  pub process_prekey_bundle :
      ContactBundle
      → Option SessionRecord
      → KeyStores
      → Env
      → Result SessionRecord × KeyStores × Env
  -- the message's type byte, its bytes and the new session
  pub message_encrypt :
      Bytes
      → Option SessionRecord
      → KeyStores
      → Env
      → Result (ℕ × Bytes × SessionRecord) × KeyStores × Env
  -- the flag tells a `PreKeySignalMessage` from a `SignalMessage`
  pub message_decrypt :
      Bool
      → Bytes
      → Option SessionRecord
      → KeyStores
      → Env
      → Result (Bytes × SessionRecord) × KeyStores × Env
  pub serialize : SessionRecord → Result Bytes
  pub deserialize : Bytes → Result SessionRecord
