-- ===== src/Server.antt =====
-- server/src/error.rs, and what the server stands on: the clock, the table `identity_keys`, libsignal's
-- keys, and the codecs of the crates it uses.
pub mod Accepts
pub mod Auth
pub mod Calls
pub mod Codes
pub mod Database
pub mod Delivery
pub mod Errors
pub mod Frame
pub mod Route
pub mod Routes
pub mod Once
pub mod Queue
pub mod Served
pub mod Sorted
pub mod Spent
pub mod Tables
pub mod Unlinked
pub mod Waiting
pub mod Writes
pub mod Mailbox
pub mod Links
pub mod Given
use umbra_chat.Prelude.{ℕ, String, Bool, Option, none, some}
use umbra_chat.Identity.{Bytes}
use umbra_chat.Http.{ApiError}

abbrev pub unauthorized : String → ApiError
unauthorized message = record { status = 401; error = message }

abbrev pub bad_request : String → ApiError
bad_request message = record { status = 400; error = message }

abbrev pub forbidden : String → ApiError
forbidden message = record { status = 403; error = message }

abbrev pub not_found : String → ApiError
not_found message = record { status = 404; error = message }

abbrev pub server_error : ApiError
server_error = record { status = 500; error = "database error" }

-- `Result<A, ApiError>`
pub data Outcome (A : Type 0) : Type 0 where
  accepted : A → Outcome A
  rejected : ApiError → Outcome A

-- `o.ok_or_else(…)?`
abbrev pub given : {A B : Type 0} → Option A → ApiError → (A → Outcome B) → Outcome B
given none e k = rejected e
given (some a) e k = k a

-- `r?`
abbrev pub and_then : {A B : Type 0} → Outcome A → (A → Outcome B) → Outcome B
and_then (accepted a) k = k a
and_then (rejected e) k = rejected e

pub record Host : Type 1 where
  -- `SystemTime::now()`, in seconds
  pub now : ℕ
  pub Uuid : Type 0
  pub parse_uuid : String → Option Uuid
  -- `STANDARD.decode`, `Sha256::digest`, `as_bytes`
  pub decode_base64 : String → Option Bytes
  pub digest : Bytes → Bytes
  pub as_bytes : String → Bytes
  -- the query on `identity_keys`: none where the database fails
  pub stored_key : Uuid → Option (Option Bytes)
  -- `IdentityKey::decode`, `verify_signature`
  pub PublicKey : Type 0
  pub decode_key : Bytes → Option PublicKey
  pub verify_signature : PublicKey → Bytes → Bytes → Bool
