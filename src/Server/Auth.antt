-- ===== src/Server/Auth.antt =====
-- server/src/auth.rs. A timestamp is an i64: the difference of two wraps where it leaves that range, as in
-- a release build.
use Prim.Native.Char.{code}
use Prim.Native.Nat.{◌^◌}
use umbra_chat.Prelude.{
  ℕ, zero, suc, ◌+◌, ◌-◌, String, ◌<>◌, Bool, true, false, not, Option, none, some, [], ltb, nat_eq,
  length, if◌then◌else◌,
}
use umbra_chat.Prelude.Decimal.{to_text}
use umbra_chat.Prelude.Numbers.{parse_nat}
use umbra_chat.Identity.{Bytes}
use umbra_chat.Api.{hex}
use umbra_chat.Conversation.Limits.{max_body_bytes}
use umbra_chat.Server.{
  unauthorized, server_error, Outcome, accepted, rejected, given, and_then, Host,
}

abbrev pub max_clock_skew_secs : ℕ
max_clock_skew_secs = 300

pub data I64 : Type 0 where
  nonnegative negative : ℕ → I64

abbrev pub from_magnitude : Bool → ℕ → Option I64
from_magnitude true n = if ltb n (2 ^ 63) then some (nonnegative n) else none
from_magnitude false zero = some (nonnegative 0)
from_magnitude false (suc n) = if ltb n (2 ^ 63) then some (negative (suc n)) else none

-- behind a sign
unfoldable pub parse_signed : String → Option I64
parse_signed String.[] = none
parse_signed (String.◌∷◌ c s) = elim (parse_nat s) [
  | none ↦ none
  | some n ↦
      if nat_eq (code c) 43
      then from_magnitude true n
      else if nat_eq (code c) 45
      then from_magnitude false n
      else none
]

-- `timestamp_header.parse::<i64>()`
unfoldable pub parse_i64 : String → Option I64
unfolding parse_signed
parse_i64 s = elim (parse_nat s) [ none ↦ parse_signed s | some n ↦ from_magnitude true n ]

abbrev pub print_i64 : I64 → String
print_i64 (nonnegative n) = to_text n
print_i64 (negative n) = "-" <> to_text n

-- `(now - timestamp).abs() > MAX_CLOCK_SKEW_SECS`, for a `now` below 2^63. At the least number `abs` gives
-- that number itself, which is negative.
abbrev pub is_stale : ℕ → I64 → Bool
is_stale now (nonnegative n) = ltb max_clock_skew_secs ((now - n) + (n - now))
is_stale now (negative n) =
    if ltb (now + n) (2 ^ 63)
    then ltb max_clock_skew_secs (now + n)
    else if nat_eq (now + n) (2 ^ 63)
    then false
    else ltb max_clock_skew_secs (2 ^ 64 - (now + n))

-- What arrives: the three headers, and what is signed.
pub record Received : Type 0 where
  pub device_id : Option String
  pub timestamp : Option String
  pub signature : Option String
  pub method : String
  pub path : String
  pub body : Bytes

module _ (H : Host) where
  unfoldable pub verify : H.Uuid → String → String → String → String → Bytes → Outcome Unit
  unfolding parse_i64
  verify device_id timestamp_header signature_header method path body =
      given (parse_i64 timestamp_header) (unauthorized "invalid X-Timestamp") λ timestamp.
        if is_stale H.now timestamp
        then rejected (unauthorized "stale or invalid timestamp")
        else given (H.decode_base64 signature_header) (unauthorized "invalid X-Signature")
            λ signature_bytes. given (H.stored_key device_id) server_error λ row.
              given row (unauthorized "unknown device") λ public_key_bytes.
                given (H.decode_key public_key_bytes) (unauthorized "unknown device")
                  λ identity_key.
                    let message =
                      method
                      <> "\n"
                      <> path
                      <> "\n"
                      <> print_i64 timestamp
                      <> "\n"
                      <> hex (H.digest body) in
                    if not (H.verify_signature identity_key (H.as_bytes message) signature_bytes)
                    then rejected (unauthorized "signature does not verify")
                    else accepted tt

  abbrev pub device_id_header : Received → Outcome H.Uuid
  device_id_header r =
      given r.device_id (unauthorized "missing or invalid X-Device-Id")
        λ text. given (H.parse_uuid text) (unauthorized "missing or invalid X-Device-Id") accepted

  abbrev pub header_str : Option String → Outcome String
  header_str value = given value (unauthorized "missing X-Timestamp or X-Signature") accepted

  -- The headers, and `verify` over a body.
  unfoldable pub authenticate : Received → Bytes → Outcome H.Uuid
  unfolding verify
  authenticate r body = and_then (device_id_header r) λ device_id.
      and_then (header_str r.timestamp) λ timestamp. and_then (header_str r.signature) λ signature.
        and_then (verify device_id timestamp signature r.method r.path body) λ _. accepted device_id

  -- `AuthenticatedDevice::from_request_parts`: a request without a body
  unfoldable pub authenticated_device : Received → Outcome H.Uuid
  unfolding authenticate
  authenticated_device r = authenticate r []

  -- `Authenticated::from_request`, given `serde_json::from_slice`
  unfoldable pub authenticated : {T : Type 0} → (Bytes → Option T) → Received → Outcome (H.Uuid × T)
  unfolding authenticate
  authenticated from_slice r =
      if ltb max_body_bytes (length r.body)
      then rejected (unauthorized "failed to read request body")
      else and_then (authenticate r r.body) λ device_id.
        given (from_slice r.body) (unauthorized "invalid request body")
          λ body. accepted (device_id, body)
