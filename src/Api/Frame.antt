-- ===== src/Api/Frame.antt =====
-- A request without a body keeps every quiet invariant; a request with one, those that do not
-- depend on the requests either.
use umbra_chat.Prelude.{String, Option, none, some}
use umbra_chat.Identity.{Bytes, LocalAccount}
use umbra_chat.Http.{
  Method, Body, RawMessage, RawSignedPrekey, RawPrekey, Json, devices, messages, bundle, Response,
}
use umbra_chat.Platform.{Platform}
use umbra_chat.Exec.Keeps.{Keeps}
use umbra_chat.World.{World}
use umbra_chat.World.Frame.{IsQuiet, IsDeaf, fetch-Keeps, fetch-Keeps_quiet, frame_rules}
use umbra_chat.Api.{
  sign_with_identity, signed_fetch, require_success, from_base64, as_devices, list_devices,
  send_message, received_message, as_messages, fetch_messages, public_signed_prekey, public_prekey,
  as_bundle, fetch_prekey_bundle,
}

module _ {P : Platform} {Q : World P → Type 0} where
  pub require_success-Keeps : (m : String) (r : Response) → Keeps Q (require_success m r)
  unfolding require_success
  require_success-Keeps m r = search frame_rules

  from_base64-Keeps : (value : String) → Keeps Q (from_base64 value)
  unfolding from_base64
  from_base64-Keeps value = search frame_rules

  as_devices-Keeps : (j : Json) → Keeps Q (as_devices j)
  unfolding as_devices
  as_devices-Keeps (devices raw) = search frame_rules
  as_devices-Keeps _ = search frame_rules

  received_message-Keeps : (m : RawMessage) → Keeps Q (received_message m)
  unfolding received_message
  received_message-Keeps m = search (frame_rules, from_base64-Keeps)

  as_messages-Keeps : (j : Json) → Keeps Q (as_messages j)
  unfolding as_messages
  as_messages-Keeps (messages raw) = search (frame_rules, received_message-Keeps)
  as_messages-Keeps _ = search frame_rules

  public_signed_prekey-Keeps : (raw : RawSignedPrekey) → Keeps Q (public_signed_prekey raw)
  unfolding public_signed_prekey
  public_signed_prekey-Keeps raw = search (frame_rules, from_base64-Keeps)

  public_prekey-Keeps : (raw : Option RawPrekey) → Keeps Q (public_prekey raw)
  unfolding public_prekey
  public_prekey-Keeps none = search frame_rules
  public_prekey-Keeps (some raw) = search (frame_rules, from_base64-Keeps)

  as_bundle-Keeps : (j : Json) → Keeps Q (as_bundle j)
  unfolding as_bundle
  as_bundle-Keeps (bundle raw) =
      search (frame_rules, from_base64-Keeps, public_signed_prekey-Keeps, public_prekey-Keeps) depth
        8
  as_bundle-Keeps _ = search frame_rules

module _ {P : Platform} {Q : World P → Type 0} (quiet : IsQuiet Q) where
  pub sign_with_identity-Keeps : (key message : Bytes) → Keeps Q (sign_with_identity key message)
  unfolding sign_with_identity
  sign_with_identity-Keeps key message = record {
    at = λ w h. quiet.env w (P.calculate_signature key message w.env).1 h;
  }

  signed_fetch-Keeps_quiet :
      (path : String) (method : Method) (account : LocalAccount)
      → Keeps Q (signed_fetch path method account none)
  unfolding signed_fetch
  signed_fetch-Keeps_quiet path method account =
      search (frame_rules, sign_with_identity-Keeps, fetch-Keeps_quiet)

  signed_fetch-Keeps :
      IsDeaf Q
      → (path : String) (method : Method) (account : LocalAccount) (body : Option Body)
      → Keeps Q (signed_fetch path method account body)
  unfolding signed_fetch
  signed_fetch-Keeps deaf path method account body =
      search (frame_rules, sign_with_identity-Keeps, fetch-Keeps)

  pub list_devices-Keeps :
      (account_id : String) (account : LocalAccount) → Keeps Q (list_devices account_id account)
  unfolding list_devices
  list_devices-Keeps account_id account =
      search (frame_rules, signed_fetch-Keeps_quiet, require_success-Keeps, as_devices-Keeps)

  pub fetch_messages-Keeps : (account : LocalAccount) → Keeps Q (fetch_messages account)
  unfolding fetch_messages
  fetch_messages-Keeps account =
      search (frame_rules, signed_fetch-Keeps_quiet, require_success-Keeps, as_messages-Keeps)

  pub fetch_prekey_bundle-Keeps :
      (device_id : String) (account : LocalAccount)
      → Keeps Q (fetch_prekey_bundle device_id account)
  unfolding fetch_prekey_bundle
  fetch_prekey_bundle-Keeps device_id account =
      search (frame_rules, signed_fetch-Keeps_quiet, require_success-Keeps, as_bundle-Keeps)

  pub send_message-Keeps :
      IsDeaf Q
      → (id : String) (envelope : Bytes) (account : LocalAccount)
      → Keeps Q (send_message id envelope account)
  unfolding send_message
  send_message-Keeps deaf id envelope account =
      search (frame_rules, signed_fetch-Keeps, require_success-Keeps)

pub ruleset api_rules = (
  frame_rules, list_devices-Keeps, fetch_messages-Keeps, fetch_prekey_bundle-Keeps,
  send_message-Keeps,
)
