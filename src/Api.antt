-- ===== src/Api.antt =====
-- web/src/api/*.ts: the requests to the server.
pub mod Frame
use umbra_chat.Prelude.{
  ℕ, ◌/◌, String, ◌<>◌, Bool, true, false, Option, none, some, or_default, List, [], ◌∷◌,
  if◌then◌else◌,
}
use umbra_chat.Prelude.Decimal.{to_text, hex_byte}
use umbra_chat.Identity.{Bytes, LocalAccount, PublicSignedPrekey, PublicPrekey, ContactBundle}
use umbra_chat.Http.{
  Method, get, post, delete, method_name, Body, delivery, MessageBody, Request, DeviceInfo,
  RawMessage, RawSignedPrekey, RawPrekey, RawBundleResponse, Json, devices, messages, bundle,
  link_code, error_body, other, malformed, Response, ReceivedMessage,
}
use umbra_chat.Platform.{Platform}
use umbra_chat.Exec.{
  thrown, type_error, Result, ok, err, pure, throw, lift, on_option, traverse, ◌>>=◌, ◌>>◌,
}
use umbra_chat.World.{World, Io, date_now, fetch}

-- `error.error ?? message` of `response.json().catch(() => ({ error: message }))`
unfoldable pub error_message : String → Json → String
error_message message (error_body error) = or_default error message
error_message message _ = message

unfoldable pub hex : List ℕ → String
hex [] = ""
hex (b ∷ bs) = hex_byte b <> hex bs

unfoldable pub sha256_hex : Platform → Bytes → String
unfolding hex
sha256_hex P bytes = hex (P.sha256 bytes)

unfoldable pub body_text : Platform → Option Body → String
body_text P none = ""
body_text P (some body) = P.stringify_body body

-- What a request is signed over.
unfoldable pub signed_message : Platform → Method → String → String → Option Body → Bytes
unfolding sha256_hex body_text
signed_message P method path timestamp body = P.utf8 (
    method_name method
    <> "\n"
    <> path
    <> "\n"
    <> timestamp
    <> "\n"
    <> sha256_hex P (P.utf8 (body_text P body)))

module _ {P : Platform} where
  -- `signWithIdentity`
  unfoldable pub sign_with_identity : Bytes → Bytes → Io P Bytes
  sign_with_identity private_key message w =
      let (r, e) = P.calculate_signature private_key message w.env in (r, record w { env = e })

  unfoldable pub signed_fetch : String → Method → LocalAccount → Option Body → Io P Response
  unfolding signed_message
  signed_fetch path method account body = do
    now ← date_now
    let timestamp = to_text (now / 1000)
    signature ←
        sign_with_identity account.identity.identity_private_key
          (signed_message P method path timestamp body)
    fetch (record {
      path = path;
      method = method;
      auth = some (record {
        device_id = account.device_id;
        timestamp = timestamp;
        signature = P.btoa signature;
      });
      body = body;
    })

  -- `if (!response.ok) throw …`
  unfoldable pub require_success : String → Response → Io P Unit
  unfolding error_message
  require_success message response =
      if response.succeeded then pure tt else throw (thrown (error_message message response.json))

  from_base64 : String → Io P Bytes
  from_base64 value = on_option (P.atob value) (throw (thrown "InvalidCharacterError")) pure

  as_devices : Json → Io P (List DeviceInfo)
  as_devices (devices raw) = pure raw
  as_devices _ = throw type_error

  unfoldable pub list_devices : String → LocalAccount → Io P (List DeviceInfo)
  unfolding as_devices
  list_devices account_id account = do
    response ← signed_fetch ("/v1/accounts/" <> account_id <> "/devices") get account none
    require_success "failed to list devices" response
    as_devices response.json

  -- `const { code } = …`: without the field, `undefined`
  as_link_code : Json → Io P (Option String)
  as_link_code (link_code code) = pure (some code)
  as_link_code malformed = throw type_error
  as_link_code _ = pure none

  unfoldable pub link_init : LocalAccount → Io P (Option String)
  unfolding as_link_code
  link_init account = do
    response ←
        signed_fetch ("/v1/accounts/" <> account.account_id <> "/devices/link-init") post account
          none
    require_success "failed to start device link" response
    as_link_code response.json

  unfoldable pub unlink_device : String → LocalAccount → Io P Unit
  unlink_device device_id account = do
    response ← signed_fetch ("/v1/devices/" <> device_id) delete account none
    require_success "failed to unlink device" response

  unfoldable pub send_message : String → Bytes → LocalAccount → Io P Unit
  send_message recipient_device_id envelope account = do
    response ← signed_fetch "/v1/messages" post account (
        some (
          delivery
            (record { recipient_device_id = recipient_device_id; ciphertext = P.btoa envelope })))
    require_success "failed to send message" response

  received_message : RawMessage → Io P ReceivedMessage
  unfolding from_base64
  received_message m = do
    envelope ← from_base64 m.ciphertext
    pure (record {
      sender_account_id = m.sender_account_id;
      sender_device_id = m.sender_device_id;
      envelope = envelope;
      created_at = m.created_at;
    })

  as_messages : Json → Io P (List ReceivedMessage)
  unfolding received_message
  as_messages (messages raw) = traverse received_message raw
  as_messages _ = throw type_error

  unfoldable pub fetch_messages : LocalAccount → Io P (List ReceivedMessage)
  unfolding as_messages
  fetch_messages account = do
    response ← signed_fetch "/v1/messages" get account none
    require_success "failed to fetch messages" response
    as_messages response.json

  public_signed_prekey : RawSignedPrekey → Io P PublicSignedPrekey
  unfolding from_base64
  public_signed_prekey raw = do
    public_key ← from_base64 raw.public_key
    signature ← from_base64 raw.signature
    pure (record { key_id = raw.key_id; public_key = public_key; signature = signature })

  public_prekey : Option RawPrekey → Io P (Option PublicPrekey)
  unfolding from_base64
  public_prekey none = pure none
  public_prekey (some raw) = do
    public_key ← from_base64 raw.public_key
    pure (some (record { key_id = raw.key_id; public_key = public_key }))

  as_bundle : Json → Io P ContactBundle
  unfolding from_base64 public_signed_prekey public_prekey
  as_bundle (bundle raw) = do
    identity_public_key ← from_base64 raw.identity_public_key
    signed_prekey ← public_signed_prekey raw.signed_prekey
    kyber_signed_prekey ← public_signed_prekey raw.kyber_signed_prekey
    one_time_prekey ← public_prekey raw.one_time_prekey
    pure (record {
      identity_public_key = identity_public_key;
      registration_id = raw.registration_id;
      signed_prekey = signed_prekey;
      kyber_signed_prekey = kyber_signed_prekey;
      one_time_prekey = one_time_prekey;
    })
  as_bundle _ = throw type_error

  unfoldable pub fetch_prekey_bundle : String → LocalAccount → Io P ContactBundle
  unfolding as_bundle
  fetch_prekey_bundle device_id account = do
    response ← signed_fetch ("/v1/devices/" <> device_id <> "/prekey-bundle") get account none
    require_success "failed to fetch prekey bundle" response
    as_bundle response.json
