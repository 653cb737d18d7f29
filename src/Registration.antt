-- ===== src/Registration.antt =====
-- web/src/api/register.ts, `identityBundleToJson` of api/codec.ts, `completeLink` of api/devices.ts and
-- `generateIdentity` of crypto/identity.ts. These requests are not signed: the device has no id yet.
pub mod Private
use umbra_chat.Prelude.{ℕ, String, ◌<>◌, none, some, List, map}
use umbra_chat.Identity.{Bytes, PrekeyBundle, SignedPrekeyBundle, IdentityBundle}
use umbra_chat.Http.{
  post, RawSignedPrekey, RawPrekey, RawIdentity, Body, registration, completion, Json, registered,
  linked,
}
use umbra_chat.Platform.{Platform}
use umbra_chat.Exec.{type_error, pure, throw, ◌>>=◌, ◌>>◌}
use umbra_chat.World.{Io, fetch}
use umbra_chat.Api.{require_success}

pub record RegisteredAccount : Type 0 where
  pub account_id : String
  pub device_id : String

raw_signed_prekey : Platform → SignedPrekeyBundle → RawSignedPrekey
raw_signed_prekey P k = record {
  key_id = k.key_id;
  public_key = P.btoa k.public_key;
  signature = P.btoa k.signature;
}

raw_prekey : Platform → PrekeyBundle → RawPrekey
raw_prekey P k = record { key_id = k.key_id; public_key = P.btoa k.public_key }

unfoldable pub identity_bundle_to_json : Platform → IdentityBundle → RawIdentity
unfolding raw_signed_prekey raw_prekey
identity_bundle_to_json P identity = record {
  identity_public_key = P.btoa identity.identity_public_key;
  registration_id = identity.registration_id;
  signed_prekey = raw_signed_prekey P identity.signed_prekey;
  kyber_signed_prekey = raw_signed_prekey P identity.kyber_signed_prekey;
  one_time_prekeys = map (raw_prekey P) identity.one_time_prekeys;
}

module _ {P : Platform} where
  -- ten one-time prekeys, as the callers leave the count to its default
  unfoldable pub generate_identity : Io P IdentityBundle
  generate_identity w =
      let (r, e) = P.generate_identity_bundle 10 w.env in (r, record w { env = e })

  as_registered : Json → Io P RegisteredAccount
  as_registered (registered account_id device_id) =
      pure (record { account_id = account_id; device_id = device_id })
  as_registered _ = throw type_error

  unfoldable pub register_account : IdentityBundle → Io P RegisteredAccount
  unfolding identity_bundle_to_json as_registered
  register_account identity = do
    response ← fetch (record {
      path = "/v1/register";
      method = post;
      auth = none;
      body = some (registration (identity_bundle_to_json P identity));
    })
    require_success "registration failed" response
    as_registered response.json

  as_linked : Json → Io P String
  as_linked (linked device_id) = pure device_id
  as_linked _ = throw type_error

  unfoldable pub complete_link : String → String → String → IdentityBundle → Io P String
  unfolding identity_bundle_to_json as_linked
  complete_link account_id code label identity = do
    response ← fetch (record {
      path = "/v1/accounts/" <> account_id <> "/devices";
      method = post;
      auth = none;
      body = some (completion code label (identity_bundle_to_json P identity));
    })
    require_success "failed to complete device link" response
    as_linked response.json
