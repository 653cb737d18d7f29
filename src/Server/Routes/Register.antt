-- ===== src/Server/Routes/Register.antt =====
-- server/src/routes/register.rs. The numbers of a request are naturals that fit an i32.
use umbra_chat.Prelude.{ℕ, String, Bool, true, false, not, List, length, ltb}
use umbra_chat.Identity.{Bytes}
use umbra_chat.Exec.{pure, for_each, traverse, ◌>>=◌, ◌>>◌}
use umbra_chat.Http.{RawPrekey, RawIdentity}
use umbra_chat.Server.{bad_request}
use umbra_chat.Server.Database.{
  insert_account, insert_device, insert_identity_key, insert_signed_prekey,
  insert_kyber_signed_prekey, insert_prekey,
}
use umbra_chat.Server.Route.{
  Backend, Route, refuse, ok_or, execute, now, gen_random_uuid, transaction,
}

-- `RegisterRequest` is what the client's `identityBundleToJson` makes.
abbrev pub RegisterRequest : Type 0
RegisterRequest = RawIdentity

pub record RegisterResponse : Type 0 where
  pub account_id : String
  pub device_id : String

abbrev pub max_one_time_prekeys : ℕ
max_one_time_prekeys = 100

pub record DecodedBundle : Type 0 where
  pub identity_key_bytes : Bytes
  pub registration_id : ℕ
  pub signed_prekey_key_id : ℕ
  pub signed_prekey_bytes : Bytes
  pub signature_bytes : Bytes
  pub kyber_signed_prekey_key_id : ℕ
  pub kyber_public_key_bytes : Bytes
  pub kyber_signature_bytes : Bytes
  pub one_time_prekeys : List (ℕ × Bytes)

module _ {B : Backend} where
  -- `if !ok { return Err(bad_request(message)) }`
  unfoldable pub require : Bool → String → Route B Unit
  unfolding refuse pure
  require true message = pure tt
  require false message = refuse (bad_request message)

  unfoldable pub decode_prekey : RawPrekey → Route B (ℕ × Bytes)
  unfolding ok_or require
  decode_prekey prekey = do
    bytes ←
        ok_or (B.decode_base64 prekey.public_key)
          (bad_request "a one_time_prekeys public_key is not valid base64")
    require (B.is_public_key bytes) "a one_time_prekeys public_key is not a valid key"
    pure (prekey.key_id, bytes)

  unfoldable pub validate_bundle : RegisterRequest → Route B DecodedBundle
  unfolding ok_or require decode_prekey
  validate_bundle req = do
    identity_key_bytes ←
        ok_or (B.decode_base64 req.identity_public_key)
          (bad_request "identity_public_key is not valid base64")
    identity_key ←
        ok_or (B.decode_key identity_key_bytes)
          (bad_request "identity_public_key is not a valid identity key")
    signed_prekey_bytes ←
        ok_or (B.decode_base64 req.signed_prekey.public_key)
          (bad_request "signed_prekey.public_key is not valid base64")
    signature_bytes ←
        ok_or (B.decode_base64 req.signed_prekey.signature)
          (bad_request "signed_prekey.signature is not valid base64")
    require (B.verify_signature identity_key signed_prekey_bytes signature_bytes)
        "signed_prekey signature does not verify against identity_public_key"
    kyber_public_key_bytes ←
        ok_or (B.decode_base64 req.kyber_signed_prekey.public_key)
          (bad_request "kyber_signed_prekey.public_key is not valid base64")
    kyber_signature_bytes ←
        ok_or (B.decode_base64 req.kyber_signed_prekey.signature)
          (bad_request "kyber_signed_prekey.signature is not valid base64")
    require (B.is_kyber_key kyber_public_key_bytes)
        "kyber_signed_prekey.public_key is not a valid Kyber key"
    require (B.verify_signature identity_key kyber_public_key_bytes kyber_signature_bytes)
        "kyber_signed_prekey signature does not verify against identity_public_key"
    require (not (ltb max_one_time_prekeys (length req.one_time_prekeys)))
        "too many one_time_prekeys in a single registration"
    one_time_prekeys ← traverse decode_prekey req.one_time_prekeys
    pure (record {
      identity_key_bytes = identity_key_bytes;
      registration_id = req.registration_id;
      signed_prekey_key_id = req.signed_prekey.key_id;
      signed_prekey_bytes = signed_prekey_bytes;
      signature_bytes = signature_bytes;
      kyber_signed_prekey_key_id = req.kyber_signed_prekey.key_id;
      kyber_public_key_bytes = kyber_public_key_bytes;
      kyber_signature_bytes = kyber_signature_bytes;
      one_time_prekeys = one_time_prekeys;
    })

  unfoldable pub insert_one_time_prekey : String → ℕ × Bytes → Route B Unit
  unfolding execute
  insert_one_time_prekey device_id (key_id, public_key) = execute (
      insert_prekey
        (record { device_id = device_id; key_id = key_id; public_key = public_key; used = false }))

  unfoldable pub insert_device_bundle : String → DecodedBundle → Route B Unit
  unfolding execute insert_one_time_prekey
  insert_device_bundle device_id bundle = do
    execute (
        insert_identity_key (record {
          device_id = device_id;
          public_key = bundle.identity_key_bytes;
          registration_id = bundle.registration_id;
        }))
    execute (
        insert_signed_prekey (record {
          device_id = device_id;
          key_id = bundle.signed_prekey_key_id;
          public_key = bundle.signed_prekey_bytes;
          signature = bundle.signature_bytes;
        }))
    execute (
        insert_kyber_signed_prekey (record {
          device_id = device_id;
          key_id = bundle.kyber_signed_prekey_key_id;
          public_key = bundle.kyber_public_key_bytes;
          signature = bundle.kyber_signature_bytes;
        }))
    for_each bundle.one_time_prekeys (insert_one_time_prekey device_id)

  -- A new row of `devices`, created at the start of the transaction.
  unfoldable pub add_device : String → String → ℕ → Route B String
  unfolding execute gen_random_uuid
  add_device account_id label created_at = do
    device_id ← gen_random_uuid
    execute (
        insert_device (record {
          id = device_id;
          account_id = account_id;
          label = label;
          created_at = created_at;
        }))
    pure device_id

  unfoldable pub register : RegisterRequest → Route B RegisterResponse
  unfolding validate_bundle add_device insert_device_bundle transaction execute now gen_random_uuid
  register req = do
    bundle ← validate_bundle req
    transaction (do
      started ← now
      account_id ← gen_random_uuid
      execute (insert_account account_id)
      device_id ← add_device account_id "Primary" started
      insert_device_bundle device_id bundle
      pure (record { account_id = account_id; device_id = device_id }))
