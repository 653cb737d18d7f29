-- ===== src/Server/Routes/Prekeys.antt =====
-- server/src/routes/prekey_bundle.rs.
use umbra_chat.Prelude.{ℕ, String, Option, none, some}
use umbra_chat.Exec.{pure, ◌>>=◌}
use umbra_chat.Server.{not_found}
use umbra_chat.Server.Database.{
  IdentityRow, SignedPrekeyRow, PrekeyRow, select_identity_key, select_signed, take_prekey,
}
use umbra_chat.Server.Route.{Backend, Route, ok_or, query, execute_returning}

pub record SignedPrekeyOut : Type 0 where
  pub key_id : ℕ
  pub public_key : String
  pub signature : String

pub record OneTimePrekeyOut : Type 0 where
  pub key_id : ℕ
  pub public_key : String

pub record PrekeyBundleResponse : Type 0 where
  pub identity_public_key : String
  pub registration_id : ℕ
  pub signed_prekey : SignedPrekeyOut
  pub kyber_signed_prekey : SignedPrekeyOut
  pub one_time_prekey : Option OneTimePrekeyOut

abbrev pub signed_prekey_out : Backend → SignedPrekeyRow → SignedPrekeyOut
signed_prekey_out B k = record {
  key_id = k.key_id;
  public_key = B.encode_base64 k.public_key;
  signature = B.encode_base64 k.signature;
}

abbrev pub one_time_prekey_out : Backend → Option PrekeyRow → Option OneTimePrekeyOut
one_time_prekey_out B none = none
one_time_prekey_out B (some k) =
    some (record { key_id = k.key_id; public_key = B.encode_base64 k.public_key })

abbrev pub prekey_bundle_response :
    Backend
    → IdentityRow
    → SignedPrekeyRow
    → SignedPrekeyRow
    → Option PrekeyRow
    → PrekeyBundleResponse
prekey_bundle_response B identity signed_prekey kyber_signed_prekey one_time_prekey = record {
  identity_public_key = B.encode_base64 identity.public_key;
  registration_id = identity.registration_id;
  signed_prekey = signed_prekey_out B signed_prekey;
  kyber_signed_prekey = signed_prekey_out B kyber_signed_prekey;
  one_time_prekey = one_time_prekey_out B one_time_prekey;
}

module _ {B : Backend} where
  unfoldable pub get_prekey_bundle : String → Route B PrekeyBundleResponse
  unfolding query ok_or execute_returning
  get_prekey_bundle device_id = do
    found ← query (select_identity_key device_id)
    identity ← ok_or found (not_found "device not found")
    found_signed ← query (λ db. select_signed device_id db.signed_prekeys)
    signed_prekey ← ok_or found_signed (not_found "device has no signed prekey")
    found_kyber ← query (λ db. select_signed device_id db.kyber_signed_prekeys)
    kyber_signed_prekey ← ok_or found_kyber (not_found "device has no kyber signed prekey")
    one_time_prekey ← execute_returning (take_prekey device_id)
    pure (prekey_bundle_response B identity signed_prekey kyber_signed_prekey one_time_prekey)
