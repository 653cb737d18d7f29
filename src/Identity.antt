-- ===== src/Identity.antt =====
-- The identity of a device and its account: the types of web/src/crypto/identity.ts, of
-- crypto/session.ts and `LocalAccount` of storage/keyStore.ts.
use umbra_chat.Prelude.{ℕ, String, Option, List}

-- `Uint8Array` and `number[]`
abbrev pub Bytes : Type 0
Bytes = List ℕ

pub record PrekeyBundle : Type 0 where
  pub key_id : ℕ
  pub public_key : Bytes
  pub private_key : Bytes

pub record SignedPrekeyBundle : Type 0 where
  pub prekey : PrekeyBundle
  pub open prekey use *
  pub signature : Bytes

pub record IdentityBundle : Type 0 where
  pub identity_public_key : Bytes
  pub identity_private_key : Bytes
  pub registration_id : ℕ
  pub signed_prekey : SignedPrekeyBundle
  pub kyber_signed_prekey : SignedPrekeyBundle
  pub one_time_prekeys : List PrekeyBundle

pub record LocalAccount : Type 0 where
  pub account_id : String
  pub device_id : String
  pub identity : IdentityBundle

-- The public half of a signed prekey, and of a one-time prekey.
pub record PublicSignedPrekey : Type 0 where
  pub key_id : ℕ
  pub public_key : Bytes
  pub signature : Bytes

pub record PublicPrekey : Type 0 where
  pub key_id : ℕ
  pub public_key : Bytes

pub record ContactBundle : Type 0 where
  pub identity_public_key : Bytes
  pub registration_id : ℕ
  pub signed_prekey : PublicSignedPrekey
  pub kyber_signed_prekey : PublicSignedPrekey
  pub one_time_prekey : Option PublicPrekey
