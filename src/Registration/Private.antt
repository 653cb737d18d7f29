-- ===== src/Registration/Private.antt =====
-- What of an identity reaches the server when a device is registered or linked.
use umbra_chat.Prelude.{◌≡◌, refl, ap, sym, ◌∙◌, ℕ, String, List, [], ◌∷◌, map}
use umbra_chat.Identity.{
  Bytes, PrekeyBundle, SignedPrekeyBundle, IdentityBundle, PublicSignedPrekey, PublicPrekey,
}
use umbra_chat.Http.{RawIdentity, RawPrekey, RawSignedPrekey}
use umbra_chat.Platform.{Platform}
use umbra_chat.World.{World}
use umbra_chat.Registration.{raw_prekey, identity_bundle_to_json, register_account, complete_link}

-- An identity without its private keys.
pub record PublicIdentity : Type 0 where
  pub identity_public_key : Bytes
  pub registration_id : ℕ
  pub signed_prekey : PublicSignedPrekey
  pub kyber_signed_prekey : PublicSignedPrekey
  pub one_time_prekeys : List PublicPrekey

public_signed_prekey : SignedPrekeyBundle → PublicSignedPrekey
public_signed_prekey k = record {
  key_id = k.key_id;
  public_key = k.public_key;
  signature = k.signature;
}

public_prekey : PrekeyBundle → PublicPrekey
public_prekey k = record { key_id = k.key_id; public_key = k.public_key }

unfoldable pub public_half : IdentityBundle → PublicIdentity
unfolding public_signed_prekey public_prekey
public_half i = record {
  identity_public_key = i.identity_public_key;
  registration_id = i.registration_id;
  signed_prekey = public_signed_prekey i.signed_prekey;
  kyber_signed_prekey = public_signed_prekey i.kyber_signed_prekey;
  one_time_prekeys = map public_prekey i.one_time_prekeys;
}

module _ (P : Platform) where
  shown_signed : PublicSignedPrekey → RawSignedPrekey
  shown_signed k = record {
    key_id = k.key_id;
    public_key = P.btoa k.public_key;
    signature = P.btoa k.signature;
  }

  shown_prekey : PublicPrekey → RawPrekey
  shown_prekey k = record { key_id = k.key_id; public_key = P.btoa k.public_key }

  -- The JSON, from the public half alone.
  shown : PublicIdentity → RawIdentity
  unfolding shown_signed shown_prekey
  shown p = record {
    identity_public_key = P.btoa p.identity_public_key;
    registration_id = p.registration_id;
    signed_prekey = shown_signed p.signed_prekey;
    kyber_signed_prekey = shown_signed p.kyber_signed_prekey;
    one_time_prekeys = map shown_prekey p.one_time_prekeys;
  }

  map-shown :
      (ks : List PrekeyBundle) → map (raw_prekey P) ks ≡ map shown_prekey (map public_prekey ks)
  unfolding raw_prekey shown_prekey public_prekey
  map-shown [] = refl
  map-shown (k ∷ ks) = ap (λ rs. raw_prekey P k ∷ rs) (map-shown ks)

  json-shown : (i : IdentityBundle) → identity_bundle_to_json P i ≡ shown (public_half i)
  unfolding identity_bundle_to_json shown public_half
  json-shown i =
      ap (λ ks. record (identity_bundle_to_json P i) { one_time_prekeys = ks })
        (map-shown i.one_time_prekeys)

  json-same :
      (i j : IdentityBundle)
      → public_half i ≡ public_half j
      → identity_bundle_to_json P i ≡ identity_bundle_to_json P j
  json-same i j h = json-shown i ∙ ap shown h ∙ sym (json-shown j)

-- Private keys stay on the device: registering, and completing a link, do the same to the world
-- and return the same for two identities that differ in private keys only.
pub register_account-private :
    {P : Platform} (i j : IdentityBundle) (account_id code label : String) (w : World P)
    → public_half i ≡ public_half j
    → (register_account i w ≡ register_account j w)
      × (complete_link account_id code label i w ≡ complete_link account_id code label j w)
unfolding register_account complete_link
register_account-private {P} i j account_id code label w h =
    let same = json-same P i j h in (rw same refl, rw same refl)
