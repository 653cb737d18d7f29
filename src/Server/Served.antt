-- ===== src/Server/Served.antt =====
-- server/src/routes/register.rs: a device that was registered has the keys of its request.
pub mod Bundle
use mathlib.Core.Path.{subst, ap₂}
use umbra_chat.Prelude.{
  ◌≡◌, refl, ap, sym, ◌∙◌, arith, ℕ, String, ◌==◌, eq_refl, Bool, true, false, not, ◌||◌, Option,
  none, some, is_some, List, [], ◌∷◌, ◌++◌, find, if◌then◌else◌,
}
use umbra_chat.Identity.{Bytes}
use umbra_chat.Http.{RawSignedPrekey}
use umbra_chat.Exec.{Result, ok, err, pure, ◌>>=◌}
use umbra_chat.Exec.Bind.{bind-ok, ok-injective}
use umbra_chat.Exec.Keeps.{Keeps, Keeps-bind, Keeps-pure, Keeps-step, Keeps-for_each}
use umbra_chat.Server.Database.{
  Database, IdentityRow, SignedPrekeyRow, select_identity_key, select_signed, insert_identity_key,
  insert_signed_prekey, insert_kyber_signed_prekey, take_prekey, has_device,
}
use umbra_chat.Server.Frame.{
  On, IsAt, query-ok, query-Keeps, ok_or-ok, ok_or-Keeps, now-Keeps, gen_random_uuid-Keeps,
  execute-ok, execute_returning-ok, transaction-ok,
}
use umbra_chat.Server.Route.{Backend, Site, ok_or}
use umbra_chat.Server.Routes.Prekeys.{
  PrekeyBundleResponse, SignedPrekeyOut, signed_prekey_out, get_prekey_bundle,
}
use umbra_chat.Server.Routes.Register.{
  RegisterRequest, RegisterResponse, DecodedBundle, require, validate_bundle, insert_device_bundle,
  insert_one_time_prekey, add_device, register,
}
use umbra_chat.Server.Writes.{guarded, Keeps-insert}

module _ {A : Type 0} where
  -- A row that is added where none was is found.
  find-added :
      (p : A → Bool) (x : A) (xs : List A)
      → find p xs ≡ none
      → p x ≡ true
      → find p (xs ++ (x ∷ [])) ≡ some x
  find-added p x [] h e = ground (arith, e)
  find-added p x (y ∷ xs) h e = ground (arith, h, e, find-added p x xs)

  inserted :
      (o : Option A) (b : Bool) {d d' : Database}
      → (if is_some o || b then none else some d) ≡ some d'
      → (o ≡ none) × (d ≡ d')
  inserted none true h = cc
  inserted none false h = (refl, cc h)
  inserted (some k) b h = cc h

-- The bytes of a request, as they were decoded.
pub record Decodes (B : Backend) (req : RegisterRequest) (bundle : DecodedBundle) : Type 0 where
  pub identity : B.decode_base64 req.identity_public_key ≡ some bundle.identity_key_bytes
  pub registration : bundle.registration_id ≡ req.registration_id
  pub signed_id : bundle.signed_prekey_key_id ≡ req.signed_prekey.key_id
  pub signed_key : B.decode_base64 req.signed_prekey.public_key ≡ some bundle.signed_prekey_bytes
  pub signature : B.decode_base64 req.signed_prekey.signature ≡ some bundle.signature_bytes
  pub kyber_id : bundle.kyber_signed_prekey_key_id ≡ req.kyber_signed_prekey.key_id
  pub kyber_key :
      B.decode_base64 req.kyber_signed_prekey.public_key ≡ some bundle.kyber_public_key_bytes
  pub kyber_signature :
      B.decode_base64 req.kyber_signed_prekey.signature ≡ some bundle.kyber_signature_bytes

module _ {B : Backend} where
  validate_bundle-ok :
      (req : RegisterRequest) (s : Site B) {t : Site B} {bundle : DecodedBundle}
      → validate_bundle req s ≡ (ok bundle, t)
      → Decodes B req bundle
  unfolding validate_bundle pure
  validate_bundle-ok req s h =
      let (identity_bytes, s1, e1, k1) = bind-ok _ _ _ h in
      let (identity_key, s2, e2, k2) = bind-ok _ _ _ k1 in
      let (signed_bytes, s3, e3, k3) = bind-ok _ _ _ k2 in
      let (signature, s4, e4, k4) = bind-ok _ _ _ k3 in
      let (_, s5, e5, k5) = bind-ok _ _ _ k4 in
      let (kyber_bytes, s6, e6, k6) = bind-ok _ _ _ k5 in
      let (kyber_signature, s7, e7, k7) = bind-ok _ _ _ k6 in
      let (_, s8, e8, k8) = bind-ok _ _ _ k7 in
      let (_, s9, e9, k9) = bind-ok _ _ _ k8 in
      let (_, s10, e10, k10) = bind-ok _ _ _ k9 in
      let (prekeys, s11, e11, k11) = bind-ok _ _ _ k10 in
      subst (Decodes B req) (ok-injective k11) (record {
        identity = (ok_or-ok _ _ _ e1).0;
        registration = refl;
        signed_id = refl;
        signed_key = (ok_or-ok _ _ _ e3).0;
        signature = (ok_or-ok _ _ _ e4).0;
        kyber_id = refl;
        kyber_key = (ok_or-ok _ _ _ e6).0;
        kyber_signature = (ok_or-ok _ _ _ e7).0;
      })

-- What the tables have of a device: its keys, as they are served.
abbrev pub shown_identity : Backend → Option IdentityRow → Option (String × ℕ)
shown_identity B none = none
shown_identity B (some row) = some (B.encode_base64 row.public_key, row.registration_id)

abbrev pub shown_signed : Backend → Option SignedPrekeyRow → Option SignedPrekeyOut
shown_signed B none = none
shown_signed B (some row) = some (signed_prekey_out B row)

abbrev pub out_of : RawSignedPrekey → SignedPrekeyOut
out_of k = record { key_id = k.key_id; public_key = k.public_key; signature = k.signature }

-- The device has the keys of the request.
pub record Publishes (B : Backend) (id : String) (req : RegisterRequest) (db : Database)
    : Type 0 where
  pub identity :
      shown_identity B (select_identity_key id db)
      ≡ some (req.identity_public_key, req.registration_id)
  pub signed : shown_signed B (select_signed id db.signed_prekeys) ≡ some (out_of req.signed_prekey)
  pub kyber :
      shown_signed B (select_signed id db.kyber_signed_prekeys)
      ≡ some (out_of req.kyber_signed_prekey)

module _ (B : Backend)
    (canonical : (text : String) (bytes : Bytes)
      → B.decode_base64 text ≡ some bytes
      → B.encode_base64 bytes ≡ text)
    (id : String) where
  inserted-identity :
      (req : RegisterRequest) (bundle : DecodedBundle) (db db' : Database)
      → Decodes B req bundle
      → insert_identity_key
          (record {
            device_id = id;
            public_key = bundle.identity_key_bytes;
            registration_id = bundle.registration_id;
          })
          db
        ≡ some db'
      → shown_identity B (select_identity_key id db')
        ≡ some (req.identity_public_key, req.registration_id)
  inserted-identity req bundle db db' d h =
      let (free, same) = inserted (select_identity_key id db) _ h in
      let found = find-added (λ k. k.device_id == id) _ db.identity_keys free (eq_refl id) in
      ap (λ x. shown_identity B (select_identity_key id x)) (sym same)
      ∙ ap (shown_identity B) found
      ∙ ap₂ (λ k n. some (k, n)) (canonical _ _ d.identity) d.registration

  shown-added :
      (rows : List SignedPrekeyRow) (key_id : ℕ) (key signature : Bytes) (raw : RawSignedPrekey)
      → select_signed id rows ≡ none
      → key_id ≡ raw.key_id
      → B.decode_base64 raw.public_key ≡ some key
      → B.decode_base64 raw.signature ≡ some signature
      → shown_signed B (
          select_signed id (
            rows
            ++ (record { device_id = id; key_id = key_id; public_key = key; signature = signature }
                ∷ [])))
        ≡ some (out_of raw)
  shown-added rows key_id key signature raw free same_id decodes_key decodes_signature =
      ap (shown_signed B) (find-added (λ k. k.device_id == id) _ rows free (eq_refl id)) ∙ (λ i.
        some (record {
          key_id = same_id i;
          public_key = canonical raw.public_key key decodes_key i;
          signature = canonical raw.signature signature decodes_signature i;
        }))

  bundle-published :
      (req : RegisterRequest) (bundle : DecodedBundle) (s : Site B) {t : Site B}
      → Decodes B req bundle
      → insert_device_bundle id bundle s ≡ (ok tt, t)
      → Publishes B id req t.db
  unfolding insert_device_bundle insert_one_time_prekey
  bundle-published req bundle s d h =
      let (_, s1, e1, k1) = bind-ok _ _ _ h in
      let (_, s2, e2, k2) = bind-ok _ _ _ k1 in
      let (_, s3, e3, k3) = bind-ok _ _ _ k2 in
      let there = inserted-identity req bundle s.db s1.db d (execute-ok _ s e1) in
      let (free2, same2) =
        inserted (select_signed id s1.db.signed_prekeys) _ (execute-ok _ s1 e2) in
      let (free3, same3) =
        inserted (select_signed id s2.db.kyber_signed_prekeys) _ (execute-ok _ s2 e3) in
      let published : Publishes B id req s3.db = record {
        identity =
            ap (λ db. shown_identity B (select_identity_key id db)) (sym same3)
            ∙ ap (λ db. shown_identity B (select_identity_key id db)) (sym same2)
            ∙ there;
        signed =
            ap (λ db. shown_signed B (select_signed id db.signed_prekeys)) (sym same3)
            ∙ ap (λ db. shown_signed B (select_signed id db.signed_prekeys)) (sym same2)
            ∙ shown-added s1.db.signed_prekeys bundle.signed_prekey_key_id
                bundle.signed_prekey_bytes bundle.signature_bytes req.signed_prekey free2
                d.signed_id d.signed_key d.signature;
        kyber =
            ap (λ db. shown_signed B (select_signed id db.kyber_signed_prekeys)) (sym same3)
            ∙ shown-added s2.db.kyber_signed_prekeys bundle.kyber_signed_prekey_key_id
                bundle.kyber_public_key_bytes bundle.kyber_signature_bytes req.kyber_signed_prekey
                free3 d.kyber_id d.kyber_key d.kyber_signature;
      } in
      (Keeps-step
        (Keeps-for_each {Q = On (Publishes B id req)} bundle.one_time_prekeys _ (λ k.
          Keeps-insert _ _
            (λ db p. record { identity = p.identity; signed = p.signed; kyber = p.kyber })))
        k3 (record { holds = published })).holds

  pub register-Publishes :
      (req : RegisterRequest) (s : Site B) {t : Site B} {r : RegisterResponse}
      → register req s ≡ (ok r, t)
      → r.device_id ≡ id
      → Publishes B id req t.db
  unfolding register pure
  register-Publishes req s h same_id =
      let (bundle, s1, e1, k1) = bind-ok _ _ _ h in
      let (u, v, _, inside, left) = transaction-ok _ s1 k1 in
      let (started, s2, e2, k2) = bind-ok _ _ _ inside in
      let (account_id, s3, e3, k3) = bind-ok _ _ _ k2 in
      let (_, s4, e4, k4) = bind-ok _ _ _ k3 in
      let (device_id, s5, e5, k5) = bind-ok _ _ _ k4 in
      let (_, s6, e6, k6) = bind-ok _ _ _ k5 in
      let same : device_id ≡ id = ap (λ x. x.device_id) (ok-injective k6) ∙ same_id in
      let q = Keeps-step (Keeps-pure {Q = On (IsAt s6.db)} _) k6 (record { holds = refl }) in
      subst (Publishes B id req) (sym q.holds ∙ sym left) (
        bundle-published req bundle s5 (validate_bundle-ok req s e1)
          (subst (λ x. insert_device_bundle x bundle s5 ≡ (ok tt, s6)) same e6))
