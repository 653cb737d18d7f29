-- ===== src/Server/Served/Bundle.antt =====
-- server/src/routes/register.rs and prekey_bundle.rs: the keys that were registered are the keys that are
-- served.
use umbra_chat.Prelude.{
  ◌≡◌, ◌≢◌, inl, inr, refl, ap, sym, ◌∙◌, ℕ, String, Bool, true, false, Option, none, some,
}
use umbra_chat.Identity.{Bytes}
use umbra_chat.Http.{RawSignedPrekey}
use umbra_chat.Exec.{Error, refused, Result, ok, err, pure, gets, modify, on_option, ◌>>=◌}
use umbra_chat.Exec.Bind.{bind-ok, bind-err, ok-injective}
use umbra_chat.Exec.Keeps.{Keeps, Keeps-step}
use umbra_chat.Server.Database.{Database, IdentityRow, SignedPrekeyRow, claim}
use umbra_chat.Server.Frame.{On, query-ok, statement-Keeps, query-Keeps, ok_or-ok, ok_or-Keeps}
use umbra_chat.Server.Route.{
  Backend, Site, Route, came_back, statement, set_db, execute_returning, query, ok_or,
}
use umbra_chat.Server.Routes.Prekeys.{PrekeyBundleResponse, signed_prekey_out, get_prekey_bundle}
use umbra_chat.Server.Routes.Register.{RegisterRequest, RegisterResponse, register}
use umbra_chat.Server.Writes.{Keeps-execute_returning}
use umbra_chat.Server.Served.{shown_identity, shown_signed, out_of, Publishes, register-Publishes}
use umbra_chat.Server.{server_error}
use umbra_chat.Http.{ApiError}

module _ (B : Backend) (id : String) (req : RegisterRequest) where
  identity-served :
      (o : Option IdentityRow) (row : IdentityRow)
      → shown_identity B o ≡ some (req.identity_public_key, req.registration_id)
      → o ≡ some row
      → (B.encode_base64 row.public_key ≡ req.identity_public_key)
        × (row.registration_id ≡ req.registration_id)
  identity-served none row p h = cc h
  identity-served (some x) row p h = (cc (p, h), cc (p, h))

  signed-served :
      (o : Option SignedPrekeyRow) (row : SignedPrekeyRow) (raw : RawSignedPrekey)
      → shown_signed B o ≡ some (out_of raw)
      → o ≡ some row
      → signed_prekey_out B row ≡ out_of raw
  signed-served none row raw p h = cc h
  signed-served (some x) row raw p h = cc (p, h)

  -- A bundle that is served is the one that is published.
  get_prekey_bundle-serves :
      (s : Site B) {t : Site B} {b : PrekeyBundleResponse}
      → Publishes B id req s.db
      → get_prekey_bundle id s ≡ (ok b, t)
      → (b.identity_public_key ≡ req.identity_public_key)
        × (b.registration_id ≡ req.registration_id)
        × (b.signed_prekey ≡ out_of req.signed_prekey)
        × (b.kyber_signed_prekey ≡ out_of req.kyber_signed_prekey)
  unfolding get_prekey_bundle pure
  get_prekey_bundle-serves s p h =
      let (found1, s1, e1, k1) = bind-ok _ _ _ h in
      let (identity, s2, e2, k2) = bind-ok _ _ _ k1 in
      let (found2, s3, e3, k3) = bind-ok _ _ _ k2 in
      let (signed, s4, e4, k4) = bind-ok _ _ _ k3 in
      let (found3, s5, e5, k5) = bind-ok _ _ _ k4 in
      let (kyber, s6, e6, k6) = bind-ok _ _ _ k5 in
      let (one, s7, e7, k7) = bind-ok _ _ _ k6 in
      let q1 = Keeps-step (query-Keeps {P = Publishes B id req} _) e1 (record { holds = p }) in
      let q2 = Keeps-step (ok_or-Keeps {P = Publishes B id req} found1 _) e2 q1 in
      let q3 = Keeps-step (query-Keeps {P = Publishes B id req} _) e3 q2 in
      let q4 = Keeps-step (ok_or-Keeps {P = Publishes B id req} found2 _) e4 q3 in
      let (key, number) =
        identity-served _ identity p.identity (sym (query-ok _ s e1).0 ∙ (ok_or-ok _ _ _ e2).0) in
      let of_signed =
        signed-served _ signed req.signed_prekey q2.holds.signed
          (sym (query-ok _ s2 e3).0 ∙ (ok_or-ok _ _ _ e4).0) in
      let of_kyber =
        signed-served _ kyber req.kyber_signed_prekey q4.holds.kyber
          (sym (query-ok _ s4 e5).0 ∙ (ok_or-ok _ _ _ e6).0) in
      let served = ok-injective k7 in
      (
        ap (λ b. b.identity_public_key) (sym served) ∙ key,
        ap (λ b. b.registration_id) (sym served) ∙ number,
        ap (λ b. b.signed_prekey) (sym served) ∙ of_signed,
        ap (λ b. b.kyber_signed_prekey) (sym served) ∙ of_kyber,
      )

-- Where the database has `P`, the action throws nothing but the answer to a statement that failed.
record Fails {B : Backend} {A : Type 0} (P : Database → Type 0) (m : Route B A) : Type 0 where
  only :
      (s : Site B) {t : Site B} {e : Error} → m s ≡ (err e, t) → P s.db → e ≡ refused server_error

came_back-err : (b : Bool) (e : Error) → came_back b ≡ err e → e ≡ refused server_error
came_back-err true e h = cc h
came_back-err false e h = cc h

ok_or-err :
    {B : Backend} {A : Type 0} (o : Option A) (e : ApiError) (s : Site B) {e' : Error} {t : Site B}
    → ok_or o e s ≡ (err e', t)
    → o ≡ none
unfolding ok_or on_option pure
ok_or-err none e s h = refl
ok_or-err (some a) e s h = cc h

module _ {B : Backend} {P : Database → Type 0} where
  Fails-pure : {A : Type 0} (a : A) → Fails {B = B} P (pure a)
  unfolding pure
  Fails-pure a = record { only = λ s h p. cc h }

  Fails-gets : {A : Type 0} (f : Site B → A) → Fails P (gets f)
  unfolding gets
  Fails-gets f = record { only = λ s h p. cc h }

  Fails-statement : Fails {B = B} P statement
  unfolding statement
  Fails-statement = record { only = λ s {e = e} h p. came_back-err _ e (ap (λ r. r.0) h) }

  Fails-bind :
      {A C : Type 0} (m : Route B A) (f : A → Route B C)
      → Keeps (On P) m
      → Fails P m
      → ((a : A) → Fails P (f a))
      → Fails P (m >>= f)
  Fails-bind m f k l g = record {
    only = λ s h p. elim (bind-err m f s h) [
      | inl thrown ↦ l.only s thrown p
      | inr (a, u, done, rest) ↦ (g a).only u rest (Keeps-step k done (record { holds = p })).holds
    ];
  }

  Fails-query : {A : Type 0} (f : Database → A) → Fails {B = B} P (query f)
  unfolding query
  Fails-query f = Fails-bind _ _ statement-Keeps Fails-statement (λ _. Fails-gets _)

  Fails-change :
      {A : Type 0} (a : A) (d : Database) → Fails {B = B} P (modify (set_db d) >>= λ _. pure a)
  unfolding modify pure ◌>>=◌
  Fails-change a d = record { only = λ s h p. cc h }

  Fails-execute_returning :
      {A : Type 0} (f : Database → A × Database) → Fails {B = B} P (execute_returning f)
  unfolding execute_returning
  Fails-execute_returning f =
      Fails-bind _ _ (query-Keeps f) (Fails-query f) (λ r. Fails-change r.0 r.1)

  -- What is looked for is there.
  Fails-select :
      {A C : Type 0} (f : Database → Option A) (e : ApiError) (g : A → Route B C)
      → ((db : Database) → P db → f db ≢ none)
      → ((a : A) → Fails P (g a))
      → Fails P (query f >>= λ found. ok_or found e >>= g)
  Fails-select f e g there l = record {
    only = λ s h p. elim (bind-err (query f) _ s h) [
      | inl thrown ↦ (Fails-query f).only s thrown p
      | inr (found, u, done, rest) ↦
          let q = Keeps-step (query-Keeps {P = P} f) done (record { holds = p }) in
          elim (bind-err (ok_or found e) g u rest) [
            | inl missing ↦
                absurd (there s.db p (sym (query-ok f s done).0 ∙ ok_or-err found e u missing))
            | inr (a, v, got, last) ↦
                (l a).only v last (Keeps-step (ok_or-Keeps {P = P} found e) got q).holds
          ]
    ];
  }

module _ (B : Backend) (id : String) (req : RegisterRequest) where
  claim-Publishes :
      (o : Option ℕ) (db : Database) → Publishes B id req db → Publishes B id req (claim id o db).1
  claim-Publishes none db p = p
  claim-Publishes (some n) db p = record {
    identity = p.identity;
    signed = p.signed;
    kyber = p.kyber;
  }

  get_prekey_bundle-Fails : Fails {B = B} (Publishes B id req) (get_prekey_bundle id)
  unfolding get_prekey_bundle
  get_prekey_bundle-Fails =
      Fails-select _ _ _ (λ db p h. cc (p.identity, h))
        (λ identity.
          Fails-select _ _ _ (λ db p h. cc (p.signed, h))
            (λ signed.
              Fails-select _ _ _ (λ db p h. cc (p.kyber, h))
                (λ kyber.
                  Fails-bind _ _ (Keeps-execute_returning _ (λ db p. claim-Publishes _ db p))
                    (Fails-execute_returning _) (λ one. Fails-pure _))))

-- What a request for the bundle of a device may be answered, where the device published the keys of `req`.
abbrev pub IsServed : RegisterRequest → Result PrekeyBundleResponse → Type 0
IsServed req (ok b) =
    (b.identity_public_key ≡ req.identity_public_key)
    × (b.registration_id ≡ req.registration_id)
    × (b.signed_prekey ≡ out_of req.signed_prekey)
    × (b.kyber_signed_prekey ≡ out_of req.kyber_signed_prekey)
IsServed req (err e) = e ≡ refused server_error

served :
    (B : Backend) (id : String) (req : RegisterRequest) (s : Site B)
    (r : Result PrekeyBundleResponse)
    → Publishes B id req s.db
    → (get_prekey_bundle id s).0 ≡ r
    → IsServed req r
served B id req s (ok b) p h =
    get_prekey_bundle-serves B id req s p (λ i. (h i, (get_prekey_bundle id s).1))
served B id req s (err e) p h =
    (get_prekey_bundle-Fails B id req).only s (λ i. (h i, (get_prekey_bundle id s).1)) p

-- Where base64 decodes only what it encodes: once a device is registered, a request for its bundle gets the
-- identity key, the number, and the two signed prekeys with their signatures, as they were posted, or, where
-- a statement failed, the answer that says so, and no other.
pub register_served :
    {B : Backend}
    (canonical : (text : String) (bytes : Bytes)
      → B.decode_base64 text ≡ some bytes
      → B.encode_base64 bytes ≡ text)
    (req : RegisterRequest) (s t : Site B) (r : RegisterResponse)
    → register req s ≡ (ok r, t)
    → IsServed req (get_prekey_bundle r.device_id t).0
register_served {B} canonical req s t r h =
    served B r.device_id req t _ (register-Publishes B canonical r.device_id req s h refl) refl
