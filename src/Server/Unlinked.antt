-- ===== src/Server/Unlinked.antt =====
-- server/src/routes/devices.rs and server/src/auth.rs: a device that was unlinked is not let in.
use mathlib.Core.Path.{subst}
use umbra_chat.Prelude.{
  ◌≡◌, ◌≢◌, refl, ap, ◌∙◌, String, ◌==◌, Bool, true, false, not, Option, none, some, List, [], ◌∷◌,
  find, filter, arith, ltb, length, if◌then◌else◌,
}
use umbra_chat.Conversation.Limits.{max_body_bytes}
use umbra_chat.Identity.{Bytes}
use umbra_chat.Http.{ApiError}
use umbra_chat.Exec.{ok}
use umbra_chat.Server.{
  Outcome, unauthorized, server_error, accepted, rejected, given, and_then, Host,
}
use umbra_chat.Server.Auth.{
  Received, parse_i64, is_stale, verify, device_id_header, header_str, authenticate,
  authenticated_device, authenticated,
}
use umbra_chat.Server.Database.{Database, IdentityRow, select_identity_key}
use umbra_chat.Server.Queue.{unlink_device-ok}
use umbra_chat.Server.Route.{Backend, Site}
use umbra_chat.Server.Routes.Devices.{unlink_device}

abbrev key_of : Option IdentityRow → Option Bytes
key_of none = none
key_of (some row) = some row.public_key

-- What the check stands on, with this table of identity keys.
abbrev pub host_at : (H : Host) → (H.Uuid → String) → Database → Host
host_at H text db = record H { stored_key = λ id. some (key_of (select_identity_key (text id) db)) }

module _ {A C : Type 0} where
  given-accepted :
      (o : Option A) (e : ApiError) (k : A → Outcome C) {c : C}
      → given o e k ≡ accepted c
      → (a : A) × (o ≡ some a) × (k a ≡ accepted c)
  given-accepted none e k h = cc
  given-accepted (some a) e k h = (a, refl, h)

  and_then-accepted :
      (r : Outcome A) (k : A → Outcome C) {c : C}
      → and_then r k ≡ accepted c
      → (a : A) × (r ≡ accepted a) × (k a ≡ accepted c)
  and_then-accepted (accepted a) k h = (a, refl, h)
  and_then-accepted (rejected e) k h = cc

given-refuses :
    {A C : Type 0} (o : Option A) (e : ApiError) (k : A → Outcome C) {c : C}
    → ((a : A) → k a ≢ accepted c)
    → given o e k ≢ accepted c
given-refuses none e k f h = cc h
given-refuses (some a) e k f h = f a h

if_refuses :
    {C : Type 0} (b : Bool) (e : ApiError) (r : Outcome C) {c : C}
    → r ≢ accepted c
    → (if b then rejected e else r) ≢ accepted c
if_refuses true e r f h = cc h
if_refuses false e r f h = f h

row-refuses :
    {A C : Type 0} (o : Option (Option A)) (e e' : ApiError) (k : A → Outcome C) {c : C}
    → o ≡ some none
    → given o e (λ row. given row e' k) ≢ accepted c
row-refuses none e e' k unknown h = cc unknown
row-refuses (some none) e e' k unknown h = cc h
row-refuses (some (some a)) e e' k unknown h = cc unknown

body-refuses :
    {A C : Type 0} (r : Outcome A) (o : Option C) (e : ApiError) {a : A} {c : C}
    → r ≢ accepted a
    → and_then {B = A × C} r (λ b. given o e (λ d. accepted (b, d))) ≢ accepted (a, c)
body-refuses (rejected e') o e f h = cc h
body-refuses (accepted b) none e f h = cc h
body-refuses (accepted b) (some d) e f h = f (cc h)

module _ (H : Host) (id : H.Uuid) (unknown : H.stored_key id ≡ some none) where
  verify-unknown :
      (timestamp signature method path : String) (body : Bytes)
      → verify H id timestamp signature method path body ≢ accepted tt
  unfolding verify
  verify-unknown timestamp signature method path body =
      given-refuses (parse_i64 timestamp) (unauthorized "invalid X-Timestamp") _ (λ t.
        if_refuses (is_stale H.now t) (unauthorized "stale or invalid timestamp") _ (
          given-refuses (H.decode_base64 signature) (unauthorized "invalid X-Signature") _ (λ bytes.
            row-refuses (H.stored_key id) server_error (unauthorized "unknown device") _ unknown)))

  authenticate-unknown : (r : Received) (body : Bytes) → authenticate H r body ≢ accepted id
  unfolding authenticate
  authenticate-unknown r body h =
      let (found, _, k) = and_then-accepted (device_id_header H r) _ h in
      let (timestamp, _, i) = and_then-accepted (header_str H r.timestamp) _ k in
      let (signature, _, j) = and_then-accepted (header_str H r.signature) _ i in
      let (_, verified, same) =
        and_then-accepted (verify H found timestamp signature r.method r.path body) _ j in
      verify-unknown timestamp signature r.method r.path body (
        subst (λ d. verify H d timestamp signature r.method r.path body ≡ accepted tt) (cc same)
          verified)

find_removed :
    (id : String) (rows : List IdentityRow)
    → find (λ k. k.device_id == id) (filter (λ k. not (k.device_id == id)) rows) ≡ none
find_removed id [] = refl
find_removed id (k ∷ rows) = ground (arith, find_removed id rows)

-- Once a device was unlinked, no request is let in as one of it, with a body or without, whatever it is
-- signed with.
pub unlinked_refused :
    {B : Backend} (H : Host) (text : H.Uuid → String) (caller : String) (id : H.Uuid) (s t : Site B)
    → unlink_device caller (text id) s ≡ (ok tt, t)
    → (T : Type 0) (from_slice : Bytes → Option T) (r : Received) (body : T)
    → (authenticated_device (host_at H text t.db) r ≢ accepted id)
      × (authenticated (host_at H text t.db) from_slice r ≢ accepted (id, body))
unfolding authenticated_device authenticated
unlinked_refused H text caller id s t h T from_slice r body =
    let unknown =
      ap (λ db. some (key_of (select_identity_key (text id) db)))
        (unlink_device-ok caller (text id) s h)
      ∙ ap (λ o. some (key_of o)) (find_removed (text id) s.db.identity_keys) in
    let refused = authenticate-unknown (host_at H text t.db) id unknown in
    (
      refused r [],
      if_refuses (ltb max_body_bytes (length r.body)) (unauthorized "failed to read request body") _
          (body-refuses (authenticate (host_at H text t.db) r r.body) (from_slice r.body)
            (unauthorized "invalid request body") (refused r r.body)),
    )
