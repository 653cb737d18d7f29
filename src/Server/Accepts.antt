-- ===== src/Server/Accepts.antt =====
-- What the client signs, and what the server makes of it.
use Prim.Native.Nat.{◌^◌}
use mathlib.Core.Path.{subst}
use umbra_chat.Prelude.{
  ◌≡◌, refl, ap, sym, ◌∙◌, arith, ℕ, ◌+◌, ◌-◌, ◌/◌, ◌≤◌, ◌<◌, String, ◌<>◌, true, false, length,
  ltb, false, Option, none, some, [], ◌∷◌, ◌++◌,
}
use umbra_chat.Prelude.Decimal.{to_text}
use umbra_chat.Prelude.Numbers.{parse_nat, parse_nat-to_text}
use umbra_chat.Identity.{Bytes, LocalAccount}
use umbra_chat.Http.{Method, method_name, Auth, Body, Request, Response}
use umbra_chat.Platform.{Platform}
use umbra_chat.Exec.{ok}
use umbra_chat.Exec.Bind.{bind-ok, ok-injective}
use umbra_chat.World.{World, date_now, fetch}
use umbra_chat.Api.{hex, sha256_hex, body_text, signed_message, sign_with_identity, signed_fetch}
use umbra_chat.Server.{Outcome, accepted, and_then, Host}
use umbra_chat.Conversation.Limits.{max_body_bytes}
use umbra_chat.Server.Auth.{
  nonnegative, from_magnitude, parse_signed, parse_i64, is_stale, max_clock_skew_secs, Received,
  verify, authenticate, authenticated, authenticated_device,
}

-- A request as it arrives: its path has no query and needs no escaping.
abbrev headers : Option Auth → (Auth → String) → Option String
headers none f = none
headers (some a) f = some (f a)

abbrev pub received : Platform → Request → Received
received P r = record {
  device_id = headers r.auth (λ a. a.device_id);
  timestamp = headers r.auth (λ a. a.timestamp);
  signature = headers r.auth (λ a. a.signature);
  method = method_name r.method;
  path = r.path;
  body = P.utf8 (body_text P r.body);
}

parse_i64-some : (s : String) (n : ℕ) → parse_nat s ≡ some n → parse_i64 s ≡ from_magnitude true n
unfolding parse_i64
parse_i64-some s n h = ap (λ o. elim o [ none ↦ parse_signed s | some k ↦ from_magnitude true k ]) h

parse_i64-to_text : (n : ℕ) → n < 2 ^ 63 → parse_i64 (to_text n) ≡ some (nonnegative n)
parse_i64-to_text n h = parse_i64-some (to_text n) n (parse_nat-to_text n) ∙ ground (arith, h)

module _ (H : Host) where
  verify-accepted :
      (uuid : H.Uuid) (key_bytes : Bytes) (key : H.PublicKey) (t : ℕ) (header : String)
      (signature : Bytes) (method path : String) (body : Bytes)
      → t < 2 ^ 63
      → (H.now - t) + (t - H.now) ≤ max_clock_skew_secs
      → H.decode_base64 header ≡ some signature
      → H.stored_key uuid ≡ some (some key_bytes)
      → H.decode_key key_bytes ≡ some key
      → H.verify_signature key
          (H.as_bytes (method <> "\n" <> path <> "\n" <> to_text t <> "\n" <> hex (H.digest body)))
          signature
        ≡ true
      → verify H uuid (to_text t) header method path body ≡ accepted tt
  unfolding verify
  verify-accepted uuid key_bytes key t header signature method path body small near decodes stored
        decoded verifies =
      let fresh : is_stale H.now (nonnegative t) ≡ false = ground (arith, near) in
      rw (parse_i64-to_text t small, fresh, decodes, stored, decoded, verifies) refl

authenticate-accepted :
    (H : Host) (uuid : H.Uuid) (r : Received) (body : Bytes)
    (device_id timestamp signature : String)
    → r.device_id ≡ some device_id
    → r.timestamp ≡ some timestamp
    → r.signature ≡ some signature
    → H.parse_uuid device_id ≡ some uuid
    → verify H uuid timestamp signature r.method r.path body ≡ accepted tt
    → authenticate H r body ≡ accepted uuid
unfolding authenticate
authenticate-accepted H uuid r body device_id timestamp signature d t s parsed verified =
    rw (d, parsed, t, s, verified) refl

-- What the two extractors make of a request: `AuthenticatedDevice` where the handler takes no body, and
-- `Authenticated`, given `serde_json::from_slice`, where it takes one.
abbrev pub extracted :
    {T : Type 0} (H : Host)
    → (Bytes → Option T)
    → Option Body
    → Received
    → Outcome (H.Uuid × Option T)
extracted H from_slice none r = and_then (authenticated_device H r) λ uuid. accepted (uuid, none)
extracted H from_slice (some body) r =
    and_then (authenticated H from_slice r) λ read. accepted (read.0, some read.1)

-- A body that the server reads as `value`: there is none to read, or it is within the limit and parses.
abbrev pub IsRead :
    {T : Type 0} (P : Platform) → (Bytes → Option T) → Option Body → Option T → Type 0
IsRead P from_slice none none = Unit
IsRead P from_slice (some body) (some t) =
    (length (P.utf8 (body_text P (some body))) ≤ max_body_bytes)
    × (from_slice (P.utf8 (body_text P (some body))) ≡ some t)
IsRead P from_slice _ _ = ⊥

extracted-accepted :
    {T : Type 0} (P : Platform) (H : Host) (from_slice : Bytes → Option T) (body : Option Body)
    (value : Option T) (uuid : H.Uuid) (r : Received)
    → P.utf8 "" ≡ []
    → IsRead P from_slice body value
    → r.body ≡ P.utf8 (body_text P body)
    → authenticate H r (P.utf8 (body_text P body)) ≡ accepted uuid
    → extracted H from_slice body r ≡ accepted (uuid, value)
unfolding authenticated authenticated_device body_text
extracted-accepted P H from_slice none none uuid r empty reads same h =
    let h' : authenticate H r [] ≡ accepted uuid =
      subst (λ bytes. authenticate H r bytes ≡ accepted uuid) empty h in
    rw h' refl
extracted-accepted P H from_slice (some body) (some t) uuid r empty (small, parsed) same h =
    let fits : ltb max_body_bytes (length (P.utf8 (body_text P (some body)))) ≡ false =
      ground (arith, small) in
    rw (same, fits, h, parsed) refl
extracted-accepted P H from_slice none (some t) uuid r empty reads same h = absurd reads
extracted-accepted P H from_slice (some body) none uuid r empty reads same h = absurd reads

abbrev signed_request :
    Platform → String → Method → LocalAccount → Option Body → String → Bytes → Request
signed_request P path method account body timestamp signature = record {
  path = path;
  method = method;
  auth = some (record {
    device_id = account.device_id;
    timestamp = timestamp;
    signature = P.btoa signature;
  });
  body = body;
}

module _ {P : Platform} where
  date_now-ok :
      (w u : World P) (now : ℕ)
      → date_now w ≡ (ok now, u)
      → ((P.date_now w.env).0 ≡ now) × (u.requests ≡ w.requests)
  unfolding date_now
  date_now-ok w u now h = (ok-injective h, sym (ap (λ p. p.1.requests) h))

  sign_with_identity-ok :
      {private_key message : Bytes} (u x : World P) (signature : Bytes)
      → sign_with_identity private_key message u ≡ (ok signature, x)
      → (P.calculate_signature private_key message u.env ≡ (ok signature, x.env))
        × (x.requests ≡ u.requests)
  unfolding sign_with_identity
  sign_with_identity-ok u x signature h =
      (ap (λ p. (p.0, p.1.env)) h, sym (ap (λ p. p.1.requests) h))

  fetch-requests :
      (r : Request) (x v : World P) (response : Response)
      → fetch r x ≡ (ok response, v)
      → v.requests ≡ x.requests ++ (r ∷ [])
  unfolding fetch
  fetch-requests r x v response h = sym (ap (λ p. p.1.requests) h)

module _ {P : Platform} (H : Host) (account : LocalAccount) (uuid : H.Uuid) (key_bytes : Bytes)
    (key : H.PublicKey) where
  -- A signed request of the client that was answered is the one request that it made; and of it the
  -- extractor that fits it, `AuthenticatedDevice` without a body and `Authenticated` with one, gives the
  -- account's device and the value of the body, if: the body has no more than the server's limit of bytes
  -- and the server parses it to that value, or there is none, and the empty text has no bytes; the
  -- client's clock shows less than 2^63 seconds, and the server's is within five minutes of it; the server
  -- reads the device's id, and has a key for it that it can decode; that key verifies whatever the
  -- client's private key signs; base64 reads back what it wrote, and both sides encode texts and digest
  -- bytes alike.
  pub signed_fetch-accepted :
      {T : Type 0} (from_slice : Bytes → Option T) (path : String) (method : Method)
      (body : Option Body) (value : Option T) (w v : World P) (response : Response)
      → P.utf8 "" ≡ []
      → IsRead P from_slice body value
      → signed_fetch path method account body w ≡ (ok response, v)
      → ((P.date_now w.env).0 / 1000) < 2 ^ 63
      → (H.now - (P.date_now w.env).0 / 1000) + ((P.date_now w.env).0 / 1000 - H.now)
        ≤ max_clock_skew_secs
      → H.parse_uuid account.device_id ≡ some uuid
      → H.stored_key uuid ≡ some (some key_bytes)
      → H.decode_key key_bytes ≡ some key
      → ((message signature : Bytes) (e e' : P.Env)
          → P.calculate_signature account.identity.identity_private_key message e
            ≡ (ok signature, e')
          → H.verify_signature key message signature ≡ true)
      → ((bytes : Bytes) → H.decode_base64 (P.btoa bytes) ≡ some bytes)
      → ((text : String) → H.as_bytes text ≡ P.utf8 text)
      → ((bytes : Bytes) → H.digest bytes ≡ P.sha256 bytes)
      → (r : Request) × (v.requests ≡ w.requests ++ (r ∷ []))
        × (extracted H from_slice body (received P r) ≡ accepted (uuid, value))
  unfolding signed_fetch signed_message sha256_hex
  signed_fetch-accepted from_slice path method body value w v response empty reads run small near
        device stored decoded verifies decodes same_utf8 same_digest =
      let (now, u, read, signs) = bind-ok date_now _ w run in
      let (signature, x, signed, sends) = bind-ok (sign_with_identity _ _) _ u signs in
      let clock = date_now-ok w u now read in
      let small' = subst (λ n. (n / 1000) < 2 ^ 63) clock.0 small in
      let near' =
        subst (λ n. (H.now - n / 1000) + (n / 1000 - H.now) ≤ max_clock_skew_secs) clock.0 near in
      let made = sign_with_identity-ok u x signature signed in
      let text = P.utf8 (body_text P body) in
      let timestamp = to_text (now / 1000) in
      let signed_text = λ (hash : Bytes).
        method_name method <> "\n" <> path <> "\n" <> timestamp <> "\n" <> hex hash in
      let holds =
        ap (λ d. H.verify_signature key (H.as_bytes (signed_text d)) signature) (same_digest text)
        ∙ ap (λ m. H.verify_signature key m signature) (same_utf8 (signed_text (P.sha256 text)))
        ∙ verifies _ signature u.env x.env made.0 in
      let verified =
        verify-accepted H uuid key_bytes key (now / 1000) (P.btoa signature) signature
          (method_name method) path text small' near' (decodes signature) stored decoded holds in
      let request = signed_request P path method account body timestamp signature in
      (
        request,
        fetch-requests request x v response sends
            ∙ ap (λ q. q ++ (request ∷ [])) (made.1 ∙ clock.1),
        extracted-accepted P H from_slice body value uuid (received P request) empty reads refl (
            authenticate-accepted H uuid (received P request) text account.device_id timestamp
              (P.btoa signature) refl refl refl device verified),
      )
