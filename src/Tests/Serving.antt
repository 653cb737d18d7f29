-- ===== src/Tests/Serving.antt =====
-- A signed request of the small browser, at a small server: base64 is unary, a signature is the signed bytes.
use Prim.Native.Char.{code}
use umbra_chat.Prelude.{
  ◌≡◌, refl, ap, sym, ◌∙◌, arith, ℕ, zero, suc, ◌+◌, String, Bool, true, false, ◌&&◌, Option, none,
  some, [], ◌∷◌, ◌++◌, ◌==◌, nat_eq, if◌then◌else◌,
}
use umbra_chat.Identity.{Bytes}
use umbra_chat.Http.{post, Body, delivery, other, Request, Response}
use umbra_chat.Platform.{Platform}
use umbra_chat.Exec.{ok}
use umbra_chat.Exec.Bind.{ok-injective}
use umbra_chat.World.{World}
use umbra_chat.Api.{body_text, signed_fetch}
use umbra_chat.Call.Data.{initial}
use umbra_chat.Server.{Host, accepted}
use umbra_chat.Server.Accepts.{received, extracted, signed_fetch-accepted}
use umbra_chat.Tests.{toy, alice, phone, run_model}

pub codes : String → Bytes
codes String.[] = []
codes (String.◌∷◌ c s) = code c ∷ codes s

strokes : ℕ → String → String
strokes zero s = String.◌∷◌ "," s
strokes (suc n) s = String.◌∷◌ "1" (strokes n s)

unfoldable pub encode : Bytes → String
unfolding strokes
encode [] = ""
encode (b ∷ bs) = strokes b (encode bs)

cons : ℕ → Option Bytes → Option Bytes
cons n none = none
cons n (some bs) = some (n ∷ bs)

unfoldable pub count : ℕ → String → Option Bytes
unfolding cons
count n String.[] = some []
count n (String.◌∷◌ c s) =
    let rest = count (suc n) s in
    let after = count 0 s in if nat_eq (code c) 44 then cons n after else rest

count-strokes : (n m : ℕ) (s : String) → count n (strokes m s) ≡ cons (n + m) (count 0 s)
unfolding count strokes
count-strokes n zero s = ap (λ k. cons k (count 0 s)) (omega arith)
count-strokes n (suc m) s = count-strokes (suc n) m s ∙ ap (λ k. cons k (count 0 s)) (omega arith)

count-encode : (bs : Bytes) → count 0 (encode bs) ≡ some bs
unfolding count encode cons
count-encode [] = refl
count-encode (b ∷ bs) =
    count-strokes 0 b (encode bs)
    ∙ ap (cons (0 + b)) (count-encode bs)
    ∙ ap (λ k. some (k ∷ bs)) (omega arith)

pub same_bytes : Bytes → Bytes → Bool
same_bytes [] [] = true
same_bytes (a ∷ xs) (b ∷ bs) = nat_eq a b && same_bytes xs bs
same_bytes _ _ = false

same_bytes_refl : (bs : Bytes) → same_bytes bs bs ≡ true
unfolding same_bytes
same_bytes_refl [] = refl
same_bytes_refl (b ∷ bs) = ground (arith, same_bytes_refl bs)

abbrev browser : Platform
browser = record toy { btoa = encode; utf8 = codes }

-- Its clock is a minute and a half ahead of the browser's.
abbrev pub server : Host
server = record {
  now = 97;
  Uuid = String;
  parse_uuid = λ text. some text;
  decode_base64 = count 0;
  digest = λ bytes. bytes;
  as_bytes = codes;
  stored_key = λ id. if id == "alice-phone" then some (some (4 ∷ [])) else some none;
  PublicKey = Bytes;
  decode_key = λ bytes. some bytes;
  verify_signature = λ key message signature. same_bytes message signature;
}

abbrev asking : World browser
asking = record {
  env = record { inbox = []; bobs = phone ∷ []; ids = 0 };
  requests = [];
  store = record { session_store = []; keys = tt };
  account = some alice;
  sessions = [];
  messages = [];
  groups = [];
  timers = [];
  call = initial;
}

-- A message that is posted.
abbrev parcel : Body
parcel = delivery (record { recipient_device_id = "bob-phone"; ciphertext = "ciphertext" })

abbrev asked : World browser
asked = (signed_fetch "/v1/messages" post alice (some parcel) asking).1

abbrev response : Response
response = record { succeeded = true; json = other }

asked-runs : signed_fetch "/v1/messages" post alice (some parcel) asking ≡ (ok response, asked)
unfolding run_model
asked-runs = refl

-- a body is given as its bytes
abbrev read_bytes : Bytes → Option Bytes
read_bytes bytes = some bytes

signed_fetch-accepted_example :
    (r : Request) × (asked.requests ≡ asking.requests ++ (r ∷ []))
    × (extracted server read_bytes (some parcel) (received browser r)
        ≡ accepted ("alice-phone", some (codes "body")))
unfolding codes body_text
signed_fetch-accepted_example =
    signed_fetch-accepted server alice "alice-phone" (4 ∷ []) (4 ∷ []) read_bytes "/v1/messages"
      post (some parcel) (some (codes "body")) asking asked response refl (omega arith, refl)
      asked-runs (omega arith) (omega arith) refl refl refl
      (λ message signature e e' h.
        ap (same_bytes message) (sym (ok-injective h)) ∙ same_bytes_refl message)
      count-encode (λ text. refl) (λ bytes. refl)
