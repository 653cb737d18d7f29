-- ===== src/Tests/Mailing.antt =====
-- A small server: bytes are written in strokes, the clock and the random numbers are one counter, and the
-- rows of a statement come back in reverse.
use mathlib.Core.List.{Perm, reverse, reverse_perm}
use umbra_chat.Prelude.{
  ◌≡◌, ◌≢◌, refl, arith, length, ◌≤◌, ℕ, ◌+◌, String, ◌==◌, eq_iff, true, false, Option, none, some,
  List, All, [], ◌∷◌, ◌++◌, if◌then◌else◌,
}
use umbra_chat.Prelude.Decimal.{to_text, hex_byte}
use umbra_chat.Api.{hex}
use umbra_chat.Identity.{Bytes}
use umbra_chat.Http.{RawIdentity, RawPrekey}
use umbra_chat.Exec.{ok, err, refused, ◌>>=◌, traverse, for_each}
use umbra_chat.Server.{server_error, accepted}
use umbra_chat.Server.Calls.{
  Call, gets_prekey_bundle, posts_devices, posts_link_init, posts_message, gets_messages, handle,
  serve,
}
use umbra_chat.Server.Database.{Database}
use umbra_chat.Server.Delivery.{serve_refines}
use umbra_chat.Server.Errors.{handle-err}
use umbra_chat.Server.Given.{given_of, IsDistinct}
use umbra_chat.Server.Given.Once.{given_once}
use umbra_chat.Server.Links.{linked_by, makes}
use umbra_chat.Server.Links.Once.{linked_once}
use umbra_chat.Server.Mailbox.{Steps}
use umbra_chat.Server.Once.{deletes_in, delivered_once, handed_to, posted_to}
use umbra_chat.Server.Route.{Backend, Site}
use umbra_chat.Server.Waiting.{waiting}
use umbra_chat.Tests.Serving.{encode, count, server}
use umbra_chat.Server.Routes.Register.{RegisterResponse, register}
use umbra_chat.Server.Routes.Prekeys.{get_prekey_bundle}
use umbra_chat.Server.Served.Bundle.{IsServed, register_served}
use umbra_chat.Server.Unlinked.{host_at, unlinked_refused}
use umbra_chat.Server.Auth.{Received, authenticated_device, authenticated}
use umbra_chat.Server.Routes.Devices.{unlink_device}

abbrev checked : String → Option Bytes → Option Bytes
checked text none = none
checked text (some bytes) = if encode bytes == text then some bytes else none

abbrev decode : String → Option Bytes
decode text = checked text (count 0 text)

checked-canonical :
    (text : String) (o : Option Bytes) (bytes : Bytes)
    → checked text o ≡ some bytes
    → encode bytes ≡ text
checked-canonical text none bytes h = cc h
checked-canonical text (some bs) bytes h = ground (arith, h, eq_iff (encode bs) text)

abbrev small : Backend
small = record {
  Env = ℕ;
  statement = λ n. (true, n + 1);
  now = λ n. (n, n + 1);
  utc_now = λ n. (n, n + 1);
  gen_random_uuid = λ n. (to_text n, n + 1);
  fill_bytes = λ k n. (n ∷ [], n + 1);
  any_order = λ n rows. reverse rows;
  decode_base64 = decode;
  encode_base64 = encode;
  IdentityKey = Bytes;
  decode_key = λ bytes. some bytes;
  verify_signature = λ key message signature. true;
  is_kyber_key = λ bytes. true;
  is_public_key = λ bytes. true;
}

arranges : (A : Type 0) (e : ℕ) (rows : List A) → Perm (reverse rows) rows
arranges A e rows = reverse_perm rows

canonical : (text : String) (bytes : Bytes) → decode text ≡ some bytes → encode bytes ≡ text
canonical text bytes h = checked-canonical text (count 0 text) bytes h

-- Two devices of one account, of which the first has registered two prekeys; and a code to link a third.
abbrev tables : Database
tables = record {
  accounts = "a" ∷ [];
  devices =
      record { id = "p"; account_id = "a"; label = "Primary"; created_at = 0 }
      ∷ record { id = "t"; account_id = "a"; label = "Tablet"; created_at = 1 }
      ∷ [];
  identity_keys = record { device_id = "p"; public_key = 1 ∷ []; registration_id = 7 } ∷ [];
  signed_prekeys =
      record { device_id = "p"; key_id = 1; public_key = 2 ∷ []; signature = 3 ∷ [] } ∷ [];
  kyber_signed_prekeys =
      record { device_id = "p"; key_id = 1; public_key = 4 ∷ []; signature = 5 ∷ [] } ∷ [];
  prekeys =
      record { device_id = "p"; key_id = 9; public_key = 6 ∷ []; used = false }
      ∷ record { device_id = "p"; key_id = 8; public_key = 7 ∷ []; used = false }
      ∷ [];
  messages = [];
  pending_device_links = record { code = "c0de"; account_id = "a"; expires_at = 100 } ∷ [];
}

abbrev site : Site small
site = record { env = 10; db = tables }

abbrev calls : List Call
calls =
    posts_message "t" (record { recipient_device_id = "p"; ciphertext = "1," })
    ∷ posts_message "t" (record { recipient_device_id = "p"; ciphertext = "11," })
    ∷ gets_prekey_bundle "p"
    ∷ gets_messages "p"
    ∷ gets_prekey_bundle "p"
    ∷ posts_message "p" (record { recipient_device_id = "t"; ciphertext = "," })
    ∷ gets_messages "p"
    ∷ gets_prekey_bundle "p"
    ∷ posts_message "t" (record { recipient_device_id = "p"; ciphertext = "111," })
    ∷ []

none_deleted : All (λ e. deletes_in e ≡ false) (serve calls site).0
unfolding serve encode count ◌>>=◌ to_text
none_deleted = (refl, (refl, (refl, (refl, (refl, (refl, (refl, (refl, (refl, tt)))))))))

handed_out : handed_to "p" (serve calls site).0 ≡ ("t", "1,") ∷ ("t", "11,") ∷ []
unfolding serve encode count ◌>>=◌ to_text
handed_out = refl

given_out : given_of "p" (serve calls site).0 ≡ 8 ∷ 9 ∷ []
unfolding serve encode count ◌>>=◌ to_text
given_out = refl

serve_refines_example :
    Steps "p"
      (waiting small "p" [])
      (serve calls site).0
      (waiting small "p" (serve calls site).1.db.messages)
serve_refines_example = serve_refines arranges canonical "p" calls site

delivered_once_example :
    Perm
      (handed_to "p" (serve calls site).0 ++ waiting small "p" (serve calls site).1.db.messages)
      (waiting small "p" [] ++ posted_to "p" (serve calls site).0)
delivered_once_example = delivered_once arranges canonical "p" calls site none_deleted

given_once_example : IsDistinct (given_of "p" (serve calls site).0)
given_once_example = given_once "p" calls site none_deleted

abbrev bundle_of : List RawPrekey → RawIdentity
bundle_of ks = record {
  identity_public_key = "1,";
  registration_id = 3;
  signed_prekey = record { key_id = 1; public_key = "1,"; signature = "1," };
  kyber_signed_prekey = record { key_id = 1; public_key = "1,"; signature = "1," };
  one_time_prekeys = ks;
}

abbrev linking_with : List RawPrekey → Call
linking_with ks =
    posts_devices "a" (record { code = "c0de"; label = "Laptop"; bundle = bundle_of ks })

-- The prekeys of the new device have one number twice.
abbrev linking : Call
linking =
    linking_with
      (record { key_id = 5; public_key = "1," } ∷ record { key_id = 5; public_key = "11," } ∷ [])

linking_fails : handle linking site ≡ (err (refused server_error), (handle linking site).1)
unfolding handle encode count ◌>>=◌ to_text traverse for_each
linking_fails = refl

handle-err_example : (handle linking site).1.db ≡ tables
handle-err_example =
    handle-err linking site (handle linking site).1 (refused server_error) linking_fails

-- The first fails and is rolled back, the second links, and the last finds the code used.
abbrev links : List Call
links =
    posts_link_init "p" "a"
    ∷ linking
    ∷ linking_with (record { key_id = 5; public_key = "1," } ∷ [])
    ∷ linking_with []
    ∷ []

linked_out : linked_by "c0de" (serve links site).0 ≡ "27" ∷ []
unfolding serve encode count ◌>>=◌ to_text traverse for_each hex hex_byte
linked_out = refl

not_made : All (λ e. makes "c0de" e ≡ false) (serve links site).0
unfolding serve encode count ◌>>=◌ to_text traverse for_each hex hex_byte
not_made = (refl, (refl, (refl, (refl, tt))))

linked_once_example : length (linked_by "c0de" (serve links site).0) ≤ 1
linked_once_example = linked_once "c0de" links site not_made (tt, tt)

abbrev without_tablet : Site small
without_tablet = (unlink_device "p" "t" site).1

tablet_unlinked : unlink_device "p" "t" site ≡ (ok tt, without_tablet)
unfolding unlink_device ◌>>=◌
tablet_unlinked = refl

abbrev knock : Received
knock = record {
  device_id = some "t";
  timestamp = some "97";
  signature = some "1,";
  method = "GET";
  path = "/v1/messages";
  body = [];
}

unlinked_refused_example :
    (authenticated_device (host_at server (λ id. id) without_tablet.db) knock ≢ accepted "t")
    × (authenticated (host_at server (λ id. id) without_tablet.db) some knock ≢ accepted ("t", []))
unlinked_refused_example =
    unlinked_refused server (λ id. id) "p" "t" site without_tablet tablet_unlinked Bytes some knock
      []

abbrev request : RawIdentity
request = bundle_of (record { key_id = 5; public_key = "1," } ∷ [])

abbrev response : RegisterResponse
response = record { account_id = "12"; device_id = "14" }

abbrev with_account : Site small
with_account = (register request site).1

registers : register request site ≡ (ok response, with_account)
unfolding register encode count ◌>>=◌ to_text traverse for_each
registers = refl

register_served_example : IsServed request (get_prekey_bundle "14" with_account).0
register_served_example = register_served canonical request site with_account response registers
