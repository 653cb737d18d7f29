-- ===== src/Tests.antt =====
-- A concrete browser, server and libsignal, small enough to run the model on: one contact "bob" with
-- one device, sessions that are counters, ciphertext that is the plaintext behind the type byte of
-- a session message, and a table in place of each codec.
pub mod Calling
pub mod Grouping
pub mod Paging
pub mod Polling
pub mod Sending
pub mod Serving
pub mod Mailing
use umbra_chat.Prelude.{
  ℕ, suc, String, ◌==◌, Bool, true, false, Option, none, some, or_default, List, [], ◌∷◌, nat_eq,
  if◌then◌else◌,
}
use umbra_chat.Identity.{Bytes, PrekeyBundle, SignedPrekeyBundle, IdentityBundle, LocalAccount}
use umbra_chat.Message.{Direction, MessageStatus, ChatMessage, Group, plain_message}
use umbra_chat.Envelope.{Envelope, text, receipt, ReceiptKind, timer, call, group}
use umbra_chat.Http.{
  Method, get, post, Request, Response, Json, devices, messages, bundle, RawSignedPrekey,
  RawBundleResponse, DeviceInfo, RawMessage, other,
}
use umbra_chat.Platform.{Platform}
use umbra_chat.Prelude.Dict.{lookup, insert, values}
use umbra_chat.Prelude.Decimal.{to_text}
use umbra_chat.Exec.{
  thrown, Result, ok, err, pure, throw, gets, lift, modify, ◌>>=◌, on_option, for_each, traverse,
  when_some,
}
use umbra_chat.World.{World, date_now, random_uuid, db_request, fetch, to_iso}
use umbra_chat.Storage.{
  load_messages, save_messages, load_group, save_group, load_session, save_session,
}
use umbra_chat.Signal.{
  open_store, store_session, has_session, establish_session, export_session, import_session,
  encrypt, decrypt, persist_session, restore_session,
}
use umbra_chat.Api.{
  error_message, sha256_hex, signed_message, sign_with_identity, signed_fetch, require_success,
  list_devices, send_message, fetch_messages, fetch_prekey_bundle,
}
use umbra_chat.Conversation.{
  session_key, send_to_device, send_to_contact, send_envelope, send_call_signal, get_timer_seconds,
  set_timer_seconds_local, set_disappearing_timer, now_iso, expiry_after, expiry_if, send_text,
  deliver_file, send_file_in, send_file, mark_file_opened,
}
use umbra_chat.Conversation.Poll.{is_alive, apply_receipt, process_all, poll}
use umbra_chat.Group.{
  other_members, fan_out, create_group, send_group_text, remove_member, handle_group_signal,
}
use umbra_chat.Call.{
  cleanup, change, machine, rtc, detached, end_call, start_call, accept_call, hang_up,
}
use umbra_chat.Call.Events.{handle_call_signal, on_track, on_idle_reset}
use umbra_chat.Call.Data.{CallMachine, initial}

-- The server's queue, the devices of "bob", and a counter for ids.
pub record Outside : Type 0 where
  pub inbox : List RawMessage
  pub bobs : List DeviceInfo
  pub ids : ℕ

abbrev raw_prekey : RawSignedPrekey
raw_prekey = record { key_id = 1; public_key = "key"; signature = "signature" }

abbrev served : String → Outside → Json
served path o =
    if path == "/v1/accounts/bob/devices"
    then devices o.bobs
    else if path == "/v1/messages"
    then messages o.inbox
    else bundle (record {
      identity_public_key = "key";
      registration_id = 1;
      signed_prekey = raw_prekey;
      kyber_signed_prekey = raw_prekey;
      one_time_prekey = none;
    })

abbrev answer : Request → Outside → Option Response × Outside
answer r o = elim r.method [
  | get ↦ (some (record { succeeded = true; json = served r.path o }), record o { inbox = [] })
  | _ ↦ (some (record { succeeded = true; json = other }), o)
]

-- "hello" and "read" are ciphertexts of a text and of a receipt; anything else is not decrypted.
abbrev from_text : String → Bytes
from_text s = if s == "hello" then 2 ∷ 1 ∷ [] else if s == "read" then 2 ∷ 2 ∷ [] else []

abbrev read_plaintext : Bytes → Option Envelope
read_plaintext [] = none
read_plaintext (b ∷ _) =
    if nat_eq b 1 then some (text "t1" "hello") else some (receipt ReceiptKind.read "s1")

abbrev pub first_byte : Bytes → Result ℕ
first_byte [] = err (thrown "no session")
first_byte (b ∷ _) = ok b

abbrev pub key_pair : PrekeyBundle
key_pair = record { key_id = 1; public_key = 1 ∷ []; private_key = 2 ∷ [] }

abbrev pub signed_pair : SignedPrekeyBundle
signed_pair = record { prekey = key_pair; signature = 3 ∷ [] }

abbrev pub alice_identity : IdentityBundle
alice_identity = record {
  identity_public_key = 4 ∷ [];
  identity_private_key = 5 ∷ [];
  registration_id = 1;
  signed_prekey = signed_pair;
  kyber_signed_prekey = signed_pair;
  one_time_prekeys = [];
}

abbrev pub toy : Platform
toy = record {
  Env = Outside;
  date_now = λ o. (7000, o);
  random_uuid = λ o. (if nat_eq o.ids 0 then "id0" else "id1", record o { ids = suc o.ids });
  db_request = λ o. (none, o);
  fetch = answer;
  exception_message = λ e. "exception";
  sha256 = λ bytes. bytes;
  utf8 = λ s. [];
  btoa = λ bytes. "ciphertext";
  atob = λ s. some (from_text s);
  stringify_body = λ b. "body";
  generate_identity_bundle = λ count o. (ok alice_identity, o);
  stringify = λ e. 9 ∷ [];
  parse = read_plaintext;
  calculate_signature = λ key message o. (ok message, o);
  rtc = λ request o. (ok "sdp", o);
  SessionRecord = ℕ;
  KeyStores = Unit;
  new_key_stores = λ identity. ok tt;
  process_prekey_bundle = λ b session keys o. (ok 0, keys, o);
  message_encrypt =
      λ plaintext session keys o. (ok (2, plaintext, suc (or_default session 0)), keys, o);
  message_decrypt = λ prekey body session keys o. (ok (body, suc (or_default session 0)), keys, o);
  serialize = λ session. ok (session ∷ []);
  deserialize = first_byte;
}

abbrev pub alice : LocalAccount
alice = record { account_id = "alice"; device_id = "alice-phone"; identity = alice_identity }

abbrev pub phone : DeviceInfo
phone = record { id = "bob-phone"; label = "phone"; created_at = 0 }

abbrev pub from_bob : String → RawMessage
from_bob ciphertext = record {
  sender_account_id = "bob";
  sender_device_id = "bob-phone";
  ciphertext = ciphertext;
  created_at = 6000;
}

-- A text that was sent to "bob" with a timer, and not read yet.
abbrev pub timed : ChatMessage
timed = record (plain_message "s1" Direction.sent "psst" MessageStatus.sent 5000) {
  timer_seconds = some 60;
}

-- A text from "bob" that has expired.
abbrev pub stale : ChatMessage
stale = record (plain_message "r1" Direction.received "old" MessageStatus.delivered 1000) {
  expires_at = some 2000;
}

abbrev pub team : Group
team = record {
  id = "team";
  name = "Team";
  member_account_ids = "alice" ∷ "bob" ∷ [];
  created_at = 4000;
}

abbrev pub start : Outside → World toy
start o = record {
  env = o;
  requests = [];
  store = record { session_store = []; keys = tt };
  account = some alice;
  sessions = [];
  messages = ("bob", timed ∷ stale ∷ []) ∷ [];
  groups = ("team", team) ∷ [];
  timers = ("bob", 30) ∷ [];
  call = initial;
}

-- "bob" has a phone, two messages of his wait; he has no device; what waits is no ciphertext.
abbrev pub online : World toy
online =
    start (record { inbox = from_bob "hello" ∷ from_bob "read" ∷ []; bobs = phone ∷ []; ids = 0 })

abbrev pub unreachable : World toy
unreachable = start (record { inbox = []; bobs = []; ids = 0 })

abbrev pub garbled : World toy
garbled =
    start (record { inbox = from_bob "hello" ∷ from_bob "?" ∷ []; bobs = phone ∷ []; ids = 0 })

-- Unfolding this runs the model.
unfoldable pub run_model : Unit {0}
unfolding pure throw gets lift modify ◌>>=◌ on_option for_each traverse when_some lookup insert
    values date_now random_uuid db_request fetch to_iso load_messages save_messages load_group
    save_group load_session save_session store_session has_session establish_session export_session
    import_session encrypt decrypt persist_session restore_session open_store error_message
    sha256_hex signed_message sign_with_identity signed_fetch require_success list_devices
    send_message fetch_messages fetch_prekey_bundle session_key send_to_device send_to_contact
    send_envelope send_call_signal get_timer_seconds set_timer_seconds_local set_disappearing_timer
    now_iso expiry_after expiry_if send_text deliver_file send_file_in send_file mark_file_opened
    is_alive apply_receipt process_all poll other_members fan_out create_group send_group_text
    remove_member handle_group_signal cleanup change machine rtc detached end_call start_call
    accept_call hang_up handle_call_signal on_track on_idle_reset to_text
run_model = tt
