-- ===== src/Server/Once.antt =====
-- server/src/routes/messages.rs: every message is handed out once. What was posted to a device and what was
-- handed to it, in a log of the calls.
use mathlib.Core.List.{Perm}
use mathlib.Core.List.Perm
use mathlib.Core.Path.{subst}
use umbra_chat.Prelude.{
  some, ◌≡◌, refl, ap, sym, String, ◌==◌, Bool, true, false, List, [], ◌∷◌, ◌++◌, map, All,
  append_assoc, append-nil, if◌then◌else◌,
}
use umbra_chat.Identity.{Bytes}
use umbra_chat.Exec.{Result, ok, err}
use umbra_chat.Server.Calls.{
  Call, Reply, Log, posts_register, gets_prekey_bundle, deletes_device, gets_devices, posts_devices,
  posts_link_init, posts_message, gets_messages, delivered, serve,
}
use umbra_chat.Server.Delivery.{serve_refines}
use umbra_chat.Server.Mailbox.{
  Post, post_of, is_other, Step, Steps, refused, posts, posts_elsewhere, empties, gets_elsewhere,
  deletes, deletes_elsewhere, others, done, next,
}
use umbra_chat.Server.Route.{Backend, Site}
use umbra_chat.Server.Waiting.{waiting}

abbrev pub accepted_posts : String → Call → List Post
accepted_posts d (posts_message sender req) =
    if req.recipient_device_id == d then (sender, req.ciphertext) ∷ [] else []
accepted_posts d _ = []

abbrev pub accepted_fetch : String → Call → Reply → List Post
accepted_fetch d (gets_messages id) (delivered ms) = if id == d then map post_of ms else []
accepted_fetch d _ _ = []

abbrev pub posted_in : String → Call × Result Reply → List Post
posted_in d (c, err e) = []
posted_in d (c, ok r) = accepted_posts d c

abbrev pub handed_in : String → Call × Result Reply → List Post
handed_in d (c, err e) = []
handed_in d (c, ok r) = accepted_fetch d c r

-- What was posted to the device, and what was handed to it, first to last.
abbrev pub posted_to : String → Log → List Post
posted_to d [] = []
posted_to d (e ∷ log) = posted_in d e ++ posted_to d log

abbrev pub handed_to : String → Log → List Post
handed_to d [] = []
handed_to d (e ∷ log) = handed_in d e ++ handed_to d log

abbrev is_deletion : Call → Bool
is_deletion (deletes_device caller id) = true
is_deletion _ = false

abbrev pub deletes_in : Call × Result Reply → Bool
deletes_in (c, err e) = false
deletes_in (c, ok r) = is_deletion c

Perm-of_eq : {A : Type 0} {xs ys : List A} → xs ≡ ys → Perm xs ys
Perm-of_eq {xs = xs} p = subst (Perm xs) p Perm.rfl

other_posts : (d : String) (c : Call) → is_other c ≡ true → accepted_posts d c ≡ []
other_posts d (posts_register req) o = refl
other_posts d (gets_prekey_bundle id) o = refl
other_posts d (deletes_device caller id) o = refl
other_posts d (gets_devices id) o = refl
other_posts d (posts_devices id req) o = refl
other_posts d (posts_link_init caller id) o = refl
other_posts d (posts_message sender req) o = cc o
other_posts d (gets_messages id) o = refl

other_fetch : (d : String) (c : Call) (r : Reply) → is_other c ≡ true → accepted_fetch d c r ≡ []
other_fetch d (posts_register req) r o = refl
other_fetch d (gets_prekey_bundle id) r o = refl
other_fetch d (deletes_device caller id) r o = refl
other_fetch d (gets_devices id) r o = refl
other_fetch d (posts_devices id req) r o = refl
other_fetch d (posts_link_init caller id) r o = refl
other_fetch d (posts_message sender req) r o = refl
other_fetch d (gets_messages id) r o = cc o

module _ {d : String} where
  -- A mailbox loses nothing and doubles nothing: what an entry hands out and leaves is what it found and got.
  Step-balance :
      {box after : List Post} {entry : Call × Result Reply}
      → Step d box entry after
      → deletes_in entry ≡ false
      → Perm (handed_in d entry ++ after) (box ++ posted_in d entry)
  Step-balance (refused c e box) k = Perm-of_eq (sym (append-nil box))
  Step-balance (posts sender id req box here) k =
      Perm-of_eq
        (ap (λ (b : Bool). box ++ (if b then (sender, req.ciphertext) ∷ [] else [])) (sym here))
  Step-balance (posts_elsewhere sender id req box there) k =
      Perm-of_eq (rw (there, append-nil box) refl)
  Step-balance (empties id ms box here in_order same) k =
      rw (here, append-nil box, append-nil (map post_of ms)) same
  Step-balance (gets_elsewhere id ms box there) k = Perm-of_eq (rw (there, append-nil box) refl)
  Step-balance (deletes caller id r box here) k = cc k
  Step-balance (deletes_elsewhere caller id r box there) k = cc k
  Step-balance (others c r box o) k =
      Perm-of_eq (rw (other_posts d c o, other_fetch d c r o, append-nil box) refl)

  Steps-balance :
      {box after : List Post} {log : Log}
      → Steps d box log after
      → All (λ e. deletes_in e ≡ false) log
      → Perm (handed_to d log ++ after) (box ++ posted_to d log)
  Steps-balance (done box) k = Perm-of_eq (sym (append-nil box))
  Steps-balance {box = box} {after = after} (next {mid = mid} {entry = e} {log = log} st rest)
        (k, ks) =
      Perm.trans (Perm-of_eq (append_assoc (handed_in d e) (handed_to d log) after)) (
        Perm.trans (Perm.append_left (handed_in d e) (Steps-balance rest ks)) (
          Perm.trans (Perm-of_eq (sym (append_assoc (handed_in d e) mid (posted_to d log)))) (
            Perm.trans (Perm.append_right (posted_to d log) (Step-balance st k))
              (Perm-of_eq (append_assoc box (posted_in d e) (posted_to d log))))))

-- Where the rows of a statement come back in some order, and base64 decodes only what it encodes: as long as
-- no device is deleted, what was handed to a device and what still waits for it are, with their
-- senders and their texts and up to their order, what waited for it at first and what was posted to it:
-- nothing is lost, and nothing is handed out twice.
pub delivered_once :
    {B : Backend}
    (arranges : (A : Type 0) (e : B.Env) (rows : List A) → Perm (B.any_order e rows) rows)
    (canonical : (text : String) (bytes : Bytes)
      → B.decode_base64 text ≡ some bytes
      → B.encode_base64 bytes ≡ text)
    (d : String) (cs : List Call) (s : Site B)
    → All (λ e. deletes_in e ≡ false) (serve cs s).0
    → let (log, t) = serve cs s in
      Perm
        (handed_to d log ++ waiting B d t.db.messages)
        (waiting B d s.db.messages ++ posted_to d log)
delivered_once arranges canonical d cs s k =
    Steps-balance (serve_refines arranges canonical d cs s) k
