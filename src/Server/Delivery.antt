-- ===== src/Server/Delivery.antt =====
-- server/src/routes as a whole: the messages that it holds and hands out, against the mailboxes.
use mathlib.Core.List.{Perm}
use mathlib.Core.Path.{subst}
use umbra_chat.Prelude.{
  ◌≡◌, refl, ap, sym, ◌∙◌, inl, inr, ℕ, String, ◌==◌, true, Bool-cases, map, eq_iff, Option, none,
  some, List, [], ◌∷◌, ◌++◌,
}
use umbra_chat.Identity.{Bytes}
use umbra_chat.Exec.{Result, ok, err, pure}
use umbra_chat.Exec.Bind.{bind-ok}
use umbra_chat.Exec.Keeps.{Keeps, Keeps-bind, Keeps-pure, Keeps-step}
use umbra_chat.Server.Calls.{
  Call, Reply, posts_register, gets_prekey_bundle, deletes_device, gets_devices, posts_devices,
  posts_link_init, posts_message, gets_messages, posted, delivered, unlinked, handle, serve,
}
use umbra_chat.Server.Database.{Database, MessageRow, claim}
use umbra_chat.Server.Errors.{handle-err, list_devices-Keeps}
use umbra_chat.Server.Frame.{On}
use umbra_chat.Server.Mailbox.{
  post_of, is_other, Step, Steps, refused, posts, posts_elsewhere, empties, gets_elsewhere, deletes,
  deletes_elsewhere, others, done, next,
}
use umbra_chat.Server.Queue.{fetch_messages-ok, send_message-ok, unlink_device-ok}
use umbra_chat.Server.Route.{Backend, Site}
use umbra_chat.Server.Routes.Devices.{unlink_device}
use umbra_chat.Server.Routes.Messages.{
  SendMessageRequest, ReceivedMessage, send_message, fetch_messages,
}
use umbra_chat.Server.Tables.{
  register-Keeps, complete_link-Keeps, link_init-Keeps, get_prekey_bundle-Keeps,
}
use umbra_chat.Server.Waiting.{
  waiting, row_post, waiting-append_here, waiting-append_elsewhere, waiting-taken,
  waiting-taken_elsewhere, waiting-deleted, waiting-deleted_elsewhere,
}

claim-messages :
    (id : String) (o : Option ℕ) (db : Database) → (claim id o db).1.messages ≡ db.messages
claim-messages id none db = refl
claim-messages id (some n) db = refl

abbrev HasMessages : List MessageRow → Database → Type 0
HasMessages ms db = db.messages ≡ ms

module _ {B : Backend} {ms : List MessageRow} where
  handle_other : (c : Call) → is_other c ≡ true → Keeps (On {B = B} (HasMessages ms)) (handle c)
  unfolding handle
  handle_other (posts_register req) o =
      Keeps-bind _ _ (register-Keeps {Q = λ rows _ _. rows ≡ ms} (λ k rows ks ls f h. h) req)
        (λ r. Keeps-pure _)
  handle_other (gets_prekey_bundle id) o =
      Keeps-bind _ _ (get_prekey_bundle-Keeps id (λ db h. claim-messages id _ db ∙ h))
        (λ b. Keeps-pure _)
  handle_other (deletes_device caller id) o = cc o
  handle_other (gets_devices id) o = Keeps-bind _ _ (list_devices-Keeps id) (λ ds. Keeps-pure _)
  handle_other (posts_devices id req) o =
      Keeps-bind _ _
        (complete_link-Keeps {Q = λ rows _ _. rows ≡ ms} (λ k rows ks ls f h. h)
          (λ p rows ks ls h. h) id req)
        (λ r. Keeps-pure _)
  handle_other (posts_link_init caller id) o =
      Keeps-bind _ _ (link_init-Keeps (λ rows _ _. rows ≡ ms) (λ l rows ks ls f h. h) caller id)
        (λ code. Keeps-pure _)
  handle_other (posts_message sender req) o = cc o
  handle_other (gets_messages id) o = cc o

module _ {B : Backend}
    (arranges : (A : Type 0) (e : B.Env) (rows : List A) → Perm (B.any_order e rows) rows)
    (canonical : (text : String) (bytes : Bytes)
      → B.decode_base64 text ≡ some bytes
      → B.encode_base64 bytes ≡ text)
    (d : String) where
  other_refines :
      (c : Call) (s t : Site B) (r : Reply)
      → is_other c ≡ true
      → handle c s ≡ (ok r, t)
      → Step d (waiting B d s.db.messages) (c, ok r) (waiting B d t.db.messages)
  other_refines c s t r o h =
      let kept = Keeps-step (handle_other {ms = s.db.messages} c o) h (record { holds = refl }) in
      subst (λ ms. Step d (waiting B d s.db.messages) (c, ok r) (waiting B d ms)) (sym kept.holds)
        (others c r _ o)

  post_refines :
      (sender : String) (req : SendMessageRequest) (s t : Site B) (id : String)
      → send_message sender req s ≡ (ok id, t)
      → Step d
          (waiting B d s.db.messages)
          (posts_message sender req, ok (posted id))
          (waiting B d t.db.messages)
  post_refines sender req s t id h =
      let (m, from, to, decodes, added) = send_message-ok sender req s h in
      let post : row_post B m ≡ (sender, req.ciphertext) =
        λ i. (from i, canonical req.ciphertext m.ciphertext decodes i) in
      elim (Bool-cases (req.recipient_device_id == d)) [
        | inl here ↦
            subst
              (λ box.
                Step d (waiting B d s.db.messages) (posts_message sender req, ok (posted id)) box)
              (ap (λ p. waiting B d s.db.messages ++ (p ∷ [])) (sym post)
                ∙ sym (waiting-append_here B d s.db.messages m (ap (λ x. x == d) to ∙ here))
                ∙ ap (waiting B d) (sym added))
              (posts sender id req _ here)
        | inr elsewhere ↦
            subst
              (λ box.
                Step d (waiting B d s.db.messages) (posts_message sender req, ok (posted id)) box)
              (sym (waiting-append_elsewhere B d s.db.messages m (ap (λ x. x == d) to ∙ elsewhere))
                ∙ ap (waiting B d) (sym added))
              (posts_elsewhere sender id req _ elsewhere)
      ]

  fetch_refines :
      (id : String) (s t : Site B) (ms : List ReceivedMessage)
      → fetch_messages id s ≡ (ok ms, t)
      → Step d
          (waiting B d s.db.messages)
          (gets_messages id, ok (delivered ms))
          (waiting B d t.db.messages)
  fetch_refines id s t ms h =
      let (same, in_order, left) = fetch_messages-ok arranges id s h in
      elim (Bool-cases (id == d)) [
        | inl here ↦
            subst
              (λ box. Step d (waiting B d s.db.messages) (gets_messages id, ok (delivered ms)) box)
              (sym (waiting-taken B d id s.db.messages here) ∙ ap (waiting B d) (sym left))
              (empties id ms _ here in_order (
                subst (λ j. Perm (map post_of ms) (waiting B j s.db.messages))
                  ((eq_iff id d).0 here) same))
        | inr elsewhere ↦
            subst
              (λ box. Step d (waiting B d s.db.messages) (gets_messages id, ok (delivered ms)) box)
              (sym (waiting-taken_elsewhere B d id s.db.messages elsewhere)
                ∙ ap (waiting B d) (sym left))
              (gets_elsewhere id _ _ elsewhere)
      ]

  delete_refines :
      (caller id : String) (s t : Site B)
      → unlink_device caller id s ≡ (ok tt, t)
      → Step d
          (waiting B d s.db.messages)
          (deletes_device caller id, ok unlinked)
          (waiting B d t.db.messages)
  delete_refines caller id s t h =
      let left = ap (λ db. waiting B d db.messages) (sym (unlink_device-ok caller id s h)) in
      elim (Bool-cases (id == d)) [
        | inl here ↦
            subst
              (λ box.
                Step d (waiting B d s.db.messages) (deletes_device caller id, ok unlinked) box)
              (sym (waiting-deleted B d id s.db.messages here) ∙ left) (deletes caller id _ _ here)
        | inr elsewhere ↦
            subst
              (λ box.
                Step d (waiting B d s.db.messages) (deletes_device caller id, ok unlinked) box)
              (sym (waiting-deleted_elsewhere B d id s.db.messages elsewhere) ∙ left)
              (deletes_elsewhere caller id _ _ elsewhere)
      ]

  accepted_refines :
      (c : Call) (s t : Site B) (r : Reply)
      → handle c s ≡ (ok r, t)
      → Step d (waiting B d s.db.messages) (c, ok r) (waiting B d t.db.messages)
  unfolding handle pure
  accepted_refines (posts_register req) s t r h = other_refines _ s t r refl h
  accepted_refines (gets_prekey_bundle id) s t r h = other_refines _ s t r refl h
  accepted_refines (gets_devices id) s t r h = other_refines _ s t r refl h
  accepted_refines (posts_devices id req) s t r h = other_refines _ s t r refl h
  accepted_refines (posts_link_init caller id) s t r h = other_refines _ s t r refl h
  accepted_refines (deletes_device caller id) s t r h =
      let (_, u, e, k) = bind-ok _ _ _ h in
      subst
        (λ p.
          Step d (waiting B d s.db.messages) (deletes_device caller id, p.0)
            (waiting B d p.1.db.messages))
        k (delete_refines caller id s u e)
  accepted_refines (posts_message sender req) s t r h =
      let (n, u, e, k) = bind-ok _ _ _ h in
      subst
        (λ p.
          Step d (waiting B d s.db.messages) (posts_message sender req, p.0)
            (waiting B d p.1.db.messages))
        k (post_refines sender req s u n e)
  accepted_refines (gets_messages id) s t r h =
      let (ms, u, e, k) = bind-ok _ _ _ h in
      subst
        (λ p.
          Step d (waiting B d s.db.messages) (gets_messages id, p.0) (waiting B d p.1.db.messages))
        k (fetch_refines id s u ms e)

  handle_refines :
      (c : Call) (s : Site B) (r : Result Reply)
      → (handle c s).0 ≡ r
      → Step d (waiting B d s.db.messages) (c, r) (waiting B d (handle c s).1.db.messages)
  handle_refines c s (ok r) h = accepted_refines c s (handle c s).1 r (λ i. (h i, (handle c s).1))
  handle_refines c s (err e) h =
      subst (λ db. Step d (waiting B d s.db.messages) (c, err e) (waiting B d db.messages))
        (sym (handle-err c s (handle c s).1 e (λ i. (h i, (handle c s).1)))) (refused c e _)

  -- Where the rows of a statement come back in some order, and base64 decodes only what it encodes: whatever
  -- is called, and however each call ends, the server does to the messages that wait for a device what a
  -- mailbox does. Posts to the device are added at its end; a fetch gives all there is, in the order of
  -- their times, and empties it; deleting the device empties it, and deleting another takes out what that
  -- one sent; a call that is refused, and any other, leaves it as it is.
  pub serve_refines :
      (cs : List Call) (s : Site B)
      → let (log, t) = serve cs s in
        Steps d (waiting B d s.db.messages) log (waiting B d t.db.messages)
  unfolding serve
  serve_refines [] s = done _
  serve_refines (c ∷ cs) s = next (handle_refines c s _ refl) (serve_refines cs (handle c s).1)
