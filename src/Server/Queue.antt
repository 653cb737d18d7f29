-- ===== src/Server/Queue.antt =====
-- server/src/routes/messages.rs and the table `messages`: what each route makes of the messages that wait
-- for a device.
use mathlib.Core.List.{Perm}
use mathlib.Core.List.Perm
use mathlib.Core.Path.{subst}
use umbra_chat.Prelude.{
  ◌≡◌, refl, ap, sym, ◌∙◌, String, not, some, List, [], ◌∷◌, ◌++◌, map, filter,
}
use umbra_chat.Exec.{ok, pure, gets, ◌>>=◌}
use umbra_chat.Exec.Bind.{bind-ok}
use umbra_chat.Exec.Keeps.{Keeps-pure, Keeps-step}
use umbra_chat.Server.Database.{MessageRow, is_for, insert_message, take_messages, delete_device}
use umbra_chat.Server.Frame.{
  ok_or-ok, On, IsAt, query-Keeps, ok_or-Keeps, gen_random_uuid-Keeps, now-Keeps, execute-ok,
  execute_returning-ok,
}
use umbra_chat.Server.Mailbox.{post_of, IsAscending}
use umbra_chat.Server.Route.{Backend, Site, execute}
use umbra_chat.Server.Routes.Devices.{unlink_device}
use umbra_chat.Server.Routes.Messages.{
  SendMessageRequest, ReceivedMessage, received_message, sort_by_created_at, send_message,
  fetch_messages,
}
use umbra_chat.Server.Writes.{guarded}
use umbra_chat.Server.Errors.{require_same_account-Keeps}
use umbra_chat.Server.Waiting.{row_post, waiting, post_of-received}
use umbra_chat.Server.Sorted.{
  sort_by_created_at-Perm, sort_by_created_at-IsAscending, IsAscending-map,
}

module _ {B : Backend} where
  arranged :
      (f : Site B → List MessageRow) (g : List MessageRow → List ReceivedMessage) (u : Site B)
      {ms : List ReceivedMessage} {t : Site B}
      → (gets f >>= λ sorted. pure (g sorted)) u ≡ (ok ms, t)
      → (g (f u) ≡ ms) × (t.db ≡ u.db)
  unfolding gets pure ◌>>=◌
  arranged f g u h = (cc h, cc h)

  -- What is fetched is all that waits, in the order of its times.
  pub fetch_messages-ok :
      (arranges : (A : Type 0) (e : B.Env) (rows : List A) → Perm (B.any_order e rows) rows)
      (id : String) (s : Site B) {t : Site B} {ms : List ReceivedMessage}
      → fetch_messages id s ≡ (ok ms, t)
      → Perm (map post_of ms) (waiting B id s.db.messages)
        × IsAscending (λ (m : ReceivedMessage). m.created_at) ms
        × (t.db.messages ≡ filter (λ m. not (is_for id m)) s.db.messages)
  unfolding fetch_messages
  fetch_messages-ok arranges id s {ms = ms} h =
      let (rows, u, e, k) = bind-ok _ _ _ h in
      let taken = execute_returning-ok (take_messages id) s e in
      let (same, kept) = arranged _ _ u k in
      let mixed = B.any_order u.env rows in
      (
        subst (λ ps. Perm (map post_of ps) (waiting B id s.db.messages)) same
            (subst (λ ps. Perm ps (waiting B id s.db.messages))
              (sym (post_of-received B (sort_by_created_at mixed)))
              (Perm.map (row_post B) (
                Perm.trans (sort_by_created_at-Perm mixed) (
                  subst (λ rs. Perm mixed rs) (sym (ap (λ p. p.0) taken))
                    (arranges MessageRow u.env rows))))),
        subst (IsAscending (λ (m : ReceivedMessage). m.created_at)) same (
            IsAscending-map _ (received_message B) (sort_by_created_at mixed)
              (sort_by_created_at-IsAscending mixed)),
        ap (λ db. db.messages) kept ∙ sym (ap (λ p. p.1.messages) taken),
      )

module _ {B : Backend} where
  posted-ok :
      (m : MessageRow) (id : String) (s : Site B) {a : String} {t : Site B}
      → (execute (insert_message m) >>= λ _. pure id) s ≡ (ok a, t)
      → t.db.messages ≡ s.db.messages ++ (m ∷ [])
  posted-ok m id s h =
      let (_, u, e, k) = bind-ok _ _ _ h in
      let same = guarded _ (execute-ok (insert_message m) s e) in
      let kept = Keeps-step (Keeps-pure {Q = On (IsAt u.db)} id) k (record { holds = refl }) in
      ap (λ db. db.messages) (kept.holds ∙ sym same)

  -- What is posted waits from then on.
  pub send_message-ok :
      (sender : String) (body : SendMessageRequest) (s : Site B) {t : Site B} {id : String}
      → send_message sender body s ≡ (ok id, t)
      → (m : MessageRow) × (m.sender_device_id ≡ sender)
        × (m.recipient_device_id ≡ body.recipient_device_id)
        × (B.decode_base64 body.ciphertext ≡ some m.ciphertext)
        × (t.db.messages ≡ s.db.messages ++ (m ∷ []))
  unfolding send_message
  send_message-ok sender body s h =
      let (bytes, s1, e1, k1) = bind-ok _ _ _ h in
      let (decodes, same) = ok_or-ok _ _ s e1 in
      let (found, s2, e2, k2) = bind-ok _ _ _ k1 in
      let (account_id, s3, e3, k3) = bind-ok _ _ _ k2 in
      let (id, s4, e4, k4) = bind-ok _ _ _ k3 in
      let (created_at, s5, e5, k5) = bind-ok _ _ _ k4 in
      let q2 =
        Keeps-step (query-Keeps {P = IsAt s.db} _) e2
          (record { holds = ap (λ u. u.db) (sym same) }) in
      let q3 = Keeps-step (ok_or-Keeps {P = IsAt s.db} found _) e3 q2 in
      let q4 = Keeps-step (gen_random_uuid-Keeps {P = IsAt s.db}) e4 q3 in
      let q5 = Keeps-step (now-Keeps {P = IsAt s.db}) e5 q4 in
      let m : MessageRow = record {
        id = id;
        sender_device_id = sender;
        sender_account_id = account_id;
        recipient_device_id = body.recipient_device_id;
        ciphertext = bytes;
        created_at = created_at;
      } in
      (m, refl, refl, decodes, posted-ok m id s5 k5 ∙ ap (λ db. db.messages ++ (m ∷ [])) q5.holds)

  -- What a device sent, or was to get, goes with it.
  pub unlink_device-ok :
      (caller id : String) (s : Site B) {t : Site B}
      → unlink_device caller id s ≡ (ok tt, t)
      → t.db ≡ delete_device id s.db
  unfolding unlink_device
  unlink_device-ok caller id s h =
      let (found, s1, e1, k1) = bind-ok _ _ _ h in
      let (account_id, s2, e2, k2) = bind-ok _ _ _ k1 in
      let (_, s3, e3, k3) = bind-ok _ _ _ k2 in
      let q1 = Keeps-step (query-Keeps {P = IsAt s.db} _) e1 (record { holds = refl }) in
      let q2 = Keeps-step (ok_or-Keeps {P = IsAt s.db} found _) e2 q1 in
      let q3 = Keeps-step (require_same_account-Keeps {P = IsAt s.db} caller account_id) e3 q2 in
      sym (ap (λ p. p.1) (execute_returning-ok (λ db. (tt, delete_device id db)) s3 k3))
      ∙ ap (delete_device id) q3.holds
