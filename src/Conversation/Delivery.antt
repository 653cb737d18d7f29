-- ===== src/Conversation/Delivery.antt =====
-- To whom `sendToContact` posts: the requests with a body, by the device that they name.
use umbra_chat.Prelude.{
  ◌≡◌, refl, sym, ap, ◌∙◌, ◌≢◌, String, some, List, [], ◌∷◌, ◌++◌, map, append-nil, append_assoc,
  arith,
}
use umbra_chat.Identity.{Bytes, LocalAccount}
use umbra_chat.Http.{MessageBody, delivery, Request, Response, DeviceInfo}
use umbra_chat.Platform.{Platform}
use umbra_chat.Exec.{thrown, ok, err, pure, throw, for_each}
use umbra_chat.Exec.Bind.{bind-ok, bind_of_ok}
use umbra_chat.Exec.Keeps.{Keeps-step}
use umbra_chat.World.{World, fetch}
use umbra_chat.World.Frame.{IsQuiet, date_now-Keeps}
use umbra_chat.Signal.Frame.{
  restore_session-Keeps, has_session-Keeps, encrypt-Keeps, persist_session-Keeps,
}
use umbra_chat.Api.{signed_fetch, list_devices, send_message}
use umbra_chat.Api.Frame.{sign_with_identity-Keeps, require_success-Keeps, list_devices-Keeps}
use umbra_chat.Conversation.Frame.{establish_unless-Keeps}
use umbra_chat.Conversation.{send_to_device, send_to_devices, send_to_contact}

abbrev pub recipients : List Request → List String
recipients [] = []
recipients (r ∷ rs) = elim r.body [
  | some (delivery b) ↦ b.recipient_device_id ∷ recipients rs
  | _ ↦ recipients rs
]

recipients-append : (xs ys : List Request) → recipients (xs ++ ys) ≡ recipients xs ++ recipients ys
recipients-append [] ys = refl
recipients-append (r ∷ rs) ys = ground (arith, recipients-append rs ys)

module _ {P : Platform} where
  pub record HasPosted (ids : List String) (w : World P) : Type 0 where
    pub posted : recipients w.requests ≡ ids

  pub HasPosted-IsQuiet : (ids : List String) → IsQuiet (HasPosted ids)
  HasPosted-IsQuiet ids = record {
    env = λ w e h. record { posted = h.posted };
    store = λ w s h. record { posted = h.posted };
    sessions = λ w d h. record { posted = h.posted };
    request = λ w r e h. record {
      posted =
          recipients-append w.requests (r ∷ [])
          ∙ ground (arith, append-nil (recipients w.requests), h.posted);
    };
  }

  fetch-posts :
      (r : Request) {b : MessageBody} {ids : List String} {u v : World P} {a : Response}
      → r.body ≡ some (delivery b)
      → fetch r u ≡ (ok a, v)
      → HasPosted ids u
      → HasPosted (ids ++ b.recipient_device_id ∷ []) v
  unfolding fetch
  fetch-posts r {b} {ids} {u} {v} e h p = record {
    posted =
        ap recipients (sym (ap (λ q. q.1.requests) h))
        ∙ recipients-append u.requests (r ∷ [])
        ∙ ground (arith, p.posted);
  }

  send_message-posts :
      (id : String) (envelope : Bytes) (account : LocalAccount) {ids : List String} {w v : World P}
      → send_message id envelope account w ≡ (ok tt, v)
      → HasPosted ids w
      → HasPosted (ids ++ id ∷ []) v
  unfolding send_message signed_fetch
  send_message-posts id envelope account {ids} h p =
      let (response, u, sent, checked) = bind-ok _ _ _ h in
      let (now, u1, e1, k1) = bind-ok _ _ _ sent in
      let (signature, u2, e2, k2) = bind-ok _ _ _ k1 in
      let quiet = HasPosted-IsQuiet ids in
      Keeps-step {Q = HasPosted (ids ++ id ∷ [])} (require_success-Keeps _ response) checked (
        fetch-posts _ refl k2 (
          Keeps-step (sign_with_identity-Keeps quiet _ _) e2
            (Keeps-step (date_now-Keeps quiet) e1 p)))

  send_to_device-posts :
      (contact_id : String) (plaintext : Bytes) (account : LocalAccount) (d : DeviceInfo)
      {ids : List String} {w v : World P}
      → send_to_device contact_id plaintext account d w ≡ (ok tt, v)
      → HasPosted ids w
      → HasPosted (ids ++ d.id ∷ []) v
  unfolding send_to_device
  send_to_device-posts contact_id plaintext account d {ids} h p =
      let (_, u1, e1, k1) = bind-ok _ _ _ h in
      let (_, u2, e2, k2) = bind-ok _ _ _ k1 in
      let (_, u3, e3, k3) = bind-ok _ _ _ k2 in
      let (ciphertext, u4, e4, k4) = bind-ok _ _ _ k3 in
      let (_, u5, e5, e6) = bind-ok _ _ _ k4 in
      let quiet = HasPosted-IsQuiet ids in
      let p1 = Keeps-step (restore_session-Keeps quiet _) e1 p in
      let p2 = Keeps-step (has_session-Keeps quiet _) e2 p1 in
      let p3 = Keeps-step (establish_unless-Keeps quiet _ _ _ account) e3 p2 in
      let p4 = Keeps-step (encrypt-Keeps quiet _ plaintext) e4 p3 in
      let p5 = send_message-posts d.id ciphertext account e5 p4 in
      Keeps-step (persist_session-Keeps (HasPosted-IsQuiet (ids ++ d.id ∷ [])) _) e6 p5

  for_each-posts :
      (contact_id : String) (plaintext : Bytes) (account : LocalAccount) (ds : List DeviceInfo)
      {ids : List String} {w v : World P}
      → for_each ds (send_to_device contact_id plaintext account) w ≡ (ok tt, v)
      → HasPosted ids w
      → HasPosted (ids ++ map (λ d. d.id) ds) v
  unfolding for_each pure
  for_each-posts contact_id plaintext account [] {ids} h p = record {
    posted = ap (λ q. recipients q.1.requests) (sym h) ∙ ground (arith, p.posted, append-nil ids);
  }
  for_each-posts contact_id plaintext account (d ∷ ds) {ids} h p =
      let (_, u, e, k) = bind-ok _ _ _ h in
      let p1 = send_to_device-posts contact_id plaintext account d e p in
      let p2 = for_each-posts contact_id plaintext account ds k p1 in rw (append_assoc) at p2

  send_to_devices-posts :
      (contact_id : String) (plaintext : Bytes) (account : LocalAccount) (ds : List DeviceInfo)
      {ids : List String} {w v : World P}
      → send_to_devices contact_id plaintext account ds w ≡ (ok tt, v)
      → HasPosted ids w
      → HasPosted (ids ++ map (λ d. d.id) ds) v
  unfolding send_to_devices throw
  send_to_devices-posts contact_id plaintext account [] h p = cc
  send_to_devices-posts contact_id plaintext account (d ∷ ds) h p =
      for_each-posts contact_id plaintext account (d ∷ ds) h p

  send_to_devices-ne :
      (contact_id : String) (plaintext : Bytes) (account : LocalAccount) (ds : List DeviceInfo)
      (w v : World P)
      → send_to_devices contact_id plaintext account ds w ≡ (ok tt, v)
      → ds ≢ []
  unfolding send_to_devices throw
  send_to_devices-ne contact_id plaintext account [] w v h = cc
  send_to_devices-ne contact_id plaintext account (d ∷ ds) w v h = cc

  -- A send that succeeds has posted exactly one message to each device that the server listed for
  -- the contact, in that order, and to no other; and it has found at least one.
  pub send_to_contact-recipients :
      (contact_id : String) (plaintext : Bytes) (account : LocalAccount) (w v : World P)
      → send_to_contact contact_id plaintext account w ≡ (ok tt, v)
      → (devices : List DeviceInfo) × (u : World P) × (list_devices contact_id account w
          ≡ (ok devices, u))
        × (devices ≢ [])
        × (recipients v.requests ≡ recipients w.requests ++ map (λ d. d.id) devices)
  unfolding send_to_contact
  send_to_contact-recipients contact_id plaintext account w v h =
      let (devices, u, listed, k) = bind-ok _ _ _ h in
      let p0 =
        Keeps-step
          (list_devices-Keeps (HasPosted-IsQuiet (recipients w.requests)) contact_id account) listed
          (record { posted = refl }) in
      (
        devices,
        u,
        listed,
        send_to_devices-ne contact_id plaintext account devices u v k,
        (send_to_devices-posts contact_id plaintext account devices k p0).posted,
      )

  -- A contact without a device cannot be reached: nothing is sent, and the send throws.
  pub send_to_contact_unreachable :
      (contact_id : String) (plaintext : Bytes) (account : LocalAccount) (w u : World P)
      → list_devices contact_id account w ≡ (ok [], u)
      → send_to_contact contact_id plaintext account w
        ≡ (err (thrown "this contact has no reachable devices"), u)
  unfolding send_to_contact send_to_devices throw
  send_to_contact_unreachable contact_id plaintext account w u h = bind_of_ok _ _ w h
