-- ===== src/Server/Links.antt =====
-- server/src/routes/devices.rs: a code links one device.
pub mod Once
pub mod Step
use mathlib.Core.Path.{subst}
use umbra_chat.Prelude.{
  ◌≡◌, refl, ap, sym, ◌∙◌, arith, ℕ, ◌≤◌, String, ◌==◌, eq_iff, Bool, true, false, Option, none,
  some, List, [], ◌∷◌, ◌++◌, length, All, filter, if_holds, if◌then◌else◌, find, Bool-cases, inl,
  inr,
}
use umbra_chat.Api.{hex}
use umbra_chat.Exec.{Result, ok, err, Exec, pure, ◌>>=◌, ◌>>◌}
use umbra_chat.Exec.Bind.{bind-ok, ok-injective}
use umbra_chat.Exec.Keeps.{Keeps, Keeps-bind, Keeps-gets, Keeps-pure, Keeps-step}
use umbra_chat.Server.Calls.{
  Call, Reply, Log, posts_register, gets_prekey_bundle, deletes_device, gets_devices, posts_devices,
  posts_link_init, posts_message, gets_messages, linked, code_made, handle, serve,
}
use umbra_chat.Server.Codes.{
  IsAbsent, IsKeyed, IsAbsent-filter, IsKeyed-filter, IsAbsent-append, IsKeyed-append,
  IsAbsent-consumed, find_absent,
}
use umbra_chat.Server.Database.{Database, LinkRow, is_open_link, consume_link, claim}
use umbra_chat.Server.Errors.{
  handle-err, list_devices-Keeps, validate_bundle-Keeps, require_same_account-Keeps,
}
use umbra_chat.Server.Frame.{
  On, IsAt, query-Keeps, ok_or-Keeps, ok_or-ok, now-Keeps, utc_now-Keeps, fill_bytes-Keeps,
  gen_random_uuid-Keeps, execute-ok, execute_returning-ok, transaction-ok,
}
use umbra_chat.Server.Route.{Backend, Site}
use umbra_chat.Server.Routes.Devices.{CompleteLinkRequest, link_init, complete_link, unlink_device}
use umbra_chat.Server.Routes.Messages.{send_message, fetch_messages}
use umbra_chat.Server.Routes.Register.{DecodedBundle, add_device, insert_device_bundle}
use umbra_chat.Server.Tables.{
  add_device-Keeps, insert_device_bundle-Keeps, register-Keeps, complete_link-Keeps,
  link_init-Keeps, get_prekey_bundle-Keeps, send_message-Keeps, fetch_messages-Keeps,
}
use umbra_chat.Server.Writes.{Keeps-execute_returning, Keeps-insert, Keeps-execute}

abbrev pub accepted_link : String → Call → Reply → Option String
accepted_link code (posts_devices account_id req) (linked id) =
    if req.code == code then some id else none
accepted_link code _ _ = none

abbrev pub linked_in : String → Call × Result Reply → Option String
linked_in code (c, err e) = none
linked_in code (c, ok r) = accepted_link code c r

abbrev pub with_id : Option String → List String → List String
with_id none ids = ids
with_id (some id) ids = id ∷ ids

-- The devices that were linked by the code, first to last.
abbrev pub linked_by : String → Log → List String
linked_by code [] = []
linked_by code (e ∷ log) = with_id (linked_in code e) (linked_by code log)

-- The code was made for a link.
abbrev pub made : String → Reply → Bool
made code (code_made other) = other == code
made code _ = false

abbrev pub makes : String → Call × Result Reply → Bool
makes code (c, err e) = false
makes code (c, ok r) = made code r

claim-links :
    (id : String) (o : Option ℕ) (db : Database)
    → (claim id o db).1.pending_device_links ≡ db.pending_device_links
claim-links id none db = refl
claim-links id (some n) db = refl

abbrev pub is_init : Call → Bool
is_init (posts_link_init caller id) = true
is_init _ = false

-- A property of the codes that no removal breaks is kept by every route but the one that makes codes.
module _ {B : Backend} {L : List LinkRow → Type 0}
    (consumed : (p : LinkRow → Bool) (ls : List LinkRow) → L ls → L (filter p ls)) where
  pub handle-links :
      (c : Call)
      → is_init c ≡ false
      → Keeps (On {B = B} (λ db. L db.pending_device_links)) (handle c)
  unfolding handle unlink_device
  handle-links (posts_register req) k =
      Keeps-bind _ _ (register-Keeps {Q = λ _ _ ls. L ls} (λ k rows ks ls f h. h) req)
        (λ r. Keeps-pure _)
  handle-links (gets_prekey_bundle id) k =
      Keeps-bind _ _ (get_prekey_bundle-Keeps id (λ db h. subst L (sym (claim-links id _ db)) h))
        (λ b. Keeps-pure _)
  handle-links (deletes_device caller id) k =
      Keeps-bind _ _
        (Keeps-bind _ _ (query-Keeps _) (λ found.
          Keeps-bind _ _ (ok_or-Keeps found _) (λ account_id.
            Keeps-bind _ _ (require_same_account-Keeps caller account_id)
              (λ _. Keeps-execute_returning _ (λ db h. h)))))
        (λ _. Keeps-pure _)
  handle-links (gets_devices id) k = Keeps-bind _ _ (list_devices-Keeps id) (λ ds. Keeps-pure _)
  handle-links (posts_devices id req) k =
      Keeps-bind _ _
        (complete_link-Keeps {Q = λ _ _ ls. L ls} (λ k rows ks ls f h. h)
          (λ p rows ks ls h. consumed p ls h) id req)
        (λ r. Keeps-pure _)
  handle-links (posts_link_init caller id) k = cc k
  handle-links (posts_message sender req) k =
      Keeps-bind _ _ (send_message-Keeps sender req (λ m db h. h)) (λ id. Keeps-pure _)
  handle-links (gets_messages id) k =
      Keeps-bind _ _ (fetch_messages-Keeps id (λ p db h. h)) (λ ms. Keeps-pure _)

module _ {B : Backend} where
  added-IsAbsent :
      (code account_id label : String) (started : ℕ) (bundle : DecodedBundle)
      → Keeps (On {B = B} (λ db. IsAbsent code db.pending_device_links)) (
          add_device account_id label started >>= λ device_id.
          insert_device_bundle device_id bundle >> pure device_id)
  added-IsAbsent code account_id label started bundle =
      Keeps-bind _ _
        (add_device-Keeps {Q = λ _ _ ls. IsAbsent code ls} (λ k rows ks ls f h. h) account_id label
          started)
        (λ device_id.
          Keeps-bind _ _
            (insert_device_bundle-Keeps {Q = λ _ _ ls. IsAbsent code ls} (λ k rows ks ls f h. h)
              device_id bundle)
            (λ _. Keeps-pure _))

  -- A device that is linked was linked by an open code, which is gone.
  pub complete_link-ok :
      (account_id : String) (req : CompleteLinkRequest) (s : Site B) {t : Site B} {id : String}
      → complete_link account_id req s ≡ (ok id, t)
      → IsKeyed s.db.pending_device_links
      → (started : ℕ) × (l : LinkRow) × (find
            (is_open_link req.code account_id started)
            s.db.pending_device_links
          ≡ some l)
        × IsAbsent req.code t.db.pending_device_links
  unfolding complete_link
  complete_link-ok account_id req s h keyed =
      let (bundle, s1, e1, k1) = bind-ok _ _ _ h in
      let q1 =
        Keeps-step (validate_bundle-Keeps {P = IsAt s.db} req.bundle) e1
          (record { holds = refl }) in
      let (u, v, same, inside, left) = transaction-ok _ s1 k1 in
      let (started, s2, e2, k2) = bind-ok _ _ _ inside in
      let q2 = Keeps-step (now-Keeps {P = IsAt s.db}) e2 (record { holds = same ∙ q1.holds }) in
      let (consumed, s3, e3, k3) = bind-ok _ _ _ k2 in
      let taken =
        ap (consume_link req.code account_id started) (sym q2.holds)
        ∙ execute_returning-ok _ s2 e3 in
      let (l, s4, e4, k4) = bind-ok _ _ _ k3 in
      let (found, still) = ok_or-ok consumed _ s3 e4 in
      let opened = ap (λ p. p.0) taken ∙ found in
      let gone =
        IsAbsent-consumed req.code account_id started s.db.pending_device_links l keyed opened in
      let at_last =
        Keeps-step (added-IsAbsent req.code account_id req.label started bundle) k4 (record {
          holds =
              subst (IsAbsent req.code)
                (ap (λ p. p.1.pending_device_links) taken
                  ∙ ap (λ x. x.db.pending_device_links) still)
                gone;
        }) in
      (
        started,
        l,
        opened,
        subst (IsAbsent req.code) (ap (λ db. db.pending_device_links) (sym left)) at_last.holds,
      )
