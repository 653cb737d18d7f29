-- ===== src/Server/Tables.antt =====
-- server/src/routes: what the routes that create devices do to the tables of messages and of prekeys: they
-- add prekeys under numbers that were free.
use mathlib.Core.Path.{subst}
use umbra_chat.Identity.{Bytes}
use umbra_chat.Prelude.{
  filter, ◌==◌, Bool, find, ◌≡◌, refl, ℕ, String, true, false, ◌||◌, Option, none, some, is_some,
  List, [], ◌∷◌, ◌++◌, if◌then◌else◌,
}
use umbra_chat.Exec.Keeps.{Keeps, Keeps-bind, Keeps-gets, Keeps-pure, Keeps-for_each}
use umbra_chat.Server.Database.{take_prekey, Database, PrekeyRow, MessageRow, LinkRow, is_prekey}
use umbra_chat.Server.Errors.{validate_bundle-Keeps, require_same_account-Keeps}
use umbra_chat.Server.Frame.{
  query-Keeps, On, now-Keeps, utc_now-Keeps, gen_random_uuid-Keeps, fill_bytes-Keeps, ok_or-Keeps,
}
use umbra_chat.Server.Route.{Backend}
use umbra_chat.Server.Routes.Devices.{CompleteLinkRequest, link_init, complete_link}
use umbra_chat.Server.Routes.Messages.{SendMessageRequest, send_message, fetch_messages}
use umbra_chat.Server.Routes.Prekeys.{get_prekey_bundle}
use umbra_chat.Server.Routes.Register.{
  RegisterRequest, DecodedBundle, insert_one_time_prekey, insert_device_bundle, add_device,
  register,
}
use umbra_chat.Server.Writes.{
  Keeps-execute, Keeps-insert, Keeps-execute_returning, Keeps-transaction,
}

unbroken :
    {A : Type 0} (o : Option A) (b : Bool) {d d' : Database}
    → (if is_some o || b then none else some d) ≡ some d'
    → (o ≡ none) × (d ≡ d')
unbroken none true h = cc
unbroken none false h = (refl, cc h)
unbroken (some k) b h = cc h

module _ {B : Backend} {Q : List MessageRow → List PrekeyRow → List LinkRow → Type 0}
    (added : (k : PrekeyRow) (ms : List MessageRow) (ks : List PrekeyRow) (ls : List LinkRow)
      → find (is_prekey k.device_id k.key_id) ks ≡ none
      → Q ms ks ls
      → Q ms (ks ++ (k ∷ [])) ls) where
  insert_one_time_prekey-Keeps :
      (id : String) (k : ℕ × Bytes)
      → Keeps
          (On {B = B} (λ db. Q db.messages db.prekeys db.pending_device_links))
          (insert_one_time_prekey id k)
  unfolding insert_one_time_prekey
  insert_one_time_prekey-Keeps id (n, key) = Keeps-execute _ (λ db db' h q.
      let (free, same) = unbroken _ _ h in
      subst (λ d. Q d.messages d.prekeys d.pending_device_links) same
        (added _ db.messages db.prekeys db.pending_device_links free q))

  pub insert_device_bundle-Keeps :
      (id : String) (bundle : DecodedBundle)
      → Keeps
          (On {B = B} (λ db. Q db.messages db.prekeys db.pending_device_links))
          (insert_device_bundle id bundle)
  unfolding insert_device_bundle
  insert_device_bundle-Keeps id bundle = Keeps-bind _ _ (Keeps-insert _ _ (λ db q. q)) (λ _.
      Keeps-bind _ _ (Keeps-insert _ _ (λ db q. q)) (λ _.
        Keeps-bind _ _ (Keeps-insert _ _ (λ db q. q))
          (λ _. Keeps-for_each _ _ (insert_one_time_prekey-Keeps id))))

  pub add_device-Keeps :
      (account_id label : String) (created_at : ℕ)
      → Keeps
          (On {B = B} (λ db. Q db.messages db.prekeys db.pending_device_links))
          (add_device account_id label created_at)
  unfolding add_device
  add_device-Keeps account_id label created_at =
      Keeps-bind _ _ gen_random_uuid-Keeps
        (λ id. Keeps-bind _ _ (Keeps-insert _ _ (λ db q. q)) (λ _. Keeps-pure id))

  pub register-Keeps :
      (req : RegisterRequest)
      → Keeps (On {B = B} (λ db. Q db.messages db.prekeys db.pending_device_links)) (register req)
  unfolding register
  register-Keeps req = Keeps-bind _ _ (validate_bundle-Keeps req) (λ bundle. Keeps-transaction _ (
      Keeps-bind _ _ now-Keeps (λ started. Keeps-bind _ _ gen_random_uuid-Keeps (λ account_id.
        Keeps-bind _ _ (Keeps-insert _ _ (λ db q. q)) (λ _.
          Keeps-bind _ _ (add_device-Keeps account_id "Primary" started) (λ device_id.
            Keeps-bind _ _ (insert_device_bundle-Keeps device_id bundle) (λ _. Keeps-pure _)))))))

  pub complete_link-Keeps :
      (consumed : (p : LinkRow → Bool) (ms : List MessageRow) (ks : List PrekeyRow)
          (ls : List LinkRow)
        → Q ms ks ls
        → Q ms ks (filter p ls))
      (account_id : String) (req : CompleteLinkRequest)
      → Keeps
          (On {B = B} (λ db. Q db.messages db.prekeys db.pending_device_links))
          (complete_link account_id req)
  unfolding complete_link
  complete_link-Keeps consumed account_id req =
      Keeps-bind _ _ (validate_bundle-Keeps req.bundle) (λ bundle. Keeps-transaction _ (
        Keeps-bind _ _ now-Keeps (λ started.
          Keeps-bind _ _
            (Keeps-execute_returning _
              (λ db q. consumed _ db.messages db.prekeys db.pending_device_links q))
            (λ found. Keeps-bind _ _ (ok_or-Keeps found _) (λ _.
              Keeps-bind _ _ (add_device-Keeps account_id req.label started) (λ device_id.
                Keeps-bind _ _ (insert_device_bundle-Keeps device_id bundle)
                  (λ _. Keeps-pure _)))))))

module _ {B : Backend} (Q : List MessageRow → List PrekeyRow → List LinkRow → Type 0) where
  pub link_init-Keeps :
      (minted : (l : LinkRow) (ms : List MessageRow) (ks : List PrekeyRow) (ls : List LinkRow)
        → find (λ k. k.code == l.code) ls ≡ none
        → Q ms ks ls
        → Q ms ks (ls ++ (l ∷ [])))
      (caller account_id : String)
      → Keeps
          (On {B = B} (λ db. Q db.messages db.prekeys db.pending_device_links))
          (link_init caller account_id)
  unfolding link_init
  link_init-Keeps minted caller account_id =
      Keeps-bind _ _ (require_same_account-Keeps caller account_id) (λ _.
        Keeps-bind _ _ (fill_bytes-Keeps 8) (λ raw. Keeps-bind _ _ utc_now-Keeps (λ started.
          Keeps-bind _ _
            (Keeps-execute _ (λ db db' h q.
              let (free, same) = unbroken _ _ h in
              subst (λ d. Q d.messages d.prekeys d.pending_device_links) same
                (minted _ db.messages db.prekeys db.pending_device_links free q)))
            (λ _. Keeps-pure _))))

pub get_prekey_bundle-Keeps :
    {B : Backend} {P : Database → Type 0} (id : String)
    → ((db : Database) → P db → P (take_prekey id db).1)
    → Keeps (On {B = B} P) (get_prekey_bundle id)
unfolding get_prekey_bundle
get_prekey_bundle-Keeps id taken = Keeps-bind _ _ (query-Keeps _) (λ found.
    Keeps-bind _ _ (ok_or-Keeps found _) (λ identity. Keeps-bind _ _ (query-Keeps _) (λ found.
      Keeps-bind _ _ (ok_or-Keeps found _) (λ signed. Keeps-bind _ _ (query-Keeps _) (λ found.
        Keeps-bind _ _ (ok_or-Keeps found _)
          (λ kyber. Keeps-bind _ _ (Keeps-execute_returning _ taken) (λ one. Keeps-pure _)))))))

module _ {B : Backend} {P : Database → Type 0} where
  pub send_message-Keeps :
      (sender : String) (body : SendMessageRequest)
      → ((m : MessageRow) (db : Database)
          → P db
          → P (record db { messages = db.messages ++ (m ∷ []) }))
      → Keeps (On {B = B} P) (send_message sender body)
  unfolding send_message
  send_message-Keeps sender body kept = Keeps-bind _ _ (ok_or-Keeps _ _) (λ bytes.
      Keeps-bind _ _ (query-Keeps _) (λ found. Keeps-bind _ _ (ok_or-Keeps found _) (λ account_id.
        Keeps-bind _ _ gen_random_uuid-Keeps (λ id. Keeps-bind _ _ now-Keeps (λ created_at.
          Keeps-bind _ _ (Keeps-insert _ _ (λ db h. kept _ db h)) (λ _. Keeps-pure id))))))

  pub fetch_messages-Keeps :
      (id : String)
      → ((p : MessageRow → Bool) (db : Database)
          → P db
          → P (record db { messages = filter p db.messages }))
      → Keeps (On {B = B} P) (fetch_messages id)
  unfolding fetch_messages
  fetch_messages-Keeps id kept =
      Keeps-bind _ _ (Keeps-execute_returning _ (λ db h. kept _ db h))
        (λ rows. Keeps-bind _ _ (Keeps-gets _) (λ sorted. Keeps-pure _))
