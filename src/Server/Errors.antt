-- ===== src/Server/Errors.antt =====
-- server/src/routes: what a route that answers with an error leaves.
use umbra_chat.Prelude.{◌≡◌, refl, Bool, true, false, String}
use umbra_chat.Http.{RawPrekey}
use umbra_chat.Exec.{Error, err}
use umbra_chat.Exec.Atomic.{
  IsAtomic, IsAtomic-Keeps, IsAtomic-bind, IsAtomic-bind_pure, IsAtomic-bind-Returns,
}
use umbra_chat.Exec.Keeps.{Keeps, Keeps-bind, Keeps-pure}
use umbra_chat.Exec.Returns.{Returns-bind, Returns-gets, Returns-pure}
use umbra_chat.Server.Calls.{
  Call, posts_register, gets_prekey_bundle, deletes_device, gets_devices, posts_devices,
  posts_link_init, posts_message, gets_messages, handle,
}
use umbra_chat.Server.Database.{Database}
use umbra_chat.Server.Frame.{
  On, IsAt, route_rules, execute-IsAtomic, execute_returning-IsAtomic, transaction-IsAtomic,
}
use umbra_chat.Server.Route.{Backend, Site}
use umbra_chat.Server.Routes.Devices.{
  CompleteLinkRequest, link_init, complete_link, list_devices, unlink_device, require_same_account,
}
use umbra_chat.Server.Routes.Messages.{SendMessageRequest, send_message, fetch_messages}
use umbra_chat.Server.Routes.Prekeys.{get_prekey_bundle}
use umbra_chat.Server.Routes.Register.{
  RegisterRequest, register, require, decode_prekey, validate_bundle,
}

module _ {B : Backend} {P : Database → Type 0} where
  require-Keeps : (b : Bool) (message : String) → Keeps (On {B = B} P) (require b message)
  unfolding require
  require-Keeps true message = search route_rules
  require-Keeps false message = search route_rules

  decode_prekey-Keeps : (p : RawPrekey) → Keeps (On {B = B} P) (decode_prekey p)
  unfolding decode_prekey
  decode_prekey-Keeps p = search (route_rules, require-Keeps) depth 8

  pub validate_bundle-Keeps : (req : RegisterRequest) → Keeps (On {B = B} P) (validate_bundle req)
  unfolding validate_bundle
  validate_bundle-Keeps req = search (route_rules, require-Keeps, decode_prekey-Keeps) depth 40

  pub require_same_account-Keeps :
      (caller account_id : String) → Keeps (On {B = B} P) (require_same_account caller account_id)
  unfolding require_same_account
  require_same_account-Keeps caller account_id = search route_rules depth 12

  pub list_devices-Keeps : (account_id : String) → Keeps (On {B = B} P) (list_devices account_id)
  unfolding list_devices
  list_devices-Keeps account_id = search route_rules depth 12

-- Steps that change nothing, and then a write.
ruleset atomic_routes = (
  route_rules, IsAtomic-bind, IsAtomic-bind_pure, execute-IsAtomic, execute_returning-IsAtomic,
  transaction-IsAtomic, validate_bundle-Keeps, require_same_account-Keeps,
)

module _ {B : Backend} {P : Database → Type 0} where
  register-IsAtomic : (req : RegisterRequest) → IsAtomic (On {B = B} P) (register req)
  unfolding register
  register-IsAtomic req = search atomic_routes depth 12

  complete_link-IsAtomic :
      (account_id : String) (req : CompleteLinkRequest)
      → IsAtomic (On {B = B} P) (complete_link account_id req)
  unfolding complete_link
  complete_link-IsAtomic account_id req = search atomic_routes depth 12

  link_init-IsAtomic :
      (caller account_id : String) → IsAtomic (On {B = B} P) (link_init caller account_id)
  unfolding link_init
  link_init-IsAtomic caller account_id = search atomic_routes depth 12

  unlink_device-IsAtomic : (caller id : String) → IsAtomic (On {B = B} P) (unlink_device caller id)
  unfolding unlink_device
  unlink_device-IsAtomic caller id = search atomic_routes depth 14

  get_prekey_bundle-IsAtomic : (id : String) → IsAtomic (On {B = B} P) (get_prekey_bundle id)
  unfolding get_prekey_bundle
  get_prekey_bundle-IsAtomic id = search atomic_routes depth 24

  send_message-IsAtomic :
      (sender : String) (req : SendMessageRequest)
      → IsAtomic (On {B = B} P) (send_message sender req)
  unfolding send_message
  send_message-IsAtomic sender req = search atomic_routes depth 20

  fetch_messages-IsAtomic : (id : String) → IsAtomic (On {B = B} P) (fetch_messages id)
  unfolding fetch_messages
  fetch_messages-IsAtomic id =
      IsAtomic-bind-Returns _ _ (execute_returning-IsAtomic _)
        (λ rows. Returns-bind _ _ (Returns-gets _) (λ sorted. Returns-pure _))

  handle-IsAtomic : (c : Call) → IsAtomic (On {B = B} P) (handle c)
  unfolding handle
  handle-IsAtomic (posts_register req) = IsAtomic-bind_pure _ _ (register-IsAtomic req)
  handle-IsAtomic (gets_prekey_bundle id) = IsAtomic-bind_pure _ _ (get_prekey_bundle-IsAtomic id)
  handle-IsAtomic (deletes_device caller id) =
      IsAtomic-bind_pure _ _ (unlink_device-IsAtomic caller id)
  handle-IsAtomic (gets_devices id) =
      IsAtomic-Keeps _ (Keeps-bind _ _ (list_devices-Keeps id) (λ ds. Keeps-pure _))
  handle-IsAtomic (posts_devices id req) = IsAtomic-bind_pure _ _ (complete_link-IsAtomic id req)
  handle-IsAtomic (posts_link_init caller id) =
      IsAtomic-bind_pure _ _ (link_init-IsAtomic caller id)
  handle-IsAtomic (posts_message sender req) =
      IsAtomic-bind_pure _ _ (send_message-IsAtomic sender req)
  handle-IsAtomic (gets_messages id) = IsAtomic-bind_pure _ _ (fetch_messages-IsAtomic id)

-- A call of any route that is answered with an error leaves the database as it was.
pub handle-err :
    {B : Backend} (c : Call) (s t : Site B) (e : Error) → handle c s ≡ (err e, t) → t.db ≡ s.db
handle-err c s t e h =
    ((handle-IsAtomic {P = IsAt s.db} c).at s t e h (record { holds = refl })).holds
