-- ===== src/Server/Routes/Devices.antt =====
-- server/src/routes/devices.rs.
use umbra_chat.Prelude.{
  ℕ, ◌+◌, ◌*◌, String, ◌==◌, not, List, [], ◌∷◌, map, filter, ltb, if◌then◌else◌,
}
use umbra_chat.Exec.{pure, ◌>>=◌, ◌>>◌}
use umbra_chat.Api.{hex}
use umbra_chat.Server.{bad_request, forbidden, not_found, server_error}
use umbra_chat.Server.Database.{
  DeviceRow, select_account_id, insert_link, consume_link, delete_device,
}
use umbra_chat.Server.Route.{
  Backend, Route, refuse, ok_or, query, execute, execute_returning, now, utc_now, fill_bytes,
  transaction,
}
use umbra_chat.Server.Routes.Register.{
  validate_bundle, insert_device_bundle, add_device, RegisterRequest,
}

-- `Duration::minutes(5)`, in microseconds
abbrev pub link_code_ttl : ℕ
link_code_ttl = 5 * 60 * 1000000

pub record CompleteLinkRequest : Type 0 where
  pub code : String
  pub label : String
  pub bundle : RegisterRequest

pub record DeviceOut : Type 0 where
  pub id : String
  pub label : String
  pub created_at : ℕ

abbrev pub device_out : DeviceRow → DeviceOut
device_out r = record { id = r.id; label = r.label; created_at = r.created_at }

-- ORDER BY created_at
abbrev place_device : DeviceRow → List DeviceRow → List DeviceRow
place_device d [] = d ∷ []
place_device d (e ∷ es) =
    let rest = place_device d es in if ltb e.created_at d.created_at then e ∷ rest else d ∷ e ∷ es

unfoldable pub order_by_created_at : List DeviceRow → List DeviceRow
order_by_created_at [] = []
order_by_created_at (d ∷ ds) = place_device d (order_by_created_at ds)

module _ {B : Backend} where
  unfoldable pub require_same_account : String → String → Route B Unit
  unfolding query ok_or refuse
  require_same_account caller_device_id account_id = do
    found ← query (select_account_id caller_device_id)
    caller_account_id ← ok_or found server_error
    if not (caller_account_id == account_id)
        then refuse (forbidden "device does not belong to this account")
        else pure tt

  unfoldable pub link_init : String → String → Route B String
  unfolding require_same_account fill_bytes utc_now execute
  link_init caller_device_id account_id = do
    require_same_account caller_device_id account_id
    raw ← fill_bytes 8
    started ← utc_now
    execute (
        insert_link (record {
          code = hex raw;
          account_id = account_id;
          expires_at = started + link_code_ttl;
        }))
    pure (hex raw)

  unfoldable pub complete_link : String → CompleteLinkRequest → Route B String
  unfolding validate_bundle transaction now execute_returning refuse add_device insert_device_bundle
  complete_link account_id req = do
    bundle ← validate_bundle req.bundle
    transaction (do
      started ← now
      consumed ← execute_returning (consume_link req.code account_id started)
      ok_or consumed (bad_request "link code is invalid, expired, or already used")
      device_id ← add_device account_id req.label started
      insert_device_bundle device_id bundle
      pure device_id)

  unfoldable pub list_devices : String → Route B (List DeviceOut)
  unfolding query order_by_created_at
  list_devices account_id = do
    rows ← query (λ db. filter (λ d. d.account_id == account_id) db.devices)
    pure (map device_out (order_by_created_at rows))

  unfoldable pub unlink_device : String → String → Route B Unit
  unfolding query ok_or require_same_account execute_returning
  unlink_device caller_device_id device_id = do
    found ← query (select_account_id device_id)
    target_account_id ← ok_or found (not_found "device not found")
    require_same_account caller_device_id target_account_id
    execute_returning (λ db. (tt, delete_device device_id db))
