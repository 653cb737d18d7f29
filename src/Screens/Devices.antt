-- ===== src/Screens/Devices.antt =====
-- web/src/screens/LinkedDevices.tsx: its state beside the world, what it does, and what it shows. That it
-- refreshes when it is shown and every three seconds is left to the caller.
use umbra_chat.Prelude.{
  String, ◌==◌, ◌<>◌, false, Option, none, some, List, [], ◌∷◌, ◌++◌, if◌then◌else◌,
}
use umbra_chat.Identity.{LocalAccount}
use umbra_chat.Http.{DeviceInfo}
use umbra_chat.Platform.{Platform}
use umbra_chat.Exec.{Result, ok, err, Exec, modify, ◌>>=◌, ◌>>◌}
use umbra_chat.World.{World, Io}
use umbra_chat.Api.{list_devices, link_init, unlink_device}
use umbra_chat.App.Handlers.{message_of}
use umbra_chat.Screens.{
  Forms, unlinks, inits_link, Node, heading, paragraph, button, call_back, alert_if, rows,
}

pub record Devices : Type 0 where
  pub devices : List DeviceInfo
  pub code : Option String
  pub error : Option String

module _ (P : Platform) where
  pub record DevicesState : Type 0 where
    pub view : Devices
    pub world : World P

module _ {P : Platform} where
  inside : {A : Type 0} → Io P A → Exec (DevicesState P) A
  inside m s = let (r, w) = m s.world in (r, record s { world = w })

  change : (Devices → Devices) → Exec (DevicesState P) Unit
  change f = modify (λ s. record s { view = f s.view })

  abbrev failing : String → Result {0} Unit → DevicesState P → Result {0} Unit × DevicesState P
  failing fallback (ok a) s = (ok a, s)
  failing fallback (err e) s =
      (ok tt, record s { view = record s.view { error = some (message_of P fallback e) } })

  -- `try { … } catch (err) { setError(…) }`
  abbrev reporting : String → Exec (DevicesState P) Unit → Exec (DevicesState P) Unit
  reporting fallback m s = let (r, t) = m s in failing fallback r t

  unfoldable pub refresh : LocalAccount → Exec (DevicesState P) Unit
  unfolding inside change
  refresh account = reporting "failed to load devices" (do
    devices ← inside (list_devices account.account_id account)
    change (λ d. record d { devices = devices }))

  unfoldable pub handle_unlink : String → LocalAccount → Exec (DevicesState P) Unit
  unfolding inside change refresh
  handle_unlink device_id account = do
    change (λ d. record d { error = none })
    reporting "failed to unlink device"
        (do inside (unlink_device device_id account); refresh account)

  unfoldable pub handle_link_init : LocalAccount → Exec (DevicesState P) Unit
  unfolding inside change
  handle_link_init account = do
    change (λ d. record d { error = none })
    reporting "failed to start device link"
        (do code ← inside (link_init account); change (λ d. record d { code = code }))

abbrev pub device_row : LocalAccount → Forms → DeviceInfo → List Node
device_row account forms d =
    paragraph (d.label <> (if d.id == account.device_id then " (this device)" else ""))
    ∷ button "Unlink" false (call_back (unlinks d.id) forms)
    ∷ []

abbrev pub code_nodes : LocalAccount → Option String → List Node
code_nodes account none = []
code_nodes account (some code) =
    if code == ""
    then []
    else paragraph (
        "On the new device, choose \"Link to existing account\" and enter account ID "
        <> (account.account_id <> (" with code " <> (code <> " - expires in 5 minutes."))))
      ∷ []

-- What stands below the list.
unfoldable pub link_form : LocalAccount → Devices → Forms → List Node
link_form account view forms =
    button "Link a New Device" false (call_back inits_link forms) ∷ code_nodes account view.code
    ++ alert_if view.error

unfoldable pub linked_devices : LocalAccount → Devices → Forms → List Node
unfolding link_form
linked_devices account view forms =
    heading "Linked Devices" ∷ rows (device_row account forms) view.devices
    ++ link_form account view forms
