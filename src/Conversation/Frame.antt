-- ===== src/Conversation/Frame.antt =====
-- Sending changes no local data, whether it succeeds or throws.
use umbra_chat.Prelude.{◌≡◌, refl, String, ℕ, Bool, true, false, Option, none, some, List, [], ◌∷◌}
use umbra_chat.Identity.{Bytes, LocalAccount}
use umbra_chat.Envelope.{Envelope}
use umbra_chat.Http.{DeviceInfo}
use umbra_chat.Platform.{Platform}
use umbra_chat.Exec.Keeps.{Keeps}
use umbra_chat.World.{World}
use umbra_chat.World.Frame.{IsQuiet, IsDeaf, local_data, HasData-IsQuiet, HasData-IsDeaf}
use umbra_chat.Signal.Frame.{signal_rules}
use umbra_chat.Api.Frame.{api_rules}
use umbra_chat.Conversation.{
  establish_unless, send_to_device, send_to_devices, send_to_contact, send_envelope,
  get_timer_seconds, now_iso, expiry_after, expiry_if,
}

module _ {P : Platform} {Q : World P → Type 0} (quiet : IsQuiet Q) where
  pub get_timer_seconds-Keeps : (id : String) → Keeps Q (get_timer_seconds id)
  unfolding get_timer_seconds
  get_timer_seconds-Keeps id = search signal_rules

  pub now_iso-Keeps : Keeps Q now_iso
  unfolding now_iso
  now_iso-Keeps = search signal_rules

  expiry_after-Keeps : (seconds : ℕ) → Keeps Q (expiry_after seconds)
  unfolding expiry_after
  expiry_after-Keeps seconds = search signal_rules

  pub expiry_if-Keeps : (seconds : Option ℕ) → Keeps Q (expiry_if seconds)
  unfolding expiry_if
  expiry_if-Keeps none = search signal_rules
  expiry_if-Keeps (some seconds) = search (signal_rules, expiry_after-Keeps)

  pub establish_unless-Keeps :
      (known : Bool) (key id : String) (account : LocalAccount)
      → Keeps Q (establish_unless known key id account)
  unfolding establish_unless
  establish_unless-Keeps true key id account = search signal_rules
  establish_unless-Keeps false key id account = search (signal_rules, api_rules)

  module _ (deaf : IsDeaf Q) where
    send_to_device-Keeps :
        (id : String) (plaintext : Bytes) (account : LocalAccount) (device : DeviceInfo)
        → Keeps Q (send_to_device id plaintext account device)
    unfolding send_to_device
    send_to_device-Keeps id plaintext account device =
        search (signal_rules, api_rules, establish_unless-Keeps) depth 8

    send_to_devices-Keeps :
        (id : String) (plaintext : Bytes) (account : LocalAccount) (ds : List DeviceInfo)
        → Keeps Q (send_to_devices id plaintext account ds)
    unfolding send_to_devices
    send_to_devices-Keeps id plaintext account [] = search signal_rules
    send_to_devices-Keeps id plaintext account (d ∷ ds) =
        search (signal_rules, send_to_device-Keeps)

    pub send_to_contact-Keeps :
        (id : String) (plaintext : Bytes) (account : LocalAccount)
        → Keeps Q (send_to_contact id plaintext account)
    unfolding send_to_contact
    send_to_contact-Keeps id plaintext account = search (api_rules, send_to_devices-Keeps)

    pub send_envelope-Keeps :
        (id : String) (e : Envelope) (account : LocalAccount) → Keeps Q (send_envelope id e account)
    unfolding send_envelope
    send_envelope-Keeps id e account = send_to_contact-Keeps id (P.stringify e) account

-- Reaching a contact changes no stored account, history, group or timer, whether every device was
-- reached or it threw on the way.
pub send_to_contact-local_data :
    {P : Platform} (contact_id : String) (plaintext : Bytes) (account : LocalAccount) (w : World P)
    → local_data (send_to_contact contact_id plaintext account w).1 ≡ local_data w
send_to_contact-local_data contact_id plaintext account w =
    ((send_to_contact-Keeps (HasData-IsQuiet (local_data w)) (HasData-IsDeaf (local_data w))
        contact_id plaintext account).at
      w (record { same = refl })).same
