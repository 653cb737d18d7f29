-- ===== src/Screens/Ready.antt =====
-- The screens before a conversation let the user do only what is in order.
use umbra_chat.Prelude.{
  ◌≡◌, String, ◌==◌, true, ◌||◌, inl, inr, Option, none, some, List, Bool-cases,
}
use umbra_chat.Prelude.Trim.{trim}
use umbra_chat.Identity.{LocalAccount}
use umbra_chat.Message.{Group}
use umbra_chat.Call.Data.{CallState}
use umbra_chat.App.{Ui}
use umbra_chat.Screens.{Forms}
use umbra_chat.Screens.Account.{create_account, new_conversation, safety_number}
use umbra_chat.Screens.Devices.{Devices, code_nodes, device_row, link_form, linked_devices}
use umbra_chat.Screens.Groups.{groups_form, groups_screen, group_row}
use umbra_chat.Screens.Offers.{
  unless, AreInOrder, ◌▸◌, ◌⊕◌, nothing, each, alerts, trim-IsTrimmed, member_ids-IsTrimmed,
  or_false, is_anonymous, is_identity_ready,
}

module _ (u : Ui) (call : CallState) where
  pub create_account-AreInOrder :
      (forms : Forms)
      → is_anonymous u.status ≡ true
      → AreInOrder u call (create_account u.creating u.error forms)
  unfolding create_account
  create_account-AreInOrder forms at =
      tt
      ▸ unless _ (λ enabled. record { may = (at, enabled) })
      ▸ tt
      ▸ tt
      ▸ unless _ (λ enabled s. record { may = tt })
      ▸ unless _ (λ enabled s. record { may = tt })
      ▸ unless _ (λ enabled.
        let (rest, code) =
          or_false (u.creating || (trim forms.link_account_id == "")) (trim forms.link_code == "")
            enabled in
        let (free, id) = or_false u.creating (trim forms.link_account_id == "") rest in
        record { may = (at, free, id, code) })
      ▸ alerts u.error

  pub new_conversation-AreInOrder :
      (forms : Forms)
      → is_identity_ready u.status ≡ true
      → AreInOrder u call (new_conversation u.starting u.error forms)
  unfolding new_conversation
  new_conversation-AreInOrder forms at =
      tt
      ▸ unless _ (λ enabled s. record { may = tt })
      ▸ unless _ (λ enabled.
        let (free, filled) = or_false u.starting (trim forms.contact_id == "") enabled in
        record { may = (at, free, trim-IsTrimmed forms.contact_id filled) })
      ▸ alerts u.error

  pub safety_number-AreInOrder :
      (account_id number : String) → AreInOrder u call (safety_number account_id number)
  unfolding safety_number
  safety_number-AreInOrder account_id number = tt ▸ tt ▸ tt ▸ tt ▸ tt ▸ nothing

  link_form-AreInOrder :
      (account : LocalAccount) (view : Devices) (forms : Forms)
      → is_identity_ready u.status ≡ true
      → AreInOrder u call (link_form account view forms)
  unfolding link_form
  link_form-AreInOrder account view forms at =
      unless _ (λ enabled. record { may = at }) ▸ code_shown view.code ⊕ alerts view.error
    where
      code_shown : (code : Option String) → AreInOrder u call (code_nodes account code)
      code_shown none = nothing
      code_shown (some code) = elim (Bool-cases (code == "")) [
        | inl blank ↦ rw blank nothing
        | inr shown ↦ rw shown (tt ▸ nothing)
      ]

  pub linked_devices-AreInOrder :
      (account : LocalAccount) (view : Devices) (forms : Forms)
      → is_identity_ready u.status ≡ true
      → AreInOrder u call (linked_devices account view forms)
  unfolding linked_devices
  linked_devices-AreInOrder account view forms at =
      tt
      ▸ each {row = device_row account forms} view.devices
          (λ d. tt ▸ unless _ (λ enabled. record { may = at }) ▸ nothing)
      ⊕ link_form-AreInOrder account view forms at

  groups_form-AreInOrder :
      (forms : Forms)
      → is_identity_ready u.status ≡ true
      → AreInOrder u call (groups_form u.creating u.error forms)
  unfolding groups_form
  groups_form-AreInOrder forms at =
      unless _ (λ enabled s. record { may = tt })
      ▸ unless _ (λ enabled s. record { may = tt })
      ▸ unless _ (λ enabled.
        let (rest, members) =
          or_false (u.creating || (trim forms.name == "")) (trim forms.members == "") enabled in
        let (free, name) = or_false u.creating (trim forms.name == "") rest in
        record {
          may = (at, free, trim-IsTrimmed forms.name name, member_ids-IsTrimmed forms.members);
        })
      ▸ alerts u.error

  pub groups_screen-AreInOrder :
      (groups : List Group) (forms : Forms)
      → is_identity_ready u.status ≡ true
      → AreInOrder u call (groups_screen groups u.creating u.error forms)
  unfolding groups_screen
  groups_screen-AreInOrder groups forms at =
      tt
      ▸ each {row = group_row forms} groups
          (λ g. tt ▸ unless _ (λ enabled. record { may = at }) ▸ nothing)
      ⊕ groups_form-AreInOrder forms at
