-- ===== src/Screens/InOrder.antt =====
-- The page lets the user do only what is in order.
use umbra_chat.Prelude.{◌≡◌, refl, true}
use umbra_chat.Call.Data.{CallState}
use umbra_chat.App.{Status, loading, anonymous, identity_ready, conversation, group, Ui}
use umbra_chat.Screens.{Forms}
use umbra_chat.Screens.Devices.{Devices}
use umbra_chat.Screens.Page.{props_of, render, render_status}
use umbra_chat.Screens.Offers.{AreInOrder, ◌⊕◌, nothing, is_identity_ready, is_conversation}
use umbra_chat.Screens.Ready.{
  create_account-AreInOrder, new_conversation-AreInOrder, safety_number-AreInOrder,
  linked_devices-AreInOrder, groups_screen-AreInOrder,
}
use umbra_chat.Screens.Talking.{
  group_conversation-AreInOrder, conversation-AreInOrder, call_screen-AreInOrder,
}

render_status-AreInOrder :
    (status : Status) (u : Ui) (call : CallState) (devices : Devices) (forms : Forms)
    → u.status ≡ status
    → AreInOrder u call (render_status status u call devices forms)
unfolding render_status
render_status-AreInOrder loading u call devices forms at = nothing
render_status-AreInOrder anonymous u call devices forms at =
    create_account-AreInOrder u call forms (rw at refl)
render_status-AreInOrder (identity_ready account number groups) u call devices forms at =
    let ready : is_identity_ready u.status ≡ true = rw at refl in
    safety_number-AreInOrder u call account.account_id number
    ⊕ linked_devices-AreInOrder u call account devices forms ready
    ⊕ groups_screen-AreInOrder u call groups forms ready
    ⊕ new_conversation-AreInOrder u call forms ready
render_status-AreInOrder (group account g store messages) u call devices forms at =
    group_conversation-AreInOrder u call account g store messages forms at
render_status-AreInOrder (conversation account contact_id store messages) u call devices forms at =
    let talking : is_conversation u.status ≡ true = rw at refl in
    call_screen-AreInOrder u call forms talking
    ⊕ conversation-AreInOrder u call (props_of u call messages) forms talking refl refl

-- Every control of the page is disabled, or what it does is in order: the page's handler is one that
-- acts in the page's state and does not return at once; nothing is being created, started or sent
-- where it creates, starts or sends; a text, a group's name, a member's id and the id of a contact to
-- talk to are not empty and have no white space around them, and the account and the code of a link
-- are not blank; a file is not too large; nobody removes himself from a group; a call is started only
-- where none is on, answered only where one rings, hung up and muted only where there is a local stream.
pub render-AreInOrder :
    (u : Ui) (call : CallState) (devices : Devices) (forms : Forms)
    → AreInOrder u call (render u call devices forms)
unfolding render
render-AreInOrder u call devices forms = render_status-AreInOrder u.status u call devices forms refl
