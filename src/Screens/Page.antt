-- ===== src/Screens/Page.antt =====
-- web/src/App.tsx: what the page shows, and what it does for the screens' callbacks. Those for the audio
-- tracks and the linked devices are the screens' own.
use umbra_chat.Prelude.{Bool, true, false, List, [], ◌++◌}
use umbra_chat.Message.{ChatMessage}
use umbra_chat.Platform.{Platform}
use umbra_chat.Exec.{pure}
use umbra_chat.Call.{start_call, accept_call, decline_call, hang_up}
use umbra_chat.Call.Data.{CallState, idle, ended}
use umbra_chat.App.{
  Status, loading, anonymous, identity_ready, conversation, group, Ui, App, with_store,
}
use umbra_chat.App.Handlers.{on_status}
use umbra_chat.App.Events.{perform}
use umbra_chat.Screens.{Forms, Callback, page, calls, accepts, declines, hangs_up, Node}
use umbra_chat.Screens.Account.{create_account, new_conversation, safety_number}
use umbra_chat.Screens.Call.{call_screen}
use umbra_chat.Screens.Conversation.{ConversationProps, conversation_screen}
use umbra_chat.Screens.Devices.{Devices, linked_devices}
use umbra_chat.Screens.Groups.{groups_screen, group_conversation}

-- `callState.status !== "idle" && callState.status !== "ended"`
abbrev pub call_active : CallState → Bool
call_active idle = false
call_active (ended reason) = false
call_active _ = true

abbrev pub props_of : Ui → CallState → List ChatMessage → ConversationProps
props_of u call messages = record {
  messages = messages;
  sending = u.sending;
  file_stage = u.file_stage;
  call_active = call_active call;
  timer_seconds = u.timer_seconds;
  error = u.error;
}

unfoldable pub render_status : Status → Ui → CallState → Devices → Forms → List Node
unfolding create_account new_conversation safety_number call_screen conversation_screen
    linked_devices groups_screen group_conversation
render_status loading u call devices forms = []
render_status anonymous u call devices forms = create_account u.creating u.error forms
render_status (identity_ready account number groups) u call devices forms =
    safety_number account.account_id number
    ++ (linked_devices account devices forms
        ++ (groups_screen groups u.creating u.error forms
            ++ new_conversation u.starting u.error forms))
render_status (group account g store messages) u call devices forms =
    group_conversation g account.account_id messages u.sending u.error forms
render_status (conversation account contact_id store messages) u call devices forms =
    call_screen call forms ++ conversation_screen (props_of u call messages) forms

unfoldable pub render : Ui → CallState → Devices → Forms → List Node
unfolding render_status
render u call devices forms = render_status u.status u call devices forms

module _ {P : Platform} where
  in_conversation : Status → Callback → App P Unit
  in_conversation (conversation account contact_id store messages) (calls kind) =
      with_store store (start_call contact_id kind account)
  in_conversation (conversation account contact_id store messages) accepts =
      with_store store (accept_call contact_id account)
  in_conversation (conversation account contact_id store messages) declines =
      with_store store (decline_call contact_id account)
  in_conversation (conversation account contact_id store messages) hangs_up =
      with_store store (hang_up contact_id account)
  in_conversation status c = pure tt

  unfoldable pub answer : Callback → App P Unit
  unfolding in_conversation
  answer (page e) = perform e
  answer c = on_status (λ status. in_conversation status c)
