-- ===== src/App/Handlers.antt =====
-- web/src/App.tsx: what the screens call. A handler reads the status once, when it is called.
use umbra_chat.Prelude.{ℕ, String, Bool, true, false, Option, none, some, List}
use umbra_chat.Identity.{LocalAccount}
use umbra_chat.Platform.{Platform}
use umbra_chat.Exec.{Error, thrown, wasm_error, pure, gets, ◌>>=◌, ◌>>◌}
use umbra_chat.Storage.{save_account, load_all_groups}
use umbra_chat.Registration.{generate_identity, register_account, complete_link}
use umbra_chat.Conversation.{
  File, FileSendStage, FileDestruct, send_text, send_file_in, mark_file_opened,
  set_disappearing_timer,
}
use umbra_chat.Group.{create_group, send_group_text, remove_member}
use umbra_chat.App.{
  Status, identity_ready, conversation, group, Ui, with_groups, with_messages, with_group_messages,
  with_group, App, io, update, with_store, open_new_store, try_catch,
}
use umbra_chat.App.Pages.{enter_identity_ready, enter_conversation, enter_group}

-- `err instanceof Error ? err.message : fallback`
abbrev pub message_of : Platform → String → Error → String
message_of P fallback (thrown message) = message
message_of P fallback (wasm_error text) = fallback
message_of P fallback e = P.exception_message e

abbrev pub set_error : Option String → Ui → Ui
set_error error u = record u { error = error }

abbrev pub set_creating : Bool → Ui → Ui
set_creating creating u = record u { creating = creating }

abbrev pub set_starting : Bool → Ui → Ui
set_starting starting u = record u { starting = starting }

abbrev pub set_sending : Bool → Ui → Ui
set_sending sending u = record u { sending = sending }

abbrev pub set_file_stage : Option FileSendStage → Ui → Ui
set_file_stage stage u = record u { file_stage = stage }

module _ {P : Platform} where
  unfoldable pub caught : String → App P Unit → App P Unit
  unfolding update try_catch
  caught fallback m = try_catch m (λ e. update (set_error (some (message_of P fallback e))))

  -- `setBusy(true); setError(undefined); try { … } catch { setError(…) } finally { setBusy(false) }`
  unfoldable pub guarded : (Bool → Ui → Ui) → String → App P Unit → App P Unit
  unfolding update caught
  guarded busy fallback m = do
    update (λ u. set_error none (busy true u))
    caught fallback m
    update (busy false)

  unfoldable pub handle_create : App P Unit
  unfolding guarded io enter_identity_ready
  handle_create = guarded set_creating "registration failed" (do
    identity ← io generate_identity
    registered ← io (register_account identity)
    let account : LocalAccount = record {
      account_id = registered.account_id;
      device_id = registered.device_id;
      identity = identity;
    }
    io (save_account account)
    enter_identity_ready account)

  unfoldable pub handle_link_device : String → String → App P Unit
  unfolding guarded io enter_identity_ready
  handle_link_device account_id code = guarded set_creating "failed to link device" (do
    identity ← io generate_identity
    device_id ← io (complete_link account_id code "Linked Device" identity)
    let account : LocalAccount = record {
      account_id = account_id;
      device_id = device_id;
      identity = identity;
    }
    io (save_account account)
    enter_identity_ready account)

  unfoldable pub start_from : Status → String → App P Unit
  unfolding guarded enter_conversation
  start_from (identity_ready account _ _) contact_id =
      guarded set_starting "failed to start conversation" (enter_conversation account contact_id)
  start_from _ contact_id = pure tt

  unfoldable pub send_from : Status → String → App P Unit
  unfolding guarded with_store update
  send_from (conversation account contact_id store _) text =
      guarded set_sending "failed to send message" (do
        messages ← with_store store (send_text contact_id text account)
        update (λ u. record u { status = with_messages messages u.status }))
  send_from _ text = pure tt

  unfoldable pub send_file_from : Status → File → Option FileDestruct → App P Unit
  unfolding guarded with_store update caught send_file_in
  send_file_from (conversation account contact_id store _) f destruct = do
    update (λ u. set_error none (set_sending true u))
    caught "failed to send file" (do
      messages ←
          send_file_in (λ A m. with_store store m) contact_id f account
            (λ stage. update (set_file_stage (some stage))) destruct
      update (λ u. record u { status = with_messages messages u.status }))
    update (λ u. set_file_stage none (set_sending false u))
  send_file_from _ f destruct = pure tt

  unfoldable pub open_file_from : Status → String → App P Unit
  unfolding with_store update
  open_file_from (conversation account contact_id store _) message_id = do
    messages ← with_store store (mark_file_opened contact_id message_id account)
    update (λ u. record u { status = with_messages messages u.status })
  open_file_from _ message_id = pure tt

  unfoldable pub set_timer_from : Status → ℕ → App P Unit
  unfolding with_store update
  set_timer_from (conversation account contact_id store _) seconds = do
    update (λ u. record u { timer_seconds = seconds })
    with_store store (set_disappearing_timer contact_id seconds account)
  set_timer_from _ seconds = pure tt

  unfoldable pub create_group_from : Status → String → List String → App P Unit
  unfolding guarded with_store update io open_new_store
  create_group_from (identity_ready account _ _) name member_account_ids =
      guarded set_creating "failed to create group" (do
        store ← open_new_store account.identity
        with_store store (create_group name member_account_ids account)
        groups ← io load_all_groups
        update (λ u. record u { status = with_groups groups u.status }))
  create_group_from _ name member_account_ids = pure tt

  unfoldable pub open_group_from : Status → String → App P Unit
  unfolding enter_group
  open_group_from (identity_ready account _ _) group_id = enter_group account group_id
  open_group_from _ group_id = pure tt

  unfoldable pub send_group_text_from : Status → String → App P Unit
  unfolding guarded with_store update
  send_group_text_from (group account g store _) text =
      guarded set_sending "failed to send group message" (do
        messages ← with_store store (send_group_text g.id text account)
        update (λ u. record u { status = with_group_messages messages u.status }))
  send_group_text_from _ text = pure tt

  unfoldable pub remove_member_from : Status → String → App P Unit
  unfolding caught with_store update
  remove_member_from (group account g store _) member_account_id = do
    update (set_error none)
    caught "failed to remove member" (do
      updated ← with_store store (remove_member g.id member_account_id account)
      update (λ u. record u { status = with_group updated u.status }))
  remove_member_from _ member_account_id = pure tt

  -- The handlers themselves: each with the status at hand.
  unfoldable pub on_status : (Status → App P Unit) → App P Unit
  on_status f = do status ← gets (λ s. s.ui.status); f status

  unfoldable pub handle_start_conversation : String → App P Unit
  unfolding on_status start_from
  handle_start_conversation contact_id = on_status (λ status. start_from status contact_id)

  unfoldable pub handle_send : String → App P Unit
  unfolding on_status send_from
  handle_send text = on_status (λ status. send_from status text)

  unfoldable pub handle_send_file : File → Option FileDestruct → App P Unit
  unfolding on_status send_file_from
  handle_send_file f destruct = on_status (λ status. send_file_from status f destruct)

  unfoldable pub handle_open_file : String → App P Unit
  unfolding on_status open_file_from
  handle_open_file message_id = on_status (λ status. open_file_from status message_id)

  unfoldable pub handle_set_timer : ℕ → App P Unit
  unfolding on_status set_timer_from
  handle_set_timer seconds = on_status (λ status. set_timer_from status seconds)

  unfoldable pub handle_create_group : String → List String → App P Unit
  unfolding on_status create_group_from
  handle_create_group name member_account_ids =
      on_status (λ status. create_group_from status name member_account_ids)

  unfoldable pub handle_open_group : String → App P Unit
  unfolding on_status open_group_from
  handle_open_group group_id = on_status (λ status. open_group_from status group_id)

  unfoldable pub handle_send_group_text : String → App P Unit
  unfolding on_status send_group_text_from
  handle_send_group_text text = on_status (λ status. send_group_text_from status text)

  unfoldable pub handle_remove_member : String → App P Unit
  unfolding on_status remove_member_from
  handle_remove_member member_account_id =
      on_status (λ status. remove_member_from status member_account_id)
