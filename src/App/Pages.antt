-- ===== src/App/Pages.antt =====
-- web/src/App.tsx: entering a screen, and the polling that each screen starts.
use umbra_chat.Prelude.{
  ℕ, String, ◌==◌, Bool, not, ◌||◌, Option, none, some, is_some, nat_eq, if◌then◌else◌,
}
use umbra_chat.Identity.{LocalAccount}
use umbra_chat.Message.{Group}
use umbra_chat.Platform.{Platform}
use umbra_chat.Exec.{pure, gets, on_option, ◌>>=◌, ◌>>◌}
use umbra_chat.Storage.{load_account, load_messages, load_group, load_all_groups}
use umbra_chat.SafetyNumber.{compute_safety_number}
use umbra_chat.Conversation.{get_timer_seconds}
use umbra_chat.Conversation.Poll.{Handlers, poll}
use umbra_chat.Group.{handle_group_signal}
use umbra_chat.Call.Events.{handle_call_signal}
use umbra_chat.App.{
  poll_interval_ms, call_poll_interval_ms, is_ringing, anonymous, identity_ready, conversation,
  group, Task, identity_poll, conversation_poll, group_poll, Ui, clear_interval, stop_polling,
  set_interval, set_status, with_groups, with_messages, refreshed, App, io, update, with_store,
  open_new_store,
}

-- `activeContactId`, if it is not the empty text
abbrev pub active : Option String → Option String
active none = none
active (some contact_id) = if contact_id == "" then none else some contact_id

-- `desiredInterval !== pollIntervalRef.current || pollTimer.current === undefined`
abbrev pub must_schedule : ℕ → Ui → Bool
must_schedule desired u = not (nat_eq desired u.poll_interval) || not (is_some u.poll_timer)

abbrev pub reschedule : Task → ℕ → Ui → Ui
reschedule task desired u =
    if must_schedule desired u
    then set_interval task desired (clear_interval (record u { poll_interval = desired }))
    else u

module _ {P : Platform} where
  abbrev group_handlers : Handlers P
  group_handlers = record { on_call_signal = none; on_group_signal = some handle_group_signal }

  abbrev pub all_handlers : Handlers P
  all_handlers = record {
    on_call_signal = some handle_call_signal;
    on_group_signal = some handle_group_signal;
  }

  unfoldable pub run_poll : Task → App P Unit
  unfolding io update with_store
  run_poll (identity_poll account store) = do
    with_store store (poll none account group_handlers)
    groups ← io load_all_groups
    update (λ u. record u { status = with_groups groups u.status })
  run_poll (conversation_poll account contact_id store) = do
    messages ← with_store store (poll (some contact_id) account all_handlers)
    update (λ u. record u { status = with_messages messages u.status })
    seconds ← io (get_timer_seconds contact_id)
    update (λ u. record u { timer_seconds = seconds })
    ringing ← gets (λ s. is_ringing s.world.call.state)
    update (
        reschedule (conversation_poll account contact_id store)
          (if ringing then call_poll_interval_ms else poll_interval_ms))
  run_poll (group_poll account group_id store) = do
    with_store store (poll none account group_handlers)
    g ← io (load_group group_id)
    messages ← io (load_messages group_id)
    update (λ u. record u { status = refreshed g messages u.status })

  -- `enterIdentityReady`, `enterConversation` and `enterGroup` up to their own `runPoll`, which is the
  -- task that is returned.
  unfoldable pub begin_identity_ready : LocalAccount → App P Task
  unfolding io update open_new_store
  begin_identity_ready account = do
    safety_number ← io (compute_safety_number account.identity.identity_public_key)
    groups ← io load_all_groups
    update (set_status (identity_ready account safety_number groups))
    store ← open_new_store account.identity
    update (λ u. record (stop_polling u) { poll_interval = poll_interval_ms })
    pure (identity_poll account store)

  -- `startConversation` opens a store, and does no more
  unfoldable pub begin_conversation : LocalAccount → String → App P Task
  unfolding io update open_new_store
  begin_conversation account contact_id = do
    store ← open_new_store account.identity
    messages ← io (load_messages contact_id)
    update (set_status (conversation account contact_id store messages))
    seconds ← io (get_timer_seconds contact_id)
    update (λ u. record u { timer_seconds = seconds; active_contact_id = some contact_id })
    update stop_polling
    pure (conversation_poll account contact_id store)

  unfoldable pub begin_known_group : LocalAccount → String → Group → App P Task
  unfolding io update open_new_store
  begin_known_group account group_id g = do
    store ← open_new_store account.identity
    messages ← io (load_messages group_id)
    update (set_status (group account g store messages))
    update (λ u. record (stop_polling u) { poll_interval = poll_interval_ms })
    pure (group_poll account group_id store)

  -- What follows that `runPoll`: the conversation's own has set the interval.
  unfoldable pub after_first_poll : Task → App P Unit
  unfolding update
  after_first_poll (conversation_poll account contact_id store) = pure tt
  after_first_poll task = update (set_interval task poll_interval_ms)

  unfoldable pub start_polling : Task → App P Unit
  unfolding run_poll after_first_poll
  start_polling task = do run_poll task; after_first_poll task

  unfoldable pub enter_identity_ready : LocalAccount → App P Unit
  unfolding begin_identity_ready start_polling
  enter_identity_ready account = do task ← begin_identity_ready account; start_polling task

  unfoldable pub enter_conversation : LocalAccount → String → App P Unit
  unfolding begin_conversation start_polling
  enter_conversation account contact_id = do
    task ← begin_conversation account contact_id
    start_polling task

  unfoldable pub enter_group : LocalAccount → String → App P Unit
  unfolding io begin_known_group start_polling
  enter_group account group_id = do
    found ← io (load_group group_id)
    on_option found (pure tt)
        λ g. do task ← begin_known_group account group_id g; start_polling task

  -- The effect that runs when the page is loaded.
  unfoldable pub mount : App P Unit
  unfolding io update enter_identity_ready enter_conversation
  mount = do
    existing ← io load_account
    on_option existing (update (set_status anonymous)) λ account. do
      stored ← gets (λ s. s.ui.active_contact_id)
      on_option (active stored) (enter_identity_ready account) (enter_conversation account)
