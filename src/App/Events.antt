-- ===== src/App/Events.antt =====
-- web/src/App.tsx: what happens to the page, one event after another: each handler and each poll
-- runs to its end before the next event. What an event throws does not stop the next.
use umbra_chat.Prelude.{ℕ, String, Option, List, [], ◌∷◌, find, nat_eq}
use umbra_chat.Platform.{Platform}
use umbra_chat.Exec.{pure, gets, on_option, ◌>>=◌}
use umbra_chat.Conversation.{File, FileDestruct}
use umbra_chat.App.{Interval, AppState, App}
use umbra_chat.App.Pages.{run_poll, mount}
use umbra_chat.App.Handlers.{
  handle_create, handle_link_device, handle_start_conversation, handle_send, handle_send_file,
  handle_open_file, handle_set_timer, handle_create_group, handle_open_group,
  handle_send_group_text, handle_remove_member,
}

pub data PageEvent : Type 0 where
  mounts creates : PageEvent
  links : String → String → PageEvent
  starts sends opens_file opens_group sends_to_group removes : String → PageEvent
  sends_file : File → Option FileDestruct → PageEvent
  sets_timer : ℕ → PageEvent
  creates_group : String → List String → PageEvent
  -- the interval of that number elapses
  elapses : ℕ → PageEvent

module _ {P : Platform} where
  unfoldable pub fire : ℕ → App P Unit
  fire n = do
    running ← gets (λ s. find (λ (i : Interval). nat_eq i.number n) s.ui.intervals)
    on_option running (pure tt) (λ i. run_poll i.task)

  unfoldable pub perform : PageEvent → App P Unit
  unfolding fire
  perform mounts = mount
  perform creates = handle_create
  perform (links account_id code) = handle_link_device account_id code
  perform (starts contact_id) = handle_start_conversation contact_id
  perform (sends text) = handle_send text
  perform (opens_file message_id) = handle_open_file message_id
  perform (opens_group group_id) = handle_open_group group_id
  perform (sends_to_group text) = handle_send_group_text text
  perform (removes member) = handle_remove_member member
  perform (sends_file f destruct) = handle_send_file f destruct
  perform (sets_timer seconds) = handle_set_timer seconds
  perform (creates_group name members) = handle_create_group name members
  perform (elapses n) = fire n

  unfoldable pub perform_all : List PageEvent → AppState P → AppState P
  unfolding perform
  perform_all [] s = s
  perform_all (e ∷ es) s = perform_all es (perform e s).1
