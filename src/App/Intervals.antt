-- ===== src/App/Intervals.antt =====
-- The intervals over a run of events.
use umbra_chat.Prelude.{
  ◌≡◌, refl, ap, arith, ℕ, String, ◌⊎◌, inl, inr, Option, none, some, List, [], ◌∷◌, ◌++◌,
  Option-cases,
}
use umbra_chat.Platform.{Platform}
use umbra_chat.Conversation.{File, FileDestruct}
use umbra_chat.Exec.Keeps.{Keeps, keeps_rules}
use umbra_chat.App.{
  Status, identity_ready, conversation, group, Task, Interval, Ui, clear_interval, set_interval,
  AppState, App,
}
use umbra_chat.App.Handlers.{
  caught, guarded, handle_create, handle_link_device, handle_start_conversation, handle_send,
  handle_send_file, handle_open_file, handle_set_timer, handle_create_group, handle_open_group,
  handle_send_group_text, handle_remove_member, start_from, send_from, send_file_from,
  open_file_from, set_timer_from, create_group_from, open_group_from, send_group_text_from,
  remove_member_from,
}
use umbra_chat.App.Events.{
  PageEvent, mounts, creates, links, starts, sends, opens_file, opens_group, sends_to_group,
  removes, sends_file, sets_timer, creates_group, elapses, fire, perform, perform_all,
}
use umbra_chat.App.Frame.{HasUi, page_rules, caught-Keeps}
use umbra_chat.App.Polling.{
  Polls, polls_of, Of, IsSchedule, quiet-Keeps, run_poll-Keeps, enter_identity_ready-Keeps,
  enter_conversation-Keeps, enter_group-Keeps, mount-Keeps,
}

module _ {P : Platform} {R S : Polls → Type 0} (schedule : IsSchedule R S) where
  caught-Keeps_polls :
      (fallback : String) (m : App P Unit)
      → Keeps (HasUi (Of R)) m
      → Keeps (HasUi (Of R)) (caught fallback m)
  caught-Keeps_polls fallback m k = caught-Keeps fallback m (λ e u h. record { at = h.at }) k

  ruleset event_rules = (
    page_rules, quiet-Keeps, caught-Keeps_polls, enter_identity_ready-Keeps,
    enter_conversation-Keeps, enter_group-Keeps, mount-Keeps, run_poll-Keeps,
  )

  start_from-Keeps :
      (status : Status) (contact_id : String)
      → Keeps (HasUi (Of R)) (start_from {P = P} status contact_id)
  unfolding start_from guarded
  start_from-Keeps (identity_ready a n gs) contact_id = search event_rules depth 10
  start_from-Keeps _ contact_id = search keeps_rules

  send_from-Keeps :
      (status : Status) (text : String) → Keeps (HasUi (Of R)) (send_from {P = P} status text)
  unfolding send_from guarded
  send_from-Keeps (conversation a c n ms) text = search event_rules depth 10
  send_from-Keeps _ text = search keeps_rules

  send_file_from-Keeps :
      (status : Status) (f : File) (d : Option FileDestruct)
      → Keeps (HasUi (Of R)) (send_file_from {P = P} status f d)
  unfolding send_file_from
  send_file_from-Keeps (conversation a c n ms) f d = search event_rules depth 10
  send_file_from-Keeps _ f d = search keeps_rules

  open_file_from-Keeps :
      (status : Status) (id : String) → Keeps (HasUi (Of R)) (open_file_from {P = P} status id)
  unfolding open_file_from
  open_file_from-Keeps (conversation a c n ms) id = search event_rules depth 10
  open_file_from-Keeps _ id = search keeps_rules

  set_timer_from-Keeps :
      (status : Status) (seconds : ℕ) → Keeps (HasUi (Of R)) (set_timer_from {P = P} status seconds)
  unfolding set_timer_from
  set_timer_from-Keeps (conversation a c n ms) seconds = search event_rules depth 10
  set_timer_from-Keeps _ seconds = search keeps_rules

  create_group_from-Keeps :
      (status : Status) (name : String) (ids : List String)
      → Keeps (HasUi (Of R)) (create_group_from {P = P} status name ids)
  unfolding create_group_from guarded
  create_group_from-Keeps (identity_ready a n gs) name ids = search event_rules depth 14
  create_group_from-Keeps _ name ids = search keeps_rules

  open_group_from-Keeps :
      (status : Status) (id : String) → Keeps (HasUi (Of R)) (open_group_from {P = P} status id)
  unfolding open_group_from
  open_group_from-Keeps (identity_ready a n gs) id = search event_rules
  open_group_from-Keeps _ id = search keeps_rules

  send_group_text_from-Keeps :
      (status : Status) (text : String)
      → Keeps (HasUi (Of R)) (send_group_text_from {P = P} status text)
  unfolding send_group_text_from guarded
  send_group_text_from-Keeps (group a g n ms) text = search event_rules depth 10
  send_group_text_from-Keeps _ text = search keeps_rules

  remove_member_from-Keeps :
      (status : Status) (id : String) → Keeps (HasUi (Of R)) (remove_member_from {P = P} status id)
  unfolding remove_member_from
  remove_member_from-Keeps (group a g n ms) id = search event_rules depth 10
  remove_member_from-Keeps _ id = search keeps_rules

  fire-Keeps : (n : ℕ) → Keeps (HasUi (Of R)) (fire {P = P} n)
  unfolding fire
  fire-Keeps n = search event_rules

  ruleset handler_rules = (
    event_rules, start_from-Keeps, send_from-Keeps, send_file_from-Keeps, open_file_from-Keeps,
    set_timer_from-Keeps, create_group_from-Keeps, open_group_from-Keeps,
    send_group_text_from-Keeps, remove_member_from-Keeps, fire-Keeps,
  )

  perform-Keeps : (e : PageEvent) → Keeps (HasUi (Of R)) (perform {P = P} e)
  unfolding perform guarded handle_create handle_link_device handle_start_conversation handle_send
      handle_send_file handle_open_file handle_set_timer handle_create_group handle_open_group
      handle_send_group_text handle_remove_member
  perform-Keeps mounts = search handler_rules
  perform-Keeps creates = search handler_rules depth 14
  perform-Keeps (links a c) = search handler_rules depth 14
  perform-Keeps (starts c) = search handler_rules
  perform-Keeps (sends t) = search handler_rules
  perform-Keeps (opens_file m) = search handler_rules
  perform-Keeps (opens_group g) = search handler_rules
  perform-Keeps (sends_to_group t) = search handler_rules
  perform-Keeps (removes m) = search handler_rules
  perform-Keeps (sends_file f d) = search handler_rules
  perform-Keeps (sets_timer n) = search handler_rules
  perform-Keeps (creates_group n ms) = search handler_rules
  perform-Keeps (elapses n) = search handler_rules

  pub perform_all-holds :
      (es : List PageEvent) (s : AppState P)
      → R (polls_of s.ui)
      → R (polls_of (perform_all es s).ui)
  unfolding perform_all
  perform_all-holds [] s h = h
  perform_all-holds (e ∷ es) s h =
      perform_all-holds es (perform e s).1
        ((perform-Keeps e).at s (record { holds = record { at = h } })).holds.at

-- No interval runs, or one, and then `pollTimer` names it.
abbrev pub IsPolled : Polls → Type 0
IsPolled p =
    (p.intervals ≡ []) ⊎ ((i : Interval) × (p.intervals ≡ i ∷ []) × (p.poll_timer ≡ some i.number))

-- No interval runs, and `pollTimer` is undefined.
abbrev pub IsUnset : Polls → Type 0
IsUnset p = (p.intervals ≡ []) × (p.poll_timer ≡ none)

clear_interval-nil : (u : Ui) → IsPolled (polls_of u) → (clear_interval u).intervals ≡ []
clear_interval-nil u (inl none_runs) = elim (Option-cases u.poll_timer) [
  | inl unset ↦ rw unset none_runs
  | inr (n, is_set) ↦ rw (is_set, none_runs) refl
]
clear_interval-nil u (inr (i, one_runs, named)) = rw (named, one_runs) (ground arith)

clear_interval-next : (u : Ui) → (clear_interval u).next_interval ≡ u.next_interval
clear_interval-next u = elim (Option-cases u.poll_timer) [
  | inl unset ↦ rw unset refl
  | inr (n, is_set) ↦ rw is_set refl
]

abbrev pub interval : Task → ℕ → Ui → Interval
interval task period u = record { number = u.next_interval; task = task; period = period }

first :
    (task : Task) (period : ℕ) (u : Ui)
    → u.intervals ≡ []
    → IsPolled (polls_of (set_interval task period u))
first task period u h =
    inr (interval task period u, ap (λ is. is ++ interval task period u ∷ []) h, refl)

pub IsPolled-IsSchedule : IsSchedule IsPolled IsUnset
IsPolled-IsSchedule = record {
  stop = λ u h. (clear_interval-nil u h, refl);
  start = λ task period u h. first task period u h.0;
  restart = λ task period u h. first task period (clear_interval u) (clear_interval-nil u h);
  weaken = λ p h. inl h.0;
}

-- If no interval runs, or one, and then `pollTimer` names it, then this is so after any sequence of
-- events each of which runs to its end before the next, whether they succeed or throw.
pub perform_all-IsPolled :
    {P : Platform} (es : List PageEvent) (s : AppState P)
    → IsPolled (polls_of s.ui)
    → IsPolled (polls_of (perform_all es s).ui)
perform_all-IsPolled es s h = perform_all-holds IsPolled-IsSchedule es s h
