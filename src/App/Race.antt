-- ===== src/App/Race.antt =====
-- Two screens that are entered at once: the first poll of the one is still under way while the other
-- is entered.
use mathlib.Core.Path.{subst}
use umbra_chat.Prelude.{◌≡◌, refl, ap, arith, ℕ, ◌<◌, String, true, none, some, List, [], ◌∷◌, ◌++◌}
use umbra_chat.Identity.{LocalAccount}
use umbra_chat.Platform.{Platform}
use umbra_chat.Exec.{ok, pure, modify}
use umbra_chat.Exec.Bind.{bind-ok}
use umbra_chat.Exec.Establishes.{Gives, Gives-pure, Gives-bind, Leads, Leads-bind}
use umbra_chat.Exec.Keeps.{Keeps-step}
use umbra_chat.App.{
  poll_interval_ms, Task, identity_poll, conversation_poll, group_poll, Interval, Ui,
  clear_interval, set_interval, AppState, update,
}
use umbra_chat.App.Pages.{
  reschedule, must_schedule, run_poll, begin_identity_ready, begin_conversation, enter_conversation,
  start_polling, after_first_poll,
}
use umbra_chat.App.Events.{PageEvent, perform_all}
use umbra_chat.App.Frame.{HasUi, page_rules}
use umbra_chat.App.Polling.{
  Polls, polls_of, Of, is_conversation, quiet-Keeps, run_poll-Keeps_quiet,
  begin_identity_ready-Establishes, begin_conversation-Establishes,
}
use umbra_chat.App.Intervals.{IsPolled, IsUnset, IsPolled-IsSchedule, interval, perform_all-holds}
use umbra_chat.App.Leaked.{IsLeaked, IsLeaked-IsSchedule, some-injective}

-- One interval runs, a conversation's, and `pollTimer` names it.
record IsSingle (p : Polls) : Type 0 where
  i : Interval
  one_runs : p.intervals ≡ i ∷ []
  named : p.poll_timer ≡ some i.number
  older : i.number < p.next_interval
  polls_contact : is_conversation i.task ≡ true

set_interval-leaks :
    (task : Task) (period : ℕ) (u : Ui) (h : IsSingle (polls_of u))
    → IsLeaked h.i (polls_of (set_interval task period u))
set_interval-leaks task period u h = record {
  runs = rw h.one_runs (ground arith);
  unnamed = λ e. omega (arith, h.older, some-injective e);
  older = omega (arith, h.older);
}

clear_interval-unset : (u : Ui) → u.poll_timer ≡ none → clear_interval u ≡ u
clear_interval-unset u unset = rw unset refl

reschedule-IsSingle :
    (account : LocalAccount) (contact_id : String) (store desired : ℕ) (u : Ui)
    → IsUnset (polls_of u)
    → IsSingle (polls_of (reschedule (conversation_poll account contact_id store) desired u))
reschedule-IsSingle account contact_id store desired u h =
    let must : must_schedule desired u ≡ true = rw h.1 (ground arith) in
    let cleared = clear_interval-unset (record u { poll_interval = desired }) h.1 in
    rw (must, cleared)
      (record {
        i = interval (conversation_poll account contact_id store) desired u;
        one_runs =
            ap (λ is. is ++ interval (conversation_poll account contact_id store) desired u ∷ [])
              h.0;
        named = refl;
        older = omega arith;
        polls_contact = refl;
      })

module _ {P : Platform} where
  reschedule-Leads :
      (account : LocalAccount) (contact_id : String) (store desired : ℕ)
      → Leads
          (HasUi (Of IsUnset))
          (HasUi (Of IsSingle))
          (update {P = P} (reschedule (conversation_poll account contact_id store) desired))
  unfolding update modify
  reschedule-Leads account contact_id store desired = record {
    to = λ s t a e h. subst (HasUi (Of IsSingle)) (ap (λ p. p.1) e) (record {
      holds = record { at = reschedule-IsSingle account contact_id store desired s.ui h.holds.at };
    });
  }

  run_poll-Leads :
      (account : LocalAccount) (contact_id : String) (store : ℕ)
      → Leads
          (HasUi (Of IsUnset))
          (HasUi (Of IsSingle))
          (run_poll {P = P} (conversation_poll account contact_id store))
  unfolding run_poll
  run_poll-Leads account contact_id store =
      search (page_rules, quiet-Keeps, Leads-bind, reschedule-Leads) depth 14

  begin_conversation-Gives :
      (account : LocalAccount) (contact_id : String)
      → Gives (λ task. is_conversation task ≡ true) (begin_conversation {P = P} account contact_id)
  unfolding begin_conversation
  begin_conversation-Gives account contact_id = search (Gives-bind, Gives-pure) depth 14

  start_polling-Leads :
      (task : Task)
      → is_conversation task ≡ true
      → Leads (HasUi (Of IsUnset)) (HasUi (Of IsSingle)) (start_polling {P = P} task)
  unfolding start_polling after_first_poll pure
  start_polling-Leads (conversation_poll account contact_id store) is_poll = record {
    to = λ s t a h unset.
        let task = conversation_poll account contact_id store in
        let (done, u, polled, rest) = bind-ok (run_poll task) (λ _. pure tt) s h in
        subst (HasUi (Of IsSingle)) (ap (λ p. p.1) rest)
          ((run_poll-Leads account contact_id store).to s u done polled unset);
  }
  start_polling-Leads (identity_poll account store) is_poll = cc
  start_polling-Leads (group_poll account group_id store) is_poll = cc

  enter_conversation-Leads :
      (account : LocalAccount) (contact_id : String)
      → Leads
          (HasUi (Of IsPolled))
          (HasUi (Of IsSingle))
          (enter_conversation {P = P} account contact_id)
  unfolding enter_conversation
  enter_conversation-Leads account contact_id = record {
    to = λ s t a h polled.
        let (task, u, began, polls) =
          bind-ok (begin_conversation account contact_id) start_polling s h in
        let is_poll = (begin_conversation-Gives account contact_id).given s u task began in
        let unset =
          (begin_conversation-Establishes IsPolled-IsSchedule account contact_id).then_holds s u
            task began polled in
        (start_polling-Leads task is_poll).to u t a polls unset;
  }

  -- The identity screen's interval, set once the conversation's runs.
  start_polling-leaks :
      (account : LocalAccount) (n : ℕ) (s t : AppState P)
      → start_polling (identity_poll account n) s ≡ (ok tt, t)
      → HasUi (Of IsSingle) s
      → (i : Interval) × (is_conversation i.task ≡ true) × IsLeaked i (polls_of t.ui)
  unfolding start_polling after_first_poll update modify
  start_polling-leaks account n s t h single =
      let (done, u, polled_once, rest) =
        bind-ok (run_poll (identity_poll account n))
          (λ _. after_first_poll (identity_poll account n)) s h in
      let still =
        Keeps-step (run_poll-Keeps_quiet (identity_poll account n) refl) polled_once single in
      let k = still.holds.at in
      (
        k.i,
        k.polls_contact,
        subst (λ x. IsLeaked k.i (polls_of x.1.ui)) rest
            (set_interval-leaks (identity_poll account n) poll_interval_ms u.ui k),
      )

  -- On a page where no interval runs, or one that `pollTimer` names: if a conversation is entered, and
  -- its first poll ends, after the identity screen was entered and before its own first poll starts,
  -- and that poll ends too, then there is an interval that polls for a conversation and that nothing
  -- clears: it runs after any further events, and `pollTimer` does not name it.
  pub enter_conversation-leaks :
      (account : LocalAccount) (contact_id : String) (n : ℕ) (es : List PageEvent)
      (s s1 s2 s3 : AppState P)
      → IsPolled (polls_of s.ui)
      → begin_identity_ready account s ≡ (ok (identity_poll account n), s1)
      → enter_conversation account contact_id s1 ≡ (ok tt, s2)
      → start_polling (identity_poll account n) s2 ≡ (ok tt, s3)
      → (i : Interval) × (is_conversation i.task ≡ true)
        × IsLeaked i (polls_of (perform_all es s3).ui)
  enter_conversation-leaks account contact_id n es s s1 s2 s3 polled began entered started =
      let start : HasUi (Of IsPolled) s = record { holds = record { at = polled } } in
      let waiting =
        Keeps-step (begin_identity_ready-Establishes IsPolled-IsSchedule account).keeps began
          start in
      let single = (enter_conversation-Leads account contact_id).to s1 s2 tt entered waiting in
      let (i, polls_contact, leaked) = start_polling-leaks account n s2 s3 started single in
      (i, polls_contact, perform_all-holds (IsLeaked-IsSchedule i) es s3 leaked)
