-- ===== src/App/Polling.antt =====
-- The intervals that the page has set, and how entering a screen and polling change them.
use mathlib.Core.Path.{subst}
use umbra_chat.Prelude.{
  ◌≡◌, refl, ap, sym, ℕ, String, Bool, true, false, inl, inr, Option, List, Bool-cases,
}
use umbra_chat.Identity.{LocalAccount}
use umbra_chat.Message.{Group}
use umbra_chat.Platform.{Platform}
use umbra_chat.Exec.{pure, modify, ◌>>=◌}
use umbra_chat.Exec.Keeps.{Keeps, Keeps-pure, Keeps-bind, Keeps-then}
use umbra_chat.Exec.Establishes.{Establishes, Establishes-bind, Keeps-established}
use umbra_chat.App.{
  poll_interval_ms, Task, identity_poll, conversation_poll, group_poll, Interval, Ui,
  clear_interval, stop_polling, set_interval, AppState, update,
}
use umbra_chat.App.Pages.{
  reschedule, must_schedule, run_poll, begin_identity_ready, begin_conversation, begin_known_group,
  after_first_poll, start_polling, enter_identity_ready, enter_conversation, enter_group, mount,
}
use umbra_chat.App.Frame.{HasUi, page_rules, update-Keeps}

-- The part of React's state that polling is about.
pub record Polls : Type 0 where
  pub intervals : List Interval
  pub poll_timer : Option ℕ
  pub next_interval : ℕ

abbrev pub is_conversation : Task → Bool
is_conversation (conversation_poll account contact_id store) = true
is_conversation _ = false

abbrev pub polls_of : Ui → Polls
polls_of u = record {
  intervals = u.intervals;
  poll_timer = u.poll_timer;
  next_interval = u.next_interval;
}

pub record Of (R : Polls → Type 0) (u : Ui) : Type 0 where
  pub at : R (polls_of u)

-- `R` holds between operations; `S` once the interval in use has been cleared and forgotten.
pub record IsSchedule (R S : Polls → Type 0) : Type 0 where
  pub stop : (u : Ui) → R (polls_of u) → S (polls_of (stop_polling u))
  pub start :
      (task : Task) (period : ℕ) (u : Ui)
      → S (polls_of u)
      → R (polls_of (set_interval task period u))
  pub restart :
      (task : Task) (period : ℕ) (u : Ui)
      → R (polls_of u)
      → R (polls_of (set_interval task period (clear_interval u)))
  pub weaken : (p : Polls) → S p → R p

module _ {R S : Polls → Type 0} (schedule : IsSchedule R S) where
  reschedule-holds :
      (task : Task) (desired : ℕ) (u : Ui) → Of R u → Of R (reschedule task desired u)
  reschedule-holds task desired u h = elim (Bool-cases (must_schedule desired u)) [
    | inl must ↦
        rw must (record {
          at = schedule.restart task desired (record u { poll_interval = desired }) h.at;
        })
    | inr need_not ↦ rw need_not h
  ]

module _ {P : Platform} where
  pub quiet-Keeps :
      {R : Polls → Type 0} (f : Ui → Ui)
      → ((u : Ui) → polls_of (f u) ≡ polls_of u)
      → Keeps (HasUi (Of R)) (update {P = P} f)
  quiet-Keeps {R} f same = update-Keeps f (λ u h. record { at = subst R (sym (same u)) h.at })

  -- A poll of a screen that sets no interval itself keeps anything about the intervals.
  pub run_poll-Keeps_quiet :
      {R : Polls → Type 0} (task : Task)
      → is_conversation task ≡ false
      → Keeps (HasUi (Of R)) (run_poll {P = P} task)
  unfolding run_poll
  run_poll-Keeps_quiet (identity_poll account store) h = search (page_rules, quiet-Keeps) depth 10
  run_poll-Keeps_quiet (conversation_poll account contact_id store) h = cc
  run_poll-Keeps_quiet (group_poll account group_id store) h =
      search (page_rules, quiet-Keeps) depth 12

module _ {P : Platform} {R S : Polls → Type 0} (schedule : IsSchedule R S) where
  reschedule-Keeps :
      (task : Task) (desired : ℕ) → Keeps (HasUi (Of R)) (update {P = P} (reschedule task desired))
  reschedule-Keeps task desired = update-Keeps _ (reschedule-holds schedule task desired)

  pub run_poll-Keeps : (task : Task) → Keeps (HasUi (Of R)) (run_poll {P = P} task)
  unfolding run_poll
  run_poll-Keeps (conversation_poll account contact_id store) =
      search (page_rules, quiet-Keeps, reschedule-Keeps) depth 14
  run_poll-Keeps (identity_poll account store) =
      run_poll-Keeps_quiet (identity_poll account store) refl
  run_poll-Keeps (group_poll account group_id store) =
      run_poll-Keeps_quiet (group_poll account group_id store) refl

  -- Clearing the interval in use, and handing on the task of a screen.
  stop-Establishes :
      (f : Ui → Ui) (task : Task)
      → ((u : Ui) → polls_of (f u) ≡ polls_of (stop_polling u))
      → Establishes (HasUi (Of R)) (HasUi (Of S)) (update {P = P} f >>= λ _. pure task)
  unfolding update modify pure ◌>>=◌
  stop-Establishes f task same = record {
    keeps = record {
      at = λ s h. record { holds = record { at = schedule.weaken _ (stopped s.ui h.holds.at) } };
    };
    then_holds = λ s t a e h. record {
      holds = record { at = subst S (ap (λ p. polls_of p.1.ui) e) (stopped s.ui h.holds.at) };
    };
  }
    where
      stopped : (u : Ui) → R (polls_of u) → S (polls_of (f u))
      stopped u h = subst S (sym (same u)) (schedule.stop u h)

  ruleset begin_rules = (page_rules, quiet-Keeps, Establishes-bind, stop-Establishes)

  pub begin_identity_ready-Establishes :
      (account : LocalAccount)
      → Establishes (HasUi (Of R)) (HasUi (Of S)) (begin_identity_ready {P = P} account)
  unfolding begin_identity_ready
  begin_identity_ready-Establishes account = search begin_rules depth 14

  pub begin_conversation-Establishes :
      (account : LocalAccount) (contact_id : String)
      → Establishes (HasUi (Of R)) (HasUi (Of S)) (begin_conversation {P = P} account contact_id)
  unfolding begin_conversation
  begin_conversation-Establishes account contact_id = search begin_rules depth 14

  begin_known_group-Establishes :
      (account : LocalAccount) (group_id : String) (g : Group)
      → Establishes (HasUi (Of R)) (HasUi (Of S)) (begin_known_group {P = P} account group_id g)
  unfolding begin_known_group
  begin_known_group-Establishes account group_id g = search begin_rules depth 14

  weaker : (s : AppState P) → HasUi (Of S) s → HasUi (Of R) s
  weaker s h = record { holds = record { at = schedule.weaken (polls_of s.ui) h.holds.at } }

  started :
      (task : Task) (s : AppState P)
      → HasUi (Of S) s
      → HasUi (Of R) (update {P = P} (set_interval task poll_interval_ms) s).1
  unfolding update modify
  started task s h = record {
    holds = record { at = schedule.start task poll_interval_ms s.ui h.holds.at };
  }

  -- The first poll of a screen, and the interval after it.
  start_polling-holds :
      (task : Task) (s : AppState P) → HasUi (Of S) s → HasUi (Of R) (start_polling task s).1
  unfolding start_polling after_first_poll
  start_polling-holds (conversation_poll account contact_id store) s h =
      (Keeps-bind (run_poll (conversation_poll account contact_id store)) (λ _. pure tt)
          (run_poll-Keeps (conversation_poll account contact_id store)) (λ _. Keeps-pure tt)).at
        s (weaker s h)
  start_polling-holds (identity_poll account store) s h =
      Keeps-then (HasUi (Of S)) (HasUi (Of R)) _ _ weaker
        (run_poll-Keeps_quiet (identity_poll account store) refl)
        (λ _ t k. started (identity_poll account store) t k) s h
  start_polling-holds (group_poll account group_id store) s h =
      Keeps-then (HasUi (Of S)) (HasUi (Of R)) _ _ weaker
        (run_poll-Keeps_quiet (group_poll account group_id store) refl)
        (λ _ t k. started (group_poll account group_id store) t k) s h

  pub enter_identity_ready-Keeps :
      (account : LocalAccount) → Keeps (HasUi (Of R)) (enter_identity_ready {P = P} account)
  unfolding enter_identity_ready
  enter_identity_ready-Keeps account =
      Keeps-established _ _ (begin_identity_ready-Establishes account) start_polling-holds

  pub enter_conversation-Keeps :
      (account : LocalAccount) (contact_id : String)
      → Keeps (HasUi (Of R)) (enter_conversation {P = P} account contact_id)
  unfolding enter_conversation
  enter_conversation-Keeps account contact_id =
      Keeps-established _ _ (begin_conversation-Establishes account contact_id) start_polling-holds

  enter_known_group-Keeps :
      (account : LocalAccount) (group_id : String) (g : Group)
      → Keeps (HasUi (Of R)) (begin_known_group {P = P} account group_id g >>= start_polling)
  enter_known_group-Keeps account group_id g =
      Keeps-established _ _ (begin_known_group-Establishes account group_id g) start_polling-holds

  pub enter_group-Keeps :
      (account : LocalAccount) (group_id : String)
      → Keeps (HasUi (Of R)) (enter_group {P = P} account group_id)
  unfolding enter_group
  enter_group-Keeps account group_id = search (page_rules, enter_known_group-Keeps)

  pub mount-Keeps : Keeps (HasUi (Of R)) (mount {P = P})
  unfolding mount
  mount-Keeps =
      search (page_rules, quiet-Keeps, enter_identity_ready-Keeps, enter_conversation-Keeps) depth
        12
