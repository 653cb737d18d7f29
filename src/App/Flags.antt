-- ===== src/App/Flags.antt =====
-- web/src/App.tsx: the flags that the screens show while something is under way, and blocks that throw
-- nothing and lower them at their end.
use mathlib.Core.Path.{subst}
use umbra_chat.Prelude.{
  ◌≡◌, refl, ap, sym, ◌∙◌, ℕ, String, Bool, false, inl, inr, Option, none, some, Bool-cases,
  Option-cases,
}
use umbra_chat.Identity.{LocalAccount}
use umbra_chat.Platform.{Platform}
use umbra_chat.Conversation.{FileSendStage}
use umbra_chat.Exec.{Error, Result, ok, err, modify, ◌>>◌}
use umbra_chat.Exec.Bind.{bind_of_ok}
use umbra_chat.Exec.Keeps.{Keeps}
use umbra_chat.Exec.Returns.{Returns, returns_rules}
use umbra_chat.App.{
  Status, Task, identity_poll, conversation_poll, group_poll, Ui, clear_interval, AppState, App,
  update, recover, try_catch,
}
use umbra_chat.App.Pages.{
  must_schedule, reschedule, run_poll, begin_identity_ready, begin_conversation, after_first_poll,
  start_polling, enter_identity_ready, enter_conversation,
}
use umbra_chat.App.Handlers.{message_of, set_error, caught, on_status}
use umbra_chat.App.Frame.{HasUi, page_rules, update-Keeps, caught-Keeps}

-- What the screens show while something is under way.
pub record Flags : Type 0 where
  pub creating : Bool
  pub starting : Bool
  pub sending : Bool
  pub file_stage : Option FileSendStage

abbrev pub flags_of : Ui → Flags
flags_of u = record {
  creating = u.creating;
  starting = u.starting;
  sending = u.sending;
  file_stage = u.file_stage;
}

abbrev pub idle : Flags
idle = record { creating = false; starting = false; sending = false; file_stage = none }

pub record HasFlags (k : Flags) (u : Ui) : Type 0 where
  pub same : flags_of u ≡ k

clear_interval-flags : (u : Ui) → flags_of (clear_interval u) ≡ flags_of u
clear_interval-flags u = elim (Option-cases u.poll_timer) [
  | inl unset ↦ rw unset refl
  | inr (n, is_set) ↦ rw is_set refl
]

reschedule-flags :
    (task : Task) (desired : ℕ) (u : Ui) → flags_of (reschedule task desired u) ≡ flags_of u
reschedule-flags task desired u = elim (Bool-cases (must_schedule desired u)) [
  | inl must ↦ rw must (clear_interval-flags (record u { poll_interval = desired }))
  | inr need_not ↦ rw need_not refl
]

module _ {P : Platform} where
  -- What sets none of the flags keeps them all.
  pub still-Keeps :
      {k : Flags} (f : Ui → Ui)
      → ((u : Ui) → flags_of (f u) ≡ flags_of u)
      → Keeps (HasUi (HasFlags k)) (update {P = P} f)
  still-Keeps f same = update-Keeps f (λ u h. record { same = same u ∙ h.same })

  module _ {k : Flags} where
    run_poll-Keeps_flags : (task : Task) → Keeps (HasUi (HasFlags k)) (run_poll {P = P} task)
    unfolding run_poll
    run_poll-Keeps_flags (identity_poll account store) = search (page_rules, still-Keeps) depth 10
    run_poll-Keeps_flags (conversation_poll account contact_id store) =
        search (page_rules, still-Keeps, reschedule-flags) depth 14
    run_poll-Keeps_flags (group_poll account group_id store) =
        search (page_rules, still-Keeps) depth 12

    after_first_poll-Keeps_flags :
        (task : Task) → Keeps (HasUi (HasFlags k)) (after_first_poll {P = P} task)
    unfolding after_first_poll
    after_first_poll-Keeps_flags (identity_poll account store) = search (page_rules, still-Keeps)
    after_first_poll-Keeps_flags (conversation_poll account contact_id store) = search page_rules
    after_first_poll-Keeps_flags (group_poll account group_id store) =
        search (page_rules, still-Keeps)

    ruleset flag_rules = (
      page_rules, still-Keeps, clear_interval-flags, run_poll-Keeps_flags,
      after_first_poll-Keeps_flags,
    )

    pub enter_identity_ready-Keeps_flags :
        (account : LocalAccount) → Keeps (HasUi (HasFlags k)) (enter_identity_ready {P = P} account)
    unfolding enter_identity_ready begin_identity_ready start_polling
    enter_identity_ready-Keeps_flags account = search flag_rules depth 14

    pub enter_conversation-Keeps_flags :
        (account : LocalAccount) (contact_id : String)
        → Keeps (HasUi (HasFlags k)) (enter_conversation {P = P} account contact_id)
    unfolding enter_conversation begin_conversation start_polling
    enter_conversation-Keeps_flags account contact_id = search flag_rules depth 14

module _ {P : Platform} where
  Ui-step :
      (Q R : Ui → Type 0) (f : Ui → Ui) (s : AppState P)
      → ((u : Ui) → Q u → R (f u))
      → HasUi Q s
      → HasUi R (update f s).1
  unfolding update modify
  Ui-step Q R f s step h = record { holds = step s.ui h.holds }

  pub caught-Keeps_flags :
      {k : Flags} (fallback : String) (m : App P Unit)
      → Keeps (HasUi (HasFlags k)) m
      → Keeps (HasUi (HasFlags k)) (caught fallback m)
  caught-Keeps_flags fallback m km = caught-Keeps fallback m (λ e u h. record { same = h.same }) km

  pub update-Returns : (f : Ui → Ui) → Returns (update {P = P} f)
  unfolding update modify
  update-Returns f = record { at = λ s. (tt, refl) }

  recover-ok :
      (r : Result Unit) (t : AppState P) (handler : Error → App P Unit)
      → ((e : Error) → Returns (handler e))
      → (a : Unit) × ((recover r handler t).0 ≡ ok a)
  recover-ok (ok a) t handler k = (tt, refl)
  recover-ok (err e) t handler k = (k e).at t

  pub caught-Returns : (fallback : String) (m : App P Unit) → Returns (caught fallback m)
  unfolding caught try_catch
  caught-Returns fallback m = record {
    at = λ s.
        recover-ok (m s).0 (m s).1 _
          (λ e. update-Returns (set_error (some (message_of P fallback e))));
  }

  pub on_status-Returns :
      (f : Status → App P Unit) → ((status : Status) → Returns (f status)) → Returns (on_status f)
  unfolding on_status
  on_status-Returns f k = search (returns_rules, k)

  -- `setBusy(true)`, the block, and what ends it.
  unfoldable pub bracket : (Ui → Ui) → String → App P Unit → (Ui → Ui) → App P Unit
  bracket start fallback m stop = do update start; caught fallback m; update stop

  bracket-lem :
      (start : Ui → Ui) (fallback : String) (m : App P Unit) (stop : Ui → Ui) (s : AppState P)
      → bracket start fallback m stop s ≡ update stop (caught fallback m (update start s).1).1
  unfolding bracket update modify
  bracket-lem start fallback m stop s =
      let rest = λ (_ : Unit). (do caught fallback m; update stop) in
      let (a, first) = (caught-Returns fallback m).at (update start s).1 in
      bind_of_ok (update start) rest s refl
      ∙ bind_of_ok (caught fallback m) (λ _. update stop) (update start s).1
          (λ i. (first i, (caught fallback m (update start s).1).1))

  -- What is idle is so again, and nothing is thrown.
  pub record Settles (m : App P Unit) : Type 0 where
    pub returns : Returns m
    pub rests : Keeps (HasUi (HasFlags idle)) m

  pub bracket-Settles :
      (Q : Ui → Type 0) (start : Ui → Ui) (fallback : String) (m : App P Unit) (stop : Ui → Ui)
      → ((u : Ui) → HasFlags idle u → Q (start u))
      → ((e : Option String) (u : Ui) → Q u → Q (set_error e u))
      → ((u : Ui) → Q u → HasFlags idle (stop u))
      → Keeps (HasUi Q) m
      → Settles (bracket start fallback m stop)
  bracket-Settles Q start fallback m stop raise still lower keeps = record {
    returns = record {
      at = λ s.
          let (a, e) = (update-Returns stop).at _ in
          (a, ap (λ p. p.0) (bracket-lem start fallback m stop s) ∙ e);
    };
    rests = record {
      at = λ s h.
          let up = Ui-step (HasFlags idle) Q start s raise h in
          let down =
            Ui-step Q (HasFlags idle) stop _ lower
              ((caught-Keeps fallback m still keeps).at _ up) in
          subst (λ p. HasUi (HasFlags idle) p.1) (sym (bracket-lem start fallback m stop s)) down;
    };
  }

  -- A block that sets none of the flags.
  pub bracket_flags-Settles :
      (k : Flags) (start : Ui → Ui) (fallback : String) (m : App P Unit) (stop : Ui → Ui)
      → ((u : Ui) → flags_of u ≡ idle → flags_of (start u) ≡ k)
      → ((u : Ui) → flags_of u ≡ k → flags_of (stop u) ≡ idle)
      → Keeps (HasUi (HasFlags k)) m
      → Settles (bracket start fallback m stop)
  bracket_flags-Settles k start fallback m stop raise lower keeps =
      bracket-Settles (HasFlags k) start fallback m stop (λ u h. record { same = raise u h.same })
        (λ e u h. record { same = h.same }) (λ u h. record { same = lower u h.same }) keeps
