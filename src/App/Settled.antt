-- ===== src/App/Settled.antt =====
-- web/src/App.tsx: what the handlers with a `try` block leave behind.
use umbra_chat.Prelude.{◌≡◌, refl, ap, ℕ, String, Bool, true, false, Option, none, some, List}
use umbra_chat.Identity.{LocalAccount}
use umbra_chat.Platform.{Platform}
use umbra_chat.Conversation.{File, FileSendStage, FileDestruct, send_file_in}
use umbra_chat.Exec.{ok, pure, ◌>>=◌}
use umbra_chat.Exec.Keeps.{Keeps, Keeps-bind, keeps_rules}
use umbra_chat.Exec.Returns.{returns_rules}
use umbra_chat.App.{
  Status, identity_ready, conversation, group, with_messages, Ui, AppState, App, update, with_store,
}
use umbra_chat.App.Handlers.{
  set_error, set_creating, set_starting, set_sending, set_file_stage, guarded, on_status,
  handle_create, handle_link_device, handle_start_conversation, handle_send, handle_send_file,
  handle_create_group, handle_send_group_text, handle_remove_member, start_from, send_from,
  send_file_from, create_group_from, send_group_text_from, remove_member_from,
}
use umbra_chat.App.Events.{
  PageEvent, mounts, creates, links, starts, sends, opens_file, opens_group, sends_to_group,
  removes, sends_file, sets_timer, creates_group, elapses, perform,
}
use umbra_chat.App.Frame.{HasUi, page_rules, update-Keeps}
use umbra_chat.App.Flags.{
  flags_of, idle, HasFlags, still-Keeps, caught-Keeps_flags, update-Returns, caught-Returns,
  on_status-Returns, bracket, bracket-Settles, bracket_flags-Settles, Settles,
  enter_identity_ready-Keeps_flags, enter_conversation-Keeps_flags,
}

-- The handlers whose work stands in a `try` block.
abbrev pub tries : PageEvent → Bool
tries creates = true
tries (links account_id code) = true
tries (starts contact_id) = true
tries (sends text) = true
tries (sends_file f destruct) = true
tries (creates_group name members) = true
tries (sends_to_group text) = true
tries (removes member) = true
tries _ = false

-- While a file is sent, whatever its stage.
record IsSending (u : Ui) : Type 0 where
  still_idle : (u.creating ≡ false) × (u.starting ≡ false)

module _ {P : Platform} where
  Settles-pure : Settles {P = P} (pure tt)
  Settles-pure = record { returns = search returns_rules; rests = search keeps_rules }

  Settles-on_status :
      (f : Status → App P Unit) → ((status : Status) → Settles (f status)) → Settles (on_status f)
  Settles-on_status f k = record {
    returns = on_status-Returns f (λ status. (k status).returns);
    rests = search (page_rules, rests_at);
  }
    where
      rests_at : (status : Status) → Keeps (HasUi (HasFlags idle)) (f status)
      rests_at status = (k status).rests

  creating-Settles :
      (fallback : String) (m : App P Unit)
      → Keeps (HasUi (HasFlags (record idle { creating = true }))) m
      → Settles (guarded set_creating fallback m)
  unfolding guarded bracket
  creating-Settles fallback m =
      bracket_flags-Settles (record idle { creating = true }) _ fallback m _ (λ u h. cc h)
        (λ u h. cc h)

  starting-Settles :
      (fallback : String) (m : App P Unit)
      → Keeps (HasUi (HasFlags (record idle { starting = true }))) m
      → Settles (guarded set_starting fallback m)
  unfolding guarded bracket
  starting-Settles fallback m =
      bracket_flags-Settles (record idle { starting = true }) _ fallback m _ (λ u h. cc h)
        (λ u h. cc h)

  sending-Settles :
      (fallback : String) (m : App P Unit)
      → Keeps (HasUi (HasFlags (record idle { sending = true }))) m
      → Settles (guarded set_sending fallback m)
  unfolding guarded bracket
  sending-Settles fallback m =
      bracket_flags-Settles (record idle { sending = true }) _ fallback m _ (λ u h. cc h)
        (λ u h. cc h)

  ruleset settle_rules = (
    page_rules, still-Keeps, caught-Keeps_flags, enter_identity_ready-Keeps_flags,
    enter_conversation-Keeps_flags, Settles-pure, Settles-on_status, creating-Settles,
    starting-Settles, sending-Settles,
  )

  start_from-Settles :
      (status : Status) (contact_id : String) → Settles (start_from {P = P} status contact_id)
  unfolding start_from
  start_from-Settles (identity_ready a n gs) contact_id = search settle_rules
  start_from-Settles _ contact_id = search settle_rules

  send_from-Settles : (status : Status) (text : String) → Settles (send_from {P = P} status text)
  unfolding send_from
  send_from-Settles (conversation a c n ms) text = search settle_rules depth 10
  send_from-Settles _ text = search settle_rules

  send_file_in-Keeps :
      (n : ℕ) (contact_id : String) (f : File) (account : LocalAccount) (d : Option FileDestruct)
      → Keeps (HasUi {P = P} IsSending) (
          send_file_in
            (λ A m. with_store n m)
            contact_id
            f
            account
            (λ stage. update (set_file_stage (some stage)))
            d)
  unfolding send_file_in
  send_file_in-Keeps n contact_id f account d = search (page_rules, staged) depth 12
    where
      staged :
          (stage : FileSendStage)
          → Keeps (HasUi {P = P} IsSending) (update (set_file_stage (some stage)))
      staged stage = update-Keeps _ (λ u h. record { still_idle = h.still_idle })

  send_file_from-Settles :
      (status : Status) (f : File) (d : Option FileDestruct)
      → Settles (send_file_from {P = P} status f d)
  unfolding send_file_from bracket
  send_file_from-Settles (conversation a c n ms) f d =
      bracket-Settles IsSending (λ u. set_error none (set_sending true u)) "failed to send file" _
        (λ u. set_file_stage none (set_sending false u))
        (λ u h. record { still_idle = (ap (λ k. k.creating) h.same, ap (λ k. k.starting) h.same) })
        (λ e u h. record { still_idle = h.still_idle })
        (λ u h. record { same = rw (h.still_idle.0, h.still_idle.1) refl }) sent
    where
      sent : Keeps (HasUi {P = P} IsSending) (do
        messages ←
            send_file_in
              (λ A m. with_store n m)
              c
              f
              a
              (λ stage. update (set_file_stage (some stage)))
              d
        update (λ u. record u { status = with_messages messages u.status }))
      sent =
          Keeps-bind _ _ (send_file_in-Keeps n c f a d)
            (λ messages. update-Keeps _ (λ u h. record { still_idle = h.still_idle }))
  send_file_from-Settles _ f d = search settle_rules

  create_group_from-Settles :
      (status : Status) (name : String) (ids : List String)
      → Settles (create_group_from {P = P} status name ids)
  unfolding create_group_from
  create_group_from-Settles (identity_ready a n gs) name ids = search settle_rules depth 14
  create_group_from-Settles _ name ids = search settle_rules

  send_group_text_from-Settles :
      (status : Status) (text : String) → Settles (send_group_text_from {P = P} status text)
  unfolding send_group_text_from
  send_group_text_from-Settles (group a g n ms) text = search settle_rules depth 10
  send_group_text_from-Settles _ text = search settle_rules

  remove_member_from-Settles :
      (status : Status) (id : String) → Settles (remove_member_from {P = P} status id)
  unfolding remove_member_from
  remove_member_from-Settles (group a g n ms) id = record {
    returns = search (returns_rules, update-Returns, caught-Returns);
    rests = search settle_rules depth 12;
  }
  remove_member_from-Settles _ id = search settle_rules

  perform-Settles : (e : PageEvent) → tries e ≡ true → Settles (perform {P = P} e)
  unfolding perform handle_create handle_link_device handle_start_conversation handle_send
      handle_send_file handle_create_group handle_send_group_text handle_remove_member
  perform-Settles creates h = search settle_rules depth 14
  perform-Settles (links a c) h = search settle_rules depth 14
  perform-Settles (starts c) h = Settles-on_status _ (λ status. start_from-Settles status c)
  perform-Settles (sends t) h = Settles-on_status _ (λ status. send_from-Settles status t)
  perform-Settles (sends_file f d) h =
      Settles-on_status _ (λ status. send_file_from-Settles status f d)
  perform-Settles (creates_group n ms) h =
      Settles-on_status _ (λ status. create_group_from-Settles status n ms)
  perform-Settles (sends_to_group t) h =
      Settles-on_status _ (λ status. send_group_text_from-Settles status t)
  perform-Settles (removes m) h =
      Settles-on_status _ (λ status. remove_member_from-Settles status m)
  perform-Settles mounts h = cc
  perform-Settles (opens_file m) h = cc
  perform-Settles (opens_group g) h = cc
  perform-Settles (sets_timer n) h = cc
  perform-Settles (elapses n) h = cc

  -- Creating an account, linking a device, starting a conversation, sending a text or a file, creating a
  -- group, sending to it and removing a member of it throw nothing, whatever fails: and if none of
  -- the flags that show that the page is busy is set before, then none is set after.
  pub perform-settles :
      (e : PageEvent) (s : AppState P)
      → tries e ≡ true
      → flags_of s.ui ≡ idle
      → ((perform e s).0 ≡ ok tt) × (flags_of (perform e s).1.ui ≡ idle)
  perform-settles e s h free =
      let settles = perform-Settles e h in
      let (a, returned) = settles.returns.at s in
      (returned, (settles.rests.at s (record { holds = record { same = free } })).holds.same)
