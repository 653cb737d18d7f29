-- ===== src/Conversation/Outbox.antt =====
-- What `sendText`, `setDisappearingTimer` and `markFileOpened` leave in the local stores.
use umbra_chat.Prelude.{
  ◌≡◌, refl, inl, inr, arith, String, ◌==◌, ℕ, not, Bool, true, false, or_default, List, [], ◌∷◌,
  ◌++◌, filter, find, if◌then◌else◌,
}
use umbra_chat.Prelude.Dict.{lookup, insert}
use umbra_chat.Identity.{LocalAccount}
use umbra_chat.Message.{Direction, MessageStatus, ChatMessage, plain_message}
use umbra_chat.Envelope.{text, timer, file_opened}
use umbra_chat.Platform.{Platform}
use umbra_chat.Exec.{Error, Result, ok, err, pure, gets, modify, ◌>>◌}
use umbra_chat.Exec.Atomic.{IsAtomic, atomic_rules}
use umbra_chat.Signal.Frame.{signal_rules}
use umbra_chat.Exec.Bind.{bind-ok, bind-err}
use umbra_chat.Exec.Keeps.{Keeps-step}
use umbra_chat.World.{World}
use umbra_chat.World.Frame.{
  LocalData, local_data, history, HasData, HasData-IsQuiet, HasData-IsDeaf, random_uuid-Keeps,
}
use umbra_chat.Storage.{save_messages}
use umbra_chat.Storage.Laws.{load_messages-ok, save_messages-ok, save_messages-IsAtomic}
use umbra_chat.Storage.Frame.{load_messages-Keeps}
use umbra_chat.Conversation.{
  positive, get_timer_seconds, set_timer_seconds_local, set_disappearing_timer, send_text,
  destructs_on_open, mark_file_opened,
}
use umbra_chat.Conversation.Frame.{send_envelope-Keeps, get_timer_seconds-Keeps, now_iso-Keeps}

-- What a history is after the message was opened, by its own mark.
abbrev pub after_opening : String → List ChatMessage → List ChatMessage
after_opening message_id ms =
    if destructs_on_open (find (λ m. m.id == message_id) ms)
    then filter (λ m. not (m.id == message_id)) ms
    else ms

-- The local data after the timer was set, or was not.
abbrev pub timer_set : Result (Unit {0}) → String → ℕ → LocalData → LocalData
timer_set (ok a) contact_id seconds d = record d { timers = insert contact_id seconds d.timers }
timer_set (err e) contact_id seconds d = d

ruleset outbox_rules = (
  atomic_rules, signal_rules, send_envelope-Keeps, get_timer_seconds-Keeps, now_iso-Keeps,
  load_messages-Keeps, save_messages-IsAtomic,
)

module _ {P : Platform} where
  timer-ok :
      (id : String) {d : LocalData} {seconds : ℕ} {w v : World P}
      → get_timer_seconds id w ≡ (ok seconds, v)
      → HasData d w
      → (seconds ≡ or_default (lookup id d.timers) 0) × HasData d v
  unfolding get_timer_seconds gets
  timer-ok id h p = (ground (arith, h, p.same), record { same = ground (arith, h, p.same) })

  -- A text that was sent stands at the end of the contact's history, with the timer that was set
  -- for the contact, if one was; nothing else of the local data has changed.
  pub send_text-ok :
      (contact_id body : String) (account : LocalAccount) (w v : World P) (ms : List ChatMessage)
      → send_text contact_id body account w ≡ (ok ms, v)
      → (id : String) × (created_at : ℕ) × (ms
          ≡ history w contact_id
            ++ record (plain_message id Direction.sent body MessageStatus.sent created_at) {
              timer_seconds = positive (or_default (lookup contact_id w.timers) 0);
            }
              ∷ [])
        × (local_data v ≡ record (local_data w) { messages = insert contact_id ms w.messages })
  unfolding send_text pure
  send_text-ok contact_id body account w v ms h =
      let d = local_data w in
      let quiet = HasData-IsQuiet {P = P} d in
      let (id, u1, e1, k1) = bind-ok _ _ _ h in
      let (_, u2, e2, k2) = bind-ok _ _ _ k1 in
      let (messages, u3, e3, k3) = bind-ok _ _ _ k2 in
      let (seconds, u4, e4, k4) = bind-ok _ _ _ k3 in
      let (created_at, u5, e5, k5) = bind-ok _ _ _ k4 in
      let (_, u6, e6, k6) = bind-ok _ _ _ k5 in
      let p1 = Keeps-step (random_uuid-Keeps quiet) e1 (record { same = refl }) in
      let p2 =
        Keeps-step (send_envelope-Keeps quiet (HasData-IsDeaf d) contact_id (text id body) account)
          e2 p1 in
      let (loaded, p3) = load_messages-ok contact_id e3 p2 in
      let (set, p4) = timer-ok contact_id e4 p3 in
      let p5 = Keeps-step (now_iso-Keeps quiet) e5 p4 in
      let p6 = save_messages-ok contact_id _ e6 p5 in
      (id, created_at, ground (arith, k6, loaded, set), ground (arith, k6, p6.same))

  -- A text that could not be sent, or stored, leaves no trace in the local data.
  pub send_text-err :
      (contact_id body : String) (account : LocalAccount) (w v : World P) (e : Error)
      → send_text contact_id body account w ≡ (err e, v)
      → local_data v ≡ local_data w
  unfolding send_text
  send_text-err contact_id body account w v e h =
      let quiet = HasData-IsQuiet {P = P} (local_data w) in
      let deaf = HasData-IsDeaf {P = P} (local_data w) in
      let atomic : IsAtomic (HasData {P = P} (local_data w)) (send_text contact_id body account) =
        search outbox_rules depth 12 in
      (atomic.at w v e h (record { same = refl })).same

  -- Once the contact has been told, the timer is stored under the contact, and nothing else of the
  -- local data has changed.
  set_disappearing_timer-ok :
      (contact_id : String) (seconds : ℕ) (account : LocalAccount) (w v : World P)
      → set_disappearing_timer contact_id seconds account w ≡ (ok tt, v)
      → local_data v ≡ record (local_data w) { timers = insert contact_id seconds w.timers }
  unfolding set_disappearing_timer set_timer_seconds_local modify
  set_disappearing_timer-ok contact_id seconds account w v h =
      let d = local_data w in
      let (_, u, e, k) = bind-ok _ _ _ h in
      let p =
        Keeps-step
          (send_envelope-Keeps (HasData-IsQuiet {P = P} d) (HasData-IsDeaf d) contact_id
            (timer seconds) account)
          e (record { same = refl }) in
      ground (arith, k, p.same)

  -- If the contact could not be told, the timer is not stored: no local data changes.
  set_disappearing_timer-err :
      (contact_id : String) (seconds : ℕ) (account : LocalAccount) (w v : World P) (e : Error)
      → set_disappearing_timer contact_id seconds account w ≡ (err e, v)
      → local_data v ≡ local_data w
  unfolding set_disappearing_timer set_timer_seconds_local modify
  set_disappearing_timer-err contact_id seconds account w v e h =
      let d = local_data w in
      elim (bind-err _ _ _ h) [
        | inl thrown ↦
            (Keeps-step
              (send_envelope-Keeps (HasData-IsQuiet {P = P} d) (HasData-IsDeaf d) contact_id
                (timer seconds) account)
              thrown (record { same = refl })).same
        | inr (_, u, e, k) ↦ cc
      ]

  timer_set-by :
      (contact_id : String) (seconds : ℕ) (account : LocalAccount) (w v : World P)
      (r : Result (Unit {0}))
      → set_disappearing_timer contact_id seconds account w ≡ (r, v)
      → local_data v ≡ timer_set r contact_id seconds (local_data w)
  timer_set-by contact_id seconds account w v (ok a) h =
      set_disappearing_timer-ok contact_id seconds account w v h
  timer_set-by contact_id seconds account w v (err e) h =
      set_disappearing_timer-err contact_id seconds account w v e h

  -- Once the contact has been told, the timer is stored under the contact, and nothing else of the
  -- local data has changed; if the contact could not be told, the timer is not stored: no local data
  -- changes.
  pub set_disappearing_timer-local_data :
      (contact_id : String) (seconds : ℕ) (account : LocalAccount) (w : World P)
      → local_data (set_disappearing_timer contact_id seconds account w).1
        ≡ timer_set
            (set_disappearing_timer contact_id seconds account w).0
            contact_id
            seconds
            (local_data w)
  set_disappearing_timer-local_data contact_id seconds account w =
      timer_set-by contact_id seconds account w _ _ refl

  mark_file_opened-cases :
      (b : Bool) (contact_id : String) (messages remaining : List ChatMessage) {d : LocalData}
      {w v : World P} {ms : List ChatMessage}
      → (if not b then pure messages else save_messages contact_id remaining >> pure remaining) w
        ≡ (ok ms, v)
      → HasData d w
      → (ms ≡ (if b then remaining else messages))
        × (local_data v
            ≡ (if b then record d { messages = insert contact_id ms d.messages } else d))
  unfolding pure
  mark_file_opened-cases true contact_id messages remaining h p =
      let (_, u, e, k) = bind-ok _ _ _ h in
      let q = save_messages-ok contact_id remaining e p in
      (ground (arith, k), ground (arith, k, q.same))
  mark_file_opened-cases false contact_id messages remaining h p =
      (ground (arith, h), ground (arith, h, p.same))

  -- Opening a file, where it succeeds: if the first message of that id destructs on opening, every
  -- message of the id is removed from the stored history and from what is returned; otherwise the
  -- history is returned as it is stored, and nothing is written.
  pub mark_file_opened-ok :
      (contact_id message_id : String) (account : LocalAccount) (w v : World P)
      (ms : List ChatMessage)
      → mark_file_opened contact_id message_id account w ≡ (ok ms, v)
      → (ms ≡ after_opening message_id (history w contact_id))
        × (local_data v ≡ (
            if destructs_on_open (find (λ m. m.id == message_id) (history w contact_id))
            then record (local_data w) { messages = insert contact_id ms w.messages }
            else local_data w))
  unfolding mark_file_opened
  mark_file_opened-ok contact_id message_id account w v ms h =
      let d = local_data w in
      let (_, u, e, k) = bind-ok _ _ _ h in
      let (messages, u2, e2, k2) = bind-ok _ _ _ k in
      let p =
        Keeps-step
          (send_envelope-Keeps (HasData-IsQuiet {P = P} d) (HasData-IsDeaf d) contact_id
            (file_opened message_id) account)
          e (record { same = refl }) in
      let (loaded, p2) = load_messages-ok contact_id e2 p in
      rw (← loaded) (mark_file_opened-cases _ contact_id messages _ k2 p2)
