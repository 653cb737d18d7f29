-- ===== src/Conversation/Poll/Sweep.antt =====
-- The end of `poll`: expired messages are dropped, and what is returned is what is stored.
use mathlib.Core.Path.{subst}
use umbra_chat.Prelude.{
  ◌≡◌, refl, ap, sym, ◌∙◌, arith, ℕ, String, Bool, true, false, some, or_default, List, [], ◌∷◌,
  filter, filter-eq_of_length,
}
use umbra_chat.Prelude.Dict.{lookup-insert_self}
use umbra_chat.Identity.{LocalAccount}
use umbra_chat.Message.{ChatMessage}
use umbra_chat.Http.{ReceivedMessage}
use umbra_chat.Platform.{Platform}
use umbra_chat.Exec.{ok, pure}
use umbra_chat.Exec.Bind.{bind-ok, ok-injective}
use umbra_chat.Exec.Keeps.{Keeps-step}
use umbra_chat.World.{World, date_now}
use umbra_chat.World.Frame.{
  LocalData, local_data, history_of, history, HasData, HasData-IsQuiet, date_now-Keeps,
}
use umbra_chat.Storage.{load_messages}
use umbra_chat.Api.{fetch_messages}
use umbra_chat.Storage.Laws.{load_messages-ok, save_messages-ok}
use umbra_chat.Api.Frame.{fetch_messages-Keeps}
use umbra_chat.Conversation.Poll.History.{Evolves, process_all-Evolves}
use umbra_chat.Conversation.Poll.Remains.{Remains, filter-Remains}
use umbra_chat.Conversation.Poll.{Handlers, is_alive, process_all, must_save, save_open, poll}

nothing_to_save :
    (p : ChatMessage → Bool) (received : List ReceivedMessage) (messages : List ChatMessage)
    → must_save received messages (filter p messages) ≡ false
    → (received ≡ []) × (filter p messages ≡ messages)
nothing_to_save p [] messages h = (refl, filter-eq_of_length p messages (ground arith))
nothing_to_save p (r ∷ received) messages h = absurd (ground arith)

nothing_to_save-absurd :
    (m : ReceivedMessage) (received : List ReceivedMessage) (messages alive : List ChatMessage)
    → must_save (m ∷ received) messages alive ≡ false
    → ⊥
nothing_to_save-absurd m received messages alive h = ground arith

same_history : (id : String) {d d' : LocalData} → d ≡ d' → history_of d id ≡ history_of d' id
same_history id h = ap (λ d. history_of d id) h

module _ {P : Platform} where
  save_open-history :
      (needed : Bool) (contact_id : String) (alive : List ChatMessage) (w v : World P)
      → save_open (some contact_id) needed alive w ≡ (ok tt, v)
      → (needed ≡ false → history w contact_id ≡ alive)
      → history v contact_id ≡ alive
  unfolding pure
  save_open-history true contact_id alive w v h kept =
      same_history contact_id (save_messages-ok contact_id alive h (record { same = refl })).same
      ∙ ap (λ o. or_default o []) (lookup-insert_self contact_id alive w.messages)
  save_open-history false contact_id alive w v h kept =
      ap (λ q. history q.1 contact_id) (sym h) ∙ kept refl

  untouched :
      (contact_id : String) (account : LocalAccount) (handlers : Handlers P)
      (received : List ReceivedMessage) (loaded messages : List ChatMessage) (now : ℕ)
      (w u v : World P)
      → process_all (some contact_id) account handlers received loaded w ≡ (ok messages, u)
      → date_now u ≡ (ok now, v)
      → must_save received messages (filter (is_alive now) messages) ≡ false
      → history w contact_id ≡ loaded
      → history v contact_id ≡ filter (is_alive now) messages
  unfolding process_all pure
  untouched contact_id account handlers [] loaded messages now w u v e1 e2 idle same =
      let (_, all) = nothing_to_save (is_alive now) [] messages idle in
      let still =
        same_history contact_id
          (Keeps-step (date_now-Keeps (HasData-IsQuiet {P = P} (local_data u))) e2
            (record { same = refl })).same in
      still ∙ ap (λ q. history q.1 contact_id) (sym e1) ∙ same ∙ ok-injective e1 ∙ sym all
  untouched contact_id account handlers (m ∷ received) loaded messages now w u v e1 e2 idle same =
      absurd (nothing_to_save-absurd m received messages _ idle)

  clock-reads : (u v : World P) (now : ℕ) → date_now u ≡ (ok now, v) → (P.date_now u.env).0 ≡ now
  unfolding date_now
  clock-reads u v now h = ok-injective h

  -- The steps of a poll of a contact that succeeded.
  pub record PollRun (contact_id : String) (account : LocalAccount) (handlers : Handlers P)
      (w v : World P) (alive : List ChatMessage) : Type 0 where
    pub received : List ReceivedMessage
    pub loaded : List ChatMessage
    pub messages : List ChatMessage
    pub now : ℕ
    pub w1 : World P
    pub w2 : World P
    pub w3 : World P
    pub w4 : World P
    pub fetched : fetch_messages account w ≡ (ok received, w1)
    pub load : load_messages contact_id w1 ≡ (ok loaded, w2)
    pub processed :
        process_all (some contact_id) account handlers received loaded w2 ≡ (ok messages, w3)
    pub read_clock : date_now w3 ≡ (ok now, w4)
    pub saved :
        save_open
          (some contact_id)
          (must_save received messages (filter (is_alive now) messages))
          (filter (is_alive now) messages)
          w4
        ≡ (ok tt, v)
    pub result : filter (is_alive now) messages ≡ alive

  poll-run :
      (contact_id : String) (account : LocalAccount) (handlers : Handlers P) (w v : World P)
      (alive : List ChatMessage)
      → poll (some contact_id) account handlers w ≡ (ok alive, v)
      → PollRun contact_id account handlers w v alive
  unfolding poll pure
  poll-run contact_id account handlers w v alive h =
      let (received, w1, e1, k1) = bind-ok _ _ _ h in
      let (loaded, w2, e2, k2) = bind-ok _ _ _ k1 in
      let (messages, w3, e3, k3) = bind-ok _ _ _ k2 in
      let (now, w4, e4, k4) = bind-ok _ _ _ k3 in
      let (_, w5, e5, k5) = bind-ok _ _ _ k4 in
      record {
        received = received;
        loaded = loaded;
        messages = messages;
        now = now;
        w1 = w1;
        w2 = w2;
        w3 = w3;
        w4 = w4;
        fetched = e1;
        load = e2;
        processed = e3;
        read_clock = e4;
        saved = e5 ∙ ap (λ q. (ok tt, q.1)) k5;
        result = ok-injective k5;
      }

  module _ {contact_id : String} {account : LocalAccount} {handlers : Handlers P} {w v : World P}
      {alive : List ChatMessage} (r : PollRun contact_id account handlers w v alive) where
    run-loaded : (r.loaded ≡ history w contact_id) × HasData (local_data w) r.w2
    run-loaded = load_messages-ok contact_id r.load (
        Keeps-step (fetch_messages-Keeps (HasData-IsQuiet {P = P} (local_data w)) account) r.fetched
          (record { same = refl }))

    run-stored : history v contact_id ≡ filter (is_alive r.now) r.messages
    run-stored =
        let (stored, p) = run-loaded in
        save_open-history _ contact_id _ r.w4 v r.saved λ idle.
          untouched contact_id account handlers r.received r.loaded r.messages r.now r.w2 r.w3 r.w4
            r.processed r.read_clock idle (same_history contact_id p.same ∙ sym stored)

    run-remains : Remains (P.date_now r.w3.env).0 r.messages alive
    run-remains =
        subst (λ now. Remains now r.messages alive) (sym (clock-reads r.w3 r.w4 r.now r.read_clock))
          (subst (Remains r.now r.messages) r.result (filter-Remains r.now r.messages))

  -- A poll of a contact that succeeds runs the loop over the received messages on the stored history;
  -- that drops, reorders and rewrites nothing of it: messages are appended, and on messages sent from
  -- here the status may change and a missing expiry may be set.
  -- Of what the loop gives, the messages that have an expiry at or before the time that the clock shows
  -- next are dropped, and no others; what remains, in its order, is what is returned, and the stored
  -- history.
  pub poll-history :
      (contact_id : String) (account : LocalAccount) (handlers : Handlers P) (w v : World P)
      (alive : List ChatMessage)
      → poll (some contact_id) account handlers w ≡ (ok alive, v)
      → (history v contact_id ≡ alive)
        × (received : List ReceivedMessage) × (messages : List ChatMessage) × (u1 : World P)
        × (u2 : World P) × (u3 : World P) × (fetch_messages account w ≡ (ok received, u1))
        × (load_messages contact_id u1 ≡ (ok (history w contact_id), u2))
        × (process_all (some contact_id) account handlers received (history w contact_id) u2
            ≡ (ok messages, u3))
        × Remains (P.date_now u3.env).0 messages alive
        × Evolves (history w contact_id) messages
  poll-history contact_id account handlers w v alive h =
      let r = poll-run contact_id account handlers w v alive h in
      let loaded = (run-loaded r).0 in
      (
        run-stored r ∙ r.result,
        r.received,
        r.messages,
        r.w1,
        r.w2,
        r.w3,
        r.fetched,
        subst (λ ms. load_messages contact_id r.w1 ≡ (ok ms, r.w2)) loaded r.load,
        subst
            (λ ms.
              process_all (some contact_id) account handlers r.received ms r.w2
              ≡ (ok r.messages, r.w3))
            loaded r.processed,
        run-remains r,
        subst (λ ms. Evolves ms r.messages) loaded
            (process_all-Evolves (some contact_id) account handlers r.received r.loaded r.messages
              r.w2 r.w3 r.processed),
      )
