-- ===== src/App/Lost.antt =====
-- web/src/App.tsx, web/src/chat/conversation.ts: the poll of an open conversation, with the handlers that
-- the page gives it, where it throws.
use umbra_chat.Prelude.{
  ◌≡◌, ℕ, String, Bool, true, false, Option, none, some, List, [], ◌++◌, append-nil, All, sym,
}
use umbra_chat.Identity.{LocalAccount}
use umbra_chat.Message.{ChatMessage}
use umbra_chat.Envelope.{CallEnvelope, call_offer, call_answer, call_ice, call_end}
use umbra_chat.Platform.{Platform}
use umbra_chat.Exec.{Error, err, modify, when_some}
use umbra_chat.Exec.Keeps.{Keeps, keeps_rules}
use umbra_chat.World.{World}
use umbra_chat.World.Frame.{history}
use umbra_chat.Conversation.{set_timer_seconds_local}
use umbra_chat.Conversation.Poll.{poll}
use umbra_chat.Conversation.Poll.Failure.{IsApart, poll-IsAtomic}
use umbra_chat.Call.Data.{CallMachine, RtcRequest}
use umbra_chat.Call.{change, machine, rtc, set_remote}
use umbra_chat.Call.Events.{Ringing, handle_answer, handle_ice, handle_call_signal}
use umbra_chat.Group.Grown.{
  IsOfGroup, IsGrown, IsGrown-IsQuiet, IsGrown-IsDeaf, save_messages-IsAtomic-IsGrown,
  handle_group_signal-Keeps-IsGrown,
}
use umbra_chat.App.Pages.{all_handlers}

module _ {P : Platform} {id : String} {h : List ChatMessage} where
  change-Keeps : (f : CallMachine → CallMachine) → Keeps (IsGrown {P = P} id h) (change f)
  unfolding change modify
  change-Keeps f = record {
    at = λ w p. record { late = p.late; grown = p.grown; of_group = p.of_group };
  }

  rtc-Keeps : (r : RtcRequest) → Keeps (IsGrown {P = P} id h) (rtc r)
  unfolding rtc
  rtc-Keeps r = record {
    at = λ w p. record { late = p.late; grown = p.grown; of_group = p.of_group };
  }

  set_timer-Keeps :
      (contact_id : String) (seconds : ℕ)
      → Keeps (IsGrown {P = P} id h) (set_timer_seconds_local contact_id seconds)
  unfolding set_timer_seconds_local modify
  set_timer-Keeps contact_id seconds = record {
    at = λ w p. record { late = p.late; grown = p.grown; of_group = p.of_group };
  }

  set_remote-Keeps : (sdp : String) → Keeps (IsGrown {P = P} id h) (set_remote sdp)
  unfolding set_remote machine
  set_remote-Keeps sdp = search (keeps_rules, change-Keeps, rtc-Keeps) depth 10

  handle_answer-Keeps :
      (call_id sdp : String) (o : Option Ringing)
      → Keeps (IsGrown {P = P} id h) (handle_answer call_id sdp o)
  unfolding handle_answer
  handle_answer-Keeps call_id sdp none = search keeps_rules
  handle_answer-Keeps call_id sdp (some r) = search (keeps_rules, change-Keeps, set_remote-Keeps)

  handle_ice-Keeps :
      (remote : Bool) (candidate : String)
      → Keeps (IsGrown {P = P} id h) (handle_ice remote candidate)
  unfolding handle_ice
  handle_ice-Keeps true candidate = search (keeps_rules, rtc-Keeps)
  handle_ice-Keeps false candidate = search (change-Keeps)

  handle_call_signal-Keeps :
      (e : CallEnvelope) → Keeps (IsGrown {P = P} id h) (handle_call_signal e)
  unfolding handle_call_signal machine
  handle_call_signal-Keeps (call_offer call_id kind sdp) = search (change-Keeps)
  handle_call_signal-Keeps (call_answer call_id sdp) = search (keeps_rules, handle_answer-Keeps)
  handle_call_signal-Keeps (call_ice call_id candidate) = search (keeps_rules, handle_ice-Keeps)
  handle_call_signal-Keeps (call_end call_id reason) = search (change-Keeps)

  all_handlers-IsApart : IsApart (IsGrown {P = P} id h) all_handlers
  unfolding when_some
  all_handlers-IsApart = record {
    quiet = IsGrown-IsQuiet;
    deaf = IsGrown-IsDeaf;
    timers = set_timer-Keeps;
    on_call = handle_call_signal-Keeps;
    on_group = handle_group_signal-Keeps-IsGrown id h;
  }

module _ {P : Platform} where
  -- A poll of an open conversation that throws, with the page's handlers, leaves the stored history as it
  -- was before the poll, but for messages of groups, each with its sender, that may follow it: of the
  -- messages from the contact that the server has handed over and deleted, those that were decrypted
  -- before the failure are not stored either.
  pub poll_of_page-err :
      (contact_id : String) (account : LocalAccount) (w v : World P) (e : Error)
      → poll (some contact_id) account all_handlers w ≡ (err e, v)
      → (late : List ChatMessage) × (history v contact_id ≡ history w contact_id ++ late)
        × All IsOfGroup late
  poll_of_page-err contact_id account w v e failed =
      let kept =
        (poll-IsAtomic all_handlers-IsApart save_messages-IsAtomic-IsGrown contact_id account).at w
          v e failed
          (record { late = []; grown = sym (append-nil (history w contact_id)); of_group = tt }) in
      (kept.late, kept.grown, kept.of_group)
