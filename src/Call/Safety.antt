-- ===== src/Call/Safety.antt =====
-- The invariant of the machine under every event that can come from outside: a signal, a callback,
-- a timer, or the user ending a call.
use umbra_chat.Prelude.{◌≡◌, refl, ℕ, String, Bool, true, false, Option, none, some, []}
use umbra_chat.Identity.{LocalAccount}
use umbra_chat.Envelope.{
  CallEndReason, CallEnvelope, call_offer, call_answer, call_ice, call_end, call,
}
use umbra_chat.Platform.{Platform}
use umbra_chat.Exec.{pure, modify, gets, ◌>>=◌, ◌>>◌}
use umbra_chat.Exec.Keeps.{
  Keeps, Keeps-bind, Keeps-bind_from, Keeps-then, Keeps-for_each, keeps_rules,
}
use umbra_chat.World.{World, Io}
use umbra_chat.World.Frame.{IsQuiet, IsDeaf}
use umbra_chat.Conversation.{send_call_signal}
use umbra_chat.Conversation.Frame.{send_envelope-Keeps}
use umbra_chat.Call.Data.{
  CallState, outgoing_ringing, connecting, connected, PeerConnection, CallMachine, ConnectionState,
  RtcRequest, set_remote_description, add_ice_candidate, local_stream,
}
use umbra_chat.Call.{
  set_state, change, machine, rtc, detached, end_call, set_remote, decline_call, hang_up_from,
  hang_up,
}
use umbra_chat.Call.Events.{
  Ringing, answered_call, handle_answer, handle_ice, handle_call_signal, on_ice_candidate, on_track,
  on_state, on_connection_state_change, on_answer_timeout,
}
use umbra_chat.Call.Invariant.{
  IsTidy, All-transport, ended-IsTidy, end-IsTidy, ring-IsTidy, connect-IsTidy, track-IsTidy,
  answered-local,
}

-- The machine is tidy, and its call has the local stream `s`.
pub record IsOn (s : ℕ) (m : CallMachine) : Type 0 where
  pub tidy : IsTidy m
  pub stream : local_stream m.state ≡ some s

connecting-IsTidy :
    (call_id : String) (r : Ringing) (m : CallMachine)
    → IsOn r.local m
    → IsTidy (set_state (connecting call_id r.kind r.local m.remote_stream_buffer) m)
connecting-IsTidy call_id r m h = record {
  camera = All-transport m.live_streams h.stream h.tidy.camera;
  offered = tt;
}

module _ {P : Platform} where
  -- A property of the call machine, as one of the world., as one of the world.
  pub record HasCall (C : CallMachine → Type 0) (w : World P) : Type 0 where
    pub holds : C w.call

  module _ {C : CallMachine → Type 0} where
    pub HasCall-IsQuiet : IsQuiet (HasCall C)
    HasCall-IsQuiet = record {
      env = λ w e h. record { holds = h.holds };
      store = λ w s h. record { holds = h.holds };
      sessions = λ w d h. record { holds = h.holds };
      request = λ w r e h. record { holds = h.holds };
    }

    pub HasCall-IsDeaf : IsDeaf (HasCall C)
    HasCall-IsDeaf = record { post = λ w r h. record { holds = h.holds } }

    pub rtc-Keeps : (r : RtcRequest) → Keeps (HasCall C) (rtc r)
    unfolding rtc
    rtc-Keeps r = record { at = λ w h. record { holds = h.holds } }

    pub send_call_signal-Keeps :
        (id : String) (e : CallEnvelope) (account : LocalAccount)
        → Keeps (HasCall C) (send_call_signal id e account)
    unfolding send_call_signal
    send_call_signal-Keeps id e account =
        send_envelope-Keeps HasCall-IsQuiet HasCall-IsDeaf id (call e) account

    pub change-Keeps :
        (f : CallMachine → CallMachine)
        → ((m : CallMachine) → C m → C (f m))
        → Keeps (HasCall C) (change f)
    unfolding change modify
    change-Keeps f k = record { at = λ w h. record { holds = k w.call h.holds } }

    pub machine-Keeps : Keeps (HasCall C) machine
    unfolding machine
    machine-Keeps = search keeps_rules

    pub detached-Keeps : (m : Io P Unit) → Keeps (HasCall C) m → Keeps (HasCall C) (detached m)
    unfolding detached
    detached-Keeps m k = record { at = λ w h. k.at w h }

  pub ruleset call_rules =
      (keeps_rules, rtc-Keeps, send_call_signal-Keeps, machine-Keeps, detached-Keeps)

  end_call-Keeps :
      (id : String) (reason : CallEndReason) (call_id : String) (account : LocalAccount)
      → Keeps (HasCall IsTidy) (end_call id reason call_id account)
  unfolding end_call
  end_call-Keeps id reason call_id account =
      Keeps-bind _ _ (change-Keeps _ (ended-IsTidy reason))
        (λ _. send_call_signal-Keeps id (call_end call_id reason) account)

  hang_up_from-Keeps :
      (s : CallState) (id : String) (account : LocalAccount)
      → Keeps (HasCall IsTidy) (hang_up_from s id account)
  unfolding hang_up_from
  hang_up_from-Keeps (outgoing_ringing _ _ _) id account = search (call_rules, end_call-Keeps)
  hang_up_from-Keeps (connecting _ _ _ _) id account = search (call_rules, end_call-Keeps)
  hang_up_from-Keeps (connected _ _ _ _) id account = search (call_rules, end_call-Keeps)
  hang_up_from-Keeps _ id account = search call_rules

  pub hang_up-Keeps :
      (id : String) (account : LocalAccount) → Keeps (HasCall IsTidy) (hang_up id account)
  unfolding hang_up
  hang_up-Keeps id account = search (call_rules, hang_up_from-Keeps)

  pub decline_call-Keeps :
      (id : String) (account : LocalAccount) → Keeps (HasCall IsTidy) (decline_call id account)
  unfolding decline_call
  decline_call-Keeps id account = search (call_rules, end_call-Keeps)

  add_candidate-Keeps :
      {C : CallMachine → Type 0} (candidate : String)
      → Keeps (HasCall C) (do rtc {P = P} (add_ice_candidate candidate); pure tt)
  add_candidate-Keeps candidate = search call_rules

  -- Setting the remote description changes neither the state nor the streams nor the offer.
  pub set_remote-Keeps :
      {C : CallMachine → Type 0}
      → ((m : CallMachine) (pc : Option PeerConnection) → C m → C (record m { pc = pc }))
      → ((m : CallMachine) → C m → C (record m { pending_ice_candidates = [] }))
      → (sdp : String) → Keeps (HasCall C) (set_remote sdp)
  unfolding set_remote
  set_remote-Keeps {C} pcs queues sdp = Keeps-bind _ _ (rtc-Keeps (set_remote_description sdp)) λ _.
      Keeps-bind _ _ (change-Keeps _ (λ m h. pcs m _ h)) λ _. Keeps-bind _ _ machine-Keeps λ m.
        Keeps-bind _ _ (Keeps-for_each m.pending_ice_candidates _ add_candidate-Keeps)
          λ _. change-Keeps _ queues

  set_remote-IsOn : (s : ℕ) (sdp : String) → Keeps (HasCall (IsOn s)) (set_remote sdp)
  set_remote-IsOn s sdp =
      set_remote-Keeps
        (λ m pc h. record {
          tidy = record { camera = h.tidy.camera; offered = h.tidy.offered };
          stream = h.stream;
        })
        (λ m h. record {
          tidy = record { camera = h.tidy.camera; offered = h.tidy.offered };
          stream = h.stream;
        })
        sdp

  handle_answer-Keeps :
      (call_id sdp : String) (r : Option Ringing) (w : World P)
      → HasCall IsTidy w
      → ((a : Ringing) → r ≡ some a → local_stream w.call.state ≡ some a.local)
      → HasCall IsTidy (handle_answer call_id sdp r w).1
  unfolding handle_answer pure change modify
  handle_answer-Keeps call_id sdp none w h on = h
  handle_answer-Keeps call_id sdp (some r) w h on =
      Keeps-then Q (HasCall IsTidy) _ _ weaken clear-Keeps
        (λ _ v q.
          Keeps-then Q (HasCall IsTidy) _ _ weaken (set_remote-IsOn r.local sdp)
            (λ _ u p. record { holds = connecting-IsTidy call_id r u.call p.holds }) v q)
        w (record { holds = record { tidy = h.holds; stream = on r refl } })
    where
      Q : World P → Type 0
      Q = HasCall (IsOn r.local)

      weaken : (v : World P) → Q v → HasCall IsTidy v
      weaken v q = record { holds = q.holds.tidy }

      clear-Keeps : Keeps Q (change {P = P} (λ m. record m { answer_timer = none }))
      clear-Keeps = change-Keeps _ (λ m q. record {
        tidy = record { camera = q.tidy.camera; offered = q.tidy.offered };
        stream = q.stream;
      })

  handle_ice-Keeps :
      (b : Bool) (candidate : String) → Keeps (HasCall IsTidy) (handle_ice b candidate)
  unfolding handle_ice
  handle_ice-Keeps true candidate = search call_rules
  handle_ice-Keeps false candidate =
      change-Keeps _ (λ m h. record { camera = h.camera; offered = h.offered })

  pub signal-Keeps : (e : CallEnvelope) → Keeps (HasCall IsTidy) (handle_call_signal e)
  unfolding handle_call_signal machine gets ◌>>=◌
  signal-Keeps (call_offer call_id kind sdp) = change-Keeps _ (ring-IsTidy call_id kind sdp)
  signal-Keeps (call_answer call_id sdp) = record {
    at = λ w h.
        handle_answer-Keeps call_id sdp (answered_call call_id w.call) w h
          (answered-local call_id w.call);
  }
  signal-Keeps (call_ice call_id candidate) = search (call_rules, handle_ice-Keeps)
  signal-Keeps (call_end call_id reason) = change-Keeps _ (end-IsTidy call_id reason)

  pub on_ice_candidate-Keeps :
      (conn : ℕ) (candidate : Option String) (account : LocalAccount)
      → Keeps (HasCall IsTidy) (on_ice_candidate conn candidate account)
  unfolding on_ice_candidate
  on_ice_candidate-Keeps conn candidate account = search call_rules depth 10

  pub on_track-Keeps :
      (conn : ℕ) (stream : Option ℕ) → Keeps (HasCall IsTidy) (on_track conn stream)
  unfolding on_track
  on_track-Keeps conn stream = change-Keeps _ (track-IsTidy conn stream)

  on_state-Keeps :
      (s : ConnectionState) (c : PeerConnection) (account : LocalAccount)
      → Keeps (HasCall IsTidy) (on_state s c account)
  unfolding on_state
  on_state-Keeps ConnectionState.connected c account = change-Keeps _ (connect-IsTidy c)
  on_state-Keeps ConnectionState.failed c account = search (call_rules, end_call-Keeps)
  on_state-Keeps ConnectionState.other c account = search call_rules

  pub on_connection_state_change-Keeps :
      (conn : ℕ) (s : ConnectionState) (account : LocalAccount)
      → Keeps (HasCall IsTidy) (on_connection_state_change conn s account)
  unfolding on_connection_state_change
  on_connection_state_change-Keeps conn s account = search (call_rules, on_state-Keeps)

  clear_timer-Keeps :
      Keeps (HasCall IsTidy) (change {P = P} (λ m. record m { answer_timer = none }))
  clear_timer-Keeps = change-Keeps _ (λ m h. record { camera = h.camera; offered = h.offered })

  pub on_answer_timeout-Keeps :
      (account : LocalAccount) → Keeps (HasCall IsTidy) (on_answer_timeout account)
  unfolding on_answer_timeout
  on_answer_timeout-Keeps account = search (call_rules, end_call-Keeps, clear_timer-Keeps) depth 10
