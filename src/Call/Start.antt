-- ===== src/Call/Start.antt =====
-- web/src/chat/call.ts: `startCall`, and the idle timer of the call before it.
use umbra_chat.Prelude.{◌≡◌, refl, ap, sym, ◌∙◌, arith, ℕ, String, Bool, true, some, List, [], ◌∷◌}
use umbra_chat.Identity.{LocalAccount}
use umbra_chat.Envelope.{CallKind}
use umbra_chat.Platform.{Platform}
use umbra_chat.Exec.{ok, pure, gets, modify, ◌>>=◌}
use umbra_chat.Exec.Bind.{bind-ok}
use umbra_chat.Exec.Keeps.{Keeps, Keeps-step}
use umbra_chat.World.{World}
use umbra_chat.World.Frame.{random_uuid-Keeps}
use umbra_chat.Call.Data.{idle, outgoing_ringing, CallMachine, local_stream}
use umbra_chat.Call.{
  cleanup, change, machine, open_stream, new_peer_connection, start_call, hang_up, hang_up_from,
  set_state,
}
use umbra_chat.Call.Events.{on_idle_reset}
use umbra_chat.Call.Invariant.{IsTidy, stop-All}
use umbra_chat.Call.Safety.{
  HasCall, HasCall-IsQuiet, rtc-Keeps, send_call_signal-Keeps, change-Keeps,
}

-- The running streams, and whether the idle timer is armed.
pub record Runs (live : List ℕ) (armed : Bool) (m : CallMachine) : Type 0 where
  pub streams : m.live_streams ≡ live
  pub timer : m.idle_reset_timer ≡ armed

ringing-IsTidy :
    {call_id : String} {kind : CallKind} {local : ℕ} (m : CallMachine)
    → m.state ≡ outgoing_ringing call_id kind local
    → m.live_streams ≡ local ∷ []
    → IsTidy m
ringing-IsTidy m state streams = record {
  camera = rw (streams, state) (refl, tt);
  offered = rw state tt;
}

module _ {P : Platform} where
  cleanup-Runs :
      (w u : World P)
      → IsTidy w.call
      → change cleanup w ≡ (ok tt, u)
      → HasCall (Runs [] w.call.idle_reset_timer) u
  unfolding change modify cleanup
  cleanup-Runs w u h e = record {
    holds = record {
      streams =
          ap (λ p. p.1.call.live_streams) (sym e)
          ∙ stop-All (local_stream w.call.state) w.call.live_streams h.camera;
      timer = ap (λ p. p.1.call.idle_reset_timer) (sym e);
    };
  }

  pub open_stream-Runs :
      (kind : CallKind) (armed : Bool) (w u : World P) (local : ℕ)
      → HasCall (Runs [] armed) w
      → open_stream kind w ≡ (ok local, u)
      → HasCall (Runs (local ∷ []) armed) u
  unfolding open_stream machine gets change modify pure
  open_stream-Runs kind armed w u local h e =
      let (_, u1, e1, k1) = bind-ok _ _ _ e in
      let (m, u2, e2, k2) = bind-ok _ _ _ k1 in
      let (_, u3, e3, k3) = bind-ok _ _ _ k2 in
      let p1 = Keeps-step (rtc-Keeps _) e1 h in
      record {
        holds = record {
          streams = ground (arith, e2, e3, k3, p1.holds.streams);
          timer = ground (arith, e2, e3, k3, p1.holds.timer);
        };
      }

  pub new_peer_connection-Keeps :
      {live : List ℕ} {armed : Bool} (contact_id call_id : String) (kind : CallKind)
      → Keeps (HasCall (Runs live armed)) (new_peer_connection {P = P} contact_id call_id kind)
  unfolding new_peer_connection
  new_peer_connection-Keeps contact_id call_id kind =
      change-Keeps _ (λ m h. record { streams = h.streams; timer = h.timer })

  placed-ok :
      {armed : Bool} (contact_id call_id : String) (kind : CallKind) (local : ℕ) (u v : World P)
      → HasCall (Runs (local ∷ []) armed) u
      → change
          (λ m. record (set_state (outgoing_ringing call_id kind local) m) {
            answer_timer = some (record { contact_id = contact_id; call_id = call_id });
          })
          u
        ≡ (ok tt, v)
      → (v.call.state ≡ outgoing_ringing call_id kind local)
        × (v.call.live_streams ≡ local ∷ [])
        × (v.call.answer_timer ≡ some (record { contact_id = contact_id; call_id = call_id }))
        × (v.call.idle_reset_timer ≡ armed)
        × IsTidy v.call
  unfolding change modify
  placed-ok contact_id call_id kind local u v h e =
      let state = ap (λ p. p.1.call.state) (sym e) in
      let streams = ap (λ p. p.1.call.live_streams) (sym e) ∙ h.holds.streams in
      (
        state,
        streams,
        ap (λ p. p.1.call.answer_timer) (sym e),
        ap (λ p. p.1.call.idle_reset_timer) (sym e) ∙ h.holds.timer,
        ringing-IsTidy v.call state streams,
      )

  -- A call that `startCall` placed on a tidy machine is ringing with its own stream and its answer
  -- timer; that stream is the only one that runs, so the machine is tidy again. The idle timer is
  -- as it was: one that was armed when an earlier call ended still is.
  pub start_call-ok :
      (contact_id : String) (kind : CallKind) (account : LocalAccount) (w v : World P)
      → IsTidy w.call
      → start_call contact_id kind account w ≡ (ok tt, v)
      → (call_id : String) × (local : ℕ) × (v.call.state ≡ outgoing_ringing call_id kind local)
        × (v.call.live_streams ≡ local ∷ [])
        × (v.call.answer_timer ≡ some (record { contact_id = contact_id; call_id = call_id }))
        × (v.call.idle_reset_timer ≡ w.call.idle_reset_timer)
        × IsTidy v.call
  unfolding start_call
  start_call-ok contact_id kind account w v h e =
      let (_, u1, e1, k1) = bind-ok _ _ _ e in
      let (call_id, u2, e2, k2) = bind-ok _ _ _ k1 in
      let (local, u3, e3, k3) = bind-ok _ _ _ k2 in
      let (_, u4, e4, k4) = bind-ok _ _ _ k3 in
      let (_, u5, e5, k5) = bind-ok _ _ _ k4 in
      let (_, u6, e6, k6) = bind-ok _ _ _ k5 in
      let (_, u7, e7, k7) = bind-ok _ _ _ k6 in
      let p3 =
        open_stream-Runs kind _ u2 u3 local
          (Keeps-step (random_uuid-Keeps HasCall-IsQuiet) e2 (cleanup-Runs w u1 h e1)) e3 in
      let p4 = Keeps-step (new_peer_connection-Keeps contact_id call_id kind) e4 p3 in
      let p6 = Keeps-step (rtc-Keeps _) e6 (Keeps-step (rtc-Keeps _) e5 p4) in
      let p7 = Keeps-step (send_call_signal-Keeps contact_id _ account) e7 p6 in
      let (state, streams, answer, reset, tidy) =
        placed-ok contact_id call_id kind local u7 v p7 k7 in
      (call_id, local, state, streams, answer, reset, tidy)

  -- `startCall` does not disarm the idle timer. Where a call was placed on a tidy machine while
  -- the timer was armed, the timer's firing puts the machine to "idle" with the new call's stream,
  -- and no other, running, and hanging up then does nothing.
  pub idle_reset-strands :
      (contact_id : String) (kind : CallKind) (account : LocalAccount) (w v : World P)
      → IsTidy w.call
      → w.call.idle_reset_timer ≡ true
      → start_call contact_id kind account w ≡ (ok tt, v)
      → (local : ℕ) × ((on_idle_reset v).1.call.state ≡ idle)
        × ((on_idle_reset v).1.call.live_streams ≡ local ∷ [])
        × (hang_up contact_id account (on_idle_reset v).1 ≡ (ok tt, (on_idle_reset v).1))
  unfolding on_idle_reset hang_up hang_up_from machine gets change modify pure ◌>>=◌
  idle_reset-strands contact_id kind account w v tidy armed h =
      let (call_id, local, state, streams, _, timer, _) =
        start_call-ok contact_id kind account w v tidy h in
      let fires : v.call.idle_reset_timer ≡ true = timer ∙ armed in
      (local, rw fires refl, rw (fires, streams) refl, rw fires refl)
