-- ===== src/Call/Accept.antt =====
-- web/src/chat/call.ts: `acceptCall`.
use umbra_chat.Prelude.{◌≡◌, refl, ap, sym, ◌∙◌, ℕ, String, Bool, Option, none, some, List, [], ◌∷◌}
use umbra_chat.Identity.{LocalAccount}
use umbra_chat.Envelope.{CallKind}
use umbra_chat.Platform.{Platform}
use umbra_chat.Exec.{ok, gets, modify, on_option, ◌>>=◌}
use umbra_chat.Exec.Bind.{bind-ok}
use umbra_chat.Exec.Keeps.{Keeps, Keeps-step}
use umbra_chat.World.{World}
use umbra_chat.Call.Data.{CallState, incoming_ringing, connecting, CallMachine, PendingOffer}
use umbra_chat.Call.{change, machine, accept_offer, accept_call, offer_to_answer, set_remote}
use umbra_chat.Call.Invariant.{IsTidy, IsOffered, stop-All}
use umbra_chat.Call.Safety.{HasCall, rtc-Keeps, send_call_signal-Keeps, set_remote-Keeps}
use umbra_chat.Call.Start.{Runs, open_stream-Runs, new_peer_connection-Keeps}

offered-ringing :
    {call_id : String} {kind : CallKind} (s : CallState) (o : Option PendingOffer)
    → s ≡ incoming_ringing call_id kind
    → IsOffered s o
    → (sdp : String) × (o ≡ some (record { call_id = call_id; kind = kind; sdp = sdp }))
offered-ringing s o e h = rw e at h

joined-IsTidy :
    {call_id : String} {kind : CallKind} {local : ℕ} {remote : Option ℕ} (m : CallMachine)
    → m.state ≡ connecting call_id kind local remote
    → m.live_streams ≡ local ∷ []
    → IsTidy m
joined-IsTidy m state streams = record {
  camera = rw (streams, state) (refl, tt);
  offered = rw state tt;
}

answering :
    {call_id sdp : String} {kind : CallKind} (m : CallMachine)
    → m.state ≡ incoming_ringing call_id kind
    → m.pending_offer ≡ some (record { call_id = call_id; kind = kind; sdp = sdp })
    → offer_to_answer m ≡ some (record { call_id = call_id; kind = kind; sdp = sdp })
answering m state offer = rw (state, offer) refl

module _ {P : Platform} where
  set_remote-Runs :
      {live : List ℕ} {armed : Bool} (sdp : String)
      → Keeps (HasCall (Runs live armed)) (set_remote {P = P} sdp)
  set_remote-Runs sdp =
      set_remote-Keeps (λ m pc h. record { streams = h.streams; timer = h.timer })
        (λ m h. record { streams = h.streams; timer = h.timer }) sdp

  accepted-ok :
      {armed : Bool} (call_id : String) (kind : CallKind) (local : ℕ) (u v : World P)
      → HasCall (Runs (local ∷ []) armed) u
      → change
          (λ m. record m {
            pending_offer = none;
            state = connecting call_id kind local m.remote_stream_buffer;
          })
          u
        ≡ (ok tt, v)
      → (remote : Option ℕ) × (v.call.state ≡ connecting call_id kind local remote)
        × (v.call.pending_offer ≡ none)
        × (v.call.live_streams ≡ local ∷ [])
        × IsTidy v.call
  unfolding change modify
  accepted-ok call_id kind local u v h e =
      let state = ap (λ p. p.1.call.state) (sym e) in
      let streams = ap (λ p. p.1.call.live_streams) (sym e) ∙ h.holds.streams in
      (
        u.call.remote_stream_buffer,
        state,
        ap (λ p. p.1.call.pending_offer) (sym e),
        streams,
        joined-IsTidy v.call state streams,
      )

  accept_offer-ok :
      (contact_id : String) (account : LocalAccount) (o : PendingOffer) (w v : World P)
      → w.call.live_streams ≡ []
      → accept_offer contact_id account o w ≡ (ok tt, v)
      → (local : ℕ) × (remote : Option ℕ) × (v.call.state
          ≡ connecting o.call_id o.kind local remote)
        × (v.call.pending_offer ≡ none)
        × (v.call.live_streams ≡ local ∷ [])
        × IsTidy v.call
  unfolding accept_offer
  accept_offer-ok contact_id account o w v silent e =
      let (local, u1, e1, k1) = bind-ok _ _ _ e in
      let (_, u2, e2, k2) = bind-ok _ _ _ k1 in
      let (_, u3, e3, k3) = bind-ok _ _ _ k2 in
      let (_, u4, e4, k4) = bind-ok _ _ _ k3 in
      let (_, u5, e5, k5) = bind-ok _ _ _ k4 in
      let (_, u6, e6, k6) = bind-ok _ _ _ k5 in
      let p1 =
        open_stream-Runs o.kind _ w u1 local
          (record { holds = record { streams = silent; timer = refl } }) e1 in
      let p2 = Keeps-step (new_peer_connection-Keeps contact_id o.call_id o.kind) e2 p1 in
      let p3 = Keeps-step (set_remote-Runs o.sdp) e3 p2 in
      let p5 = Keeps-step (rtc-Keeps _) e5 (Keeps-step (rtc-Keeps _) e4 p3) in
      let p6 = Keeps-step (send_call_signal-Keeps contact_id _ account) e6 p5 in
      let (remote, state, offer, streams, tidy) = accepted-ok o.call_id o.kind local u6 v p6 k6 in
      (local, remote, state, offer, streams, tidy)

  -- Accepting the call that rings on a tidy machine, if it succeeds, connects that very call with a
  -- stream of its own, which is the only one that runs; the offer is used up.
  pub accept_call-ok :
      (contact_id call_id : String) (kind : CallKind) (account : LocalAccount) (w v : World P)
      → IsTidy w.call
      → w.call.state ≡ incoming_ringing call_id kind
      → accept_call contact_id account w ≡ (ok tt, v)
      → (local : ℕ) × (remote : Option ℕ) × (v.call.state ≡ connecting call_id kind local remote)
        × (v.call.pending_offer ≡ none)
        × (v.call.live_streams ≡ local ∷ [])
        × IsTidy v.call
  unfolding accept_call machine gets on_option ◌>>=◌
  accept_call-ok contact_id call_id kind account w v tidy ringing e =
      let (sdp, offer) = offered-ringing w.call.state w.call.pending_offer ringing tidy.offered in
      let silent : w.call.live_streams ≡ [] =
        stop-All none w.call.live_streams (rw ringing at tidy.camera) in
      accept_offer-ok contact_id account (record { call_id = call_id; kind = kind; sdp = sdp }) w v
        silent (rw (answering w.call ringing offer) at e)
