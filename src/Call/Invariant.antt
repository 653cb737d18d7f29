-- ===== src/Call/Invariant.antt =====
-- The camera and the offers: what holds of the machine between two events.
use mathlib.Core.Path.{subst}
use umbra_chat.Prelude.{
  ◌≡◌, refl, ap, sym, arith, ℕ, String, true, not, Option, none, some, is_some, List, [], ◌∷◌, All,
  Bool-cases, inl, inr, if◌then◌else◌,
}
use umbra_chat.Envelope.{CallKind, CallEndReason}
use umbra_chat.Call.Data.{
  CallState, idle, outgoing_ringing, incoming_ringing, connecting, connected, ended, PeerConnection,
  PendingOffer, CallMachine, local_stream,
}
use umbra_chat.Call.{
  stop, cleanup, set_state, schedule_idle_reset, signalled_call_id, is_call, is_free,
}
use umbra_chat.Call.Events.{ring, Ringing, answered_call, set_remote_stream, connect, is_current}

-- The offer that a ringing call needs is there.
abbrev pub IsOffered : CallState → Option PendingOffer → Type 0
IsOffered (incoming_ringing call_id kind) offer =
    (sdp : String) × (offer ≡ some (record { call_id = call_id; kind = kind; sdp = sdp }))
IsOffered _ offer = Unit

-- No camera or microphone runs but for the stream of the call that the state is in.
pub record IsTidy (m : CallMachine) : Type 0 where
  pub camera : All (λ s. local_stream m.state ≡ some s) m.live_streams
  pub offered : IsOffered m.state m.pending_offer

pub stop-All : (o : Option ℕ) (live : List ℕ) → All (λ s. o ≡ some s) live → stop o live ≡ []
stop-All none [] h = refl
stop-All none (l ∷ live) h = cc
stop-All (some s) [] h = refl
stop-All (some s) (l ∷ live) h = ground (arith, stop-All (some s) live h.1)

pub All-transport :
    {o o' : Option ℕ} (live : List ℕ)
    → o ≡ o'
    → All (λ s. o ≡ some s) live
    → All (λ s. o' ≡ some s) live
All-transport live e h = subst (λ o. All (λ s. o ≡ some s) live) e h

-- Ending a call, from any state, releases the stream: none is left running.
pub ended-IsTidy :
    (reason : CallEndReason) (m : CallMachine)
    → IsTidy m
    → IsTidy (schedule_idle_reset (set_state (ended reason) (cleanup m)))
unfolding cleanup
ended-IsTidy reason m h = record {
  camera = rw (stop-All (local_stream m.state) m.live_streams h.camera) tt;
  offered = tt;
}

free-local : (s : CallState) → is_free s ≡ true → local_stream s ≡ none
free-local idle h = refl
free-local (ended r) h = refl
free-local (outgoing_ringing _ _ _) h = cc
free-local (incoming_ringing _ _) h = cc
free-local (connecting _ _ _ _) h = cc
free-local (connected _ _ _ _) h = cc

pub ring-IsTidy :
    (call_id : String) (kind : CallKind) (sdp : String) (m : CallMachine)
    → IsTidy m
    → IsTidy (ring call_id kind sdp m)
ring-IsTidy call_id kind sdp m h = elim (Bool-cases (is_free m.state)) [
  | inl free ↦ rw free (record {
    camera = All-transport m.live_streams (free-local m.state free) h.camera;
    offered = (sdp, refl);
  })
  | inr busy ↦ rw busy h
]

pub connect-IsTidy : (c : PeerConnection) (m : CallMachine) → IsTidy m → IsTidy (connect c m)
connect-IsTidy c m h = elim_state m.state refl
  where
    elim_state : (s : CallState) → m.state ≡ s → IsTidy (connect c m)
    elim_state (connecting call_id kind local remote) e =
        rw (e, connect)
          (record {
            camera = All-transport m.live_streams (ap local_stream e) h.camera;
            offered = tt;
          })
    elim_state _ e = rw (e, connect) h

set_remote_stream-local :
    (remote : Option ℕ) (s : CallState) → local_stream (set_remote_stream remote s) ≡ local_stream s
set_remote_stream-local remote (connecting _ _ _ _) = refl
set_remote_stream-local remote _ = refl

set_remote_stream-IsOffered :
    (remote : Option ℕ) (s : CallState) (o : Option PendingOffer)
    → IsOffered s o
    → IsOffered (set_remote_stream remote s) o
set_remote_stream-IsOffered remote (incoming_ringing c k) o h = h
set_remote_stream-IsOffered remote idle o h = h
set_remote_stream-IsOffered remote (ended r) o h = h
set_remote_stream-IsOffered remote (outgoing_ringing _ _ _) o h = h
set_remote_stream-IsOffered remote (connecting _ _ _ _) o h = tt
set_remote_stream-IsOffered remote (connected _ _ _ _) o h = tt

pub answered-local :
    (call_id : String) (m : CallMachine) (r : Ringing)
    → answered_call call_id m ≡ some r
    → local_stream m.state ≡ some r.local
answered-local call_id m r h = ground (arith, h)

-- `ontrack` leaves the local stream and the offer alone.
pub track-IsTidy :
    (conn : ℕ) (stream : Option ℕ) (m : CallMachine)
    → IsTidy m
    → IsTidy (
        if is_some (is_current conn m)
        then record m { remote_stream_buffer = stream; state = set_remote_stream stream m.state }
        else m)
track-IsTidy conn stream m h = elim (Bool-cases (is_some (is_current conn m))) [
  | inl here ↦ rw here (record {
    camera = All-transport m.live_streams (sym (set_remote_stream-local stream m.state)) h.camera;
    offered = set_remote_stream-IsOffered stream m.state m.pending_offer h.offered;
  })
  | inr gone ↦ rw gone h
]

pub end-IsTidy :
    (call_id : String) (reason : CallEndReason) (m : CallMachine)
    → IsTidy m
    → IsTidy (
        if not (is_call call_id (signalled_call_id m))
        then m
        else schedule_idle_reset (set_state (ended reason) (cleanup m)))
end-IsTidy call_id reason m h = elim (Bool-cases (is_call call_id (signalled_call_id m))) [
  | inl this ↦ rw this (ended-IsTidy reason m h)
  | inr other ↦ rw other h
]
