-- ===== src/Call/Stray.antt =====
-- web/src/chat/call.ts: the guards of `handleCallSignal`.
use umbra_chat.Prelude.{
  ◌≡◌, refl, arith, ℕ, String, eq_iff, false, Option, none, some, inl, inr, Option-cases,
}
use umbra_chat.Envelope.{CallKind, CallEndReason, call_offer, call_answer, call_ice, call_end}
use umbra_chat.Platform.{Platform}
use umbra_chat.Exec.{ok, pure, gets, modify, ◌>>=◌}
use umbra_chat.World.{World}
use umbra_chat.Call.Data.{
  CallState, idle, outgoing_ringing, incoming_ringing, connecting, connected, ended, PendingOffer,
  CallMachine, active_call_id,
}
use umbra_chat.Call.{signalled_call_id, is_call, is_free, change, machine}
use umbra_chat.Call.Events.{answered_call, handle_answer, handle_call_signal}

answered_call-stray :
    (call_id : String) (m : CallMachine)
    → is_call call_id (active_call_id m.state) ≡ false
    → answered_call call_id m ≡ none
answered_call-stray call_id m h = ground (arith, h)

-- The call that a state is about, if any, has another id.
pub data IsAnother (call_id : String) : CallState → Type 0 where
  no_call : IsAnother call_id idle
  no_longer : (reason : CallEndReason) → IsAnother call_id (ended reason)
  other_outgoing :
      (c : String) (kind : CallKind) (local : ℕ)
      → ¬ (c ≡ call_id)
      → IsAnother call_id (outgoing_ringing c kind local)
  other_incoming :
      (c : String) (kind : CallKind) → ¬ (c ≡ call_id) → IsAnother call_id (incoming_ringing c kind)
  other_connecting :
      (c : String) (kind : CallKind) (local : ℕ) (remote : Option ℕ)
      → ¬ (c ≡ call_id)
      → IsAnother call_id (connecting c kind local remote)
  other_connected :
      (c : String) (kind : CallKind) (local : ℕ) (remote : Option ℕ)
      → ¬ (c ≡ call_id)
      → IsAnother call_id (connected c kind local remote)

is_call-another : (call_id c : String) → ¬ (c ≡ call_id) → is_call call_id (some c) ≡ false
is_call-another call_id c other = ground (arith, eq_iff c call_id, other)

active-another :
    (call_id : String) (s : CallState)
    → IsAnother call_id s
    → is_call call_id (active_call_id s) ≡ false
active-another call_id _ no_call = refl
active-another call_id _ (no_longer reason) = refl
active-another call_id _ (other_outgoing c kind local other) = is_call-another call_id c other
active-another call_id _ (other_incoming c kind other) = is_call-another call_id c other
active-another call_id _ (other_connecting c kind local remote other) =
    is_call-another call_id c other
active-another call_id _ (other_connected c kind local remote other) =
    is_call-another call_id c other

signalled-another :
    (call_id : String) (m : CallMachine)
    → IsAnother call_id m.state
    → ((o : PendingOffer) → m.pending_offer ≡ some o → ¬ (o.call_id ≡ call_id))
    → is_call call_id (signalled_call_id m) ≡ false
signalled-another call_id m another unoffered = elim (Option-cases m.pending_offer) [
  | inl e ↦ rw e (active-another call_id m.state another)
  | inr (o, e) ↦ rw e (is_call-another call_id o.call_id (unoffered o e))
]

module _ {P : Platform} where
  -- While a call is ringing, connecting or connected, an offer changes nothing at all.
  pub offer_when_busy :
      (call_id sdp : String) (kind : CallKind) (w : World P)
      → is_free w.call.state ≡ false
      → handle_call_signal (call_offer call_id kind sdp) w ≡ (ok tt, w)
  unfolding handle_call_signal change modify
  offer_when_busy call_id sdp kind w h = rw h refl

  -- An answer, a candidate or an end that names a call changes nothing at all, if the call that the
  -- state is about and the call of the pending offer, where there is one, have other ids.
  pub stray_signal :
      (call_id text : String) (reason : CallEndReason) (w : World P)
      → IsAnother call_id w.call.state
      → ((o : PendingOffer) → w.call.pending_offer ≡ some o → ¬ (o.call_id ≡ call_id))
      → (handle_call_signal (call_answer call_id text) w ≡ (ok tt, w))
        × (handle_call_signal (call_ice call_id text) w ≡ (ok tt, w))
        × (handle_call_signal (call_end call_id reason) w ≡ (ok tt, w))
  unfolding handle_call_signal handle_answer machine gets change modify pure ◌>>=◌
  stray_signal call_id text reason w another unoffered =
      let active = active-another call_id w.call.state another in
      let signalled = signalled-another call_id w.call another unoffered in
      (rw (answered_call-stray call_id w.call active) refl, rw signalled refl, rw signalled refl)
