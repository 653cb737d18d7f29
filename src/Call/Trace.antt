-- ===== src/Call/Trace.antt =====
-- web/src/chat/call.ts: what reaches the machine during a call, as a type, and runs of it.
use umbra_chat.Prelude.{ℕ, String, Option, List, [], ◌∷◌}
use umbra_chat.Identity.{LocalAccount}
use umbra_chat.Envelope.{CallEnvelope}
use umbra_chat.Platform.{Platform}
use umbra_chat.World.{World, Io}
use umbra_chat.Exec.Keeps.{Keeps}
use umbra_chat.Call.Data.{ConnectionState}
use umbra_chat.Call.{decline_call, hang_up}
use umbra_chat.Call.Events.{
  handle_call_signal, on_ice_candidate, on_track, on_connection_state_change, on_answer_timeout,
}
use umbra_chat.Call.Invariant.{IsTidy}
use umbra_chat.Call.Safety.{
  HasCall, hang_up-Keeps, decline_call-Keeps, signal-Keeps, on_ice_candidate-Keeps, on_track-Keeps,
  on_connection_state_change-Keeps, on_answer_timeout-Keeps,
}

pub data Event : Type 0 where
  -- the user
  hangs_up declines : String → LocalAccount → Event
  -- the other side
  signal : CallEnvelope → Event
  -- the callbacks of a connection, and the answer timer
  ice_candidate : ℕ → Option String → LocalAccount → Event
  track : ℕ → Option ℕ → Event
  connection_state : ℕ → ConnectionState → LocalAccount → Event
  answer_timeout : LocalAccount → Event

module _ {P : Platform} where
  unfoldable pub handle : Event → Io P Unit
  handle (hangs_up contact_id account) = hang_up contact_id account
  handle (declines contact_id account) = decline_call contact_id account
  handle (signal e) = handle_call_signal e
  handle (ice_candidate conn candidate account) = on_ice_candidate conn candidate account
  handle (track conn stream) = on_track conn stream
  handle (connection_state conn state account) = on_connection_state_change conn state account
  handle (answer_timeout account) = on_answer_timeout account

  -- One event after another; what one throws does not stop the next.
  unfoldable pub run : List Event → World P → World P
  unfolding handle
  run [] w = w
  run (e ∷ es) w = run es (handle e w).1

  handle-Keeps : (e : Event) → Keeps (HasCall IsTidy) (handle e)
  unfolding handle
  handle-Keeps (hangs_up contact_id account) = hang_up-Keeps contact_id account
  handle-Keeps (declines contact_id account) = decline_call-Keeps contact_id account
  handle-Keeps (signal e) = signal-Keeps e
  handle-Keeps (ice_candidate conn candidate account) =
      on_ice_candidate-Keeps conn candidate account
  handle-Keeps (track conn stream) = on_track-Keeps conn stream
  handle-Keeps (connection_state conn state account) =
      on_connection_state_change-Keeps conn state account
  handle-Keeps (answer_timeout account) = on_answer_timeout-Keeps account

  run-HasCall : (es : List Event) (w : World P) → HasCall IsTidy w → HasCall IsTidy (run es w)
  unfolding run
  run-HasCall [] w h = h
  run-HasCall (e ∷ es) w h = run-HasCall es (handle e w).1 ((handle-Keeps e).at w h)

  -- From a machine that is tidy (each local stream that runs is the one of the call that the state
  -- is in, and a ringing call has its offer), any sequence of signals, callbacks of a connection,
  -- answer timeouts, hang-ups and refusals leads to a machine that is tidy. This holds for events
  -- of any call and any connection, in any order, and if sending the call's end fails.
  pub run-IsTidy : (es : List Event) (w : World P) → IsTidy w.call → IsTidy (run es w).call
  run-IsTidy es w h = (run-HasCall es w (record { holds = h })).holds
