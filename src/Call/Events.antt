-- ===== src/Call/Events.antt =====
-- web/src/chat/call.ts: `handleCallSignal`, the callbacks of the peer connection and of the timers.
use umbra_chat.Prelude.{
  ℕ, String, ◌==◌, Bool, true, false, not, ◌&&◌, Option, none, some, is_some, [], ◌∷◌, ◌++◌, nat_eq,
  if◌then◌else◌,
}
use umbra_chat.Identity.{LocalAccount}
use umbra_chat.Envelope.{
  CallKind, timeout, failed, CallEnvelope, call_offer, call_answer, call_ice, call_end,
}
use umbra_chat.Platform.{Platform}
use umbra_chat.Exec.{pure, on_option, ◌>>=◌, ◌>>◌}
use umbra_chat.World.{Io}
use umbra_chat.Conversation.{send_call_signal}
use umbra_chat.Call.Data.{
  CallState, idle, outgoing_ringing, incoming_ringing, connecting, connected, ended, PeerConnection,
  CallMachine, ConnectionState, add_ice_candidate,
}
use umbra_chat.Call.{
  cleanup, set_state, schedule_idle_reset, signalled_call_id, is_call, is_free, change, machine,
  rtc, detached, end_call, set_remote,
}

-- `if (state.status !== "idle" && state.status !== "ended") return`, and then the new state
abbrev pub ring : String → CallKind → String → CallMachine → CallMachine
ring call_id kind sdp m = if not (is_free m.state) then m else record m {
  pending_offer = some (record { call_id = call_id; kind = kind; sdp = sdp });
  pending_ice_candidates = [];
  state = incoming_ringing call_id kind;
}

-- What an answer needs: the outgoing call of its id, and a connection.
pub record Ringing : Type 0 where
  pub kind : CallKind
  pub local : ℕ

abbrev pub answered_call : String → CallMachine → Option Ringing
answered_call call_id m = elim m.state [
  | outgoing_ringing c kind local ↦
      if c == call_id && is_some m.pc then some (record { kind = kind; local = local }) else none
  | _ ↦ none
]

-- `pc?.remoteDescription`
abbrev pub has_remote : Option PeerConnection → Bool
has_remote none = false
has_remote (some c) = c.remote_description

-- `pc === conn`
abbrev pub is_current : ℕ → CallMachine → Option PeerConnection
is_current conn m = elim m.pc [
  | none ↦ none
  | some c ↦ if nat_eq c.number conn then some c else none
]

abbrev pub set_remote_stream : Option ℕ → CallState → CallState
set_remote_stream remote (connecting call_id kind local _) = connecting call_id kind local remote
set_remote_stream remote (connected call_id kind local _) = connected call_id kind local remote
set_remote_stream remote state = state

abbrev pub connect : PeerConnection → CallMachine → CallMachine
connect c m = elim m.state [
  | connecting call_id kind local remote ↦ record m {
    answer_timer = none;
    state = connected c.call_id c.kind local remote;
  }
  | _ ↦ m
]

module _ {P : Platform} where
  unfoldable pub handle_answer : String → String → Option Ringing → Io P Unit
  unfolding change set_remote
  handle_answer call_id sdp none = pure tt
  handle_answer call_id sdp (some r) = do
    change (λ m. record m { answer_timer = none })
    set_remote sdp
    change (λ m. set_state (connecting call_id r.kind r.local m.remote_stream_buffer) m)

  unfoldable pub handle_ice : Bool → String → Io P Unit
  unfolding change rtc
  handle_ice true candidate = do rtc (add_ice_candidate candidate); pure tt
  handle_ice false candidate =
      change
        (λ m. record m { pending_ice_candidates = m.pending_ice_candidates ++ (candidate ∷ []) })

  unfoldable pub handle_call_signal : CallEnvelope → Io P Unit
  unfolding change machine cleanup handle_answer handle_ice
  handle_call_signal (call_offer call_id kind sdp) = change (ring call_id kind sdp)
  handle_call_signal (call_answer call_id sdp) = do
    m ← machine
    handle_answer call_id sdp (answered_call call_id m)
  handle_call_signal (call_ice call_id candidate) = do
    m ← machine
    if not (is_call call_id (signalled_call_id m))
        then pure tt
        else handle_ice (has_remote m.pc) candidate
  handle_call_signal (call_end call_id reason) = change (λ m.
      if not (is_call call_id (signalled_call_id m))
      then m
      else schedule_idle_reset (set_state (ended reason) (cleanup m)))

  -- `conn.onicecandidate`
  unfoldable pub on_ice_candidate : ℕ → Option String → LocalAccount → Io P Unit
  unfolding machine detached
  on_ice_candidate conn candidate account = do
    m ← machine
    on_option (is_current conn m) (pure tt) λ c.
        on_option candidate (pure tt)
          λ i. detached (send_call_signal c.contact_id (call_ice c.call_id i) account)

  -- `conn.ontrack`
  unfoldable pub on_track : ℕ → Option ℕ → Io P Unit
  unfolding change
  on_track conn stream = change (λ m.
      if is_some (is_current conn m)
      then record m { remote_stream_buffer = stream; state = set_remote_stream stream m.state }
      else m)

  unfoldable pub on_state : ConnectionState → PeerConnection → LocalAccount → Io P Unit
  unfolding change detached end_call
  on_state ConnectionState.connected c account = change (connect c)
  on_state ConnectionState.failed c account =
      detached (end_call c.contact_id failed c.call_id account)
  on_state ConnectionState.other c account = pure tt

  -- `conn.onconnectionstatechange`
  unfoldable pub on_connection_state_change : ℕ → ConnectionState → LocalAccount → Io P Unit
  unfolding machine on_state
  on_connection_state_change conn state account = do
    m ← machine
    on_option (is_current conn m) (pure tt) (λ c. on_state state c account)

  -- The answer timer fires, if it is armed.
  unfoldable pub on_answer_timeout : LocalAccount → Io P Unit
  unfolding machine change detached end_call
  on_answer_timeout account = do
    m ← machine
    on_option m.answer_timer (pure tt) λ t. do
      change (λ m'. record m' { answer_timer = none })
      detached (end_call t.contact_id timeout t.call_id account)

  -- The idle timer fires, if it is armed.
  unfoldable pub on_idle_reset : Io P Unit
  unfolding change
  on_idle_reset =
      change
        (λ m. if m.idle_reset_timer then record m { idle_reset_timer = false; state = idle } else m)
