-- ===== src/Call/Data.antt =====
-- web/src/chat/call.ts: the module's variables. A local media stream and a peer connection are
-- known by numbers, given out in order; `live_streams` are the local streams whose tracks were not
-- stopped. A timer is the call that it will make, while it is armed.
use umbra_chat.Prelude.{ℕ, String, Bool, false, Option, none, some, List, []}
use umbra_chat.Envelope.{CallKind, CallEndReason}

pub data CallState : Type 0 where
  idle : CallState
  outgoing_ringing : String → CallKind → ℕ → CallState
  incoming_ringing : String → CallKind → CallState
  connecting : String → CallKind → ℕ → Option ℕ → CallState
  connected : String → CallKind → ℕ → Option ℕ → CallState
  ended : CallEndReason → CallState

-- `RTCPeerConnection`, with what its callbacks have captured.
pub record PeerConnection : Type 0 where
  pub number : ℕ
  pub contact_id : String
  pub call_id : String
  pub kind : CallKind
  pub remote_description : Bool

pub record PendingOffer : Type 0 where
  pub call_id : String
  pub kind : CallKind
  pub sdp : String

pub record AnswerTimer : Type 0 where
  pub contact_id : String
  pub call_id : String

pub record CallMachine : Type 0 where
  pub state : CallState
  pub pc : Option PeerConnection
  pub pending_offer : Option PendingOffer
  pub pending_ice_candidates : List String
  pub remote_stream_buffer : Option ℕ
  pub answer_timer : Option AnswerTimer
  pub idle_reset_timer : Bool
  pub live_streams : List ℕ
  pub next_stream : ℕ
  pub next_connection : ℕ

-- `RTCPeerConnection.connectionState`
pub data ConnectionState : Type 0 where
  connected failed other : ConnectionState

-- What is asked of the browser's WebRTC.
pub data RtcRequest : Type 0 where
  get_user_media : CallKind → RtcRequest
  create_offer create_answer : RtcRequest
  set_local_description set_remote_description add_ice_candidate : String → RtcRequest

-- `state.callId`, outside of "idle" and "ended"
abbrev pub active_call_id : CallState → Option String
active_call_id idle = none
active_call_id (outgoing_ringing call_id kind local) = some call_id
active_call_id (incoming_ringing call_id kind) = some call_id
active_call_id (connecting call_id kind local remote) = some call_id
active_call_id (connected call_id kind local remote) = some call_id
active_call_id (ended reason) = none

-- `state.localStream`, if `"localStream" in state`
abbrev pub local_stream : CallState → Option ℕ
local_stream (outgoing_ringing call_id kind local) = some local
local_stream (connecting call_id kind local remote) = some local
local_stream (connected call_id kind local remote) = some local
local_stream _ = none

abbrev pub initial : CallMachine
initial = record {
  state = idle;
  pc = none;
  pending_offer = none;
  pending_ice_candidates = [];
  remote_stream_buffer = none;
  answer_timer = none;
  idle_reset_timer = false;
  live_streams = [];
  next_stream = 0;
  next_connection = 0;
}
