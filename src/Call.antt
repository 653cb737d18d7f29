-- ===== src/Call.antt =====
-- web/src/chat/call.ts: one call at a time. Each function below runs to its end before the next
-- event is taken.
pub mod Data
pub mod Events
pub mod Failure
pub mod Invariant
pub mod Safety
pub mod Accept
pub mod Start
pub mod Stray
pub mod Trace
use umbra_chat.Prelude.{
  ℕ, suc, String, ◌==◌, Bool, true, false, not, ◌&&◌, Option, none, some, List, [], ◌∷◌, ◌++◌,
  filter, nat_eq, if◌then◌else◌,
}
use umbra_chat.Identity.{LocalAccount}
use umbra_chat.Envelope.{
  CallKind, CallEndReason, hangup, declined, cancelled, timeout, failed, CallEnvelope, call_offer,
  call_answer, call_ice, call_end,
}
use umbra_chat.Platform.{Platform}
use umbra_chat.Exec.{
  ok, type_error, Exec, pure, throw, gets, modify, on_option, for_each, ◌>>=◌, ◌>>◌,
}
use umbra_chat.World.{World, Io, random_uuid}
use umbra_chat.Conversation.{send_call_signal}
use Data.{
  CallState, idle, outgoing_ringing, incoming_ringing, connecting, connected, ended, PeerConnection,
  PendingOffer, AnswerTimer, CallMachine, RtcRequest, get_user_media, create_offer, create_answer,
  set_local_description, set_remote_description, add_ice_candidate, active_call_id, local_stream,
}

-- `for (const track of stream.getTracks()) track.stop()`
abbrev pub stop : Option ℕ → List ℕ → List ℕ
stop none live = live
stop (some s) live = filter (λ l. not (nat_eq l s)) live

unfoldable pub cleanup : CallMachine → CallMachine
cleanup m = record m {
  answer_timer = none;
  pc = none;
  pending_offer = none;
  pending_ice_candidates = [];
  remote_stream_buffer = none;
  live_streams = stop (local_stream m.state) m.live_streams;
}

abbrev pub set_state : CallState → CallMachine → CallMachine
set_state next m = record m { state = next }

-- The timer that was armed is cleared first: at most one is.
abbrev pub schedule_idle_reset : CallMachine → CallMachine
schedule_idle_reset m = record m { idle_reset_timer = true }

-- `pendingOffer?.callId ?? (… ? state.callId : undefined)`
abbrev pub signalled_call_id : CallMachine → Option String
signalled_call_id m = elim m.pending_offer [
  | none ↦ active_call_id m.state
  | some o ↦ some o.call_id
]

abbrev pub is_call : String → Option String → Bool
is_call call_id none = false
is_call call_id (some c) = c == call_id

-- `state.status === "idle" || state.status === "ended"`
abbrev pub is_free : CallState → Bool
is_free idle = true
is_free (ended reason) = true
is_free _ = false

-- `state.status !== "incoming-ringing" || !pendingOffer`, turned round
abbrev pub offer_to_answer : CallMachine → Option PendingOffer
offer_to_answer m = elim m.state [ incoming_ringing call_id kind ↦ m.pending_offer | _ ↦ none ]

module _ {P : Platform} where
  unfoldable pub change : (CallMachine → CallMachine) → Io P Unit
  change f = modify (λ w. record w { call = f w.call })

  unfoldable pub machine : Io P CallMachine
  machine = gets (λ w. w.call)

  unfoldable pub rtc : RtcRequest → Io P String
  rtc request w = let (r, e) = P.rtc request w.env in (r, record w { env = e })

  -- `void promise`: what it throws reaches nobody
  unfoldable pub detached : Io P Unit → Io P Unit
  detached m w = (ok tt, (m w).1)

  unfoldable pub end_call : String → CallEndReason → String → LocalAccount → Io P Unit
  unfolding cleanup change
  end_call contact_id reason call_id account = do
    change (λ m. schedule_idle_reset (set_state (ended reason) (cleanup m)))
    send_call_signal contact_id (call_end call_id reason) account

  -- `getUserMedia`: a new stream, with its tracks running
  unfoldable pub open_stream : CallKind → Io P ℕ
  unfolding rtc machine change
  open_stream kind = do
    rtc (get_user_media kind)
    m ← machine
    change (λ m'. record m' {
      next_stream = suc m'.next_stream;
      live_streams = m'.next_stream ∷ m'.live_streams;
    })
    pure m.next_stream

  -- `pc = newPeerConnection(…)`
  unfoldable pub new_peer_connection : String → String → CallKind → Io P Unit
  unfolding change
  new_peer_connection contact_id call_id kind = change (λ m. record m {
    next_connection = suc m.next_connection;
    pc = some (record {
      number = m.next_connection;
      contact_id = contact_id;
      call_id = call_id;
      kind = kind;
      remote_description = false;
    });
  })

  unfoldable pub start_call : String → CallKind → LocalAccount → Io P Unit
  unfolding cleanup change rtc open_stream new_peer_connection
  start_call contact_id kind account = do
    change cleanup
    call_id ← random_uuid
    local ← open_stream kind
    new_peer_connection contact_id call_id kind
    offer ← rtc create_offer
    rtc (set_local_description offer)
    send_call_signal contact_id (call_offer call_id kind offer) account
    change (λ m. record (set_state (outgoing_ringing call_id kind local) m) {
      answer_timer = some (record { contact_id = contact_id; call_id = call_id });
    })

  -- `pc.setRemoteDescription`, then the candidates that came before it
  unfoldable pub set_remote : String → Io P Unit
  unfolding rtc machine change
  set_remote sdp = do
    rtc (set_remote_description sdp)
    change (λ m. record m {
      pc = elim m.pc [ none ↦ none | some c ↦ some (record c { remote_description = true }) ];
    })
    m ← machine
    for_each m.pending_ice_candidates (λ candidate. do rtc (add_ice_candidate candidate); pure tt)
    change (λ m'. record m' { pending_ice_candidates = [] })

  accept_offer : String → LocalAccount → PendingOffer → Io P Unit
  unfolding open_stream new_peer_connection set_remote
  accept_offer contact_id account o = do
    local ← open_stream o.kind
    new_peer_connection contact_id o.call_id o.kind
    set_remote o.sdp
    answer ← rtc create_answer
    rtc (set_local_description answer)
    send_call_signal contact_id (call_answer o.call_id answer) account
    change (λ m. record m {
      pending_offer = none;
      state = connecting o.call_id o.kind local m.remote_stream_buffer;
    })

  unfoldable pub accept_call : String → LocalAccount → Io P Unit
  unfolding accept_offer machine
  accept_call contact_id account = do
    m ← machine
    on_option (offer_to_answer m) (pure tt) (accept_offer contact_id account)

  unfoldable pub decline_call : String → LocalAccount → Io P Unit
  unfolding machine end_call
  decline_call contact_id account = do
    m ← machine
    on_option (offer_to_answer m) (pure tt) (λ o. end_call contact_id declined o.call_id account)

  hang_up_from : CallState → String → LocalAccount → Io P Unit
  unfolding end_call
  hang_up_from (outgoing_ringing call_id kind local) contact_id account =
      end_call contact_id cancelled call_id account
  hang_up_from (connecting call_id kind local remote) contact_id account =
      end_call contact_id hangup call_id account
  hang_up_from (connected call_id kind local remote) contact_id account =
      end_call contact_id hangup call_id account
  hang_up_from _ contact_id account = pure tt

  unfoldable pub hang_up : String → LocalAccount → Io P Unit
  unfolding machine hang_up_from
  hang_up contact_id account = do m ← machine; hang_up_from m.state contact_id account
