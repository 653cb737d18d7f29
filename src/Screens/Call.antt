-- ===== src/Screens/Call.antt =====
-- web/src/screens/CallScreen.tsx.
use umbra_chat.Prelude.{
  ℕ, String, ◌<>◌, true, false, not, Option, none, some, List, [], ◌∷◌, ◌++◌, if◌then◌else◌,
}
use umbra_chat.Envelope.{
  CallKind, voice, video, CallEndReason, hangup, declined, cancelled, timeout, failed,
}
use umbra_chat.Call.Data.{
  CallState, idle, outgoing_ringing, incoming_ringing, connecting, connected, ended, local_stream,
}
use umbra_chat.Screens.{
  Forms, accepts, declines, hangs_up, enables_audio, Action, Node, paragraph, button, media,
  call_back, stay,
}

abbrev end_reason_label : CallEndReason → String
end_reason_label hangup = "Call ended"
end_reason_label declined = "Declined"
end_reason_label cancelled = "Call cancelled"
end_reason_label timeout = "Unreachable"
end_reason_label failed = "Call failed"

abbrev kind_text : CallKind → String
kind_text voice = "voice"
kind_text video = "video"

-- given `callState.localStream`, if it is there
abbrev pub toggle_mute : Option ℕ → Forms → Action
toggle_mute none forms = stay forms
toggle_mute (some stream) forms =
    (record forms { muted = not forms.muted }, some (enables_audio stream forms.muted))

abbrev pub panes : CallKind → ℕ → Option ℕ → List Node
panes video local remote =
    media "remote-video" remote false ∷ media "local-video" (some local) true ∷ []
panes voice local remote = media "remote-audio" remote false ∷ []

abbrev pub active_call : String → CallKind → ℕ → Option ℕ → CallState → Forms → List Node
active_call label kind local remote call_state forms =
    paragraph label ∷ panes kind local remote
    ++ button (if forms.muted then "Unmute" else "Mute") false
        (toggle_mute (local_stream call_state) forms)
      ∷ button "Hang Up" false (call_back hangs_up forms)
      ∷ []

-- The page shows no call screen where the call is idle.
unfoldable pub call_screen : CallState → Forms → List Node
call_screen idle forms = []
call_screen (incoming_ringing call_id kind) forms =
    paragraph ("Incoming " <> (kind_text kind <> " call"))
    ∷ button "Accept" false (call_back accepts forms)
    ∷ button "Decline" false (call_back declines forms)
    ∷ []
call_screen (ended reason) forms = paragraph (end_reason_label reason) ∷ []
call_screen (outgoing_ringing call_id kind local) forms =
    active_call "Calling..." kind local none (outgoing_ringing call_id kind local) forms
call_screen (connecting call_id kind local remote) forms =
    active_call "Connecting..." kind local remote (connecting call_id kind local remote) forms
call_screen (connected call_id kind local remote) forms =
    active_call "Connected" kind local remote (connected call_id kind local remote) forms
