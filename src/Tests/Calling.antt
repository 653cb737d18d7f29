-- ===== src/Tests/Calling.antt =====
-- Calls with "bob".
use umbra_chat.Prelude.{
  ◌≡◌, ◌⊎◌, refl, ap, ◌∙◌, ℕ, String, ◌==◌, true, false, or_default, Option, none, some, [], ◌∷◌,
}
use umbra_chat.Envelope.{
  video, voice, CallEnvelope, call_offer, call_answer, call_ice, call_end, hangup,
}
use umbra_chat.Exec.{thrown, ok, err}
use umbra_chat.Call.Failure.{start_call-err}
use umbra_chat.World.{World}
use umbra_chat.Call.Data.{connecting, idle, outgoing_ringing, ended, initial}
use umbra_chat.Call.Accept.{accept_call-ok}
use umbra_chat.Call.{accept_call, start_call, hang_up}
use umbra_chat.Call.Events.{handle_call_signal, on_idle_reset}
use umbra_chat.Call.Invariant.{IsTidy}
use umbra_chat.Call.Start.{start_call-ok, idle_reset-strands}
use umbra_chat.Call.Stray.{other_incoming, stray_signal}
use umbra_chat.Call.Trace.{signal, hangs_up, run, run-IsTidy}
use umbra_chat.Tests.{toy, alice, online, unreachable, run_model}

abbrev offered : String → CallEnvelope
offered call_id = call_offer call_id voice "sdp"

-- The call "c1" rings; then "alice" calls.
abbrev ringing : World toy
ringing = (handle_call_signal (offered "c1") online).1

abbrev calling : World toy
calling = (start_call "bob" video alice online).1

-- A call has just ended, and "alice" calls again.
abbrev after_call : World toy
after_call = record online {
  call = record initial { state = ended hangup; idle_reset_timer = true };
}

abbrev calling_again : World toy
calling_again = (start_call "bob" video alice after_call).1

abbrev accepting : World toy
accepting = (accept_call "bob" alice ringing).1

accepting-runs : accept_call "bob" alice ringing ≡ (ok tt, accepting)
unfolding run_model
accepting-runs = refl

ringing-IsTidy : IsTidy ringing.call
unfolding run_model
ringing-IsTidy = record { camera = tt; offered = ("sdp", refl) }

calling-runs : start_call "bob" video alice online ≡ (ok tt, calling)
unfolding run_model
calling-runs = refl

calling_again-runs : start_call "bob" video alice after_call ≡ (ok tt, calling_again)
unfolding run_model
calling_again-runs = refl

online-IsTidy : IsTidy online.call
online-IsTidy = record { camera = tt; offered = tt }

after_call-IsTidy : IsTidy after_call.call
after_call-IsTidy = record { camera = tt; offered = tt }

calling-IsTidy : IsTidy calling.call
unfolding run_model
calling-IsTidy = record { camera = (refl, tt); offered = tt }

run-IsTidy_example :
    IsTidy
      (run
        (signal (offered "c1") ∷ signal (call_answer "id0" "sdp") ∷ hangs_up "bob" alice ∷ [])
        calling).call
run-IsTidy_example =
    run-IsTidy
      (signal (offered "c1") ∷ signal (call_answer "id0" "sdp") ∷ hangs_up "bob" alice ∷ []) calling
      calling-IsTidy

start_call-ok_example :
    (call_id : String) × (local : ℕ) × (calling.call.state ≡ outgoing_ringing call_id video local)
    × (calling.call.live_streams ≡ local ∷ [])
    × (calling.call.answer_timer ≡ some (record { contact_id = "bob"; call_id = call_id }))
    × (calling.call.idle_reset_timer ≡ online.call.idle_reset_timer)
    × IsTidy calling.call
start_call-ok_example = start_call-ok "bob" video alice online calling online-IsTidy calling-runs

idle_reset-strands_example :
    (local : ℕ) × ((on_idle_reset calling_again).1.call.state ≡ idle)
    × ((on_idle_reset calling_again).1.call.live_streams ≡ local ∷ [])
    × (hang_up "bob" alice (on_idle_reset calling_again).1
        ≡ (ok tt, (on_idle_reset calling_again).1))
idle_reset-strands_example =
    idle_reset-strands "bob" video alice after_call calling_again after_call-IsTidy refl
      calling_again-runs

another_call : ¬ (◌≡◌ {A = String} "c1" "c2")
another_call h = let bad : false ≡ true = ap (λ c. c == "c2") h in cc bad

stray_signal_example :
    (handle_call_signal (call_answer "c2" "sdp") ringing ≡ (ok tt, ringing))
    × (handle_call_signal (call_ice "c2" "sdp") ringing ≡ (ok tt, ringing))
    × (handle_call_signal (call_end "c2" hangup) ringing ≡ (ok tt, ringing))
unfolding run_model
stray_signal_example =
    stray_signal "c2" "sdp" hangup ringing (other_incoming "c1" voice another_call)
      (λ o h g. another_call (ap (λ q. (or_default q o).call_id) h ∙ g))

accept_call-ok_example :
    (local : ℕ) × (remote : Option ℕ) × (accepting.call.state ≡ connecting "c1" voice local remote)
    × (accepting.call.pending_offer ≡ none)
    × (accepting.call.live_streams ≡ local ∷ [])
    × IsTidy accepting.call
unfolding run_model
accept_call-ok_example =
    accept_call-ok "bob" "c1" voice alice ringing accepting ringing-IsTidy refl accepting-runs

-- "bob" has no device: the camera was opened, and the offer could not be sent.
abbrev unsent : World toy
unsent = (start_call "bob" video alice unreachable).1

unsent-runs :
    start_call "bob" video alice unreachable
    ≡ (err (thrown "this contact has no reachable devices"), unsent)
unfolding run_model
unsent-runs = refl

unsent-runs_camera : unsent.call.live_streams ≡ 0 ∷ []
unfolding run_model
unsent-runs_camera = refl

unreachable-IsTidy : IsTidy unreachable.call
unreachable-IsTidy = record { camera = tt; offered = tt }

start_call-err_example :
    (hang_up "bob" alice unsent ≡ (ok tt, unsent))
    × (unsent.call.state ≡ idle)
    × ((unsent.call.live_streams ≡ []) ⊎ ((local : ℕ) × (unsent.call.live_streams ≡ local ∷ [])))
start_call-err_example =
    start_call-err "bob" video alice unreachable unsent
      (thrown "this contact has no reachable devices") unreachable-IsTidy refl unsent-runs
