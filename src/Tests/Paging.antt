-- ===== src/Tests/Paging.antt =====
-- The page, its screens, registering and safety numbers.
use umbra_chat.Conversation.{File, is_file_too_large}
use umbra_chat.Conversation.Limits.{
  json_array, base64_length, max_body_bytes, accepted_file-overflows,
}
use umbra_chat.Prelude.{
  zero, suc, ap, length, false, ◌<◌, ◌≡◌, inl, refl, ℕ, String, true, arith, none, some, List, [],
  ◌∷◌,
}
use umbra_chat.Prelude.Texts.{text_length, pad_start}
use umbra_chat.Identity.{Bytes, IdentityBundle}
use umbra_chat.Exec.{ok}
use umbra_chat.Storage.{load_all_groups}
use umbra_chat.Call.Data.{idle}
use umbra_chat.Registration.{register_account, complete_link}
use umbra_chat.Registration.Private.{public_half, register_account-private}
use umbra_chat.SafetyNumber.{compute_safety_number}
use umbra_chat.SafetyNumber.Shape.{compute_safety_number-prefix}
use umbra_chat.App.{
  identity_ready, identity_poll, conversation_poll, Interval, Ui, AppState, io, update, with_store,
  open_new_store,
}
use umbra_chat.App.Pages.{
  run_poll, begin_identity_ready, begin_conversation, after_first_poll, start_polling,
  enter_conversation,
}
use umbra_chat.App.Events.{PageEvent, mounts, creates, starts, sends, elapses, perform, perform_all}
use umbra_chat.App.Polling.{polls_of, is_conversation}
use umbra_chat.App.Intervals.{IsPolled, perform_all-IsPolled}
use umbra_chat.App.Leaked.{IsLeaked}
use umbra_chat.App.Race.{enter_conversation-leaks}
use umbra_chat.App.Flags.{flags_of, idle as not_busy}
use umbra_chat.App.Settled.{perform-settles}
use umbra_chat.Screens.Devices.{Devices}
use umbra_chat.Screens.Page.{render}
use umbra_chat.Screens.Offers.{AreInOrder}
use umbra_chat.Screens.InOrder.{render-AreInOrder}
use umbra_chat.Tests.{toy, alice, alice_identity, online, phone, team, run_model}

-- The page as it is loaded, in a browser where "alice" has an account.
abbrev loaded : AppState toy
loaded = record { ui = umbra_chat.App.initial; stores = []; world = online }

abbrev events : List PageEvent
events = mounts ∷ starts "bob" ∷ sends "hello" ∷ elapses 1 ∷ elapses 2 ∷ creates ∷ []

perform_all-IsPolled_example : IsPolled (polls_of (perform_all events loaded).ui)
perform_all-IsPolled_example = perform_all-IsPolled events loaded (inl refl)

-- Unfolding this runs the page.
unfoldable run_page : Unit {0}
unfolding run_model io update with_store open_new_store run_poll begin_identity_ready
    begin_conversation after_first_poll start_polling enter_conversation compute_safety_number
    load_all_groups pad_start
run_page = tt

abbrev entering : AppState toy
entering = (begin_identity_ready alice loaded).1

abbrev talking : AppState toy
talking = (enter_conversation alice "bob" entering).1

abbrev polled : AppState toy
polled = (start_polling (identity_poll alice 0) talking).1

entering-runs : begin_identity_ready alice loaded ≡ (ok (identity_poll alice 0), entering)
unfolding run_page
entering-runs = refl

talking-runs : enter_conversation alice "bob" entering ≡ (ok tt, talking)
unfolding run_page
talking-runs = refl

polled-runs : start_polling (identity_poll alice 0) talking ≡ (ok tt, polled)
unfolding run_page
polled-runs = refl

enter_conversation-leaks_example :
    (i : Interval) × (is_conversation i.task ≡ true)
    × IsLeaked i (polls_of (perform_all events polled).ui)
enter_conversation-leaks_example =
    enter_conversation-leaks alice "bob" 0 events loaded entering talking polled (inl refl)
      entering-runs talking-runs polled-runs

-- "alice" asks for a conversation with "bob".
abbrev ready : AppState toy
ready = record loaded {
  ui = record umbra_chat.App.initial { status = identity_ready alice "00000" (team ∷ []) };
}

perform-settles_example :
    ((perform (starts "bob") ready).0 ≡ ok tt)
    × (flags_of (perform (starts "bob") ready).1.ui ≡ not_busy)
perform-settles_example = perform-settles (starts "bob") ready refl refl

abbrev other_keys : IdentityBundle
other_keys = record alice_identity { identity_private_key = 6 ∷ [] }

register_account-private_example :
    (register_account alice_identity online ≡ register_account other_keys online)
    × (complete_link "alice" "123456" "Laptop" alice_identity online
        ≡ complete_link "alice" "123456" "Laptop" other_keys online)
unfolding public_half
register_account-private_example =
    register_account-private alice_identity other_keys "alice" "123456" "Laptop" online refl

abbrev ten : Bytes
ten = 0 ∷ 1 ∷ 2 ∷ 3 ∷ 10 ∷ 20 ∷ 100 ∷ 200 ∷ 254 ∷ 255 ∷ []

abbrev key_of : ℕ → Bytes
key_of last = 0 ∷ 1 ∷ 2 ∷ 3 ∷ 10 ∷ 20 ∷ 100 ∷ 200 ∷ 254 ∷ 255 ∷ last ∷ []

compute_safety_number-prefix_example :
    (number : String) × (compute_safety_number (key_of 7) online ≡ (ok number, online))
    × (compute_safety_number (key_of 8) online ≡ (ok number, online))
    × (text_length number ≡ 35)
compute_safety_number-prefix_example =
    compute_safety_number-prefix (key_of 7) (key_of 8) ten (7 ∷ []) (8 ∷ []) online
      (
        omega arith,
        (
          omega arith,
          (
            omega arith,
            (
              omega arith,
              (
                omega arith,
                (omega arith, (omega arith, (omega arith, (omega arith, (omega arith, tt))))),
              ),
            ),
          ),
        ),
      )
      refl refl refl

abbrev listed : Devices
listed = record { devices = phone ∷ []; code = some "123456"; error = none }

render-AreInOrder_example :
    AreInOrder ready.ui idle (render ready.ui idle listed umbra_chat.Screens.initial)
render-AreInOrder_example = render-AreInOrder ready.ui idle listed umbra_chat.Screens.initial

zeros : ℕ → Bytes
zeros zero = []
zeros (suc n) = 0 ∷ zeros n

length-zeros : (n : ℕ) → length (zeros n) ≡ n
unfolding zeros
length-zeros zero = refl
length-zeros (suc n) = ap suc (length-zeros n)

-- A file of 5 MiB.
abbrev recording : File
recording = record {
  name = "recording";
  mime_type = "audio/ogg";
  size = 5242880;
  bytes = zeros 5242880;
}

accepted_file-overflows_example :
    (is_file_too_large recording ≡ false)
    × (max_body_bytes < base64_length (text_length (json_array recording.bytes)))
accepted_file-overflows_example =
    accepted_file-overflows recording (length-zeros 5242880) (omega arith) (omega arith)
