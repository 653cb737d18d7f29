-- ===== src/Storage/Frame.antt =====
-- Loads change nothing but the environment, and saved sessions are no local data.
use umbra_chat.Prelude.{String}
use umbra_chat.Prelude.Dict.{insert}
use umbra_chat.Identity.{Bytes}
use umbra_chat.Platform.{Platform}
use umbra_chat.Exec.{modify}
use umbra_chat.Exec.Keeps.{Keeps}
use umbra_chat.World.{World}
use umbra_chat.World.Frame.{IsQuiet, frame_rules}
use umbra_chat.Storage.{load_messages, load_group, load_session, save_session}

module _ {P : Platform} {Q : World P → Type 0} (quiet : IsQuiet Q) where
  pub load_messages-Keeps : (id : String) → Keeps Q (load_messages id)
  unfolding load_messages
  load_messages-Keeps id = search frame_rules

  pub load_group-Keeps : (id : String) → Keeps Q (load_group id)
  unfolding load_group
  load_group-Keeps id = search frame_rules

  pub load_session-Keeps : (key : String) → Keeps Q (load_session key)
  unfolding load_session
  load_session-Keeps key = search frame_rules

  put_session-Keeps :
      (key : String) (bytes : Bytes)
      → Keeps Q (modify (λ w. record w { sessions = insert key bytes w.sessions }))
  unfolding modify
  put_session-Keeps key bytes = record {
    at = λ w h. quiet.sessions w (insert key bytes w.sessions) h;
  }

  pub save_session-Keeps : (key : String) (bytes : Bytes) → Keeps Q (save_session key bytes)
  unfolding save_session
  save_session-Keeps key bytes = search (frame_rules, put_session-Keeps)
