-- ===== src/Signal/Frame.antt =====
-- The session functions change the sessions and the environment alone.
use umbra_chat.Prelude.{String, Bool, [], ◌∷◌}
use umbra_chat.Identity.{Bytes, ContactBundle}
use umbra_chat.Platform.{Platform}
use umbra_chat.Exec.{modify}
use umbra_chat.Exec.Keeps.{Keeps}
use umbra_chat.World.{World}
use umbra_chat.World.Frame.{IsQuiet, frame_rules}
use umbra_chat.Storage.Frame.{load_session-Keeps, save_session-Keeps}
use umbra_chat.Signal.{
  Call, on_session, store_session, has_session, establish_session, export_session, import_session,
  encrypt, decrypt_as, decrypt, persist_session, restore_session,
}

module _ {P : Platform} {Q : World P → Type 0} (quiet : IsQuiet Q) where
  on_session-Keeps : {A : Type 0} (name : String) (f : Call P A) → Keeps Q (on_session name f)
  unfolding on_session
  on_session-Keeps name f = record { at = λ w h. quiet.store _ _ (quiet.env w _ h) }

  store_session-Keeps : (name : String) (s : P.SessionRecord) → Keeps Q (store_session name s)
  unfolding store_session modify
  store_session-Keeps name s = record { at = λ w h. quiet.store w _ h }

  pub has_session-Keeps : (name : String) → Keeps Q (has_session name)
  unfolding has_session
  has_session-Keeps name = search frame_rules

  pub establish_session-Keeps :
      (name : String) (bundle : ContactBundle) → Keeps Q (establish_session name bundle)
  unfolding establish_session
  establish_session-Keeps name bundle = search (frame_rules, on_session-Keeps, store_session-Keeps)

  pub encrypt-Keeps : (name : String) (plaintext : Bytes) → Keeps Q (encrypt name plaintext)
  unfolding encrypt
  encrypt-Keeps name plaintext = search (frame_rules, on_session-Keeps, store_session-Keeps)

  decrypt_as-Keeps : (name : String) (b : Bool) (body : Bytes) → Keeps Q (decrypt_as name b body)
  unfolding decrypt_as
  decrypt_as-Keeps name b body = search (frame_rules, on_session-Keeps, store_session-Keeps)

  pub decrypt-Keeps : (name : String) (envelope : Bytes) → Keeps Q (decrypt name envelope)
  unfolding decrypt
  decrypt-Keeps name [] = search frame_rules
  decrypt-Keeps name (type_byte ∷ body) = search (frame_rules, decrypt_as-Keeps)

  pub persist_session-Keeps : (key : String) → Keeps Q (persist_session key)
  unfolding persist_session export_session
  persist_session-Keeps key = search (frame_rules, save_session-Keeps)

  import_session-Keeps : (key : String) (bytes : Bytes) → Keeps Q (import_session key bytes)
  unfolding import_session
  import_session-Keeps key bytes = search (frame_rules, store_session-Keeps)

  pub restore_session-Keeps : (key : String) → Keeps Q (restore_session key)
  unfolding restore_session
  restore_session-Keeps key =
      search (frame_rules, has_session-Keeps, load_session-Keeps, import_session-Keeps) depth 8

pub ruleset signal_rules = (
  frame_rules, has_session-Keeps, establish_session-Keeps, encrypt-Keeps, decrypt-Keeps,
  persist_session-Keeps, restore_session-Keeps,
)
