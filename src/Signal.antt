-- ===== src/Signal.antt =====
-- wasm-crypto/src/session.rs: the class `SignalStore`, over libsignal's functions; and
-- web/src/crypto/session.ts. A session is filed under its name; the device id is always 1.
pub mod Frame
pub mod Persistence
use umbra_chat.Prelude.{
  ℕ, String, Bool, true, false, Option, none, some, is_some, [], ◌∷◌, nat_eq, ◌<>◌, if◌then◌else◌,
}
use umbra_chat.Prelude.Decimal.{to_text}
use umbra_chat.Prelude.Dict.{lookup, insert}
use umbra_chat.Identity.{Bytes, ContactBundle, IdentityBundle}
use umbra_chat.Platform.{Platform}
use umbra_chat.Exec.{
  wasm_error, Result, ok, err, pure, throw, gets, lift, modify, on_option, when_some, ◌>>=◌, ◌>>◌,
}
use umbra_chat.World.{SignalStore, World, Io}
use umbra_chat.Storage.{load_session, save_session}

-- a call of libsignal on the session of a name: what it returns, the new key stores
abbrev Call : Platform → Type 0 → Type 0
Call P A = Option P.SessionRecord → P.KeyStores → P.Env → Result A × P.KeyStores × P.Env

module _ {P : Platform} where
  on_session : {A : Type 0} → String → Call P A → Io P A
  on_session name f w =
      let (r, keys, e) = f (lookup name w.store.session_store) w.store.keys w.env in
      (r, record w { env = e; store = record w.store { keys = keys } })

  -- `session_store.store_session(&remote, &record)`
  unfoldable pub store_session : String → P.SessionRecord → Io P Unit
  store_session name session = modify (λ w. record w {
    store = record w.store { session_store = insert name session w.store.session_store };
  })

  unfoldable pub has_session : String → Io P Bool
  has_session name = gets (λ w. is_some (lookup name w.store.session_store))

  unfoldable pub establish_session : String → ContactBundle → Io P Unit
  unfolding on_session
  establish_session name bundle = do
    session ← on_session name (P.process_prekey_bundle bundle)
    store_session name session

  unfoldable pub export_session : String → Io P (Option Bytes)
  export_session name = do
    session ← gets (λ w. lookup name w.store.session_store)
    on_option session (pure none)
        λ record'. do bytes ← lift (P.serialize record'); pure (some bytes)

  unfoldable pub import_session : String → Bytes → Io P Unit
  import_session name bytes = do session ← lift (P.deserialize bytes); store_session name session

  -- the message's type byte stands in front of it
  unfoldable pub encrypt : String → Bytes → Io P Bytes
  unfolding on_session
  encrypt name plaintext = do
    (type_byte, body, session) ← on_session name (P.message_encrypt plaintext)
    store_session name session
    pure (type_byte ∷ body)

  decrypt_as : String → Bool → Bytes → Io P Bytes
  unfolding on_session
  decrypt_as name is_prekey body = do
    (plaintext, session) ← on_session name (P.message_decrypt is_prekey body)
    store_session name session
    pure plaintext

  unfoldable pub decrypt : String → Bytes → Io P Bytes
  unfolding decrypt_as
  decrypt name [] = throw (wasm_error "empty envelope")
  decrypt name (type_byte ∷ body) =
      if nat_eq type_byte 2
      then decrypt_as name false body
      else if nat_eq type_byte 3
      then decrypt_as name true body
      else throw (wasm_error ("unknown message type byte: " <> to_text type_byte))

  -- `new SignalStore(identity)` takes the place of the store in use
  unfoldable pub open_store : IdentityBundle → Io P Unit
  open_store identity = do
    keys ← lift (P.new_key_stores identity)
    modify (λ w. record w { store = record { session_store = []; keys = keys } })

  unfoldable pub persist_session : String → Io P Unit
  persist_session key = do bytes ← export_session key; when_some bytes (save_session key)

  unfoldable pub restore_session : String → Io P Unit
  restore_session key = do
    loaded ← has_session key
    if loaded
        then pure tt
        else do session ← load_session key; when_some session (import_session key)
