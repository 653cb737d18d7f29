-- ===== src/Signal/Persistence.antt =====
-- A session outlives the store that it was loaded in.
use umbra_chat.Prelude.{◌≡◌, ap, sym, ◌∙◌, String, false, Option, some, is_some, []}
use umbra_chat.Prelude.Dict.{lookup, lookup-insert_self}
use umbra_chat.Identity.{Bytes, IdentityBundle}
use umbra_chat.Platform.{Platform}
use umbra_chat.Exec.{Result, ok, pure, gets, lift, modify, on_option, when_some}
use umbra_chat.Exec.Bind.{bind-ok, ok-injective}
use umbra_chat.World.{World, db_request}
use umbra_chat.Storage.{load_session, save_session}
use umbra_chat.Signal.{
  store_session, has_session, export_session, import_session, open_store, persist_session,
  restore_session,
}

module _ {P : Platform} where
  export_session-ok :
      (key : String) (s : P.SessionRecord) (w u : World P) (r : Option Bytes)
      → lookup key w.store.session_store ≡ some s
      → export_session key w ≡ (ok r, u)
      → (bytes : Bytes) × (P.serialize s ≡ ok bytes) × (r ≡ some bytes)
  unfolding export_session gets lift pure on_option
  export_session-ok key s w u r h e =
      let (session, u1, e1, k1) = bind-ok _ _ _ e in
      let found : session ≡ some s = sym (ok-injective e1) ∙ h in
      let (bytes, u2, e2, k2) = bind-ok _ _ _ (rw (found, on_option) at k1) in
      (bytes, ap (λ p. p.0) e2, sym (ok-injective k2))

  save_session-ok :
      (key : String) (bytes : Bytes) (w v : World P)
      → save_session key bytes w ≡ (ok tt, v)
      → lookup key v.sessions ≡ some bytes
  unfolding save_session modify
  save_session-ok key bytes w v e =
      let (_, u, _, k) = bind-ok _ _ _ e in
      ap (λ p. lookup key p.1.sessions) (sym k) ∙ lookup-insert_self key bytes u.sessions

  persist_session-ok :
      (key : String) (s : P.SessionRecord) (w v : World P)
      → lookup key w.store.session_store ≡ some s
      → persist_session key w ≡ (ok tt, v)
      → (bytes : Bytes) × (P.serialize s ≡ ok bytes) × (lookup key v.sessions ≡ some bytes)
  unfolding persist_session when_some
  persist_session-ok key s w v h e =
      let (r, u, e1, k1) = bind-ok _ _ _ e in
      let (bytes, serialized, found) = export_session-ok key s w u r h e1 in
      (bytes, serialized, save_session-ok key bytes u v (rw (found, when_some) at k1))

  open_store-ok :
      (identity : IdentityBundle) (w v : World P)
      → open_store identity w ≡ (ok tt, v)
      → (v.store.session_store ≡ []) × (v.sessions ≡ w.sessions)
  unfolding open_store lift modify
  open_store-ok identity w v e =
      let (keys, u, e1, k1) = bind-ok _ _ _ e in
      (
        ap (λ p. p.1.store.session_store) (sym k1),
        ap (λ p. p.1.sessions) (sym k1) ∙ ap (λ p. p.1.sessions) (sym e1),
      )

  import_session-ok :
      (key : String) (s : P.SessionRecord) (bytes : Bytes) (w v : World P)
      → P.deserialize bytes ≡ ok s
      → import_session key bytes w ≡ (ok tt, v)
      → lookup key v.store.session_store ≡ some s
  unfolding import_session store_session lift modify
  import_session-ok key s bytes w v h e =
      let (session, u, e1, k1) = bind-ok _ _ _ e in
      let same : ◌≡◌ {A = Result P.SessionRecord} (ok s) (ok session) = sym h ∙ ap (λ p. p.0) e1 in
      ap (λ p. lookup key p.1.store.session_store) (sym k1)
      ∙ lookup-insert_self key session u.store.session_store
      ∙ cc same

  load_session-ok :
      (key : String) (w v : World P) (r : Option Bytes)
      → load_session key w ≡ (ok r, v)
      → r ≡ lookup key w.sessions
  unfolding load_session db_request gets
  load_session-ok key w v r e =
      let (_, u, e1, k1) = bind-ok _ _ _ e in
      sym (ok-injective k1) ∙ ap (λ p. lookup key p.1.sessions) (sym e1)

  restore_session-ok :
      (key : String) (s : P.SessionRecord) (bytes : Bytes) (w v : World P)
      → w.store.session_store ≡ []
      → lookup key w.sessions ≡ some bytes
      → P.deserialize bytes ≡ ok s
      → restore_session key w ≡ (ok tt, v)
      → lookup key v.store.session_store ≡ some s
  unfolding restore_session has_session gets when_some lookup
  restore_session-ok key s bytes w v fresh filed back e =
      let (loaded, u, e1, k1) = bind-ok _ _ _ e in
      let absent : loaded ≡ false =
        sym (ok-injective e1) ∙ ap (λ d. is_some (lookup key d)) fresh in
      let (session, u2, e2, k2) = bind-ok _ _ _ (rw absent at k1) in
      let found : session ≡ some bytes =
        load_session-ok key u u2 session e2 ∙ ap (λ p. lookup key p.1.sessions) (sym e1) ∙ filed in
      import_session-ok key s bytes u2 v back (rw (found, when_some) at k2)

  -- A session that was persisted is found again, the same, by a store that is opened anew and
  -- restores it, provided that libsignal reads back the sessions that it has serialized.
  pub restore_session-persist_session :
      ((s : P.SessionRecord) (bytes : Bytes)
        → P.serialize s ≡ ok bytes
        → P.deserialize bytes ≡ ok s)
      → (key : String) (s : P.SessionRecord) (identity : IdentityBundle) (w v x y : World P)
      → lookup key w.store.session_store ≡ some s
      → persist_session key w ≡ (ok tt, v)
      → open_store identity v ≡ (ok tt, x)
      → restore_session key x ≡ (ok tt, y)
      → lookup key y.store.session_store ≡ some s
  restore_session-persist_session back key s identity w v x y loaded persisted opened restored =
      let (bytes, serialized, filed) = persist_session-ok key s w v loaded persisted in
      let (fresh, same) = open_store-ok identity v x opened in
      restore_session-ok key s bytes x y fresh (ap (lookup key) same ∙ filed)
        (back s bytes serialized) restored
