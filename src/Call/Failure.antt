-- ===== src/Call/Failure.antt =====
-- web/src/chat/call.ts: a `startCall` that throws.
use umbra_chat.Prelude.{
  ◌≡◌, refl, ap, sym, ◌∙◌, ◌⊎◌, inl, inr, arith, ℕ, String, some, List, [], ◌∷◌,
}
use umbra_chat.Identity.{LocalAccount}
use umbra_chat.Envelope.{CallKind, call_offer}
use umbra_chat.Platform.{Platform}
use umbra_chat.Exec.{Error, ok, err, pure, gets, modify, ◌>>=◌, ◌>>◌}
use umbra_chat.Exec.Atomic.{IsAtomic, atomic_rules}
use umbra_chat.Exec.Bind.{bind-ok, bind-err}
use umbra_chat.Exec.Keeps.{Keeps, Keeps-step}
use umbra_chat.World.{World}
use umbra_chat.World.Frame.{random_uuid-Keeps}
use umbra_chat.Call.Data.{
  idle, outgoing_ringing, CallMachine, local_stream, create_offer, set_local_description,
}
use umbra_chat.Conversation.{send_call_signal}
use umbra_chat.Call.{
  cleanup, change, machine, rtc, set_state, open_stream, new_peer_connection, start_call, hang_up,
  hang_up_from,
}
use umbra_chat.Call.Invariant.{IsTidy, stop-All}
use umbra_chat.Call.Safety.{
  HasCall, HasCall-IsQuiet, rtc-Keeps, send_call_signal-Keeps, machine-Keeps, change-Keeps,
}

-- The machine is idle, and these streams run.
record IdlesWith (live : List ℕ) (m : CallMachine) : Type 0 where
  streams : m.live_streams ≡ live
  state : m.state ≡ idle

module _ {P : Platform} where
  change-IsAtomic :
      {Q : World P → Type 0} (f : CallMachine → CallMachine) → IsAtomic Q (change {P = P} f)
  unfolding change modify
  change-IsAtomic f = record { at = λ s t e h q. cc }

  cleanup-IdlesWith :
      (w u : World P)
      → IsTidy w.call
      → w.call.state ≡ idle
      → change cleanup w ≡ (ok tt, u)
      → HasCall (IdlesWith []) u
  unfolding change modify cleanup
  cleanup-IdlesWith w u h quiet e = record {
    holds = record {
      streams =
          ap (λ p. p.1.call.live_streams) (sym e)
          ∙ stop-All (local_stream w.call.state) w.call.live_streams h.camera;
      state = ap (λ p. p.1.call.state) (sym e) ∙ quiet;
    };
  }

  open_stream-IdlesWith :
      (kind : CallKind) (w u : World P) (local : ℕ)
      → HasCall (IdlesWith []) w
      → open_stream kind w ≡ (ok local, u)
      → HasCall (IdlesWith (local ∷ [])) u
  unfolding open_stream machine gets change modify pure
  open_stream-IdlesWith kind w u local h e =
      let (_, u1, e1, k1) = bind-ok _ _ _ e in
      let (m, u2, e2, k2) = bind-ok _ _ _ k1 in
      let (_, u3, e3, k3) = bind-ok _ _ _ k2 in
      let p1 = Keeps-step (rtc-Keeps _) e1 h in
      record {
        holds = record {
          streams = ground (arith, e2, e3, k3, p1.holds.streams);
          state = ground (arith, e2, e3, k3, p1.holds.state);
        };
      }

  open_stream-IsAtomic :
      {Q : CallMachine → Type 0} (kind : CallKind) → IsAtomic (HasCall Q) (open_stream {P = P} kind)
  unfolding open_stream
  open_stream-IsAtomic kind =
      search (atomic_rules, rtc-Keeps, machine-Keeps, change-IsAtomic) depth 8

  new_peer_connection-Keeps :
      {live : List ℕ} (contact_id call_id : String) (kind : CallKind)
      → Keeps (HasCall (IdlesWith live)) (new_peer_connection {P = P} contact_id call_id kind)
  unfolding new_peer_connection
  new_peer_connection-Keeps contact_id call_id kind =
      change-Keeps _ (λ m h. record { streams = h.streams; state = h.state })

  change-throws :
      (f : CallMachine → CallMachine) (w v : World P) (e : Error) → change f w ≡ (err e, v) → ⊥
  unfolding change modify
  change-throws f w v e h = cc

  -- What `startCall` does once it has its stream.
  placing-IsAtomic :
      {live : List ℕ} (contact_id call_id : String) (kind : CallKind) (local : ℕ)
      (account : LocalAccount)
      → IsAtomic (HasCall (IdlesWith live)) (do
        new_peer_connection {P = P} contact_id call_id kind
        offer ← rtc create_offer
        rtc (set_local_description offer)
        send_call_signal contact_id (call_offer call_id kind offer) account
        change (λ m. record (set_state (outgoing_ringing call_id kind local) m) {
          answer_timer = some (record { contact_id = contact_id; call_id = call_id });
        }))
  placing-IsAtomic contact_id call_id kind local account =
      search
        (
          atomic_rules, rtc-Keeps, send_call_signal-Keeps, new_peer_connection-Keeps,
          change-IsAtomic,
        )
        depth 12

  started-err :
      (contact_id : String) (kind : CallKind) (account : LocalAccount) (w v : World P) (e : Error)
      → IsTidy w.call
      → w.call.state ≡ idle
      → start_call contact_id kind account w ≡ (err e, v)
      → HasCall (IdlesWith []) v ⊎ ((local : ℕ) × HasCall (IdlesWith (local ∷ [])) v)
  unfolding start_call
  started-err contact_id kind account w v e tidy quiet h = elim (bind-err _ _ _ h) [
    | inl thrown ↦ absurd (change-throws cleanup w v e thrown)
    | inr (_, u1, e1, h1) ↦ elim (bind-err _ _ _ h1) [
      | inl thrown ↦ inl (
          Keeps-step (random_uuid-Keeps HasCall-IsQuiet) thrown
            (cleanup-IdlesWith w u1 tidy quiet e1))
      | inr (call_id, u2, e2, h2) ↦
          let p2 =
            Keeps-step (random_uuid-Keeps HasCall-IsQuiet) e2
              (cleanup-IdlesWith w u1 tidy quiet e1) in
          elim (bind-err _ _ _ h2) [
            | inl thrown ↦ inl ((open_stream-IsAtomic kind).at u2 v e thrown p2)
            | inr (local, u3, e3, h3) ↦ inr (
              local,
              (placing-IsAtomic contact_id call_id kind local account).at u3 v e h3
                  (open_stream-IdlesWith kind u2 u3 local p2 e3),
            )
          ]
    ]
  ]

  hang_up-idle :
      (contact_id : String) (account : LocalAccount) (v : World P)
      → v.call.state ≡ idle
      → hang_up contact_id account v ≡ (ok tt, v)
  unfolding hang_up hang_up_from machine gets pure ◌>>=◌
  hang_up-idle contact_id account v h = rw h refl

  -- A `startCall` from an idle and tidy machine that throws leaves the machine idle, and hanging up
  -- then does nothing; and either no stream runs, or a single one does.
  pub start_call-err :
      (contact_id : String) (kind : CallKind) (account : LocalAccount) (w v : World P) (e : Error)
      → IsTidy w.call
      → w.call.state ≡ idle
      → start_call contact_id kind account w ≡ (err e, v)
      → (hang_up contact_id account v ≡ (ok tt, v))
        × (v.call.state ≡ idle)
        × ((v.call.live_streams ≡ []) ⊎ ((local : ℕ) × (v.call.live_streams ≡ local ∷ [])))
  start_call-err contact_id kind account w v e tidy quiet h =
      elim (started-err contact_id kind account w v e tidy quiet h) [
        | inl p ↦
            (hang_up-idle contact_id account v p.holds.state, p.holds.state, inl p.holds.streams)
        | inr (local, p) ↦ (
          hang_up-idle contact_id account v p.holds.state,
          p.holds.state,
          inr (local, p.holds.streams),
        )
      ]
