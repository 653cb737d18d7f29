-- ===== src/Group/Roster.antt =====
-- Rosters: who is let through, and what the stored groups are after each operation.
use umbra_chat.Prelude.{
  ◌≡◌, refl, ap, sym, ◌∙◌, arith, ℕ, String, ◌==◌, eq_iff, true, false, Option, none, some, List,
  [], ◌∷◌, ◌++◌, includes, inl, inr, Bool-cases,
}
use umbra_chat.Prelude.Dict.{lookup, insert, lookup-insert_self}
use umbra_chat.Message.{Direction, MessageStatus, ChatMessage, plain_message, Group}
use umbra_chat.Envelope.{group_invite, group_update, group_text}
use umbra_chat.Platform.{Platform}
use umbra_chat.Exec.{ok, pure, ◌>>=◌}
use umbra_chat.Exec.Bind.{bind-ok}
use umbra_chat.Exec.Keeps.{Keeps-bind_from, Keeps-step}
use umbra_chat.World.{World, Io}
use umbra_chat.World.Frame.{local_data, history, HasData, HasData-IsQuiet}
use umbra_chat.Storage.{load_group}
use umbra_chat.Storage.Frame.{load_group-Keeps}
use umbra_chat.Storage.Laws.{load_group-ok, save_group-ok, load_messages-ok, save_messages-ok}
use umbra_chat.Conversation.Frame.{now_iso-Keeps}
use umbra_chat.Group.{without, accepts, update_roster, append_text, handle_group_signal}

-- Nobody is left of whom a roster was filtered.
pub includes-without : (id : String) (ids : List String) → includes (without id ids) id ≡ false
includes-without id [] = refl
includes-without id (x ∷ ids) = ground (arith, includes-without id ids)

-- Everybody else is.
pub includes-without_ne :
    (id j : String) (ids : List String)
    → (j == id) ≡ false
    → includes (without id ids) j ≡ includes ids j
includes-without_ne id j [] h = refl
includes-without_ne id j (x ∷ ids) h =
    ground (arith, includes-without_ne id j ids h, eq_iff x id, eq_iff x j, eq_iff j id)

-- A group text as it is stored by the device that receives it.
abbrev pub group_message : String → String → String → ℕ → ChatMessage
group_message id body sender created_at =
    record (plain_message id Direction.received body MessageStatus.delivered created_at) {
      sender_account_id = some sender;
    }

pub accepts-listed :
    (sender : String) (o : Option Group) (g : Group)
    → o ≡ some g
    → includes g.member_account_ids sender ≡ true
    → accepts o sender ≡ some g
accepts-listed sender o g e h = rw (e, h)

module _ {P : Platform} where
  -- The group is stored, and its roster names the account.
  pub record IsMember (w : World P) (group_id account_id : String) : Type 0 where
    pub stored_group : Group
    pub is_stored : lookup group_id w.groups ≡ some stored_group
    pub is_named : includes stored_group.member_account_ids account_id ≡ true

  outsider-accepts :
      (group_id sender : String) (w : World P)
      → ¬ IsMember w group_id sender
      → (o : Option Group) → lookup group_id w.groups ≡ o
      → accepts o sender ≡ none
  outsider-accepts group_id sender w outside none h = refl
  outsider-accepts group_id sender w outside (some g) h =
      elim (Bool-cases (includes g.member_account_ids sender)) [
        | inl named ↦
            absurd (outside (record { stored_group = g; is_stored = h; is_named = named }))
        | inr unnamed ↦ rw unnamed refl
      ]

  pub accepts-outsider :
      (group_id sender : String) (w : World P)
      → accepts (lookup group_id w.groups) sender ≡ none
      → ¬ IsMember w group_id sender
  accepts-outsider group_id sender w closed m =
      let bad : none ≡ some m.stored_group =
        sym closed ∙ accepts-listed sender _ m.stored_group m.is_stored m.is_named in
      cc bad

  -- The branch behind a guard that lets the sender through only with the group.
  guarded :
      (group_id sender : String) (act : Option Group → Io P Unit) (w : World P)
      → ¬ IsMember w group_id sender
      → act none ≡ pure tt
      → local_data ((load_group group_id >>= λ g. act (accepts g sender)) w).1 ≡ local_data w
  unfolding pure
  guarded group_id sender act w outside idle =
      (Keeps-bind_from (HasData (local_data w)) (load_group group_id) (λ g. act (accepts g sender))
        w (load_group-Keeps (HasData-IsQuiet (local_data w)) group_id) (record { same = refl })
        (λ g t e p.
          let (found, _) = load_group-ok group_id e (record { same = refl }) in
          let closed : accepts g sender ≡ none =
            ap (λ o. accepts o sender) found ∙ outsider-accepts group_id sender w outside _ refl in
          rw (closed, idle) p)).same

  -- A group text or an update changes no local data, unless its group is stored with a roster that
  -- names the sender.
  pub handle_group_signal_outsider :
      (group_id id body sender : String) (roster : List String) (w : World P)
      → ¬ IsMember w group_id sender
      → (local_data (handle_group_signal (group_text group_id id body) sender w).1 ≡ local_data w)
        × (local_data (handle_group_signal (group_update group_id roster) sender w).1
            ≡ local_data w)
  unfolding handle_group_signal append_text update_roster
  handle_group_signal_outsider group_id id body sender roster w outside = (
    guarded group_id sender (append_text group_id id body sender) w outside refl,
    guarded group_id sender (update_roster roster) w outside refl,
  )

  -- An invite that is handled without an error stores its group with its roster, whoever sends it
  -- and whatever was stored under the id; nothing but the groups changes.
  pub handle_group_signal_invite :
      (group_id name sender : String) (roster : List String) (w v : World P)
      → handle_group_signal (group_invite group_id name roster) sender w ≡ (ok tt, v)
      → (created_at : ℕ) × (lookup group_id v.groups
          ≡ some (record {
            id = group_id;
            name = name;
            member_account_ids = roster;
            created_at = created_at;
          }))
        × (local_data v ≡ record (local_data w) { groups = v.groups })
  unfolding handle_group_signal
  handle_group_signal_invite group_id name sender roster w v h =
      let (created_at, u, e, k) = bind-ok _ _ _ h in
      let p =
        Keeps-step (now_iso-Keeps (HasData-IsQuiet {P = P} (local_data w))) e
          (record { same = refl }) in
      let q = save_group-ok _ k p in
      (
        created_at,
        ap (λ d. lookup group_id d.groups) q.same ∙ lookup-insert_self group_id _ w.groups,
        q.same ∙ ap (λ d. record (local_data w) { groups = d.groups }) (sym q.same),
      )

  -- A text from a sender in the stored roster, handled without an error, is appended to the
  -- group's history under the name of its sender; no other local data changes.
  pub handle_group_signal_text :
      (group_id id body sender : String) (g : Group) (w v : World P)
      → accepts (lookup group_id w.groups) sender ≡ some g
      → handle_group_signal (group_text group_id id body) sender w ≡ (ok tt, v)
      → (created_at : ℕ) × (local_data v ≡ record (local_data w) {
        messages =
            insert group_id
              (history w group_id ++ group_message id body sender created_at ∷ [])
              w.messages;
      })
  unfolding handle_group_signal append_text
  handle_group_signal_text group_id id body sender g w v inside h =
      let (found, u, e, k) = bind-ok _ _ _ h in
      let (loaded, p) = load_group-ok group_id e (record { same = refl }) in
      let opened : accepts found sender ≡ some g = ap (λ o. accepts o sender) loaded ∙ inside in
      let (messages, u1, e1, k1) = bind-ok _ _ _ (rw (opened, append_text) at k) in
      let (created_at, u2, e2, k2) = bind-ok _ _ _ k1 in
      let (stored, p1) = load_messages-ok group_id e1 p in
      let p2 = Keeps-step (now_iso-Keeps (HasData-IsQuiet {P = P} (local_data w))) e2 p1 in
      (
        created_at,
        (save_messages-ok group_id _ k2 p2).same
            ∙ ap
                (λ ms. record (local_data w) {
                  messages =
                      insert group_id (ms ++ group_message id body sender created_at ∷ [])
                        w.messages;
                })
                stored,
      )
