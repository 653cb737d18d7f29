-- ===== src/Group/Outside.antt =====
-- web/src/chat/group.ts: what signals of groups do to a roster that an account is not in.
use umbra_chat.Prelude.{
  ◌≡◌, ◌⊎◌, inl, inr, refl, ap, sym, ◌∙◌, arith, String, ◌==◌, eq_iff, true, false, Bool-cases,
  Option, none, some, List, includes,
}
use umbra_chat.Prelude.Dict.{lookup, insert, lookup-insert}
use umbra_chat.Message.{ChatMessage, Group}
use umbra_chat.Envelope.{GroupEnvelope, group_invite, group_update, group_text}
use umbra_chat.Platform.{Platform}
use umbra_chat.Exec.{ok, pure, modify}
use umbra_chat.Exec.Keeps.{Keeps, Keeps-bind, Keeps-bind_from, keeps_rules}
use umbra_chat.World.{World}
use umbra_chat.World.Frame.{IsQuiet, frame_rules}
use umbra_chat.Storage.{save_group, save_messages, load_group}
use umbra_chat.Storage.Frame.{load_group-Keeps, load_messages-Keeps}
use umbra_chat.Storage.Laws.{load_group-ok}
use umbra_chat.Conversation.Frame.{now_iso-Keeps}
use umbra_chat.Group.{accepts, update_roster, append_text, handle_group_signal}

-- A signal that does not put the account back into the group: an invite or an update of the group has a
-- roster without the account, unless it is an update that the account itself has sent.
abbrev pub IsHarmless : String → String → GroupEnvelope → String → Type 0
IsHarmless group_id member (group_invite id name roster) sender =
    id ≡ group_id → includes roster member ≡ false
IsHarmless group_id member (group_update id roster) sender =
    id ≡ group_id → (sender ≡ member) ⊎ (includes roster member ≡ false)
IsHarmless group_id member (group_text id message_id body) sender = Unit

-- Every group is stored under its own id, and the roster of this one is without the account.
pub record IsOut {P : Platform} (group_id member : String) (w : World P) : Type 0 where
  pub keyed : (k : String) (g : Group) → lookup k w.groups ≡ some g → g.id ≡ k
  pub out :
      (g : Group) → lookup group_id w.groups ≡ some g → includes g.member_account_ids member ≡ false

module _ {P : Platform} {group_id member : String} where
  IsOut-IsQuiet : IsQuiet (IsOut {P = P} group_id member)
  IsOut-IsQuiet = record {
    env = λ w e h. record { keyed = h.keyed; out = h.out };
    store = λ w s h. record { keyed = h.keyed; out = h.out };
    sessions = λ w s h. record { keyed = h.keyed; out = h.out };
    request = λ w r e h. record { keyed = h.keyed; out = h.out };
  }

  put_group-IsOut :
      (g : Group)
      → (g.id ≡ group_id → includes g.member_account_ids member ≡ false)
      → (w : World P) → IsOut group_id member w
      → IsOut group_id member (record w { groups = insert g.id g w.groups })
  put_group-IsOut g outside w h = record {
    keyed = λ k x e. ground (arith, lookup-insert g.id k g w.groups, h.keyed k x, eq_iff g.id k, e);
    out = λ x e. elim (Bool-cases (g.id == group_id)) [
      | inl same ↦
          let found : some g ≡ some x =
            rw same at (sym (lookup-insert g.id group_id g w.groups) ∙ e) in
          ground (arith, found, outside ((eq_iff g.id group_id).0 same))
      | inr other ↦ h.out x (rw other at (sym (lookup-insert g.id group_id g w.groups) ∙ e))
    ];
  }

  put_group-Keeps :
      (g : Group)
      → (g.id ≡ group_id → includes g.member_account_ids member ≡ false)
      → Keeps
          (IsOut {P = P} group_id member)
          (modify (λ w. record w { groups = insert g.id g w.groups }))
  unfolding modify
  put_group-Keeps g outside = record { at = put_group-IsOut g outside }

  save_group-Keeps :
      (g : Group)
      → (g.id ≡ group_id → includes g.member_account_ids member ≡ false)
      → Keeps (IsOut {P = P} group_id member) (save_group g)
  unfolding save_group
  save_group-Keeps g outside = search (frame_rules, IsOut-IsQuiet, put_group-Keeps)

  put_messages-Keeps :
      (id : String) (ms : List ChatMessage)
      → Keeps
          (IsOut {P = P} group_id member)
          (modify (λ w. record w { messages = insert id ms w.messages }))
  unfolding modify
  put_messages-Keeps id ms = record { at = λ w h. record { keyed = h.keyed; out = h.out } }

  save_messages-Keeps :
      (id : String) (ms : List ChatMessage)
      → Keeps (IsOut {P = P} group_id member) (save_messages id ms)
  unfolding save_messages
  save_messages-Keeps id ms = search (frame_rules, IsOut-IsQuiet, put_messages-Keeps)

  append_text-Keeps :
      (id message_id body sender : String) (o : Option Group)
      → Keeps (IsOut {P = P} group_id member) (append_text id message_id body sender o)
  unfolding append_text
  append_text-Keeps id message_id body sender none = search keeps_rules
  append_text-Keeps id message_id body sender (some g) =
      search (keeps_rules, IsOut-IsQuiet, load_messages-Keeps, now_iso-Keeps, save_messages-Keeps)

  -- An update is let through only from a sender in the stored roster, and so not from the account.
  update_roster-IsOut :
      (id sender : String) (roster : List String) (w : World P)
      → IsHarmless group_id member (group_update id roster) sender
      → IsOut group_id member w
      → (o : Option Group) → lookup id w.groups ≡ o
      → IsOut group_id member (update_roster roster (accepts o sender) w).1
  unfolding update_roster pure
  update_roster-IsOut id sender roster w harmless h none e = h
  update_roster-IsOut id sender roster w harmless h (some g) e =
      elim (Bool-cases (includes g.member_account_ids sender)) [
        | inl named ↦ rw named (save named)
        | inr refused ↦ rw refused h
      ]
    where
      unnamed :
          includes g.member_account_ids sender ≡ true
          → id ≡ group_id
          → includes roster member ≡ false
      unnamed named here = elim (harmless here) [
        | inl own ↦
            let absent = h.out g (ap (λ k. lookup k w.groups) (sym here) ∙ e) in
            let present = ap (λ a. includes g.member_account_ids a) (sym own) ∙ named in
            absurd (ground (arith, absent, present))
        | inr outside ↦ outside
      ]

      save :
          includes g.member_account_ids sender ≡ true
          → IsOut group_id member (save_group (record g { member_account_ids = roster }) w).1
      save named =
          (save_group-Keeps (record g { member_account_ids = roster })
              (λ same. unnamed named (sym (h.keyed id g e) ∙ same))).at
            w h

  pub handle_group_signal-IsOut :
      (e : GroupEnvelope) (sender : String)
      → IsHarmless group_id member e sender
      → Keeps (IsOut {P = P} group_id member) (handle_group_signal e sender)
  unfolding handle_group_signal
  handle_group_signal-IsOut (group_invite id name roster) sender harmless =
      Keeps-bind _ _ (now_iso-Keeps IsOut-IsQuiet) (λ created_at. save_group-Keeps _ harmless)
  handle_group_signal-IsOut (group_text id message_id body) sender harmless =
      search (keeps_rules, IsOut-IsQuiet, load_group-Keeps, append_text-Keeps)
  handle_group_signal-IsOut (group_update id roster) sender harmless = record {
    at = λ w h.
        Keeps-bind_from (IsOut group_id member) (load_group id)
          (λ g. update_roster roster (accepts g sender)) w (load_group-Keeps IsOut-IsQuiet id) h
          (λ g t e p.
            let (found, _) = load_group-ok id e (record { same = refl }) in
            update_roster-IsOut id sender roster t harmless p g (kept w t g e found));
  }
    where
      kept :
          (w t : World P) (g : Option Group)
          → load_group id w ≡ (ok g, t)
          → g ≡ lookup id w.groups
          → lookup id t.groups ≡ g
      kept w t g e found =
          let (_, p) = load_group-ok id e (record { same = refl }) in
          ap (λ d. lookup id d.groups) p.same ∙ sym found
