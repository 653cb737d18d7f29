-- ===== src/Group/Removal.antt =====
-- Creating a group, removing a member of it, and what a removed member can still do.
use mathlib.Core.Path.{subst}
use umbra_chat.Prelude.{
  ℕ, ◌≡◌, refl, ap, sym, ◌∙◌, arith, String, or_default, true, Option, none, some, List, [], ◌∷◌,
  ◌++◌, includes,
}
use umbra_chat.Prelude.Dict.{lookup, insert, lookup-insert_self}
use umbra_chat.Identity.{LocalAccount}
use umbra_chat.Message.{Group}
use umbra_chat.Envelope.{group_invite, group_text}
use umbra_chat.Platform.{Platform}
use umbra_chat.Exec.{ok, pure, throw}
use umbra_chat.Exec.Bind.{bind-ok, ok-injective}
use umbra_chat.Exec.Keeps.{Keeps-step}
use umbra_chat.World.{World}
use umbra_chat.World.Frame.{
  local_data, history, history_of, HasData, HasData-IsQuiet, HasData-IsDeaf, random_uuid-Keeps,
}
use umbra_chat.Storage.Laws.{load_group-ok, save_group-ok}
use umbra_chat.Conversation.Frame.{now_iso-Keeps}
use umbra_chat.Group.{without, known, create_group, remove_member, handle_group_signal}
use umbra_chat.Group.Roster.{
  group_message, accepts-listed, handle_group_signal_invite, handle_group_signal_text,
}
use umbra_chat.Group.Membership.{fan_out-Keeps}

module _ {P : Platform} where
  -- A group that was created is stored with the full roster, the creator first, under the id that
  -- is returned; no history, timer or account changes.
  pub create_group-ok :
      (name : String) (others : List String) (account : LocalAccount) (w v : World P)
      (group_id : String)
      → create_group name others account w ≡ (ok group_id, v)
      → (g : Group) × (local_data v ≡ record (local_data w) { groups = insert group_id g w.groups })
        × (g.id ≡ group_id)
        × (g.name ≡ name)
        × (g.member_account_ids ≡ account.account_id ∷ others)
  unfolding create_group pure
  create_group-ok name others account w v group_id h =
      let (id, u1, e1, k1) = bind-ok _ _ _ h in
      let (created_at, u2, e2, k2) = bind-ok _ _ _ k1 in
      let (_, u3, e3, k3) = bind-ok _ _ _ k2 in
      let (_, u4, e4, k4) = bind-ok _ _ _ k3 in
      let p2 = Keeps-step (now_iso-Keeps (HasData-IsQuiet {P = P} (local_data w))) e2 (
        Keeps-step (random_uuid-Keeps (HasData-IsQuiet (local_data w))) e1
          (record { same = refl })) in
      let p3 = save_group-ok _ e3 p2 in
      let p4 =
        Keeps-step (fan_out-Keeps (HasData-IsQuiet _) (HasData-IsDeaf _) others _ account) e4 p3 in
      let same = ok-injective k4 in
      (
        record {
          id = group_id;
          name = name;
          member_account_ids = account.account_id ∷ others;
          created_at = created_at;
        },
        ground (arith, k4, p4.same),
        refl,
        refl,
        refl,
      )

  pub known-ok :
      (o : Option Group) (g : Group) (w v : World P)
      → known o w ≡ (ok g, v)
      → (o ≡ some g) × (w ≡ v)
  unfolding known pure throw
  known-ok none g w v h = cc
  known-ok (some g') g w v h = (cc, cc)

  -- A removal that succeeds found the group stored, stores it without the member, and returns that
  -- group; nothing else of the local data changes.
  pub remove_member-ok :
      (group_id member : String) (account : LocalAccount) (w v : World P) (updated : Group)
      → remove_member group_id member account w ≡ (ok updated, v)
      → (g : Group) × (lookup group_id w.groups ≡ some g)
        × (updated ≡ record g { member_account_ids = without member g.member_account_ids })
        × (local_data v ≡ record (local_data w) { groups = insert g.id updated w.groups })
  unfolding remove_member pure
  remove_member-ok group_id member account w v updated h =
      let (found, u1, e1, k1) = bind-ok _ _ _ h in
      let (g, u2, e2, k2) = bind-ok _ _ _ k1 in
      let (_, u3, e3, k3) = bind-ok _ _ _ k2 in
      let (_, u4, e4, k4) = bind-ok _ _ _ k3 in
      let (loaded, p1) = load_group-ok group_id e1 (record { same = refl }) in
      let (is_known, stay) = known-ok found g u1 u2 e2 in
      let p3 = save_group-ok _ e3 (subst (HasData (local_data w)) stay p1) in
      let p4 =
        Keeps-step (fan_out-Keeps (HasData-IsQuiet _) (HasData-IsDeaf _) _ _ account) e4 p3 in
      (g, sym loaded ∙ is_known, sym (ok-injective k4), ground (arith, k4, p4.same))

  -- Whoever sends an invite with a roster that lists the sender, and then a text, both handled
  -- without an error, has the text appended to the history that is stored under the invite's id:
  -- the roster that was stored before is not asked.
  pub invite_readmits :
      (group_id name sender id body : String) (roster : List String) (w v x : World P)
      → includes roster sender ≡ true
      → handle_group_signal (group_invite group_id name roster) sender w ≡ (ok tt, v)
      → handle_group_signal (group_text group_id id body) sender v ≡ (ok tt, x)
      → (created_at : ℕ) × (history x group_id
          ≡ history w group_id ++ group_message id body sender created_at ∷ [])
  invite_readmits group_id name sender id body roster w v x listed invited sent =
      let (created, stored, same) =
        handle_group_signal_invite group_id name sender roster w v invited in
      let admitted = accepts-listed sender _ _ stored listed in
      let (created_at, after) =
        handle_group_signal_text group_id id body sender _ v x admitted sent in
      (
        created_at,
        ap (λ d. history_of d group_id) after
            ∙ ap (λ o. or_default o []) (lookup-insert_self group_id _ v.messages)
            ∙ ap (λ d. history_of d group_id ++ group_message id body sender created_at ∷ []) same,
      )
