-- ===== src/Group/Lasting.antt =====
-- web/src/chat/group.ts: what a removal is worth while further signals of groups arrive.
use umbra_chat.Prelude.{
  ◌≡◌, ap, sym, ◌∙◌, arith, String, eq_iff, false, some, List, [], ◌∷◌, All, includes,
}
use umbra_chat.Prelude.Dict.{lookup, insert, lookup-insert, lookup-insert_self}
use umbra_chat.Identity.{LocalAccount}
use umbra_chat.Message.{Group}
use umbra_chat.Envelope.{GroupEnvelope, group_update, group_text}
use umbra_chat.Platform.{Platform}
use umbra_chat.Exec.{ok}
use umbra_chat.World.{World}
use umbra_chat.World.Frame.{local_data}
use umbra_chat.Group.{without, remove_member, handle_group_signal}
use umbra_chat.Group.Membership.{IsKeyed}
use umbra_chat.Group.Removal.{remove_member-ok}
use umbra_chat.Group.Roster.{includes-without, handle_group_signal_outsider}
use umbra_chat.Group.Outside.{IsHarmless, IsOut, handle_group_signal-IsOut}

module _ {P : Platform} where
  -- Signals of groups, one after the other, each with its sender; one that throws is given up.
  pub handle_all : List (GroupEnvelope × String) → World P → World P
  handle_all [] w = w
  handle_all ((e, sender) ∷ signals) w = handle_all signals (handle_group_signal e sender w).1

  handle_all-IsOut :
      (group_id member : String) (signals : List (GroupEnvelope × String))
      → All (λ s. IsHarmless group_id member s.0 s.1) signals
      → (w : World P) → IsOut group_id member w
      → IsOut group_id member (handle_all signals w)
  unfolding handle_all
  handle_all-IsOut group_id member [] harmless w h = h
  handle_all-IsOut group_id member ((e, sender) ∷ signals) (first, harmless) w h =
      handle_all-IsOut group_id member signals harmless _
        ((handle_group_signal-IsOut e sender first).at w h)

  remove_member-IsOut :
      (group_id member : String) (account : LocalAccount) (w v : World P) (updated : Group)
      → IsKeyed w
      → remove_member group_id member account w ≡ (ok updated, v)
      → IsOut group_id member v
  remove_member-IsOut group_id member account w v updated keyed h =
      let (g, found, made, same) = remove_member-ok group_id member account w v updated h in
      let key = keyed.at group_id g found in
      let groups = ap (λ d. d.groups) same ∙ ap (λ k. insert k updated w.groups) key in
      record {
        keyed =
            λ k x e. removed_keyed k x (ap (λ x. x.id) made ∙ key) (sym (ap (lookup k) groups) ∙ e);
        out = λ x e. removed_out g x made (sym (ap (lookup group_id) groups) ∙ e);
      }
    where
      removed_keyed :
          (k : String) (x : Group)
          → updated.id ≡ group_id
          → lookup k (insert group_id updated w.groups) ≡ some x
          → x.id ≡ k
      removed_keyed k x key e = ground (
        arith,
        lookup-insert group_id k updated w.groups,
        keyed.at k x,
        eq_iff group_id k,
        e,
        key,
      )

      removed_out :
          (g x : Group)
          → updated ≡ record g { member_account_ids = without member g.member_account_ids }
          → lookup group_id (insert group_id updated w.groups) ≡ some x
          → includes x.member_account_ids member ≡ false
      removed_out g x made e =
          let found : some updated ≡ some x =
            sym (lookup-insert_self group_id updated w.groups) ∙ e in
          ground (arith, found, made, includes-without member g.member_account_ids)

  -- After a removal that succeeded, where every group was stored under its own id, and after any further
  -- signals of groups, none of which puts the member back by an invite or by an update that somebody else
  -- has sent, a text or an update of the group from the member still changes no local data.
  pub removal_lasts :
      (group_id member id body : String) (roster : List String) (account : LocalAccount)
      (w v : World P) (updated : Group) (signals : List (GroupEnvelope × String))
      → IsKeyed w
      → remove_member group_id member account w ≡ (ok updated, v)
      → All (λ s. IsHarmless group_id member s.0 s.1) signals
      → (local_data
            (handle_group_signal (group_text group_id id body) member (handle_all signals v)).1
          ≡ local_data (handle_all signals v))
        × (local_data
              (handle_group_signal (group_update group_id roster) member (handle_all signals v)).1
            ≡ local_data (handle_all signals v))
  removal_lasts group_id member id body roster account w v updated signals keyed h harmless =
      let u = handle_all signals v in
      let after =
        handle_all-IsOut group_id member signals harmless v
          (remove_member-IsOut group_id member account w v updated keyed h) in
      handle_group_signal_outsider group_id id body member roster u
        (λ m. absurd (ground (arith, after.out m.stored_group m.is_stored, m.is_named)))
