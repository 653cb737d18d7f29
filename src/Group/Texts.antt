-- ===== src/Group/Texts.antt =====
-- `sendGroupText`.
use mathlib.Core.Path.{subst}
use umbra_chat.Prelude.{◌≡◌, refl, sym, ◌∙◌, arith, ℕ, String, some, List, [], ◌∷◌, ◌++◌}
use umbra_chat.Prelude.Dict.{lookup, insert}
use umbra_chat.Identity.{LocalAccount}
use umbra_chat.Message.{Direction, ChatMessage, MessageStatus, Group, plain_message}
use umbra_chat.Platform.{Platform}
use umbra_chat.Exec.{ok, pure}
use umbra_chat.Exec.Bind.{bind-ok}
use umbra_chat.Exec.Keeps.{Keeps-step}
use umbra_chat.World.{World}
use umbra_chat.World.Frame.{
  local_data, history, HasData, HasData-IsQuiet, HasData-IsDeaf, random_uuid-Keeps,
}
use umbra_chat.Storage.Laws.{load_group-ok, load_messages-ok, save_messages-ok}
use umbra_chat.Conversation.Frame.{now_iso-Keeps}
use umbra_chat.Group.{send_group_text}
use umbra_chat.Group.Membership.{fan_out-Keeps}
use umbra_chat.Group.Removal.{known-ok}

module _ {P : Platform} where
  -- A group text that was sent belongs to a stored group and stands at the end of its history; nothing
  -- else of the local data has changed.
  pub send_group_text-ok :
      (group_id text : String) (account : LocalAccount) (w v : World P) (ms : List ChatMessage)
      → send_group_text group_id text account w ≡ (ok ms, v)
      → (g : Group) × (id : String) × (created_at : ℕ) × (lookup group_id w.groups ≡ some g)
        × (ms
            ≡ history w group_id
              ++ plain_message id Direction.sent text MessageStatus.sent created_at ∷ [])
        × (local_data v ≡ record (local_data w) { messages = insert group_id ms w.messages })
  unfolding send_group_text pure
  send_group_text-ok group_id text account w v ms h =
      let d = local_data w in
      let quiet = HasData-IsQuiet {P = P} d in
      let (found, u1, e1, k1) = bind-ok _ _ _ h in
      let (g, u2, e2, k2) = bind-ok _ _ _ k1 in
      let (id, u3, e3, k3) = bind-ok _ _ _ k2 in
      let (_, u4, e4, k4) = bind-ok _ _ _ k3 in
      let (messages, u5, e5, k5) = bind-ok _ _ _ k4 in
      let (created_at, u6, e6, k6) = bind-ok _ _ _ k5 in
      let (_, u7, e7, k7) = bind-ok _ _ _ k6 in
      let (loaded, p1) = load_group-ok group_id e1 (record { same = refl }) in
      let (is_known, stay) = known-ok found g u1 u2 e2 in
      let p3 = Keeps-step (random_uuid-Keeps quiet) e3 (subst (HasData d) stay p1) in
      let p4 = Keeps-step (fan_out-Keeps quiet (HasData-IsDeaf d) _ _ account) e4 p3 in
      let (read, p5) = load_messages-ok group_id e5 p4 in
      let p6 = Keeps-step (now_iso-Keeps quiet) e6 p5 in
      let p7 = save_messages-ok group_id _ e7 p6 in
      (
        g,
        id,
        created_at,
        sym loaded ∙ is_known,
        ground (arith, k7, read),
        ground (arith, k7, p7.same),
      )
