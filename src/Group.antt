-- ===== src/Group.antt =====
-- web/src/chat/group.ts: groups by fan-out to the members of a stored roster.
pub mod Grown
pub mod Lasting
pub mod Membership
pub mod Outside
pub mod Removal
pub mod Roster
pub mod Texts
use umbra_chat.Prelude.{
  String, ◌==◌, not, Option, none, some, List, [], ◌∷◌, ◌++◌, filter, includes, if◌then◌else◌,
}
use umbra_chat.Identity.{LocalAccount}
use umbra_chat.Message.{Direction, ChatMessage, MessageStatus, plain_message, Group}
use umbra_chat.Envelope.{GroupEnvelope, group_invite, group_update, group_text, group}
use umbra_chat.Platform.{Platform}
use umbra_chat.Exec.{thrown, pure, throw, for_each, ◌>>=◌, ◌>>◌}
use umbra_chat.World.{Io, random_uuid}
use umbra_chat.Storage.{load_group, save_group, load_messages, save_messages}
use umbra_chat.Conversation.{send_envelope, now_iso}

-- `ids.filter((id) => id !== accountId)`
abbrev pub without : String → List String → List String
without account_id ids = filter (λ id. not (id == account_id)) ids

unfoldable pub other_members : Group → LocalAccount → List String
other_members g account = without account.account_id g.member_account_ids

-- `!group || !group.memberAccountIds.includes(senderAccountId)` is its negation
abbrev pub accepts : Option Group → String → Option Group
accepts none sender = none
accepts (some g) sender = if includes g.member_account_ids sender then some g else none

module _ {P : Platform} where
  -- `if (!group) throw new Error("unknown group")`
  pub known : Option Group → Io P Group
  known none = throw (thrown "unknown group")
  known (some g) = pure g

  -- one `sendToContact` of the same plaintext for each member, in the order of the list
  unfoldable pub fan_out : List String → GroupEnvelope → LocalAccount → Io P Unit
  fan_out ids envelope account = for_each ids (λ id. send_envelope id (group envelope) account)

  unfoldable pub create_group : String → List String → LocalAccount → Io P String
  unfolding fan_out
  create_group name other_member_account_ids account = do
    group_id ← random_uuid
    let member_account_ids = account.account_id ∷ other_member_account_ids
    created_at ← now_iso
    save_group (record {
      id = group_id;
      name = name;
      member_account_ids = member_account_ids;
      created_at = created_at;
    })
    fan_out other_member_account_ids (group_invite group_id name member_account_ids) account
    pure group_id

  unfoldable pub send_group_text : String → String → LocalAccount → Io P (List ChatMessage)
  unfolding fan_out known other_members
  send_group_text group_id text account = do
    found ← load_group group_id
    g ← known found
    id ← random_uuid
    fan_out (other_members g account) (group_text group_id id text) account
    messages ← load_messages group_id
    created_at ← now_iso
    let message = plain_message id Direction.sent text MessageStatus.sent created_at
    let messages' = messages ++ (message ∷ [])
    save_messages group_id messages'
    pure messages'

  unfoldable pub remove_member : String → String → LocalAccount → Io P Group
  unfolding fan_out known other_members
  remove_member group_id member_account_id account = do
    found ← load_group group_id
    g ← known found
    let updated = record g { member_account_ids = without member_account_id g.member_account_ids }
    save_group updated
    fan_out (other_members updated account) (group_update group_id updated.member_account_ids)
        account
    pure updated

  -- The branches of `handleGroupSignal` behind its guards.
  update_roster : List String → Option Group → Io P Unit
  update_roster member_account_ids none = pure tt
  update_roster member_account_ids (some existing) =
      save_group (record existing { member_account_ids = member_account_ids })

  append_text : String → String → String → String → Option Group → Io P Unit
  append_text group_id id body sender_account_id none = pure tt
  append_text group_id id body sender_account_id (some g) = do
    messages ← load_messages group_id
    created_at ← now_iso
    let message = plain_message id Direction.received body MessageStatus.delivered created_at
    save_messages group_id
        (messages ++ (record message { sender_account_id = some sender_account_id } ∷ []))

  unfoldable pub handle_group_signal : GroupEnvelope → String → Io P Unit
  unfolding update_roster append_text
  handle_group_signal (group_invite group_id name member_account_ids) sender_account_id = do
    created_at ← now_iso
    save_group (record {
      id = group_id;
      name = name;
      member_account_ids = member_account_ids;
      created_at = created_at;
    })
  handle_group_signal (group_update group_id member_account_ids) sender_account_id = do
    existing ← load_group group_id
    update_roster member_account_ids (accepts existing sender_account_id)
  handle_group_signal (group_text group_id id body) sender_account_id = do
    g ← load_group group_id
    append_text group_id id body sender_account_id (accepts g sender_account_id)
