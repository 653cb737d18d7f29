-- ===== src/Group/Membership.antt =====
-- web/src/chat/group.ts, groupStore.ts: what sending to members leaves alone, and how groups are kept.
use umbra_chat.Prelude.{◌≡◌, String, some, List}
use umbra_chat.Prelude.Dict.{lookup}
use umbra_chat.Identity.{LocalAccount}
use umbra_chat.Message.{Group}
use umbra_chat.Envelope.{GroupEnvelope}
use umbra_chat.Platform.{Platform}
use umbra_chat.Exec.Keeps.{Keeps, keeps_rules}
use umbra_chat.World.{World}
use umbra_chat.World.Frame.{IsQuiet, IsDeaf}
use umbra_chat.Conversation.Frame.{send_envelope-Keeps}
use umbra_chat.Group.{fan_out}

-- Every group is stored under its own id: the key path of the object store.
pub record IsKeyed {P : Platform} (w : World P) : Type 0 where
  pub at : (k : String) (g : Group) → lookup k w.groups ≡ some g → g.id ≡ k

module _ {P : Platform} where
  pub fan_out-Keeps :
      {Q : World P → Type 0}
      → IsQuiet Q
      → IsDeaf Q
      → (ids : List String) (e : GroupEnvelope) (account : LocalAccount)
      → Keeps Q (fan_out ids e account)
  unfolding fan_out
  fan_out-Keeps quiet deaf ids e account = search (keeps_rules, send_envelope-Keeps)
