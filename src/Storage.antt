-- ===== src/Storage.antt =====
-- web/src/storage/{messageStore,groupStore,keyStore}.ts: the object stores of IndexedDB. A request
-- that is rejected changes nothing.
pub mod Frame
pub mod Laws
use umbra_chat.Prelude.{String, Option, some, or_default, List, []}
use umbra_chat.Prelude.Dict.{lookup, insert, values}
use umbra_chat.Identity.{Bytes, LocalAccount}
use umbra_chat.Message.{ChatMessage, Group}
use umbra_chat.Platform.{Platform}
use umbra_chat.Exec.{gets, modify, ◌>>=◌, ◌>>◌}
use umbra_chat.World.{World, Io, db_request}

module _ {P : Platform} where
  unfoldable pub load_messages : String → Io P (List ChatMessage)
  load_messages contact_id = do db_request; gets (λ w. or_default (lookup contact_id w.messages) [])

  unfoldable pub save_messages : String → List ChatMessage → Io P Unit
  save_messages contact_id messages = do
    db_request
    modify (λ w. record w { messages = insert contact_id messages w.messages })

  unfoldable pub load_group : String → Io P (Option Group)
  load_group group_id = do db_request; gets (λ w. lookup group_id w.groups)

  unfoldable pub save_group : Group → Io P Unit
  save_group group = do
    db_request
    modify (λ w. record w { groups = insert group.id group w.groups })

  unfoldable pub load_all_groups : Io P (List Group)
  load_all_groups = do db_request; gets (λ w. values w.groups)

  unfoldable pub load_account : Io P (Option LocalAccount)
  load_account = do db_request; gets (λ w. w.account)

  unfoldable pub save_account : LocalAccount → Io P Unit
  save_account account = do db_request; modify (λ w. record w { account = some account })

  unfoldable pub load_session : String → Io P (Option Bytes)
  load_session contact_id = do db_request; gets (λ w. lookup contact_id w.sessions)

  unfoldable pub save_session : String → Bytes → Io P Unit
  save_session contact_id bytes = do
    db_request
    modify (λ w. record w { sessions = insert contact_id bytes w.sessions })
