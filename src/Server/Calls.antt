-- ===== src/Server/Calls.antt =====
-- server/src/routes/mod.rs: the routes as one service. A call is a request past its extractors: the device
-- that signed it, where it is signed, the path's parameter and the body.
use umbra_chat.Prelude.{String, List, [], ◌∷◌}
use umbra_chat.Exec.{Result, pure, ◌>>=◌, ◌>>◌}
use umbra_chat.Server.Route.{Backend, Site, Route}
use umbra_chat.Server.Routes.Devices.{
  CompleteLinkRequest, DeviceOut, link_init, complete_link, list_devices, unlink_device,
}
use umbra_chat.Server.Routes.Messages.{
  SendMessageRequest, ReceivedMessage, send_message, fetch_messages,
}
use umbra_chat.Server.Routes.Prekeys.{PrekeyBundleResponse, get_prekey_bundle}
use umbra_chat.Server.Routes.Register.{RegisterRequest, RegisterResponse, register}

pub data Call : Type 0 where
  posts_register : RegisterRequest → Call
  gets_prekey_bundle : String → Call
  deletes_device : (caller device_id : String) → Call
  gets_devices : String → Call
  posts_devices : String → CompleteLinkRequest → Call
  posts_link_init : (caller account_id : String) → Call
  posts_message : (sender : String) → SendMessageRequest → Call
  gets_messages : String → Call

pub data Reply : Type 0 where
  registered : RegisterResponse → Reply
  bundled : PrekeyBundleResponse → Reply
  unlinked : Reply
  listed : List DeviceOut → Reply
  linked posted code_made : String → Reply
  delivered : List ReceivedMessage → Reply

-- What was asked and what was answered, one after the other.
abbrev pub Log : Type 0
Log = List (Call × Result Reply)

module _ {B : Backend} where
  unfoldable pub handle : Call → Route B Reply
  unfolding register get_prekey_bundle unlink_device list_devices complete_link link_init
      send_message fetch_messages pure
  handle (posts_register req) = do r ← register req; pure (registered r)
  handle (gets_prekey_bundle device_id) = do b ← get_prekey_bundle device_id; pure (bundled b)
  handle (deletes_device caller device_id) = do unlink_device caller device_id; pure unlinked
  handle (gets_devices account_id) = do ds ← list_devices account_id; pure (listed ds)
  handle (posts_devices account_id req) = do id ← complete_link account_id req; pure (linked id)
  handle (posts_link_init caller account_id) = do
    code ← link_init caller account_id
    pure (code_made code)
  handle (posts_message sender req) = do id ← send_message sender req; pure (posted id)
  handle (gets_messages device_id) = do ms ← fetch_messages device_id; pure (delivered ms)

  unfoldable pub serve : List Call → Site B → Log × Site B
  unfolding handle
  serve [] s = ([], s)
  serve (c ∷ cs) s = let (r, t) = handle c s in let (log, u) = serve cs t in ((c, r) ∷ log, u)
