-- ===== src/Server/Routes/Messages.antt =====
-- server/src/routes/messages.rs.
use umbra_chat.Prelude.{ℕ, String, List, [], ◌∷◌, map, ltb, if◌then◌else◌}
use umbra_chat.Exec.{pure, gets, ◌>>=◌, ◌>>◌}
use umbra_chat.Server.{bad_request}
use umbra_chat.Server.Database.{MessageRow, select_account_id, insert_message, take_messages}
use umbra_chat.Server.Route.{
  Backend, Site, Route, ok_or, query, execute, execute_returning, now, gen_random_uuid,
}

pub record SendMessageRequest : Type 0 where
  pub recipient_device_id : String
  pub ciphertext : String

pub record ReceivedMessage : Type 0 where
  pub sender_account_id : String
  pub sender_device_id : String
  pub ciphertext : String
  pub created_at : ℕ

-- `rows.sort_by_key(|r| r.created_at)`, which is stable
abbrev pub place : MessageRow → List MessageRow → List MessageRow
place m [] = m ∷ []
place m (n ∷ ns) =
    let rest = place m ns in if ltb n.created_at m.created_at then n ∷ rest else m ∷ n ∷ ns

unfoldable pub sort_by_created_at : List MessageRow → List MessageRow
sort_by_created_at [] = []
sort_by_created_at (m ∷ ms) = place m (sort_by_created_at ms)

abbrev pub received_message : Backend → MessageRow → ReceivedMessage
received_message B r = record {
  sender_account_id = r.sender_account_id;
  sender_device_id = r.sender_device_id;
  ciphertext = B.encode_base64 r.ciphertext;
  created_at = r.created_at;
}

module _ {B : Backend} where
  unfoldable pub send_message : String → SendMessageRequest → Route B String
  unfolding ok_or query gen_random_uuid now execute
  send_message sender_device_id body = do
    ciphertext ←
        ok_or (B.decode_base64 body.ciphertext) (bad_request "ciphertext is not valid base64")
    found ← query (select_account_id sender_device_id)
    sender_account_id ← ok_or found (bad_request "unknown sender device")
    id ← gen_random_uuid
    created_at ← now
    execute (
        insert_message (record {
          id = id;
          sender_device_id = sender_device_id;
          sender_account_id = sender_account_id;
          recipient_device_id = body.recipient_device_id;
          ciphertext = ciphertext;
          created_at = created_at;
        }))
    pure id

  unfoldable pub fetch_messages : String → Route B (List ReceivedMessage)
  unfolding execute_returning sort_by_created_at
  fetch_messages device_id = do
    rows ← execute_returning (take_messages device_id)
    sorted ← gets (λ (s : Site B). sort_by_created_at (B.any_order s.env rows))
    pure (map (received_message B) sorted)
