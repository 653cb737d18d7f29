-- ===== src/Server/Database.antt =====
-- The tables of server/migrations, as they are after the last of them, and the SQL statements of
-- server/src/routes. A uuid is its text, a time a number. An insertion gives nothing where it would break
-- a primary or a foreign key: the statement fails then.
use umbra_chat.Prelude.{
  ℕ, String, ◌==◌, Bool, true, not, ◌&&◌, ◌||◌, Option, none, some, is_some, List, [], ◌∷◌, ◌++◌,
  filter, find, map, includes, ltb, nat_eq, if◌then◌else◌,
}
use umbra_chat.Identity.{Bytes}

pub record DeviceRow : Type 0 where
  pub id : String
  pub account_id : String
  pub label : String
  pub created_at : ℕ

pub record IdentityRow : Type 0 where
  pub device_id : String
  pub public_key : Bytes
  pub registration_id : ℕ

pub record SignedPrekeyRow : Type 0 where
  pub device_id : String
  pub key_id : ℕ
  pub public_key : Bytes
  pub signature : Bytes

pub record PrekeyRow : Type 0 where
  pub device_id : String
  pub key_id : ℕ
  pub public_key : Bytes
  pub used : Bool

pub record MessageRow : Type 0 where
  pub id : String
  pub sender_device_id : String
  pub sender_account_id : String
  pub recipient_device_id : String
  pub ciphertext : Bytes
  pub created_at : ℕ

pub record LinkRow : Type 0 where
  pub code : String
  pub account_id : String
  pub expires_at : ℕ

pub record Database : Type 0 where
  pub accounts : List String
  pub devices : List DeviceRow
  pub identity_keys : List IdentityRow
  pub signed_prekeys : List SignedPrekeyRow
  pub kyber_signed_prekeys : List SignedPrekeyRow
  pub prekeys : List PrekeyRow
  pub messages : List MessageRow
  pub pending_device_links : List LinkRow

-- SELECT … WHERE id = $1
abbrev pub account_id_of : Option DeviceRow → Option String
account_id_of none = none
account_id_of (some d) = some d.account_id

abbrev pub select_account_id : String → Database → Option String
select_account_id id db = account_id_of (find (λ d. d.id == id) db.devices)

abbrev pub has_device : String → Database → Bool
has_device id db = is_some (find (λ (d : DeviceRow). d.id == id) db.devices)

abbrev pub select_identity_key : String → Database → Option IdentityRow
select_identity_key id db = find (λ k. k.device_id == id) db.identity_keys

abbrev pub select_signed : String → List SignedPrekeyRow → Option SignedPrekeyRow
select_signed id rows = find (λ k. k.device_id == id) rows

abbrev pub insert_account : String → Database → Option Database
insert_account id db =
    if includes db.accounts id
    then none
    else some (record db { accounts = db.accounts ++ (id ∷ []) })

abbrev pub insert_device : DeviceRow → Database → Option Database
insert_device d db =
    if has_device d.id db || not (includes db.accounts d.account_id)
    then none
    else some (record db { devices = db.devices ++ (d ∷ []) })

abbrev pub insert_identity_key : IdentityRow → Database → Option Database
insert_identity_key k db =
    if is_some (select_identity_key k.device_id db) || not (has_device k.device_id db)
    then none
    else some (record db { identity_keys = db.identity_keys ++ (k ∷ []) })

abbrev pub insert_signed_prekey : SignedPrekeyRow → Database → Option Database
insert_signed_prekey k db =
    if is_some (select_signed k.device_id db.signed_prekeys) || not (has_device k.device_id db)
    then none
    else some (record db { signed_prekeys = db.signed_prekeys ++ (k ∷ []) })

abbrev pub insert_kyber_signed_prekey : SignedPrekeyRow → Database → Option Database
insert_kyber_signed_prekey k db =
    if is_some (select_signed k.device_id db.kyber_signed_prekeys)
      || not (has_device k.device_id db)
    then none
    else some (record db { kyber_signed_prekeys = db.kyber_signed_prekeys ++ (k ∷ []) })

abbrev pub is_prekey : String → ℕ → PrekeyRow → Bool
is_prekey device_id key_id k = (k.device_id == device_id) && nat_eq k.key_id key_id

abbrev pub insert_prekey : PrekeyRow → Database → Option Database
insert_prekey k db =
    if is_some (find (is_prekey k.device_id k.key_id) db.prekeys) || not (has_device k.device_id db)
    then none
    else some (record db { prekeys = db.prekeys ++ (k ∷ []) })

abbrev pub insert_message : MessageRow → Database → Option Database
insert_message m db =
    if is_some (find (λ (n : MessageRow). n.id == m.id) db.messages)
      || not (has_device m.sender_device_id db)
      || not (includes db.accounts m.sender_account_id)
      || not (has_device m.recipient_device_id db)
    then none
    else some (record db { messages = db.messages ++ (m ∷ []) })

abbrev pub insert_link : LinkRow → Database → Option Database
insert_link l db =
    if is_some (find (λ (k : LinkRow). k.code == l.code) db.pending_device_links)
      || not (includes db.accounts l.account_id)
    then none
    else some (record db { pending_device_links = db.pending_device_links ++ (l ∷ []) })

-- DELETE FROM pending_device_links WHERE code = $1 AND account_id = $2 AND expires_at > now() RETURNING code
abbrev pub is_open_link : String → String → ℕ → LinkRow → Bool
is_open_link code account_id now l =
    (l.code == code) && (l.account_id == account_id) && ltb now l.expires_at

abbrev pub consume_link : String → String → ℕ → Database → Option LinkRow × Database
consume_link code account_id now db = (
  find (is_open_link code account_id now) db.pending_device_links,
  record db {
    pending_device_links =
        filter (λ l. not (is_open_link code account_id now l)) db.pending_device_links;
  },
)

-- DELETE FROM messages WHERE recipient_device_id = $1 RETURNING …
abbrev pub is_for : String → MessageRow → Bool
is_for device_id m = m.recipient_device_id == device_id

abbrev pub take_messages : String → Database → List MessageRow × Database
take_messages device_id db = (
  filter (is_for device_id) db.messages,
  record db { messages = filter (λ m. not (is_for device_id m)) db.messages },
)

-- SELECT key_id … WHERE device_id = $1 AND used = false ORDER BY key_id LIMIT 1
abbrev pub is_unused : String → PrekeyRow → Bool
is_unused device_id k = (k.device_id == device_id) && not k.used

abbrev pub lesser : ℕ → Option ℕ → ℕ
lesser n none = n
lesser n (some m) = if ltb n m then n else m

abbrev pub least_unused : String → List PrekeyRow → Option ℕ
least_unused device_id [] = none
least_unused device_id (k ∷ ks) =
    let rest = least_unused device_id ks in
    if is_unused device_id k then some (lesser k.key_id rest) else rest

-- UPDATE prekeys SET used = true WHERE device_id = $1 AND key_id = … RETURNING key_id, public_key
abbrev pub use_prekey : String → ℕ → PrekeyRow → PrekeyRow
use_prekey device_id key_id k = if is_prekey device_id key_id k then record k { used = true } else k

abbrev pub claim : String → Option ℕ → Database → Option PrekeyRow × Database
claim device_id none db = (none, db)
claim device_id (some n) db = (
  find (is_prekey device_id n) db.prekeys,
  record db { prekeys = map (use_prekey device_id n) db.prekeys },
)

abbrev pub take_prekey : String → Database → Option PrekeyRow × Database
take_prekey device_id db = claim device_id (least_unused device_id db.prekeys) db

-- DELETE FROM devices WHERE id = $1, with ON DELETE CASCADE
abbrev pub delete_device : String → Database → Database
delete_device id db = record db {
  devices = filter (λ d. not (d.id == id)) db.devices;
  identity_keys = filter (λ k. not (k.device_id == id)) db.identity_keys;
  signed_prekeys = filter (λ k. not (k.device_id == id)) db.signed_prekeys;
  kyber_signed_prekeys = filter (λ k. not (k.device_id == id)) db.kyber_signed_prekeys;
  prekeys = filter (λ k. not (k.device_id == id)) db.prekeys;
  messages =
      filter (λ m. not (m.recipient_device_id == id) && not (m.sender_device_id == id)) db.messages;
}
