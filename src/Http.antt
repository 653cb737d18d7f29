-- ===== src/Http.antt =====
-- What goes over HTTP: the requests that the client makes and the JSON that it reads back, by the
-- shape that each call site casts it to (web/src/api/*.ts). `malformed` is a body that is no JSON.
use umbra_chat.Prelude.{ℕ, String, Bool, Option, List}
use umbra_chat.Identity.{Bytes}

pub data Method : Type 0 where
  get post delete : Method

abbrev pub method_name : Method → String
method_name get = "GET"
method_name post = "POST"
method_name delete = "DELETE"

pub record DeviceInfo : Type 0 where
  pub id : String
  pub label : String
  pub created_at : ℕ

pub record RawMessage : Type 0 where
  pub sender_account_id : String
  pub sender_device_id : String
  pub ciphertext : String
  pub created_at : ℕ

pub record RawSignedPrekey : Type 0 where
  pub key_id : ℕ
  pub public_key : String
  pub signature : String

pub record RawPrekey : Type 0 where
  pub key_id : ℕ
  pub public_key : String

-- What `identityBundleToJson` gives.
pub record RawIdentity : Type 0 where
  pub identity_public_key : String
  pub registration_id : ℕ
  pub signed_prekey : RawSignedPrekey
  pub kyber_signed_prekey : RawSignedPrekey
  pub one_time_prekeys : List RawPrekey

-- The bodies that are sent: a message, a registration, the completion of a link.
pub record MessageBody : Type 0 where
  pub recipient_device_id : String
  pub ciphertext : String

pub data Body : Type 0 where
  delivery : MessageBody → Body
  registration : RawIdentity → Body
  completion : String → String → RawIdentity → Body

-- The headers of a signed request.
pub record Auth : Type 0 where
  pub device_id : String
  pub timestamp : String
  pub signature : String

pub record Request : Type 0 where
  pub path : String
  pub method : Method
  pub auth : Option Auth
  pub body : Option Body

pub record RawBundleResponse : Type 0 where
  pub identity_public_key : String
  pub registration_id : ℕ
  pub signed_prekey : RawSignedPrekey
  pub kyber_signed_prekey : RawSignedPrekey
  pub one_time_prekey : Option RawPrekey

pub data Json : Type 0 where
  devices : List DeviceInfo → Json
  messages : List RawMessage → Json
  bundle : RawBundleResponse → Json
  link_code : String → Json
  registered : String → String → Json
  linked : String → Json
  error_body : Option String → Json
  other malformed : Json

pub record Response : Type 0 where
  pub succeeded : Bool
  pub json : Json

pub record ReceivedMessage : Type 0 where
  pub sender_account_id : String
  pub sender_device_id : String
  pub envelope : Bytes
  pub created_at : ℕ

-- What the server answers with when it refuses a request: an HTTP status code, and a text.
pub record ApiError : Type 0 where
  pub status : ℕ
  pub error : String
