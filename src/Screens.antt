-- ===== src/Screens.antt =====
-- web/src/screens: what a screen shows, a list of nodes in the order of its markup (how they nest is
-- left out), and what the user's acting on one does. The screens' own React states are one record,
-- Forms; what a screen calls of the page's is a Callback.
pub mod Account
pub mod Call
pub mod Conversation
pub mod Devices
pub mod Groups
pub mod InOrder
pub mod Offers
pub mod Page
pub mod Ready
pub mod Talking
use umbra_chat.Prelude.{
  ◌≡◌, ℕ, String, ◌==◌, Bool, true, false, Option, none, some, List, [], ◌∷◌, ◌++◌, if◌then◌else◌,
}
use umbra_chat.Envelope.{CallKind}
use umbra_chat.Conversation.{File}
use umbra_chat.App.Events.{PageEvent}

pub record Forms : Type 0 where
  -- CreateAccount
  pub link_account_id : String
  pub link_code : String
  -- NewConversation
  pub contact_id : String
  -- Groups
  pub name : String
  pub members : String
  -- Conversation, GroupConversation
  pub text : String
  pub file_error : Option String
  pub destruct_mode : String
  -- CallScreen
  pub muted : Bool

abbrev pub initial : Forms
initial = record {
  link_account_id = "";
  link_code = "";
  contact_id = "";
  name = "";
  members = "";
  text = "";
  file_error = none;
  destruct_mode = "none";
  muted = false;
}

pub data Callback : Type 0 where
  page : PageEvent → Callback
  calls : CallKind → Callback
  accepts declines hangs_up : Callback
  -- `track.enabled = …` for the audio tracks of a stream
  enables_audio : ℕ → Bool → Callback
  unlinks : String → Callback
  inits_link : Callback

-- The forms afterwards, and what is called.
abbrev pub Action : Type 0
Action = Forms × Option Callback

pub data Node : Type 0 where
  heading paragraph alert : String → Node
  -- its label, `disabled`, `onClick`
  button : String → Bool → Action → Node
  link : String → Action → Node
  -- its placeholder, its value, `disabled`, `onChange`, what Enter does
  input : String → String → Bool → (String → Action) → Option Action → Node
  file_input : Bool → (Option File → Action) → Node
  select : String → Bool → List (String × String) → (String → Action) → Node
  -- a video or an audio element: its test id, its stream, `muted`
  media : String → Option ℕ → Bool → Node

-- `onClick={() => f()}`, and a handler that only changes the forms
abbrev pub call_back : Callback → Forms → Action
call_back c forms = (forms, some c)

abbrev pub stay : Forms → Action
stay forms = (forms, none)

-- `{error && <p role="alert">{error}</p>}`
abbrev pub alert_if : Option String → List Node
alert_if none = []
alert_if (some error) = if error == "" then [] else alert error ∷ []

-- `{xs.map((x) => <li>…</li>)}`
abbrev pub rows : {A : Type 0} → (A → List Node) → List A → List Node
rows row [] = []
rows row (x ∷ xs) = row x ++ rows row xs
