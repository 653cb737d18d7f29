-- ===== src/App.antt =====
-- web/src/App.tsx: the page's state. React's state variables and refs and the browser's running
-- intervals are the record Ui. A `SignalStore` object is known by its number: the page opens one for
-- each screen, and a closure keeps the number of its own.
pub mod Intervals
pub mod Leaked
pub mod Lost
pub mod Pages
pub mod Polling
pub mod Race
pub mod Settled
pub mod Events
pub mod Flags
pub mod Frame
pub mod Handlers
use umbra_chat.Prelude.{
  ℕ, zero, suc, String, ◌==◌, Bool, true, false, not, Option, none, some, List, [], ◌∷◌, ◌++◌,
  length, filter, nat_eq, if◌then◌else◌,
}
use umbra_chat.Identity.{LocalAccount, IdentityBundle}
use umbra_chat.Message.{ChatMessage, Group}
use umbra_chat.Platform.{Platform}
use umbra_chat.Exec.{
  Error, thrown, wasm_error, Result, ok, err, Exec, pure, gets, modify, ◌>>=◌, ◌>>◌,
}
use umbra_chat.World.{SignalStore, World, Io}
use umbra_chat.Signal.{open_store}
use umbra_chat.Call.Data.{CallState, outgoing_ringing, incoming_ringing}
use umbra_chat.Conversation.{FileSendStage}

abbrev pub poll_interval_ms : ℕ
poll_interval_ms = 3000

abbrev pub call_poll_interval_ms : ℕ
call_poll_interval_ms = 500

abbrev pub is_ringing : CallState → Bool
is_ringing (outgoing_ringing call_id kind local) = true
is_ringing (incoming_ringing call_id kind) = true
is_ringing _ = false

pub data Status : Type 0 where
  loading anonymous : Status
  identity_ready : LocalAccount → String → List Group → Status
  conversation : LocalAccount → String → ℕ → List ChatMessage → Status
  group : LocalAccount → Group → ℕ → List ChatMessage → Status

-- A `runPoll`, with what it captures: the account, the contact or the group, the store.
pub data Task : Type 0 where
  identity_poll : LocalAccount → ℕ → Task
  conversation_poll group_poll : LocalAccount → String → ℕ → Task

pub record Interval : Type 0 where
  pub number : ℕ
  pub task : Task
  pub period : ℕ

pub record Ui : Type 0 where
  pub status : Status
  pub creating : Bool
  pub starting : Bool
  pub sending : Bool
  pub file_stage : Option FileSendStage
  pub timer_seconds : ℕ
  pub error : Option String
  pub poll_timer : Option ℕ
  pub poll_interval : ℕ
  -- the browser's: the intervals that were set and not cleared, the number of the next one
  pub intervals : List Interval
  pub next_interval : ℕ
  -- localStorage: "umbrachat:activeContactId"
  pub active_contact_id : Option String

abbrev pub initial : Ui
initial = record {
  status = loading;
  creating = false;
  starting = false;
  sending = false;
  file_stage = none;
  timer_seconds = 0;
  error = none;
  poll_timer = none;
  poll_interval = poll_interval_ms;
  intervals = [];
  next_interval = 1;
  active_contact_id = none;
}

-- `window.clearInterval(pollTimer.current)`
abbrev pub clear_interval : Ui → Ui
clear_interval u = elim u.poll_timer [
  | none ↦ u
  | some n ↦ record u { intervals = filter (λ i. not (nat_eq i.number n)) u.intervals }
]

-- that, and `pollTimer.current = undefined`
abbrev pub stop_polling : Ui → Ui
stop_polling u = record (clear_interval u) { poll_timer = none }

-- `pollTimer.current = window.setInterval(…)`
abbrev pub set_interval : Task → ℕ → Ui → Ui
set_interval task period u = record u {
  intervals =
      u.intervals ++ (record { number = u.next_interval; task = task; period = period } ∷ []);
  next_interval = suc u.next_interval;
  poll_timer = some u.next_interval;
}

abbrev pub set_status : Status → Ui → Ui
set_status status u = record u { status = status }

-- The updates of the status that leave another screen alone.
abbrev pub with_groups : List Group → Status → Status
with_groups groups (identity_ready account safety_number _) =
    identity_ready account safety_number groups
with_groups groups status = status

abbrev pub with_messages : List ChatMessage → Status → Status
with_messages messages (conversation account contact_id store _) =
    conversation account contact_id store messages
with_messages messages status = status

abbrev pub with_group_messages : List ChatMessage → Status → Status
with_group_messages messages (group account g store _) = group account g store messages
with_group_messages messages status = status

abbrev pub with_group : Group → Status → Status
with_group g (group account _ store messages) = group account g store messages
with_group g status = status

abbrev pub refreshed : Option Group → List ChatMessage → Status → Status
refreshed none messages status = status
refreshed (some g) messages (group account _ store _) = group account g store messages
refreshed (some g) messages status = status

module _ (P : Platform) where
  pub record AppState : Type 0 where
    pub ui : Ui
    -- the `SignalStore` objects, by number
    pub stores : List (SignalStore P)
    pub world : World P

abbrev pub App : Platform → Type 0 → Type 0
App P A = Exec (AppState P) A

-- `xs[n]`, where it is there, and its update
abbrev pub get_or {ℓ} : {A : Type ℓ} → List A → ℕ → A → A
get_or [] n d = d
get_or (x ∷ xs) zero d = x
get_or (x ∷ xs) (suc n) d = get_or xs n d

abbrev pub set {ℓ} : {A : Type ℓ} → List A → ℕ → A → List A
set [] n a = []
set (x ∷ xs) zero a = a ∷ xs
set (x ∷ xs) (suc n) a = x ∷ set xs n a

module _ {P : Platform} where
  unfoldable pub io : {A : Type 0} → Io P A → App P A
  io m s = let (r, w) = m s.world in (r, record s { world = w })

  unfoldable pub update : (Ui → Ui) → App P Unit
  update f = modify (λ s. record s { ui = f s.ui })

  -- The functions of the client, given the store of that number.
  unfoldable pub with_store : {A : Type 0} → ℕ → Io P A → App P A
  with_store n m s =
      let (r, w) = m (record s.world { store = get_or s.stores n s.world.store }) in
      (r, record s { world = w; stores = set s.stores n w.store })

  -- `openStore(identity)`
  unfoldable pub open_new_store : IdentityBundle → App P ℕ
  unfolding io
  open_new_store identity = do
    io (open_store identity)
    n ← gets (λ s. length s.stores)
    modify (λ s. record s { stores = s.stores ++ (s.world.store ∷ []) })
    pure n

  abbrev pub recover : {A : Type 0} → Result A → (Error → App P Unit) → App P Unit
  recover (ok a) handler s = (ok tt, s)
  recover (err e) handler s = handler e s

  -- `try { … } catch (err) { … }`
  unfoldable pub try_catch : App P Unit → (Error → App P Unit) → App P Unit
  try_catch m handler s = let (r, t) = m s in recover r handler t
