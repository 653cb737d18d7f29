-- ===== src/Screens/Offers.antt =====
-- What the page lets the user do: the callbacks of the controls that are not disabled.
use umbra_chat.Prelude.{
  ◌≡◌, refl, String, ◌==◌, Bool, true, false, not, ◌||◌, ◌⊎◌, inl, inr, Option, none, some, is_some,
  List, [], ◌∷◌, ◌++◌, map, filter, All, Bool-cases, if◌then◌else◌,
}
use umbra_chat.Prelude.Trim.{trim, split_commas, trim-trim}
use umbra_chat.Conversation.{File, is_file_too_large}
use umbra_chat.Call.Data.{CallState, incoming_ringing, local_stream}
use umbra_chat.App.{Status, anonymous, identity_ready, conversation, group, Ui}
use umbra_chat.App.Events.{
  PageEvent, mounts, creates, links, starts, sends, opens_file, opens_group, sends_to_group,
  removes, sends_file, sets_timer, creates_group, elapses,
}
use umbra_chat.Screens.{
  Forms, Callback, page, calls, accepts, declines, hangs_up, enables_audio, unlinks, inits_link,
  Action, Node, heading, paragraph, alert, button, link, input, file_input, select, media, stay,
  alert_if, rows,
}
use umbra_chat.Screens.Groups.{member_ids}
use umbra_chat.Screens.Page.{call_active}

-- The control is disabled, or whatever the user does with it satisfies `Q`.
abbrev pub Lets : (Action → Type 0) → Node → Type 0
Lets Q (heading s) = Unit
Lets Q (paragraph s) = Unit
Lets Q (alert s) = Unit
Lets Q (button label disabled a) = (disabled ≡ true) ⊎ Q a
Lets Q (link label a) = Q a
Lets Q (input placeholder value disabled on_change none) =
    (disabled ≡ true) ⊎ ((s : String) → Q (on_change s))
Lets Q (input placeholder value disabled on_change (some on_enter)) =
    (disabled ≡ true) ⊎ (((s : String) → Q (on_change s)) × Q on_enter)
Lets Q (file_input disabled on_change) = (disabled ≡ true) ⊎ ((f : Option File) → Q (on_change f))
Lets Q (select value disabled options on_change) =
    (disabled ≡ true) ⊎ ((s : String) → Q (on_change s))
Lets Q (media id stream muted) = Unit

pub unless {ℓ} : {A : Type ℓ} (disabled : Bool) → (disabled ≡ false → A) → (disabled ≡ true) ⊎ A
unless true f = inl refl
unless false f = inr (f refl)

abbrev pub is_anonymous : Status → Bool
is_anonymous anonymous = true
is_anonymous _ = false

abbrev pub is_identity_ready : Status → Bool
is_identity_ready (identity_ready account number groups) = true
is_identity_ready _ = false

abbrev pub is_conversation : Status → Bool
is_conversation (conversation account contact_id store messages) = true
is_conversation _ = false

abbrev pub is_group : Status → Bool
is_group (group account g store messages) = true
is_group _ = false

-- Another account than one's own, on the screen of a group.
abbrev pub is_other : Status → String → Bool
is_other (group account g store messages) id = not (id == account.account_id)
is_other _ id = false

abbrev pub is_incoming : CallState → Bool
is_incoming (incoming_ringing call_id kind) = true
is_incoming _ = false

-- Not empty, and without white space around it.
abbrev pub IsTrimmed : String → Type 0
IsTrimmed s = ((s == "") ≡ false) × (trim s ≡ s)

-- What the page may be asked to do in a state: the handler acts on it, nothing of its kind is under
-- way, and its arguments are in order.
abbrev pub MayPerform : Ui → PageEvent → Type 0
MayPerform u mounts = ⊥
MayPerform u (elapses n) = ⊥
MayPerform u creates = (is_anonymous u.status ≡ true) × (u.creating ≡ false)
MayPerform u (links account_id code) =
    (is_anonymous u.status ≡ true)
    × (u.creating ≡ false)
    × ((trim account_id == "") ≡ false)
    × ((trim code == "") ≡ false)
MayPerform u (starts contact_id) =
    (is_identity_ready u.status ≡ true) × (u.starting ≡ false) × IsTrimmed contact_id
MayPerform u (creates_group name ids) =
    (is_identity_ready u.status ≡ true) × (u.creating ≡ false) × IsTrimmed name × All IsTrimmed ids
MayPerform u (opens_group id) = is_identity_ready u.status ≡ true
MayPerform u (sends text) = (is_conversation u.status ≡ true) × (u.sending ≡ false) × IsTrimmed text
MayPerform u (sends_file f destruct) =
    (is_conversation u.status ≡ true) × (u.sending ≡ false) × (is_file_too_large f ≡ false)
MayPerform u (opens_file id) = is_conversation u.status ≡ true
MayPerform u (sets_timer seconds) = (is_conversation u.status ≡ true) × (u.sending ≡ false)
MayPerform u (sends_to_group text) =
    (is_group u.status ≡ true) × (u.sending ≡ false) × IsTrimmed text
MayPerform u (removes id) = is_other u.status id ≡ true

abbrev pub MayCall : Ui → CallState → Callback → Type 0
MayCall u call (page e) = MayPerform u e
MayCall u call (calls kind) = (is_conversation u.status ≡ true) × (call_active call ≡ false)
MayCall u call accepts = (is_conversation u.status ≡ true) × (is_incoming call ≡ true)
MayCall u call declines = (is_conversation u.status ≡ true) × (is_incoming call ≡ true)
MayCall u call hangs_up = (is_conversation u.status ≡ true) × (is_some (local_stream call) ≡ true)
MayCall u call (enables_audio stream on) =
    (is_conversation u.status ≡ true) × (local_stream call ≡ some stream)
MayCall u call (unlinks id) = is_identity_ready u.status ≡ true
MayCall u call inits_link = is_identity_ready u.status ≡ true

abbrev MayCallback : Ui → CallState → Option Callback → Type 0
MayCallback u call none = Unit
MayCallback u call (some c) = MayCall u call c

pub record IsInOrder (u : Ui) (call : CallState) (a : Action) : Type 0 where
  pub may : MayCallback u call a.1

pub trim-IsTrimmed : (s : String) → (trim s == "") ≡ false → IsTrimmed (trim s)
trim-IsTrimmed s h = (h, trim-trim s)

trimmed : (xs : List String) → All IsTrimmed (filter (λ id. not (id == "")) (map trim xs))
trimmed [] = tt
trimmed (x ∷ xs) = elim (Bool-cases (trim x == "")) [
  | inl blank ↦ rw blank (trimmed xs)
  | inr kept ↦ rw kept (trim-IsTrimmed x kept, trimmed xs)
]

pub member_ids-IsTrimmed : (members : String) → All IsTrimmed (member_ids members)
member_ids-IsTrimmed members = trimmed (split_commas members)

pub or_false : (a b : Bool) → (a || b) ≡ false → (a ≡ false) × (b ≡ false)
or_false true b h = cc
or_false false b h = (refl, h)

-- The nodes of a screen, all of which let the user do only what is in order.
pub record AreInOrder (u : Ui) (call : CallState) (nodes : List Node) : Type 0 where
  pub all : All (Lets (IsInOrder u call)) nodes

module _ {u : Ui} {call : CallState} where
  pub nothing : AreInOrder u call []
  nothing = record { all = tt }

  infixr 5 ◌▸◌
  pub ◌▸◌ :
      {n : Node} {ns : List Node}
      → Lets (IsInOrder u call) n
      → AreInOrder u call ns
      → AreInOrder u call (n ∷ ns)
  h ▸ k = record { all = (h, k.all) }

  infixr 5 ◌⊕◌
  pub ◌⊕◌ :
      {ms ns : List Node}
      → AreInOrder u call ms
      → AreInOrder u call ns
      → AreInOrder u call (ms ++ ns)
  ◌⊕◌ {ms = []} h k = k
  ◌⊕◌ {ms = m ∷ ms} h k = h.all.0 ▸ ◌⊕◌ {ms = ms} (record { all = h.all.1 }) k

  pub each :
      {A : Type 0} {row : A → List Node} (xs : List A)
      → ((x : A) → AreInOrder u call (row x))
      → AreInOrder u call (rows row xs)
  each [] h = nothing
  each (x ∷ xs) h = h x ⊕ each xs h

  pub alerts : (error : Option String) → AreInOrder u call (alert_if error)
  alerts none = nothing
  alerts (some error) = elim (Bool-cases (error == "")) [
    | inl blank ↦ rw blank nothing
    | inr shown ↦ rw shown (tt ▸ nothing)
  ]

  pub shown_if :
      (b : Bool) (n : Node)
      → Lets (IsInOrder u call) n
      → AreInOrder u call (if b then n ∷ [] else [])
  shown_if true n h = h ▸ nothing
  shown_if false n h = nothing

  pub stays : (forms : Forms) → IsInOrder u call (stay forms)
  stays forms = record { may = tt }
