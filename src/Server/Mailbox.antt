-- ===== src/Server/Mailbox.antt =====
-- server/src/routes/messages.rs, against what it is for: a mailbox for each device.
use mathlib.Core.List.{Perm}
use umbra_chat.Prelude.{
  ◌≡◌, ℕ, ◌≤◌, String, ◌==◌, Bool, true, false, not, List, [], ◌∷◌, ◌++◌, map, filter, All,
}
use umbra_chat.Exec.{Error, Result, ok, err}
use umbra_chat.Server.Calls.{
  Call, Reply, Log, deletes_device, posts_message, gets_messages, posted, delivered,
}
use umbra_chat.Server.Routes.Messages.{SendMessageRequest, ReceivedMessage}

-- A message, as it matters to the one who gets it: the device that sent it, and its text.
abbrev pub Post : Type 0
Post = String × String

abbrev pub post_of : ReceivedMessage → Post
post_of m = (m.sender_device_id, m.ciphertext)

-- Ascending times: each is followed by none that is less.
abbrev pub IsAscending : {A : Type 0} → (A → ℕ) → List A → Type 0
IsAscending time [] = Unit
IsAscending time (x ∷ xs) = All (λ y. time x ≤ time y) xs × IsAscending time xs

-- The calls of the routes that neither write nor remove messages.
abbrev pub is_other : Call → Bool
is_other (deletes_device caller id) = false
is_other (posts_message sender req) = false
is_other (gets_messages id) = false
is_other _ = true

abbrev pub not_by : String → Post → Bool
not_by id p = not (p.0 == id)

-- What one answered call makes of the mailbox of the device `d`.
pub data Step (d : String) : List Post → Call × Result Reply → List Post → Type 0 where
  refused : (c : Call) (e : Error) (box : List Post) → Step d box (c, err e) box
  posts :
      (sender id : String) (req : SendMessageRequest) (box : List Post)
      → (req.recipient_device_id == d) ≡ true
      → Step d box
          (posts_message sender req, ok (posted id))
          (box ++ ((sender, req.ciphertext) ∷ []))
  posts_elsewhere :
      (sender id : String) (req : SendMessageRequest) (box : List Post)
      → (req.recipient_device_id == d) ≡ false
      → Step d box (posts_message sender req, ok (posted id)) box
  empties :
      (id : String) (ms : List ReceivedMessage) (box : List Post)
      → (id == d) ≡ true
      → IsAscending (λ m. m.created_at) ms
      → Perm (map post_of ms) box
      → Step d box (gets_messages id, ok (delivered ms)) []
  gets_elsewhere :
      (id : String) (ms : List ReceivedMessage) (box : List Post)
      → (id == d) ≡ false
      → Step d box (gets_messages id, ok (delivered ms)) box
  deletes :
      (caller id : String) (r : Reply) (box : List Post)
      → (id == d) ≡ true
      → Step d box (deletes_device caller id, ok r) []
  deletes_elsewhere :
      (caller id : String) (r : Reply) (box : List Post)
      → (id == d) ≡ false
      → Step d box (deletes_device caller id, ok r) (filter (not_by id) box)
  others : (c : Call) (r : Reply) (box : List Post) → is_other c ≡ true → Step d box (c, ok r) box

pub data Steps (d : String) : List Post → Log → List Post → Type 0 where
  done : (box : List Post) → Steps d box [] box
  next :
      {box mid after : List Post} {entry : Call × Result Reply} {log : Log}
      → Step d box entry mid
      → Steps d mid log after
      → Steps d box (entry ∷ log) after
