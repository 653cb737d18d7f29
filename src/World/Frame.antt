-- ===== src/World/Frame.antt =====
-- What the functions that talk to the server leave alone. An invariant that does not depend on
-- the environment, the sessions and the requests without a body is kept by all of them but those
-- that send a message; one that does not depend on any request is kept by those too.
use umbra_chat.Prelude.{◌≡◌, String, ℕ, or_default, Option, none, List, [], ◌∷◌, ◌++◌}
use umbra_chat.Prelude.Dict.{Dict, lookup}
use umbra_chat.Identity.{Bytes, LocalAccount}
use umbra_chat.Message.{ChatMessage, Group}
use umbra_chat.Http.{Request}
use umbra_chat.Platform.{Platform}
use umbra_chat.Exec.Keeps.{Keeps, keeps_rules}
use umbra_chat.World.{SignalStore, World, date_now, random_uuid, db_request, fetch, to_iso}

pub record IsQuiet {P : Platform} (Q : World P → Type 0) : Type 0 where
  pub env : (w : World P) (e : P.Env) → Q w → Q (record w { env = e })
  pub store : (w : World P) (s : SignalStore P) → Q w → Q (record w { store = s })
  pub sessions : (w : World P) (d : Dict Bytes) → Q w → Q (record w { sessions = d })
  pub request :
      (w : World P) (r : Request)
      → r.body ≡ none
      → Q w
      → Q (record w { requests = w.requests ++ (r ∷ []) })

pub record IsDeaf {P : Platform} (Q : World P → Type 0) : Type 0 where
  pub post : (w : World P) (r : Request) → Q w → Q (record w { requests = w.requests ++ (r ∷ []) })

module _ {P : Platform} {Q : World P → Type 0} (quiet : IsQuiet Q) where
  pub date_now-Keeps : Keeps Q date_now
  unfolding date_now
  date_now-Keeps = record { at = λ w h. quiet.env w (P.date_now w.env).1 h }

  pub random_uuid-Keeps : Keeps Q random_uuid
  unfolding random_uuid
  random_uuid-Keeps = record { at = λ w h. quiet.env w (P.random_uuid w.env).1 h }

  pub db_request-Keeps : Keeps Q db_request
  unfolding db_request
  db_request-Keeps = record { at = λ w h. quiet.env w (P.db_request w.env).1 h }

  pub fetch-Keeps_quiet : (r : Request) → r.body ≡ none → Keeps Q (fetch r)
  unfolding fetch
  fetch-Keeps_quiet r e = record {
    at = λ w h.
        quiet.request (record w { env = (P.fetch r w.env).1 }) r e
          (quiet.env w (P.fetch r w.env).1 h);
  }

  pub fetch-Keeps : IsDeaf Q → (r : Request) → Keeps Q (fetch r)
  unfolding fetch
  fetch-Keeps deaf r = record {
    at = λ w h.
        deaf.post (record w { env = (P.fetch r w.env).1 }) r (quiet.env w (P.fetch r w.env).1 h);
  }

pub to_iso-Keeps : {P : Platform} {Q : World P → Type 0} (ms : ℕ) → Keeps Q (to_iso ms)
unfolding to_iso
to_iso-Keeps ms = search keeps_rules

pub ruleset frame_rules =
    (keeps_rules, date_now-Keeps, random_uuid-Keeps, db_request-Keeps, to_iso-Keeps)

-- The stored account, histories, groups and timers.
pub record LocalData : Type 0 where
  pub account : Option LocalAccount
  pub messages : Dict (List ChatMessage)
  pub groups : Dict Group
  pub timers : Dict ℕ

-- `loadMessages` of a contact or a group, without the database
abbrev pub history_of : LocalData → String → List ChatMessage
history_of d id = or_default (lookup id d.messages) []

module _ {P : Platform} where
  abbrev pub local_data : World P → LocalData
  local_data w = record {
    account = w.account;
    messages = w.messages;
    groups = w.groups;
    timers = w.timers;
  }

  -- The local data is `d`.
  pub record HasData (d : LocalData) (w : World P) : Type 0 where
    pub same : local_data w ≡ d

  pub HasData-IsQuiet : (d : LocalData) → IsQuiet (HasData d)
  HasData-IsQuiet d = record {
    env = λ w e h. record { same = h.same };
    store = λ w s h. record { same = h.same };
    sessions = λ w s h. record { same = h.same };
    request = λ w r e h. record { same = h.same };
  }

  pub HasData-IsDeaf : (d : LocalData) → IsDeaf (HasData d)
  HasData-IsDeaf d = record { post = λ w r h. record { same = h.same } }

  abbrev pub history : World P → String → List ChatMessage
  history w id = history_of (local_data w) id
