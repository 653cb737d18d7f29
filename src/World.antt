-- ===== src/World.antt =====
-- The state that the client's functions share: the browser's stores, the loaded sessions and the
-- environment; and the effects that reach the environment.
pub mod Frame
use umbra_chat.Prelude.{ℕ, String, Option, none, some, List, [], ◌∷◌, ◌++◌, leb, if◌then◌else◌}
use umbra_chat.Prelude.Dict.{Dict}
use umbra_chat.Identity.{Bytes, LocalAccount}
use umbra_chat.Message.{ChatMessage, Group}
use umbra_chat.Call.Data.{CallMachine}
use umbra_chat.Http.{Request, Response}
use umbra_chat.Platform.{Platform}
use umbra_chat.Exec.{thrown, type_error, range_error, Result, ok, err, Exec, pure, throw}

module _ (P : Platform) where
  -- `InMemSignalProtocolStore`: its session store, and its identity and prekey stores.
  pub record SignalStore : Type 0 where
    pub session_store : Dict P.SessionRecord
    pub keys : P.KeyStores

  pub record World : Type 0 where
    pub env : P.Env
    -- every request that was handed to `fetch`, the latest one last
    pub requests : List Request
    -- the `SignalStore` that the running functions were given
    pub store : SignalStore
    -- the object stores: `identity` (its one record), `sessions`, `messages`, `groups`
    pub account : Option LocalAccount
    pub sessions : Dict Bytes
    pub messages : Dict (List ChatMessage)
    pub groups : Dict Group
    -- localStorage: the entries `umbrachat:timer:…`
    pub timers : Dict ℕ
    -- the variables of chat/call.ts
    pub call : CallMachine

abbrev pub Io : Platform → Type 0 → Type 0
Io P A = Exec (World P) A

abbrev rejected : Option String → Result (Unit {0})
rejected none = ok tt
rejected (some message) = err (thrown message)

abbrev answered : Option Response → Result Response
answered none = err type_error
answered (some r) = ok r

module _ {P : Platform} where
  -- `Date.now()`
  unfoldable pub date_now : Io P ℕ
  date_now w = let (t, e) = P.date_now w.env in (ok t, record w { env = e })

  -- `crypto.randomUUID()`
  unfoldable pub random_uuid : Io P String
  random_uuid w = let (t, e) = P.random_uuid w.env in (ok t, record w { env = e })

  -- `openDb()` and one request, up to `onsuccess` or `onerror`
  unfoldable pub db_request : Io P Unit
  db_request w = let (r, e) = P.db_request w.env in (rejected r, record w { env = e })

  unfoldable pub fetch : Request → Io P Response
  fetch request w =
      let (r, e) = P.fetch request w.env in
      (answered r, record w { env = e; requests = w.requests ++ (request ∷ []) })

  -- `new Date(ms).toISOString()`: past the greatest time value it throws
  unfoldable pub to_iso : ℕ → Io P ℕ
  to_iso ms = if leb ms 8640000000000000 then pure ms else throw range_error
