-- ===== src/Server/Route.antt =====
-- How a route of the server runs: statements on the database, each of which may fail, and transactions.
-- A route runs to its end before the next one starts.
use umbra_chat.Prelude.{ℕ, String, Bool, true, false, Option, List}
use umbra_chat.Identity.{Bytes}
use umbra_chat.Http.{ApiError}
use umbra_chat.Exec.{
  refused, Result, ok, err, Exec, pure, throw, gets, modify, on_option, ◌>>=◌, ◌>>◌,
}
use umbra_chat.Server.{server_error}
use umbra_chat.Server.Database.{Database}

pub record Backend : Type 1 where
  pub Env : Type 0
  -- whether a statement, or a commit, succeeds
  pub statement : Env → Bool × Env
  -- the database's `now()`; `Utc::now()`: microseconds
  pub now : Env → ℕ × Env
  pub utc_now : Env → ℕ × Env
  -- `gen_random_uuid()`, `rand::rng().fill_bytes`
  pub gen_random_uuid : Env → String × Env
  pub fill_bytes : ℕ → Env → Bytes × Env
  -- the rows of a statement without ORDER BY, in the order in which they come back
  pub any_order : {A : Type 0} → Env → List A → List A
  pub decode_base64 : String → Option Bytes
  pub encode_base64 : Bytes → String
  -- `IdentityKey::decode`, `verify_signature`, `kem::PublicKey::deserialize`, `PublicKey::deserialize`
  pub IdentityKey : Type 0
  pub decode_key : Bytes → Option IdentityKey
  pub verify_signature : IdentityKey → Bytes → Bytes → Bool
  pub is_kyber_key : Bytes → Bool
  pub is_public_key : Bytes → Bool

module _ (B : Backend) where
  pub record Site : Type 0 where
    pub env : B.Env
    pub db : Database

abbrev pub Route : Backend → Type 0 → Type 0
Route B A = Exec (Site B) A

abbrev pub came_back : Bool → Result (Unit {0})
came_back true = ok tt
came_back false = err (refused server_error)

module _ {B : Backend} where
  unfoldable pub refuse : {A : Type 0} → ApiError → Route B A
  unfolding throw
  refuse e = throw (refused e)

  -- `o.ok_or_else(…)?`
  unfoldable pub ok_or : {A : Type 0} → Option A → ApiError → Route B A
  unfolding on_option refuse pure
  ok_or o e = on_option o (refuse e) pure

  -- `.await.map_err(|_| server_error())?`
  unfoldable pub statement : Route B Unit
  statement s = let (b, e) = B.statement s.env in (came_back b, record s { env = e })

  unfoldable pub query : {A : Type 0} → (Database → A) → Route B A
  unfolding statement gets
  query f = do statement; gets (λ s. f s.db)

  abbrev pub set_db : Database → Site B → Site B
  set_db db s = record s { db = db }

  unfoldable pub execute : (Database → Option Database) → Route B Unit
  unfolding query refuse on_option modify
  execute f = do
    written ← query f
    on_option written (refuse server_error) (λ db. modify (set_db db))

  -- A statement with RETURNING.
  unfoldable pub execute_returning : {A : Type 0} → (Database → A × Database) → Route B A
  unfolding query modify pure
  execute_returning f = do (a, db) ← query f; modify (set_db db); pure a

  unfoldable pub now : Route B ℕ
  now s = let (t, e) = B.now s.env in (ok t, record s { env = e })

  unfoldable pub utc_now : Route B ℕ
  utc_now s = let (t, e) = B.utc_now s.env in (ok t, record s { env = e })

  unfoldable pub gen_random_uuid : Route B String
  gen_random_uuid s = let (u, e) = B.gen_random_uuid s.env in (ok u, record s { env = e })

  unfoldable pub fill_bytes : ℕ → Route B Bytes
  fill_bytes n s = let (bytes, e) = B.fill_bytes n s.env in (ok bytes, record s { env = e })

  abbrev pub commit : {A : Type 0} → A → Database → Result (Unit {0}) × Site B → Result A × Site B
  commit a before (ok _, t) = (ok a, t)
  commit a before (err e, t) = (err e, set_db before t)

  abbrev pub settle : {A : Type 0} → Database → Result A → Site B → Result A × Site B
  unfolding statement
  settle before (ok a) t = commit a before (statement t)
  settle before (err e) t = (err e, set_db before t)

  -- `pool.begin()`, what is done in it, `tx.commit()`: a transaction that is dropped is rolled back
  unfoldable pub transaction : {A : Type 0} → Route B A → Route B A
  unfolding statement
  transaction m = do statement; (λ s. let (r, t) = m s in settle s.db r t)
