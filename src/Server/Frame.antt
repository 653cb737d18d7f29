-- ===== src/Server/Frame.antt =====
-- server/src/routes: which steps of a route write to the database, and that a write which fails is not
-- made.
use mathlib.Core.Path.{subst}
use umbra_chat.Prelude.{◌≡◌, refl, ℕ, Option, none, some, sym, ap, ◌∙◌}
use umbra_chat.Http.{ApiError}
use umbra_chat.Exec.{Error, Result, ok, err, pure, throw, gets, modify, on_option, ◌>>=◌}
use umbra_chat.Exec.Atomic.{IsAtomic, IsAtomic-Keeps, IsAtomic-bind}
use umbra_chat.Exec.Bind.{bind-ok}
use umbra_chat.Exec.Keeps.{
  Keeps, Keeps-pure, Keeps-throw, Keeps-gets, Keeps-if, Keeps-bind, Keeps-on_option, Keeps-traverse,
  Keeps-step,
}
use umbra_chat.Server.Database.{Database}
use umbra_chat.Server.{server_error}
use umbra_chat.Server.Route.{
  Backend, Site, Route, refuse, ok_or, statement, query, set_db, execute, execute_returning, now,
  utc_now, gen_random_uuid, fill_bytes, commit, settle, transaction,
}

-- A property of the database, at a site.
pub record On {B : Backend} (P : Database → Type 0) (s : Site B) : Type 0 where
  pub holds : P s.db

abbrev pub IsAt : Database → Database → Type 0
IsAt before db = db ≡ before

module _ {B : Backend} {P : Database → Type 0} where
  pub statement-Keeps : Keeps (On {B = B} P) statement
  unfolding statement
  statement-Keeps = record { at = λ s h. record { holds = h.holds } }

  pub refuse-Keeps : {A : Type 0} (e : ApiError) → Keeps (On {B = B} P) (refuse {A = A} e)
  unfolding refuse
  refuse-Keeps e = Keeps-throw _

  pub ok_or-Keeps : {A : Type 0} (o : Option A) (e : ApiError) → Keeps (On {B = B} P) (ok_or o e)
  unfolding ok_or
  ok_or-Keeps o e = Keeps-on_option o _ _ (refuse-Keeps e) (λ a. Keeps-pure a)

  pub query-Keeps : {A : Type 0} (f : Database → A) → Keeps (On {B = B} P) (query f)
  unfolding query
  query-Keeps f = Keeps-bind _ _ statement-Keeps (λ _. Keeps-gets _)

  pub now-Keeps : Keeps (On {B = B} P) now
  unfolding now
  now-Keeps = record { at = λ s h. record { holds = h.holds } }

  pub utc_now-Keeps : Keeps (On {B = B} P) utc_now
  unfolding utc_now
  utc_now-Keeps = record { at = λ s h. record { holds = h.holds } }

  pub gen_random_uuid-Keeps : Keeps (On {B = B} P) gen_random_uuid
  unfolding gen_random_uuid
  gen_random_uuid-Keeps = record { at = λ s h. record { holds = h.holds } }

  pub fill_bytes-Keeps : (n : ℕ) → Keeps (On {B = B} P) (fill_bytes n)
  unfolding fill_bytes
  fill_bytes-Keeps n = record { at = λ s h. record { holds = h.holds } }

pub ok_or-ok :
    {B : Backend} {A : Type 0} (o : Option A) (e : ApiError) (s : Site B) {a : A} {t : Site B}
    → ok_or o e s ≡ (ok a, t)
    → (o ≡ some a) × (s ≡ t)
unfolding ok_or on_option refuse throw pure
ok_or-ok none e s h = cc
ok_or-ok (some a) e s h = (cc h, cc h)

-- A query reads what is there.
pub query-ok :
    {B : Backend} {A : Type 0} (f : Database → A) (s : Site B) {t : Site B} {a : A}
    → query f s ≡ (ok a, t)
    → (a ≡ f s.db) × (t.db ≡ s.db)
unfolding query gets
query-ok f s h =
    let (_, u, e, k) = bind-ok _ _ _ h in
    let q = Keeps-step (statement-Keeps {P = IsAt s.db}) e (record { holds = refl }) in
    (cc (k, q.holds), cc (k, q.holds))

written-ok :
    {B : Backend} (o : Option Database) (s : Site B) {t : Site B}
    → on_option o (refuse server_error) (λ db. modify (set_db db)) s ≡ (ok tt, t)
    → o ≡ some t.db
unfolding on_option refuse throw modify
written-ok none s h = cc
written-ok (some d) s h = cc

-- A write that returns was made on the database as it was.
pub execute-ok :
    {B : Backend} (f : Database → Option Database) (s : Site B) {t : Site B}
    → execute f s ≡ (ok tt, t)
    → f s.db ≡ some t.db
unfolding execute
execute-ok f s h =
    let (o, u, e, k) = bind-ok _ _ _ h in let (p, q) = query-ok f s e in sym p ∙ written-ok o u k

changed :
    {B : Backend} {A : Type 0} (b : A) (d : Database) (u : Site B) {a : A} {t : Site B}
    → (modify (set_db d) >>= λ _. pure b) u ≡ (ok a, t)
    → ◌≡◌ {A = A × Database} (b, d) (a, t.db)
unfolding modify pure ◌>>=◌
changed b d u h = cc h

pub execute_returning-ok :
    {B : Backend} {A : Type 0} (f : Database → A × Database) (s : Site B) {t : Site B} {a : A}
    → execute_returning f s ≡ (ok a, t)
    → f s.db ≡ (a, t.db)
unfolding execute_returning
execute_returning-ok f s h =
    let ((b, d), u, e, k) = bind-ok _ _ _ h in sym (query-ok f s e).0 ∙ changed b d u k

commit-err :
    {B : Backend} {A : Type 0} (a : A) (db : Database) (r : Result Unit × Site B) {e : Error}
    {t : Site B}
    → commit a db r ≡ (err e, t)
    → t.db ≡ db
commit-err a db (ok _, u) h = cc
commit-err a db (err e, u) h = cc h

settle-err :
    {B : Backend} {A : Type 0} (db : Database) (r : Result A) (u : Site B) {e : Error} {t : Site B}
    → settle db r u ≡ (err e, t)
    → t.db ≡ db
unfolding statement
settle-err db (ok a) u h = commit-err a db _ h
settle-err db (err e) u h = cc h

module _ {B : Backend} {P : Database → Type 0} where
  written-IsAtomic :
      (o : Option Database)
      → IsAtomic (On {B = B} P) (on_option o (refuse server_error) (λ d. modify (set_db d)))
  unfolding on_option modify
  written-IsAtomic none = IsAtomic-Keeps _ (refuse-Keeps server_error)
  written-IsAtomic (some d) = record { at = λ s t e h q. cc h }

  pub execute-IsAtomic : (f : Database → Option Database) → IsAtomic (On {B = B} P) (execute f)
  unfolding execute
  execute-IsAtomic f = IsAtomic-bind _ _ (query-Keeps f) written-IsAtomic

  pub execute_returning-IsAtomic :
      {A : Type 0} (f : Database → A × Database) → IsAtomic (On {B = B} P) (execute_returning f)
  unfolding execute_returning modify pure ◌>>=◌
  execute_returning-IsAtomic f =
      IsAtomic-bind _ _ (query-Keeps f) (λ p. record { at = λ s t e h q. record { holds = cc h } })

  -- A transaction that fails is rolled back.
  pub transaction-IsAtomic : {A : Type 0} (m : Route B A) → IsAtomic (On {B = B} P) (transaction m)
  unfolding transaction
  transaction-IsAtomic m = IsAtomic-bind _ _ (statement-Keeps {P = P}) (λ _. record {
    at = λ s t e h q. record { holds = subst P (sym (settle-err s.db (m s).0 (m s).1 h)) q.holds };
  })

commit-ok :
    {B : Backend} {A : Type 0} (a : A) (db : Database) (r : Result Unit × Site B) {b : A}
    {t : Site B}
    → commit a db r ≡ (ok b, t)
    → (a ≡ b) × (r.1.db ≡ t.db)
commit-ok a db (ok _, u) h = (cc h, cc h)
commit-ok a db (err e, u) h = cc h

settle-ok :
    {B : Backend} {A : Type 0} (db : Database) (r : Result A) (u : Site B) {b : A} {t : Site B}
    → settle db r u ≡ (ok b, t)
    → (r ≡ ok b) × (t.db ≡ u.db)
unfolding statement
settle-ok db (ok a) u h = let (p, q) = commit-ok a db _ h in (ap ok p, sym q)
settle-ok db (err e) u h = cc h

-- A transaction that returns leaves what was done in it.
pub transaction-ok :
    {B : Backend} {A : Type 0} (m : Route B A) (s : Site B) {a : A} {t : Site B}
    → transaction m s ≡ (ok a, t)
    → (u : Site B) × (v : Site B) × (u.db ≡ s.db) × (m u ≡ (ok a, v)) × (t.db ≡ v.db)
unfolding transaction
transaction-ok m s h =
    let (_, u, e, k) = bind-ok _ _ _ h in
    let q = Keeps-step (statement-Keeps {P = IsAt s.db}) e (record { holds = refl }) in
    let (p, r) = settle-ok u.db (m u).0 (m u).1 k in (u, (m u).1, q.holds, (λ i. (p i, (m u).1)), r)

pub ruleset route_rules = (
  Keeps-pure, Keeps-throw, Keeps-gets, Keeps-if, Keeps-bind, Keeps-on_option, Keeps-traverse,
  statement-Keeps, refuse-Keeps, ok_or-Keeps, query-Keeps, now-Keeps, utc_now-Keeps,
  gen_random_uuid-Keeps, fill_bytes-Keeps,
)
