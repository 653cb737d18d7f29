-- ===== src/Server/Writes.antt =====
-- server/src/routes: properties of the database that a write keeps.
use mathlib.Core.Path.{subst}
use umbra_chat.Prelude.{◌≡◌, refl, Bool, true, false, Option, none, some, if◌then◌else◌, sym, ◌∙◌}
use umbra_chat.Exec.{Result, ok, err, pure, throw, modify, on_option, ◌>>=◌}
use umbra_chat.Exec.Keeps.{Keeps, Keeps-bind, Keeps-bind_from}
use umbra_chat.Server.{server_error}
use umbra_chat.Server.Database.{Database}
use umbra_chat.Server.Frame.{On, query-ok, query-Keeps, statement-Keeps}
use umbra_chat.Server.Route.{
  Backend, Site, Route, refuse, statement, query, set_db, execute, execute_returning, commit,
  settle, transaction,
}

pub guarded : (b : Bool) {d d' : Database} → (if b then none else some d) ≡ some d' → d ≡ d'
guarded true h = cc
guarded false h = cc h

module _ {B : Backend} {P : Database → Type 0} where
  write_holds :
      (o : Option Database) (s : Site B)
      → On P s
      → ((d : Database) → o ≡ some d → P d)
      → On P (on_option o (refuse server_error) (λ d. modify (set_db d)) s).1
  unfolding on_option refuse throw modify
  write_holds none s h k = h
  write_holds (some d) s h k = record { holds = k d refl }

  pub Keeps-execute :
      (f : Database → Option Database)
      → ((db db' : Database) → f db ≡ some db' → P db → P db')
      → Keeps (On {B = B} P) (execute f)
  unfolding execute
  Keeps-execute f k = record {
    at = λ s h.
        Keeps-bind_from (On P) (query f) _ s (query-Keeps f) h
          (λ o t e q. write_holds o t q (λ d p. k s.db d (sym (query-ok f s e).0 ∙ p) h.holds));
  }

  -- An insertion that keeps `P`.
  pub Keeps-insert :
      (broken : Database → Bool) (g : Database → Database)
      → ((db : Database) → P db → P (g db))
      → Keeps (On {B = B} P) (execute (λ db. if broken db then none else some (g db)))
  Keeps-insert broken g k = Keeps-execute _ (λ db db' h p. subst P (guarded (broken db) h) (k db p))

  change_holds :
      {A : Type 0} (a : A) (d : Database) (s : Site B)
      → P d
      → On P ((modify (set_db d) >>= λ _. pure a) s).1
  unfolding modify pure ◌>>=◌
  change_holds a d s p = record { holds = p }

  pub Keeps-execute_returning :
      {A : Type 0} (f : Database → A × Database)
      → ((db : Database) → P db → P (f db).1)
      → Keeps (On {B = B} P) (execute_returning f)
  unfolding execute_returning
  Keeps-execute_returning f k = record {
    at = λ s h. Keeps-bind_from (On P) (query f) _ s (query-Keeps f) h (λ r t e q.
        change_holds r.0 r.1 t (subst (λ p. P p.1) (sym (query-ok f s e).0) (k s.db h.holds)));
  }

  commit_holds :
      {A : Type 0} (a : A) (db : Database) (r : Result Unit × Site B)
      → P db
      → On P r.1
      → On P (commit a db r).1
  commit_holds a db (ok _, u) p h = h
  commit_holds a db (err e, u) p h = record { holds = p }

  settle_holds :
      {A : Type 0} (db : Database) (r : Result A) (u : Site B)
      → P db
      → On P u
      → On P (settle db r u).1
  unfolding statement
  settle_holds db (ok a) u p h = commit_holds a db (statement u) p (record { holds = h.holds })
  settle_holds db (err e) u p h = record { holds = p }

  pub Keeps-transaction :
      {A : Type 0} (m : Route B A) → Keeps (On {B = B} P) m → Keeps (On {B = B} P) (transaction m)
  unfolding transaction
  Keeps-transaction m k =
      Keeps-bind _ _ statement-Keeps
        (λ _. record { at = λ s h. settle_holds s.db (m s).0 (m s).1 h.holds (k.at s h) })
