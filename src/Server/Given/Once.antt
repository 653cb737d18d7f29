-- ===== src/Server/Given/Once.antt =====
-- server/src/routes/prekey_bundle.rs: what a bundle hands out was not handed out before, and is not after.
use mathlib.Core.Path.{subst}
use umbra_chat.Prelude.{
  ◌≡◌, ◌≢◌, refl, ap, sym, ℕ, String, ◌==◌, eq_iff, false, Option, none, some, List, [], ◌∷◌, All,
  if_holds,
}
use umbra_chat.Exec.{Result, ok, err}
use umbra_chat.Exec.Bind.{bind-ok, ok-injective}
use umbra_chat.Exec.Keeps.{Keeps-pure, Keeps-step}
use umbra_chat.Server.Calls.{
  Call, Reply, posts_register, gets_prekey_bundle, deletes_device, gets_devices, posts_devices,
  posts_link_init, posts_message, gets_messages, bundled, handle, serve,
}
use umbra_chat.Server.Database.{Database, PrekeyRow, is_prekey, least_unused, take_prekey, claim}
use umbra_chat.Server.Frame.{On, IsAt}
use umbra_chat.Server.Given.{
  number_of, accepted_bundle, given_in, given_of, with_number, IsDistinct, Spent, answered-Spent,
  get_prekey_bundle-ok,
}
use umbra_chat.Server.Once.{deletes_in}
use umbra_chat.Server.Route.{Backend, Site}
use umbra_chat.Server.Routes.Prekeys.{PrekeyBundleResponse, one_time_prekey_out, get_prekey_bundle}
use umbra_chat.Server.Spent.{IsSpent-now, least_unused-unspent, find-holds, is_prekey-eq}

with-All :
    (P : ℕ → Type 0) (o : Option ℕ) (ns : List ℕ)
    → ((n : ℕ) → o ≡ some n → P n)
    → All P ns
    → All P (with_number o ns)
with-All P none ns f h = h
with-All P (some n) ns f h = (f n refl, h)

with-IsDistinct :
    (o : Option ℕ) (ns : List ℕ)
    → IsDistinct ns
    → ((n : ℕ) → o ≡ some n → All (λ m. n ≢ m) ns)
    → IsDistinct (with_number o ns)
with-IsDistinct none ns h f = h
with-IsDistinct (some n) ns h f = (f n refl, h)

module _ (B : Backend) (d : String) where
  -- The number that is given was not spent, and is.
  claim-gives :
      (o : Option ℕ) (db t : Database) (k : Option PrekeyRow)
      → least_unused d db.prekeys ≡ o
      → claim d o db ≡ (k, t)
      → (n : ℕ) → number_of (one_time_prekey_out B k) ≡ some n
      → (¬ Spent d n db) × Spent d n t
  claim-gives o db t none h e n g = cc g
  claim-gives none db t (some row) h e n g = cc e
  claim-gives (some m) db t (some row) h e n g =
      let found = ap (λ p. p.0) e in
      let (_, same) = is_prekey-eq d m row (find-holds (is_prekey d m) db.prekeys row found) in
      subst (λ j. (¬ Spent d j db) × Spent d j t) (cc (same, g))
        (
          (λ q. least_unused-unspent d m db.prekeys h q.1),
          subst (Spent d m) (ap (λ p. p.1) e) (IsSpent-now d m db.prekeys row found),
        )

module _ {B : Backend} (d : String) where
  bundle-gives :
      (id : String) (s t : Site B) (b : PrekeyBundleResponse)
      → get_prekey_bundle id s ≡ (ok b, t)
      → (n : ℕ) → accepted_bundle d (gets_prekey_bundle id) (bundled b) ≡ some n
      → (¬ Spent d n s.db) × Spent d n t.db
  bundle-gives id s t b h n =
      let (k, taken, same) = get_prekey_bundle-ok id s h in
      if_holds (λ o. o ≡ some n → (¬ Spent d n s.db) × Spent d n t.db) (id == d)
        (λ here g.
          claim-gives B d (least_unused d s.db.prekeys) s.db t.db k refl
            (subst (λ j. take_prekey j s.db ≡ (k, t.db)) ((eq_iff id d).0 here) taken) n
            (cc (g, same)))
        (λ _ g. cc g)

  accepted-gives :
      (c : Call) (s t : Site B) (r : Reply)
      → handle c s ≡ (ok r, t)
      → (n : ℕ) → accepted_bundle d c r ≡ some n
      → (¬ Spent d n s.db) × Spent d n t.db
  unfolding handle
  accepted-gives (gets_prekey_bundle id) s t r h n g =
      let (b, u, e, k) = bind-ok _ _ _ h in
      let q = Keeps-step (Keeps-pure {Q = On (IsAt u.db)} _) k (record { holds = refl }) in
      subst
        (λ r.
          accepted_bundle d (gets_prekey_bundle id) r ≡ some n
          → (¬ Spent d n s.db) × Spent d n t.db)
        (ok-injective k)
        (subst
          (λ db.
            accepted_bundle d (gets_prekey_bundle id) (bundled b) ≡ some n
            → (¬ Spent d n s.db) × Spent d n db)
          (sym q.holds) (bundle-gives id s u b e n))
        g
  accepted-gives (posts_register req) s t r h n g = cc g
  accepted-gives (deletes_device caller id) s t r h n g = cc g
  accepted-gives (gets_devices id) s t r h n g = cc g
  accepted-gives (posts_devices id req) s t r h n g = cc g
  accepted-gives (posts_link_init caller id) s t r h n g = cc g
  accepted-gives (posts_message sender req) s t r h n g = cc g
  accepted-gives (gets_messages id) s t r h n g = cc g

  answered-gives :
      (c : Call) (s : Site B) (r : Result Reply)
      → (handle c s).0 ≡ r
      → (n : ℕ) → given_in d (c, r) ≡ some n
      → (¬ Spent d n s.db) × Spent d n (handle c s).1.db
  answered-gives c s (ok r) h n g =
      accepted-gives c s (handle c s).1 r (λ i. (h i, (handle c s).1)) n g
  answered-gives c s (err e) h n g = cc g

  -- What is spent is not given.
  serve-spares :
      (m : ℕ) (cs : List Call) (s : Site B)
      → All (λ e. deletes_in e ≡ false) (serve cs s).0
      → Spent d m s.db
      → All (λ n. m ≢ n) (given_of d (serve cs s).0)
  unfolding serve
  serve-spares m [] s k q = tt
  serve-spares m (c ∷ cs) s (k, ks) q =
      with-All (λ n. m ≢ n) _ _
        (λ n g same. (answered-gives c s _ refl n g).0 (subst (λ j. Spent d j s.db) same q))
        (serve-spares m cs (handle c s).1 ks (answered-Spent d m c s _ refl k q))

  -- As long as no device is deleted, no one-time prekey of a device is handed out twice.
  pub given_once :
      (cs : List Call) (s : Site B)
      → All (λ e. deletes_in e ≡ false) (serve cs s).0
      → IsDistinct (given_of d (serve cs s).0)
  unfolding serve
  given_once [] s k = tt
  given_once (c ∷ cs) s (k, ks) =
      with-IsDistinct _ _ (given_once cs (handle c s).1 ks)
        (λ n g. serve-spares n cs (handle c s).1 ks (answered-gives c s _ refl n g).1)
