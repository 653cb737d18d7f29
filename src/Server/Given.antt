-- ===== src/Server/Given.antt =====
-- server/src/routes/prekey_bundle.rs: a one-time prekey is handed out once.
pub mod Once
use mathlib.Core.Path.{subst}
use umbra_chat.Prelude.{
  ◌≡◌, ◌≢◌, refl, ap, sym, ◌∙◌, ℕ, String, ◌==◌, eq_iff, Bool, true, false, Bool-cases, Option,
  none, some, List, [], ◌∷◌, ◌++◌, map, find, All, if◌then◌else◌, if_holds,
}
use umbra_chat.Exec.{Result, ok, err, pure, ◌>>=◌}
use umbra_chat.Exec.Bind.{bind-ok, ok-injective}
use umbra_chat.Exec.Keeps.{Keeps, Keeps-bind, Keeps-gets, Keeps-pure, Keeps-step}
use umbra_chat.Server.Calls.{
  Call, Reply, Log, posts_register, gets_prekey_bundle, deletes_device, gets_devices, posts_devices,
  posts_link_init, posts_message, gets_messages, bundled, unlinked, handle, serve,
}
use umbra_chat.Server.Database.{
  Database, MessageRow, PrekeyRow, is_prekey, least_unused, use_prekey, take_prekey, claim,
}
use umbra_chat.Server.Errors.{handle-err, list_devices-Keeps}
use umbra_chat.Server.Frame.{
  On, IsAt, query-Keeps, ok_or-Keeps, now-Keeps, gen_random_uuid-Keeps, execute_returning-ok,
}
use umbra_chat.Server.Once.{deletes_in}
use umbra_chat.Server.Route.{Backend, Site}
use umbra_chat.Server.Routes.Messages.{send_message, fetch_messages}
use umbra_chat.Server.Routes.Prekeys.{
  PrekeyBundleResponse, OneTimePrekeyOut, one_time_prekey_out, get_prekey_bundle,
}
use umbra_chat.Server.Spent.{
  IsSpent, IsSpent-added, IsSpent-used, IsSpent-now, least_unused-unspent, find-holds, is_prekey-eq,
}
use umbra_chat.Server.Tables.{
  register-Keeps, complete_link-Keeps, link_init-Keeps, get_prekey_bundle-Keeps, send_message-Keeps,
  fetch_messages-Keeps,
}
use umbra_chat.Server.Writes.{Keeps-execute_returning, Keeps-insert}

abbrev pub number_of : Option OneTimePrekeyOut → Option ℕ
number_of none = none
number_of (some k) = some k.key_id

abbrev pub accepted_bundle : String → Call → Reply → Option ℕ
accepted_bundle d (gets_prekey_bundle id) (bundled b) =
    if id == d then number_of b.one_time_prekey else none
accepted_bundle d _ _ = none

abbrev pub given_in : String → Call × Result Reply → Option ℕ
given_in d (c, err e) = none
given_in d (c, ok r) = accepted_bundle d c r

abbrev pub with_number : Option ℕ → List ℕ → List ℕ
with_number none ns = ns
with_number (some n) ns = n ∷ ns

-- The numbers of the one-time prekeys of the device `d` that were handed out, first to last.
abbrev pub given_of : String → Log → List ℕ
given_of d [] = []
given_of d (e ∷ log) = with_number (given_in d e) (given_of d log)

abbrev pub IsDistinct : List ℕ → Type 0
IsDistinct [] = Unit
IsDistinct (n ∷ ns) = All (λ m. n ≢ m) ns × IsDistinct ns

abbrev pub Spent : String → ℕ → Database → Type 0
Spent d n db = IsSpent d n db.prekeys

claim-Spent :
    (d e : String) (n : ℕ) (o : Option ℕ) (db : Database)
    → Spent d n db
    → Spent d n (claim e o db).1
claim-Spent d e n none db h = h
claim-Spent d e n (some m) db h = IsSpent-used d e n m db.prekeys h

module _ {B : Backend} (d : String) (n : ℕ) where
  handle-Spent :
      (c : Call) → deletes_in (c, ok unlinked) ≡ false → Keeps (On {B = B} (Spent d n)) (handle c)
  unfolding handle
  handle-Spent (posts_register req) k =
      Keeps-bind _ _
        (register-Keeps {Q = λ _ ks _. IsSpent d n ks}
          (λ k rows ks ls f h. IsSpent-added d n k ks f h) req)
        (λ r. Keeps-pure _)
  handle-Spent (gets_prekey_bundle id) k =
      Keeps-bind _ _ (get_prekey_bundle-Keeps id (λ db h. claim-Spent d id n _ db h))
        (λ b. Keeps-pure _)
  handle-Spent (deletes_device caller id) k = cc k
  handle-Spent (gets_devices id) k = Keeps-bind _ _ (list_devices-Keeps id) (λ ds. Keeps-pure _)
  handle-Spent (posts_devices id req) k =
      Keeps-bind _ _
        (complete_link-Keeps {Q = λ _ ks _. IsSpent d n ks}
          (λ k rows ks ls f h. IsSpent-added d n k ks f h) (λ p rows ks ls h. h) id req)
        (λ r. Keeps-pure _)
  handle-Spent (posts_link_init caller id) k =
      Keeps-bind _ _ (link_init-Keeps (λ _ ks _. IsSpent d n ks) (λ l rows ks ls f h. h) caller id)
        (λ code. Keeps-pure _)
  handle-Spent (posts_message sender req) k =
      Keeps-bind _ _ (send_message-Keeps sender req (λ m db h. h)) (λ id. Keeps-pure _)
  handle-Spent (gets_messages id) k =
      Keeps-bind _ _ (fetch_messages-Keeps id (λ p db h. h)) (λ ms. Keeps-pure _)

  -- Through any call that deletes no device.
  pub answered-Spent :
      (c : Call) (s : Site B) (r : Result Reply)
      → (handle c s).0 ≡ r
      → deletes_in (c, r) ≡ false
      → Spent d n s.db
      → Spent d n (handle c s).1.db
  answered-Spent c s (ok r) h k q = ((handle-Spent c k).at s (record { holds = q })).holds
  answered-Spent c s (err e) h k q =
      subst (Spent d n) (sym (handle-err c s (handle c s).1 e (λ i. (h i, (handle c s).1)))) q

module _ {B : Backend} where
  pub get_prekey_bundle-ok :
      (id : String) (s : Site B) {t : Site B} {b : PrekeyBundleResponse}
      → get_prekey_bundle id s ≡ (ok b, t)
      → (k : Option PrekeyRow) × (take_prekey id s.db ≡ (k, t.db))
        × (b.one_time_prekey ≡ one_time_prekey_out B k)
  unfolding get_prekey_bundle
  get_prekey_bundle-ok id s h =
      let (found1, s1, e1, k1) = bind-ok _ _ _ h in
      let (identity, s2, e2, k2) = bind-ok _ _ _ k1 in
      let (found2, s3, e3, k3) = bind-ok _ _ _ k2 in
      let (signed, s4, e4, k4) = bind-ok _ _ _ k3 in
      let (found3, s5, e5, k5) = bind-ok _ _ _ k4 in
      let (kyber, s6, e6, k6) = bind-ok _ _ _ k5 in
      let (one, s7, e7, k7) = bind-ok _ _ _ k6 in
      let q1 = Keeps-step (query-Keeps {P = IsAt s.db} _) e1 (record { holds = refl }) in
      let q2 = Keeps-step (ok_or-Keeps {P = IsAt s.db} found1 _) e2 q1 in
      let q3 = Keeps-step (query-Keeps {P = IsAt s.db} _) e3 q2 in
      let q4 = Keeps-step (ok_or-Keeps {P = IsAt s.db} found2 _) e4 q3 in
      let q5 = Keeps-step (query-Keeps {P = IsAt s.db} _) e5 q4 in
      let q6 = Keeps-step (ok_or-Keeps {P = IsAt s.db} found3 _) e6 q5 in
      let q8 = Keeps-step (Keeps-pure {Q = On (IsAt s7.db)} _) k7 (record { holds = refl }) in
      (
        one,
        ap (take_prekey id) (sym q6.holds)
            ∙ execute_returning-ok (take_prekey id) s6 e7
            ∙ ap (λ db. (one, db)) (sym q8.holds),
        ap (λ b. b.one_time_prekey) (sym (ok-injective k7)),
      )
