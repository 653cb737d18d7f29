-- ===== src/Server/Links/Step.antt =====
-- server/src/routes/devices.rs: what a call does to the codes.
use mathlib.Core.Path.{subst}
use umbra_chat.Prelude.{
  ◌≡◌, refl, ap, sym, ◌∙◌, ◌+◌, String, ◌==◌, eq_iff, false, some, [], ◌∷◌, ◌++◌, if_holds,
}
use umbra_chat.Api.{hex}
use umbra_chat.Exec.{Result, ok, err, pure, ◌>>=◌}
use umbra_chat.Exec.Bind.{bind-ok, ok-injective}
use umbra_chat.Exec.Keeps.{Keeps, Keeps-bind, Keeps-pure, Keeps-step}
use umbra_chat.Server.Calls.{
  Call, Reply, posts_register, gets_prekey_bundle, deletes_device, gets_devices, posts_devices,
  posts_link_init, posts_message, gets_messages, linked, code_made, handle,
}
use umbra_chat.Server.Codes.{
  IsAbsent, IsKeyed, IsAbsent-filter, IsKeyed-filter, IsAbsent-append, IsKeyed-append, find_absent,
}
use umbra_chat.Server.Database.{Database, LinkRow, insert_link}
use umbra_chat.Server.Errors.{handle-err, require_same_account-Keeps}
use umbra_chat.Server.Frame.{On, IsAt, utc_now-Keeps, fill_bytes-Keeps, execute-ok}
use umbra_chat.Server.Links.{
  accepted_link, linked_in, made, makes, is_init, handle-links, complete_link-ok,
}
use umbra_chat.Server.Route.{Backend, Site, execute}
use umbra_chat.Server.Routes.Devices.{CompleteLinkRequest, link_code_ttl, link_init}
use umbra_chat.Server.Tables.{link_init-Keeps}
use umbra_chat.Server.Writes.{guarded}

minted-ok :
    {B : Backend} (l : LinkRow) (s : Site B) {code : String} {t : Site B}
    → (execute (insert_link l) >>= λ _. pure l.code) s ≡ (ok code, t)
    → (l.code ≡ code) × (t.db.pending_device_links ≡ s.db.pending_device_links ++ (l ∷ []))
unfolding pure
minted-ok l s h =
    let (_, u, e, k) = bind-ok _ _ _ h in
    let same = guarded _ (execute-ok (insert_link l) s e) in
    let kept = Keeps-step (Keeps-pure {Q = On (IsAt u.db)} l.code) k (record { holds = refl }) in
    (ok-injective k, ap (λ db. db.pending_device_links) (kept.holds ∙ sym same))

module _ {B : Backend} where
  -- The code that was made is the only one that is new.
  link_init-ok :
      (caller account_id : String) (s : Site B) {t : Site B} {code : String}
      → link_init caller account_id s ≡ (ok code, t)
      → (l : LinkRow) × (l.code ≡ code)
        × (t.db.pending_device_links ≡ s.db.pending_device_links ++ (l ∷ []))
  unfolding link_init
  link_init-ok caller account_id s h =
      let (_, s1, e1, k1) = bind-ok _ _ _ h in
      let q1 =
        Keeps-step (require_same_account-Keeps {P = IsAt s.db} caller account_id) e1
          (record { holds = refl }) in
      let (raw, s2, e2, k2) = bind-ok _ _ _ k1 in
      let q2 = Keeps-step (fill_bytes-Keeps {P = IsAt s.db} 8) e2 q1 in
      let (started, s3, e3, k3) = bind-ok _ _ _ k2 in
      let q3 = Keeps-step (utc_now-Keeps {P = IsAt s.db}) e3 q2 in
      let l : LinkRow = record {
        code = hex raw;
        account_id = account_id;
        expires_at = started + link_code_ttl;
      } in
      let (named, added) = minted-ok l s3 k3 in
      (l, named, added ∙ ap (λ db. db.pending_device_links ++ (l ∷ [])) q3.holds)

  pub handle-IsKeyed :
      (c : Call) → Keeps (On {B = B} (λ db. IsKeyed db.pending_device_links)) (handle c)
  unfolding handle
  handle-IsKeyed (posts_link_init caller id) =
      Keeps-bind _ _
        (link_init-Keeps (λ _ _ ls. IsKeyed ls) (λ l rows ks ls f h. IsKeyed-append l ls f h) caller
          id)
        (λ code. Keeps-pure _)
  handle-IsKeyed (posts_register req) =
      handle-links {L = IsKeyed} IsKeyed-filter (posts_register req) refl
  handle-IsKeyed (gets_prekey_bundle id) =
      handle-links {L = IsKeyed} IsKeyed-filter (gets_prekey_bundle id) refl
  handle-IsKeyed (deletes_device caller id) =
      handle-links {L = IsKeyed} IsKeyed-filter (deletes_device caller id) refl
  handle-IsKeyed (gets_devices id) =
      handle-links {L = IsKeyed} IsKeyed-filter (gets_devices id) refl
  handle-IsKeyed (posts_devices id req) =
      handle-links {L = IsKeyed} IsKeyed-filter (posts_devices id req) refl
  handle-IsKeyed (posts_message sender req) =
      handle-links {L = IsKeyed} IsKeyed-filter (posts_message sender req) refl
  handle-IsKeyed (gets_messages id) =
      handle-links {L = IsKeyed} IsKeyed-filter (gets_messages id) refl

abbrev pub Absent : String → Database → Type 0
Absent code db = IsAbsent code db.pending_device_links

module _ {B : Backend} (code : String) where
  init-Absent :
      (caller id : String) (s t : Site B) (r : Reply)
      → handle (posts_link_init caller id) s ≡ (ok r, t)
      → made code r ≡ false
      → Absent code s.db
      → Absent code t.db
  unfolding handle pure
  init-Absent caller id s t r h k a =
      let (other, u, e, k') = bind-ok _ _ _ h in
      let (l, named, added) = link_init-ok caller id s e in
      let q =
        Keeps-step (Keeps-pure {Q = On (IsAt u.db)} (code_made other)) k'
          (record { holds = refl }) in
      let apart : (l.code == code) ≡ false =
        ap (λ x. x == code) named ∙ ap (made code) (ok-injective k') ∙ k in
      subst (IsAbsent code) (sym added ∙ ap (λ db. db.pending_device_links) (sym q.holds))
        (IsAbsent-append code l s.db.pending_device_links apart a)

  other-Absent :
      (c : Call) (s t : Site B) (r : Reply)
      → is_init c ≡ false
      → handle c s ≡ (ok r, t)
      → Absent code s.db
      → Absent code t.db
  other-Absent c s t r i h a =
      (Keeps-step (handle-links {L = IsAbsent code} (IsAbsent-filter code) c i) h
        (record { holds = a })).holds

  accepted-Absent :
      (c : Call) (s t : Site B) (r : Reply)
      → handle c s ≡ (ok r, t)
      → made code r ≡ false
      → Absent code s.db
      → Absent code t.db
  accepted-Absent (posts_link_init caller id) s t r h k a = init-Absent caller id s t r h k a
  accepted-Absent (posts_register req) s t r h k a = other-Absent _ s t r refl h a
  accepted-Absent (gets_prekey_bundle id) s t r h k a = other-Absent _ s t r refl h a
  accepted-Absent (deletes_device caller id) s t r h k a = other-Absent _ s t r refl h a
  accepted-Absent (gets_devices id) s t r h k a = other-Absent _ s t r refl h a
  accepted-Absent (posts_devices id req) s t r h k a = other-Absent _ s t r refl h a
  accepted-Absent (posts_message sender req) s t r h k a = other-Absent _ s t r refl h a
  accepted-Absent (gets_messages id) s t r h k a = other-Absent _ s t r refl h a

  pub answered-Absent :
      (c : Call) (s : Site B) (r : Result Reply)
      → (handle c s).0 ≡ r
      → makes code (c, r) ≡ false
      → Absent code s.db
      → Absent code (handle c s).1.db
  answered-Absent c s (ok r) h k a =
      accepted-Absent c s (handle c s).1 r (λ i. (h i, (handle c s).1)) k a
  answered-Absent c s (err e) h k a =
      subst (Absent code) (sym (handle-err c s (handle c s).1 e (λ i. (h i, (handle c s).1)))) a

  complete-links :
      (account_id : String) (req : CompleteLinkRequest) (s t : Site B) (r : Reply)
      → handle (posts_devices account_id req) s ≡ (ok r, t)
      → IsKeyed s.db.pending_device_links
      → (id : String) → accepted_link code (posts_devices account_id req) r ≡ some id
      → (¬ Absent code s.db) × Absent code t.db
  unfolding handle pure
  complete-links account_id req s t r h keyed id g =
      let (made_id, u, e, k) = bind-ok _ _ _ h in
      let (started, l, opened, gone) = complete_link-ok account_id req s e keyed in
      let q =
        Keeps-step (Keeps-pure {Q = On (IsAt u.db)} (linked made_id)) k (record { holds = refl }) in
      if_holds (λ o. o ≡ some id → (¬ Absent code s.db) × Absent code t.db) (req.code == code)
        (λ same _.
          let there : ¬ Absent req.code s.db = λ a.
            let none_open = find_absent req.code account_id started s.db.pending_device_links a in
            cc (none_open, opened) in
          subst (λ c. (¬ Absent c s.db) × Absent c t.db) ((eq_iff req.code code).0 same)
            (there, subst (Absent req.code) (sym q.holds) gone))
        (λ _ g. cc g) (ap (accepted_link code (posts_devices account_id req)) (ok-injective k) ∙ g)

  accepted-links :
      (c : Call) (s t : Site B) (r : Reply)
      → handle c s ≡ (ok r, t)
      → IsKeyed s.db.pending_device_links
      → (id : String) → accepted_link code c r ≡ some id
      → (¬ Absent code s.db) × Absent code t.db
  accepted-links (posts_devices account_id req) s t r h keyed id g =
      complete-links account_id req s t r h keyed id g
  accepted-links (posts_register req) s t r h keyed id g = cc g
  accepted-links (gets_prekey_bundle d) s t r h keyed id g = cc g
  accepted-links (deletes_device caller d) s t r h keyed id g = cc g
  accepted-links (gets_devices d) s t r h keyed id g = cc g
  accepted-links (posts_link_init caller d) s t r h keyed id g = cc g
  accepted-links (posts_message sender req) s t r h keyed id g = cc g
  accepted-links (gets_messages d) s t r h keyed id g = cc g

  pub answered-links :
      (c : Call) (s : Site B) (r : Result Reply)
      → (handle c s).0 ≡ r
      → IsKeyed s.db.pending_device_links
      → (id : String) → linked_in code (c, r) ≡ some id
      → (¬ Absent code s.db) × Absent code (handle c s).1.db
  answered-links c s (ok r) h keyed id g =
      accepted-links c s (handle c s).1 r (λ i. (h i, (handle c s).1)) keyed id g
  answered-links c s (err e) h keyed id g = cc g
