-- ===== src/Server/Links/Once.antt =====
-- server/src/routes/devices.rs: what a log of calls does to the codes.
use mathlib.Core.Path.{subst}
use umbra_chat.Prelude.{
  ◌≡◌, refl, ap, sym, ◌∙◌, arith, ◌≤◌, String, false, List, [], ◌∷◌, length, All, Option-cases, inl,
  inr,
}
use umbra_chat.Server.Calls.{Call, handle, serve}
use umbra_chat.Server.Codes.{IsKeyed}
use umbra_chat.Server.Links.{linked_in, with_id, linked_by, makes}
use umbra_chat.Server.Links.Step.{Absent, handle-IsKeyed, answered-Absent, answered-links}
use umbra_chat.Server.Route.{Backend, Site}

module _ {B : Backend} (code : String) where
  -- A code that is not there links nothing.
  serve-links_none :
      (cs : List Call) (s : Site B)
      → All (λ e. makes code e ≡ false) (serve cs s).0
      → IsKeyed s.db.pending_device_links
      → Absent code s.db
      → linked_by code (serve cs s).0 ≡ []
  unfolding serve
  serve-links_none [] s k keyed a = refl
  serve-links_none (c ∷ cs) s (k, ks) keyed a =
      let rest =
        serve-links_none cs (handle c s).1 ks
          ((handle-IsKeyed c).at s (record { holds = keyed })).holds
          (answered-Absent code c s _ refl k a) in
      elim (Option-cases (linked_in code (c, (handle c s).0))) [
        | inl nothing ↦
            ap (λ o. with_id o (linked_by code (serve cs (handle c s).1).0)) nothing ∙ rest
        | inr (id, something) ↦ absurd ((answered-links code c s _ refl keyed id something).0 a)
      ]

  -- A code links at most one device, whoever uses it and however often, as long as no link is started with the
  -- same code. The codes that stand in the table at first differ.
  pub linked_once :
      (cs : List Call) (s : Site B)
      → All (λ e. makes code e ≡ false) (serve cs s).0
      → IsKeyed s.db.pending_device_links
      → length (linked_by code (serve cs s).0) ≤ 1
  unfolding serve
  linked_once [] s k keyed = omega arith
  linked_once (c ∷ cs) s (k, ks) keyed =
      let still = ((handle-IsKeyed c).at s (record { holds = keyed })).holds in
      elim (Option-cases (linked_in code (c, (handle c s).0))) [
        | inl nothing ↦
            subst (λ o. length (with_id o (linked_by code (serve cs (handle c s).1).0)) ≤ 1)
              (sym nothing) (linked_once cs (handle c s).1 ks still)
        | inr (id, something) ↦
            let rest =
              serve-links_none cs (handle c s).1 ks still
                (answered-links code c s _ refl keyed id something).1 in
            subst (λ o. length (with_id o (linked_by code (serve cs (handle c s).1).0)) ≤ 1)
              (sym something) (subst (λ ids. length (id ∷ ids) ≤ 1) (sym rest) (omega arith))
      ]
