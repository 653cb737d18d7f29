-- ===== src/Storage/Laws.antt =====
-- What loads return and what saves leave, in terms of the local data.
use umbra_chat.Prelude.{◌≡◌, inl, inr, arith, String, Option, or_default, List, []}
use umbra_chat.Prelude.Dict.{lookup, insert}
use umbra_chat.Message.{ChatMessage, Group}
use umbra_chat.Platform.{Platform}
use umbra_chat.Exec.{Error, Result, ok, err, gets, modify}
use umbra_chat.Exec.Atomic.{IsAtomic}
use umbra_chat.Exec.Bind.{bind-ok, bind-err}
use umbra_chat.Exec.Keeps.{Keeps-step}
use umbra_chat.World.{World, db_request}
use umbra_chat.World.Frame.{LocalData, HasData, HasData-IsQuiet, db_request-Keeps}
use umbra_chat.Storage.{load_messages, save_messages, load_group, save_group}

module _ {P : Platform} {d : LocalData} {w v : World P} (p : HasData d w) where
  requested : {r : Result Unit} → db_request w ≡ (r, v) → HasData d v
  requested e = Keeps-step (db_request-Keeps (HasData-IsQuiet d)) e p

module _ {P : Platform} {d : LocalData} {w v : World P} where
  pub load_messages-ok :
      (id : String) {ms : List ChatMessage}
      → load_messages id w ≡ (ok ms, v)
      → HasData d w
      → (ms ≡ or_default (lookup id d.messages) []) × HasData d v
  unfolding load_messages gets
  load_messages-ok id h p =
      let (_, u, e, k) = bind-ok _ _ _ h in
      let q = requested p e in
      (ground (arith, k, q.same), record { same = ground (arith, k, q.same) })

  pub save_messages-ok :
      (id : String) (ms : List ChatMessage)
      → save_messages id ms w ≡ (ok tt, v)
      → HasData d w
      → HasData (record d { messages = insert id ms d.messages }) v
  unfolding save_messages modify
  save_messages-ok id ms h p =
      let (_, u, e, k) = bind-ok _ _ _ h in
      let q = requested p e in record { same = ground (arith, k, q.same) }

  pub save_messages-err :
      (id : String) (ms : List ChatMessage) {e : Error}
      → save_messages id ms w ≡ (err e, v)
      → HasData d w
      → HasData d v
  unfolding save_messages modify
  save_messages-err id ms h p = elim (bind-err _ _ _ h) [
    | inl e ↦ requested p e
    | inr (_, u, e, k) ↦ cc
  ]

  pub load_group-ok :
      (id : String) {g : Option Group}
      → load_group id w ≡ (ok g, v)
      → HasData d w
      → (g ≡ lookup id d.groups) × HasData d v
  unfolding load_group gets
  load_group-ok id h p =
      let (_, u, e, k) = bind-ok _ _ _ h in
      let q = requested p e in
      (ground (arith, k, q.same), record { same = ground (arith, k, q.same) })

  pub save_group-ok :
      (g : Group)
      → save_group g w ≡ (ok tt, v)
      → HasData d w
      → HasData (record d { groups = insert g.id g d.groups }) v
  unfolding save_group modify
  save_group-ok g h p =
      let (_, u, e, k) = bind-ok _ _ _ h in
      let q = requested p e in record { same = ground (arith, k, q.same) }

  pub save_group-err :
      (g : Group) {e : Error} → save_group g w ≡ (err e, v) → HasData d w → HasData d v
  unfolding save_group modify
  save_group-err g h p = elim (bind-err _ _ _ h) [ inl e ↦ requested p e | inr (_, u, e, k) ↦ cc ]

module _ {P : Platform} {d : LocalData} where
  pub save_messages-IsAtomic :
      (id : String) (ms : List ChatMessage) → IsAtomic (HasData {P = P} d) (save_messages id ms)
  save_messages-IsAtomic id ms = record { at = λ s t e h p. save_messages-err id ms h p }

  pub save_group-IsAtomic : (g : Group) → IsAtomic (HasData {P = P} d) (save_group g)
  save_group-IsAtomic g = record { at = λ s t e h p. save_group-err g h p }
