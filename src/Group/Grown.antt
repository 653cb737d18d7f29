-- ===== src/Group/Grown.antt =====
-- web/src/chat/group.ts: what the signals of groups do to a history, which may be that of a contact.
use umbra_chat.Prelude.{
  ◌≡◌, refl, ap, ◌∙◌, String, ◌==◌, eq_iff, true, inl, inr, Bool-cases, Option-cases, Option, none,
  some, is_some, or_default, List, [], ◌∷◌, ◌++◌, append_assoc, All,
}
use umbra_chat.Prelude.Dict.{lookup, insert, lookup-insert}
use umbra_chat.Message.{ChatMessage, Group}
use umbra_chat.Envelope.{GroupEnvelope, group_invite, group_update, group_text}
use umbra_chat.Platform.{Platform}
use umbra_chat.Exec.{Result, ok, err, modify}
use umbra_chat.Exec.Atomic.{IsAtomic, atomic_rules}
use umbra_chat.Exec.Keeps.{Keeps, keeps_rules}
use umbra_chat.World.{World}
use umbra_chat.World.Frame.{
  IsQuiet, IsDeaf, local_data, history_of, history, HasData, HasData-IsQuiet, frame_rules,
}
use umbra_chat.Storage.{save_group, save_messages}
use umbra_chat.Storage.Frame.{load_group-Keeps, load_messages-Keeps}
use umbra_chat.Storage.Laws.{save_messages-err, save_messages-IsAtomic}
use umbra_chat.Conversation.Frame.{now_iso-Keeps}
use umbra_chat.Group.{accepts, update_roster, append_text, handle_group_signal}
use umbra_chat.Group.Roster.{
  accepts-outsider, group_message, handle_group_signal_outsider, handle_group_signal_text,
}

-- A message that a group's member sent to the group.
abbrev pub IsOfGroup : ChatMessage → Type 0
IsOfGroup m = is_some m.sender_account_id ≡ true

-- The history is `h`, and after it only messages of groups.
pub record IsGrown {P : Platform} (id : String) (h : List ChatMessage) (w : World P) : Type 0 where
  pub late : List ChatMessage
  pub grown : history w id ≡ h ++ late
  pub of_group : All IsOfGroup late

All-append :
    (ms : List ChatMessage) (m : ChatMessage)
    → All IsOfGroup ms
    → IsOfGroup m
    → All IsOfGroup (ms ++ m ∷ [])
All-append [] m all h = (h, tt)
All-append (x ∷ ms) m (first, all) h = (first, All-append ms m all h)

module _ {P : Platform} {id : String} {h : List ChatMessage} where
  pub IsGrown-IsQuiet : IsQuiet (IsGrown {P = P} id h)
  IsGrown-IsQuiet = record {
    env = λ w e p. record { late = p.late; grown = p.grown; of_group = p.of_group };
    store = λ w s p. record { late = p.late; grown = p.grown; of_group = p.of_group };
    sessions = λ w s p. record { late = p.late; grown = p.grown; of_group = p.of_group };
    request = λ w r e p. record { late = p.late; grown = p.grown; of_group = p.of_group };
  }

  pub IsGrown-IsDeaf : IsDeaf (IsGrown {P = P} id h)
  IsGrown-IsDeaf = record {
    post = λ w r p. record { late = p.late; grown = p.grown; of_group = p.of_group };
  }

  IsGrown-same : {w v : World P} → local_data v ≡ local_data w → IsGrown id h w → IsGrown id h v
  IsGrown-same same p = record {
    late = p.late;
    grown = ap (λ d. history_of d id) same ∙ p.grown;
    of_group = p.of_group;
  }

  IsGrown-append :
      {w v : World P} (group_id : String) (m : ChatMessage)
      → IsOfGroup m
      → local_data v ≡ record (local_data w) {
        messages = insert group_id (history w group_id ++ m ∷ []) w.messages;
      }
      → IsGrown id h w
      → IsGrown id h v
  IsGrown-append {w} {v} group_id m is_text stored p =
      let after =
        ap (λ d. history_of d id) stored
        ∙ ap (λ o. or_default o [])
            (lookup-insert group_id id (history w group_id ++ m ∷ []) w.messages) in
      elim (Bool-cases (group_id == id)) [
        | inl same ↦ record {
          late = p.late ++ m ∷ [];
          grown =
              rw same at after
              ∙ ap (λ k. history w k ++ m ∷ []) ((eq_iff group_id id).0 same)
              ∙ ap (λ ms. ms ++ m ∷ []) p.grown
              ∙ append_assoc h p.late (m ∷ []);
          of_group = All-append p.late m p.of_group is_text;
        }
        | inr other ↦ record {
          late = p.late;
          grown = rw other at after ∙ p.grown;
          of_group = p.of_group;
        }
      ]

  put_group-Keeps :
      (g : Group)
      → Keeps (IsGrown {P = P} id h) (modify (λ w. record w { groups = insert g.id g w.groups }))
  unfolding modify
  put_group-Keeps g = record {
    at = λ w p. record { late = p.late; grown = p.grown; of_group = p.of_group };
  }

  save_group-Keeps : (g : Group) → Keeps (IsGrown {P = P} id h) (save_group g)
  unfolding save_group
  save_group-Keeps g = search (frame_rules, IsGrown-IsQuiet, put_group-Keeps)

  update_roster-Keeps :
      (roster : List String) (o : Option Group)
      → Keeps (IsGrown {P = P} id h) (update_roster roster o)
  unfolding update_roster
  update_roster-Keeps roster none = search keeps_rules
  update_roster-Keeps roster (some g) = search (save_group-Keeps)

  pub save_messages-IsAtomic-IsGrown :
      (c : String) (ms : List ChatMessage) → IsAtomic (IsGrown {P = P} id h) (save_messages c ms)
  save_messages-IsAtomic-IsGrown c ms = record {
    at = λ s t e failed p.
        IsGrown-same (save_messages-err c ms failed (record { same = refl })).same p;
  }

module _ {P : Platform} where
  append_text-IsAtomic :
      (group_id id body sender : String) (o : Option Group) (w : World P)
      → IsAtomic (HasData {P = P} (local_data w)) (append_text group_id id body sender o)
  unfolding append_text
  append_text-IsAtomic group_id id body sender none w = search (atomic_rules, keeps_rules)
  append_text-IsAtomic group_id id body sender (some g) w = search (
    atomic_rules, frame_rules, HasData-IsQuiet, load_messages-Keeps, now_iso-Keeps,
    save_messages-IsAtomic,
  )

  text-IsAtomic :
      (group_id id body sender : String) (w : World P)
      → IsAtomic
          (HasData {P = P} (local_data w))
          (handle_group_signal (group_text group_id id body) sender)
  unfolding handle_group_signal
  text-IsAtomic group_id id body sender w =
      search (atomic_rules, frame_rules, HasData-IsQuiet, load_group-Keeps, append_text-IsAtomic)

  -- A text that a member sent, by what handling it returned.
  accepted-IsGrown :
      (c : String) (h : List ChatMessage) (group_id id body sender : String) (g : Group)
      (w v : World P) (r : Result Unit)
      → accepts (lookup group_id w.groups) sender ≡ some g
      → handle_group_signal (group_text group_id id body) sender w ≡ (r, v)
      → IsGrown c h w
      → IsGrown c h v
  accepted-IsGrown c h group_id id body sender g w v (ok tt) inside run p =
      let (created_at, stored) =
        handle_group_signal_text group_id id body sender g w v inside run in
      IsGrown-append group_id (group_message id body sender created_at) refl stored p
  accepted-IsGrown c h group_id id body sender g w v (err e) inside run p =
      IsGrown-same
        ((text-IsAtomic group_id id body sender w).at w v e run (record { same = refl })).same p

  text-IsGrown :
      (c : String) (h : List ChatMessage) (group_id id body sender : String) (w : World P)
      → IsGrown c h w
      → IsGrown c h (handle_group_signal (group_text group_id id body) sender w).1
  text-IsGrown c h group_id id body sender w p =
      elim (Option-cases (accepts (lookup group_id w.groups) sender)) [
        | inl outside ↦
            IsGrown-same
              (handle_group_signal_outsider group_id id body sender [] w
                (accepts-outsider group_id sender w outside)).0
              p
        | inr (g, inside) ↦ accepted-IsGrown c h group_id id body sender g w _ _ inside refl p
      ]

  pub handle_group_signal-Keeps-IsGrown :
      (c : String) (h : List ChatMessage) (e : GroupEnvelope) (sender : String)
      → Keeps (IsGrown {P = P} c h) (handle_group_signal e sender)
  unfolding handle_group_signal
  handle_group_signal-Keeps-IsGrown c h (group_invite group_id name roster) sender =
      search (frame_rules, IsGrown-IsQuiet, now_iso-Keeps, save_group-Keeps)
  handle_group_signal-Keeps-IsGrown c h (group_update group_id roster) sender =
      search (frame_rules, IsGrown-IsQuiet, load_group-Keeps, update_roster-Keeps)
  handle_group_signal-Keeps-IsGrown c h (group_text group_id id body) sender = record {
    at = text-IsGrown c h group_id id body sender;
  }
