-- ===== src/Tests/Grouping.antt =====
-- The group "team" of "alice" and "bob".
use umbra_chat.Prelude.{◌≡◌, refl, inl, arith, ℕ, String, eq_iff, some, List, [], ◌∷◌, ◌++◌}
use umbra_chat.Prelude.Dict.{lookup, insert}
use umbra_chat.Message.{Group, ChatMessage, Direction, MessageStatus, plain_message}
use umbra_chat.Envelope.{GroupEnvelope, group_invite, group_update, group_text}
use umbra_chat.Exec.{ok}
use umbra_chat.World.{World}
use umbra_chat.World.Frame.{local_data, history}
use umbra_chat.Group.Texts.{send_group_text-ok}
use umbra_chat.Group.{send_group_text, create_group, remove_member, handle_group_signal}
use umbra_chat.Group.Membership.{IsKeyed}
use umbra_chat.Group.Lasting.{handle_all, removal_lasts}
use umbra_chat.Group.Removal.{invite_readmits}
use umbra_chat.Group.Roster.{group_message, IsMember, handle_group_signal_outsider}
use umbra_chat.Tests.{toy, alice, online, team, run_model}

abbrev small_team : Group
small_team = record team { member_account_ids = "alice" ∷ [] }

abbrev created : World toy
created = (create_group "New" ("bob" ∷ []) alice online).1

abbrev removed : World toy
removed = (remove_member "team" "bob" alice online).1

abbrev invited : World toy
invited = (handle_group_signal (group_invite "team" "Team" ("bob" ∷ "alice" ∷ [])) "bob" removed).1

abbrev rejoined : World toy
rejoined = (handle_group_signal (group_text "team" "g1" "back") "bob" invited).1

abbrev texted : World toy
texted = (handle_group_signal (group_text "team" "g1" "hey") "bob" online).1

online-IsKeyed : IsKeyed online
unfolding lookup
online-IsKeyed = record { at = λ k g h. keyed k g h }
  where
    keyed : (k : String) (g : Group) → lookup k (("team", team) ∷ []) ≡ some g → g.id ≡ k
    keyed k g h = ground (arith, h, eq_iff "team" k)

created-runs : create_group "New" ("bob" ∷ []) alice online ≡ (ok "id0", created)
unfolding run_model
created-runs = refl

removed-runs : remove_member "team" "bob" alice online ≡ (ok small_team, removed)
unfolding run_model
removed-runs = refl

invited-runs :
    handle_group_signal (group_invite "team" "Team" ("bob" ∷ "alice" ∷ [])) "bob" removed
    ≡ (ok tt, invited)
unfolding run_model
invited-runs = refl

rejoined-runs :
    handle_group_signal (group_text "team" "g1" "back") "bob" invited ≡ (ok tt, rejoined)
unfolding run_model
rejoined-runs = refl

texted-runs : handle_group_signal (group_text "team" "g1" "hey") "bob" online ≡ (ok tt, texted)
unfolding run_model
texted-runs = refl

mallory-outside : ¬ IsMember online "team" "mallory"
unfolding lookup
mallory-outside m = ground (arith, m.is_stored, m.is_named)

handle_group_signal_outsider_example :
    (local_data (handle_group_signal (group_text "team" "g1" "hey") "mallory" online).1
      ≡ local_data online)
    × (local_data (handle_group_signal (group_update "team" ("mallory" ∷ [])) "mallory" online).1
        ≡ local_data online)
handle_group_signal_outsider_example =
    handle_group_signal_outsider "team" "g1" "hey" "mallory" ("mallory" ∷ []) online mallory-outside

-- The removed one tries to update the group, and another member writes to it.
abbrev meanwhile : List (GroupEnvelope × String)
meanwhile =
    (group_update "team" ("bob" ∷ "alice" ∷ []), "bob")
    ∷ (group_text "team" "g2" "hello", "alice")
    ∷ []

removal_lasts_example :
    (local_data
        (handle_group_signal (group_text "team" "g1" "back") "bob" (handle_all meanwhile removed)).1
      ≡ local_data (handle_all meanwhile removed))
    × (local_data
          (handle_group_signal
            (group_update "team" ("bob" ∷ []))
            "bob"
            (handle_all meanwhile removed)).1
        ≡ local_data (handle_all meanwhile removed))
removal_lasts_example =
    removal_lasts "team" "bob" "g1" "back" ("bob" ∷ []) alice online removed small_team meanwhile
      online-IsKeyed removed-runs (λ same. inl refl, (tt, tt))

invite_readmits_example :
    (created_at : ℕ) × (history rejoined "team"
      ≡ history removed "team" ++ group_message "g1" "back" "bob" created_at ∷ [])
invite_readmits_example =
    invite_readmits "team" "Team" "bob" "g1" "back" ("bob" ∷ "alice" ∷ []) removed invited rejoined
      refl invited-runs rejoined-runs

abbrev posted : World toy
posted = (send_group_text "team" "all" alice online).1

abbrev all : ChatMessage
all = plain_message "id0" Direction.sent "all" MessageStatus.sent 7000

posted-runs : send_group_text "team" "all" alice online ≡ (ok (all ∷ []), posted)
unfolding run_model
posted-runs = refl

send_group_text-ok_example :
    (g : Group) × (id : String) × (created_at : ℕ) × (lookup "team" online.groups ≡ some g)
    × (all ∷ []
        ≡ history online "team"
          ++ plain_message id Direction.sent "all" MessageStatus.sent created_at ∷ [])
    × (local_data posted
        ≡ record (local_data online) { messages = insert "team" (all ∷ []) online.messages })
send_group_text-ok_example =
    send_group_text-ok "team" "all" alice online posted (all ∷ []) posted-runs
