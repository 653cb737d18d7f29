-- ===== src/Screens/Groups.antt =====
-- web/src/screens/Groups.tsx and GroupConversation.tsx.
use umbra_chat.Prelude.{
  String, ◌==◌, ◌<>◌, Bool, false, not, ◌||◌, Option, none, some, List, [], ◌∷◌, ◌++◌, map, filter,
  if◌then◌else◌,
}
use umbra_chat.Prelude.Trim.{trim, split_commas}
use umbra_chat.Message.{ChatMessage, Group, is_sent}
use umbra_chat.App.Events.{creates_group, opens_group, sends_to_group, removes}
use umbra_chat.Screens.{
  Forms, page, Action, Node, heading, paragraph, button, input, call_back, stay, alert_if, rows,
}

abbrev pub member_ids : String → List String
member_ids members = filter (λ id. not (id == "")) (map trim (split_commas members))

-- Groups' `handleCreate`
abbrev pub create : Forms → Action
create forms = (
  record forms { name = ""; members = "" },
  some (page (creates_group (trim forms.name) (member_ids forms.members))),
)

abbrev pub group_row : Forms → Group → List Node
group_row forms g =
    paragraph g.name ∷ button "Open" false (call_back (page (opens_group g.id)) forms) ∷ []

-- What stands below the list.
unfoldable pub groups_form : Bool → Option String → Forms → List Node
groups_form creating error forms =
    input "Group name" forms.name creating (λ s. stay (record forms { name = s })) none
    ∷ input "Member account IDs, comma-separated" forms.members creating
        (λ s. stay (record forms { members = s })) none
    ∷ button "Create Group" (creating || (trim forms.name == "") || (trim forms.members == ""))
        (create forms)
    ∷ alert_if error

unfoldable pub groups_screen : List Group → Bool → Option String → Forms → List Node
unfolding groups_form
groups_screen groups creating error forms =
    heading "Groups" ∷ rows (group_row forms) groups ++ groups_form creating error forms

-- GroupConversation's `handleSend`
abbrev pub send_to_group : Forms → Action
send_to_group forms =
    if trim forms.text == ""
    then stay forms
    else (record forms { text = "" }, some (page (sends_to_group (trim forms.text))))

-- `{m.senderAccountId}`, in a template: "undefined" where there is none
abbrev sender_text : Option String → String
sender_text none = "undefined"
sender_text (some id) = id

abbrev pub group_message : ChatMessage → List Node
group_message m =
    paragraph
      ((if is_sent m.direction then "" else sender_text m.sender_account_id <> ": ") <> m.text)
    ∷ []

abbrev pub member_row : String → Forms → String → List Node
member_row account_id forms id =
    paragraph id
    ∷ (if not (id == account_id)
        then button "Remove" false (call_back (page (removes id)) forms) ∷ []
        else [])

unfoldable pub group_form : Bool → Option String → Forms → List Node
group_form sending error forms =
    input "Type a message..." forms.text sending (λ s. stay (record forms { text = s }))
      (some (send_to_group forms))
    ∷ button "Send" (sending || (trim forms.text == "")) (send_to_group forms)
    ∷ alert_if error

unfoldable pub group_conversation :
    Group → String → List ChatMessage → Bool → Option String → Forms → List Node
unfolding group_form
group_conversation g account_id messages sending error forms =
    heading g.name ∷ rows group_message messages
    ++ (rows (member_row account_id forms) g.member_account_ids ++ group_form sending error forms)
