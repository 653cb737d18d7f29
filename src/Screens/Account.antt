-- ===== src/Screens/Account.antt =====
-- web/src/screens/CreateAccount.tsx, NewConversation.tsx and SafetyNumber.tsx.
use umbra_chat.Prelude.{String, ◌==◌, ◌<>◌, Bool, ◌||◌, Option, none, List, [], ◌∷◌, if◌then◌else◌}
use umbra_chat.Prelude.Trim.{trim}
use umbra_chat.App.Events.{creates, links, starts}
use umbra_chat.Screens.{
  Forms, page, Node, heading, paragraph, button, input, call_back, stay, alert_if,
}

unfoldable pub create_account : Bool → Option String → Forms → List Node
create_account creating error forms =
    heading "UmbraChat"
    ∷ button (if creating then "Creating..." else "Create Account") creating
        (call_back (page creates) forms)
    ∷ paragraph "No password. Your keys never leave this device."
    ∷ paragraph "Already have an account on another device?"
    ∷ input "Account ID" forms.link_account_id creating
        (λ s. stay (record forms { link_account_id = s })) none
    ∷ input "Pairing code" forms.link_code creating (λ s. stay (record forms { link_code = s }))
        none
    ∷ button "Link This Device"
        (creating || (trim forms.link_account_id == "") || (trim forms.link_code == ""))
        (call_back (page (links forms.link_account_id forms.link_code)) forms)
    ∷ alert_if error

unfoldable pub new_conversation : Bool → Option String → Forms → List Node
new_conversation starting error forms =
    heading "UmbraChat"
    ∷ input "Recipient account id" forms.contact_id starting
        (λ s. stay (record forms { contact_id = s })) none
    ∷ button (if starting then "Starting..." else "Start Conversation")
        (starting || (trim forms.contact_id == ""))
        (call_back (page (starts (trim forms.contact_id))) forms)
    ∷ alert_if error

-- The page gives it no `onContinue`.
unfoldable pub safety_number : String → String → List Node
safety_number account_id number =
    heading "Your Safety Number"
    ∷ paragraph number
    ∷ paragraph "Share this number with contacts to verify your identity."
    ∷ paragraph ("Your account ID: " <> account_id)
    ∷ paragraph "Share this with a contact so they can start a conversation with you."
    ∷ []
