-- ===== src/Screens/Talking.antt =====
-- The screens of a group and of a conversation let the user do only what is in order.
use umbra_chat.Prelude.{
  ◌≡◌, refl, ap, sym, ◌∙◌, ℕ, String, ◌==◌, Bool, true, false, not, inl, inr, Option, none, some,
  is_some, List, [], ◌∷◌, Bool-cases, Option-cases, if◌then◌else◌,
}
use umbra_chat.Prelude.Trim.{trim}
use umbra_chat.Identity.{LocalAccount}
use umbra_chat.Message.{ChatMessage, Group, is_sent}
use umbra_chat.Conversation.{File, FileSendStage, encrypting, sending, sent, is_file_too_large}
use umbra_chat.Envelope.{CallKind, voice, video}
use umbra_chat.Call.Data.{
  CallState, idle, outgoing_ringing, incoming_ringing, connecting, connected, ended, local_stream,
}
use umbra_chat.App.{group, Ui}
use umbra_chat.Screens.{Forms, link, button, call_back, page, hangs_up}
use umbra_chat.App.Events.{opens_file}
use umbra_chat.Screens.Call.{call_screen, active_call, panes, toggle_mute}
use umbra_chat.Screens.Conversation.{
  ConversationProps, conversation_head, conversation_form, conversation_screen, file_message,
  handle_send, handle_file_pick, status_node, stage_nodes, message_row,
}
use umbra_chat.Screens.Groups.{
  group_form, group_conversation, send_to_group, member_row, group_message,
}
use umbra_chat.Screens.Page.{call_active}
use umbra_chat.Screens.Offers.{
  unless, IsInOrder, AreInOrder, ◌▸◌, ◌⊕◌, nothing, each, alerts, shown_if, trim-IsTrimmed,
  or_false, is_conversation, is_group, is_other,
}

module _ (u : Ui) (call : CallState) where
  sent_to_group :
      (forms : Forms)
      → is_group u.status ≡ true
      → u.sending ≡ false
      → IsInOrder u call (send_to_group forms)
  sent_to_group forms at free = elim (Bool-cases (trim forms.text == "")) [
    | inl blank ↦ rw blank (record { may = tt })
    | inr kept ↦ rw kept (record { may = (at, free, trim-IsTrimmed forms.text kept) })
  ]

  group_form-AreInOrder :
      (forms : Forms)
      → is_group u.status ≡ true
      → AreInOrder u call (group_form u.sending u.error forms)
  unfolding group_form
  group_form-AreInOrder forms at =
      unless _ (λ enabled. ((λ s. record { may = tt }), sent_to_group forms at enabled))
      ▸ unless _
          (λ enabled. sent_to_group forms at (or_false u.sending (trim forms.text == "") enabled).0)
      ▸ alerts u.error

  pub group_conversation-AreInOrder :
      (account : LocalAccount) (g : Group) (store : ℕ) (messages : List ChatMessage) (forms : Forms)
      → u.status ≡ group account g store messages
      → AreInOrder u call (group_conversation g account.account_id messages u.sending u.error forms)
  unfolding group_conversation
  group_conversation-AreInOrder account g store messages forms at =
      tt
      ▸ each {row = group_message} messages (λ m. tt ▸ nothing)
      ⊕ each {row = member_row account.account_id forms} g.member_account_ids member
      ⊕ group_form-AreInOrder forms (rw at refl)
    where
      member : (id : String) → AreInOrder u call (member_row account.account_id forms id)
      member id = elim (Bool-cases (not (id == account.account_id))) [
        | inl other ↦
            let may : is_other u.status id ≡ true = rw at other in
            rw other (tt ▸ unless _ (λ enabled. record { may = may }) ▸ nothing)
        | inr own ↦ rw own (tt ▸ nothing)
      ]

  sent_text :
      (forms : Forms)
      → is_conversation u.status ≡ true
      → u.sending ≡ false
      → IsInOrder u call (handle_send forms)
  unfolding handle_send
  sent_text forms at free = elim (Bool-cases (trim forms.text == "")) [
    | inl blank ↦ rw blank (record { may = tt })
    | inr kept ↦ rw kept (record { may = (at, free, trim-IsTrimmed forms.text kept) })
  ]

  picked :
      (forms : Forms) (f : Option File)
      → is_conversation u.status ≡ true
      → u.sending ≡ false
      → IsInOrder u call (handle_file_pick forms f)
  unfolding handle_file_pick
  picked forms none at free = record { may = tt }
  picked forms (some f) at free = elim (Bool-cases (is_file_too_large f)) [
    | inl too_large ↦ rw too_large (record { may = tt })
    | inr fits ↦ rw fits (record { may = (at, free, fits) })
  ]

  message-AreInOrder :
      (forms : Forms) (m : ChatMessage)
      → is_conversation u.status ≡ true
      → AreInOrder u call (message_row forms m)
  unfolding file_message
  message-AreInOrder forms m at = elim (Option-cases m.file) [
    | inl plain ↦ rw plain (tt ▸ shown_if _ _ tt ⊕ shown_if _ _ tt)
    | inr (f, is_file) ↦ rw is_file (tt ▸ shown_if _ _ tt ⊕ offered (is_sent m.direction))
  ]
    where
      offered :
          (b : Bool)
          → AreInOrder u call (
              if b
              then status_node m ∷ []
              else link "Download" (call_back (page (opens_file m.id)) forms) ∷ [])
      offered true = tt ▸ nothing
      offered false = record { may = at } ▸ nothing

  conversation_head-AreInOrder :
      (props : ConversationProps) (forms : Forms)
      → is_conversation u.status ≡ true
      → props.sending ≡ u.sending
      → props.call_active ≡ call_active call
      → AreInOrder u call (conversation_head props forms)
  unfolding conversation_head
  conversation_head-AreInOrder props forms at sends calls =
      tt
      ▸ tt
      ▸ unless _ (λ enabled. record { may = (at, sym calls ∙ enabled) })
      ▸ unless _ (λ enabled. record { may = (at, sym calls ∙ enabled) })
      ▸ unless _ (λ enabled s. record { may = (at, sym sends ∙ enabled) })
      ▸ nothing

  conversation_form-AreInOrder :
      (props : ConversationProps) (forms : Forms)
      → is_conversation u.status ≡ true
      → props.sending ≡ u.sending
      → AreInOrder u call (conversation_form props forms)
  unfolding conversation_form
  conversation_form-AreInOrder props forms at sends =
      unless _ (λ enabled. ((λ s. record { may = tt }), sent_text forms at (sym sends ∙ enabled)))
      ▸ unless _ (λ enabled f. picked forms f at (sym sends ∙ enabled))
      ▸ unless _ (λ enabled s. record { may = tt })
      ▸ unless _ (λ enabled.
        sent_text forms at (sym sends ∙ (or_false props.sending (trim forms.text == "") enabled).0))
      ▸ nothing

  pub conversation-AreInOrder :
      (props : ConversationProps) (forms : Forms)
      → is_conversation u.status ≡ true
      → props.sending ≡ u.sending
      → props.call_active ≡ call_active call
      → AreInOrder u call (conversation_screen props forms)
  unfolding conversation_screen
  conversation-AreInOrder props forms at sends calls =
      conversation_head-AreInOrder props forms at sends calls
      ⊕ each {row = message_row forms} props.messages (λ m. message-AreInOrder forms m at)
      ⊕ conversation_form-AreInOrder props forms at sends
      ⊕ stage props.file_stage
      ⊕ alerts forms.file_error
      ⊕ alerts props.error
    where
      stage : (s : Option FileSendStage) → AreInOrder u call (stage_nodes s)
      stage none = nothing
      stage (some encrypting) = tt ▸ nothing
      stage (some sending) = tt ▸ nothing
      stage (some sent) = nothing

active_call-AreInOrder :
    (u : Ui) (call : CallState) (label : String) (kind : CallKind) (local : ℕ) (remote : Option ℕ)
    (forms : Forms)
    → is_conversation u.status ≡ true
    → local_stream call ≡ some local
    → AreInOrder u call (active_call label kind local remote call forms)
active_call-AreInOrder u call label kind local remote forms at has_stream = tt ▸ both kind ⊕ ends
  where
    both : (k : CallKind) → AreInOrder u call (panes k local remote)
    both voice = tt ▸ nothing
    both video = tt ▸ tt ▸ nothing

    toggles : IsInOrder u call (toggle_mute (local_stream call) forms)
    toggles = rw has_stream (record { may = (at, has_stream) })

    ends : AreInOrder u call (
        button
          (if forms.muted then "Unmute" else "Mute")
          false
          (toggle_mute (local_stream call) forms)
        ∷ button "Hang Up" false (call_back hangs_up forms)
        ∷ [])
    ends =
        unless _ (λ enabled. toggles)
        ▸ unless _ (λ enabled. record { may = (at, ap is_some has_stream) })
        ▸ nothing

pub call_screen-AreInOrder :
    (u : Ui) (call : CallState) (forms : Forms)
    → is_conversation u.status ≡ true
    → AreInOrder u call (call_screen call forms)
unfolding call_screen
call_screen-AreInOrder u idle forms at = nothing
call_screen-AreInOrder u (incoming_ringing call_id kind) forms at =
    tt
    ▸ unless _ (λ enabled. record { may = (at, refl) })
    ▸ unless _ (λ enabled. record { may = (at, refl) })
    ▸ nothing
call_screen-AreInOrder u (ended reason) forms at = tt ▸ nothing
call_screen-AreInOrder u (outgoing_ringing call_id kind local) forms at =
    active_call-AreInOrder u (outgoing_ringing call_id kind local) "Calling..." kind local none
      forms at refl
call_screen-AreInOrder u (connecting call_id kind local remote) forms at =
    active_call-AreInOrder u (connecting call_id kind local remote) "Connecting..." kind local
      remote forms at refl
call_screen-AreInOrder u (connected call_id kind local remote) forms at =
    active_call-AreInOrder u (connected call_id kind local remote) "Connected" kind local remote
      forms at refl
