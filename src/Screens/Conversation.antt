-- ===== src/Screens/Conversation.antt =====
-- web/src/screens/Conversation.tsx.
use Prim.Native.Char.{code}
use umbra_chat.Prelude.{
  ℕ, ◌+◌, ◌-◌, ◌*◌, ◌/◌, ◌%◌, String, ◌==◌, ◌<>◌, Bool, ◌||◌, Option, none, some, is_some, is_set,
  truthy, List, [], ◌∷◌, ◌++◌, ltb, if◌then◌else◌,
}
use umbra_chat.Prelude.Decimal.{to_text}
use umbra_chat.Prelude.Trim.{trim}
use umbra_chat.Envelope.{voice, video}
use umbra_chat.Message.{
  ChatFile, MessageStatus, sent, delivered, read, opened, ChatMessage, is_sent,
}
use umbra_chat.Conversation.{
  File, FileSendStage, encrypting, sending, FileDestruct, on_open, after_seconds, is_file_too_large,
}
use umbra_chat.App.Events.{sends, sends_file, opens_file, sets_timer}
use umbra_chat.Screens.{
  Forms, page, calls, Action, Node, heading, paragraph, button, link, input, file_input, select,
  call_back, stay, alert_if, rows,
}

-- A value and its label.
abbrev timer_options : List (String × String)
timer_options =
    (to_text 0, "Off")
    ∷ (to_text 30, "30s")
    ∷ (to_text (5 * 60), "5m")
    ∷ (to_text (60 * 60), "1h")
    ∷ (to_text (24 * 60 * 60), "1d")
    ∷ []

abbrev pub destruct_options : List (String × String)
destruct_options =
    ("none", "None")
    ∷ ("on-open", "Delete after opening")
    ∷ ("30", "Delete after 30s")
    ∷ ("300", "Delete after 5m")
    ∷ ("3600", "Delete after 1h")
    ∷ []

-- `Number(value)` of a text of decimal digits, which is what the options hold.
digits_value : ℕ → String → ℕ
digits_value n String.[] = n
digits_value n (String.◌∷◌ c s) = digits_value (10 * n + (code c - 48)) s

unfoldable pub number : String → ℕ
unfolding digits_value
number value = digits_value 0 value

unfoldable pub destruct_from_option : String → Option FileDestruct
unfolding number
destruct_from_option value =
    if value == "none"
    then none
    else if value == "on-open"
    then some on_open
    else some (after_seconds (number value))

-- `(n / unit).toFixed(1)`, where `unit` is even: rounded to tenths, a half up
abbrev tenths : ℕ → ℕ → ℕ
tenths n unit = (10 * n + unit / 2) / unit

unfoldable pub to_fixed : ℕ → ℕ → String
unfolding to_text
to_fixed n unit = to_text (tenths n unit / 10) <> ("." <> to_text (tenths n unit % 10))

unfoldable pub format_size : ℕ → String
unfolding to_text to_fixed
format_size bytes =
    if ltb bytes 1024
    then to_text bytes <> "B"
    else if ltb bytes (1024 * 1024)
    then to_fixed bytes 1024 <> "KB"
    else to_fixed bytes (1024 * 1024) <> "MB"

abbrev status_text : MessageStatus → String
status_text sent = "sent"
status_text delivered = "delivered"
status_text read = "read"
status_text opened = "opened"

-- `message.destructOnOpen || message.timerSeconds || message.expiresAt`
abbrev pub self_destructs : ChatMessage → Bool
self_destructs m = is_set m.destruct_on_open || truthy m.timer_seconds || is_some m.expires_at

abbrev pub status_node : ChatMessage → Node
status_node m = paragraph (" (" <> (status_text m.status <> ")"))

unfoldable pub file_message : Forms → ChatMessage → ChatFile → List Node
unfolding format_size
file_message forms m file =
    paragraph ("📎 " <> (file.filename <> (" (" <> (format_size file.size <> ")"))))
      ∷ (if self_destructs m then paragraph " 🔥" ∷ [] else [])
    ++ (if is_sent m.direction
        then status_node m ∷ []
        else link "Download" (call_back (page (opens_file m.id)) forms) ∷ [])

abbrev pub text_message : ChatMessage → List Node
text_message m =
    paragraph m.text
      ∷ (if truthy m.timer_seconds || is_some m.expires_at then paragraph " ⏱" ∷ [] else [])
    ++ (if is_sent m.direction then status_node m ∷ [] else [])

abbrev pub message_row : Forms → ChatMessage → List Node
unfolding file_message
message_row forms m = elim m.file [ none ↦ text_message m | some file ↦ file_message forms m file ]

unfoldable pub handle_send : Forms → Action
handle_send forms =
    if trim forms.text == ""
    then stay forms
    else (record forms { text = "" }, some (page (sends (trim forms.text))))

abbrev pick : Forms → File → Action
pick forms file =
    if is_file_too_large file
    then stay (record forms { file_error = some (file.name <> " is too large (max 8MB)") })
    else (
      record forms { file_error = none; destruct_mode = "none" },
      some (page (sends_file file (destruct_from_option forms.destruct_mode))),
    )

unfoldable pub handle_file_pick : Forms → Option File → Action
handle_file_pick forms none = stay forms
handle_file_pick forms (some file) = pick forms file

-- `{fileStage && fileStage !== "sent" && …}`
abbrev pub stage_nodes : Option FileSendStage → List Node
stage_nodes (some encrypting) = paragraph "encrypting..." ∷ []
stage_nodes (some sending) = paragraph "sending..." ∷ []
stage_nodes _ = []

-- What the page hands on, without the functions.
pub record ConversationProps : Type 0 where
  pub messages : List ChatMessage
  pub sending : Bool
  pub file_stage : Option FileSendStage
  pub call_active : Bool
  pub timer_seconds : ℕ
  pub error : Option String

-- What stands above the messages, and below them.
unfoldable pub conversation_head : ConversationProps → Forms → List Node
unfolding number
conversation_head props forms =
    heading "Conversation"
    ∷ paragraph
        "⚠ Screenshots can't be detected on web - assume anything shown here can be captured."
    ∷ button "Voice call" props.call_active (call_back (calls voice) forms)
    ∷ button "Video call" props.call_active (call_back (calls video) forms)
    ∷ select (to_text props.timer_seconds) props.sending timer_options
        (λ value. call_back (page (sets_timer (number value))) forms)
    ∷ []

unfoldable pub conversation_form : ConversationProps → Forms → List Node
unfolding handle_send handle_file_pick
conversation_form props forms =
    input "Type a message..." forms.text props.sending (λ s. stay (record forms { text = s }))
      (some (handle_send forms))
    ∷ file_input props.sending (handle_file_pick forms)
    ∷ select forms.destruct_mode props.sending destruct_options
        (λ value. stay (record forms { destruct_mode = value }))
    ∷ button "Send" (props.sending || (trim forms.text == "")) (handle_send forms)
    ∷ []

unfoldable pub conversation_screen : ConversationProps → Forms → List Node
unfolding conversation_head file_message conversation_form
conversation_screen props forms =
    conversation_head props forms
    ++ (rows (message_row forms) props.messages
        ++ (conversation_form props forms
            ++ (stage_nodes props.file_stage
                ++ (alert_if forms.file_error ++ alert_if props.error))))
