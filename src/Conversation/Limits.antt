-- ===== src/Conversation/Limits.antt =====
-- How long the message of a file is (`sendFile` of web/src/chat/conversation.ts, `toBase64` of
-- web/src/api/codec.ts), against the longest body that the server reads (server/src/auth.rs).
use umbra_chat.Prelude.{
  ◌≡◌, arith, ℕ, suc, ◌+◌, ◌*◌, ◌/◌, ◌≤◌, ◌<◌, String, ◌<>◌, false, [], ◌∷◌, map, length,
}
use umbra_chat.Prelude.Decimal.{to_text, to_text-nonempty}
use umbra_chat.Prelude.Texts.{text_length, text_length-append, join, text_length-join-cons}
use umbra_chat.Identity.{Bytes}
use umbra_chat.Conversation.{File, is_file_too_large, max_file_bytes}

-- `JSON.stringify(Array.from(bytes))`
unfoldable pub json_array : Bytes → String
unfolding to_text
json_array bytes = "[" <> (join "," (map to_text bytes) <> "]")

-- The length of `btoa` of that many bytes.
unfoldable pub base64_length : ℕ → ℕ
base64_length n = 4 * ((n + 2) / 3)

-- `MAX_BODY_BYTES` of the server
abbrev pub max_body_bytes : ℕ
max_body_bytes = 12 * 1024 * 1024

-- A digit for each byte, and a comma between two.
items : (bytes : Bytes) → 2 * length bytes ≤ suc (text_length (join "," (map to_text bytes)))
items [] = omega arith
items (b ∷ []) = omega (arith, to_text-nonempty b)
items (b ∷ c ∷ bytes) = omega (
  arith,
  items (c ∷ bytes),
  to_text-nonempty b,
  text_length-join-cons "," (to_text b) (to_text c) (map to_text bytes),
)

json_array-length : (bytes : Bytes) → 2 * length bytes < text_length (json_array bytes)
unfolding json_array
json_array-length bytes = omega (
  arith,
  items bytes,
  text_length-append "[" (join "," (map to_text bytes) <> "]"),
  text_length-append (join "," (map to_text bytes)) "]",
)

-- A file from 4.5 MiB up to the client's own limit of 8 MiB is not refused by the client, and the
-- base64 of as many bytes as its bytes take in the JSON of the message is longer than the longest
-- body that the server reads.
pub accepted_file-overflows :
    (f : File)
    → length f.bytes ≡ f.size
    → 4718592 ≤ f.size
    → f.size ≤ max_file_bytes
    → (is_file_too_large f ≡ false)
      × (max_body_bytes < base64_length (text_length (json_array f.bytes)))
unfolding is_file_too_large base64_length
accepted_file-overflows f sized large small =
    let long = json_array-length f.bytes in
    (ground (arith, small), omega (arith, long, sized, large))
