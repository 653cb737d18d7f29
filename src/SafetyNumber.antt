-- ===== src/SafetyNumber.antt =====
-- web/src/crypto/identity.ts: `computeSafetyNumber`.
pub mod Shape
use umbra_chat.Prelude.{String, ◌<>◌, List, [], ◌∷◌}
use umbra_chat.Prelude.Decimal.{to_text}
use umbra_chat.Prelude.Texts.{take_text, pad_start, fives, join}
use umbra_chat.Identity.{Bytes}
use umbra_chat.Platform.{Platform}
use umbra_chat.Exec.{type_error, pure, throw}
use umbra_chat.World.{Io}

-- `for (const byte of bytes) digits += byte.toString().padStart(3, "0")`
unfoldable pub digits : Bytes → String
digits [] = ""
digits (b ∷ bs) = pad_start 3 (to_text b) <> digits bs

module _ {P : Platform} where
  -- `match` gives null where there is no group, and then `join` throws
  joined : List String → Io P String
  joined [] = throw type_error
  joined (g ∷ gs) = pure (join " " (g ∷ gs))

  unfoldable pub compute_safety_number : Bytes → Io P String
  unfolding joined digits
  compute_safety_number identity_public_key =
      joined (fives (take_text 30 (digits (P.sha256 identity_public_key))))
