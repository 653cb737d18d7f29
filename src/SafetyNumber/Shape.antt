-- ===== src/SafetyNumber/Shape.antt =====
-- How long a safety number is, and what it depends on.
use mathlib.Core.Path.{subst}
use umbra_chat.Prelude.{
  ◌≡◌, refl, ap, sym, ◌∙◌, arith, ◌*◌, ◌<◌, String, ◌<>◌, [], ◌∷◌, ◌++◌, All, length,
}
use umbra_chat.Prelude.Decimal.{to_text, text_length-to_text}
use umbra_chat.Prelude.Texts.{
  text_length, take_text, pad_start, fives, fives-cons, join, text_length-append, take_text-append,
  text_length-pad_start, text_length-join-fives,
}
use text.Mathlib.TextLemmas.{nil-append, append_assoc}
use umbra_chat.Identity.{Bytes}
use umbra_chat.Platform.{Platform}
use umbra_chat.Exec.{ok, pure}
use umbra_chat.World.{World}
use umbra_chat.SafetyNumber.{digits, joined, compute_safety_number}

text_length-digits : (bs : Bytes) → All (λ b. b < 256) bs → text_length (digits bs) ≡ 3 * length bs
unfolding digits
text_length-digits [] h = omega arith
text_length-digits (b ∷ bs) h = omega (
  arith,
  text_length-append (pad_start 3 (to_text b)) (digits bs),
  text_length-pad_start 3 (to_text b) (text_length-to_text b (omega (arith, h.0))),
  text_length-digits bs h.1,
)

digits-append : (xs ys : Bytes) → digits (xs ++ ys) ≡ digits xs <> digits ys
unfolding digits
digits-append [] ys = sym (nil-append (digits ys))
digits-append (x ∷ xs) ys =
    ap (λ t. pad_start 3 (to_text x) <> t) (digits-append xs ys) ∙ sym (append_assoc _ _ _)

module _ {P : Platform} where
  joined-length :
      (s : String) (w : World P)
      → text_length s ≡ 30
      → (number : String) × (joined (fives s) w ≡ (ok number, w)) × (text_length number ≡ 35)
  unfolding joined pure
  joined-length String.[] w h = absurd (omega arith)
  joined-length (String.◌∷◌ c s) w h =
      let (g, gs, e) = fives-cons c s in
      (join " " (fives (String.◌∷◌ c s)), rw e refl, text_length-join-fives 5 (String.◌∷◌ c s) h)

  -- A safety number is 35 characters long, and depends on the first ten bytes of the key's digest
  -- only: two keys whose digests begin with the same ten bytes have the same number.
  pub compute_safety_number-prefix :
      (key key' head rest rest' : Bytes) (w : World P)
      → All (λ b. b < 256) head
      → length head ≡ 10
      → P.sha256 key ≡ head ++ rest
      → P.sha256 key' ≡ head ++ rest'
      → (number : String) × (compute_safety_number key w ≡ (ok number, w))
        × (compute_safety_number key' w ≡ (ok number, w))
        × (text_length number ≡ 35)
  unfolding compute_safety_number
  compute_safety_number-prefix key key' head rest rest' w bytes ten h h' =
      let (number, made, long) = joined-length (digits head) w thirty in
      (number, of_digest key rest h ∙ made, of_digest key' rest' h' ∙ made, long)
    where
      thirty : text_length (digits head) ≡ 30
      thirty = omega (arith, text_length-digits head bytes, ten)

      of_digest :
          (k r : Bytes)
          → P.sha256 k ≡ head ++ r
          → compute_safety_number k w ≡ joined (fives (digits head)) w
      of_digest k r e =
          ap (λ d. joined (fives (take_text 30 (digits d))) w) e
          ∙ ap (λ t. joined (fives (take_text 30 t)) w) (digits-append head r)
          ∙ ap (λ t. joined (fives t) w)
              (subst (λ n. take_text n (digits head <> digits r) ≡ digits head) thirty
                (take_text-append (digits head) (digits r)))
