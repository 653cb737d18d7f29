-- ===== src/Server/Waiting.antt =====
-- The table `messages`: what an insertion or a deletion makes of the messages that wait for a device.
use umbra_chat.Prelude.{
  ◌≡◌, refl, ap, arith, String, ◌==◌, eq_iff, Bool, true, false, not, ◌&&◌, List, [], ◌∷◌, ◌++◌,
  map, filter, filter-filter_same, filter-filter_none,
}
use umbra_chat.Server.Database.{MessageRow, is_for}
use umbra_chat.Server.Mailbox.{Post, post_of, not_by}
use umbra_chat.Server.Route.{Backend}
use umbra_chat.Server.Routes.Messages.{received_message}

module _ (B : Backend) where
  abbrev pub row_post : MessageRow → Post
  row_post m = (m.sender_device_id, B.encode_base64 m.ciphertext)

  -- What waits for the device `d`.
  abbrev pub waiting : String → List MessageRow → List Post
  waiting d ms = map row_post (filter (is_for d) ms)

  pub post_of-received :
      (ms : List MessageRow) → map post_of (map (received_message B) ms) ≡ map row_post ms
  post_of-received [] = refl
  post_of-received (m ∷ ms) = ap (λ ps. row_post m ∷ ps) (post_of-received ms)

  pub waiting-append_here :
      (d : String) (ms : List MessageRow) (m : MessageRow)
      → is_for d m ≡ true
      → waiting d (ms ++ (m ∷ [])) ≡ waiting d ms ++ (row_post m ∷ [])
  waiting-append_here d [] m h = ground (arith, h)
  waiting-append_here d (n ∷ ms) m h = ground (arith, waiting-append_here d ms m h)

  pub waiting-append_elsewhere :
      (d : String) (ms : List MessageRow) (m : MessageRow)
      → is_for d m ≡ false
      → waiting d (ms ++ (m ∷ [])) ≡ waiting d ms
  waiting-append_elsewhere d [] m h = ground (arith, h)
  waiting-append_elsewhere d (n ∷ ms) m h = ground (arith, waiting-append_elsewhere d ms m h)

  -- A device is not two devices.
  is_for-same :
      (a b : String) (m : MessageRow) → (b == a) ≡ true → is_for a m ≡ true → is_for b m ≡ true
  is_for-same a b m h k =
      ground (arith, eq_iff m.recipient_device_id a, eq_iff m.recipient_device_id b, eq_iff b a)

  is_for-apart :
      (a b : String) (m : MessageRow) → (b == a) ≡ false → is_for a m ≡ true → is_for b m ≡ false
  is_for-apart a b m h k =
      ground (arith, eq_iff m.recipient_device_id a, eq_iff m.recipient_device_id b, eq_iff b a)

  -- DELETE … WHERE recipient_device_id = id
  pub waiting-taken :
      (d id : String) (ms : List MessageRow)
      → (id == d) ≡ true
      → waiting d (filter (λ m. not (is_for id m)) ms) ≡ []
  waiting-taken d id ms h =
      ap (map row_post)
        (filter-filter_none (is_for d) _ ms (λ m p. ap not (is_for-same d id m h p)))

  pub waiting-taken_elsewhere :
      (d id : String) (ms : List MessageRow)
      → (id == d) ≡ false
      → waiting d (filter (λ m. not (is_for id m)) ms) ≡ waiting d ms
  waiting-taken_elsewhere d id ms h =
      ap (map row_post)
        (filter-filter_same (is_for d) _ ms (λ m p. ap not (is_for-apart d id m h p)))

  -- what the deletion of a device leaves
  abbrev pub stays : String → MessageRow → Bool
  stays id m = not (is_for id m) && not (m.sender_device_id == id)

  pub waiting-deleted :
      (d id : String) (ms : List MessageRow)
      → (id == d) ≡ true
      → waiting d (filter (stays id) ms) ≡ []
  waiting-deleted d id ms h = ap (map row_post) (
      filter-filter_none (is_for d) _ ms
        (λ m p. ap (λ b. not b && not (m.sender_device_id == id)) (is_for-same d id m h p)))

  pub waiting-deleted_elsewhere :
      (d id : String) (ms : List MessageRow)
      → (id == d) ≡ false
      → waiting d (filter (stays id) ms) ≡ filter (not_by id) (waiting d ms)
  waiting-deleted_elsewhere d id [] h = refl
  waiting-deleted_elsewhere d id (m ∷ ms) h =
      ground (arith, waiting-deleted_elsewhere d id ms h, is_for-apart d id m h)
