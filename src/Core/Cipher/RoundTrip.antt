-- ===== src/Core/Cipher/RoundTrip.antt =====
-- Encryption and decryption: the guards, and that each undoes the other.
use cliprelay.Base.{
  true, not, ◌≡◌, arith, some, ok, length, inr, ◌≤◌, ==_refl, =?_refl, =?→eq, false,
}
use cliprelay.Text.{Bytes, Text, trim, is_empty}
use cliprelay.Core.{
  ClipboardEventPlaintext, EncryptedPayload, RoundTrips, max_mime_len, max_clipboard_text_bytes,
}
use cliprelay.Core.Cipher.{
  Primitives, Unseals, aad, build_nonce, check_mime, check_text, encrypt_clipboard_event,
  decrypt_clipboard_event, same_identity,
}

-- An event that may travel: a MIME type with something in it, of at most 128 bytes without the blanks
-- around it, and a text within the limit.
pub record IsSendable (event : ClipboardEventPlaintext) : Type 0 where
  pub mime_visible : is_empty (trim event.mime) ≡ false
  pub mime_le : length (trim event.mime) ≤ max_mime_len
  pub text_le : length event.text_utf8 ≤ max_clipboard_text_bytes

check_mime-ok :
    (mime : Text) {u : Unit {0}}
    → check_mime mime ≡ ok u
    → (is_empty (trim mime) ≡ false) × (length (trim mime) ≤ max_mime_len)
unfolding check_mime
check_mime-ok mime e = ground arith

check_text-ok :
    (text : Text) {u : Unit {0}} → check_text text ≡ ok u → length text ≤ max_clipboard_text_bytes
unfolding check_text
check_text-ok text e = ground arith

check_mime-passes :
    (mime : Text)
    → is_empty (trim mime) ≡ false
    → length (trim mime) ≤ max_mime_len
    → check_mime mime ≡ ok tt
unfolding check_mime
check_mime-passes mime h l = ground arith

check_text-passes : (text : Text) → length text ≤ max_clipboard_text_bytes → check_text text ≡ ok tt
unfolding check_text
check_text-passes text h = ground arith

same_identity_iff :
    (event : ClipboardEventPlaintext) (payload : EncryptedPayload)
    → not (same_identity event payload) ≡ false
    → (event.sender_device_id ≡ payload.sender_device_id) × (event.counter ≡ payload.counter)
unfolding same_identity
same_identity_iff event payload h =
    ground (arith, =?→eq event.sender_device_id payload.sender_device_id)

same_identity_refl :
    (event : ClipboardEventPlaintext) (payload : EncryptedPayload)
    → payload.sender_device_id ≡ event.sender_device_id
    → payload.counter ≡ event.counter
    → same_identity event payload ≡ true
unfolding same_identity
same_identity_refl event payload s c =
    rw (s, c, =?_refl event.sender_device_id, ==_refl event.counter)

module _ (prim : Primitives) (key : Bytes) where
  -- What `encrypt_clipboard_event` accepts, and what it puts outside the ciphertext.
  pub encrypt-ok :
      (event : ClipboardEventPlaintext) {payload : EncryptedPayload}
      → encrypt_clipboard_event prim key event ≡ ok payload
      → IsSendable event
        × (plain : Bytes) × (prim.event_json.to_vec event ≡ inr plain)
        × (prim.seal key (build_nonce prim event.sender_device_id event.counter) aad plain
            ≡ some payload.ciphertext)
        × (payload.sender_device_id ≡ event.sender_device_id)
        × (payload.counter ≡ event.counter)
  unfolding encrypt_clipboard_event
  encrypt-ok event e =
      ground (arith, check_mime-ok event.mime {u = tt}, check_text-ok event.text_utf8 {u = tt})

  -- An event that is delivered carries the sender and the counter that the relay saw outside.
  pub decrypt_clipboard_event-ok :
      (payload : EncryptedPayload) {event : ClipboardEventPlaintext}
      → decrypt_clipboard_event prim key payload ≡ ok event
      → (event.sender_device_id ≡ payload.sender_device_id)
        × (event.counter ≡ payload.counter)
        × IsSendable event
  unfolding decrypt_clipboard_event
  decrypt_clipboard_event-ok payload {event} e = ground (
    arith,
    check_mime-ok event.mime {u = tt},
    check_text-ok event.text_utf8 {u = tt},
    same_identity_iff event payload,
  )

  decrypt_sealed :
      (event : ClipboardEventPlaintext) (payload : EncryptedPayload) (plain : Bytes)
      → IsSendable event
      → payload.sender_device_id ≡ event.sender_device_id
      → payload.counter ≡ event.counter
      → prim.unseal key
          (build_nonce prim payload.sender_device_id payload.counter)
          aad
          payload.ciphertext
        ≡ some plain
      → prim.event_json.from_slice plain ≡ inr event
      → decrypt_clipboard_event prim key payload ≡ ok event
  unfolding decrypt_clipboard_event
  decrypt_sealed event payload plain fine is_sender is_counter opened parsed = rw (
    opened,
    parsed,
    same_identity_refl event payload is_sender is_counter,
    check_mime-passes event.mime fine.mime_visible fine.mime_le,
    check_text-passes event.text_utf8 fine.text_le,
  )

  -- What one device encrypts another decrypts under the same key, where the cipher opens what it
  -- sealed and the JSON of an event reads back.
  pub decrypt-encrypt_clipboard_event :
      (event : ClipboardEventPlaintext) {payload : EncryptedPayload}
      → Unseals prim
      → RoundTrips prim.event_json
      → encrypt_clipboard_event prim key event ≡ ok payload
      → decrypt_clipboard_event prim key payload ≡ ok event
  unfolding decrypt_clipboard_event
  decrypt-encrypt_clipboard_event event {payload} unseals rt e =
      let (fine, plain, written, sealed, is_sender, is_counter) = encrypt-ok event e in
      decrypt_sealed event payload plain fine is_sender is_counter
        (rw (is_sender, is_counter)
          (unseals key (build_nonce prim event.sender_device_id event.counter) aad plain
            payload.ciphertext sealed))
        (rt event plain written)
