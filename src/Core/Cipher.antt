-- ===== src/Core/Cipher.antt =====
-- Keys and encryption of cliprelay-core/src/lib.rs: `derive_room_key`, `compute_device_list_hash`,
-- `build_nonce`, `encrypt_clipboard_event`, `decrypt_clipboard_event` and `room_id_from_code`.
-- The primitives are those of other crates (sha2, hkdf, chacha20poly1305, serde_json, hex).
pub mod RoundTrip
pub mod Sorting
pub mod Keys
use cliprelay.Base.{
  ℕ, ◌+◌, ◌%◌, ◌^◌, ◌≡◌, Bool, true, false, not, ◌&&◌, ◌||◌, Option, none, some, List, [], ◌∷◌,
  ◌++◌, Result, ok, err, panic, ◌>>=◌, ◌>>◌, fail_if, ok_or, length, take, ltb, ◌==◌, ◌=?◌,
  if◌then◌else◌,
}
use cliprelay.Text.{Bytes, Text, trim, is_empty, ascii}
use cliprelay.Core.{
  ClipboardEventPlaintext, EncryptedPayload, CoreResult, DeviceId, RoomId, empty_room_code,
  invalid_mime, clipboard_too_large, encryption_failed, decryption_failed,
  payload_identity_mismatch, key_derivation_failed, Json, or_serialization, max_mime_len,
  max_clipboard_text_bytes,
}
use cliprelay.Core.LittleEndian.{to_le_bytes}

pub record Primitives : Type 0 where
  pub sha256 : Bytes → Bytes
  -- `Hkdf::<Sha256>::new(Some(salt), ikm)` and `expand(info, 32 bytes)`.
  pub hkdf : Bytes → Bytes → Bytes → Option Bytes
  -- `XChaCha20Poly1305`: key, nonce, associated data, and the message or the ciphertext.
  pub seal : Bytes → Bytes → Bytes → Bytes → Option Bytes
  pub unseal : Bytes → Bytes → Bytes → Bytes → Option Bytes
  pub event_json : Json ClipboardEventPlaintext
  pub hex : Bytes → Text

-- What the AEAD documents: a sealed message opens, under the same key, nonce and associated data.
abbrev pub Unseals : Primitives → Type 0
Unseals prim =
    (key nonce aad msg ciphertext : Bytes)
    → prim.seal key nonce aad msg ≡ some ciphertext
    → prim.unseal key nonce aad ciphertext ≡ some msg

abbrev pub room_key_info : Bytes
room_key_info = ascii "cliprelay v1 room key"

abbrev pub aad : Bytes
aad = ascii "cliprelay:v1"

-- The order of `String`: lexicographic on bytes.
unfoldable pub le_text : Text → Text → Bool
le_text [] t = true
le_text (x ∷ s) [] = false
le_text (x ∷ s) (y ∷ t) = ltb x y || (x == y && le_text s t)

unfoldable pub insert_sorted : Text → List Text → List Text
insert_sorted s [] = s ∷ []
insert_sorted s (t ∷ ts) =
    let rest = insert_sorted s ts in if le_text s t then s ∷ t ∷ ts else t ∷ rest

-- `sorted.sort()`. Equal texts are the same bytes, so any sorting method gives this list.
unfoldable pub sort : List Text → List Text
sort [] = []
sort (s ∷ ss) = insert_sorted s (sort ss)

-- What the hasher is fed: `(device_id.len() as u32).to_le_bytes()` and the id, for each id in order.
unfoldable pub hash_input : List DeviceId → Bytes
hash_input [] = []
hash_input (id ∷ ids) = to_le_bytes 4 (length id % 2 ^ 32) ++ (id ++ hash_input ids)

-- The guards that both directions make.
unfoldable pub check_mime : Text → CoreResult (Unit {0})
check_mime mime =
    fail_if (is_empty (trim mime) || ltb max_mime_len (length (trim mime))) invalid_mime

unfoldable pub check_text : Text → CoreResult (Unit {0})
check_text text = fail_if (ltb max_clipboard_text_bytes (length text)) clipboard_too_large

unfoldable pub same_identity : ClipboardEventPlaintext → EncryptedPayload → Bool
same_identity event payload =
    event.sender_device_id =? payload.sender_device_id && event.counter == payload.counter

module _ (prim : Primitives) where
  unfoldable pub compute_device_list_hash : List DeviceId → Bytes
  compute_device_list_hash device_ids = prim.sha256 (hash_input (sort device_ids))

  unfoldable pub derive_room_key : Text → List DeviceId → CoreResult Bytes
  derive_room_key room_code device_ids = do
    fail_if (is_empty (trim room_code)) empty_room_code
    let room_code_hash = prim.sha256 room_code
    let salt_hash = compute_device_list_hash device_ids
    ok_or (prim.hkdf salt_hash room_code_hash room_key_info) key_derivation_failed

  unfoldable pub build_nonce : Text → ℕ → Bytes
  build_nonce sender_device_id counter =
      take 16 (prim.sha256 sender_device_id) ++ to_le_bytes 8 counter

  unfoldable pub encrypt_clipboard_event :
      Bytes → ClipboardEventPlaintext → CoreResult EncryptedPayload
  encrypt_clipboard_event room_key event = do
    check_mime event.mime
    check_text event.text_utf8
    let nonce = build_nonce event.sender_device_id event.counter
    plaintext ← or_serialization (prim.event_json.to_vec event)
    ciphertext ← ok_or (prim.seal room_key nonce aad plaintext) encryption_failed
    ok (record {
      sender_device_id = event.sender_device_id;
      counter = event.counter;
      ciphertext = ciphertext;
    })

  unfoldable pub decrypt_clipboard_event :
      Bytes → EncryptedPayload → CoreResult ClipboardEventPlaintext
  decrypt_clipboard_event room_key payload = do
    let nonce = build_nonce payload.sender_device_id payload.counter
    plaintext ← ok_or (prim.unseal room_key nonce aad payload.ciphertext) decryption_failed
    event ← or_serialization (prim.event_json.from_slice plaintext)
    fail_if (not (same_identity event payload)) payload_identity_mismatch
    check_mime event.mime
    check_text event.text_utf8
    ok event

  unfoldable pub room_id_from_code : Text → RoomId
  room_id_from_code room_code = prim.hex (prim.sha256 room_code)
