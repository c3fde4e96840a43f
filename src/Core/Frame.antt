-- ===== src/Core/Frame.antt =====
-- The wire format of cliprelay-core/src/lib.rs: `encode_frame`, `decode_frame` and the compact binary
-- form of an encrypted payload. A byte slice is a list of numbers.
pub mod RoundTrip
pub mod Decode
use cliprelay.Base.{
  ℕ, suc, ◌+◌, ◌^◌, ◌++◌, List, [], ◌∷◌, Option, none, some, Result, ok, err, panic, ◌>>=◌, ◌>>◌,
  fail_if, not, ok_or, length, ltb, ◌==◌, if◌then◌else◌,
}
use cliprelay.Text.{Bytes, Text, from_utf8}
use cliprelay.Core.{
  ControlMessage, EncryptedPayload, WireMessage, control, encrypted, control_type,
  encrypted_clipboard_type, CoreResult, invalid_frame_length, unsupported_message_type,
  serialization, Codec, or_serialization,
}
use cliprelay.Core.LittleEndian.{to_le_bytes, get_uint_le, split_at}

-- `u16::try_from` and `u32::try_from`, with the error that both calls map to.
unfoldable pub try_from : ℕ → ℕ → CoreResult ℕ
try_from bits n = if ltb n (2 ^ bits) then ok n else err invalid_frame_length

-- `device_id_len: u16, device_id, counter: u64, ciphertext_len: u32, ciphertext`.
unfoldable pub encode_encrypted_payload : EncryptedPayload → CoreResult Bytes
encode_encrypted_payload payload = do
  device_id_len ← try_from 16 (length payload.sender_device_id)
  ciphertext_len ← try_from 32 (length payload.ciphertext)
  ok (
      to_le_bytes 2 device_id_len
      ++ (payload.sender_device_id
          ++ (to_le_bytes 8 payload.counter
              ++ (to_le_bytes 4 ciphertext_len ++ payload.ciphertext))))

unfoldable pub utf8_or_fail : Codec → Bytes → CoreResult Text
utf8_or_fail codec bytes = ok_or (from_utf8 bytes) (serialization (codec.utf8_error bytes))

unfoldable pub decode_encrypted_payload : Codec → Bytes → CoreResult EncryptedPayload
decode_encrypted_payload codec bytes = do
  fail_if (ltb (length bytes) (2 + 8 + 4)) invalid_frame_length
  (device_id_len, bytes) ← get_uint_le 2 bytes
  fail_if (ltb (length bytes) (device_id_len + 8 + 4)) invalid_frame_length
  (device_id_bytes, bytes) ← split_at device_id_len bytes
  sender_device_id ← utf8_or_fail codec device_id_bytes
  (counter, bytes) ← get_uint_le 8 bytes
  (ciphertext_len, bytes) ← get_uint_le 4 bytes
  fail_if (not (length bytes == ciphertext_len)) invalid_frame_length
  ok (record { sender_device_id = sender_device_id; counter = counter; ciphertext = bytes })

module _ (codec : Codec) where
  unfoldable pub encode_payload : WireMessage → CoreResult (ℕ × Bytes)
  encode_payload (control message) = do
    payload ← or_serialization (codec.json.to_vec message)
    ok (control_type, payload)
  encode_payload (encrypted message) = do
    payload ← encode_encrypted_payload message
    ok (encrypted_clipboard_type, payload)

  -- `checked_add` cannot fail below 2 ^ 64, and a `Vec` is shorter; `u32::try_from` can.
  unfoldable pub encode_frame : WireMessage → CoreResult Bytes
  encode_frame message = do
    (message_type, payload) ← encode_payload message
    frame_len ← try_from 32 (1 + length payload)
    ok (to_le_bytes 4 frame_len ++ (message_type ∷ payload))

  unfoldable pub decode_message : ℕ → Bytes → CoreResult WireMessage
  decode_message message_type payload =
      if message_type == control_type
      then (do message ← or_serialization (codec.json.from_slice payload); ok (control message))
      else if message_type == encrypted_clipboard_type
      then (do message ← decode_encrypted_payload codec payload; ok (encrypted message))
      else err (unsupported_message_type message_type)

  unfoldable pub decode_frame : Bytes → CoreResult WireMessage
  decode_frame frame = do
    fail_if (ltb (length frame) 5) invalid_frame_length
    (expected_len, cursor) ← get_uint_le 4 frame
    fail_if (not (expected_len + 4 == length frame)) invalid_frame_length
    (message_type, payload) ← get_uint_le 1 cursor
    decode_message message_type payload
