-- ===== src/Relay/Session/Forwarding.antt =====
-- What a session passes on.
use cliprelay.Base.{
  =?_refl, le→ltb_false, ap, ℕ, ◌≡◌, ◌≢◌, ◌≤◌, arith, true, false, Bool-cases, some, All, All-mono,
  In, ok, Result-cases, inl, inr, ltb, ltb_false→le, length, ◌=?◌, =?→eq,
}
use cliprelay.Text.{Bytes, IsByte}
use cliprelay.Core.{
  Codec, EncryptedPayload, WireMessage, control, encrypted, DeviceId, max_relay_message_bytes,
}
use cliprelay.Core.Frame.{encode_frame, decode_frame}
use cliprelay.Core.Frame.Decode.{encode-decode_frame}
use cliprelay.Relay.Bucket.{Floats, consume}
use cliprelay.Relay.Room.{RelayState, Message, binary, Connection, forward_encrypted}
use cliprelay.Relay.Room.Invariant.{IsRelay}
use cliprelay.Relay.Room.Membership.{devices_of, lookup_device}
use cliprelay.Relay.Room.Delivery.{
  IsRecipient, IsDelivery, forward_encrypted-only, forward_encrypted-reaches,
}
use cliprelay.Base.Map.{get}
use cliprelay.Relay.Session.{Session, on_encrypted, on_binary}

module _ {F : Type 0} (floats : Floats F) (codec : Codec) where
  -- What `on_encrypted` sends carries a payload of the session's own device.
  on_encrypted-only :
      (state : RelayState) (s : Session F) (now : ℕ) (payload : EncryptedPayload)
      → IsRelay state
      → All
          (λ send.
            IsDelivery codec state s.room_id s.device_id payload send
            × (payload.sender_device_id ≡ s.device_id))
          (on_encrypted floats codec state s now payload).1
  unfolding on_encrypted
  on_encrypted-only state s now payload v =
      elim (Bool-cases (payload.sender_device_id =? s.device_id)) [
        | inr other ↦ rw (other, on_encrypted) tt
        | inl own ↦ elim (Bool-cases (consume floats s.rate_limiter (floats.literal 1) now).1) [
          | inr spent ↦ rw (own, on_encrypted, spent) tt
          | inl allowed ↦
              rw (own, on_encrypted, allowed)
                (All-mono (IsDelivery codec state s.room_id s.device_id payload) _
                  (forward_encrypted codec state s.room_id s.device_id payload)
                  (λ send d. (d, =?→eq payload.sender_device_id s.device_id own))
                  (forward_encrypted-only codec state s.room_id s.device_id payload v))
        ]
      ]

  -- A send of the bytes that came in, to another device of the session's room.
  abbrev pub IsRelayed : RelayState → Session F → Bytes → ℕ × Message → Type 0
  IsRelayed state s bytes send =
      IsRecipient (devices_of (get state.rooms s.room_id)) s.device_id send.0
      × (send.1 ≡ binary bytes)
      × (length bytes ≤ max_relay_message_bytes)
      × (payload : EncryptedPayload) × (decode_frame codec bytes ≡ ok (encrypted payload))
      × (payload.sender_device_id ≡ s.device_id)

  IsRelayed-delivery :
      (state : RelayState) (s : Session F) (bytes : Bytes) (payload : EncryptedPayload)
      (send : ℕ × Message)
      → All IsByte bytes
      → length bytes ≤ max_relay_message_bytes
      → decode_frame codec bytes ≡ ok (encrypted payload)
      → IsDelivery codec state s.room_id s.device_id payload send
        × (payload.sender_device_id ≡ s.device_id)
      → IsRelayed state s bytes send
  IsRelayed-delivery state s bytes payload send h small decoded
        ((to, frame, written, is_frame), own) =
      let same : frame ≡ bytes =
        ground (arith, written, encode-decode_frame codec bytes h decoded) in
      (to, rw is_frame (ap binary same), small, payload, decoded, own)

  on_message-only :
      (state : RelayState) (s : Session F) (now : ℕ) (bytes : Bytes) (m : WireMessage)
      → IsRelay state
      → All IsByte bytes
      → ltb max_relay_message_bytes (length bytes) ≡ false
      → decode_frame codec bytes ≡ ok m
      → All (IsRelayed state s bytes) (on_binary floats codec state s now bytes).1
  unfolding on_binary
  on_message-only state s now bytes (control m) v h small decoded =
      rw (small, on_binary, decoded) tt
  on_message-only state s now bytes (encrypted payload) v h small decoded =
      rw (small, on_binary, decoded)
        (All-mono _ (IsRelayed state s bytes) (on_encrypted floats codec state s now payload).1
          (λ send. IsRelayed-delivery state s bytes payload send h (ltb_false→le _ _ small) decoded)
          (on_encrypted-only state s now payload v))

  -- In a sound state, whatever a session sends on is the bytes that it received, byte for byte, in a frame within the limit that
  -- decodes to a payload of its own device; and it goes to other devices of the same room only.
  pub on_binary-only :
      (state : RelayState) (s : Session F) (now : ℕ) (bytes : Bytes)
      → IsRelay state
      → All IsByte bytes
      → All (IsRelayed state s bytes) (on_binary floats codec state s now bytes).1
  unfolding on_binary
  on_binary-only state s now bytes v h =
      elim (Bool-cases (ltb max_relay_message_bytes (length bytes))) [
        | inl large ↦ rw (large, on_binary) tt
        | inr small ↦ elim (Result-cases (decode_frame codec bytes)) [
          | inl (m, decoded) ↦ on_message-only state s now bytes m v h small decoded
          | inr (inl (e, failed)) ↦ rw (small, on_binary, failed) tt
          | inr (inr failed) ↦ rw (small, on_binary, failed) tt
        ]
      ]

  -- A frame that the payload encodes to, and that decodes to it, is forwarded as it is.
  pub on_binary-forwards :
      (state : RelayState) (s : Session F) (now : ℕ) (bytes : Bytes) (payload : EncryptedPayload)
      (id : DeviceId) (conn : Connection)
      → length bytes ≤ max_relay_message_bytes
      → encode_frame codec (encrypted payload) ≡ ok bytes
      → decode_frame codec bytes ≡ ok (encrypted payload)
      → payload.sender_device_id ≡ s.device_id
      → (consume floats s.rate_limiter (floats.literal 1) now).1 ≡ true
      → lookup_device state s.room_id id ≡ some conn
      → id ≢ s.device_id
      → In (conn.tx, binary bytes) (on_binary floats codec state s now bytes).1
  unfolding on_binary on_encrypted
  on_binary-forwards state s now bytes payload id conn small encoded decoded own allowed there_is
        other =
      let own_device : (payload.sender_device_id =? s.device_id) ≡ true =
        rw own (=?_refl s.device_id) in
      rw
        (
          le→ltb_false max_relay_message_bytes (length bytes) small,
          on_binary,
          decoded,
          own_device,
          allowed,
        )
        (forward_encrypted-reaches codec state s.room_id s.device_id id payload conn bytes there_is
          other encoded)
