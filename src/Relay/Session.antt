-- ===== src/Relay/Session.antt =====
-- What one socket does in cliprelay-relay/src/lib.rs: `parse_hello_message` and `handle_socket`.
-- A socket is the list of what it receives; another socket may change the shared state in between, so
-- the step for one message takes the state as it is then.
pub mod Forwarding
use cliprelay.Base.{
  ℕ, Bool, not, Option, none, some, Result, ok, err, panic, ◌>>=◌, ◌>>◌, fail_if, map_err, List, [],
  ◌∷◌, ◌++◌, ltb, ◌=?◌, if◌then◌else◌, length,
}
use cliprelay.Text.{Bytes, Text, trim, is_empty}
use cliprelay.Core.{
  Hello, hello, WireMessage, control, encrypted, EncryptedPayload, RoomId, DeviceId, Codec,
  max_relay_message_bytes,
}
use cliprelay.Core.Frame.{decode_frame}
use cliprelay.Relay.Bucket.{Floats, TokenBucket, new, consume}
use cliprelay.Relay.Room.{
  Message, binary, close, RelayState, Sends, SessionError, disconnected_before_hello, not_binary,
  not_hello, empty_room_id, empty_device_id, empty_device_name, invalid_hello_frame, receive_failed,
  register_client, unregister_client, forward_encrypted,
}

-- What `ws_receiver.next()` yields: a message, an error, or the end of the stream.
pub data Received : Type 0 where
  message : Message → Received
  failed : Text → Received
  ended : Received

abbrev pub is_blank : Text → Bool
is_blank s = is_empty (trim s)

unfoldable pub check_hello : Hello → Result SessionError Hello
check_hello h = do
  fail_if (is_blank h.room_id) empty_room_id
  fail_if (is_blank h.peer.device_id) empty_device_id
  fail_if (is_blank h.peer.device_name) empty_device_name
  ok h

unfoldable pub hello_of : WireMessage → Result SessionError Hello
hello_of (control (hello h)) = check_hello h
hello_of (control m) = err not_hello
hello_of (encrypted p) = err not_hello

-- The first message, with the errors of `handle_socket` for a stream that fails or ends before it.
unfoldable pub first_message : Received → Result SessionError Message
first_message (message m) = ok m
first_message (failed e) = err (receive_failed e)
first_message ended = err disconnected_before_hello

module _ (codec : Codec) where
  unfoldable pub parse_hello_message : Message → Result SessionError Hello
  parse_hello_message (binary bytes) = do
    frame ← map_err invalid_hello_frame (decode_frame codec bytes)
    hello_of frame
  parse_hello_message m = err not_binary

-- What `handle_socket` keeps between messages.
pub record Session (F : Type 0) : Type 0 where
  pub room_id : RoomId
  pub device_id : DeviceId
  pub tx : ℕ
  pub rate_limiter : TokenBucket F

module _ {F : Type 0} (floats : Floats F) (codec : Codec) where
  -- From the first message to `register_client`. A failed registration ends the session without an
  -- `unregister_client`.
  unfoldable pub open_session :
      RelayState → ℕ → ℕ → Received → RelayState × Result SessionError (Session F × Sends)
  open_session state tx now received = elim (first_message received >>= parse_hello_message codec) [
    | err e ↦ (state, err e)
    | panic ↦ (state, panic)
    | ok h ↦
        let (state', answer) =
          register_client codec state h.room_id (record { peer = h.peer; tx = tx }) in
        let session : Session F = record {
          room_id = h.room_id;
          device_id = h.peer.device_id;
          tx = tx;
          rate_limiter = new floats (floats.literal 400) (floats.literal 200) now;
        } in
        (state', answer >>= λ sends. ok (session, sends))
  ]

  -- An encrypted payload from the session's device, within its rate, is forwarded to its room.
  unfoldable pub on_encrypted : RelayState → Session F → ℕ → EncryptedPayload → Session F × Sends
  on_encrypted state s now payload =
      if not (payload.sender_device_id =? s.device_id)
      then (s, [])
      else let (rate_limiter, allowed) = consume floats s.rate_limiter (floats.literal 1) now in
        let s' : Session F = record s { rate_limiter = rate_limiter } in
        if allowed
        then (s', forward_encrypted codec state s.room_id s.device_id payload)
        else (s', [])

  unfoldable pub on_binary : RelayState → Session F → ℕ → Bytes → Session F × Sends
  on_binary state s now bytes =
      if ltb max_relay_message_bytes (length bytes)
      then (s, [])
      else elim (decode_frame codec bytes) [
        | ok (encrypted payload) ↦ on_encrypted state s now payload
        | ok (control m) ↦ (s, [])
        | err e ↦ (s, [])
        | panic ↦ (s, [])
      ]

  -- One round of the loop: the session as it goes on, or `none` where the loop is left, and what is
  -- sent.
  unfoldable pub on_received : RelayState → Session F → ℕ → Received → Option (Session F) × Sends
  on_received state s now (message (binary bytes)) =
      let (s', sends) = on_binary state s now bytes in (some s', sends)
  on_received state s now (message close) = (none, [])
  on_received state s now (message m) = (some s, [])
  on_received state s now (failed e) = (none, [])
  on_received state s now ended = (none, [])
