-- ===== src/Delivery.antt =====
-- From one device to another: what a client queues, writes and the relay forwards, and what the other
-- client makes of it. It puts cliprelay-client/src/main.rs and cliprelay-relay/src/lib.rs together.
pub mod Joining
use cliprelay.Client.Incoming.Delivered.{on_payload-encrypt_clipboard_event}
use cliprelay.Relay.Session.Forwarding.{on_binary-forwards}
use cliprelay.Core.Frame.RoundTrip.{decode_frame-encode_frame, IsPayload}
use cliprelay.Core.Cipher.RoundTrip.{encrypt-ok}
use cliprelay.Core.Replay.Order.{IsFresh}
use cliprelay.Relay.Room.Membership.{lookup_device}
use cliprelay.Relay.Bucket.{consume, Floats}
use cliprelay.Core.Frame.{decode_frame, encode_frame}
use cliprelay.Client.Connection.{ping, effect, Out, frame, send_message}
use cliprelay.Core.{
  max_relay_message_bytes, RoundTrips, DeviceId, WireMessage, Codec, control,
  max_clipboard_text_bytes, encrypted, EncryptedPayload,
}
use cliprelay.Text.{IsUtf8, trim, is_empty, Bytes, Text}
use cliprelay.Client.{incoming_clipboard, last_received, SharedRuntimeState, ClientConfig}
use cliprelay.Client.Transfer.{Outside}
use cliprelay.Core.Cipher.{Unseals, encrypt_clipboard_event, Primitives}
use cliprelay.Base.{
  =?_iff, sym, ◌∙◌, All-In, false, ◌=?◌, ◌≤◌, [], ◌∷◌, ◌^◌, List, ◌<◌, refl, true, All,
  Result-cases, Option-cases, length, ltb, inr, arith, inl, Bool-cases, ok, some, ◌≡◌, In, ℕ,
}
use cliprelay.Relay.Session.{Session, on_received, message}
use cliprelay.Relay.Room.{Connection, RelayState, binary}
use cliprelay.Client.Outgoing.{
  persist, tell, queue, Clock, Effect, on_send_text, text_event, saturating_suc,
}
use cliprelay.Client.Incoming.{
  is_last_applied, Passed, on_incoming, Receiver, binary_message, to_window,
}

module _ (prim : Primitives) (outside : Outside) where
  -- An encrypted message that is queued is the text, encrypted under the room key that the client has.
  abbrev IsOwn : ClientConfig → SharedRuntimeState → ℕ → Clock → Text → Effect → Type 0
  IsOwn config shared counter clock words (queue (encrypted payload)) =
      (key : Bytes) × (shared.room_key ≡ some key)
      × (encrypt_clipboard_event prim key (text_event config clock (saturating_suc counter) words)
          ≡ ok payload)
  IsOwn config shared counter clock words (queue (control m)) = Unit {0}
  IsOwn config shared counter clock words (tell e) = Unit {0}
  IsOwn config shared counter clock words (persist n) = Unit {0}

  on_send_text-IsOwn :
      (config : ClientConfig) (shared : SharedRuntimeState) (counter : ℕ) (clock : Clock)
      (words : Text)
      → All
          (IsOwn config shared counter clock words)
          (on_send_text prim outside config shared counter clock words).1
  unfolding on_send_text
  on_send_text-IsOwn config shared counter clock words =
      let c' : ℕ = saturating_suc counter in
      elim (Bool-cases (is_empty (trim words))) [
        | inl blank ↦ rw (blank, on_send_text) tt
        | inr blank ↦ elim (Bool-cases (ltb max_clipboard_text_bytes (length words))) [
          | inl long ↦ rw (blank, on_send_text, long, on_send_text) (tt, tt)
          | inr long ↦ elim (Option-cases shared.room_key) [
            | inl no_key ↦
                rw (blank, on_send_text, long, on_send_text, no_key, on_send_text) (tt, tt)
            | inr (key, has_key) ↦
                elim (Result-cases
                  (encrypt_clipboard_event prim key (text_event config clock c' words))) [
                    | inl (p, made) ↦
                        rw
                          (
                            blank, on_send_text, long, on_send_text, has_key, on_send_text, made,
                            on_send_text,
                          )
                          ((key, refl, made), (tt, (tt, tt)))
                    | inr (inl (x, failed)) ↦
                        rw
                          (
                            blank, on_send_text, long, on_send_text, has_key, on_send_text, failed,
                            on_send_text,
                          )
                          (tt, tt)
                    | inr (inr failed) ↦
                        rw
                          (
                            blank, on_send_text, long, on_send_text, has_key, on_send_text, failed,
                            on_send_text,
                          )
                          tt
                  ]
          ]
        ]
      ]

-- A frame that the send task writes is that of the message.
abbrev IsFrameOf : Codec → WireMessage → Out → Type 0
IsFrameOf codec m (frame bytes) = encode_frame codec m ≡ ok bytes
IsFrameOf codec m (effect e) = Unit {0}
IsFrameOf codec m ping = Unit {0}

send_message-IsFrameOf :
    (codec : Codec) (m : WireMessage) → All (IsFrameOf codec m) (send_message codec m true).1
unfolding send_message
send_message-IsFrameOf codec m = elim (Result-cases (encode_frame codec m)) [
  | inl (bytes, e) ↦ rw (e, send_message, e) (refl, tt)
  | inr (inl (x, e)) ↦ rw (e, send_message) tt
  | inr (inr e) ↦ rw (e, send_message) tt
]

below_u64 : (n : ℕ) → saturating_suc n < 2 ^ 64
unfolding saturating_suc
below_u64 n = omega arith

-- What the other client shows of a payload that was sent.
abbrev pub shows : ℕ → DeviceId → Text → Bytes → List Passed
shows now sender words content_hash =
    to_window (last_received now) ∷ to_window (incoming_clipboard sender words content_hash) ∷ []

module _ {F : Type 0} (floats : Floats F) (prim : Primitives) (outside : Outside)
    (codec : Codec) where
  -- A text that a client queues, and whose frame, of at most 300 KiB, its send task writes: the relay
  -- sends it to each other device of the sender's room, if the session is the sender's and within its
  -- rate; and when such a device, which has the same room key, has not received the counter yet, and
  -- has not applied this text last, reads that, its window is told the text and the sender's id. The
  -- sender's id is UTF-8, the JSON of messages and of events reads back, and the cipher opens what it
  -- sealed.
  pub on_send_text-shown :
      (sender : ClientConfig) (shared : SharedRuntimeState) (counter : ℕ) (clock : Clock)
      (words : Text) {payload : EncryptedPayload} {bytes : Bytes} (state : RelayState)
      (s : Session F) (now : ℕ) (conn : Connection) (reader : ClientConfig)
      (theirs : SharedRuntimeState) (r : Receiver) (later : ℕ)
      → RoundTrips codec.json
      → RoundTrips prim.event_json
      → Unseals prim
      → IsUtf8 sender.device_id
      → In
          (queue (encrypted payload))
          (on_send_text prim outside sender shared counter clock words).1
      → In (frame bytes) (send_message codec (encrypted payload) true).1
      → length bytes ≤ max_relay_message_bytes
      → s.device_id ≡ sender.device_id
      → (consume floats s.rate_limiter (floats.literal 1) now).1 ≡ true
      → lookup_device state s.room_id reader.device_id ≡ some conn
      → (sender.device_id =? reader.device_id) ≡ false
      → theirs.room_key ≡ shared.room_key
      → IsFresh r.replay_map sender.device_id (saturating_suc counter)
      → is_last_applied theirs (prim.sha256 words) ≡ false
      → In (conn.tx, binary bytes) (on_received floats codec state s now (message (binary bytes))).1
        × ((on_incoming prim outside codec reader theirs r later (binary_message bytes)).1
            ≡ shows later sender.device_id words (prim.sha256 words))
  unfolding on_received on_incoming text_event
  on_send_text-shown sender shared counter clock words {payload} {bytes} state s now conn reader
        theirs r later codec_rt event_rt unseals utf8 queued_it wrote small own allowed there_is
        other same_key fresh new =
      let (key, has_key, made) =
        All-In (IsOwn prim outside sender shared counter clock words) queued_it
          (on_send_text-IsOwn prim outside sender shared counter clock words) in
      let encoded_it : encode_frame codec (encrypted payload) ≡ ok bytes =
        All-In (IsFrameOf codec (encrypted payload)) wrote
          (send_message-IsFrameOf codec (encrypted payload)) in
      let (fine, plain, written, sealed, s_eq, c_eq) =
        encrypt-ok prim key (text_event sender clock (saturating_suc counter) words) made in
      let is_payload : IsPayload payload = record {
        utf8 = rw s_eq utf8;
        counter_lt = rw c_eq (below_u64 counter);
      } in
      let decoded : decode_frame codec bytes ≡ ok (encrypted payload) =
        decode_frame-encode_frame codec (encrypted payload) codec_rt is_payload encoded_it in
      (
        on_binary-forwards floats codec state s now bytes payload reader.device_id conn small
            encoded_it decoded (s_eq ∙ sym own) allowed there_is
            (λ e. ground (arith, (=?_iff sender.device_id reader.device_id).1 (sym (e ∙ own)))),
        rw (decoded, on_incoming)
            (on_payload-encrypt_clipboard_event prim outside reader theirs r later key
              (text_event sender clock (saturating_suc counter) words) unseals event_rt made
              (same_key ∙ has_key) refl other fresh new),
      )
