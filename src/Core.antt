-- ===== src/Core.antt =====
-- cliprelay-core/src/lib.rs: the types, limits and errors that the relay and the clients share.
-- The children hold the functions: Frame the wire format, Cipher keys and encryption, Replay the
-- counter check. What serde_json does is a parameter, `Json`.
pub mod LittleEndian
pub mod Frame
pub mod Cipher
pub mod Replay
use cliprelay.Base.{ℕ, ◌*◌, ◌≡◌, List, ◌⊎◌, inl, inr, Result, ok, err}
use cliprelay.Text.{Text, Bytes}

abbrev pub max_clipboard_text_bytes : ℕ
max_clipboard_text_bytes = 256 * 1024

abbrev pub max_relay_message_bytes : ℕ
max_relay_message_bytes = 300 * 1024

abbrev pub max_devices_per_room : ℕ
max_devices_per_room = 10

abbrev pub max_mime_len : ℕ
max_mime_len = 128

abbrev pub DeviceId : Type 0
DeviceId = Text

abbrev pub RoomId : Type 0
RoomId = Text

pub record PeerInfo : Type 0 where
  pub device_id : Text
  pub device_name : Text

pub record ClipboardEventPlaintext : Type 0 where
  pub sender_device_id : Text
  pub counter : ℕ
  pub timestamp_unix_ms : ℕ
  pub mime : Text
  pub text_utf8 : Text

pub record EncryptedPayload : Type 0 where
  pub sender_device_id : Text
  pub counter : ℕ
  pub ciphertext : Bytes

pub record Hello : Type 0 where
  pub room_id : RoomId
  pub peer : PeerInfo

pub record PeerList : Type 0 where
  pub room_id : RoomId
  pub peers : List PeerInfo

pub record PeerJoined : Type 0 where
  pub room_id : RoomId
  pub peer : PeerInfo

pub record PeerLeft : Type 0 where
  pub room_id : RoomId
  pub device_id : DeviceId

pub record SaltExchange : Type 0 where
  pub room_id : RoomId
  pub device_ids : List DeviceId

pub data ControlMessage : Type 0 where
  hello : Hello → ControlMessage
  peer_list : PeerList → ControlMessage
  peer_joined : PeerJoined → ControlMessage
  peer_left : PeerLeft → ControlMessage
  salt_exchange : SaltExchange → ControlMessage
  error : Text → ControlMessage

pub data WireMessage : Type 0 where
  control : ControlMessage → WireMessage
  encrypted : EncryptedPayload → WireMessage

-- The discriminants of `MessageType`.
abbrev pub control_type : ℕ
control_type = 0

abbrev pub encrypted_clipboard_type : ℕ
encrypted_clipboard_type = 1

pub data CoreError : Type 0 where
  empty_room_code invalid_mime clipboard_too_large invalid_frame_length : CoreError
  unsupported_message_type : ℕ → CoreError
  serialization : Text → CoreError
  encryption_failed decryption_failed payload_identity_mismatch key_derivation_failed : CoreError
  replay_rejected : Text → ℕ → ℕ → CoreError

abbrev pub CoreResult {ℓ} : Type ℓ → Type ℓ
CoreResult A = Result CoreError A

-- `serde_json::to_vec` and `from_slice` at one type; `inl` is the text of serde's error.
pub record Json (A : Type 0) : Type 0 where
  pub to_vec : A → Text ⊎ Bytes
  pub from_slice : Bytes → Text ⊎ A

-- What serde documents of derived implementations: reading back what was written.
abbrev pub RoundTrips : {A : Type 0} → Json A → Type 0
RoundTrips {A} json = (a : A) (b : Bytes) → json.to_vec a ≡ inr b → json.from_slice b ≡ inr a

-- `.map_err(|err| CoreError::Serialization(err.to_string()))`.
abbrev pub or_serialization {ℓ} : {A : Type ℓ} → Text ⊎ A → CoreResult A
or_serialization (inl e) = err (serialization e)
or_serialization (inr a) = ok a

-- What the wire format takes from outside: serde_json at `ControlMessage`, and the text of the
-- standard library's `Utf8Error`, which depends on the bytes that are no UTF-8.
pub record Codec : Type 0 where
  pub json : Json ControlMessage
  pub utf8_error : Bytes → Text
