-- ===== src/Relay/Room.antt =====
-- The rooms of cliprelay-relay/src/lib.rs: `register_client`, `unregister_client`,
-- `forward_encrypted` and `broadcast_control`. Each takes the lock once, so each is one step on the
-- shared state. A channel's sending half is a number, and an operation returns what it sends, in
-- order; a send to a channel whose reader is gone is ignored there as here.
pub mod Invariant
pub mod Membership
pub mod Delivery
use cliprelay.Base.{
  ℕ, none, some, Result, ok, err, List, [], ◌∷◌, ◌++◌, map, leb, ◌=?◌, if◌then◌else◌, length,
}
use cliprelay.Base.Map.{Map, get, insert, remove, values}
use cliprelay.Text.{Bytes, Text, is_empty}
use cliprelay.Core.{
  PeerInfo, EncryptedPayload, ControlMessage, peer_list, peer_joined, peer_left, salt_exchange,
  control, encrypted, RoomId, DeviceId, Codec, CoreError, max_devices_per_room,
}
use cliprelay.Core.Frame.{encode_frame}

-- axum's `Message`.
pub data Message : Type 0 where
  binary : Bytes → Message
  text : Text → Message
  ping pong : Bytes → Message
  close : Message

pub record Connection : Type 0 where
  pub peer : PeerInfo
  pub tx : ℕ

pub record Room : Type 0 where
  pub devices : Map Connection

pub record RelayState : Type 0 where
  pub rooms : Map Room

abbrev pub empty_room : Room
empty_room = record { devices = [] }

-- What goes into which channel.
abbrev pub Sends : Type 0
Sends = List (ℕ × Message)

-- The texts of the errors that end a session.
pub data SessionError : Type 0 where
  disconnected_before_hello not_binary not_hello : SessionError
  empty_room_id empty_device_id empty_device_name : SessionError
  invalid_hello_frame : CoreError → SessionError
  receive_failed : Text → SessionError
  room_full : RoomId → SessionError

abbrev pub txs : Map Connection → List ℕ
txs devices = map (λ c. c.tx) (values devices)

abbrev pub peers_of : Map Connection → List PeerInfo
peers_of devices = map (λ c. c.peer) (values devices)

abbrev pub to_all : Bytes → List ℕ → Sends
to_all frame recipients = map (λ tx. (tx, binary frame)) recipients

-- `rooms.entry(room_id).or_default()`.
unfoldable pub room_or_default : RelayState → RoomId → Room
room_or_default state room_id = elim (get state.rooms room_id) [ none ↦ empty_room | some r ↦ r ]

-- `device_id != sender_device_id` of `forward_encrypted`, on the map's entries.
unfoldable pub other_txs : DeviceId → Map Connection → List ℕ
other_txs sender [] = []
other_txs sender ((id, conn) ∷ devices) =
    let rest = other_txs sender devices in if id =? sender then rest else conn.tx ∷ rest

-- The rooms after a device has left one that there is.
unfoldable pub without_device : RelayState → RoomId → Map Connection → RelayState
without_device state room_id devices =
    if is_empty devices
    then record { rooms = remove state.rooms room_id }
    else record { rooms = insert state.rooms room_id (record { devices = devices }) }

module _ (codec : Codec) where
  unfoldable pub broadcast_control : List ℕ → ControlMessage → Sends
  broadcast_control recipients message = elim (encode_frame codec (control message)) [
    | ok frame ↦ to_all frame recipients
    | _ ↦ []
  ]

  -- The three messages that tell a room of a change.
  unfoldable pub announce : RoomId → ControlMessage → Map Connection → Sends
  announce room_id change devices =
      broadcast_control (txs devices) change
      ++ (broadcast_control (txs devices)
            (peer_list (record { room_id = room_id; peers = peers_of devices }))
          ++ broadcast_control (txs devices) (
              salt_exchange (record {
                room_id = room_id;
                device_ids = map (λ p. p.device_id) (peers_of devices);
              })))

  unfoldable pub register_client :
      RelayState → RoomId → Connection → RelayState × Result SessionError Sends
  register_client state room_id connection =
      let room = room_or_default state room_id in
      let devices = insert room.devices connection.peer.device_id connection in
      let joined = peer_joined (record { room_id = room_id; peer = connection.peer }) in
      if leb max_devices_per_room (length room.devices)
      then (record { rooms = insert state.rooms room_id room }, err (room_full room_id))
      else (
        record { rooms = insert state.rooms room_id (record { devices = devices }) },
        ok (announce room_id joined devices),
      )

  unfoldable pub unregister_client : RelayState → RoomId → DeviceId → RelayState × Sends
  unregister_client state room_id device_id = elim (get state.rooms room_id) [
    | none ↦ (state, [])
    | some room ↦
        let devices = remove room.devices device_id in
        let left = peer_left (record { room_id = room_id; device_id = device_id }) in
        (
          without_device state room_id devices,
          if is_empty devices then [] else announce room_id left devices,
        )
  ]

  unfoldable pub forward_encrypted : RelayState → RoomId → DeviceId → EncryptedPayload → Sends
  forward_encrypted state room_id sender_device_id payload =
      elim (encode_frame codec (encrypted payload)) [
        | ok frame ↦ elim (get state.rooms room_id) [
          | none ↦ []
          | some room ↦ to_all frame (other_txs sender_device_id room.devices)
        ]
        | _ ↦ []
      ]
