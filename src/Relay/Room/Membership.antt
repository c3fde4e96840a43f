-- ===== src/Relay/Room/Membership.antt =====
-- Who is in which room, as the operations on the shared state change it.
use cliprelay.Base.{
  ok, false, ◌≡◌, refl, arith, Bool, ◌&&◌, Option, none, some, [], ◌∷◌, length, leb, ◌=?◌, =?_iff,
  if◌then◌else◌,
}
use cliprelay.Base.Map.{Map, get, insert, remove, get-insert, get-remove}
use cliprelay.Core.{peer_joined, RoomId, DeviceId, Codec, max_devices_per_room}
use cliprelay.Relay.Room.{
  announce, Sends, Connection, Room, RelayState, room_or_default, register_client,
  unregister_client, without_device,
}

abbrev pub devices_of : Option Room → Map Connection
devices_of none = []
devices_of (some room) = room.devices

-- The connection that the relay has for a device in a room.
abbrev pub lookup_device : RelayState → RoomId → DeviceId → Option Connection
lookup_device state room_id id = get (devices_of (get state.rooms room_id)) id

abbrev pub is_full : RelayState → RoomId → Bool
is_full state room_id = leb max_devices_per_room (length (devices_of (get state.rooms room_id)))

pub room_or_default-devices :
    (state : RelayState) (room_id : RoomId)
    → (room_or_default state room_id).devices ≡ devices_of (get state.rooms room_id)
unfolding room_or_default
room_or_default-devices state room_id = ground arith

get-nil : (d : DeviceId) → get {V = Connection} [] d ≡ none
unfolding get
get-nil d = refl

lookup-put :
    (state : RelayState) (room_id r : RoomId) (room : Room) (d : DeviceId)
    → lookup_device (record { rooms = insert state.rooms room_id room }) r d
      ≡ (if room_id =? r then get room.devices d else lookup_device state r d)
lookup-put state room_id r room d = ground (arith, get-insert state.rooms room_id r room)

-- A client that registers is found under its id in its room, in place of an earlier connection of
-- the same device; in a room that is full nothing changes. Nobody else is affected.
pub lookup_device-register_client :
    (codec : Codec) (state : RelayState) (room_id r : RoomId) (c : Connection) (d : DeviceId)
    → lookup_device (register_client codec state room_id c).0 r d ≡ (
        if is_full state room_id
        then lookup_device state r d
        else if room_id =? r && c.peer.device_id =? d
        then some c
        else lookup_device state r d)
unfolding register_client
lookup_device-register_client codec state room_id r c d = ground (
  arith,
  room_or_default-devices state room_id,
  lookup-put state room_id r (room_or_default state room_id) d,
  lookup-put state room_id r
      (record { devices = insert (room_or_default state room_id).devices c.peer.device_id c }) d,
  get-insert (room_or_default state room_id).devices c.peer.device_id d c,
  =?_iff room_id r,
)

lookup-without_device :
    (state : RelayState) (room_id r : RoomId) (devices : Map Connection) (d : DeviceId)
    → lookup_device (without_device state room_id devices) r d
      ≡ (if room_id =? r then get devices d else lookup_device state r d)
unfolding without_device
lookup-without_device state room_id r [] d =
    ground (arith, get-remove state.rooms room_id r, get-nil d)
lookup-without_device state room_id r (e ∷ devices) d =
    lookup-put state room_id r (record { devices = e ∷ devices }) d

-- A client that unregisters is gone from its room, and nobody else is affected.
pub lookup_device-unregister_client :
    (codec : Codec) (state : RelayState) (room_id r : RoomId) (id d : DeviceId)
    → lookup_device (unregister_client codec state room_id id).0 r d
      ≡ (if room_id =? r && id =? d then none else lookup_device state r d)
unfolding unregister_client
lookup_device-unregister_client codec state room_id r id d = ground (
  arith,
  get-nil id,
  get-nil d,
  lookup-without_device state room_id r (remove (devices_of (get state.rooms room_id)) id) d,
  get-remove (devices_of (get state.rooms room_id)) id d,
  =?_iff room_id r,
)

-- A device is let into a room that is not full.
pub register_client-ok :
    (codec : Codec) (state : RelayState) (room_id : RoomId) (c : Connection)
    → is_full state room_id ≡ false
    → (sends : Sends) × ((register_client codec state room_id c).1 ≡ ok sends)
unfolding register_client
register_client-ok codec state room_id c room =
    let devices = insert (room_or_default state room_id).devices c.peer.device_id c in
    (
      announce codec room_id (peer_joined (record { room_id = room_id; peer = c.peer })) devices,
      ground (arith, room_or_default-devices state room_id),
    )
