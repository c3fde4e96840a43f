-- ===== src/Relay/Room/Invariant.antt =====
-- What every room satisfies at all times, and that the operations on the shared state keep it.
use cliprelay.Base.{
  ◌≤◌, ◌<◌, ◌≡◌, refl, arith, false, Bool-cases, Option-cases, [], ◌∷◌, length, inl, inr, leb,
  leb→le,
}
use cliprelay.Base.Map.{
  Map, get, insert, remove, Distinct, Each, get-Each, insert-Each, remove-Each, insert-Distinct,
  remove-Distinct, length-insert, length-remove-le,
}
use cliprelay.Text.{Text, is_empty}
use cliprelay.Core.{RoomId, DeviceId, Codec, max_devices_per_room}
use cliprelay.Relay.Room.{
  Connection, Room, RelayState, room_or_default, register_client, unregister_client, without_device,
}

-- A room has a device at least and 10 at most, no id twice, and each under its own id.
pub record IsRoom (room : Room) : Type 0 where
  pub occupied : 1 ≤ length room.devices
  pub bounded : length room.devices ≤ max_devices_per_room
  pub distinct : Distinct room.devices
  pub keyed : Each (λ id conn. conn.peer.device_id ≡ id) room.devices

pub record IsRelay (state : RelayState) : Type 0 where
  pub distinct : Distinct state.rooms
  pub rooms : Each (λ id room. IsRoom room) state.rooms

pub initial-IsRelay : IsRelay (record { rooms = [] })
initial-IsRelay = record { distinct = tt; rooms = tt }

-- A room that may still be empty, as `or_default` makes it.
record IsPartRoom (room : Room) : Type 0 where
  bounded : length room.devices ≤ max_devices_per_room
  distinct : Distinct room.devices
  keyed : Each (λ id conn. conn.peer.device_id ≡ id) room.devices

room_or_default-IsPartRoom :
    (state : RelayState) (room_id : RoomId)
    → IsRelay state
    → IsPartRoom (room_or_default state room_id)
unfolding room_or_default
room_or_default-IsPartRoom state room_id v = elim (Option-cases (get state.rooms room_id)) [
  | inl e ↦ rw (e, room_or_default) (record { bounded = omega arith; distinct = tt; keyed = tt })
  | inr (room, e) ↦
      let r : IsRoom room = get-Each (λ id r. IsRoom r) state.rooms room_id v.rooms e in
      rw (e, room_or_default)
        (record { bounded = r.bounded; distinct = r.distinct; keyed = r.keyed })
]

insert_occupied : (m : Map Connection) (k : Text) (c : Connection) → 1 ≤ length (insert m k c)
unfolding insert
insert_occupied [] k c = omega arith
insert_occupied ((j, d) ∷ m) k c = ground arith

occupied_of_not_empty : (m : Map Connection) → is_empty m ≡ false → 1 ≤ length m
occupied_of_not_empty [] h = cc
occupied_of_not_empty (e ∷ m) h = omega arith

joined-IsRoom :
    (room : Room) (c : Connection)
    → IsPartRoom room
    → length room.devices < max_devices_per_room
    → IsRoom (record { devices = insert room.devices c.peer.device_id c })
joined-IsRoom room c r h = record {
  occupied = insert_occupied room.devices c.peer.device_id c;
  bounded = ground (arith, length-insert room.devices c.peer.device_id c);
  distinct = insert-Distinct room.devices c.peer.device_id c r.distinct;
  keyed =
      insert-Each (λ id conn. conn.peer.device_id ≡ id) room.devices c.peer.device_id c refl
        r.keyed;
}

put_room-IsRelay :
    (state : RelayState) (room_id : RoomId) (room : Room)
    → IsRelay state
    → IsRoom room
    → IsRelay (record { rooms = insert state.rooms room_id room })
put_room-IsRelay state room_id room v r = record {
  distinct = insert-Distinct state.rooms room_id room v.distinct;
  rooms = insert-Each (λ id r. IsRoom r) state.rooms room_id room r v.rooms;
}

-- A client that registers, or is refused since the room is full, leaves a sound state.
pub register_client-IsRelay :
    (codec : Codec) (state : RelayState) (room_id : RoomId) (c : Connection)
    → IsRelay state
    → IsRelay (register_client codec state room_id c).0
unfolding register_client
register_client-IsRelay codec state room_id c v =
    let room = room_or_default state room_id in
    let part = room_or_default-IsPartRoom state room_id v in
    elim (Bool-cases (leb max_devices_per_room (length room.devices))) [
      | inl full ↦
          rw (full, register_client)
            (put_room-IsRelay state room_id room v (record {
              occupied = omega (arith, leb→le _ _ full);
              bounded = part.bounded;
              distinct = part.distinct;
              keyed = part.keyed;
            }))
      | inr space ↦
          rw (space, register_client)
            (put_room-IsRelay state room_id _ v (joined-IsRoom room c part (ground arith)))
    ]

left-IsRoom :
    (room : Room) (id : DeviceId)
    → IsRoom room
    → is_empty (remove room.devices id) ≡ false
    → IsRoom (record { devices = remove room.devices id })
left-IsRoom room id r h = record {
  occupied = occupied_of_not_empty (remove room.devices id) h;
  bounded = omega (arith, r.bounded, length-remove-le room.devices id);
  distinct = remove-Distinct room.devices id r.distinct;
  keyed = remove-Each (λ id conn. conn.peer.device_id ≡ id) room.devices id r.keyed;
}

-- A client that unregisters leaves a sound state: in particular, no room without devices.
pub unregister_client-IsRelay :
    (codec : Codec) (state : RelayState) (room_id : RoomId) (id : DeviceId)
    → IsRelay state
    → IsRelay (unregister_client codec state room_id id).0
unfolding unregister_client without_device
unregister_client-IsRelay codec state room_id id v = elim (Option-cases (get state.rooms room_id)) [
  | inl e ↦ rw (e, unregister_client) v
  | inr (room, e) ↦
      let r : IsRoom room = get-Each (λ id r. IsRoom r) state.rooms room_id v.rooms e in
      elim (Bool-cases (is_empty (remove room.devices id))) [
        | inl last ↦
            rw (e, unregister_client, last, without_device)
              (record {
                distinct = remove-Distinct state.rooms room_id v.distinct;
                rooms = remove-Each (λ id r. IsRoom r) state.rooms room_id v.rooms;
              })
        | inr more ↦
            rw (e, unregister_client, more, without_device)
              (put_room-IsRelay state room_id _ v (left-IsRoom room id r more))
      ]
]
