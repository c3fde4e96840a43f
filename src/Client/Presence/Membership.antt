-- ===== src/Client/Presence/Membership.antt =====
-- What a client knows of its room.
use cliprelay.Base.{
  ap, false, true, subst, ◌≡◌, refl, sym, ◌∙◌, Option, none, some, ok, List, [], ◌∷◌, Bool-cases,
  inl, inr, ◌=?◌, =?→eq,
}
use cliprelay.Base.Map.{Map, get, insert, get-insert, Distinct, Each}
use mathlib.Core.List.{Perm}
use cliprelay.Text.{Bytes, Text}
use cliprelay.Core.{PeerInfo, DeviceId, RoomId, peer_list, salt_exchange}
use cliprelay.Core.Cipher.{Primitives, derive_room_key}
use cliprelay.Core.Cipher.Keys.{derive_room_key-perm}
use cliprelay.Relay.Room.Invariant.{IsRoom}
use cliprelay.Relay.Room.{Room, Connection, peers_of}
use cliprelay.Client.{room_key_ready, ClientConfig, SharedRuntimeState}
use cliprelay.Client.Presence.{insert_all, peers_after, on_control, on_salt_exchange}

abbrev pub peer_or : Option PeerInfo → Option Connection → Option PeerInfo
peer_or o none = o
peer_or o (some c) = some c.peer

abbrev pub IsKeyed : Map Connection → Type 0
IsKeyed devices = Each (λ id c. c.peer.device_id ≡ id) devices

get-insert_all :
    (m : Map PeerInfo) (devices : Map Connection) (id : DeviceId)
    → IsKeyed devices
    → Distinct devices
    → get (insert_all m (peers_of devices)) id ≡ peer_or (get m id) (get devices id)
unfolding insert_all get
get-insert_all m [] id keyed distinct = refl
get-insert_all m ((j, c) ∷ devices) id keyed distinct =
    let later = get-insert_all (insert m c.peer.device_id c.peer) devices id keyed.1 distinct.1 in
    later ∙ elim (Bool-cases (j =? id)) [
      | inl same ↦
          let gone : get devices id ≡ none =
            subst (λ (k : DeviceId). get devices k ≡ none) (=?→eq j id same) distinct.0 in
          let own : (c.peer.device_id =? id) ≡ true = rw keyed.0 same in
          rw (gone, same, get-insert m c.peer.device_id id c.peer, own) refl
      | inr other ↦
          let own : (c.peer.device_id =? id) ≡ false = rw keyed.0 other in
          rw (other, get-insert m c.peer.device_id id c.peer, own) refl
    ]

on_salt_exchange-ok :
    (prim : Primitives) (config : ClientConfig) (shared : SharedRuntimeState) (ids : List DeviceId)
    (key : Bytes)
    → derive_room_key prim config.room_code ids ≡ ok key
    → on_salt_exchange prim config shared ids
      ≡ ((record shared { room_key = some key }, room_key_ready true ∷ []))
unfolding on_salt_exchange
on_salt_exchange-ok prim config shared ids key e = rw (e, on_salt_exchange) refl

salt_exchange-key :
    (prim : Primitives) (config : ClientConfig) (m : Map PeerInfo) (shared : SharedRuntimeState)
    (room_id : RoomId) (ids : List DeviceId) (key : Bytes)
    → derive_room_key prim config.room_code ids ≡ ok key
    → (on_control prim config m shared
        (salt_exchange (record { room_id = room_id; device_ids = ids }))).1.room_key
      ≡ some key
unfolding on_control
salt_exchange-key prim config m shared room_id ids key e =
    rw (on_salt_exchange-ok prim config shared ids key e) refl

-- After the peer list of a room, whose devices are distinct and each under its own id, as the relay
-- keeps them, the client finds under every id what the relay has there, whatever it held before.
pub on_control-peer_list :
    (prim : Primitives) (config : ClientConfig) (m : Map PeerInfo) (shared : SharedRuntimeState)
    (room_id : RoomId) (room : Room) (id : DeviceId)
    → IsRoom room
    → get
        (on_control prim config m shared
          (peer_list (record { room_id = room_id; peers = peers_of room.devices }))).0
        id
      ≡ peer_or none (get room.devices id)
unfolding on_control peers_after get
on_control-peer_list prim config m shared room_id room id v =
    get-insert_all [] room.devices id v.keyed v.distinct

-- Two clients that entered the same room code and are told of the same devices, in any order, hold
-- the same room key afterwards, whatever each held before, provided that the key derivation does
-- not fail for one of them.
pub on_control-salt_exchange :
    (prim : Primitives) (config config' : ClientConfig) (m m' : Map PeerInfo)
    (shared shared' : SharedRuntimeState) (room_id : RoomId) (xs ys : List DeviceId) (key : Bytes)
    → config.room_code ≡ config'.room_code
    → Perm xs ys
    → derive_room_key prim config.room_code xs ≡ ok key
    → ((on_control prim config m shared
          (salt_exchange (record { room_id = room_id; device_ids = xs }))).1.room_key
        ≡ some key)
      × ((on_control prim config' m' shared'
            (salt_exchange (record { room_id = room_id; device_ids = ys }))).1.room_key
          ≡ some key)
on_control-salt_exchange prim config config' m m' shared shared' room_id xs ys key same p e =
    let e' : derive_room_key prim config'.room_code ys ≡ ok key =
      ap (λ (code : Text). derive_room_key prim code ys) (sym same)
      ∙ (sym (derive_room_key-perm prim config.room_code p) ∙ e) in
    (
      salt_exchange-key prim config m shared room_id xs key e,
      salt_exchange-key prim config' m' shared' room_id ys key e',
    )
