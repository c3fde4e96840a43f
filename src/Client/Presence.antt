-- ===== src/Client/Presence.antt =====
-- Who is in the room, and the room key: `presence_task` of cliprelay-client/src/main.rs.
pub mod Membership
use cliprelay.Base.{
  ℕ, zero, suc, ◌+◌, Option, none, some, Result, ok, err, panic, List, [], ◌∷◌, ◌++◌, Bool, true,
  false,
}
use cliprelay.Base.Map.{Map, insert, remove, values}
use cliprelay.Text.{Bytes, Text, ascii}
use cliprelay.Core.{
  PeerInfo, ControlMessage, hello, peer_list, peer_joined, peer_left, salt_exchange, error,
  DeviceId,
}
use cliprelay.Core.Cipher.{Primitives, derive_room_key}
use cliprelay.Client.{
  ClientConfig, SharedRuntimeState, UiEvent, peers, room_key_ready, runtime_error, relay_error,
}

-- `peers.insert(peer.device_id.clone(), peer)` for each.
unfoldable pub insert_all : Map PeerInfo → List PeerInfo → Map PeerInfo
insert_all m [] = m
insert_all m (p ∷ ps) = insert_all (insert m p.device_id p) ps

unfoldable pub initial_peers : ClientConfig → Map PeerInfo
initial_peers config =
    insert [] config.device_id
      (record { device_id = config.device_id; device_name = config.device_name })

-- The map of peers after one control message.
unfoldable pub peers_after : Map PeerInfo → ControlMessage → Map PeerInfo
peers_after m (peer_list list) = insert_all [] list.peers
peers_after m (peer_joined joined) = insert m joined.peer.device_id joined.peer
peers_after m (peer_left left) = remove m left.device_id
peers_after m (salt_exchange exchange) = m
peers_after m (error e) = m
peers_after m (hello h) = m

module _ (prim : Primitives) where
  unfoldable pub on_salt_exchange :
      ClientConfig → SharedRuntimeState → List DeviceId → SharedRuntimeState × List UiEvent
  on_salt_exchange config shared device_ids =
      elim (derive_room_key prim config.room_code device_ids) [
        | ok key ↦ (record shared { room_key = some key }, room_key_ready true ∷ [])
        | _ ↦ (shared, [])
      ]

  -- One round of the loop: the peers, the shared state, and what is told to the window.
  unfoldable pub on_control :
      ClientConfig
      → Map PeerInfo
      → SharedRuntimeState
      → ControlMessage
      → Map PeerInfo × SharedRuntimeState × List UiEvent
  on_control config m shared (salt_exchange exchange) =
      let (shared', events) = on_salt_exchange config shared exchange.device_ids in
      (m, shared', events)
  on_control config m shared (error e) = (m, shared, runtime_error (relay_error e) ∷ [])
  on_control config m shared (hello h) = (m, shared, [])
  on_control config m shared message =
      let m' = peers_after m message in (m', shared, peers (values m') ∷ [])

  -- The loop. No other task writes the room key while a session runs; `others` is what they do to
  -- the rest of the shared state before a message.
  unfoldable pub presence_task :
      ClientConfig
      → Map PeerInfo
      → SharedRuntimeState
      → List ControlMessage
      → Map PeerInfo × SharedRuntimeState × List UiEvent
  presence_task config m shared [] = (m, shared, [])
  presence_task config m shared (message ∷ rest) =
      let (m', shared', events) = on_control config m shared message in
      let (final, after, later) = presence_task config m' shared' rest in
      (final, after, events ++ later)
